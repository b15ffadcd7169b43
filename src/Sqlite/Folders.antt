-- ===== src/Sqlite/Folders.antt =====
-- The folders of ferrisync-core/src/persistence/sqlite.rs.
use ferri_sync.Prelude.{
  ℕ, ◌+◌, ◌^◌, Bool, true, ◌&&◌, List, [], map, Option, none, some, String, string_eq, ◌==◌, ltb,
  if◌then◌else◌, length,
}
use ferri_sync.Prelude.Int.{ℤ, pos, int_eq, int_leb}
use ferri_sync.Prelude.Maps.{lookup, insert, adjust}
use ferri_sync.Prelude.Options.{option_or, option_bind}
use ferri_sync.Version.{DeviceId}
use ferri_sync.Snapshot.{FolderId}
use ferri_sync.Domain.{Folder, bidirectional, parse_direction}
use ferri_sync.Storage.Tables.{delete_where, order_by}
use ferri_sync.Sqlite.References.{check_keys}
use ferri_sync.Sqlite.{SqliteStore, SqliteFolderRow}

-- A row of the table as a folder.
abbrev pub read_folder : FolderId → SqliteFolderRow → Folder
read_folder id row = record {
  id = id;
  local_path = row.local_path;
  device_id = row.device_id;
  direction = option_or (parse_direction row.direction) bidirectional;
  last_sync_at = row.last_sync_at;
}

unfoldable pub get_folder : FolderId → SqliteStore → Option Folder
get_folder id s = elim (lookup id s.sync_folders) [
  | none ↦ none
  | some row ↦ some (read_folder id row)
]

-- `ORDER BY id`
unfoldable pub list_folders : SqliteStore → List Folder
list_folders s =
    order_by (λ f g. int_leb (Folder.id f) (Folder.id g))
      (map (λ kv. read_folder kv.0 kv.1) s.sync_folders)

-- The row that the statement inserts, with the defaults of the schema.
abbrev pub folder_row : String → DeviceId → String → SqliteFolderRow
folder_row local_path device_id direction = record {
  local_path = local_path;
  device_id = device_id;
  active = true;
  direction = direction;
  last_sync_at = none;
}

-- AUTOINCREMENT gives the id after the last one, and fails when that is the largest of `i64`; the
-- statement fails too when the device has no row.
unfoldable pub add_folder :
    String → DeviceId → String → SqliteStore → Option (SqliteStore × FolderId)
unfolding check_keys
add_folder local_path device_id direction s =
    let id = s.last_folder + 1 in
    if ltb id (2 ^ 63)
    then option_bind
        (check_keys (record s {
          sync_folders = insert (pos id) (folder_row local_path device_id direction) s.sync_folders;
          last_folder = id;
        }))
        (λ added. some (added, pos id))
    else none

-- Metadata, history and tombstones of the folder keep it.
unfoldable pub remove_folder : FolderId → SqliteStore → Option SqliteStore
unfolding check_keys
remove_folder id s =
    check_keys (record s { sync_folders = (delete_where (λ kv. kv.0 == id) s.sync_folders).0 })

unfoldable pub set_folder_last_sync : FolderId → ℤ → SqliteStore → SqliteStore
set_folder_last_sync id ts s = record s {
  sync_folders = adjust id (λ row. record row { last_sync_at = some ts }) s.sync_folders;
}

unfoldable pub set_folder_device : FolderId → DeviceId → SqliteStore → Option SqliteStore
unfolding check_keys
set_folder_device id device_id s = check_keys (record s {
  sync_folders = adjust id (λ row. record row { device_id = device_id }) s.sync_folders;
})

abbrev pub of_pair : String → Option DeviceId → SqliteFolderRow → Bool
of_pair local_path none row = row.local_path == local_path
of_pair local_path (some dev) row = (row.local_path == local_path) && (row.device_id == dev)

unfoldable pub remove_sync_folders :
    String → Option DeviceId → SqliteStore → Option (SqliteStore × ℕ)
unfolding check_keys
remove_sync_folders local_path device_id s =
    let (folders, deleted) =
      delete_where (λ kv. of_pair local_path device_id kv.1) s.sync_folders in
    option_bind (check_keys (record s { sync_folders = folders }))
      (λ removed. some (removed, deleted))

-- One transaction: an error rolls back. The folders cannot go while there is a tombstone.
unfoldable pub clear_all_sync_state : SqliteStore → Option (SqliteStore × ℕ × ℕ)
unfolding check_keys
clear_all_sync_state s =
    option_bind (check_keys (record s { file_history = []; file_metadata = []; sync_folders = [] }))
      (λ unfoldered.
        option_bind (check_keys (record unfoldered { devices = [] }))
          (λ cleared. some (cleared, length s.sync_folders, length s.devices)))
