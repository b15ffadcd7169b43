-- ===== src/Storage/Records.antt =====
-- Sessions, file metadata, file history, and the removal of a device in
-- ferrisync-core/src/storage/mod.rs.
use ferri_sync.Prelude.{
  ℕ, ◌+◌, Bool, true, not, ◌||◌, List, [], ◌∷◌, ◌++◌, map, Option, none, some, String, string_eq,
  nat_eq, pair_eq, list_eq, ◌==◌, contains, keep, length,
}
use ferri_sync.Prelude.Int.{ℤ, pos, negsuc, of_word, as_u64}
use ferri_sync.Prelude.Maps.{HashMap, lookup, insert}
use ferri_sync.Prelude.Options.{option_bind, option_or}
use ferri_sync.Version.{DeviceId}
use ferri_sync.Storage.References.{enforce}
use ferri_sync.Storage.Tables.{is_text, newest, delete_where}
use ferri_sync.Domain.{SessionRecord, DeviceCleanup}
use ferri_sync.Storage.{Database, MetadataRow, HistoryRow, SessionRow}
use ferri_sync.Storage.Folders.{of_device}

abbrev pub max_session_history : ℕ
max_session_history = 100

-- The row of a finished session: the counts and the bytes `as i64`.
abbrev pub session_row : SessionRecord → SessionRow
session_row r = record {
  ts = r.ts;
  direction = r.direction;
  peer_device = r.peer_device;
  addr = r.addr;
  folder_path = r.folder_path;
  pushed_count = of_word r.pushed_count;
  pulled_count = of_word r.pulled_count;
  conflicts_count = of_word r.conflicts_count;
  pushed_bytes = of_word r.pushed_bytes;
  pulled_bytes = of_word r.pulled_bytes;
}

-- `DELETE .. WHERE id NOT IN (SELECT id .. ORDER BY id DESC LIMIT ?1)`
abbrev pub keep_newest : HashMap ℕ SessionRow → HashMap ℕ SessionRow
keep_newest rows =
    let ids = map (λ kv. kv.0) (newest max_session_history rows) in
    keep (λ kv. contains kv.0 ids) rows

unfoldable pub record_session : SessionRecord → Database → Database
record_session r db = record db {
  last_session = db.last_session + 1;
  sync_sessions = keep_newest (db.sync_sessions ++ (db.last_session + 1, session_row r) ∷ []);
}

-- Reading an `i64` into a `usize`, which a negative one fails.
abbrev pub read_usize : ℤ → Option ℕ
read_usize (pos n) = some n
read_usize (negsuc n) = none

unfoldable pub read_session : SessionRow → Option SessionRecord
read_session row = option_bind (read_usize row.pushed_count) (λ pushed.
    option_bind (read_usize row.pulled_count) (λ pulled.
      option_bind (read_usize row.conflicts_count) (λ conflicts. some (record {
        ts = row.ts;
        direction = row.direction;
        peer_device = row.peer_device;
        addr = row.addr;
        folder_path = row.folder_path;
        pushed_count = pushed;
        pulled_count = pulled;
        conflicts_count = conflicts;
        pushed_bytes = as_u64 row.pushed_bytes;
        pulled_bytes = as_u64 row.pulled_bytes;
      }))))

-- `collect::<Result<Vec<_>>>()`
abbrev pub collect_sessions : HashMap ℕ SessionRow → Option (List SessionRecord)
collect_sessions [] = some []
collect_sessions ((id, row) ∷ rows) =
    option_bind (read_session row) (λ r. option_bind (collect_sessions rows) (λ rs. some (r ∷ rs)))

unfoldable pub list_recent_sessions : ℕ → Database → Option (List SessionRecord)
unfolding read_session
list_recent_sessions limit db = collect_sessions (newest limit db.sync_sessions)

unfoldable pub list_sessions_for_device : DeviceId → ℕ → Database → Option (List SessionRecord)
unfolding read_session
list_sessions_for_device device_id limit db =
    collect_sessions
      (newest limit (keep (λ kv. SessionRow.peer_device kv.1 == device_id) db.sync_sessions))

-- What `get_file_metadata` gives beside the folder and the path.
abbrev pub StoredMetadata : Type 0
StoredMetadata = List ℕ × DeviceId × MetadataRow

unfoldable pub get_file_metadata : ℕ → String → Database → Option StoredMetadata
get_file_metadata folder_id path db = elim (lookup (folder_id, path) db.file_metadata) [
  | none ↦ none
  | some row ↦ some (option_or row.hash [], option_or row.device_id "", row)
]

-- The row after `ON CONFLICT .. DO UPDATE`: the versions keep their values.
abbrev pub metadata_row : ℤ → ℤ → List ℕ → DeviceId → Option MetadataRow → MetadataRow
metadata_row mtime size hash device_id none = record {
  mtime = mtime;
  size = size;
  hash = some hash;
  device_id = some device_id;
  version = pos 0;
  local_version = pos 0;
  remote_version = pos 0;
  local_mtime = pos 0;
  remote_mtime = pos 0;
}
metadata_row mtime size hash device_id (some row) = record row {
  mtime = mtime;
  size = size;
  hash = some hash;
  device_id = some device_id;
}

unfoldable pub upsert_file_metadata :
    ℕ → String → ℤ → ℤ → List ℕ → DeviceId → Database → Option Database
unfolding enforce
upsert_file_metadata folder_id path mtime size hash device_id db =
    let row = metadata_row mtime size hash device_id (lookup (folder_id, path) db.file_metadata) in
    enforce (record db { file_metadata = insert (folder_id, path) row db.file_metadata })

unfoldable pub record_history : HistoryRow → Database → Option Database
unfolding enforce
record_history row db = enforce (record db {
  last_history = db.last_history + 1;
  file_history = db.file_history ++ (db.last_history + 1, row) ∷ [];
})

abbrev pub of_history : Option ℕ → ℕ × HistoryRow → Bool
of_history none kv = true
of_history (some id) kv = HistoryRow.folder_id kv.1 == id

unfoldable pub list_file_history : Option ℕ → ℕ → Database → List HistoryRow
list_file_history folder_id limit db =
    map (λ kv. kv.1) (newest limit (keep (of_history folder_id) db.file_history))

-- The tables are emptied one after another; the devices cannot go while one of them shares a folder.
unfoldable pub clear_all_sync_state : Database → Option (Database × ℕ × ℕ)
unfolding enforce
clear_all_sync_state db =
    let folderless = record db {
      file_history = [];
      file_metadata = [];
      folder_devices = [];
      sync_folders = [];
    } in
    option_bind (enforce (record folderless { devices = [] }))
      (λ db'. some (db', length db.sync_folders, length db.devices))

-- `SELECT folder_id FROM folder_devices WHERE device_id = ?1`
abbrev pub folders_of : DeviceId → Database → List ℕ
folders_of device_id db = map (λ kv. kv.0.0) (keep (of_device device_id) db.folder_devices)

-- One transaction: an error rolls back. The deletion of the headers fails while one of them has
-- metadata or history, and that of the device while a header or a share has its id.
unfoldable pub remove_device : DeviceId → Database → Option (Database × DeviceCleanup)
unfolding enforce
remove_device device_id db =
    let fids = folders_of device_id db in
    let (sessions, sessions_removed) =
      delete_where (λ kv. SessionRow.peer_device kv.1 == device_id) db.sync_sessions in
    let (history, history_removed) =
      delete_where
        (λ kv.
          is_text device_id (HistoryRow.device_id kv.1)
          || contains (HistoryRow.folder_id kv.1) fids)
        db.file_history in
    let (metadata, metadata_removed) =
      delete_where (λ kv. contains (kv.0.0) fids) db.file_metadata in
    let pairs = keep (λ kv. not (of_device device_id kv)) db.folder_devices in
    let (folders, folders_removed) =
      delete_where (λ kv. not (contains kv.0 (map (λ p. p.0.0) pairs))) db.sync_folders in
    let (devices, device_removed) = delete_where (λ kv. kv.0 == device_id) db.devices in
    option_bind
      (enforce (record db {
        sync_sessions = sessions;
        file_history = history;
        file_metadata = metadata;
        folder_devices = pairs;
        sync_folders = folders;
      }))
      (λ unfoldered. option_bind (enforce (record unfoldered { devices = devices })) (λ removed.
        some (
          removed,
          record {
            sessions_removed = sessions_removed;
            history_removed = history_removed;
            metadata_removed = metadata_removed;
            folders_removed = folders_removed;
            device_removed = device_removed;
          },
        )))
