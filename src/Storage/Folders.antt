-- ===== src/Storage/Folders.antt =====
-- Sync folders and their pairs in ferrisync-core/src/storage/mod.rs: the tables `sync_folders` and
-- `folder_devices`.
use Prim.Native.String.{compare}
use text.Mathlib.Text.{is_le}
use ferri_sync.Prelude.{
  ℕ, ◌+◌, Bool, true, false, List, [], ◌∷◌, ◌++◌, Option, none, some, String, string_eq, nat_eq,
  pair_eq, ◌==◌, if◌then◌else◌, filter_map, ltb,
}
use ferri_sync.Prelude.Int.{ℤ}
use ferri_sync.Prelude.Maps.{HashMap, lookup, insert, adjust}
use ferri_sync.Prelude.Options.{option_bind}
use ferri_sync.Version.{DeviceId}
use ferri_sync.Storage.{Database, FolderRow, PairRow}
use ferri_sync.Storage.Labels.{path_label, name_or_label}
use ferri_sync.Storage.Devices.{coalesce_with}
use ferri_sync.Storage.References.{enforce}
use ferri_sync.Storage.Tables.{first_row, is_text, max_id, order_by}

abbrev pub at_path : String → ℕ × FolderRow → Bool
at_path local_path kv = FolderRow.local_path kv.1 == local_path

abbrev pub has_guid : String → ℕ × FolderRow → Bool
has_guid guid kv = is_text guid (FolderRow.folder_guid kv.1)

-- The row of `INSERT INTO sync_folders`: the id is one more than the last that was given out.
abbrev pub with_folder : String → String → DeviceId → String → String → Database → Database
with_folder local_path name device_id direction guid db = record db {
  last_folder = db.last_folder + 1;
  sync_folders =
      db.sync_folders
      ++ (
        db.last_folder + 1,
        record {
          local_path = local_path;
          name = some name;
          device_id = device_id;
          active = true;
          direction = direction;
          last_sync_at = none;
          folder_guid = some guid;
        },
      )
        ∷ [];
}

abbrev pub insert_folder :
    String → String → DeviceId → String → String → Database → Option (ℕ × Database)
insert_folder local_path name device_id direction guid db =
    option_bind (enforce (with_folder local_path name device_id direction guid db))
      (λ db'. some (db.last_folder + 1, db'))

-- The pair after `ON CONFLICT .. DO UPDATE`: the remote path stays unless a new one is given.
abbrev pub pair_row : String → Option String → Option PairRow → PairRow
pair_row mode remote_path none = record { mode = mode; remote_path = remote_path; enabled = true }
pair_row mode remote_path (some row) = record {
  mode = mode;
  remote_path = coalesce_with remote_path row.remote_path;
  enabled = true;
}

abbrev pub with_pair : ℕ → DeviceId → String → Option String → Database → Database
with_pair folder_id device_id mode remote_path db =
    let row = pair_row mode remote_path (lookup (folder_id, device_id) db.folder_devices) in
    record db { folder_devices = insert (folder_id, device_id) row db.folder_devices }

unfoldable pub add_folder_device :
    ℕ → DeviceId → String → Option String → Database → Option Database
unfolding enforce
add_folder_device folder_id device_id mode remote_path db =
    enforce (with_pair folder_id device_id mode remote_path db)

-- `new_folder_guid` hashes the row id and the process id: a parameter.
module _ (new_folder_guid : ℕ → String) where
  abbrev pub register_folder : String → DeviceId → String → Database → Option (ℕ × Database)
  register_folder local_path device_id direction db =
      insert_folder local_path (path_label local_path) device_id direction
        (new_folder_guid (max_id db.sync_folders + 1)) db

  -- The folder at the path, or a new one.
  abbrev pub match_folder :
      String → DeviceId → String → Database → Option (ℕ × FolderRow) → Option (ℕ × Database)
  match_folder local_path device_id direction db none =
      register_folder local_path device_id direction db
  match_folder local_path device_id direction db (some (id, f)) = some (id, db)

  -- One transaction: an error rolls back.
  unfoldable pub add_sync_folder : String → DeviceId → String → Database → Option (ℕ × Database)
  unfolding add_folder_device path_label enforce
  add_sync_folder local_path device_id direction db =
      let found = first_row (at_path local_path) db.sync_folders in
      option_bind (match_folder local_path device_id direction db found) (λ matched.
        option_bind (add_folder_device (matched.0) device_id direction none (matched.1))
          (λ paired. some (matched.0, paired)))

-- (id, local_path, device_id, direction, last_sync_at)
abbrev pub SyncFolderRow : Type 0
SyncFolderRow = ℕ × String × DeviceId × String × Option ℤ

-- The rows of one folder in the join, `WHERE fd.enabled = 1`.
abbrev pub join_pair : ℕ → FolderRow → (ℕ × DeviceId) × PairRow → Option SyncFolderRow
join_pair id f ((folder_id, device_id), row) =
    if folder_id == id
    then if row.enabled then some (id, f.local_path, device_id, row.mode, f.last_sync_at) else none
    else none

abbrev pub join_pairs : HashMap ℕ FolderRow → HashMap (ℕ × DeviceId) PairRow → List SyncFolderRow
join_pairs [] pairs = []
join_pairs ((id, f) ∷ folders) pairs = filter_map (join_pair id f) pairs ++ join_pairs folders pairs

-- `ORDER BY f.id, fd.device_id`
abbrev pub row_leb : SyncFolderRow → SyncFolderRow → Bool
row_leb (i, p, d, m, t) (j, q, e, n, u) =
    if ltb i j then true else if i == j then is_le (compare d e) else false

unfoldable pub list_sync_folders : Database → List SyncFolderRow
list_sync_folders db = order_by row_leb (join_pairs db.sync_folders db.folder_devices)

abbrev pub of_folder {ℓ} : {K : Type 0} {V : Type ℓ} → ℕ → (ℕ × K) × V → Bool
of_folder folder_id kv = kv.0.0 == folder_id

abbrev pub of_device {ℓ} : {K : Type 0} {V : Type ℓ} → DeviceId → (K × DeviceId) × V → Bool
of_device device_id kv = kv.0.1 == device_id

unfoldable pub folder_path : ℕ → Database → Option String
folder_path folder_id db = elim (lookup folder_id db.sync_folders) [
  | none ↦ none
  | some f ↦ some f.local_path
]

unfoldable pub folder_guid : ℕ → Database → Option String
folder_guid folder_id db =
    option_bind (lookup folder_id db.sync_folders) (λ f. FolderRow.folder_guid f)

unfoldable pub folder_id_for_guid : String → Database → Option ℕ
folder_id_for_guid guid db = elim (first_row (has_guid guid) db.sync_folders) [
  | none ↦ none
  | some kv ↦ some kv.0
]

unfoldable pub folder_pair_remote_path : ℕ → DeviceId → Database → Option String
folder_pair_remote_path folder_id device_id db =
    option_bind (lookup (folder_id, device_id) db.folder_devices) (λ row. PairRow.remote_path row)

-- An error when there is no such folder.
unfoldable pub folder_name : ℕ → Database → Option String
folder_name folder_id db = elim (lookup folder_id db.sync_folders) [
  | none ↦ none
  | some f ↦ some (name_or_label f.name f.local_path)
]

-- `UPDATE sync_folders SET .. WHERE id = ?2`
abbrev pub update_folder : ℕ → (FolderRow → FolderRow) → Database → Database
update_folder folder_id f db = record db { sync_folders = adjust folder_id f db.sync_folders }

unfoldable pub set_folder_name : ℕ → String → Database → Database
set_folder_name folder_id name db = update_folder folder_id (λ f. record f { name = some name }) db

unfoldable pub set_folder_last_sync : ℕ → ℤ → Database → Database
set_folder_last_sync folder_id ts db =
    update_folder folder_id (λ f. record f { last_sync_at = some ts }) db

unfoldable pub set_folder_local_path : ℕ → String → Database → Database
set_folder_local_path folder_id new_path db =
    update_folder folder_id (λ f. record f { local_path = new_path }) db
