-- ===== src/Storage/Sharing.antt =====
-- Shared folders, and the replicas that a folder pairing wires to them, in
-- ferrisync-core/src/storage/mod.rs.
use ferri_sync.Prelude.{
  ℕ, ◌+◌, Bool, true, false, not, ◌&&◌, List, [], ◌∷◌, ◌++◌, map, Option, none, some, String,
  string_eq, nat_eq, pair_eq, list_eq, ◌==◌, if◌then◌else◌, is_some, keep, reverse_onto,
}
use ferri_sync.Prelude.Maps.{HashMap, remove, adjust, lookup}
use ferri_sync.Prelude.Options.{option_bind}
use ferri_sync.Version.{DeviceId}
use ferri_sync.Storage.References.{enforce}
use ferri_sync.Storage.Tables.{first_row}
use ferri_sync.Storage.{Database, FolderRow, ShareRow}
use ferri_sync.Storage.Labels.{path_label, is_blank}
use ferri_sync.Storage.Folders.{
  at_path, insert_folder, add_folder_device, update_folder, folder_id_for_guid,
}

-- `UNIQUE (folder_guid, device_id)`
abbrev pub is_share : DeviceId → String → ℕ × ShareRow → Bool
is_share device_id folder_guid kv =
    (ShareRow.device_id kv.1 == device_id) && (ShareRow.folder_guid kv.1 == folder_guid)

unfoldable pub share_folder : String → DeviceId → String → String → Database → Option Database
unfolding enforce
share_folder folder_guid device_id name local_path db =
    if is_some (first_row (is_share device_id folder_guid) db.shared_folders)
    then some db
    else enforce (record db {
      last_share = db.last_share + 1;
      shared_folders =
          db.shared_folders
          ++ (
            db.last_share + 1,
            record {
              folder_guid = folder_guid;
              device_id = device_id;
              name = name;
              local_path = local_path;
              discoverable = true;
              enabled = true;
              permissions = "read_write";
            },
          )
            ∷ [];
    })

unfoldable pub list_shared_folders : DeviceId → Database → List (ℕ × ShareRow)
list_shared_folders device_id db =
    reverse_onto (keep (λ kv. ShareRow.device_id kv.1 == device_id) db.shared_folders) []

unfoldable pub shared_folder_by_guid : DeviceId → String → Database → Option (ℕ × ShareRow)
shared_folder_by_guid device_id folder_guid db =
    first_row (is_share device_id folder_guid) db.shared_folders

unfoldable pub set_shared_discoverable : ℕ → Bool → Database → Database
set_shared_discoverable id discoverable db = record db {
  shared_folders =
      adjust id (λ share. record share { discoverable = discoverable }) db.shared_folders;
}

unfoldable pub unshare_folder : ℕ → Database → Database
unshare_folder id db = record db { shared_folders = remove id db.shared_folders }

-- The replica of a guid, or a new one without a pair.
abbrev pub replica_or_new :
    String → String → String → DeviceId → Database → Option ℕ → Option (ℕ × Database)
replica_or_new guid local_path name device_id db none =
    insert_folder local_path name device_id "bidirectional" guid db
replica_or_new guid local_path name device_id db (some id) = some (id, db)

unfoldable pub ensure_folder_by_guid :
    String → String → String → DeviceId → Database → Option (ℕ × Database)
unfolding folder_id_for_guid enforce
ensure_folder_by_guid guid local_path name device_id db =
    replica_or_new guid local_path name device_id db (folder_id_for_guid guid db)

-- `UPDATE shared_folders SET folder_guid = ?1 WHERE device_id = ?2 AND folder_guid = ?3`, when the
-- folder had a guid.
abbrev pub rebind_shares :
    String → DeviceId → Option String → HashMap ℕ ShareRow → HashMap ℕ ShareRow
rebind_shares guid own_device_id none shares = shares
rebind_shares guid own_device_id (some old_guid) shares =
    map
      (λ kv.
        if is_share own_device_id old_guid kv
        then (kv.0, record (kv.1) { folder_guid = guid })
        else kv)
      shares

-- The update violates `UNIQUE` when the device shares the new guid already and the old one too.
abbrev pub rebind_conflicts : String → DeviceId → Option String → HashMap ℕ ShareRow → Bool
rebind_conflicts guid own_device_id none shares = false
rebind_conflicts guid own_device_id (some old_guid) shares =
    not (old_guid == guid)
    && is_some (first_row (is_share own_device_id old_guid) shares)
    && is_some (first_row (is_share own_device_id guid) shares)

-- `INSERT INTO folder_devices`, which fails when the key is taken.
abbrev pub insert_pair : ℕ → DeviceId → String → Database → Option Database
insert_pair folder_id device_id mode db =
    if is_some (lookup (folder_id, device_id) db.folder_devices)
    then none
    else enforce (record db {
      folder_devices =
          db.folder_devices
          ++ ((folder_id, device_id), record { mode = mode; remote_path = none; enabled = true })
            ∷ [];
    })

-- A new replica has a pair with this device, as in `add_sync_folder`.
unfoldable pub wire_new :
    String → String → String → DeviceId → Database → Option ℕ → Option (ℕ × Database)
unfolding path_label enforce
wire_new guid local_path name own_device_id db (some id) = some (id, db)
wire_new guid local_path name own_device_id db none =
    let label = if is_blank name then path_label local_path else name in
    option_bind (insert_folder local_path label own_device_id "bidirectional" guid db) (λ made.
      option_bind (insert_pair (made.0) own_device_id "bidirectional" (made.1))
        (λ paired. some (made.0, paired)))

-- The transaction of `wire_folder_pair`: the folder at the path, else the one with the guid, else a
-- new one. An error rolls back.
unfoldable pub wire_folder :
    String → String → String → DeviceId → Database → Option (ℕ × FolderRow) → Option (ℕ × Database)
unfolding wire_new folder_id_for_guid
wire_folder guid local_path name own_device_id db none =
    wire_new guid local_path name own_device_id db (folder_id_for_guid guid db)
wire_folder guid local_path name own_device_id db (some (wired_id, f)) =
    if rebind_conflicts guid own_device_id f.folder_guid db.shared_folders
    then none
    else some (
      wired_id,
      record (update_folder wired_id (λ row. record row { folder_guid = some guid }) db) {
        shared_folders = rebind_shares guid own_device_id f.folder_guid db.shared_folders;
      },
    )

-- The pair is added after the transaction, which stays when that fails: the database after the call,
-- and the id of the folder if it succeeded.
unfoldable pub wire_folder_pair :
    String → String → String → DeviceId → DeviceId → Option String → Database → Database × Option ℕ
unfolding wire_folder add_folder_device
wire_folder_pair guid local_path name own_device_id peer_device_id peer_path db =
    let found = first_row (at_path local_path) db.sync_folders in
    elim (wire_folder guid local_path name own_device_id db found) [
      | none ↦ (db, none)
      | some (id, wired) ↦
          elim (add_folder_device id peer_device_id "bidirectional" peer_path wired) [
            | none ↦ (wired, none)
            | some paired ↦ (paired, some id)
          ]
    ]
