-- ===== src/Storage/Repoint.antt =====
-- The statements of `reconcile_devices_by_cert` of ferrisync-core/src/storage/mod.rs that point the
-- references of the other tables to another device.
use ferri_sync.Prelude.{
  ℕ, Bool, true, false, not, ◌&&◌, List, [], ◌∷◌, map, Option, none, some, string_eq, nat_eq,
  pair_eq, ◌==◌, if◌then◌else◌, is_some,
}
use ferri_sync.Prelude.Maps.{HashMap, lookup}
use ferri_sync.Version.{DeviceId}
use ferri_sync.Storage.{Database, FolderRow, PairRow, HistoryRow, SessionRow, ShareRow}
use ferri_sync.Storage.References.{enforce}
use ferri_sync.Storage.Tables.{first_row}
use ferri_sync.Storage.Sharing.{is_share}

-- From an old id to the one that it becomes. The order of the entries is that of the iteration.
abbrev pub Remap : Type 0
Remap = HashMap DeviceId DeviceId

-- `UPDATE {table} SET {col} = ?1 WHERE {col} = ?2` for one entry, on each table. Where the column is
-- in a key, the statement fails when the new key is taken, and where it is a foreign key, when no
-- device has the new id.
abbrev pub repoint : DeviceId → DeviceId → DeviceId → DeviceId
repoint old new id = if id == old then new else id

abbrev pub pair_taken : DeviceId → DeviceId → HashMap (ℕ × DeviceId) PairRow → Bool
pair_taken old new pairs =
    not (old == new)
    && is_some (first_row (λ kv. (kv.0.1 == old) && is_some (lookup (kv.0.0, new) pairs)) pairs)

abbrev pub repoint_pairs : (DeviceId × DeviceId) → Database → Option Database
repoint_pairs (old, new) db =
    if pair_taken old new db.folder_devices
    then none
    else enforce (record db {
      folder_devices = map (λ kv. ((kv.0.0, repoint old new (kv.0.1)), kv.1)) db.folder_devices;
    })

abbrev pub repoint_folders : (DeviceId × DeviceId) → Database → Option Database
repoint_folders (old, new) db = enforce (record db {
  sync_folders =
      map (λ kv. (kv.0, record (kv.1) { device_id = repoint old new (FolderRow.device_id kv.1) }))
        db.sync_folders;
})

abbrev pub share_taken : DeviceId → DeviceId → HashMap ℕ ShareRow → Bool
share_taken old new shares =
    not (old == new)
    && is_some (
        first_row
          (λ kv.
            (ShareRow.device_id kv.1 == old)
            && is_some (first_row (is_share new (ShareRow.folder_guid kv.1)) shares))
          shares)

abbrev pub repoint_shares : (DeviceId × DeviceId) → Database → Option Database
repoint_shares (old, new) db =
    if share_taken old new db.shared_folders
    then none
    else enforce (record db {
      shared_folders =
          map
            (λ kv. (kv.0, record (kv.1) { device_id = repoint old new (ShareRow.device_id kv.1) }))
            db.shared_folders;
    })

abbrev pub repoint_text : DeviceId → DeviceId → Option DeviceId → Option DeviceId
repoint_text old new none = none
repoint_text old new (some id) = some (repoint old new id)

abbrev pub repoint_history : (DeviceId × DeviceId) → Database → Option Database
repoint_history (old, new) db = some (record db {
  file_history =
      map
        (λ kv.
          (kv.0, record (kv.1) { device_id = repoint_text old new (HistoryRow.device_id kv.1) }))
        db.file_history;
})

abbrev pub repoint_sessions : (DeviceId × DeviceId) → Database → Option Database
repoint_sessions (old, new) db = some (record db {
  sync_sessions =
      map
        (λ kv.
          (kv.0, record (kv.1) { peer_device = repoint old new (SessionRow.peer_device kv.1) }))
        db.sync_sessions;
})

-- The statements of one table: the database after them, and whether each succeeded. There is no
-- transaction: what ran before an error stays.
unfoldable pub repoint_table :
    ((DeviceId × DeviceId) → Database → Option Database) → Remap → Database → Database × Bool
repoint_table statement [] db = (db, true)
repoint_table statement (entry ∷ remap) db = elim (statement entry db) [
  | none ↦ (db, false)
  | some db' ↦ repoint_table statement remap db'
]

unfoldable pub repoint_tables :
    List ((DeviceId × DeviceId) → Database → Option Database) → Remap → Database → Database × Bool
unfolding repoint_table
repoint_tables [] remap db = (db, true)
repoint_tables (statement ∷ statements) remap db =
    let (db', done) = repoint_table statement remap db in
    if done then repoint_tables statements remap db' else (db', false)

abbrev pub referenced : List ((DeviceId × DeviceId) → Database → Option Database)
referenced =
    repoint_pairs ∷ repoint_folders ∷ repoint_shares ∷ repoint_history ∷ repoint_sessions ∷ []
