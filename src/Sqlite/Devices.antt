-- ===== src/Sqlite/Devices.antt =====
-- The devices of ferrisync-core/src/persistence/sqlite.rs.
use ferri_sync.Prelude.{
  ℕ, Bool, true, false, not, ◌||◌, List, map, Option, none, some, String, string_eq, nat_eq, ◌==◌,
  contains, keep, length,
}
use ferri_sync.Prelude.Int.{ℤ, int_eq, int_leb}
use ferri_sync.Prelude.Maps.{HashMap, lookup, adjust}
use ferri_sync.Prelude.Options.{option_bind}
use ferri_sync.Version.{DeviceId}
use ferri_sync.Snapshot.{FolderId}
use ferri_sync.Domain.{Device, DeviceCleanup, HistoryEntry}
use ferri_sync.Storage.{SessionRow}
use ferri_sync.Storage.Tables.{delete_where, order_by}
use ferri_sync.Storage.Devices.{DeviceRow}
use ferri_sync.Sqlite.References.{check_keys}
use ferri_sync.Sqlite.{SqliteStore, SqliteFolderRow, FileHistoryRow}

-- A row of the table as a device.
abbrev pub read_device : DeviceId → DeviceRow → Device
read_device id row = record {
  id = id;
  name = row.name;
  fingerprint = row.cert_der;
  last_seen = row.last_seen;
  last_addr = row.last_addr;
}

unfoldable pub get_device : DeviceId → SqliteStore → Option Device
get_device id s = elim (lookup id s.devices) [ none ↦ none | some row ↦ some (read_device id row) ]

-- `INSERT .. ON CONFLICT(id) DO UPDATE`; `now` is `unixepoch()`.
unfoldable pub upsert_device : ℤ → Device → SqliteStore → SqliteStore
unfolding ferri_sync.Storage.Devices.upsert_device
upsert_device now d s = record s {
  devices =
      ferri_sync.Storage.Devices.upsert_device now d.id d.name d.fingerprint d.last_addr s.devices;
}

-- `ORDER BY last_seen DESC`, where NULL is the smallest.
abbrev pub last_seen_first : Device → Device → Bool
last_seen_first d e = not_before d.last_seen e.last_seen
  where
    not_before : Option ℤ → Option ℤ → Bool
    not_before t none = true
    not_before none (some u) = false
    not_before (some t) (some u) = int_leb u t

unfoldable pub list_devices : SqliteStore → List Device
list_devices s = order_by last_seen_first (map (λ kv. read_device kv.0 kv.1) s.devices)

-- `SELECT id FROM sync_folders WHERE device_id = ?1`
abbrev pub folder_ids : DeviceId → HashMap FolderId SqliteFolderRow → List FolderId
folder_ids id folders = map (λ kv. kv.0) (keep (λ kv. SqliteFolderRow.device_id kv.1 == id) folders)

-- `DELETE FROM .. WHERE ..` on a table whose ids nothing reads.
abbrev pub delete_rows {ℓ} : {A : Type ℓ} → (A → Bool) → List A → List A × ℕ
delete_rows p rows = (keep (λ row. not (p row)) rows, length (keep p rows))

-- One transaction: an error rolls back. The deletion of the folders fails while one of them has a
-- tombstone.
unfoldable pub remove_device : DeviceId → SqliteStore → Option (SqliteStore × DeviceCleanup)
unfolding check_keys
remove_device id s =
    let fids = folder_ids id s.sync_folders in
    let (sessions, sessions_removed) =
      delete_rows (λ r. SessionRow.peer_device r == id) s.sync_sessions in
    let (history, history_removed) =
      delete_rows
        (λ r.
          (HistoryEntry.device_id (FileHistoryRow.entry r) == id)
          || contains (HistoryEntry.folder_id (FileHistoryRow.entry r)) fids)
        s.file_history in
    let (metadata, metadata_removed) =
      delete_where (λ kv. contains (kv.0.0) fids) s.file_metadata in
    let (folders, folders_removed) =
      delete_where (λ kv. SqliteFolderRow.device_id kv.1 == id) s.sync_folders in
    let (devices, device_removed) = delete_where (λ kv. kv.0 == id) s.devices in
    option_bind
      (check_keys (record s {
        sync_sessions = sessions;
        file_history = history;
        file_metadata = metadata;
        sync_folders = folders;
      }))
      (λ unfoldered. option_bind (check_keys (record unfoldered { devices = devices })) (λ removed.
        some (
          removed,
          record {
            sessions_removed = sessions_removed;
            history_removed = history_removed;
            metadata_removed = metadata_removed;
            folders_removed = folders_removed;
            device_removed = device_removed;
          },
        )))

unfoldable pub get_device_cert : DeviceId → SqliteStore → Option (List ℕ)
get_device_cert id s = option_bind (lookup id s.devices) (λ row. DeviceRow.cert_der row)

-- A plain `UPDATE`: a device without a row gets none.
unfoldable pub set_device_cert : DeviceId → List ℕ → SqliteStore → SqliteStore
set_device_cert id cert_der s = record s {
  devices = adjust id (λ row. record row { cert_der = some cert_der }) s.devices;
}

module _ (blake3 : List ℕ → List ℕ) where
  unfoldable pub get_device_by_cert_fingerprint : List ℕ → SqliteStore → Option DeviceId
  unfolding ferri_sync.Storage.Devices.get_device_by_cert_fingerprint
  get_device_by_cert_fingerprint fingerprint s =
      ferri_sync.Storage.Devices.get_device_by_cert_fingerprint blake3 fingerprint s.devices

unfoldable pub device_last_addr : DeviceId → SqliteStore → Option String
device_last_addr id s = option_bind (lookup id s.devices) (λ row. DeviceRow.last_addr row)

unfoldable pub set_device_last_addr : DeviceId → String → SqliteStore → SqliteStore
set_device_last_addr id addr s = record s {
  devices = adjust id (λ row. record row { last_addr = some addr }) s.devices;
}
