-- ===== src/Sqlite/Invariant.antt =====
-- What the writes of ferrisync-core/src/persistence/sqlite.rs keep of the keys of the database.
use ferri_sync.Prelude.{ℕ, ◌≡◌, List, Option, some, String, string_eq, pair_eq}
use ferri_sync.Prelude.Int.{ℤ, int_eq}
use ferri_sync.Version.{DeviceId}
use ferri_sync.Snapshot.{FolderId, Tombstone}
use ferri_sync.Domain.{Device, FileMetadata, HistoryEntry, SessionRecord, DeviceCleanup}
use ferri_sync.Storage.Devices.{DeviceRow}
use ferri_sync.Sqlite.{SqliteStore, empty_tables}
use ferri_sync.Sqlite.Devices.{upsert_device, remove_device, set_device_cert, set_device_last_addr}
use ferri_sync.Sqlite.Folders.{
  add_folder, remove_folder, set_folder_last_sync, set_folder_device, remove_sync_folders,
  clear_all_sync_state,
}
use ferri_sync.Sqlite.Files.{upsert_file_metadata, record_history, add_tombstone, record_session}

-- One call that writes and succeeds.
pub data Write : SqliteStore → SqliteStore → Type 0 where
  upserted : {s : SqliteStore} (now : ℤ) (d : Device) → Write s (upsert_device now d s)
  cert_set : {s : SqliteStore} (id : DeviceId) (der : List ℕ) → Write s (set_device_cert id der s)
  addr_set :
      {s : SqliteStore} (id : DeviceId) (addr : String) → Write s (set_device_last_addr id addr s)
  device_removed :
      {s t : SqliteStore} (id : DeviceId) (c : DeviceCleanup)
      → remove_device id s ≡ some (t, c)
      → Write s t
  folder_added :
      {s t : SqliteStore} (path : String) (id : DeviceId) (direction : String) (fid : FolderId)
      → add_folder path id direction s ≡ some (t, fid)
      → Write s t
  folder_removed : {s t : SqliteStore} (fid : FolderId) → remove_folder fid s ≡ some t → Write s t
  synced : {s : SqliteStore} (fid : FolderId) (ts : ℤ) → Write s (set_folder_last_sync fid ts s)
  moved :
      {s t : SqliteStore} (fid : FolderId) (d : DeviceId)
      → set_folder_device fid d s ≡ some t
      → Write s t
  pairs_removed :
      {s t : SqliteStore} (path : String) (d : Option DeviceId) (n : ℕ)
      → remove_sync_folders path d s ≡ some (t, n)
      → Write s t
  metadata_put :
      {s t : SqliteStore} (meta : FileMetadata) → upsert_file_metadata meta s ≡ some t → Write s t
  history_put :
      {s t : SqliteStore} (now : ℤ) (entry : HistoryEntry)
      → record_history now entry s ≡ some t
      → Write s t
  tombstone_put : {s t : SqliteStore} (tomb : Tombstone) → add_tombstone tomb s ≡ some t → Write s t
  session_put : {s : SqliteStore} (r : SessionRecord) → Write s (record_session r s)
  cleared :
      {s t : SqliteStore} (folders devices : ℕ)
      → clear_all_sync_state s ≡ some (t, folders, devices)
      → Write s t

-- Any number of calls from the empty database.
pub data Written : SqliteStore → Type 0 where
  at_open : Written empty_tables
  next : {s t : SqliteStore} → Written s → Write s t → Written t
