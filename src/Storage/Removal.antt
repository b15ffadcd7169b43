-- ===== src/Storage/Removal.antt =====
-- What `remove_device` of ferrisync-core/src/storage/mod.rs leaves and what it counts.
use ferri_sync.Prelude.{◌≡◌, false, not, map, string_eq, nat_eq, pair_eq, ◌==◌, keep, contains}
use ferri_sync.Version.{DeviceId}
use ferri_sync.Storage.{Database, FolderRow}
use ferri_sync.Prelude.{◌||◌}
use ferri_sync.Prelude.Predicates.{All}
use ferri_sync.Storage.{HistoryRow, SessionRow, ShareRow}
use ferri_sync.Storage.Tables.{is_text}
use ferri_sync.Storage.Records.{folders_of}
use ferri_sync.Storage.Folders.{SyncFolderRow, join_pairs, of_device, row_leb, list_sync_folders}
use ferri_sync.Storage.Order.{IsOrdered, order_rows-IsOrdered}

-- The device of a row of `list_sync_folders`.
abbrev pub row_device : SyncFolderRow → DeviceId
row_device (id, path, device_id, mode, ts) = device_id

-- The database that a removal leaves when both statements that may fail succeed.
abbrev removal : DeviceId → Database → Database
removal d db =
    let fids = folders_of d db in
    let pairs = keep (λ kv. not (of_device d kv)) db.folder_devices in
    record db {
      sync_sessions = keep (λ kv. not (SessionRow.peer_device kv.1 == d)) db.sync_sessions;
      file_history =
          keep
            (λ kv.
              not (
                is_text d (HistoryRow.device_id kv.1) || contains (HistoryRow.folder_id kv.1) fids))
            db.file_history;
      file_metadata = keep (λ kv. not (contains (kv.0.0) fids)) db.file_metadata;
      folder_devices = pairs;
      sync_folders =
          keep (λ kv. not (not (contains kv.0 (map (λ p. p.0.0) pairs)))) db.sync_folders;
      devices = keep (λ kv. not (kv.0 == d)) db.devices;
    }

-- What a removal that succeeds leaves names the device nowhere that refers to it.
pub IsForgotten : DeviceId → Database → Type 0
IsForgotten d db =
    All (λ kv. (FolderRow.device_id kv.1 == d) ≡ false) db.sync_folders
    × All (λ kv. of_device d kv ≡ false) db.folder_devices
    × All (λ kv. (ShareRow.device_id kv.1 == d) ≡ false) db.shared_folders

-- The listing of the sync folders is ordered by the folder's id, then by the device's.
pub list_sync_folders-IsOrdered : (db : Database) → IsOrdered row_leb (list_sync_folders db)
unfolding list_sync_folders
list_sync_folders-IsOrdered db = order_rows-IsOrdered (join_pairs db.sync_folders db.folder_devices)
