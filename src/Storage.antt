-- ===== src/Storage.antt =====
-- ferrisync-core/src/storage/mod.rs: the SQLite database of `Storage`. A table is the list of its
-- rows under their primary keys, in the order of the row ids; a statement is a function on the
-- tables, and gives none where it fails. The parameter `now` is `unixepoch()`.
pub mod Devices
pub mod Tables
pub mod References
pub mod Labels
pub mod Folders
pub mod Pairs
pub mod Records
pub mod Sharing
pub mod Schema
pub mod Repoint
pub mod Unify
pub mod Remapped
pub mod Unified
pub mod Order
pub mod Removal
pub mod Registration
pub mod Invariant
pub mod Sessions
pub mod Wiring
pub mod Display
pub mod Tests
use ferri_sync.Prelude.{ℕ, Bool, List, [], Option, none, String}
use ferri_sync.Prelude.Int.{ℤ}
use ferri_sync.Prelude.Maps.{HashMap}
use ferri_sync.Version.{DeviceId}
use ferri_sync.Storage.Devices.{DeviceRow}

-- A row of `sync_folders`, under its id.
pub record FolderRow : Type 0 where
  pub local_path : String
  pub name : Option String
  pub device_id : DeviceId
  pub active : Bool
  pub direction : String
  pub last_sync_at : Option ℤ
  pub folder_guid : Option String

-- A row of `folder_devices`, under (folder_id, device_id).
pub record PairRow : Type 0 where
  pub mode : String
  pub remote_path : Option String
  pub enabled : Bool

-- A row of `file_metadata`, under (folder_id, path).
pub record MetadataRow : Type 0 where
  pub mtime : ℤ
  pub size : ℤ
  pub hash : Option (List ℕ)
  pub device_id : Option DeviceId
  pub version : ℤ
  pub local_version : ℤ
  pub remote_version : ℤ
  pub local_mtime : ℤ
  pub remote_mtime : ℤ

-- A row of `file_history`, under its id.
pub record HistoryRow : Type 0 where
  pub folder_id : ℕ
  pub path : String
  pub device_id : Option DeviceId
  pub action : String
  pub version : ℤ
  pub mtime : ℤ
  pub hash : List ℕ
  pub size : ℤ
  pub recorded_at : ℤ

-- A row of `sync_sessions`, under its id.
pub record SessionRow : Type 0 where
  pub ts : ℤ
  pub direction : String
  pub peer_device : String
  pub addr : String
  pub folder_path : String
  pub pushed_count : ℤ
  pub pulled_count : ℤ
  pub conflicts_count : ℤ
  pub pushed_bytes : ℤ
  pub pulled_bytes : ℤ

-- A row of `shared_folders`, under its id.
pub record ShareRow : Type 0 where
  pub folder_guid : String
  pub device_id : DeviceId
  pub name : String
  pub local_path : String
  pub discoverable : Bool
  pub enabled : Bool
  pub permissions : String

-- The tables, and the last id that each AUTOINCREMENT column gave out.
pub record Database : Type 0 where
  pub devices : HashMap DeviceId DeviceRow
  pub sync_folders : HashMap ℕ FolderRow
  pub folder_devices : HashMap (ℕ × DeviceId) PairRow
  pub file_metadata : HashMap (ℕ × String) MetadataRow
  pub file_history : HashMap ℕ HistoryRow
  pub sync_sessions : HashMap ℕ SessionRow
  pub shared_folders : HashMap ℕ ShareRow
  pub last_folder : ℕ
  pub last_history : ℕ
  pub last_session : ℕ
  pub last_share : ℕ

abbrev pub empty_database : Database
empty_database = record {
  devices = [];
  sync_folders = [];
  folder_devices = [];
  file_metadata = [];
  file_history = [];
  sync_sessions = [];
  shared_folders = [];
  last_folder = 0;
  last_history = 0;
  last_session = 0;
  last_share = 0;
}
