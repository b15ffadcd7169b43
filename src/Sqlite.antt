-- ===== src/Sqlite.antt =====
-- ferrisync-core/src/persistence/sqlite.rs: `SqliteStateStore`, the store behind `StateStore` that
-- is a database. A table is the list of its rows, in the order of the row ids, and under the primary
-- key where something reads it. An operation that may fail gives none, and then changes nothing.
pub mod References
pub mod Sound
pub mod Invariant
pub mod Devices
pub mod Folders
pub mod Files
pub mod Tests
pub mod Trust
use ferri_sync.Prelude.{ℕ, Bool, List, [], Option, String}
use ferri_sync.Prelude.Int.{ℤ}
use ferri_sync.Prelude.Maps.{HashMap}
use ferri_sync.Version.{DeviceId}
use ferri_sync.Snapshot.{FilePath, FolderId}
use ferri_sync.Domain.{HistoryEntry}
use ferri_sync.Storage.{MetadataRow, SessionRow}
use ferri_sync.Storage.Devices.{DeviceRow}

-- A row of `sync_folders`, under its id.
pub record SqliteFolderRow : Type 0 where
  pub local_path : String
  pub device_id : DeviceId
  pub active : Bool
  pub direction : String
  pub last_sync_at : Option ℤ

-- A row of `file_history`.
pub record FileHistoryRow : Type 0 where
  pub entry : HistoryEntry
  pub recorded_at : ℤ

-- A row of `tombstones`.
pub record TombstoneRow : Type 0 where
  pub folder_id : FolderId
  pub path : FilePath
  pub device_id : DeviceId
  pub deleted_at : ℤ

-- The tables, and the last id that AUTOINCREMENT gave to a folder.
pub record SqliteStore : Type 0 where
  pub devices : HashMap DeviceId DeviceRow
  pub sync_folders : HashMap FolderId SqliteFolderRow
  pub file_metadata : HashMap (FolderId × FilePath) MetadataRow
  pub file_history : List FileHistoryRow
  pub sync_sessions : List SessionRow
  pub tombstones : List TombstoneRow
  pub last_folder : ℕ

-- The database that `initialize_schema` makes of an empty file.
abbrev pub empty_tables : SqliteStore
empty_tables = record {
  devices = [];
  sync_folders = [];
  file_metadata = [];
  file_history = [];
  sync_sessions = [];
  tombstones = [];
  last_folder = 0;
}
