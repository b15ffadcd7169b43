-- ===== src/Domain.antt =====
-- ferrisync-core/src/domain: device.rs, folder.rs and the metadata of file.rs, with the records of
-- persistence/traits.rs.
use ferri_sync.Prelude.{ℕ, List, Option, none, some, String, string_eq, ◌==◌, if◌then◌else◌}
use ferri_sync.Prelude.Int.{ℤ}
use ferri_sync.Version.{DeviceId}
use ferri_sync.Snapshot.{FilePath, FileHash, FolderId, EntryKind}

-- `CertificateFingerprint(Vec<u8>)`
abbrev pub Fingerprint : Type 0
Fingerprint = List ℕ

pub record Device : Type 0 where
  pub id : DeviceId
  pub name : String
  pub fingerprint : Option Fingerprint
  pub last_seen : Option ℤ
  pub last_addr : Option String

pub data SyncDirection : Type 0 where
  bidirectional push_only pull_only : SyncDirection

abbrev pub direction_as_str : SyncDirection → String
direction_as_str bidirectional = "bidirectional"
direction_as_str push_only = "push"
direction_as_str pull_only = "pull"

-- `SyncDirection::from_str`
unfoldable pub parse_direction : String → Option SyncDirection
parse_direction s =
    if s == "bidirectional"
    then some bidirectional
    else if s == "push"
    then some push_only
    else if s == "pull"
    then some pull_only
    else none

pub record Folder : Type 0 where
  pub id : FolderId
  pub local_path : String
  pub device_id : DeviceId
  pub direction : SyncDirection
  pub last_sync_at : Option ℤ

pub record FileMetadata : Type 0 where
  pub path : FilePath
  pub folder_id : FolderId
  pub kind : EntryKind
  pub mtime : ℤ
  pub size : ℤ
  pub hash : FileHash
  pub device_id : DeviceId
  pub version : ℤ
  pub local_version : ℤ
  pub remote_version : ℤ
  pub local_mtime : ℤ
  pub remote_mtime : ℤ

pub record SessionRecord : Type 0 where
  pub ts : ℤ
  pub direction : String
  pub peer_device : String
  pub addr : String
  pub folder_path : String
  pub pushed_count : ℕ
  pub pulled_count : ℕ
  pub conflicts_count : ℕ
  pub pushed_bytes : ℕ
  pub pulled_bytes : ℕ

pub record HistoryEntry : Type 0 where
  pub folder_id : FolderId
  pub path : FilePath
  pub device_id : DeviceId
  pub action : String
  pub version : ℤ
  pub mtime : ℤ
  pub hash : List ℕ
  pub size : ℤ

pub record DeviceCleanup : Type 0 where
  pub sessions_removed : ℕ
  pub history_removed : ℕ
  pub metadata_removed : ℕ
  pub folders_removed : ℕ
  pub device_removed : ℕ
