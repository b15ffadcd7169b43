-- ===== src/Snapshot.antt =====
-- ferrisync-core/src/domain: snapshot.rs, tombstone.rs and sync_plan.rs, with the paths and hashes
-- of file.rs.
use ferri_sync.Prelude.{
  ℕ, ◌+◌, Bool, List, [], ◌∷◌, Option, none, some, String, string_eq, ◌==◌, if◌then◌else◌, length,
  eqb,
}
use ferri_sync.Prelude.Int.{ℤ}
use ferri_sync.Version.{DeviceId, FileVersion}

-- `FilePath(String)`
abbrev pub FilePath : Type 0
FilePath = String

-- `FileHash([u8; 32])`
abbrev pub FileHash : Type 0
FileHash = List ℕ

-- `FolderId(i64)`
abbrev pub FolderId : Type 0
FolderId = ℤ

pub data EntryKind : Type 0 where
  file directory : EntryKind

pub record SnapshotEntry : Type 0 where
  pub path : FilePath
  pub kind : EntryKind
  pub size : ℕ
  pub hash : FileHash
  pub version : FileVersion
  pub mtime : ℤ

pub record Snapshot : Type 0 where
  pub folder_id : FolderId
  pub generation : ℕ
  pub entries : List SnapshotEntry

pub record Tombstone : Type 0 where
  pub path : FilePath
  pub folder_id : FolderId
  pub device_id : DeviceId
  pub deleted_at : ℕ

pub data SyncOperation : Type 0 where
  upload : FilePath → FileVersion → ℕ → SyncOperation
  download : FilePath → FileVersion → ℕ → SyncOperation
  delete : FilePath → SyncOperation
  conflict : FilePath → FileVersion → FileVersion → SyncOperation

abbrev pub op_path : SyncOperation → FilePath
op_path (upload path version size) = path
op_path (download path version size) = path
op_path (delete path) = path
op_path (conflict path local_version remote_version) = path

pub record SyncPlan : Type 0 where
  pub uploads : List SyncOperation
  pub downloads : List SyncOperation
  pub deletes : List SyncOperation
  pub conflicts : List SyncOperation

abbrev pub empty_plan : SyncPlan
empty_plan = record { uploads = []; downloads = []; deletes = []; conflicts = [] }

unfoldable pub plan_len : SyncPlan → ℕ
plan_len p = length p.uploads + length p.downloads + length p.deletes + length p.conflicts

unfoldable pub plan_is_empty : SyncPlan → Bool
unfolding plan_len
plan_is_empty p = eqb (plan_len p) 0

-- `Snapshot::find`: the first entry with the path.
unfoldable pub find_entry : FilePath → List SnapshotEntry → Option SnapshotEntry
find_entry path [] = none
find_entry path (e ∷ es) = if e.path == path then some e else find_entry path es
