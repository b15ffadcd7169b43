-- ===== src/Session.antt =====
-- How a session turns the peers' indexes into files to push and pull: the conversions of
-- ferrisync-core/src/sync/orchestrator.rs and the selection of sync_engine/session.rs, on the
-- connecting side (`client`) and on the serving side (`server`).
pub mod Agreement
pub mod Selection
pub mod Tests
use ferri_sync.Prelude.{
  ℕ, zero, ◌+◌, ◌*◌, min, max, Bool, List, [], ◌∷◌, ◌++◌, map, Option, none, some, String,
  string_eq, ◌==◌, if◌then◌else◌, ltb, length, take, replicate, filter_map, ◌-◌,
}
use ferri_sync.Prelude.Int.{as_u64}
use ferri_sync.Prelude.Maps.{values}
use ferri_sync.Prelude.Options.{option_bind}
use ferri_sync.Prelude.Results.{Result, ok, err}
use ferri_sync.Version.{DeviceId, new, single}
use ferri_sync.Snapshot.{
  FilePath, FileHash, FolderId, SnapshotEntry, Snapshot, file, SyncPlan, SyncOperation, upload,
  download, delete, conflict, op_path,
}
use ferri_sync.Reconcile.{reconcile}
use ferri_sync.Protocol.{IndexEntry, Index, SyncMessage, index, max_index_entries}

-- `let mut h = [0u8; 32]; h[..len].copy_from_slice(&e.hash[..len])`
abbrev pub as_file_hash : List ℕ → FileHash
as_file_hash hash = let len = min (length hash) 32 in take len hash ++ replicate (32 - len) 0

pub to_snapshot_entry : DeviceId → IndexEntry → SnapshotEntry
to_snapshot_entry device e = record {
  path = e.path;
  kind = file;
  size = e.size;
  hash = as_file_hash e.hash;
  version = if ltb 0 e.local_version then single device e.local_version else new;
  mtime = e.mtime;
}

pub index_to_snapshot : Index → FolderId → Snapshot
unfolding to_snapshot_entry
index_to_snapshot ix folder_id = record {
  folder_id = folder_id;
  generation = 0;
  entries = map (to_snapshot_entry ix.device_id) ix.entries;
}

-- `values().copied().max().unwrap_or(0)`
abbrev pub max_or_zero : List ℕ → ℕ
max_or_zero [] = 0
max_or_zero (n ∷ ns) = max n (max_or_zero ns)

abbrev pub to_index_entry : SnapshotEntry → IndexEntry
to_index_entry e = record {
  path = e.path;
  local_version = max_or_zero (values e.version.versions);
  remote_version = 0;
  mtime = e.mtime;
  size = e.size;
  hash = e.hash;
}

pub snapshot_to_index : Snapshot → String → String → Index
snapshot_to_index snapshot folder_id device_id = record {
  folder_id = folder_id;
  device_id = device_id;
  remote_path = none;
  entries = map to_index_entry snapshot.entries;
}

-- `build_protocol_index`; the scan of the directory is the argument `scanned`.
abbrev stamp : DeviceId → SnapshotEntry → SnapshotEntry
stamp device e = record e { version = single device (as_u64 e.mtime) }

pub build_protocol_index : Snapshot → String → DeviceId → List IndexEntry
unfolding snapshot_to_index
build_protocol_index scanned folder_id device_id =
    (snapshot_to_index (record scanned { entries = map (stamp device_id) scanned.entries })
      folder_id device_id).entries

-- `entries.iter().find(|e| e.path == path.0)`
abbrev pub find_path : FilePath → List IndexEntry → Option IndexEntry
find_path path [] = none
find_path path (e ∷ es) = if e.path == path then some e else find_path path es

abbrev pub uploaded : List IndexEntry → SyncOperation → Option IndexEntry
uploaded entries (upload path version size) = find_path path entries
uploaded entries _ = none

abbrev pub downloaded : List IndexEntry → SyncOperation → Option IndexEntry
downloaded entries (download path version size) = find_path path entries
downloaded entries _ = none

abbrev pub conflicting : List IndexEntry → SyncOperation → Option IndexEntry
conflicting entries op = find_path (op_path op) entries

-- `reconcile_snapshots`: both tombstone lists are empty. `iter` is the order of `all_paths`.
abbrev pub session_plan : (List FilePath → List FilePath) → Index → Index → FolderId → SyncPlan
session_plan iter own peer folder_id =
    reconcile iter (index_to_snapshot own folder_id) (index_to_snapshot peer folder_id) [] []

pub client_to_push : Index → SyncPlan → List IndexEntry
client_to_push own plan = filter_map (uploaded own.entries) plan.uploads

pub client_to_pull : Index → SyncPlan → List IndexEntry
client_to_pull peer plan =
    filter_map (downloaded peer.entries) plan.downloads
    ++ filter_map (conflicting peer.entries) plan.conflicts

-- `to_push_to_client` and `client_to_push` of the serving side.
pub server_to_push : Index → SyncPlan → List IndexEntry
server_to_push own plan =
    filter_map (uploaded own.entries) plan.uploads
    ++ filter_map (conflicting own.entries) plan.conflicts

pub server_to_pull : Index → SyncPlan → List IndexEntry
server_to_pull peer plan = filter_map (downloaded peer.entries) plan.downloads

-- The totals that both sides announce.
abbrev total_size : List IndexEntry → ℕ
total_size [] = 0
total_size (e ∷ es) = e.size + total_size es

pub session_totals : List IndexEntry → List IndexEntry → ℕ × ℕ
session_totals to_push to_pull =
    (length to_push + length to_pull, total_size to_push + total_size to_pull)
