-- ===== src/Reconcile.antt =====
-- ferrisync-core/src/sync/reconciler.rs: the pure function that compares two snapshots and plans
-- the operations that bring them together.
pub mod Loop
pub mod Decision
pub mod Peers
pub mod Tests
use ferri_sync.Prelude.{
  ℕ, Bool, true, false, List, [], ◌∷◌, ◌++◌, Option, none, some, String, string_eq, nat_eq, list_eq,
  ◌==◌, if◌then◌else◌, map, contains,
}
use ferri_sync.Prelude.Maps.{HashMap, lookup, insert}
use ferri_sync.Version.{new, dominates}
use ferri_sync.Snapshot.{
  FilePath, SnapshotEntry, Snapshot, Tombstone, SyncOperation, upload, download, conflict, SyncPlan,
  empty_plan,
}

-- `entries.iter().map(|e| (&e.path, e)).collect()`: a later entry replaces an earlier one.
unfoldable pub collect_entries :
    HashMap FilePath SnapshotEntry → List SnapshotEntry → HashMap FilePath SnapshotEntry
collect_entries m [] = m
collect_entries m (e ∷ es) = collect_entries (insert e.path e m) es

abbrev pub entry_map : Snapshot → HashMap FilePath SnapshotEntry
entry_map s = collect_entries [] s.entries

-- The set `all_paths`, in some order.
pub insert_paths : List FilePath → List SnapshotEntry → List FilePath
insert_paths paths [] = paths
insert_paths paths (e ∷ es) =
    insert_paths (if contains e.path paths then paths else e.path ∷ paths) es

pub all_paths : Snapshot → Snapshot → List FilePath
unfolding insert_paths
all_paths local remote = insert_paths (insert_paths [] local.entries) remote.entries

abbrev pub deleted : List Tombstone → List FilePath
deleted tombstones = map (λ t. t.path) tombstones

push_upload : SyncOperation → SyncPlan → SyncPlan
push_upload op plan = record plan { uploads = plan.uploads ++ op ∷ [] }

push_download : SyncOperation → SyncPlan → SyncPlan
push_download op plan = record plan { downloads = plan.downloads ++ op ∷ [] }

push_conflict : SyncOperation → SyncPlan → SyncPlan
push_conflict op plan = record plan { conflicts = plan.conflicts ++ op ∷ [] }

-- The body of the loop over the paths: the match on the two entries.
pub reconcile_path :
    FilePath → Option SnapshotEntry → Option SnapshotEntry → Bool → Bool → SyncPlan → SyncPlan
unfolding push_upload push_download push_conflict
reconcile_path path (some local_e) (some remote_e) local_is_deleted remote_is_deleted plan =
    if local_e.hash == remote_e.hash
    then plan
    else if dominates local_e.version remote_e.version
    then push_upload (upload path local_e.version local_e.size) plan
    else if dominates remote_e.version local_e.version
    then push_download (download path remote_e.version remote_e.size) plan
    else push_conflict (conflict path local_e.version remote_e.version) plan
reconcile_path path (some local_e) none local_is_deleted remote_is_deleted plan =
    if remote_is_deleted
    then push_conflict (conflict path local_e.version new) plan
    else push_upload (upload path local_e.version local_e.size) plan
reconcile_path path none (some remote_e) local_is_deleted remote_is_deleted plan =
    if local_is_deleted
    then push_conflict (conflict path new remote_e.version) plan
    else push_download (download path remote_e.version remote_e.size) plan
reconcile_path path none none local_is_deleted remote_is_deleted plan = plan

module _ (local remote : Snapshot) (local_tombstones remote_tombstones : List Tombstone) where
  pub reconcile_loop : List FilePath → SyncPlan → SyncPlan
  reconcile_loop [] plan = plan
  reconcile_loop (path ∷ paths) plan = reconcile_loop paths (
      reconcile_path path (lookup path (entry_map local)) (lookup path (entry_map remote))
        (contains path (deleted local_tombstones)) (contains path (deleted remote_tombstones)) plan)

-- `iter` stands for the order in which the standard library's `HashSet` yields its members.
pub reconcile :
    (List FilePath → List FilePath)
    → Snapshot
    → Snapshot
    → List Tombstone
    → List Tombstone
    → SyncPlan
unfolding reconcile_loop
reconcile iter local remote local_tombstones remote_tombstones =
    reconcile_loop local remote local_tombstones remote_tombstones (iter (all_paths local remote))
      empty_plan
