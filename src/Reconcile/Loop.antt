-- ===== src/Reconcile/Loop.antt =====
-- The loop of the reconciler treats every path once, in whatever order the set yields the paths.
use ferri_sync.Prelude.{
  ◌≡◌, refl, true, false, ◌||◌, List, [], ◌∷◌, map, Option, none, string_eq, ◌==◌, eq_iff,
  if◌then◌else◌, contains, Distinct, arith, is_some, ap, ◌∙◌, Bool-cases, inl, inr, subst, ◌⊎◌,
}
use ferri_sync.Prelude.Maps.{HashMap, lookup, insert, lookup-insert}
use ferri_sync.Snapshot.{
  FilePath, SnapshotEntry, Snapshot, Tombstone, SyncPlan, empty_plan, SyncOperation,
}
use ferri_sync.Reconcile.{
  collect_entries, entry_map, insert_paths, all_paths, deleted, reconcile_loop, reconcile,
}
use ferri_sync.Reconcile.Decision.{
  decision, record_op, reconcile_path_lem, restrict, IsAbout, decision-IsAbout,
  restrict-record_op_self, restrict-record_op_ne,
}

-- A set yields its members, each once.
pub record IsIteration (iter : List FilePath → List FilePath) : Type 0 where
  pub same : (xs : List FilePath) (p : FilePath) → contains p (iter xs) ≡ contains p xs
  pub distinct : (xs : List FilePath) → Distinct xs → Distinct (iter xs)

abbrev paths_of : List SnapshotEntry → List FilePath
paths_of = map (λ e. e.path)

insert_paths-contains :
    (p : FilePath) (ps : List FilePath) (es : List SnapshotEntry)
    → contains p (insert_paths ps es) ≡ (contains p ps || contains p (paths_of es))
unfolding insert_paths
insert_paths-contains p ps [] = ground arith
insert_paths-contains p ps (e ∷ es) = ground (
  arith,
  eq_iff e.path p,
  insert_paths-contains p (if contains e.path ps then ps else e.path ∷ ps) es,
)

insert_paths-Distinct :
    (ps : List FilePath) (es : List SnapshotEntry) → Distinct ps → Distinct (insert_paths ps es)
unfolding insert_paths
insert_paths-Distinct ps [] h = h
insert_paths-Distinct ps (e ∷ es) h = elim (Bool-cases (contains e.path ps)) [
  | inl old ↦ rw old (insert_paths-Distinct ps es h)
  | inr fresh ↦ rw fresh (insert_paths-Distinct (e.path ∷ ps) es (fresh, h))
]

collect-contains :
    (p : FilePath) (m : HashMap FilePath SnapshotEntry) (es : List SnapshotEntry)
    → is_some (lookup p (collect_entries m es)) ≡ (is_some (lookup p m) || contains p (paths_of es))
unfolding collect_entries
collect-contains p m [] = ground arith
collect-contains p m (e ∷ es) =
    ground (arith, lookup-insert e.path p e m, collect-contains p (insert e.path e m) es)

all_paths-contains :
    (p : FilePath) (local remote : Snapshot)
    → contains p (all_paths local remote)
      ≡ (is_some (lookup p (entry_map local)) || is_some (lookup p (entry_map remote)))
unfolding all_paths lookup
all_paths-contains p local remote = ground (
  arith,
  insert_paths-contains p (insert_paths [] local.entries) remote.entries,
  insert_paths-contains p [] local.entries,
  collect-contains p [] local.entries,
  collect-contains p [] remote.entries,
)

all_paths-Distinct : (local remote : Snapshot) → Distinct (all_paths local remote)
unfolding all_paths
all_paths-Distinct local remote =
    insert_paths-Distinct _ remote.entries (insert_paths-Distinct [] local.entries tt)

module _ (local remote : Snapshot) (local_tombs remote_tombs : List Tombstone) where
  -- The decision that the two snapshots and the tombstones call for at a path.
  abbrev pub decided : FilePath → Option SyncOperation
  decided path =
      decision path (lookup path (entry_map local)) (lookup path (entry_map remote))
        (contains path (deleted local_tombs)) (contains path (deleted remote_tombs))

  decided-IsAbout : (p : FilePath) → IsAbout p (decided p)
  decided-IsAbout p =
      decision-IsAbout p (lookup p (entry_map local)) (lookup p (entry_map remote))
        (contains p (deleted local_tombs)) (contains p (deleted remote_tombs))

  loop-restrict :
      (path : FilePath) (paths : List FilePath) (plan : SyncPlan)
      → Distinct paths
      → restrict path (reconcile_loop local remote local_tombs remote_tombs paths plan) ≡ (
          if contains path paths
          then record_op (decided path) (restrict path plan)
          else restrict path plan)
  unfolding reconcile_loop
  loop-restrict path [] plan h = refl
  loop-restrict path (p ∷ ps) plan h =
      ap (λ q. restrict path (reconcile_loop local remote local_tombs remote_tombs ps q))
        (reconcile_path_lem p (lookup p (entry_map local)) (lookup p (entry_map remote))
          (contains p (deleted local_tombs)) (contains p (deleted remote_tombs)) plan)
      ∙ loop-restrict path ps (record_op (decided p) plan) h.1
      ∙ one (Bool-cases (p == path))
    where
      one :
          ((p == path) ≡ true) ⊎ ((p == path) ≡ false)
          → (if contains path ps
              then record_op (decided path) (restrict path (record_op (decided p) plan))
              else restrict path (record_op (decided p) plan))
            ≡ (if contains path (p ∷ ps)
                then record_op (decided path) (restrict path plan)
                else restrict path plan)
      one (inl hit) =
          let e : p ≡ path = (eq_iff p path).0 hit in
          let fresh : contains path ps ≡ false = subst (λ x. contains x ps ≡ false) e h.0 in
          rw (hit, fresh, e)
            (restrict-record_op_self path (decided path) plan (decided-IsAbout path))
      one (inr miss) =
          let kept : restrict path (record_op (decided p) plan) ≡ restrict path plan =
            restrict-record_op_ne path p (decided p) plan (decided-IsAbout p)
              (λ e. cc (miss, (eq_iff p path).1 e)) in
          rw (miss, kept)

  decided_missing :
      (path : FilePath)
      → (is_some (lookup path (entry_map local)) || is_some (lookup path (entry_map remote)))
        ≡ false
      → decided path ≡ none
  decided_missing path e = ground arith

  -- The plan holds about each path exactly the operation that is decided for it, and nothing else,
  -- whatever the order in which the set of paths is walked.
  pub reconcile-restrict :
      (iter : List FilePath → List FilePath) (path : FilePath)
      → IsIteration iter
      → restrict path (reconcile iter local remote local_tombs remote_tombs)
        ≡ record_op (decided path) empty_plan
  unfolding reconcile
  reconcile-restrict iter path it =
      loop-restrict path (iter (all_paths local remote)) empty_plan
        (it.distinct (all_paths local remote) (all_paths-Distinct local remote))
      ∙ rw (it.same (all_paths local remote) path, all_paths-contains path local remote)
          (elim (Bool-cases
            (is_some (lookup path (entry_map local)) || is_some (lookup path (entry_map remote)))) [
              | inl known ↦ rw known
              | inr unknown ↦ rw (unknown, decided_missing path unknown)
            ])
