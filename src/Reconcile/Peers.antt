-- ===== src/Reconcile/Peers.antt =====
-- What the plan promises: the two peers plan mirror images, a deletion is never undone in silence,
-- and a folder compared with itself needs nothing.
use ferri_sync.Prelude.{
  ◌≡◌, refl, Bool, true, false, List, [], ◌∷◌, map, Option, none, some, string_eq, list_eq, nat_eq,
  ◌==◌, eq_iff, if◌then◌else◌, contains, arith, subst, sym, ap, ◌∙◌,
}
use ferri_sync.Prelude.Maps.{HashMap, lookup, insert, lookup-insert}
use ferri_sync.Prelude.Predicates.{All}
use ferri_sync.Version.{new, IsVersion}
use ferri_sync.Version.Order.{dominates_asymm}
use ferri_sync.Snapshot.{
  FilePath, SnapshotEntry, Snapshot, Tombstone, SyncPlan, empty_plan, SyncOperation, upload,
  download, delete, conflict,
}
use ferri_sync.Reconcile.{entry_map, collect_entries, deleted, reconcile}
use ferri_sync.Reconcile.Decision.{decide_both, decision, record_op, restrict}
use ferri_sync.Reconcile.Loop.{IsIteration, decided, reconcile-restrict}

-- The same operation, seen from the other device.
abbrev pub mirror : SyncOperation → SyncOperation
mirror (upload p v s) = download p v s
mirror (download p v s) = upload p v s
mirror (delete p) = delete p
mirror (conflict p l r) = conflict p r l

abbrev pub mirror_plan : SyncPlan → SyncPlan
mirror_plan plan = record {
  uploads = map mirror plan.downloads;
  downloads = map mirror plan.uploads;
  deletes = map mirror plan.deletes;
  conflicts = map mirror plan.conflicts;
}

abbrev pub EntriesValid : Option SnapshotEntry → Type 0
EntriesValid none = Unit {0}
EntriesValid (some e) = IsVersion e.version

-- If the versions of the listed entries are proper, those of the collected ones are.
collect_entries-valid :
    (path : FilePath) (es : List SnapshotEntry) (m : HashMap FilePath SnapshotEntry)
    → All (λ e. IsVersion e.version) es
    → EntriesValid (lookup path m)
    → EntriesValid (lookup path (collect_entries m es))
unfolding collect_entries
collect_entries-valid path [] m hs h = h
collect_entries-valid path (e ∷ es) m (he, hs) h =
    collect_entries-valid path es (insert e.path e m) hs
      (subst EntriesValid (sym (lookup-insert e.path path e m)) (pick (e.path == path)))
  where
    pick : (b : Bool) → EntriesValid (if b then some e else lookup path m)
    pick true = he
    pick false = h

pub entry_map-valid :
    (path : FilePath) (s : Snapshot)
    → All (λ e. IsVersion e.version) s.entries
    → EntriesValid (lookup path (entry_map s))
unfolding lookup
entry_map-valid path s h = collect_entries-valid path s.entries [] h tt

abbrev pub mirror_op : Option SyncOperation → Option SyncOperation
mirror_op none = none
mirror_op (some op) = some (mirror op)

decide_both-mirror :
    (path : FilePath) (l r : SnapshotEntry)
    → IsVersion l.version
    → IsVersion r.version
    → decide_both path r l ≡ mirror_op (decide_both path l r)
decide_both-mirror path l r hl hr = ground (
  arith,
  eq_iff l.hash r.hash,
  eq_iff r.hash l.hash,
  dominates_asymm l.version r.version hl hr,
  dominates_asymm r.version l.version hr hl,
)

pub decision-mirror :
    (path : FilePath) (l r : Option SnapshotEntry) (l_del r_del : Bool)
    → EntriesValid l
    → EntriesValid r
    → decision path r l r_del l_del ≡ mirror_op (decision path l r l_del r_del)
decision-mirror path (some l) (some r) l_del r_del hl hr = decide_both-mirror path l r hl hr
decision-mirror path (some l) none l_del true hl hr = refl
decision-mirror path (some l) none l_del false hl hr = refl
decision-mirror path none (some r) true r_del hl hr = refl
decision-mirror path none (some r) false r_del hl hr = refl
decision-mirror path none none l_del r_del hl hr = refl

record_op-mirror :
    (op : Option SyncOperation)
    → record_op (mirror_op op) empty_plan ≡ mirror_plan (record_op op empty_plan)
record_op-mirror none = refl
record_op-mirror (some (upload p v s)) = refl
record_op-mirror (some (download p v s)) = refl
record_op-mirror (some (delete p)) = refl
record_op-mirror (some (conflict p l r)) = refl

-- Two peers that reconcile the same pair of snapshots, each from its own side and each in its own
-- order, plan mirror images at every path whose entries carry proper versions.
pub reconcile_mirror :
    (iter iter' : List FilePath → List FilePath) (local remote : Snapshot)
    (local_tombs remote_tombs : List Tombstone) (path : FilePath)
    → IsIteration iter
    → IsIteration iter'
    → EntriesValid (lookup path (entry_map local))
    → EntriesValid (lookup path (entry_map remote))
    → restrict path (reconcile iter' remote local remote_tombs local_tombs)
      ≡ mirror_plan (restrict path (reconcile iter local remote local_tombs remote_tombs))
reconcile_mirror iter iter' local remote lt rt path it it' hl hr =
    reconcile-restrict remote local rt lt iter' path it'
    ∙ ap (λ op. record_op op empty_plan)
        (decision-mirror path (lookup path (entry_map local)) (lookup path (entry_map remote))
          (contains path (deleted lt)) (contains path (deleted rt)) hl hr)
    ∙ record_op-mirror (decided local remote lt rt path)
    ∙ sym (ap mirror_plan (reconcile-restrict local remote lt rt iter path it))

-- A file that is here, is missing on the other device and has a tombstone there is not pushed back:
-- the one operation planned for it is a conflict.
pub reconcile-deleted_remotely :
    (iter : List FilePath → List FilePath) (local remote : Snapshot)
    (local_tombs remote_tombs : List Tombstone) (path : FilePath) (e : SnapshotEntry)
    → IsIteration iter
    → lookup path (entry_map local) ≡ some e
    → lookup path (entry_map remote) ≡ none
    → contains path (deleted remote_tombs) ≡ true
    → restrict path (reconcile iter local remote local_tombs remote_tombs)
      ≡ record empty_plan { conflicts = conflict path e.version new ∷ [] }
reconcile-deleted_remotely iter local remote lt rt path e it here gone dead =
    reconcile-restrict local remote lt rt iter path it ∙ rw (here, gone, dead)

-- A path where both sides have the same content needs no operation, whatever versions and
-- tombstones the two sides carry.
pub reconcile_same_content :
    (iter : List FilePath → List FilePath) (local remote : Snapshot)
    (local_tombs remote_tombs : List Tombstone) (path : FilePath) (l r : SnapshotEntry)
    → IsIteration iter
    → lookup path (entry_map local) ≡ some l
    → lookup path (entry_map remote) ≡ some r
    → l.hash ≡ r.hash
    → restrict path (reconcile iter local remote local_tombs remote_tombs) ≡ empty_plan
reconcile_same_content iter local remote lt rt path l r it here there same =
    reconcile-restrict local remote lt rt iter path it
    ∙ rw (here, there) (ground (arith, eq_iff l.hash r.hash))
