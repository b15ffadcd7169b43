-- ===== src/Reconcile/Decision.antt =====
-- What the reconciler is to do with one path, apart from the loop: at most one operation.
use ferri_sync.Prelude.{
  ◌≡◌, refl, ◌≢◌, Bool, true, false, List, [], ◌∷◌, ◌++◌, Option, none, some, string_eq, list_eq,
  nat_eq, ◌==◌, eq_iff, if◌then◌else◌, arith, keep, sym, ◌∙◌,
}
use ferri_sync.Version.{new, dominates}
use ferri_sync.Snapshot.{
  FilePath, SnapshotEntry, SyncOperation, upload, download, delete, conflict, op_path, SyncPlan,
}
use ferri_sync.Reconcile.{reconcile_path}

-- The newer of two different versions wins; neither newer is a conflict.
abbrev pub decide_both : FilePath → SnapshotEntry → SnapshotEntry → Option SyncOperation
decide_both path l r =
    if l.hash == r.hash
    then none
    else if dominates l.version r.version
    then some (upload path l.version l.size)
    else if dominates r.version l.version
    then some (download path r.version r.size)
    else some (conflict path l.version r.version)

abbrev pub decision :
    FilePath → Option SnapshotEntry → Option SnapshotEntry → Bool → Bool → Option SyncOperation
decision path (some l) (some r) l_del r_del = decide_both path l r
decision path (some l) none l_del true = some (conflict path l.version new)
decision path (some l) none l_del false = some (upload path l.version l.size)
decision path none (some r) true r_del = some (conflict path new r.version)
decision path none (some r) false r_del = some (download path r.version r.size)
decision path none none l_del r_del = none

-- A plan with one more operation.
abbrev pub record_op : Option SyncOperation → SyncPlan → SyncPlan
record_op none plan = plan
record_op (some (upload p v s)) plan = record plan { uploads = plan.uploads ++ upload p v s ∷ [] }
record_op (some (download p v s)) plan = record plan {
  downloads = plan.downloads ++ download p v s ∷ [];
}
record_op (some (delete p)) plan = record plan { deletes = plan.deletes ++ delete p ∷ [] }
record_op (some (conflict p l r)) plan = record plan {
  conflicts = plan.conflicts ++ conflict p l r ∷ [];
}

pub reconcile_path_lem :
    (path : FilePath) (l r : Option SnapshotEntry) (l_del r_del : Bool) (plan : SyncPlan)
    → reconcile_path path l r l_del r_del plan ≡ record_op (decision path l r l_del r_del) plan
unfolding reconcile_path
reconcile_path_lem path (some l) (some r) l_del r_del plan = ground arith
reconcile_path_lem path (some l) none l_del true plan = refl
reconcile_path_lem path (some l) none l_del false plan = refl
reconcile_path_lem path none (some r) true r_del plan = refl
reconcile_path_lem path none (some r) false r_del plan = refl
reconcile_path_lem path none none l_del r_del plan = refl

-- The operations of a plan that are about one path.
abbrev pub about : FilePath → List SyncOperation → List SyncOperation
about path = keep (λ op. op_path op == path)

abbrev pub restrict : FilePath → SyncPlan → SyncPlan
restrict path plan = record {
  uploads = about path plan.uploads;
  downloads = about path plan.downloads;
  deletes = about path plan.deletes;
  conflicts = about path plan.conflicts;
}

-- An operation is absent, or about the path.
abbrev pub IsAbout : FilePath → Option SyncOperation → Type 0
IsAbout path none = Unit {0}
IsAbout path (some op) = op_path op ≡ path

pub decision-IsAbout :
    (path : FilePath) (l r : Option SnapshotEntry) (l_del r_del : Bool)
    → IsAbout path (decision path l r l_del r_del)
decision-IsAbout path (some l) (some r) l_del r_del = ground arith
decision-IsAbout path (some l) none l_del true = refl
decision-IsAbout path (some l) none l_del false = refl
decision-IsAbout path none (some r) true r_del = refl
decision-IsAbout path none (some r) false r_del = refl
decision-IsAbout path none none l_del r_del = tt

about-concat_self :
    (path : FilePath) (ops : List SyncOperation) (op : SyncOperation)
    → op_path op ≡ path
    → about path (ops ++ op ∷ []) ≡ about path ops ++ op ∷ []
about-concat_self path [] op e = ground (arith, eq_iff (op_path op) path)
about-concat_self path (o ∷ ops) op e = ground (arith, about-concat_self path ops op e)

about-concat_ne :
    (path : FilePath) (ops : List SyncOperation) (op : SyncOperation)
    → op_path op ≢ path
    → about path (ops ++ op ∷ []) ≡ about path ops
about-concat_ne path [] op e = ground (arith, eq_iff (op_path op) path)
about-concat_ne path (o ∷ ops) op e = ground (arith, about-concat_ne path ops op e)

pub restrict-record_op_self :
    (path : FilePath) (op : Option SyncOperation) (plan : SyncPlan)
    → IsAbout path op
    → restrict path (record_op op plan) ≡ record_op op (restrict path plan)
restrict-record_op_self path none plan h = refl
restrict-record_op_self path (some (upload p v s)) plan h =
    rw (about-concat_self path plan.uploads (upload p v s) h)
restrict-record_op_self path (some (download p v s)) plan h =
    rw (about-concat_self path plan.downloads (download p v s) h)
restrict-record_op_self path (some (delete p)) plan h =
    rw (about-concat_self path plan.deletes (delete p) h)
restrict-record_op_self path (some (conflict p l r)) plan h =
    rw (about-concat_self path plan.conflicts (conflict p l r) h)

pub restrict-record_op_ne :
    (path other : FilePath) (op : Option SyncOperation) (plan : SyncPlan)
    → IsAbout other op
    → other ≢ path
    → restrict path (record_op op plan) ≡ restrict path plan
restrict-record_op_ne path other none plan h ne = refl
restrict-record_op_ne path other (some (upload p v s)) plan h ne =
    rw (about-concat_ne path plan.uploads (upload p v s) (λ e. ne (sym h ∙ e)))
restrict-record_op_ne path other (some (download p v s)) plan h ne =
    rw (about-concat_ne path plan.downloads (download p v s) (λ e. ne (sym h ∙ e)))
restrict-record_op_ne path other (some (delete p)) plan h ne =
    rw (about-concat_ne path plan.deletes (delete p) (λ e. ne (sym h ∙ e)))
restrict-record_op_ne path other (some (conflict p l r)) plan h ne =
    rw (about-concat_ne path plan.conflicts (conflict p l r) (λ e. ne (sym h ∙ e)))
