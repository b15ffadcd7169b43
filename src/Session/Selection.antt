-- ===== src/Session/Selection.antt =====
-- What a session selects at one path, by the decision of its plan there.
use ferri_sync.Prelude.{
  ◌≡◌, refl, ap, ◌∙◌, Bool, true, false, List, [], ◌∷◌, ◌++◌, map, Option, some, string_eq, list_eq,
  nat_eq, ◌==◌, eq_iff, if◌then◌else◌, ltb, arith, keep, filter_map, Bool-cases, Option-cases, inl,
  inr,
}
use ferri_sync.Prelude.Maps.{lookup}
use ferri_sync.Prelude.Predicates.{All}
use ferri_sync.Version.{DeviceId, new, single, IsVersion, single-IsVersion, new-IsVersion}
use ferri_sync.Snapshot.{
  FilePath, FolderId, SnapshotEntry, empty_plan, SyncOperation, upload, download, delete, conflict,
  op_path,
}
use ferri_sync.Reconcile.{entry_map}
use ferri_sync.Reconcile.Decision.{record_op, about}
use ferri_sync.Reconcile.Loop.{IsIteration, decided, reconcile-restrict}
use ferri_sync.Reconcile.Peers.{EntriesValid, entry_map-valid}
use ferri_sync.Protocol.{IndexEntry, Index}
use ferri_sync.Session.{
  index_to_snapshot, to_snapshot_entry, find_path, uploaded, downloaded, conflicting, session_plan,
  client_to_push, client_to_pull, server_to_push, server_to_pull,
}

-- The entries of one path.
abbrev pub at_path : FilePath → List IndexEntry → List IndexEntry
at_path path es = keep (λ e. e.path == path) es

find_path-path :
    (path : FilePath) (es : List IndexEntry) (e : IndexEntry)
    → find_path path es ≡ some e
    → e.path ≡ path
find_path-path path [] e h = absurd (ground (arith, h))
find_path-path path (d ∷ es) e h = elim (Bool-cases (d.path == path)) [
  | inl hit ↦ ground (arith, hit, h, eq_iff d.path path)
  | inr miss ↦ find_path-path path es e (ground (arith, miss, h))
]

-- Selecting entries and then those of a path is selecting for the operations about the path.
at_path-filter_map :
    (path : FilePath) (f : SyncOperation → Option IndexEntry) (ops : List SyncOperation)
    → ((op : SyncOperation) (e : IndexEntry) → f op ≡ some e → e.path ≡ op_path op)
    → at_path path (filter_map f ops) ≡ filter_map f (about path ops)
at_path-filter_map path f [] own = refl
at_path-filter_map path f (op ∷ ops) own = elim (Option-cases (f op)) [
  | inl nothing ↦ ground (arith, nothing, at_path-filter_map path f ops own)
  | inr (e, found) ↦ ground (arith, found, own op e found, at_path-filter_map path f ops own)
]

keep-append :
    {A : Type 0} (p : A → Bool) (xs ys : List A) → keep p (xs ++ ys) ≡ keep p xs ++ keep p ys
keep-append p [] ys = refl
keep-append p (x ∷ xs) ys = ground (arith, keep-append p xs ys)

uploaded-own :
    (es : List IndexEntry) (op : SyncOperation) (e : IndexEntry)
    → uploaded es op ≡ some e
    → e.path ≡ op_path op
uploaded-own es (upload p v s) e h = find_path-path p es e h
uploaded-own es (download p v s) e h = absurd (ground (arith, h))
uploaded-own es (delete p) e h = absurd (ground (arith, h))
uploaded-own es (conflict p l r) e h = absurd (ground (arith, h))

downloaded-own :
    (es : List IndexEntry) (op : SyncOperation) (e : IndexEntry)
    → downloaded es op ≡ some e
    → e.path ≡ op_path op
downloaded-own es (download p v s) e h = find_path-path p es e h
downloaded-own es (upload p v s) e h = absurd (ground (arith, h))
downloaded-own es (delete p) e h = absurd (ground (arith, h))
downloaded-own es (conflict p l r) e h = absurd (ground (arith, h))

conflicting-own :
    (es : List IndexEntry) (op : SyncOperation) (e : IndexEntry)
    → conflicting es op ≡ some e
    → e.path ≡ op_path op
conflicting-own es op e h = find_path-path (op_path op) es e h

-- The versions of converted entries are proper.
converted-valid :
    (device : DeviceId) (es : List IndexEntry)
    → All (λ e. IsVersion (SnapshotEntry.version e)) (map (to_snapshot_entry device) es)
unfolding to_snapshot_entry
converted-valid device [] = tt
converted-valid device (e ∷ es) = (one (ltb 0 e.local_version), converted-valid device es)
  where
    one : (b : Bool) → IsVersion (if b then single device e.local_version else new)
    one true = single-IsVersion device e.local_version
    one false = new-IsVersion

pub snapshot-valid :
    (path : FilePath) (ix : Index) (folder_id : FolderId)
    → EntriesValid (lookup path (entry_map (index_to_snapshot ix folder_id)))
unfolding index_to_snapshot
snapshot-valid path ix folder_id =
    entry_map-valid path (index_to_snapshot ix folder_id) (converted-valid ix.device_id ix.entries)

module _ (iter : List FilePath → List FilePath) (it : IsIteration iter) where
  pub at_path-client_to_pull :
      (path : FilePath) (own peer : Index) (folder_id : FolderId)
      → at_path path (client_to_pull peer (session_plan iter own peer folder_id))
        ≡ client_to_pull peer (
            record_op
              (decided
                (index_to_snapshot own folder_id)
                (index_to_snapshot peer folder_id)
                []
                []
                path)
              empty_plan)
  unfolding client_to_pull
  at_path-client_to_pull path own peer folder_id =
      let plan = session_plan iter own peer folder_id in
      keep-append (λ e. e.path == path) (filter_map (downloaded peer.entries) plan.downloads)
        (filter_map (conflicting peer.entries) plan.conflicts)
      ∙ ap (λ l. l ++ at_path path (filter_map (conflicting peer.entries) plan.conflicts))
          (at_path-filter_map path (downloaded peer.entries) plan.downloads
            (downloaded-own peer.entries))
      ∙ ap (λ l. filter_map (downloaded peer.entries) (about path plan.downloads) ++ l)
          (at_path-filter_map path (conflicting peer.entries) plan.conflicts
            (conflicting-own peer.entries))
      ∙ ap (client_to_pull peer) (
          reconcile-restrict (index_to_snapshot own folder_id) (index_to_snapshot peer folder_id) []
            [] iter path it)

  pub at_path-server_to_push :
      (path : FilePath) (own peer : Index) (folder_id : FolderId)
      → at_path path (server_to_push own (session_plan iter own peer folder_id))
        ≡ server_to_push own (
            record_op
              (decided
                (index_to_snapshot own folder_id)
                (index_to_snapshot peer folder_id)
                []
                []
                path)
              empty_plan)
  unfolding server_to_push
  at_path-server_to_push path own peer folder_id =
      let plan = session_plan iter own peer folder_id in
      keep-append (λ e. e.path == path) (filter_map (uploaded own.entries) plan.uploads)
        (filter_map (conflicting own.entries) plan.conflicts)
      ∙ ap (λ l. l ++ at_path path (filter_map (conflicting own.entries) plan.conflicts))
          (at_path-filter_map path (uploaded own.entries) plan.uploads (uploaded-own own.entries))
      ∙ ap (λ l. filter_map (uploaded own.entries) (about path plan.uploads) ++ l)
          (at_path-filter_map path (conflicting own.entries) plan.conflicts
            (conflicting-own own.entries))
      ∙ ap (server_to_push own) (
          reconcile-restrict (index_to_snapshot own folder_id) (index_to_snapshot peer folder_id) []
            [] iter path it)

  pub at_path-client_to_push :
      (path : FilePath) (own peer : Index) (folder_id : FolderId)
      → at_path path (client_to_push own (session_plan iter own peer folder_id))
        ≡ client_to_push own (
            record_op
              (decided
                (index_to_snapshot own folder_id)
                (index_to_snapshot peer folder_id)
                []
                []
                path)
              empty_plan)
  unfolding client_to_push
  at_path-client_to_push path own peer folder_id =
      at_path-filter_map path (uploaded own.entries) (session_plan iter own peer folder_id).uploads
        (uploaded-own own.entries)
      ∙ ap (client_to_push own) (
          reconcile-restrict (index_to_snapshot own folder_id) (index_to_snapshot peer folder_id) []
            [] iter path it)

  pub at_path-server_to_pull :
      (path : FilePath) (own peer : Index) (folder_id : FolderId)
      → at_path path (server_to_pull peer (session_plan iter own peer folder_id))
        ≡ server_to_pull peer (
            record_op
              (decided
                (index_to_snapshot own folder_id)
                (index_to_snapshot peer folder_id)
                []
                []
                path)
              empty_plan)
  unfolding server_to_pull
  at_path-server_to_pull path own peer folder_id =
      at_path-filter_map path (downloaded peer.entries)
        (session_plan iter own peer folder_id).downloads (downloaded-own peer.entries)
      ∙ ap (server_to_pull peer) (
          reconcile-restrict (index_to_snapshot own folder_id) (index_to_snapshot peer folder_id) []
            [] iter path it)
