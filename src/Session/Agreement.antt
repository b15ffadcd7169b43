-- ===== src/Session/Agreement.antt =====
-- Both sides of a session make the same lists of files, each from its own plan.
use ferri_sync.Prelude.{
  ◌≢◌, true, ◌∷◌, filter_map, arith, eq_iff, ◌≡◌, refl, ap, sym, ◌∙◌, false, List, [], Option, none,
  some, string_eq, list_eq, nat_eq,
}
use ferri_sync.Prelude.Maps.{lookup}
use ferri_sync.Version.{FileVersion, concurrent}
use ferri_sync.Version.Order.{concurrent-dominates}
use ferri_sync.Snapshot.{
  SnapshotEntry, FilePath, FolderId, empty_plan, SyncOperation, upload, download, delete, conflict,
}
use ferri_sync.Reconcile.{entry_map}
use ferri_sync.Reconcile.Decision.{record_op}
use ferri_sync.Reconcile.Loop.{IsIteration, decided}
use ferri_sync.Reconcile.Peers.{mirror_op, decision-mirror}
use ferri_sync.Protocol.{IndexEntry, Index}
use ferri_sync.Session.{
  find_path, conflicting, index_to_snapshot, session_plan, client_to_push, client_to_pull,
  server_to_push, server_to_pull,
}
use ferri_sync.Session.Selection.{
  at_path, snapshot-valid, at_path-client_to_pull, at_path-server_to_push, at_path-client_to_push,
  at_path-server_to_pull,
}

-- The decisions of the two sides at a path mirror each other, under whatever ids each side keeps
-- the folder.
decided-mirror :
    (path : FilePath) (client server : Index) (here there : FolderId)
    → decided (index_to_snapshot server there) (index_to_snapshot client there) [] [] path
      ≡ mirror_op
          (decided (index_to_snapshot client here) (index_to_snapshot server here) [] [] path)
unfolding index_to_snapshot
decided-mirror path client server here there =
    decision-mirror path (lookup path (entry_map (index_to_snapshot client here)))
      (lookup path (entry_map (index_to_snapshot server here))) false false
      (snapshot-valid path client here) (snapshot-valid path server here)

pull-push :
    (server : Index) (op : Option SyncOperation)
    → client_to_pull server (record_op op empty_plan)
      ≡ server_to_push server (record_op (mirror_op op) empty_plan)
unfolding client_to_pull server_to_push
pull-push server none = refl
pull-push server (some (upload p v s)) = refl
pull-push server (some (download p v s)) = refl
pull-push server (some (delete p)) = refl
pull-push server (some (conflict p l r)) = refl

push-pull :
    (client : Index) (op : Option SyncOperation)
    → client_to_push client (record_op op empty_plan)
      ≡ server_to_pull client (record_op (mirror_op op) empty_plan)
unfolding client_to_push server_to_pull
push-pull client none = refl
push-pull client (some (upload p v s)) = refl
push-pull client (some (download p v s)) = refl
push-pull client (some (delete p)) = refl
push-pull client (some (conflict p l r)) = refl

-- When two peers have each other's index, then at every path the client waits for exactly the
-- entries that the server pushes, and pushes exactly those that the server waits for, although each
-- reconciles on its own, under its own folder id and in its own order of paths.
pub session_agreement :
    (iter iter' : List FilePath → List FilePath) (client server : Index) (here there : FolderId)
    (path : FilePath)
    → IsIteration iter
    → IsIteration iter'
    → (at_path path (client_to_pull server (session_plan iter client server here))
        ≡ at_path path (server_to_push server (session_plan iter' server client there)))
      × (at_path path (client_to_push client (session_plan iter client server here))
          ≡ at_path path (server_to_pull client (session_plan iter' server client there)))
session_agreement iter iter' client server here there path it it' =
    let op = decided (index_to_snapshot client here) (index_to_snapshot server here) [] [] path in
    let turn =
      sym (ap (λ o. record_op o empty_plan) (decided-mirror path client server here there)) in
    (
      at_path-client_to_pull iter it path client server here
          ∙ pull-push server op
          ∙ ap (server_to_push server) turn
          ∙ sym (at_path-server_to_push iter' it' path server client there),
      at_path-client_to_push iter it path client server here
          ∙ push-pull client op
          ∙ ap (server_to_pull client) turn
          ∙ sym (at_path-server_to_pull iter' it' path server client there),
    )

-- The list of a single found entry.
abbrev pub to_list : Option IndexEntry → List IndexEntry
to_list none = []
to_list (some e) = e ∷ []

conflict-selected :
    (path : FilePath) (client server : Index) (l r : FileVersion)
    → (client_to_push client (record_op (some (conflict path l r)) empty_plan) ≡ [])
      × (client_to_pull server (record_op (some (conflict path l r)) empty_plan)
          ≡ to_list (find_path path server.entries))
unfolding client_to_push client_to_pull
conflict-selected path client server l r = (refl, picked (find_path path server.entries) refl)
  where
    picked :
        (o : Option IndexEntry)
        → find_path path server.entries ≡ o
        → filter_map (conflicting server.entries) (conflict path l r ∷ [])
          ≡ to_list (find_path path server.entries)
    picked none e = rw (e, filter_map) refl
    picked (some x) e = rw (e, filter_map) refl

-- Where both peers have a file with different content and concurrent versions, the connecting side
-- pushes nothing and takes the server's entry, whatever the times of the two files.
pub session_conflict :
    (iter : List FilePath → List FilePath) (client server : Index) (here : FolderId)
    (path : FilePath) (l r : SnapshotEntry)
    → IsIteration iter
    → lookup path (entry_map (index_to_snapshot client here)) ≡ some l
    → lookup path (entry_map (index_to_snapshot server here)) ≡ some r
    → l.hash ≢ r.hash
    → concurrent l.version r.version ≡ true
    → let plan = session_plan iter client server here in
      (at_path path (client_to_push client plan) ≡ [])
      × (at_path path (client_to_pull server plan) ≡ to_list (find_path path server.entries))
session_conflict iter client server here path l r it found found' differ apart =
    let plans = ap (λ o. record_op o empty_plan) conflicted in
    (
      at_path-client_to_push iter it path client server here
          ∙ ap (client_to_push client) plans
          ∙ (conflict-selected path client server l.version r.version).0,
      at_path-client_to_pull iter it path client server here
          ∙ ap (client_to_pull server) plans
          ∙ (conflict-selected path client server l.version r.version).1,
    )
  where
    conflicted :
        decided (index_to_snapshot client here) (index_to_snapshot server here) [] [] path
        ≡ some (conflict path l.version r.version)
    conflicted =
        rw (found, found')
          (ground (
            arith,
            eq_iff l.hash r.hash,
            differ,
            (concurrent-dominates l.version r.version apart).0,
            (concurrent-dominates l.version r.version apart).1,
          ))
