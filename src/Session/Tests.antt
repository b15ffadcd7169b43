-- ===== src/Session/Tests.antt =====
-- Two peers whose copies of one file differ.
use ferri_sync.Prelude.{
  ℕ, ◌≡◌, refl, ◌≢◌, true, List, [], ◌∷◌, none, some, nat_eq, string_eq, list_eq, eq_iff,
}
use ferri_sync.Prelude.Int.{pos}
use ferri_sync.Prelude.Maps.{lookup, insert}
use ferri_sync.Version.{concurrent, dominates, any_greater, no_unknown, single, get}
use ferri_sync.Reconcile.{entry_map, collect_entries}
use ferri_sync.Reconcile.Tests.{in_order, in_order-IsIteration}
use ferri_sync.Protocol.{IndexEntry, Index}
use ferri_sync.Session.{
  as_file_hash, to_snapshot_entry, index_to_snapshot, snapshot_to_index, build_protocol_index,
  find_path, session_plan, client_to_push, client_to_pull, server_to_push, server_to_pull,
  session_totals,
}
use ferri_sync.Session.Selection.{at_path}
use ferri_sync.Session.Agreement.{session_agreement, to_list, session_conflict}

abbrev note_here : IndexEntry
note_here = record {
  path = "a";
  local_version = 5;
  remote_version = 0;
  mtime = pos 5;
  size = 2;
  hash = 1 ∷ [];
}

abbrev note_there : IndexEntry
note_there = record {
  path = "a";
  local_version = 4;
  remote_version = 0;
  mtime = pos 4;
  size = 3;
  hash = 2 ∷ [];
}

abbrev laptop_index : Index
laptop_index = record {
  folder_id = "1";
  device_id = "laptop";
  remote_path = none;
  entries = note_here ∷ [];
}

abbrev phone_index : Index
phone_index = record {
  folder_id = "9";
  device_id = "phone";
  remote_path = none;
  entries = note_there ∷ [];
}

session_agreement_example :
    (at_path "a"
        (client_to_pull phone_index (session_plan in_order laptop_index phone_index (pos 1)))
      ≡ at_path "a"
          (server_to_push phone_index (session_plan in_order phone_index laptop_index (pos 9))))
    × (at_path "a"
          (client_to_push laptop_index (session_plan in_order laptop_index phone_index (pos 1)))
        ≡ at_path "a"
            (server_to_pull laptop_index (session_plan in_order phone_index laptop_index (pos 9))))
session_agreement_example =
    session_agreement in_order in_order laptop_index phone_index (pos 1) (pos 9) "a"
      in_order-IsIteration in_order-IsIteration

copies_differ : ◌≢◌ {A = List ℕ} (as_file_hash (1 ∷ [])) (as_file_hash (2 ∷ []))
copies_differ e = cc ((eq_iff {T = List ℕ} (as_file_hash (1 ∷ [])) (as_file_hash (2 ∷ []))).1 e)

here_found :
    lookup "a" (entry_map (index_to_snapshot laptop_index (pos 1)))
    ≡ some (to_snapshot_entry "laptop" note_here)
unfolding lookup insert collect_entries index_to_snapshot to_snapshot_entry
here_found = refl

there_found :
    lookup "a" (entry_map (index_to_snapshot phone_index (pos 1)))
    ≡ some (to_snapshot_entry "phone" note_there)
unfolding lookup insert collect_entries index_to_snapshot to_snapshot_entry
there_found = refl

hashes_differ :
    (to_snapshot_entry "laptop" note_here).hash ≢ (to_snapshot_entry "phone" note_there).hash
unfolding to_snapshot_entry
hashes_differ = copies_differ

versions_apart :
    concurrent
      (to_snapshot_entry "laptop" note_here).version
      (to_snapshot_entry "phone" note_there).version
    ≡ true
unfolding to_snapshot_entry concurrent dominates any_greater no_unknown single lookup insert get
versions_apart = refl

session_conflict_example :
    let plan = session_plan in_order laptop_index phone_index (pos 1) in
    (at_path "a" (client_to_push laptop_index plan) ≡ [])
    × (at_path "a" (client_to_pull phone_index plan) ≡ to_list (find_path "a" phone_index.entries))
session_conflict_example =
    session_conflict in_order laptop_index phone_index (pos 1) "a"
      (to_snapshot_entry "laptop" note_here) (to_snapshot_entry "phone" note_there)
      in_order-IsIteration here_found there_found hashes_differ versions_apart

-- The scan of a directory becomes an index whose versions count the time of each file.
scanned :
    build_protocol_index (record { folder_id = pos 1; generation = 0; entries = [] }) "1" "laptop"
    ≡ []
unfolding build_protocol_index snapshot_to_index
scanned = refl

totals : session_totals laptop_index.entries phone_index.entries ≡ (2, 5)
unfolding session_totals
totals = refl
