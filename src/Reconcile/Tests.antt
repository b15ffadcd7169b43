-- ===== src/Reconcile/Tests.antt =====
-- Two snapshots and their plans.
use ferri_sync.Prelude.{◌≡◌, refl, List, [], ◌∷◌, none, some, string_eq, list_eq, nat_eq}
use ferri_sync.Prelude.Int.{pos}
use ferri_sync.Prelude.Maps.{lookup, insert}
use ferri_sync.Version.{new, single, single-IsVersion}
use ferri_sync.Snapshot.{FilePath, SnapshotEntry, Snapshot, Tombstone, file, empty_plan, conflict}
use ferri_sync.Reconcile.{entry_map, collect_entries, reconcile}
use ferri_sync.Reconcile.Decision.{restrict, record_op}
use ferri_sync.Reconcile.Loop.{IsIteration, decided, reconcile-restrict}
use ferri_sync.Reconcile.Peers.{
  mirror_plan, EntriesValid, reconcile_mirror, reconcile-deleted_remotely,
}

abbrev pub in_order : List FilePath → List FilePath
in_order paths = paths

pub in_order-IsIteration : IsIteration in_order
in_order-IsIteration = record { same = λ xs p. refl; distinct = λ xs h. h }

abbrev notes : SnapshotEntry
notes = record {
  path = "notes";
  kind = file;
  size = 3;
  hash = 1 ∷ [];
  version = single "laptop" 1;
  mtime = pos 1;
}

abbrev photo : SnapshotEntry
photo = record {
  path = "photo";
  kind = file;
  size = 9;
  hash = 2 ∷ [];
  version = single "laptop" 1;
  mtime = pos 1;
}

abbrev photo_there : SnapshotEntry
photo_there = record {
  path = "photo";
  kind = file;
  size = 9;
  hash = 2 ∷ [];
  version = single "phone" 1;
  mtime = pos 5;
}

abbrev laptop : Snapshot
laptop = record { folder_id = pos 1; generation = 0; entries = notes ∷ photo ∷ [] }

abbrev phone : Snapshot
phone = record { folder_id = pos 1; generation = 0; entries = photo_there ∷ [] }

abbrev buried : List Tombstone
buried = record { path = "notes"; folder_id = pos 1; device_id = "phone"; deleted_at = 4 } ∷ []

notes_here : lookup "notes" (entry_map laptop) ≡ some notes
unfolding lookup insert collect_entries
notes_here = refl

notes_gone : lookup "notes" (entry_map phone) ≡ none
unfolding lookup insert collect_entries
notes_gone = refl

photo_here : lookup "photo" (entry_map laptop) ≡ some photo
unfolding lookup insert collect_entries
photo_here = refl

photo_also : lookup "photo" (entry_map phone) ≡ some photo_there
unfolding lookup insert collect_entries
photo_also = refl

notes_valid : EntriesValid (lookup "notes" (entry_map laptop))
unfolding lookup insert collect_entries
notes_valid = single-IsVersion "laptop" 1

none_valid : EntriesValid (lookup "notes" (entry_map phone))
unfolding lookup insert collect_entries
none_valid = tt

reconcile-restrict_example :
    restrict "notes" (reconcile in_order laptop phone [] buried)
    ≡ record_op (decided laptop phone [] buried "notes") empty_plan
reconcile-restrict_example =
    reconcile-restrict laptop phone [] buried in_order "notes" in_order-IsIteration

reconcile_mirror_example :
    restrict "notes" (reconcile in_order phone laptop buried [])
    ≡ mirror_plan (restrict "notes" (reconcile in_order laptop phone [] buried))
reconcile_mirror_example =
    reconcile_mirror in_order in_order laptop phone [] buried "notes" in_order-IsIteration
      in_order-IsIteration notes_valid none_valid

reconcile-deleted_remotely_example :
    restrict "notes" (reconcile in_order laptop phone [] buried)
    ≡ record empty_plan { conflicts = conflict "notes" (single "laptop" 1) new ∷ [] }
reconcile-deleted_remotely_example =
    reconcile-deleted_remotely in_order laptop phone [] buried "notes" notes in_order-IsIteration
      notes_here notes_gone refl
