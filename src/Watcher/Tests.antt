-- ===== src/Watcher/Tests.antt =====
-- A burst of events and its batches.
use ferri_sync.Prelude.{
  ◌≡◌, refl, false, List, [], ◌∷◌, ◌++◌, map, none, String, string_eq, Distinct, arith,
}
use ferri_sync.Prelude.Predicates.{All}
use ferri_sync.Watcher.{
  ChangeEvent, created, modified, deleted, primary_path, coalesce, Wake, received, elapsed,
  Scheduler, run,
}
use ferri_sync.Watcher.Coalesce.{find_event, coalesce-merged}
use ferri_sync.Watcher.Tracking.{merged}
use ferri_sync.Watcher.Schedule.{arrived, concat, coalesce_all, IsBounded, IsWaiting, run-partition}

abbrev burst : List (ChangeEvent String)
burst = created "a" ∷ modified "b" ∷ modified "a" ∷ deleted "b" ∷ created "c" ∷ deleted "c" ∷ []

coalesce-merged_example :
    ((p : String) → find_event p (coalesce burst) ≡ merged p burst none)
    × Distinct (map (λ x. primary_path x) (coalesce burst))
coalesce-merged_example = coalesce-merged burst

abbrev waking : List (Wake String)
waking = received (created "a") ∷ received (modified "a") ∷ elapsed ∷ received (deleted "b") ∷ []

abbrev idle : Scheduler String
idle = record { armed = false; pending = [] }

idle-IsWaiting : IsWaiting 10 idle
idle-IsWaiting = record { idle = λ e. refl; room = λ e. absurd (ground (arith, e)) }

run-partition_example :
    (batches : List (List (ChangeEvent String))) × (run 10 waking idle ≡ coalesce_all batches)
    × (concat batches ≡ [] ++ arrived waking)
    × All (IsBounded 10) batches
run-partition_example = run-partition 10 waking idle idle-IsWaiting
