-- ===== src/Watcher.antt =====
-- ferrisync-core/src/watcher/mod.rs: `ChangeScheduler`, which collects the events of a file watcher
-- and releases them in coalesced batches.
pub mod Coalesce
pub mod Tracking
pub mod Schedule
pub mod Tests
use ferri_sync.Prelude.{
  ℕ, Bool, true, false, ◌&&◌, List, [], ◌∷◌, ◌++◌, Option, none, some, Eq, ◌==◌, if◌then◌else◌, ltb,
  leb, length, filter_map,
}
use ferri_sync.Prelude.Maps.{HashMap, lookup, insert, remove, contains_key}
use ferri_sync.Prelude.Options.{option_bind}

-- `PathBuf` of the standard library is the parameter `P`: what is used of it is its equality.
pub data ChangeEvent (P : Type 0) : Type 0 where
  created modified deleted : P → ChangeEvent P
  renamed : P → P → ChangeEvent P

pub merge_events : {P : Type 0} → Option (ChangeEvent P) → ChangeEvent P → Option (ChangeEvent P)
merge_events (some (created q)) (modified p) = some (created p)
merge_events (some (created q)) (deleted p) = none
merge_events (some (modified q)) (deleted p) = some (deleted p)
merge_events (some (deleted q)) (created p) = some (modified p)
merge_events (some (deleted q)) (modified p) = some (modified p)
merge_events prev other = some other

-- `primary_path` and `entry_path`
abbrev pub primary_path : {P : Type 0} → ChangeEvent P → P
primary_path (created p) = p
primary_path (modified p) = p
primary_path (deleted p) = p
primary_path (renamed from to) = from

-- `get(&path).and_then(|o| o.as_ref())`
abbrev pub flatten : {A : Type 0} → Option (Option A) → Option A
flatten none = none
flatten (some o) = o

-- What wakes the scheduler: an event of the channel, or the debounce deadline. The end of a list of
-- these is the end of the channel.
pub data Wake (P : Type 0) : Type 0 where
  received : ChangeEvent P → Wake P
  elapsed : Wake P

-- Whether a deadline is set, and the events since the last batch.
pub record Scheduler (P : Type 0) : Type 0 where
  pub armed : Bool
  pub pending : List (ChangeEvent P)

-- `if !batch.is_empty() { output.send(..) }`, in front of what is sent later.
abbrev pub release : {A : Type 0} → List A → List (List A) → List (List A)
release [] rest = rest
release (x ∷ xs) rest = (x ∷ xs) ∷ rest

-- `self.max_batch > 0 && pending.len() >= self.max_batch`
abbrev pub is_full : {A : Type 0} → ℕ → List A → Bool
is_full max_batch pending = ltb 0 max_batch && leb max_batch (length pending)

-- `if is_new { order.push(path) }`
abbrev pub push_new : {A : Type 0} → Bool → A → List A → List A
push_new true path order = order
push_new false path order = order ++ path ∷ []

module _ {P : Type 0} ⦃e : Eq P⦄ where
  -- The loop over the events: `final_state` and `order`.
  pub track :
      List (ChangeEvent P)
      → HashMap P (Option (ChangeEvent P))
      → List P
      → HashMap P (Option (ChangeEvent P)) × List P
  unfolding merge_events
  track [] final_state order = (final_state, order)
  track (event ∷ events) final_state order =
      let path = primary_path event in
      let order' = push_new (contains_key path final_state) path order in
      let merged = merge_events (flatten (lookup path final_state)) event in
      track events (insert path merged final_state) order'

  -- `order.into_iter().filter_map(|p| final_state.remove(&p).flatten())`
  pub drain : List P → HashMap P (Option (ChangeEvent P)) → List (ChangeEvent P)
  drain [] final_state = []
  drain (p ∷ order) final_state =
      let rest = drain order (remove p final_state) in
      elim (flatten (lookup p final_state)) [ none ↦ rest | some event ↦ event ∷ rest ]

  pub coalesce : List (ChangeEvent P) → List (ChangeEvent P)
  unfolding track drain
  coalesce [] = []
  coalesce (event ∷ events) =
      let (final_state, order) = track (event ∷ events) [] [] in drain order final_state

  -- One turn of the loop: the state after it and the events handed to `coalesce`, if any. Without a
  -- deadline only the channel is awaited.
  pub turn : ℕ → Wake P → Bool → List (ChangeEvent P) → Scheduler P × Option (List (ChangeEvent P))
  turn max_batch (received e) true pending =
      if is_full max_batch (pending ++ e ∷ [])
      then (record { armed = false; pending = [] }, some (pending ++ e ∷ []))
      else (record { armed = true; pending = pending ++ e ∷ [] }, none)
  turn max_batch (received e) false pending =
      (record { armed = true; pending = pending ++ e ∷ [] }, none)
  turn max_batch elapsed true pending = (record { armed = false; pending = [] }, some pending)
  turn max_batch elapsed false pending = (record { armed = false; pending = pending }, none)

  -- The batches that `run` sends until the channel is closed.
  pub run : ℕ → List (Wake P) → Scheduler P → List (List (ChangeEvent P))
  unfolding turn coalesce
  run max_batch [] s = if s.armed then release (coalesce s.pending) [] else []
  run max_batch (w ∷ ws) s =
      let (s', batch) = turn max_batch w s.armed s.pending in
      let rest = run max_batch ws s' in
      elim batch [ none ↦ rest | some events ↦ release (coalesce events) rest ]
