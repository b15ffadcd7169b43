-- ===== src/Watcher/Tracking.antt =====
-- What the loop of `coalesce` in watcher/mod.rs tracks for each path.
use ferri_sync.Prelude.{
  ◌≡◌, refl, ◌∙◌, Bool, true, false, ◌||◌, List, [], ◌∷◌, ◌++◌, Option, none, some, Eq, ◌==◌,
  eq_iff, contains, Distinct, if◌then◌else◌, is_some, arith,
}
use ferri_sync.Prelude.Maps.{HashMap, lookup, insert, contains_key, lookup-insert}
use ferri_sync.Watcher.{
  ChangeEvent, created, modified, deleted, renamed, merge_events, primary_path, flatten, push_new,
  track,
}

pub merge_events-primary_path :
    {P : Type 0} (prev : Option (ChangeEvent P)) (next x : ChangeEvent P)
    → merge_events prev next ≡ some x
    → primary_path x ≡ primary_path next
unfolding merge_events
merge_events-primary_path none next x h = ground (arith, h)
merge_events-primary_path (some (created q)) (created p) x h = ground (arith, h)
merge_events-primary_path (some (created q)) (modified p) x h = ground (arith, h)
merge_events-primary_path (some (created q)) (deleted p) x h = ground (arith, h)
merge_events-primary_path (some (created q)) (renamed p r) x h = ground (arith, h)
merge_events-primary_path (some (modified q)) (created p) x h = ground (arith, h)
merge_events-primary_path (some (modified q)) (modified p) x h = ground (arith, h)
merge_events-primary_path (some (modified q)) (deleted p) x h = ground (arith, h)
merge_events-primary_path (some (modified q)) (renamed p r) x h = ground (arith, h)
merge_events-primary_path (some (deleted q)) (created p) x h = ground (arith, h)
merge_events-primary_path (some (deleted q)) (modified p) x h = ground (arith, h)
merge_events-primary_path (some (deleted q)) (deleted p) x h = ground (arith, h)
merge_events-primary_path (some (deleted q)) (renamed p r) x h = ground (arith, h)
merge_events-primary_path (some (renamed q s)) next x h = ground (arith, h)

module _ {P : Type 0} ⦃e : Eq P⦄ where
  -- The events of one path merged one after another.
  abbrev pub merged : P → List (ChangeEvent P) → Option (ChangeEvent P) → Option (ChangeEvent P)
  merged p [] o = o
  merged p (event ∷ events) o =
      let hit = merged p events (merge_events o event) in
      let miss = merged p events o in if primary_path event == p then hit else miss

  -- The state of the loop: `order` has the keys of `final_state` once each, and an event stands
  -- under its own path.
  pub record IsTracked (final_state : HashMap P (Option (ChangeEvent P))) (order : List P)
      : Type 0 where
    pub keys : (p : P) → contains p order ≡ is_some (lookup p final_state)
    pub distinct : Distinct order
    pub own :
        (p : P) (x : ChangeEvent P) → flatten (lookup p final_state) ≡ some x → primary_path x ≡ p

  contains-append : (p q : P) (ps : List P) → contains p (ps ++ q ∷ []) ≡ contains p ps || (q == p)
  contains-append p q [] = ground arith
  contains-append p q (r ∷ ps) = ground (arith, contains-append p q ps)

  append-Distinct :
      (q : P) (ps : List P) → Distinct ps → contains q ps ≡ false → Distinct (ps ++ q ∷ [])
  append-Distinct q [] h fresh = (refl, tt)
  append-Distinct q (r ∷ ps) (hr, h) fresh = (
    ground (arith, contains-append r q ps, eq_iff q r, eq_iff r q),
    append-Distinct q ps h (ground arith),
  )

  push_new-Distinct :
      (known : Bool) (q : P) (ps : List P)
      → Distinct ps
      → contains q ps ≡ known
      → Distinct (push_new known q ps)
  push_new-Distinct true q ps h e = h
  push_new-Distinct false q ps h e = append-Distinct q ps h e

  pub track-flatten :
      (p : P) (events : List (ChangeEvent P)) (fs : HashMap P (Option (ChangeEvent P)))
      (order : List P)
      → flatten (lookup p (track events fs order).0) ≡ merged p events (flatten (lookup p fs))
  unfolding track
  track-flatten p [] fs order = refl
  track-flatten p (event ∷ events) fs order =
      track-flatten p events
        (insert (primary_path event) (merge_events (flatten (lookup (primary_path event) fs)) event)
          fs)
        (push_new (contains_key (primary_path event) fs) (primary_path event) order)
      ∙ ground (
        arith,
        eq_iff (primary_path event) p,
        lookup-insert (primary_path event) p
            (merge_events (flatten (lookup (primary_path event) fs)) event) fs,
      )

  pub track-IsTracked :
      (events : List (ChangeEvent P)) (fs : HashMap P (Option (ChangeEvent P))) (order : List P)
      → IsTracked fs order
      → IsTracked (track events fs order).0 (track events fs order).1
  unfolding track
  track-IsTracked [] fs order i = i
  track-IsTracked (event ∷ events) fs order i =
      let path = primary_path event in
      let m = merge_events (flatten (lookup path fs)) event in
      track-IsTracked events (insert path m fs) (push_new (contains_key path fs) path order)
        (record {
          keys = keys_after;
          distinct = push_new-Distinct (contains_key path fs) path order i.distinct (i.keys path);
          own = own_after;
        })
    where
      keys_after :
          (p : P)
          → contains p (push_new (contains_key (primary_path event) fs) (primary_path event) order)
            ≡ is_some (
                lookup p (
                  insert
                    (primary_path event)
                    (merge_events (flatten (lookup (primary_path event) fs)) event)
                    fs))
      keys_after p = ground (
        arith,
        i.keys p,
        i.keys (primary_path event),
        eq_iff (primary_path event) p,
        contains-append p (primary_path event) order,
        lookup-insert (primary_path event) p
            (merge_events (flatten (lookup (primary_path event) fs)) event) fs,
      )

      own_after :
          (p : P) (x : ChangeEvent P)
          → flatten (
              lookup p (
                insert
                  (primary_path event)
                  (merge_events (flatten (lookup (primary_path event) fs)) event)
                  fs))
            ≡ some x
          → primary_path x ≡ p
      own_after p x h = ground (
        arith,
        i.own p x,
        eq_iff (primary_path event) p,
        merge_events-primary_path (flatten (lookup (primary_path event) fs)) event x,
        lookup-insert (primary_path event) p
            (merge_events (flatten (lookup (primary_path event) fs)) event) fs,
      )
