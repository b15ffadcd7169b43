-- ===== src/Watcher/Coalesce.antt =====
-- What a coalesced batch of watcher/mod.rs says of each path.
use ferri_sync.Prelude.{
  ◌≡◌, refl, ap, ◌∙◌, Bool, List, [], ◌∷◌, map, Option, none, some, Eq, ◌==◌, eq_iff, contains,
  Distinct, if◌then◌else◌, is_some, arith, Option-cases, inl, inr,
}
use ferri_sync.Prelude.Maps.{HashMap, lookup, remove, lookup-remove}
use ferri_sync.Watcher.{ChangeEvent, primary_path, flatten, track, drain, coalesce}
use ferri_sync.Watcher.Tracking.{merged, IsTracked, track-flatten, track-IsTracked}

module _ {P : Type 0} ⦃e : Eq P⦄ where
  abbrev pub find_event : P → List (ChangeEvent P) → Option (ChangeEvent P)
  find_event p [] = none
  find_event p (event ∷ events) =
      if primary_path event == p then some event else find_event p events

  -- What the drained list says of a path: the event that is tracked for it.
  drain-find :
      (p : P) (order : List P) (fs : HashMap P (Option (ChangeEvent P)))
      → Distinct order
      → ((q : P) (x : ChangeEvent P) → flatten (lookup q fs) ≡ some x → primary_path x ≡ q)
      → find_event p (drain order fs) ≡ (if contains p order then flatten (lookup p fs) else none)
  unfolding drain
  drain-find p [] fs h own = refl
  drain-find p (q ∷ order) fs (fresh, h) own = elim (Option-cases (flatten (lookup q fs))) [
    | inl nothing ↦ ground (
      arith,
      nothing,
      fresh,
      eq_iff q p,
      lookup-remove q p fs,
      drain-find p order (remove q fs) h own_rest,
    )
    | inr (x, found) ↦ ground (
      arith,
      found,
      fresh,
      own q x found,
      eq_iff q p,
      eq_iff (primary_path x) p,
      lookup-remove q p fs,
      drain-find p order (remove q fs) h own_rest,
    )
  ]
    where
      own_rest :
          (r : P) (x : ChangeEvent P)
          → flatten (lookup r (remove q fs)) ≡ some x
          → primary_path x ≡ r
      own_rest r x e = ground (arith, e, own r x, eq_iff q r, lookup-remove q r fs)

  find-contains :
      (p : P) (xs : List (ChangeEvent P))
      → contains p (map (λ x. primary_path x) xs) ≡ is_some (find_event p xs)
  find-contains p [] = refl
  find-contains p (x ∷ xs) = ground (arith, find-contains p xs)

  drain-Distinct :
      (order : List P) (fs : HashMap P (Option (ChangeEvent P)))
      → Distinct order
      → ((q : P) (x : ChangeEvent P) → flatten (lookup q fs) ≡ some x → primary_path x ≡ q)
      → Distinct (map (λ x. primary_path x) (drain order fs))
  unfolding drain
  drain-Distinct [] fs h own = tt
  drain-Distinct (q ∷ order) fs (fresh, h) own = elim (Option-cases (flatten (lookup q fs))) [
    | inl nothing ↦ rw (nothing, drain) (drain-Distinct order (remove q fs) h own_rest)
    | inr (x, found) ↦
        rw (found, drain)
          (
            ground (
              arith,
              own q x found,
              fresh,
              find-contains (primary_path x) (drain order (remove q fs)),
              drain-find (primary_path x) order (remove q fs) h own_rest,
            ),
            drain-Distinct order (remove q fs) h own_rest,
          )
  ]
    where
      own_rest :
          (r : P) (x : ChangeEvent P)
          → flatten (lookup r (remove q fs)) ≡ some x
          → primary_path x ≡ r
      own_rest r x e = ground (arith, e, own r x, eq_iff q r, lookup-remove q r fs)

  start_IsTracked : IsTracked {P = P} [] []
  unfolding lookup
  start_IsTracked = record {
    keys = λ p. refl;
    distinct = tt;
    own = λ p x h. absurd (ground (arith, h));
  }

  -- A coalesced batch says of each path what merging the events of that path one after another
  -- gives, whatever events of other paths come between them; and it names no path twice.
  pub coalesce-merged :
      (events : List (ChangeEvent P))
      → ((p : P) → find_event p (coalesce events) ≡ merged p events none)
        × Distinct (map (λ x. primary_path x) (coalesce events))
  unfolding coalesce lookup
  coalesce-merged [] = (λ p. refl, tt)
  coalesce-merged (event ∷ events) =
      let all = event ∷ events in
      let i = track-IsTracked all [] [] start_IsTracked in
      let (fs, order) = track all [] [] in
      (
        λ p.
            drain-find p order fs i.distinct i.own
            ∙ tracked_or_none (contains p order) (lookup p fs) (i.keys p)
            ∙ track-flatten p all [] []
            ∙ ap (merged p all) (no_entry p),
        drain-Distinct order fs i.distinct i.own,
      )
    where
      no_entry : (p : P) → flatten {A = ChangeEvent P} (lookup p []) ≡ none
      no_entry p = refl

      tracked_or_none :
          (known : Bool) (o : Option (Option (ChangeEvent P)))
          → known ≡ is_some o
          → (if known then flatten o else none) ≡ flatten o
      tracked_or_none known none h = ground (arith, h)
      tracked_or_none known (some x) h = ground (arith, h)
