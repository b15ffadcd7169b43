-- ===== src/Watcher/Schedule.antt =====
-- The batches of the scheduler of watcher/mod.rs against the events it received.
use ferri_sync.Prelude.{
  ℕ, ◌≤◌, ◌<◌, max, ◌≡◌, refl, ap, sym, ◌∙◌, ◌⊎◌, inl, inr, Bool, true, false, List, [], ◌∷◌, ◌++◌,
  append-nil, append_assoc, Eq, ltb, length, length-append, arith, Bool-cases,
}
use ferri_sync.Prelude.Predicates.{All}
use ferri_sync.Watcher.{
  ChangeEvent, coalesce, Wake, received, elapsed, Scheduler, release, is_full, turn, run,
}

module _ {P : Type 0} ⦃e : Eq P⦄ where
  -- The events that arrive.
  abbrev pub arrived : List (Wake P) → List (ChangeEvent P)
  arrived [] = []
  arrived (received event ∷ ws) = event ∷ arrived ws
  arrived (elapsed ∷ ws) = arrived ws

  abbrev pub concat : List (List (ChangeEvent P)) → List (ChangeEvent P)
  concat [] = []
  concat (b ∷ bs) = b ++ concat bs

  abbrev pub coalesce_all : List (List (ChangeEvent P)) → List (List (ChangeEvent P))
  coalesce_all [] = []
  coalesce_all (b ∷ bs) = release (coalesce b) (coalesce_all bs)

  abbrev pub IsBounded : ℕ → List (ChangeEvent P) → Type 0
  IsBounded max_batch b = (max_batch ≡ 0) ⊎ (length b ≤ max 2 max_batch)

  -- The deadline is set exactly while events wait, and a full batch never waits.
  pub record IsWaiting (max_batch : ℕ) (s : Scheduler P) : Type 0 where
    pub idle : s.armed ≡ false → s.pending ≡ []
    pub room : s.armed ≡ true → (max_batch ≡ 0) ⊎ (length s.pending < max 2 max_batch)

  abbrev Partition : ℕ → List (Wake P) → Bool → List (ChangeEvent P) → Type 0
  Partition m ws armed pending =
      (batches : List (List (ChangeEvent P))) × (run m ws
          (record { armed = armed; pending = pending })
        ≡ coalesce_all batches)
      × (concat batches ≡ pending ++ arrived ws)
      × All (IsBounded m) batches

  -- Events that wait while a deadline is set.
  abbrev Room : ℕ → Bool → List (ChangeEvent P) → Type 0
  Room m true pending = (m ≡ 0) ⊎ (length pending < max 2 m)
  Room m false pending = pending ≡ []

  bounded : (m : ℕ) (xs : List (ChangeEvent P)) → (m ≡ 0) ⊎ (length xs < max 2 m) → IsBounded m xs
  bounded m xs (inl none_set) = inl none_set
  bounded m xs (inr low) = inr (omega arith)

  longer-IsBounded :
      (m : ℕ) (xs : List (ChangeEvent P)) (x : ChangeEvent P)
      → (m ≡ 0) ⊎ (length xs < max 2 m)
      → IsBounded m (xs ++ x ∷ [])
  longer-IsBounded m xs x (inl none_set) = inl none_set
  longer-IsBounded m xs x (inr low) = inr (omega (arith, length-append xs (x ∷ [])))

  room_left :
      (m : ℕ) (xs : List (ChangeEvent P)) (x : ChangeEvent P)
      → is_full m (xs ++ x ∷ []) ≡ false
      → (m ≡ 0) ⊎ (length (xs ++ x ∷ []) < max 2 m)
  room_left m xs x h = elim (Bool-cases (ltb 0 m)) [
    | inl set ↦ inr (ground (arith, set, h))
    | inr unset ↦ inl (ground (arith, unset))
  ]

  run_full :
      (m : ℕ) (ws : List (Wake P)) (event : ChangeEvent P) (pending : List (ChangeEvent P))
      → is_full m (pending ++ event ∷ []) ≡ true
      → run m (received event ∷ ws) (record { armed = true; pending = pending })
        ≡ release
            (coalesce (pending ++ event ∷ []))
            (run m ws (record { armed = false; pending = [] }))
  unfolding run turn
  run_full m ws event pending h = ground (arith, h)

  run_open :
      (m : ℕ) (ws : List (Wake P)) (event : ChangeEvent P) (pending : List (ChangeEvent P))
      → is_full m (pending ++ event ∷ []) ≡ false
      → run m (received event ∷ ws) (record { armed = true; pending = pending })
        ≡ run m ws (record { armed = true; pending = pending ++ event ∷ [] })
  unfolding run turn
  run_open m ws event pending h = ground (arith, h)

  partition :
      (m : ℕ) (ws : List (Wake P)) (armed : Bool) (pending : List (ChangeEvent P))
      → Room m armed pending
      → Partition m ws armed pending
  unfolding run turn
  partition m [] true pending room = (pending ∷ [], refl, refl, (bounded m pending room, tt))
  partition m [] false pending room = ([], refl, sym (append-nil pending ∙ room), tt)
  partition m (elapsed ∷ ws) true pending room =
      let (bs, sent, all, low) = partition m ws false [] refl in
      (pending ∷ bs, rw sent refl, ap (λ l. pending ++ l) all, (bounded m pending room, low))
  partition m (elapsed ∷ ws) false pending room = partition m ws false pending room
  partition m (received event ∷ ws) false pending room =
      let (bs, sent, all, low) =
        partition m ws true (pending ++ event ∷ [])
          (inr (omega (arith, length-append pending (event ∷ []), ap length room))) in
      (bs, sent, all ∙ append_assoc pending (event ∷ []) (arrived ws), low)
  partition m (received event ∷ ws) true pending room =
      elim (Bool-cases (is_full m (pending ++ event ∷ []))) [
        | inl full ↦
            let (bs, sent, all, low) = partition m ws false [] refl in
            (
              (pending ++ event ∷ []) ∷ bs,
              run_full m ws event pending full ∙ rw sent refl,
              ap (λ l. (pending ++ event ∷ []) ++ l) all
                  ∙ append_assoc pending (event ∷ []) (arrived ws),
              (longer-IsBounded m pending event room, low),
            )
        | inr open_still ↦
            let (bs, sent, all, low) =
              partition m ws true (pending ++ event ∷ []) (room_left m pending event open_still) in
            (
              bs,
              run_open m ws event pending open_still ∙ sent,
              all ∙ append_assoc pending (event ∷ []) (arrived ws),
              low,
            )
      ]

  -- Cutting the received events into batches, in their order and without losing one, gives what the
  -- scheduler sends: each batch coalesced, the empty ones left out. No batch is longer than the
  -- limit or two events, whichever is more.
  pub run-partition :
      (max_batch : ℕ) (ws : List (Wake P)) (s : Scheduler P)
      → IsWaiting max_batch s
      → (batches : List (List (ChangeEvent P))) × (run max_batch ws s ≡ coalesce_all batches)
        × (concat batches ≡ s.pending ++ arrived ws)
        × All (IsBounded max_batch) batches
  unfolding run turn
  run-partition m ws s i = partition m ws s.armed s.pending (room_of s.armed refl)
    where
      room_of : (armed : Bool) → s.armed ≡ armed → Room m armed s.pending
      room_of true set = i.room set
      room_of false unset = i.idle unset
