-- ===== src/Transfer/Buffer.antt =====
-- Writing the next piece of a file behind the pieces that arrived, and the entries of the map.
use ferri_sync.Prelude.{
  ℕ, zero, suc, ◌+◌, ◌-◌, ◌≤◌, ◌≡◌, refl, ap, ◌∙◌, List, [], ◌∷◌, ◌++◌, String, string_eq, eq_iff,
  arith, none, length, take, drop, replicate, append-nil, length-append, length-replicate,
  take-length-append,
}
use ferri_sync.Prelude.Maps.{HashMap, lookup, insert, remove}
use ferri_sync.Transfer.{write_at}

module _ {ℓ} {A : Type ℓ} where
  drop_all : (xs : List A) (n : ℕ) → length xs ≤ n → drop n xs ≡ []
  drop_all [] zero h = refl
  drop_all [] (suc n) h = refl
  drop_all (x ∷ xs) zero h = absurd (omega arith)
  drop_all (x ∷ xs) (suc n) h = drop_all xs n (omega arith)

  pub take_all : (xs : List A) (n : ℕ) → length xs ≤ n → take n xs ≡ xs
  take_all [] zero h = refl
  take_all [] (suc n) h = refl
  take_all (x ∷ xs) zero h = absurd (omega arith)
  take_all (x ∷ xs) (suc n) h = rw (take_all xs n (omega arith))

  take-nil : (n : ℕ) → take {A = A} n [] ≡ []
  take-nil zero = refl
  take-nil (suc n) = refl

  pub take-append-take-drop :
      (o k : ℕ) (xs : List A) → take o xs ++ take k (drop o xs) ≡ take (o + k) xs
  take-append-take-drop zero k xs = ap (λ n. take n xs) (omega arith)
  take-append-take-drop (suc o) k [] = ground (arith, take-nil k, take-nil (suc o + k))
  take-append-take-drop (suc o) k (x ∷ xs) =
      let longer : suc (o + k) ≡ suc o + k = omega arith in
      ap (λ l. x ∷ l) (take-append-take-drop o k xs) ∙ ap (λ n. take n (x ∷ xs)) longer

-- A piece that starts where the entry ends is appended.
pub write_at_end :
    (entry bytes : List ℕ) (start : ℕ)
    → start ≡ length entry
    → write_at entry start bytes ≡ entry ++ bytes
unfolding write_at
write_at_end entry bytes start e =
    let k : ℕ = start + length bytes - length entry in
    ap (λ front. front ++ bytes ++ drop (start + length bytes) (entry ++ replicate k 0))
      (take-length-append entry (replicate k 0) start e)
    ∙ ap (λ back. entry ++ bytes ++ back)
        (drop_all (entry ++ replicate k 0) (start + length bytes)
          (omega (arith, length-append entry (replicate k 0), length-replicate {A = ℕ} k 0)))
    ∙ append-nil (entry ++ bytes)

module _ {κ} {V : Type κ} where
  pub insert-insert :
      (k : String) (v w : V) (m : HashMap String V) → insert k v (insert k w m) ≡ insert k v m
  unfolding insert
  insert-insert k v w [] = ground (arith, eq_iff k k)
  insert-insert k v w ((j, u) ∷ m) = ground (arith, eq_iff j k, eq_iff k k, insert-insert k v w m)

  pub remove-insert :
      (k : String) (v : V) (m : HashMap String V) → lookup k m ≡ none → remove k (insert k v m) ≡ m
  unfolding insert remove lookup
  remove-insert k v [] h = ground (arith, eq_iff k k)
  remove-insert k v ((j, u) ∷ m) h = ground (arith, eq_iff j k, remove-insert k v m)

  pub length-insert :
      (k : String) (v : V) (m : HashMap String V) → length (insert k v m) ≤ length m + 1
  unfolding insert
  length-insert k v [] = omega arith
  length-insert k v ((j, u) ∷ m) = ground (arith, length-insert k v m)
