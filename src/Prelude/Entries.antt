-- ===== src/Prelude/Entries.antt =====
-- What holds of every entry of a map, and what the operations on maps keep of it.
use ferri_sync.Prelude.{
  ◌+◌, ◌≡◌, refl, Bool, false, not, List, [], ◌∷◌, none, some, arith, Eq, ◌==◌, eq_iff,
  if◌then◌else◌, is_some, Bool-cases, Option-cases, inl, inr, sym, subst, keep, length,
}
use ferri_sync.Prelude.Options.{as_usize}
use ferri_sync.Prelude.Predicates.{All}
use ferri_sync.Prelude.Maps.{
  HashMap, lookup, insert, remove, adjust, IsMap, insert-IsMap, lookup-tail, lookup-cons_self,
}

module _ {ℓ κ} {A : Type ℓ} (P : A → Type κ) where
  pub All-every : ((x : A) → P x) → (xs : List A) → All P xs
  All-every h [] = tt
  All-every h (x ∷ xs) = (h x, All-every h xs)

  pub keep-All : (p : A → Bool) (xs : List A) → All P xs → All P (keep p xs)
  keep-All p [] h = tt
  keep-All p (x ∷ xs) (hx, hs) = elim (Bool-cases (p x)) [
    | inl hit ↦ rw hit (hx, keep-All p xs hs)
    | inr miss ↦ rw miss (keep-All p xs hs)
  ]

module _ {ℓ} {A : Type ℓ} where
  pub keep-cong : (p q : A → Bool) (xs : List A) → All (λ x. p x ≡ q x) xs → keep p xs ≡ keep q xs
  keep-cong p q [] h = refl
  keep-cong p q (x ∷ xs) (hx, hs) = rw (hx, keep-cong p q xs hs) refl

  pub keep-keep :
      (p q : A → Bool) (xs : List A)
      → keep p (keep q xs) ≡ keep (λ x. if q x then p x else false) xs
  keep-keep p q [] = refl
  keep-keep p q (x ∷ xs) = ground (arith, keep-keep p q xs)

  pub length-keep-not :
      (p : A → Bool) (xs : List A)
      → length (keep p xs) + length (keep (λ x. not (p x)) xs) ≡ length xs
  length-keep-not p [] = omega arith
  length-keep-not p (x ∷ xs) = ground (arith, length-keep-not p xs)

module _ {ℓ κ} {K : Type ℓ} {V : Type κ} ⦃e : Eq K⦄ where
  pub adjust_missing : (k : K) (f : V → V) (m : HashMap K V) → lookup k m ≡ none → adjust k f m ≡ m
  adjust_missing k f m h = rw (h, adjust) refl

  pub adjust_found :
      (k : K) (v : V) (f : V → V) (m : HashMap K V)
      → lookup k m ≡ some v
      → adjust k f m ≡ insert k (f v) m
  adjust_found k v f m h = rw (h, adjust) refl

module _ {ℓ κ μ} {K : Type ℓ} {V : Type κ} ⦃e : Eq K⦄ (P : K × V → Type μ) where
  pub insert-All : (k : K) (v : V) (m : HashMap K V) → P (k, v) → All P m → All P (insert k v m)
  unfolding insert
  insert-All k v [] hv h = (hv, tt)
  insert-All k v ((j, w) ∷ m) hv (hw, h) = elim (Bool-cases (j == k)) [
    | inl hit ↦ rw hit (hv, h)
    | inr miss ↦ rw miss (hw, insert-All k v m hv h)
  ]

  pub remove-All : (k : K) (m : HashMap K V) → All P m → All P (remove k m)
  unfolding remove
  remove-All k [] h = tt
  remove-All k ((j, w) ∷ m) (hw, h) = elim (Bool-cases (j == k)) [
    | inl hit ↦ rw hit (remove-All k m h)
    | inr miss ↦ rw miss (hw, remove-All k m h)
  ]

  pub lookup-All : (k : K) (v : V) (m : HashMap K V) → All P m → lookup k m ≡ some v → P (k, v)
  unfolding lookup
  lookup-All k v [] h found = absurd (ground arith)
  lookup-All k v ((j, w) ∷ m) (hw, h) found = elim (Bool-cases (j == k)) [
    | inl hit ↦ subst P (ground (arith, eq_iff j k)) hw
    | inr miss ↦ lookup-All k v m h (ground arith)
  ]

  pub adjust-All :
      (k : K) (f : V → V) (m : HashMap K V)
      → ((v : V) → P (k, v) → P (k, f v))
      → All P m
      → All P (adjust k f m)
  adjust-All k f m stays h = elim (Option-cases (lookup k m)) [
    | inl missing ↦ subst (All P) (sym (adjust_missing k f m missing)) h
    | inr (v, found) ↦
        subst (All P) (sym (adjust_found k v f m found))
          (insert-All k (f v) m (stays v (lookup-All k v m h found)) h)
  ]

module _ {ℓ κ} {K : Type ℓ} {V : Type κ} ⦃e : Eq K⦄ where
  pub adjust-IsMap : (k : K) (f : V → V) (m : HashMap K V) → IsMap m → IsMap (adjust k f m)
  adjust-IsMap k f m h = elim (Option-cases (lookup k m)) [
    | inl missing ↦ subst (λ n. IsMap n) (sym (adjust_missing k f m missing)) h
    | inr (v, found) ↦
        subst (λ n. IsMap n) (sym (adjust_found k v f m found)) (insert-IsMap k (f v) m h)
  ]

  lookup-keep-none :
      (k : K) (p : K × V → Bool) (m : HashMap K V) → lookup k m ≡ none → lookup k (keep p m) ≡ none
  unfolding lookup
  lookup-keep-none k p [] h = refl
  lookup-keep-none k p ((j, w) ∷ m) h = ground (arith, lookup-keep-none k p m)

  pub keep-IsMap : (p : K × V → Bool) (m : HashMap K V) → IsMap m → IsMap (keep p m)
  keep-IsMap p [] h = tt
  keep-IsMap p ((j, w) ∷ m) (fresh, h) = elim (Bool-cases (p (j, w))) [
    | inl hit ↦ rw hit (lookup-keep-none j p m fresh, keep-IsMap p m h)
    | inr miss ↦ rw miss (keep-IsMap p m h)
  ]

  -- Removing a key is keeping the entries of the others.
  pub remove-keep : (k : K) (m : HashMap K V) → remove k m ≡ keep (λ kv. not (kv.0 == k)) m
  unfolding remove
  remove-keep k [] = refl
  remove-keep k ((j, w) ∷ m) = ground (arith, remove-keep k m)

  remove-missing : (k : K) (m : HashMap K V) → lookup k m ≡ none → remove k m ≡ m
  unfolding lookup remove
  remove-missing k [] h = refl
  remove-missing k ((j, w) ∷ m) h = ground (arith, remove-missing k m)

  pub length-remove :
      (k : K) (m : HashMap K V)
      → IsMap m
      → as_usize (is_some (lookup k m)) + length (remove k m) ≡ length m
  unfolding lookup remove
  length-remove k [] h = omega arith
  length-remove k ((j, w) ∷ m) (fresh, h) = elim (Bool-cases (j == k)) [
    | inl hit ↦
        let same : remove k m ≡ m =
          remove-missing k m (subst (λ i. lookup i m ≡ none) ((eq_iff j k).0 hit) fresh) in
        rw (hit, same) (omega arith)
    | inr miss ↦ rw miss (omega (arith, length-remove k m h))
  ]

  -- In a map every entry is the one that its key finds.
  pub entries-lookup : (m : HashMap K V) → IsMap m → All (λ kv. lookup kv.0 m ≡ some kv.1) m
  entries-lookup [] h = tt
  entries-lookup ((j, v) ∷ m) (fresh, h) = (lookup-cons_self j v m, shift m (entries-lookup m h))
    where
      shift :
          (l : List (K × V))
          → All (λ kv. lookup kv.0 m ≡ some kv.1) l
          → All (λ kv. lookup kv.0 ((j, v) ∷ m) ≡ some kv.1) l
      shift [] h = tt
      shift ((k, w) ∷ l) (found, h) = (lookup-tail j k v w m fresh found, shift l h)
