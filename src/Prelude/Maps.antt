-- ===== src/Prelude/Maps.antt =====
-- `HashMap` of the standard library, as a list of entries. Its iteration order is not specified;
-- where the program iterates over a map, the model says how the order enters.
use ferri_sync.Prelude.{
  ◌≡◌, refl, ◌≢◌, Bool, List, [], ◌∷◌, Option, none, some, arith, Eq, ◌==◌, eq_iff, eq_refl,
  if◌then◌else◌, is_some, Bool-cases, inl, inr, map,
}

abbrev pub HashMap {ℓ κ} : Type ℓ → Type κ → Type (ℓ ⊔ κ)
HashMap K V = List (K × V)

-- `map.values()`
abbrev pub values {ℓ κ} : {K : Type ℓ} {V : Type κ} → HashMap K V → List V
values m = map (λ kv. kv.1) m

module _ {ℓ κ} {K : Type ℓ} {V : Type κ} ⦃e : Eq K⦄ where
  -- `map.get(&wanted).cloned()`
  unfoldable pub lookup : K → HashMap K V → Option V
  lookup wanted [] = none
  lookup wanted ((key, held) ∷ rest) = if key == wanted then some held else lookup wanted rest

  -- `map.insert(key, value)`
  unfoldable pub insert : K → V → HashMap K V → HashMap K V
  insert key value [] = (key, value) ∷ []
  insert key value ((old, held) ∷ rest) =
      if old == key then (key, value) ∷ rest else (old, held) ∷ insert key value rest

  -- `map.remove(&k)`
  unfoldable pub remove : K → HashMap K V → HashMap K V
  remove k [] = []
  remove k ((j, v) ∷ m) = if j == k then remove k m else (j, v) ∷ remove k m

  abbrev pub contains_key : K → HashMap K V → Bool
  contains_key k m = is_some (lookup k m)

  -- `if let Some(v) = map.get_mut(&k) { .. }`
  abbrev pub adjust : K → (V → V) → HashMap K V → HashMap K V
  adjust k f m = elim (lookup k m) [ none ↦ m | some v ↦ insert k (f v) m ]

  -- No key stands twice: what every `HashMap` guarantees.
  abbrev pub IsMap : HashMap K V → Type κ
  IsMap [] = Unit
  IsMap ((k, v) ∷ m) = (lookup k m ≡ none) × IsMap m

  -- What is found after `insert`.
  pub lookup-insert :
      (set asked : K) (value : V) (m : HashMap K V)
      → lookup asked (insert set value m) ≡ (if set == asked then some value else lookup asked m)
  unfolding insert lookup
  lookup-insert set asked value [] = refl
  lookup-insert set asked value ((old, held) ∷ rest) = ground (
    arith,
    lookup-insert set asked value rest,
    eq_iff old set,
    eq_iff old asked,
    eq_iff set asked,
  )

  pub lookup-remove :
      (k j : K) (m : HashMap K V) → lookup j (remove k m) ≡ (if k == j then none else lookup j m)
  unfolding lookup remove
  lookup-remove k j [] = ground arith
  lookup-remove k j ((i, w) ∷ m) =
      ground (arith, eq_iff k j, eq_iff i k, eq_iff i j, lookup-remove k j m)

  pub insert-IsMap : (k : K) (v : V) (m : HashMap K V) → IsMap m → IsMap (insert k v m)
  unfolding lookup insert
  insert-IsMap k v [] h = (refl, tt)
  insert-IsMap k v ((j, w) ∷ m) h =
      ground (arith, h, eq_iff j k, eq_iff k j, lookup-insert k j v m, insert-IsMap k v m h.1)

  pub remove-IsMap : (k : K) (m : HashMap K V) → IsMap m → IsMap (remove k m)
  unfolding remove
  remove-IsMap k [] h = tt
  remove-IsMap k ((j, w) ∷ m) h =
      ground (arith, h, eq_iff j k, eq_iff k j, lookup-remove k j m, remove-IsMap k m h.1)

  pub lookup-insert_self : (k : K) (v : V) (m : HashMap K V) → lookup k (insert k v m) ≡ some v
  lookup-insert_self k v m = simp (lookup-insert, eq_refl)

  pub lookup-insert_ne :
      (k j : K) (v : V) (m : HashMap K V) → k ≢ j → lookup j (insert k v m) ≡ lookup j m
  lookup-insert_ne k j v m h = ground (arith, eq_iff k j, lookup-insert k j v m)

  pub lookup-cons_self : (k : K) (v : V) (m : HashMap K V) → lookup k ((k, v) ∷ m) ≡ some v
  unfolding lookup
  lookup-cons_self k v m = ground (arith, eq_iff k k)

  -- The entries of the tail are those of the map.
  pub lookup-tail :
      (j k : K) (v w : V) (m : HashMap K V)
      → lookup j m ≡ none
      → lookup k m ≡ some w
      → lookup k ((j, v) ∷ m) ≡ some w
  unfolding lookup
  lookup-tail j k v w m fresh e = elim (Bool-cases (j == k)) [
    | inl hit ↦ cc (fresh, e, (eq_iff j k).0 hit)
    | inr miss ↦ rw miss e
  ]
