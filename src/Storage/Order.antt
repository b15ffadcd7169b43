-- ===== src/Storage/Order.antt =====
-- The order of the rows that `list_sync_folders` of ferrisync-core/src/storage/mod.rs gives.
use Prim.Native.Char.{Char, code}
use Prim.Native.Nat.{compare as compare_ℕ}
use Prim.Native.String.{compare, then as first}
use Prim.Native.String.compare.{nil-cons, cons-nil, cons-cons}
use text.Mathlib.Text.{is_le}
use ferri_sync.Prelude.{
  ◌≡◌, refl, sym, ◌∙◌, Bool, true, false, List, [], ◌∷◌, String, nat_eq, eq_iff, if◌then◌else◌,
  keep, arith, inl, inr, Bool-cases,
}
use ferri_sync.Prelude.Predicates.{All}
use ferri_sync.Prelude.Entries.{keep-All}
use ferri_sync.Storage.Tables.{insert_ordered, order_by}
use ferri_sync.Storage.Folders.{SyncFolderRow, row_leb}

compare_cons :
    (c d : Char) (s t : String)
    → compare (String.◌∷◌ c s) (String.◌∷◌ d t) ≡ first (compare_ℕ (code c) (code d)) (compare s t)
compare_cons c d s t = λ i. cons-cons c d s t i

compare_nil : (d : Char) (t : String) → is_le (compare (String.◌∷◌ d t) "") ≡ false
compare_nil d t = λ i. is_le (cons-nil d t i)

nil_below : (t : String) → is_le (compare "" t) ≡ true
nil_below String.[] = refl
nil_below (String.◌∷◌ d t) = λ i. is_le (nil-cons d t i)

text_trans :
    (s t u : String)
    → is_le (compare s t) ≡ true
    → is_le (compare t u) ≡ true
    → is_le (compare s u) ≡ true
text_trans String.[] t u h k = nil_below u
text_trans (String.◌∷◌ c s) String.[] u h k = ground (arith, h, compare_nil c s)
text_trans (String.◌∷◌ c s) (String.◌∷◌ d t) String.[] h k = ground (arith, k, compare_nil d t)
text_trans (String.◌∷◌ c s) (String.◌∷◌ d t) (String.◌∷◌ e u) h k =
    ground
      (arith, compare_cons c d s t, compare_cons d e t u, compare_cons c e s u, text_trans s t u)

text_total : (s t : String) → is_le (compare s t) ≡ false → is_le (compare t s) ≡ true
text_total String.[] t h = absurd (ground (arith, nil_below t))
text_total (String.◌∷◌ c s) String.[] h = nil_below (String.◌∷◌ c s)
text_total (String.◌∷◌ c s) (String.◌∷◌ d t) h =
    ground (arith, compare_cons c d s t, compare_cons d c t s, text_total s t)

row_trans : (x y z : SyncFolderRow) → row_leb x y ≡ true → row_leb y z ≡ true → row_leb x z ≡ true
row_trans (i, p, d, m, t) (j, q, e, n, u) (k, r, f, o, v) h l =
    ground (arith, eq_iff i j, eq_iff j k, eq_iff i k, text_trans d e f)

row_total : (x y : SyncFolderRow) → row_leb x y ≡ false → row_leb y x ≡ true
row_total (i, p, d, m, t) (j, q, e, n, u) h = ground (arith, eq_iff i j, eq_iff j i, text_total d e)

-- Every row is in order with those after it.
abbrev pub IsOrdered {ℓ} : {A : Type ℓ} → (A → A → Bool) → List A → Type 0
IsOrdered le [] = Unit
IsOrdered le (x ∷ xs) = All (λ y. le x y ≡ true) xs × IsOrdered le xs

module _ {ℓ} {A : Type ℓ} (le : A → A → Bool)
    (trans : (x y z : A) → le x y ≡ true → le y z ≡ true → le x z ≡ true)
    (total : (x y : A) → le x y ≡ false → le y x ≡ true) where
  below-All :
      (x y : A) (ys : List A)
      → le x y ≡ true
      → All (λ z. le y z ≡ true) ys
      → All (λ z. le x z ≡ true) ys
  below-All x y [] h hs = tt
  below-All x y (z ∷ zs) h (k, hs) = (trans x y z h k, below-All x y zs h hs)

  insert-All :
      (x y : A) (ys : List A)
      → le y x ≡ true
      → All (λ z. le y z ≡ true) ys
      → All (λ z. le y z ≡ true) (insert_ordered le x ys)
  insert-All x y [] h hs = (h, tt)
  insert-All x y (z ∷ zs) h (k, hs) = elim (Bool-cases (le x z)) [
    | inl hit ↦ rw hit (h, (k, hs))
    | inr miss ↦ rw miss (k, insert-All x y zs h hs)
  ]

  insert-IsOrdered : (x : A) (ys : List A) → IsOrdered le ys → IsOrdered le (insert_ordered le x ys)
  insert-IsOrdered x [] h = (tt, tt)
  insert-IsOrdered x (y ∷ ys) (hy, h) = elim (Bool-cases (le x y)) [
    | inl hit ↦ rw hit ((hit, below-All x y ys hit hy), (hy, h))
    | inr miss ↦ rw miss (insert-All x y ys (total x y miss) hy, insert-IsOrdered x ys h)
  ]

  order_by-IsOrdered : (xs : List A) → IsOrdered le (order_by le xs)
  order_by-IsOrdered [] = tt
  order_by-IsOrdered (x ∷ xs) = insert-IsOrdered x (order_by le xs) (order_by-IsOrdered xs)

  insert_below :
      (x : A) (ys : List A) → All (λ z. le x z ≡ true) ys → insert_ordered le x ys ≡ x ∷ ys
  insert_below x [] h = refl
  insert_below x (y ∷ ys) (h, hs) = rw h refl

  keep-insert :
      (p : A → Bool) (x : A) (ys : List A)
      → IsOrdered le ys
      → keep p (insert_ordered le x ys)
        ≡ (if p x then insert_ordered le x (keep p ys) else keep p ys)
  keep-insert p x [] h = refl
  keep-insert p x (y ∷ ys) (hy, h) = elim (Bool-cases (le x y)) [
    | inl hit ↦ rw hit (elim (Bool-cases (p x)) [
      | inr out ↦ rw out refl
      | inl stays ↦ rw stays (
          sym (
            insert_below x (keep p (y ∷ ys))
              (keep-All (λ z. le x z ≡ true) p (y ∷ ys) (hit, below-All x y ys hit hy))))
    ])
    | inr miss ↦ ground (arith, miss, keep-insert p x ys h)
  ]

  -- Ordering the rows that stay is keeping them of the ordered rows.
  keep-order_by : (p : A → Bool) (xs : List A) → keep p (order_by le xs) ≡ order_by le (keep p xs)
  keep-order_by p [] = refl
  keep-order_by p (x ∷ xs) =
      keep-insert p x (order_by le xs) (order_by-IsOrdered xs) ∙ ground (arith, keep-order_by p xs)

pub keep-order_rows :
    (p : SyncFolderRow → Bool) (xs : List SyncFolderRow)
    → keep p (order_by row_leb xs) ≡ order_by row_leb (keep p xs)
keep-order_rows p xs = keep-order_by row_leb row_trans row_total p xs

pub order_rows-IsOrdered : (xs : List SyncFolderRow) → IsOrdered row_leb (order_by row_leb xs)
order_rows-IsOrdered xs = order_by-IsOrdered row_leb row_trans row_total xs
