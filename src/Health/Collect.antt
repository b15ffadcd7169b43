-- ===== src/Health/Collect.antt =====
-- The first loop of `group_folders` in health.rs: the rows of each folder id, and the ids in order.
use ferri_sync.Prelude.{
  ◌≡◌, refl, ap, sym, ◌∙◌, subst, Bool, true, false, ◌||◌, List, [], ◌∷◌, ◌++◌, append-nil,
  append_assoc, Option, none, some, string_eq, ◌==◌, eq_iff, contains, Distinct, if◌then◌else◌,
  arith, keep, Bool-cases, inl, inr,
}
use ferri_sync.Prelude.Int.{ℤ, int_eq}
use ferri_sync.Prelude.Maps.{HashMap, lookup, insert, lookup-insert}
use ferri_sync.Prelude.Options.{option_or}
use ferri_sync.Health.{FolderStatus, push_first, rows_at, collect_rows}

-- The rows of one folder.
abbrev pub rows_of : ℤ → List FolderStatus → List FolderStatus
rows_of id fs = keep (λ f. f.id == id) fs

abbrev pub find_folder : ℤ → List FolderStatus → Option FolderStatus
find_folder id [] = none
find_folder id (f ∷ fs) = if f.id == id then some f else find_folder id fs

abbrev pub nonempty : List FolderStatus → Bool
nonempty [] = false
nonempty (f ∷ fs) = true

rows_at-insert :
    (k id : ℤ) (rows : List FolderStatus) (m : HashMap ℤ (List FolderStatus))
    → rows_at id (insert k rows m) ≡ (if k == id then rows else rows_at id m)
rows_at-insert k id rows m = ap (λ o. option_or o []) (lookup-insert k id rows m) ∙ pick (k == id)
  where
    pick :
        (b : Bool)
        → option_or (if b then some rows else lookup id m) [] ≡ (if b then rows else rows_at id m)
    pick true = refl
    pick false = refl

pub collect_rows-rows_at :
    (id : ℤ) (fs : List FolderStatus) (m : HashMap ℤ (List FolderStatus)) (order : List ℤ)
    → rows_at id (collect_rows fs m order).0 ≡ rows_at id m ++ rows_of id fs
unfolding collect_rows
collect_rows-rows_at id [] m order = sym (append-nil (rows_at id m))
collect_rows-rows_at id (f ∷ fs) m order =
    collect_rows-rows_at id fs (insert f.id (rows_at f.id m ++ f ∷ []) m)
      (push_first (rows_at f.id m) f.id order)
    ∙ ap (λ l. l ++ rows_of id fs) (rows_at-insert f.id id (rows_at f.id m ++ f ∷ []) m)
    ∙ elim (Bool-cases (f.id == id)) [ inl hit ↦ hit_case hit | inr miss ↦ miss_case miss ]
  where
    hit_case :
        (f.id == id) ≡ true
        → (if f.id == id then rows_at f.id m ++ f ∷ [] else rows_at id m) ++ rows_of id fs
          ≡ rows_at id m ++ rows_of id (f ∷ fs)
    hit_case hit =
        ap (λ b. (if b then rows_at f.id m ++ f ∷ [] else rows_at id m) ++ rows_of id fs) hit
        ∙ ap (λ k. (rows_at k m ++ f ∷ []) ++ rows_of id fs) ((eq_iff f.id id).0 hit)
        ∙ append_assoc (rows_at id m) (f ∷ []) (rows_of id fs)
        ∙ ap (λ b. rows_at id m ++ (if b then f ∷ rows_of id fs else rows_of id fs)) (sym hit)

    miss_case :
        (f.id == id) ≡ false
        → (if f.id == id then rows_at f.id m ++ f ∷ [] else rows_at id m) ++ rows_of id fs
          ≡ rows_at id m ++ rows_of id (f ∷ fs)
    miss_case miss =
        ap (λ b. (if b then rows_at f.id m ++ f ∷ [] else rows_at id m) ++ rows_of id fs) miss
        ∙ ap (λ b. rows_at id m ++ (if b then f ∷ rows_of id fs else rows_of id fs)) (sym miss)

-- `order` has the ids that have rows, once each.
pub record IsOrder (m : HashMap ℤ (List FolderStatus)) (order : List ℤ) : Type 0 where
  pub keys : (id : ℤ) → contains id order ≡ nonempty (rows_at id m)
  pub distinct : Distinct order

contains-snoc : (a b : ℤ) (xs : List ℤ) → contains a (xs ++ b ∷ []) ≡ contains a xs || (b == a)
contains-snoc a b [] = ground arith
contains-snoc a b (x ∷ xs) = ground (arith, contains-snoc a b xs)

snoc-Distinct :
    (a : ℤ) (xs : List ℤ) → Distinct xs → contains a xs ≡ false → Distinct (xs ++ a ∷ [])
snoc-Distinct a [] h fresh = (refl, tt)
snoc-Distinct a (x ∷ xs) (hx, h) fresh = (
  ground (arith, contains-snoc x a xs, eq_iff a x, eq_iff x a),
  snoc-Distinct a xs h (ground arith),
)

push_first-contains :
    (rows : List FolderStatus) (k id : ℤ) (order : List ℤ)
    → contains k order ≡ nonempty rows
    → contains id (push_first rows k order) ≡ contains id order || (k == id)
push_first-contains [] k id order h = contains-snoc id k order
push_first-contains (f ∷ fs) k id order h = elim (Bool-cases (k == id)) [
  | inl hit ↦
      let there : contains id order ≡ true =
        subst (λ i. contains i order ≡ true) ((eq_iff k id).0 hit) h in
      ground (arith, hit, there)
  | inr miss ↦ ground (arith, miss)
]

push_first-Distinct :
    (rows : List FolderStatus) (k : ℤ) (order : List ℤ)
    → contains k order ≡ nonempty rows
    → Distinct order
    → Distinct (push_first rows k order)
push_first-Distinct [] k order h d = snoc-Distinct k order d h
push_first-Distinct (f ∷ fs) k order h d = d

pub collect_rows-IsOrder :
    (fs : List FolderStatus) (m : HashMap ℤ (List FolderStatus)) (order : List ℤ)
    → IsOrder m order
    → IsOrder (collect_rows fs m order).0 (collect_rows fs m order).1
unfolding collect_rows
collect_rows-IsOrder [] m order i = i
collect_rows-IsOrder (f ∷ fs) m order i =
    collect_rows-IsOrder fs (insert f.id (rows_at f.id m ++ f ∷ []) m)
      (push_first (rows_at f.id m) f.id order)
      (record {
        keys = λ id.
            push_first-contains (rows_at f.id m) f.id id order (i.keys f.id)
            ∙ ap (λ b. b || (f.id == id)) (i.keys id)
            ∙ grown (f.id == id) (rows_at id m) (rows_at f.id m)
            ∙ ap nonempty (sym (rows_at-insert f.id id (rows_at f.id m ++ f ∷ []) m));
        distinct = push_first-Distinct (rows_at f.id m) f.id order (i.keys f.id) i.distinct;
      })
  where
    grown :
        (b : Bool) (here there : List FolderStatus)
        → nonempty here || b ≡ nonempty (if b then there ++ f ∷ [] else here)
    grown true [] [] = refl
    grown true [] (g ∷ gs) = refl
    grown true (g ∷ gs) [] = refl
    grown true (g ∷ gs) (k ∷ ks) = refl
    grown false [] there = refl
    grown false (g ∷ gs) there = refl
