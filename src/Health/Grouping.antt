-- ===== src/Health/Grouping.antt =====
-- The second loop of `group_folders` in health.rs: every folder id becomes one row.
use ferri_sync.Prelude.{
  ◌≡◌, refl, ap, sym, ◌∙◌, subst, true, false, ◌||◌, List, [], ◌∷◌, map, Option, none, some,
  string_eq, ◌==◌, eq_iff, eq_refl, contains, Distinct, if◌then◌else◌, arith, Bool-cases, inl, inr,
}
use ferri_sync.Prelude.Int.{ℤ, int_eq}
use ferri_sync.Prelude.Maps.{HashMap, lookup, remove, lookup-remove}
use ferri_sync.Prelude.Options.{option_or, option_bind}
use ferri_sync.Version.{DeviceId}
use ferri_sync.Health.{
  FolderStatus, merge_group, rows_at, collect_rows, cons_both, merge_all, group_folders,
}
use ferri_sync.Health.Groups.{merge_group_worst}
use ferri_sync.Health.Collect.{
  rows_of, find_folder, nonempty, collect_rows-rows_at, collect_rows-IsOrder, IsOrder,
}

-- What the second loop finds for an id.
abbrev merged_at : DeviceId → ℤ → HashMap ℤ (List FolderStatus) → Option FolderStatus
merged_at own id m = option_bind (lookup id m) (merge_group own)

abbrev Mergeable : DeviceId → HashMap ℤ (List FolderStatus) → ℤ → Type 0
Mergeable own m id = (r : FolderStatus) × (merged_at own id m ≡ some r) × (r.id ≡ id)

merged_at-remove :
    (own : DeviceId) (k id : ℤ) (m : HashMap ℤ (List FolderStatus))
    → (k == id) ≡ false
    → merged_at own id (remove k m) ≡ merged_at own id m
merged_at-remove own k id m apart =
    ap (λ o. option_bind o (merge_group own))
      (lookup-remove k id m ∙ ap (λ b. if b then none else lookup id m) apart)

merge_all-find :
    (own : DeviceId) (order : List ℤ) (m : HashMap ℤ (List FolderStatus))
    → Distinct order
    → ((id : ℤ) → contains id order ≡ true → Mergeable own m id)
    → (ms : List FolderStatus) × (merge_all own order m ≡ some ms)
      × (map (λ f. FolderStatus.id f) ms ≡ order)
      × ((id : ℤ) → find_folder id ms ≡ (if contains id order then merged_at own id m else none))
unfolding merge_all
merge_all-find own [] m h able = ([], refl, refl, λ id. refl)
merge_all-find own (k ∷ order) m (fresh, h) able =
    let (r, made, named) = able k (ground (arith, eq_refl k)) in
    let (ms, all, ids, found) =
      merge_all-find own order (remove k m) h (λ id there. still id there) in
    (
      r ∷ ms,
      ap (λ o. cons_both o (merge_all own order (remove k m))) made ∙ ap (cons_both (some r)) all,
      ap (λ i. i ∷ map (λ f. FolderStatus.id f) ms) named ∙ ap (λ l. k ∷ l) ids,
      λ id. elim (Bool-cases (k == id)) [
        | inl hit ↦
            let same : k ≡ id = (eq_iff k id).0 hit in
            ap (λ i. if i == id then some r else find_folder id ms) named
            ∙ ap (λ b. if b then some r else find_folder id ms) hit
            ∙ sym made
            ∙ ap (λ i. merged_at own i m) same
            ∙ ap (λ b. if b || contains id order then merged_at own id m else none) (sym hit)
        | inr miss ↦
            ap (λ i. if i == id then some r else find_folder id ms) named
            ∙ ap (λ b. if b then some r else find_folder id ms) miss
            ∙ found id
            ∙ ap (λ o. if contains id order then o else none) (merged_at-remove own k id m miss)
            ∙ ap (λ b. if b || contains id order then merged_at own id m else none) (sym miss)
      ],
    )
  where
    still : (id : ℤ) → contains id order ≡ true → Mergeable own (remove k m) id
    still id there = elim (Bool-cases (k == id)) [
      | inl hit ↦
          absurd (
            ground
              (arith, there, subst (λ i. contains i order ≡ false) ((eq_iff k id).0 hit) fresh))
      | inr miss ↦
          let (r, made, named) = able id (ground (arith, miss, there)) in
          (r, merged_at-remove own k id m miss ∙ made, named)
    ]

merged_at-rows_at :
    (own : DeviceId) (id : ℤ) (m : HashMap ℤ (List FolderStatus))
    → merged_at own id m ≡ merge_group own (rows_at id m)
unfolding merge_group
merged_at-rows_at own id m = on_found (lookup id m)
  where
    on_found :
        (o : Option (List FolderStatus))
        → option_bind o (merge_group own) ≡ merge_group own (option_or o [])
    on_found none = refl
    on_found (some rows) = refl

rows_of_head :
    (id : ℤ) (fs : List FolderStatus)
    → nonempty (rows_of id fs) ≡ true
    → (first : FolderStatus) × (rest : List FolderStatus) × (rows_of id fs ≡ first ∷ rest)
      × (first.id ≡ id)
rows_of_head id [] h = absurd (ground (arith, h))
rows_of_head id (f ∷ fs) h = elim (Bool-cases (f.id == id)) [
  | inl hit ↦ (
    f,
    rows_of id fs,
    ap (λ b. if b then f ∷ rows_of id fs else rows_of id fs) hit,
    (eq_iff f.id id).0 hit,
  )
  | inr miss ↦
      let skip : rows_of id (f ∷ fs) ≡ rows_of id fs =
        ap (λ b. if b then f ∷ rows_of id fs else rows_of id fs) miss in
      let (first, rest, split, named) = rows_of_head id fs (ap nonempty (sym skip) ∙ h) in
      (first, rest, skip ∙ split, named)
]

-- `group_folders` never panics, gives no two rows the same folder id, and gives for each id the merge
-- of exactly the rows with that id, in their order.
pub group_folders_merged :
    (fs : List FolderStatus) (own : DeviceId)
    → (ms : List FolderStatus) × (group_folders fs own ≡ some ms)
      × Distinct (map (λ f. FolderStatus.id f) ms)
      × ((id : ℤ) → find_folder id ms ≡ merge_group own (rows_of id fs))
unfolding group_folders lookup merge_group
group_folders_merged fs own =
    let (m, order) = collect_rows fs [] [] in
    let i = collect_rows-IsOrder fs [] [] start in
    let (ms, all, ids, found) =
      merge_all-find own order m i.distinct (λ id there. able id (sym (i.keys id) ∙ there)) in
    (
      ms,
      all,
      subst (λ l. Distinct l) (sym ids) i.distinct,
      λ id.
          found id
          ∙ ap (λ b. if b then merged_at own id m else none) (i.keys id)
          ∙ ap (λ o. if nonempty (rows_at id m) then o else none) (merged_at-rows_at own id m)
          ∙ if_rows (rows_at id m)
          ∙ ap (merge_group own) (rows id),
    )
  where
    no_rows : (id : ℤ) → false ≡ nonempty (rows_at id [])
    no_rows id = refl

    start : IsOrder [] []
    start = record { keys = λ id. no_rows id; distinct = tt }

    rows : (id : ℤ) → rows_at id (collect_rows fs [] []).0 ≡ rows_of id fs
    rows id = collect_rows-rows_at id fs [] [] ∙ refl

    if_rows :
        (gs : List FolderStatus)
        → (if nonempty gs then merge_group own gs else none) ≡ merge_group own gs
    if_rows [] = refl
    if_rows (g ∷ gs) = refl

    able :
        (id : ℤ)
        → nonempty (rows_at id (collect_rows fs [] []).0) ≡ true
        → Mergeable own (collect_rows fs [] []).0 id
    able id h =
        let (first, rest, split, named) = rows_of_head id fs (ap nonempty (sym (rows id)) ∙ h) in
        let (r, made, same, worst) = merge_group_worst own first rest in
        (
          r,
          merged_at-rows_at own id (collect_rows fs [] []).0
              ∙ ap (merge_group own) (rows id ∙ split)
              ∙ made,
          same ∙ named,
        )
