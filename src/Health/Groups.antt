-- ===== src/Health/Groups.antt =====
-- The grouping of folder rows in health.rs: one row for each folder, with the worst health of its
-- peers.
use ferri_sync.Prelude.{
  ℕ, ◌⊎◌, sym, ◌∙◌, ltb, ◌≤◌, ◌≡◌, refl, ap, true, false, List, [], ◌∷◌, ◌++◌, Option, none, some,
  String, string_eq, ◌==◌, contains, if◌then◌else◌, arith, keep, Bool-cases, inl, inr,
}
use ferri_sync.Prelude.Int.{ℤ, int_eq}
use ferri_sync.Prelude.Predicates.{All}
use ferri_sync.Version.{DeviceId}
use ferri_sync.Health.{
  FolderStatus, FolderHealth, healthy, health_priority, Merge, peer_label, merge_row, merge_rows,
  start_merge, finish, merge_group,
}

-- The rows of one folder.
abbrev pub rows_of : ℤ → List FolderStatus → List FolderStatus
rows_of id fs = keep (λ f. f.id == id) fs

abbrev pub find_folder : ℤ → List FolderStatus → Option FolderStatus
find_folder id [] = none
find_folder id (f ∷ fs) = if f.id == id then some f else find_folder id fs

merge_row_grows :
    (own : DeviceId) (m : Merge) (f : FolderStatus)
    → (health_priority m.worst ≤ health_priority (merge_row own m f).worst)
      × (m.conflicts ≤ (merge_row own m f).conflicts)
unfolding merge_row
merge_row_grows own m f = ground arith

merge_rows_grows :
    (own : DeviceId) (m : Merge) (fs : List FolderStatus)
    → (health_priority m.worst ≤ health_priority (merge_rows own m fs).worst)
      × (m.conflicts ≤ (merge_rows own m fs).conflicts)
unfolding merge_rows
merge_rows_grows own m [] = (omega arith, omega arith)
merge_rows_grows own m (f ∷ fs) =
    let step = merge_row_grows own m f in
    let rest = merge_rows_grows own (merge_row own m f) fs in
    (omega (arith, step.0, rest.0), omega (arith, step.1, rest.1))

-- What a merged row says of a row of a peer.
abbrev pub Covers : DeviceId → FolderHealth → ℕ → FolderStatus → Type 0
Covers own overall total f =
    (f.device_id == own) ≡ false
    → (health_priority f.health ≤ health_priority overall) × (f.conflicts ≤ total)

merge_row-Covers :
    (own : DeviceId) (m : Merge) (f : FolderStatus)
    → Covers own (merge_row own m f).worst (merge_row own m f).conflicts f
unfolding merge_row
merge_row-Covers own m f peer = ground (arith, peer)

merge_rows-Covers :
    (own : DeviceId) (m : Merge) (fs : List FolderStatus)
    → All (Covers own (merge_rows own m fs).worst (merge_rows own m fs).conflicts) fs
unfolding merge_rows
merge_rows-Covers own m [] = tt
merge_rows-Covers own m (f ∷ fs) =
    let rest = merge_rows_grows own (merge_row own m f) fs in
    (
      λ peer.
          let one = merge_row-Covers own m f peer in
          (omega (arith, one.0, rest.0), omega (arith, one.1, rest.1)),
      merge_rows-Covers own (merge_row own m f) fs,
    )

label_pushed :
    (labels : List String) (l : String)
    → (if contains l labels then labels else labels ++ l ∷ []) ≡ []
    → ⊥
label_pushed [] l h = ground (arith, h)
label_pushed (k ∷ ks) l h = ground (arith, h)

-- Without a label there was no row of a peer.
merge_row_no_label :
    (own : DeviceId) (m : Merge) (f : FolderStatus)
    → (merge_row own m f).labels ≡ []
    → ((f.device_id == own) ≡ true) × (m.labels ≡ [])
unfolding merge_row
merge_row_no_label own m f h = elim (Bool-cases (f.device_id == own)) [
  | inl self ↦ (self, ground (arith, self, h))
  | inr peer ↦ absurd (label_pushed m.labels (peer_label own f) (ground (arith, peer, h)))
]

merge_rows_no_label :
    (own : DeviceId) (m : Merge) (fs : List FolderStatus)
    → (merge_rows own m fs).labels ≡ []
    → (m.labels ≡ []) × All (λ f. (FolderStatus.device_id f == own) ≡ true) fs
unfolding merge_rows
merge_rows_no_label own m [] h = (h, tt)
merge_rows_no_label own m (f ∷ fs) h =
    let rest = merge_rows_no_label own (merge_row own m f) fs h in
    let one = merge_row_no_label own m f rest.0 in (one.1, (one.0, rest.1))

-- A row of a peer with that health.
abbrev pub Drives : DeviceId → FolderHealth → List FolderStatus → Type 0
Drives own h [] = ⊥
Drives own h (f ∷ fs) = (((f.device_id == own) ≡ false) × (f.health ≡ h)) ⊎ Drives own h fs

-- A row with that number of conflicts.
abbrev pub Counts : ℕ → List FolderStatus → Type 0
Counts n [] = ⊥
Counts n (f ∷ fs) = (f.conflicts ≡ n) ⊎ Counts n fs

merge_row-Drives :
    (own : DeviceId) (m : Merge) (f : FolderStatus)
    → ((merge_row own m f).worst ≡ m.worst)
      ⊎ (((f.device_id == own) ≡ false) × (f.health ≡ (merge_row own m f).worst))
unfolding merge_row
merge_row-Drives own m f = elim (Bool-cases (f.device_id == own)) [
  | inl self ↦ inl (rw self refl)
  | inr peer ↦ elim (Bool-cases (ltb (health_priority m.worst) (health_priority f.health))) [
    | inl worse ↦ inr (peer, rw (peer, worse) refl)
    | inr low ↦ inl (rw (peer, low) refl)
  ]
]

merge_rows-Drives :
    (own : DeviceId) (m : Merge) (fs : List FolderStatus)
    → ((merge_rows own m fs).worst ≡ m.worst) ⊎ Drives own (merge_rows own m fs).worst fs
unfolding merge_rows
merge_rows-Drives own m [] = inl refl
merge_rows-Drives own m (f ∷ fs) = elim (merge_rows-Drives own (merge_row own m f) fs) [
  | inl same ↦ elim (merge_row-Drives own m f) [
    | inl kept ↦ inl (same ∙ kept)
    | inr (peer, here) ↦ inr (inl (peer, here ∙ sym same))
  ]
  | inr later ↦ inr (inr later)
]

merge_row-Counts :
    (own : DeviceId) (m : Merge) (f : FolderStatus)
    → ((merge_row own m f).conflicts ≡ m.conflicts) ⊎ (f.conflicts ≡ (merge_row own m f).conflicts)
unfolding merge_row
merge_row-Counts own m f = elim (Bool-cases (f.device_id == own)) [
  | inl self ↦ inl (rw self refl)
  | inr peer ↦ elim (Bool-cases (ltb m.conflicts f.conflicts)) [
    | inl more ↦ inr (rw peer (ground (arith, more)))
    | inr low ↦ inl (rw peer (ground (arith, low)))
  ]
]

merge_rows-Counts :
    (own : DeviceId) (m : Merge) (fs : List FolderStatus)
    → ((merge_rows own m fs).conflicts ≡ m.conflicts) ⊎ Counts (merge_rows own m fs).conflicts fs
unfolding merge_rows
merge_rows-Counts own m [] = inl refl
merge_rows-Counts own m (f ∷ fs) = elim (merge_rows-Counts own (merge_row own m f) fs) [
  | inl same ↦ elim (merge_row-Counts own m f) [
    | inl kept ↦ inl (same ∙ kept)
    | inr here ↦ inr (inl (here ∙ sym same))
  ]
  | inr later ↦ inr (inr later)
]

counted :
    (first : FolderStatus) (rest : List FolderStatus) (n : ℕ)
    → (n ≡ first.conflicts) ⊎ Counts n (first ∷ rest)
    → Counts n (first ∷ rest)
counted first rest n (inl e) = inl (sym e)
counted first rest n (inr h) = h

-- A merged row and the rows it stands for: from this device alone, or from its peers.
abbrev pub IsMerged : DeviceId → FolderStatus → List FolderStatus → FolderStatus → Type 0
IsMerged own first rest r =
    (All (λ f. (FolderStatus.device_id f == own) ≡ true) (first ∷ rest)
      × (r ≡ record first { device_name = some "this device" }))
    ⊎ (All (Covers own r.health r.conflicts) (first ∷ rest)
        × ((r.health ≡ healthy) ⊎ Drives own r.health (first ∷ rest))
        × Counts r.conflicts (first ∷ rest))

pub merge_group_worst :
    (own : DeviceId) (first : FolderStatus) (rest : List FolderStatus)
    → (r : FolderStatus) × (merge_group own (first ∷ rest) ≡ some r)
      × (r.id ≡ first.id)
      × IsMerged own first rest r
unfolding merge_group finish
merge_group_worst own first rest =
    by_labels (merge_rows own (start_merge first) (first ∷ rest)).labels refl
  where
    by_labels :
        (labels : List String)
        → (merge_rows own (start_merge first) (first ∷ rest)).labels ≡ labels
        → (r : FolderStatus) × (merge_group own (first ∷ rest) ≡ some r)
          × (r.id ≡ first.id)
          × IsMerged own first rest r
    by_labels [] e = (
      finish first [] (merge_rows own (start_merge first) (first ∷ rest)),
      ap (λ l. some (finish first l (merge_rows own (start_merge first) (first ∷ rest)))) e,
      refl,
      inl ((merge_rows_no_label own (start_merge first) (first ∷ rest) e).1, refl),
    )
    by_labels (l ∷ labels) e = (
      finish first (l ∷ labels) (merge_rows own (start_merge first) (first ∷ rest)),
      ap (λ l. some (finish first l (merge_rows own (start_merge first) (first ∷ rest)))) e,
      refl,
      inr (
        merge_rows-Covers own (start_merge first) (first ∷ rest),
        merge_rows-Drives own (start_merge first) (first ∷ rest),
        counted first rest _ (merge_rows-Counts own (start_merge first) (first ∷ rest)),
      ),
    )
