-- ===== src/Storage/Invariant.antt =====
-- What the operations of ferrisync-core/src/storage/mod.rs keep of the tables of folders and pairs.
use ferri_sync.Prelude.{
  ℕ, ◌+◌, ◌≤◌, ◌≡◌, refl, sym, subst, Bool, true, not, List, [], ◌∷◌, ◌++◌, map, none, string_eq,
  nat_eq, pair_eq, ◌==◌, eq_iff, eq_refl, keep, length, contains, is_some, arith, inl, inr,
  Bool-cases, Option-cases, Eq,
}
use ferri_sync.Prelude.Maps.{
  HashMap, lookup, insert, remove, adjust, IsMap, lookup-insert, lookup-remove, insert-IsMap,
  remove-IsMap,
}
use ferri_sync.Prelude.Predicates.{All}
use ferri_sync.Prelude.Entries.{
  keep-All, insert-All, remove-All, keep-IsMap, adjust-IsMap, adjust-All, lookup-All,
}
use ferri_sync.Version.{DeviceId}
use ferri_sync.Storage.{Database, FolderRow, PairRow}
use ferri_sync.Storage.Folders.{of_folder}
use ferri_sync.Storage.Registration.{insert-fresh, IsNumbered}

-- The folder of a pair is there.
abbrev pub IsHeaded : HashMap ℕ FolderRow → HashMap (ℕ × DeviceId) PairRow → Type 0
IsHeaded folders pairs = All (λ kv. is_some (lookup (kv.0.0) folders) ≡ true) pairs

-- The primary keys are unique, no folder has an id that was not given out, and every pair has its
-- folder.
abbrev pub IsPaired : ℕ → HashMap ℕ FolderRow → HashMap (ℕ × DeviceId) PairRow → Type 0
IsPaired n folders pairs =
    All (λ kv. kv.0 ≤ n) folders × IsMap folders × IsMap pairs × IsHeaded folders pairs

abbrev pub IsDatabase : Database → Type 0
IsDatabase db = IsPaired db.last_folder db.sync_folders db.folder_devices × IsMap db.devices

pub All-imp {ℓ κ μ} :
    {A : Type ℓ} (P : A → Type κ) (Q : A → Type μ)
    → ((x : A) → P x → Q x)
    → (xs : List A) → All P xs
    → All Q xs
All-imp P Q f [] h = tt
All-imp P Q f (x ∷ xs) (hx, h) = (f x hx, All-imp P Q f xs h)

-- Folders that find what others found head the same pairs.
pub IsHeaded-mono :
    (fs gs : HashMap ℕ FolderRow) (ps : HashMap (ℕ × DeviceId) PairRow)
    → ((i : ℕ) → is_some (lookup i fs) ≡ true → is_some (lookup i gs) ≡ true)
    → IsHeaded fs ps
    → IsHeaded gs ps
IsHeaded-mono fs gs ps f h = All-imp _ _ (λ kv. f (kv.0.0)) ps h

pub unnumbered :
    {V : Type 0} (n : ℕ) (fs : HashMap ℕ V) → All (λ kv. kv.0 ≤ n) fs → lookup (n + 1) fs ≡ none
unfolding lookup
unnumbered n [] h = refl
unnumbered n ((i, f) ∷ fs) (le, h) = ground (arith, eq_iff i (n + 1), unnumbered n fs h)

pub found_numbered :
    (n i : ℕ) (fs : HashMap ℕ FolderRow)
    → All (λ kv. kv.0 ≤ n) fs
    → is_some (lookup i fs) ≡ true
    → i ≤ n
found_numbered n i fs h found = elim (Option-cases (lookup i fs)) [
  | inl missing ↦ absurd (ground (arith, found, missing))
  | inr (f, e) ↦ lookup-All (λ kv. kv.0 ≤ n) i f fs h e
]

pub insert-found :
    {K V : Type 0} ⦃e : Eq K⦄ (k j : K) (v : V) (m : HashMap K V)
    → is_some (lookup j m) ≡ true
    → is_some (lookup j (insert k v m)) ≡ true
insert-found k j v m h = ground (arith, lookup-insert k j v m)

-- `insert_folder`
pub new_folder-IsPaired :
    (n : ℕ) (f : FolderRow) (fs : HashMap ℕ FolderRow) (ps : HashMap (ℕ × DeviceId) PairRow)
    → IsPaired n fs ps
    → IsPaired (n + 1) (fs ++ (n + 1, f) ∷ []) ps
      × (is_some (lookup (n + 1) (fs ++ (n + 1, f) ∷ [])) ≡ true)
new_folder-IsPaired n f fs ps (ids, folders, pairs, headed) =
    subst (λ gs. IsPaired (n + 1) gs ps × (is_some (lookup (n + 1) gs) ≡ true))
      (insert-fresh (n + 1) f fs (unnumbered n fs ids))
      (
        (
          insert-All (λ kv. kv.0 ≤ n + 1) (n + 1) f fs (omega arith)
              (All-imp (λ kv. kv.0 ≤ n) (λ kv. kv.0 ≤ n + 1) (λ kv le. omega arith) fs ids),
          insert-IsMap (n + 1) f fs folders,
          pairs,
          IsHeaded-mono fs (insert (n + 1) f fs) ps (λ i. insert-found (n + 1) i f fs) headed,
        ),
        ground (arith, lookup-insert (n + 1) (n + 1) f fs, eq_refl (n + 1)),
      )

-- A pair of a folder that is there.
pub add_pair-IsPaired :
    (n : ℕ) (id : ℕ) (d : DeviceId) (row : PairRow) (fs : HashMap ℕ FolderRow)
    (ps : HashMap (ℕ × DeviceId) PairRow)
    → IsPaired n fs ps
    → is_some (lookup id fs) ≡ true
    → IsPaired n fs (insert (id, d) row ps)
add_pair-IsPaired n id d row fs ps (ids, folders, pairs, headed) found = (
  ids,
  folders,
  insert-IsMap (id, d) row ps pairs,
  insert-All (λ kv. is_some (lookup (kv.0.0) fs) ≡ true) (id, d) row ps found headed,
)

pub keep_pairs-IsPaired :
    (n : ℕ) (p : (ℕ × DeviceId) × PairRow → Bool) (fs : HashMap ℕ FolderRow)
    (ps : HashMap (ℕ × DeviceId) PairRow)
    → IsPaired n fs ps
    → IsPaired n fs (keep p ps)
keep_pairs-IsPaired n p fs ps (ids, folders, pairs, headed) = (
  ids,
  folders,
  keep-IsMap p ps pairs,
  keep-All (λ kv. is_some (lookup (kv.0.0) fs) ≡ true) p ps headed,
)

IsHeaded-remove :
    (id : ℕ) (fs : HashMap ℕ FolderRow) (ps : HashMap (ℕ × DeviceId) PairRow)
    → length (keep (of_folder id) ps) ≡ 0
    → IsHeaded fs ps
    → IsHeaded (remove id fs) ps
IsHeaded-remove id fs [] none_left h = tt
IsHeaded-remove id fs (((i, e), row) ∷ ps) none_left (found, h) = elim (Bool-cases (i == id)) [
  | inl hit ↦ absurd (ground (arith, none_left, hit))
  | inr miss ↦ (
    ground (arith, miss, found, lookup-remove id i fs, eq_iff i id, eq_iff id i),
    IsHeaded-remove id fs ps (ground (arith, none_left, miss)) h,
  )
]

-- Dropping a folder that has no pair.
pub drop_folder-IsPaired :
    (n id : ℕ) (fs : HashMap ℕ FolderRow) (ps : HashMap (ℕ × DeviceId) PairRow)
    → length (keep (of_folder id) ps) ≡ 0
    → IsPaired n fs ps
    → IsPaired n (remove id fs) ps
drop_folder-IsPaired n id fs ps none_left (ids, folders, pairs, headed) = (
  remove-All (λ kv. kv.0 ≤ n) id fs ids,
  remove-IsMap id fs folders,
  pairs,
  IsHeaded-remove id fs ps none_left headed,
)

found_kept :
    (ids : List ℕ) (fs : HashMap ℕ FolderRow) (i : ℕ)
    → contains i ids ≡ true
    → is_some (lookup i fs) ≡ true
    → is_some (lookup i (keep (λ kv. not (not (contains kv.0 ids))) fs)) ≡ true
unfolding lookup
found_kept ids [] i c h = h
found_kept ids ((j, f) ∷ fs) i c h = elim (Bool-cases (j == i)) [
  | inl hit ↦
      let stays = subst (λ k. contains k ids ≡ true) (sym ((eq_iff j i).0 hit)) c in
      rw stays (rw hit refl)
  | inr miss ↦ ground (arith, miss, h, found_kept ids fs i c)
]

IsHeaded-kept :
    (ids : List ℕ) (fs : HashMap ℕ FolderRow) (ps : HashMap (ℕ × DeviceId) PairRow)
    → All (λ kv. contains (kv.0.0) ids ≡ true) ps
    → IsHeaded fs ps
    → IsHeaded (keep (λ kv. not (not (contains kv.0 ids))) fs) ps
IsHeaded-kept ids fs [] c h = tt
IsHeaded-kept ids fs (((i, e), row) ∷ ps) (c, cs) (found, h) =
    (found_kept ids fs i c found, IsHeaded-kept ids fs ps cs h)

ids_contain :
    (ids : List ℕ) (ps : HashMap (ℕ × DeviceId) PairRow)
    → ((i : ℕ) → contains i (map (λ kv. kv.0.0) ps) ≡ true → contains i ids ≡ true)
    → All (λ kv. contains (kv.0.0) ids ≡ true) ps
ids_contain ids [] f = tt
ids_contain ids (((i, e), row) ∷ ps) f =
    (f i (ground (arith, eq_refl i)), ids_contain ids ps (λ j c. f j (ground (arith, c))))

-- Dropping the folders that have no pair.
pub drop_folders-IsPaired :
    (n : ℕ) (fs : HashMap ℕ FolderRow) (ps : HashMap (ℕ × DeviceId) PairRow)
    → IsPaired n fs ps
    → IsPaired n (keep (λ kv. not (not (contains kv.0 (map (λ p. p.0.0) ps)))) fs) ps
drop_folders-IsPaired n fs ps (ids, folders, pairs, headed) =
    let p : ℕ × FolderRow → Bool = λ kv. not (not (contains kv.0 (map (λ p. p.0.0) ps))) in
    (
      keep-All (λ kv. kv.0 ≤ n) p fs ids,
      keep-IsMap p fs folders,
      pairs,
      IsHeaded-kept (map (λ p. p.0.0) ps) fs ps (ids_contain (map (λ p. p.0.0) ps) ps (λ i c. c))
          headed,
    )

adjust-found :
    (id i : ℕ) (f : FolderRow → FolderRow) (fs : HashMap ℕ FolderRow)
    → is_some (lookup i fs) ≡ true
    → is_some (lookup i (adjust id f fs)) ≡ true
adjust-found id i f fs h = elim (Option-cases (lookup id fs)) [
  | inl missing ↦ rw (missing, adjust) h
  | inr (row, found) ↦ rw (found, adjust) (insert-found id i (f row) fs h)
]

-- `update_folder`
pub adjust-IsPaired :
    (n id : ℕ) (f : FolderRow → FolderRow) (fs : HashMap ℕ FolderRow)
    (ps : HashMap (ℕ × DeviceId) PairRow)
    → IsPaired n fs ps
    → IsPaired n (adjust id f fs) ps
adjust-IsPaired n id f fs ps (ids, folders, pairs, headed) = (
  adjust-All (λ kv. kv.0 ≤ n) id f fs (λ row h. h) ids,
  adjust-IsMap id f fs folders,
  pairs,
  IsHeaded-mono fs (adjust id f fs) ps (λ i. adjust-found id i f fs) headed,
)

headed_numbered :
    (n : ℕ) (fs : HashMap ℕ FolderRow) (ps : HashMap (ℕ × DeviceId) PairRow)
    → All (λ kv. kv.0 ≤ n) fs
    → IsHeaded fs ps
    → All (λ kv. kv.0.0 ≤ n) ps
headed_numbered n fs ps h headed = All-imp _ _ (λ kv. found_numbered n (kv.0.0) fs h) ps headed

pub IsDatabase-IsNumbered : (db : Database) → IsDatabase db → IsNumbered db
IsDatabase-IsNumbered db ((ids, folders, pairs, headed), devices) =
    (ids, headed_numbered db.last_folder db.sync_folders db.folder_devices ids headed)
