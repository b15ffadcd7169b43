-- ===== src/Sqlite/Sound.antt =====
-- The databases in which the keys of ferrisync-core/src/persistence/sqlite.rs hold, and what keeps
-- them.
use ferri_sync.Prelude.{
  Eq, ℕ, ◌+◌, ◌≤◌, ◌≡◌, refl, sym, subst, Bool, true, false, ◌&&◌, List, [], ◌∷◌, Option, none,
  some, string_eq, pair_eq, is_some, arith, inl, inr, Option-cases, if◌then◌else◌,
}
use ferri_sync.Prelude.Int.{pos, int_eq}
use ferri_sync.Prelude.Predicates.{All}
use ferri_sync.Prelude.Maps.{HashMap, lookup, insert, adjust, IsMap, lookup-insert}
use ferri_sync.Prelude.Entries.{adjust-IsMap, adjust_missing, adjust_found}
use ferri_sync.Version.{DeviceId}
use ferri_sync.Snapshot.{FolderId}
use ferri_sync.Domain.{HistoryEntry}
use ferri_sync.Storage.Devices.{DeviceRow}
use ferri_sync.Storage.References.{all_rows, both}
use ferri_sync.Storage.Invariant.{All-imp}
use ferri_sync.Sqlite.{SqliteStore, SqliteFolderRow, FileHistoryRow, TombstoneRow}
use ferri_sync.Sqlite.References.{
  device_known, folder_known, owners_known, files_known, keys_hold, check_keys, checked,
}

-- The ids that were given out are 1 to `n`.
abbrev pub Given : ℕ → FolderId × SqliteFolderRow → Type 0
Given n kv = (k : ℕ) × (kv.0 ≡ pos k) × (1 ≤ k) × (k ≤ n)

-- The primary keys are unique, and every folder has an id that was given out.
abbrev pub IsKeyed : SqliteStore → Type 0
IsKeyed s =
    IsMap s.devices
    × IsMap s.sync_folders
    × IsMap s.file_metadata
    × All (Given s.last_folder) s.sync_folders

-- The foreign keys hold as well.
abbrev pub IsSound : SqliteStore → Type 0
IsSound s = (keys_hold s ≡ true) × IsKeyed s

pub all_rows_mono {ℓ} :
    {A : Type ℓ} (p q : A → Bool) (xs : List A)
    → ((x : A) → p x ≡ true → q x ≡ true)
    → all_rows p xs ≡ true
    → all_rows q xs ≡ true
all_rows_mono p q [] f h = refl
all_rows_mono p q (x ∷ xs) f h =
    let (one, rest) = both (p x) (all_rows p xs) h in rw (f x one) (all_rows_mono p q xs f rest)

pub joined : (a b : Bool) → a ≡ true → b ≡ true → (a && b) ≡ true
joined a b ha hb = rw ha hb

-- More devices keep the foreign keys.
more_devices :
    (s : SqliteStore) (devices : HashMap DeviceId DeviceRow)
    → ((id : DeviceId) → device_known s id ≡ true → is_some (lookup id devices) ≡ true)
    → keys_hold s ≡ true
    → keys_hold (record s { devices = devices }) ≡ true
more_devices s devices f h =
    let (owners, files) = both (owners_known s) (files_known s) h in
    joined (owners_known (record s { devices = devices })) (files_known s)
      (all_rows_mono (λ kv. device_known s (SqliteFolderRow.device_id kv.1))
        (λ kv. is_some (lookup (SqliteFolderRow.device_id kv.1) devices)) s.sync_folders
        (λ kv. f (SqliteFolderRow.device_id kv.1)) owners)
      files

pub All-all_rows {ℓ} :
    {A : Type ℓ} (p : A → Bool) (xs : List A) → All (λ x. p x ≡ true) xs → all_rows p xs ≡ true
All-all_rows p [] h = refl
All-all_rows p (x ∷ xs) (hx, hs) = joined (p x) (all_rows p xs) hx (All-all_rows p xs hs)

-- A table with another row, or with a row that changed, has the keys that it had.
module _ {K : Type 0} {V : Type 0} ⦃e : Eq K⦄ where
  pub inserted_known :
      (k j : K) (v : V) (m : HashMap K V)
      → is_some (lookup j m) ≡ true
      → is_some (lookup j (insert k v m)) ≡ true
  inserted_known k j v m h = ground (arith, lookup-insert k j v m)

  pub adjusted_known :
      (k j : K) (f : V → V) (m : HashMap K V)
      → is_some (lookup j m) ≡ true
      → is_some (lookup j (adjust k f m)) ≡ true
  adjusted_known k j f m h = elim (Option-cases (lookup k m)) [
    | inl missing ↦ subst (λ n. is_some (lookup j n) ≡ true) (sym (adjust_missing k f m missing)) h
    | inr (v, found) ↦
        subst (λ n. is_some (lookup j n) ≡ true) (sym (adjust_found k v f m found))
          (inserted_known k j (f v) m h)
  ]

-- Folders under the keys that there were keep the foreign keys of the other tables.
pub more_folders :
    (s : SqliteStore) (folders : HashMap FolderId SqliteFolderRow)
    → ((id : FolderId) → folder_known s id ≡ true → is_some (lookup id folders) ≡ true)
    → files_known s ≡ true
    → files_known (record s { sync_folders = folders }) ≡ true
more_folders s folders f h =
    let (metadata, rest) =
      both (all_rows (λ kv. folder_known s (kv.0.0)) s.file_metadata)
        (all_rows (λ r. folder_known s (HistoryEntry.folder_id (FileHistoryRow.entry r)))
            s.file_history
          && all_rows (λ t. folder_known s (TombstoneRow.folder_id t)) s.tombstones)
        h in
    let (history, tombstones) =
      both
        (all_rows (λ r. folder_known s (HistoryEntry.folder_id (FileHistoryRow.entry r)))
          s.file_history)
        (all_rows (λ t. folder_known s (TombstoneRow.folder_id t)) s.tombstones) rest in
    joined _ _ (all_rows_mono _ _ s.file_metadata (λ kv. f (kv.0.0)) metadata) (
      joined _ _
        (all_rows_mono _ _ s.file_history (λ r. f (HistoryEntry.folder_id (FileHistoryRow.entry r)))
          history)
        (all_rows_mono _ _ s.tombstones (λ t. f (TombstoneRow.folder_id t)) tombstones))

-- What a checked statement writes is sound when its keys are unique.
pub checked-IsSound :
    (s after : SqliteStore) → check_keys s ≡ some after → IsKeyed s → IsSound after
checked-IsSound s after e keyed =
    let (same, kept) = checked s after e in subst IsSound same (kept, keyed)

pub result_of_test {ℓ} :
    {A : Type ℓ} (test : Bool) (o : Option A) (x : A)
    → (if test then o else none) ≡ some x
    → o ≡ some x
result_of_test true o x e = e
result_of_test false o x e = absurd (ground (arith, e))

pub Given-later :
    (n : ℕ) (m : HashMap FolderId SqliteFolderRow) → All (Given n) m → All (Given (n + 1)) m
Given-later n m h =
    All-imp (Given n) (Given (n + 1)) (λ kv (k, same, low, high). (k, same, low, omega arith)) m h

module _ (s : SqliteStore) (h : IsSound s) where
  pub devices-IsSound :
      (devices : HashMap DeviceId DeviceRow)
      → ((id : DeviceId) → device_known s id ≡ true → is_some (lookup id devices) ≡ true)
      → IsMap devices
      → IsSound (record s { devices = devices })
  devices-IsSound devices f m =
      let (kept, (_, folders, metadata, given)) = h in
      (more_devices s devices f kept, (m, folders, metadata, given))

  pub adjust_devices-IsSound :
      (id : DeviceId) (f : DeviceRow → DeviceRow)
      → IsSound (record s { devices = adjust id f s.devices })
  adjust_devices-IsSound id f =
      devices-IsSound (adjust id f s.devices) (λ j. adjusted_known id j f s.devices)
        (adjust-IsMap id f s.devices h.1.0)
