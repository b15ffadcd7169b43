-- ===== src/Storage/References.antt =====
-- The foreign keys of ferrisync-core/src/storage/mod.rs, which the bundled SQLite enforces: a
-- statement that would leave a violation fails, on a database that has none.
use ferri_sync.Prelude.{
  ℕ, Bool, true, false, ◌≡◌, refl, sym, ap, ◌∙◌, inl, inr, Bool-cases, arith, ◌&&◌, List, [], ◌∷◌,
  Option, none, some, string_eq, nat_eq, if◌then◌else◌, is_some,
}
use ferri_sync.Prelude.Maps.{lookup}
use ferri_sync.Prelude.Options.{option_or, option_bind}
use ferri_sync.Prelude.Predicates.{All}
use ferri_sync.Version.{DeviceId}
use ferri_sync.Storage.{Database, FolderRow, HistoryRow, ShareRow}

abbrev pub all_rows {ℓ} : {A : Type ℓ} → (A → Bool) → List A → Bool
all_rows p [] = true
all_rows p (x ∷ xs) = p x && all_rows p xs

abbrev pub has_device : Database → DeviceId → Bool
has_device db id = is_some (lookup id db.devices)

abbrev pub has_folder : Database → ℕ → Bool
has_folder db id = is_some (lookup id db.sync_folders)

-- Every `FOREIGN KEY` of the schema.
abbrev pub folders_refer : Database → Bool
folders_refer db = all_rows (λ kv. has_device db (FolderRow.device_id kv.1)) db.sync_folders

abbrev pub pairs_refer : Database → Bool
pairs_refer db = all_rows (λ kv. has_folder db (kv.0.0) && has_device db (kv.0.1)) db.folder_devices

abbrev pub metadata_refer : Database → Bool
metadata_refer db = all_rows (λ kv. has_folder db (kv.0.0)) db.file_metadata

abbrev pub history_refer : Database → Bool
history_refer db = all_rows (λ kv. has_folder db (HistoryRow.folder_id kv.1)) db.file_history

abbrev pub shares_refer : Database → Bool
shares_refer db = all_rows (λ kv. has_device db (ShareRow.device_id kv.1)) db.shared_folders

abbrev pub keeps_references : Database → Bool
keeps_references db =
    folders_refer db
    && (pairs_refer db && (metadata_refer db && (history_refer db && shares_refer db)))

-- The end of a statement that may violate a foreign key.
unfoldable pub enforce : Database → Option Database
enforce db = if keeps_references db then some db else none

pub some_same {ℓ} : {A : Type ℓ} (x y : A) → some x ≡ some y → x ≡ y
some_same x y e = ap (λ o. option_or o x) e

-- A statement that succeeds leaves what it wrote, without a violation.
pub enforced :
    (db after : Database) → enforce db ≡ some after → (db ≡ after) × (keeps_references db ≡ true)
unfolding enforce
enforced db after e = elim (Bool-cases (keeps_references db)) [
  | inl kept ↦ (some_same db after (sym (allowed kept) ∙ e), kept)
  | inr broken ↦ absurd (ground (arith, sym (refused broken) ∙ e))
]
  where
    allowed : keeps_references db ≡ true → (if keeps_references db then some db else none) ≡ some db
    allowed kept = rw kept refl

    refused : keeps_references db ≡ false → (if keeps_references db then some db else none) ≡ none
    refused broken = rw broken refl

pub enforce_kept : (db : Database) → keeps_references db ≡ true → enforce db ≡ some db
unfolding enforce
enforce_kept db kept = rw kept refl

pub all_rows-All :
    {A : Type 0} (p : A → Bool) (xs : List A) → all_rows p xs ≡ true → All (λ x. p x ≡ true) xs
all_rows-All p [] h = tt
all_rows-All p (x ∷ xs) h = (ground (arith, h), all_rows-All p xs (ground (arith, h)))

-- What a result of two steps comes from.
pub bind_some {ℓ κ} :
    {A : Type ℓ} {B : Type κ} (o : Option A) (f : A → Option B) (b : B)
    → option_bind o f ≡ some b
    → (a : A) × (o ≡ some a) × (f a ≡ some b)
bind_some none f b e = absurd (ground (arith, e))
bind_some (some a) f b e = (a, refl, e)

pub both : (a b : Bool) → (a && b) ≡ true → (a ≡ true) × (b ≡ true)
both true b h = (refl, h)
both false b h = absurd (ground (arith, h))

-- What a database that keeps all references keeps of each table with those to devices.
pub kept_devices :
    (db : Database)
    → keeps_references db ≡ true
    → (folders_refer db ≡ true) × (pairs_refer db ≡ true) × (shares_refer db ≡ true)
kept_devices db h =
    let (folders, rest) =
      both (folders_refer db)
        (pairs_refer db && (metadata_refer db && (history_refer db && shares_refer db))) h in
    let (pairs, rest) =
      both (pairs_refer db) (metadata_refer db && (history_refer db && shares_refer db)) rest in
    let (metadata, rest) = both (metadata_refer db) (history_refer db && shares_refer db) rest in
    (folders, pairs, (both (history_refer db) (shares_refer db) rest).1)
