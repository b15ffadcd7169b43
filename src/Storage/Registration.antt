-- ===== src/Storage/Registration.antt =====
-- Adding a folder with its pair, and taking the pair off again, in
-- ferrisync-core/src/storage/mod.rs.
use ferri_sync.Prelude.{
  ℕ, ◌+◌, ◌≤◌, ◌≡◌, refl, sym, ap, ◌∙◌, true, not, ◌&&◌, [], ◌∷◌, ◌++◌, none, some, String,
  string_eq, nat_eq, pair_eq, eq_iff, keep, length, arith, Eq,
}
use ferri_sync.Prelude.Maps.{HashMap, lookup, insert, remove}
use ferri_sync.Prelude.Predicates.{All}
use ferri_sync.Version.{DeviceId}
use ferri_sync.Storage.{Database, FolderRow, PairRow}
use ferri_sync.Storage.Tables.{first_row}
use ferri_sync.Storage.Folders.{
  add_sync_folder, match_folder, add_folder_device, at_path, of_folder, of_device, pair_row,
}
use ferri_sync.Prelude.Options.{option_bind}
use ferri_sync.Storage.Tables.{max_id}
use ferri_sync.Storage.Labels.{path_label}
use ferri_sync.Storage.Folders.{with_folder, with_pair}
use ferri_sync.Storage.References.{keeps_references, enforced, enforce_kept, bind_some, some_same}
use ferri_sync.Storage.Pairs.{remove_folder_device}

-- No row of the folders or the pairs has an id that was not given out.
abbrev pub IsNumbered : Database → Type 0
IsNumbered db =
    All (λ kv. kv.0 ≤ db.last_folder) db.sync_folders
    × All (λ kv. kv.0.0 ≤ db.last_folder) db.folder_devices

pub insert-fresh {ℓ κ} :
    {K : Type ℓ} {V : Type κ} ⦃e : Eq K⦄ (k : K) (v : V) (m : HashMap K V)
    → lookup k m ≡ none
    → insert k v m ≡ m ++ (k, v) ∷ []
unfolding insert lookup
insert-fresh k v [] h = refl
insert-fresh k v ((j, u) ∷ m) h = ground (arith, insert-fresh k v m)

pair_fresh :
    (n : ℕ) (d : DeviceId) (ps : HashMap (ℕ × DeviceId) PairRow)
    → All (λ kv. kv.0.0 ≤ n) ps
    → lookup (n + 1, d) ps ≡ none
unfolding lookup
pair_fresh n d [] h = refl
pair_fresh n d (((i, e), row) ∷ ps) (le, h) = ground (arith, eq_iff i (n + 1), pair_fresh n d ps h)

keep_old :
    (n : ℕ) (d : DeviceId) (ps : HashMap (ℕ × DeviceId) PairRow)
    → All (λ kv. kv.0.0 ≤ n) ps
    → (keep (λ kv. not (of_folder (n + 1) kv && of_device d kv)) ps ≡ ps)
      × (keep (of_folder (n + 1)) ps ≡ [])
keep_old n d [] h = (refl, refl)
keep_old n d (((i, e), row) ∷ ps) (le, h) = ground (arith, eq_iff i (n + 1), keep_old n d ps h)

remove_new :
    {V : Type 0} (n : ℕ) (v : V) (m : HashMap ℕ V)
    → All (λ kv. kv.0 ≤ n) m
    → remove (n + 1) (m ++ (n + 1, v) ∷ []) ≡ m
unfolding remove
remove_new n v [] h = ground (arith, eq_iff (n + 1) (n + 1))
remove_new n v ((i, u) ∷ m) (le, h) = ground (arith, eq_iff i (n + 1), remove_new n v m h)

-- The statements of `remove_folder_device` on a pair that stands last and alone.
keep_last :
    (n : ℕ) (d : DeviceId) (row : PairRow) (ps : HashMap (ℕ × DeviceId) PairRow)
    → All (λ kv. kv.0.0 ≤ n) ps
    → (keep (λ kv. not (of_folder (n + 1) kv && of_device d kv)) (ps ++ ((n + 1, d), row) ∷ [])
        ≡ ps)
      × (length (keep (λ kv. of_folder (n + 1) kv && of_device d kv) (ps ++ ((n + 1, d), row) ∷ []))
          ≡ 1)
keep_last n d row [] h = ground (arith, eq_iff (n + 1) (n + 1), eq_iff d d)
keep_last n d row (((i, e), r) ∷ ps) (le, h) =
    ground (arith, eq_iff i (n + 1), keep_last n d row ps h)

remove_last :
    (n : ℕ) (d : DeviceId) (row : PairRow) (f : FolderRow) (db : Database)
    → All (λ kv. kv.0 ≤ n) db.sync_folders
    → All (λ kv. kv.0.0 ≤ n) db.folder_devices
    → keeps_references db ≡ true
    → remove_folder_device (n + 1) d (record db {
      sync_folders = db.sync_folders ++ (n + 1, f) ∷ [];
      folder_devices = db.folder_devices ++ ((n + 1, d), row) ∷ [];
    })
      ≡ some (db, true)
unfolding remove_folder_device
remove_last n d row f db folders pairs kept_refs =
    let (kept, one) = keep_last n d row db.folder_devices pairs in
    rw (one, kept, (keep_old n d db.folder_devices pairs).1, remove_new n f db.sync_folders folders)
      (ap (λ o. option_bind o (λ db'. some (db', true))) (enforce_kept db kept_refs))

module _ (new_folder_guid : ℕ → String) where
  -- The database with the new folder.
  abbrev registered : String → DeviceId → String → Database → Database
  registered path d mode db =
      with_folder path (path_label path) d mode (new_folder_guid (max_id db.sync_folders + 1)) db

  added_new :
      (path : String) (d : DeviceId) (mode : String) (db added : Database) (id : ℕ)
      → first_row (at_path path) db.sync_folders ≡ none
      → add_sync_folder new_folder_guid path d mode db ≡ some (id, added)
      → (id ≡ db.last_folder + 1)
        × (with_pair (db.last_folder + 1) d mode none (registered path d mode db) ≡ added)
  unfolding add_sync_folder add_folder_device
  added_new path d mode db added id missing e =
      let made = registered path d mode db in
      let start =
        sym (
          ap
            (λ o. option_bind (match_folder new_folder_guid path d mode db o) (λ matched.
              option_bind (add_folder_device (matched.0) d mode none (matched.1))
                (λ paired. some (matched.0, paired))))
            missing)
        ∙ e in
      let (r, matched, rest) = bind_some _ _ (id, added) start in
      let (made', wrote, same) = bind_some _ _ r matched in
      let (paired, attached, done) = bind_some _ _ (id, added) rest in
      let result = some_same _ (id, added) done in
      let at = some_same _ r same in
      let n = db.last_folder + 1 in
      (
        sym (ap (λ x. x.0) result) ∙ sym (ap (λ x. x.0) at),
        ap (λ x. with_pair n d mode none x) (enforced made made' wrote).0
            ∙ ap (λ x. with_pair (x.0) d mode none (x.1)) at
            ∙ (enforced _ paired attached).0
            ∙ ap (λ x. x.1) result,
      )

  -- Where no folder has the path, the ids are numbered and the foreign keys hold, removing the pair
  -- that a successful `add_sync_folder` made succeeds and takes the folder with it: the tables are
  -- those from before, and only the next id differs.
  pub remove_folder_device-add_sync_folder :
      (path : String) (d : DeviceId) (mode : String) (db added : Database) (id : ℕ)
      → IsNumbered db
      → keeps_references db ≡ true
      → first_row (at_path path) db.sync_folders ≡ none
      → add_sync_folder new_folder_guid path d mode db ≡ some (id, added)
      → remove_folder_device id d added
        ≡ some (record db { last_folder = db.last_folder + 1 }, true)
  remove_folder_device-add_sync_folder path d mode db added id (folders, pairs) kept missing e =
      let n = db.last_folder in
      let row = pair_row mode none (lookup (n + 1, d) db.folder_devices) in
      let (numbered, wrote) = added_new path d mode db added id missing e in
      ap (λ i. remove_folder_device i d added) numbered
      ∙ ap (λ x. remove_folder_device (n + 1) d x) (sym wrote)
      ∙ ap
          (λ ps.
            remove_folder_device (n + 1) d
              (record (registered path d mode db) { folder_devices = ps }))
          (insert-fresh (n + 1, d) row db.folder_devices (pair_fresh n d db.folder_devices pairs))
      ∙ remove_last n d row _ (record db { last_folder = n + 1 }) folders pairs kept
