-- ===== src/Storage/Wiring.antt =====
-- What `wire_folder_pair` of ferrisync-core/src/storage/mod.rs wires.
use ferri_sync.Prelude.{
  ℕ, ◌+◌, ◌≡◌, refl, sym, ap, ◌∙◌, subst, Bool, true, false, [], ◌∷◌, ◌++◌, Option, none, some,
  String, string_eq, nat_eq, pair_eq, eq_iff, if◌then◌else◌, is_some, arith, inl, inr, Bool-cases,
  Option-cases,
}
use ferri_sync.Prelude.Maps.{
  HashMap, lookup, adjust, IsMap, lookup-insert_self, lookup-tail, lookup-cons_self,
}
use ferri_sync.Prelude.Options.{option_bind, option_or}
use ferri_sync.Version.{DeviceId}
use ferri_sync.Storage.{Database, FolderRow, PairRow}
use ferri_sync.Storage.References.{enforce, enforced, bind_some, some_same}
use ferri_sync.Storage.Labels.{path_label, is_blank}
use ferri_sync.Storage.Folders.{insert_folder, with_folder, with_pair}
use ferri_sync.Storage.Sharing.{insert_pair}
use ferri_sync.Storage.Tables.{first_row, is_text}
use ferri_sync.Storage.Folders.{
  at_path, has_guid, folder_guid, folder_id_for_guid, add_folder_device, pair_row,
}
use ferri_sync.Storage.Sharing.{wire_new, wire_folder, wire_folder_pair, rebind_conflicts}
use ferri_sync.Storage.Registration.{insert-fresh}
use ferri_sync.Storage.Invariant.{IsDatabase, unnumbered}

-- The row that a search gives is the one that its id finds, and the condition holds of it.
first_row-lookup :
    (p : ℕ × FolderRow → Bool) (rows : HashMap ℕ FolderRow) (id : ℕ) (f : FolderRow)
    → IsMap rows
    → first_row p rows ≡ some (id, f)
    → (lookup id rows ≡ some f) × (p (id, f) ≡ true)
first_row-lookup p [] id f h e = absurd (ground (arith, e))
first_row-lookup p ((j, g) ∷ rows) id f (fresh, h) e = elim (Bool-cases (p (j, g))) [
  | inl hit ↦
      subst (λ kv. (lookup kv.0 ((j, g) ∷ rows) ≡ some kv.1) × (p kv ≡ true)) {x = (j, g)}
        {y = (id, f)} (ground (arith, e, hit)) (lookup-cons_self j g rows, hit)
  | inr miss ↦
      let (found, holds) = first_row-lookup p rows id f h (ground (arith, e, miss)) in
      (lookup-tail j id g f rows fresh found, holds)
]

-- The folder has the guid.
abbrev pub HasGuid : String → ℕ × Database → Type 0
HasGuid guid wired = folder_guid wired.0 wired.1 ≡ some guid

guid_of_row :
    (guid : String) (id : ℕ) (db : Database) (f : FolderRow)
    → lookup id db.sync_folders ≡ some f
    → f.folder_guid ≡ some guid
    → HasGuid guid (id, db)
unfolding folder_guid
guid_of_row guid id db f found e = ap (λ o. option_bind o (λ f. FolderRow.folder_guid f)) found ∙ e

is_text_eq : (guid : String) (o : Option String) → is_text guid o ≡ true → o ≡ some guid
is_text_eq guid none h = absurd (ground (arith, h))
is_text_eq guid (some held) h = ap some ((eq_iff held guid).0 h)

found_guid :
    (guid : String) (db : Database) (id : ℕ)
    → IsDatabase db
    → folder_id_for_guid guid db ≡ some id
    → HasGuid guid (id, db)
unfolding folder_id_for_guid
found_guid guid db id ((ids, folders, pairs, headed), devices) e =
    elim (Option-cases (first_row (has_guid guid) db.sync_folders)) [
      | inl missing ↦ absurd (ground (arith, e, missing))
      | inr (kv, found) ↦
          let (row, holds) =
            first_row-lookup (has_guid guid) db.sync_folders kv.0 kv.1 folders found in
          subst (λ i. HasGuid guid (i, db)) {x = kv.0} {y = id} (ground (arith, e, found))
            (guid_of_row guid kv.0 db kv.1 row (is_text_eq guid (FolderRow.folder_guid kv.1) holds))
    ]

lookup-adjust :
    (id : ℕ) (f : FolderRow) (g : FolderRow → FolderRow) (m : HashMap ℕ FolderRow)
    → lookup id m ≡ some f
    → lookup id (adjust id g m) ≡ some (g f)
lookup-adjust id f g m h = rw (h, adjust) (lookup-insert_self id (g f) m)

lookup-new :
    (n : ℕ) (f : FolderRow) (fs : HashMap ℕ FolderRow)
    → lookup n fs ≡ none
    → lookup n (fs ++ (n, f) ∷ []) ≡ some f
lookup-new n f fs h = ap (λ m. lookup n m) (sym (insert-fresh n f fs h)) ∙ lookup-insert_self n f fs

-- What holds of a result holds of the one that is returned.
returned {ℓ} : {A : Type 0} (P : A → Type ℓ) (x w : A) → some x ≡ some w → P x → P w
returned P x w e px = subst P {x = x} {y = w} (ap (λ o. option_or o x) e) px

guarded {ℓ} :
    {A : Type 0} (P : A → Type ℓ) (failed : Bool) (x w : A)
    → (if failed then none else some x) ≡ some w
    → P x
    → P w
guarded P true x w e px = absurd (ground (arith, e))
guarded P false x w e px = returned P x w e px

-- A pair that is inserted leaves the folders.
pair_guid :
    (guid : String) (id : ℕ) (d : DeviceId) (db after : Database)
    → insert_pair id d "bidirectional" db ≡ some after
    → HasGuid guid (id, db)
    → HasGuid guid (id, after)
unfolding folder_guid
pair_guid guid id d db after e has =
    elim (Bool-cases (is_some (lookup (id, d) db.folder_devices))) [
      | inl taken ↦ absurd (ground (arith, e, taken))
      | inr free ↦
          let same = ap (λ b. if b then none else enforce (inserted id d db)) free in
          ap (λ x. option_bind (lookup id (Database.sync_folders x)) (λ f. FolderRow.folder_guid f))
            (sym (enforced (inserted id d db) after (sym same ∙ e)).0)
          ∙ has
    ]
  where
    inserted : ℕ → DeviceId → Database → Database
    inserted id d db = record db {
      folder_devices =
          db.folder_devices
          ++ ((id, d), record { mode = "bidirectional"; remote_path = none; enabled = true }) ∷ [];
    }

module _ (guid local_path name : String) (own : DeviceId) (db : Database) (h : IsDatabase db) where
  new_wired :
      (o : Option ℕ) (wired : ℕ × Database)
      → folder_id_for_guid guid db ≡ o
      → wire_new guid local_path name own db o ≡ some wired
      → HasGuid guid wired
  unfolding wire_new
  new_wired (some id) wired found e =
      subst (λ w. HasGuid guid w) {x = (id, db)} {y = wired} (some_same (id, db) wired e)
        (found_guid guid db id h found)
  new_wired none wired found e =
      let n = db.last_folder + 1 in
      let ((ids, folders, pairs, headed), devices) = h in
      let label = if is_blank name then path_label local_path else name in
      let (made, inserted, rest) =
        bind_some (insert_folder local_path label own "bidirectional" guid db)
          (λ made.
            option_bind (insert_pair (made.0) own "bidirectional" (made.1))
              (λ paired. some (made.0, paired)))
          wired e in
      let (db', wrote, at) =
        bind_some (enforce (with_folder local_path label own "bidirectional" guid db))
          (λ db'. some (n, db')) made inserted in
      let (paired, attached, done) =
        bind_some (insert_pair (made.0) own "bidirectional" (made.1))
          (λ paired. some (made.0, paired)) wired rest in
      let first : HasGuid guid made =
        subst (λ w. HasGuid guid w) {x = (n, db')} {y = made} (some_same (n, db') made at)
          (subst (λ x. HasGuid guid (n, x))
            (enforced (with_folder local_path label own "bidirectional" guid db) db' wrote).0
            (guid_of_row guid n (with_folder local_path label own "bidirectional" guid db) _
              (lookup-new n _ db.sync_folders (unnumbered db.last_folder db.sync_folders ids))
              refl)) in
      subst (λ w. HasGuid guid w) {x = (made.0, paired)} {y = wired}
        (some_same (made.0, paired) wired done)
        (pair_guid guid (made.0) own (made.1) paired attached first)

  folder_wired :
      (o : Option (ℕ × FolderRow)) (wired : ℕ × Database)
      → first_row (at_path local_path) db.sync_folders ≡ o
      → wire_folder guid local_path name own db o ≡ some wired
      → HasGuid guid wired
  unfolding wire_folder
  folder_wired none wired found e = new_wired (folder_id_for_guid guid db) wired refl e
  folder_wired (some (id, f)) wired found e =
      let ((ids, folders, pairs, headed), devices) = h in
      guarded (HasGuid guid) (rebind_conflicts guid own f.folder_guid db.shared_folders) _ wired e (
        guid_of_row guid id _ (record f { folder_guid = some guid })
          (lookup-adjust id f (λ row. record row { folder_guid = some guid }) db.sync_folders
            (first_row-lookup (at_path local_path) db.sync_folders id f folders found).0)
          refl)

-- The folder has the guid, and an enabled two-way pair with the peer.
abbrev pub IsWired : String → DeviceId → ℕ × Database → Type 0
IsWired guid peer wired =
    HasGuid guid wired
    × ((row : PairRow) × (lookup (wired.0, peer) wired.1.folder_devices ≡ some row)
        × (row.mode ≡ "bidirectional")
        × (row.enabled ≡ true))

both_ways :
    (remote : Option String) (o : Option PairRow)
    → ((pair_row "bidirectional" remote o).mode ≡ "bidirectional")
      × ((pair_row "bidirectional" remote o).enabled ≡ true)
both_ways remote none = (refl, refl)
both_ways remote (some row) = (refl, refl)

attached :
    (guid : String) (peer : DeviceId) (remote : Option String) (w : ℕ × Database)
    → HasGuid guid w
    → IsWired guid peer (w.0, with_pair w.0 peer "bidirectional" remote w.1)
unfolding folder_guid
attached guid peer remote (id, db) h =
    let old = lookup (id, peer) db.folder_devices in
    let (mode, enabled) = both_ways remote old in
    (
      h,
      (
        pair_row "bidirectional" remote old,
        lookup-insert_self (id, peer) _ db.folder_devices,
        mode,
        enabled,
      ),
    )

no_id : {id : ℕ} → ◌≡◌ {A = Option ℕ} none (some id) → ⊥
no_id e = ground (arith, e)

-- Whichever way the folder is found - at the path, by the guid, or made anew - a wiring that gives an
-- id leaves a folder under that id that has the guid, and an enabled two-way pair of it with the peer.
pub wire_folder_pair-IsWired :
    (guid local_path name : String) (own peer : DeviceId) (peer_path : Option String)
    (db after : Database) (id : ℕ)
    → IsDatabase db
    → wire_folder_pair guid local_path name own peer peer_path db ≡ (after, some id)
    → IsWired guid peer (id, after)
unfolding wire_folder_pair add_folder_device
wire_folder_pair-IsWired guid local_path name own peer peer_path db after id h e =
    let found = first_row (at_path local_path) db.sync_folders in
    wired (wire_folder guid local_path name own db found) refl e
  where
    ending : ℕ × Database → Option Database → Database × Option ℕ
    ending w none = (w.1, none)
    ending w (some paired) = (paired, some w.0)

    paired_up :
        (w : ℕ × Database) (o : Option Database)
        → wire_folder guid local_path name own db (first_row (at_path local_path) db.sync_folders)
          ≡ some w
        → enforce (with_pair w.0 peer "bidirectional" peer_path w.1) ≡ o
        → ending w o ≡ (after, some id)
        → IsWired guid peer (id, after)
    paired_up w none found p e = absurd (no_id (ap (λ r. r.1) e))
    paired_up w (some y) found p e =
        subst (λ v. IsWired guid peer v) {x = (w.0, y)} {y = (id, after)}
          (ap {A = Database × Option ℕ} (λ r. (option_or r.1 0, r.0)) e)
          (subst (λ x. IsWired guid peer (w.0, x))
            (enforced (with_pair w.0 peer "bidirectional" peer_path w.1) y p).0
            (attached guid peer peer_path w (
              folder_wired guid local_path name own db h
                (first_row (at_path local_path) db.sync_folders) w refl found)))

    outcome : Option (ℕ × Database) → Database × Option ℕ
    outcome none = (db, none)
    outcome (some w) = ending w (enforce (with_pair w.0 peer "bidirectional" peer_path w.1))

    wired :
        (o : Option (ℕ × Database))
        → wire_folder guid local_path name own db (first_row (at_path local_path) db.sync_folders)
          ≡ o
        → outcome o ≡ (after, some id)
        → IsWired guid peer (id, after)
    wired none found e = absurd (no_id (ap (λ r. r.1) e))
    wired (some w) found e = paired_up w _ found refl e
