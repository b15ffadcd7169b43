-- ===== src/Storage/Unified.antt =====
-- The devices that `reconcile_devices_by_cert` of ferrisync-core/src/storage/mod.rs leaves.
use ferri_sync.Prelude.{
  ℕ, ◌≡◌, ◌≢◌, refl, sym, ap, ◌∙◌, Bool, true, false, not, List, [], ◌∷◌, Option, none, some,
  String, string_eq, nat_eq, pair_eq, ◌==◌, if◌then◌else◌, arith, inl, inr, Bool-cases,
  Option-cases,
}
use ferri_sync.Prelude.Int.{ℤ}
use ferri_sync.Prelude.Options.{option_bind}
use ferri_sync.Prelude.Maps.{
  HashMap, lookup, remove, contains_key, IsMap, lookup-remove, lookup-insert_ne, lookup-insert_self,
}
use ferri_sync.Prelude.Predicates.{All}
use ferri_sync.Version.{DeviceId}
use ferri_sync.Storage.{Database}
use ferri_sync.Storage.Devices.{DeviceRow, ensure_self_row, self_row}
use ferri_sync.Storage.References.{enforce, enforced, some_same}
use ferri_sync.Storage.Unify.{device_remap, drop_devices, finish_unify, reconcile_devices_by_cert}
use ferri_sync.Storage.Repoint.{
  Remap, repoint_table, repoint_tables, referenced, pair_taken, share_taken,
}
use ferri_sync.Storage.Remapped.{remapped_iff}

-- A statement that leaves the table of devices.
abbrev LeavesDevices : ((DeviceId × DeviceId) → Database → Option Database) → Type 0
LeavesDevices statement =
    (entry : DeviceId × DeviceId) (db db' : Database)
    → statement entry db ≡ some db'
    → db'.devices ≡ db.devices

table_devices :
    (statement : (DeviceId × DeviceId) → Database → Option Database)
    → LeavesDevices statement
    → (remap : Remap) (db : Database) → (repoint_table statement remap db).0.devices ≡ db.devices
unfolding repoint_table
table_devices statement h [] db = refl
table_devices statement h (entry ∷ remap) db = elim (Option-cases (statement entry db)) [
  | inl failed ↦ rw (failed, repoint_table) refl
  | inr (db', e) ↦ rw (e, repoint_table) (table_devices statement h remap db' ∙ h entry db db' e)
]

tables_devices :
    (statements : List ((DeviceId × DeviceId) → Database → Option Database))
    → All LeavesDevices statements
    → (remap : Remap) (db : Database) → (repoint_tables statements remap db).0.devices ≡ db.devices
unfolding repoint_tables
tables_devices [] h remap db = refl
tables_devices (statement ∷ statements) (h, hs) remap db =
    elim (Bool-cases (repoint_table statement remap db).1) [
      | inl done ↦ rw done (
          tables_devices statements hs remap (repoint_table statement remap db).0
          ∙ table_devices statement h remap db)
      | inr failed ↦ rw failed (table_devices statement h remap db)
    ]

guarded_devices :
    (taken : Bool) (x db' : Database)
    → (if taken then none else enforce x) ≡ some db'
    → db'.devices ≡ x.devices
guarded_devices true x db' e = absurd (ground (arith, e))
guarded_devices false x db' e = ap (λ d. Database.devices d) (sym (enforced x db' e).0)

referenced_leave : All LeavesDevices referenced
referenced_leave = (
  λ entry db db' e. guarded_devices (pair_taken entry.0 entry.1 db.folder_devices) _ db' e,
  (
    λ entry db db' e. guarded_devices false _ db' e,
    (
      λ entry db db' e. guarded_devices (share_taken entry.0 entry.1 db.shared_folders) _ db' e,
      (
        λ entry db db' e. ap (λ d. Database.devices d) (sym (some_same _ db' e)),
        (λ entry db db' e. ap (λ d. Database.devices d) (sym (some_same _ db' e)), tt),
      ),
    ),
  ),
)

dropped_row :
    (old new k : DeviceId) (remap : Remap) (rows : HashMap DeviceId DeviceRow)
    → (if contains_key k remap then none else lookup k (remove old rows))
      ≡ (if contains_key k ((old, new) ∷ remap) then none else lookup k rows)
unfolding lookup
dropped_row old new k remap rows = ground (arith, lookup-remove old k rows)

module _ (cert_to_device_id : List ℕ → DeviceId) where
  dropped-lookup :
      (remap : Remap) (db : Database) (k : DeviceId)
      → (drop_devices cert_to_device_id remap db).1 ≡ true
      → lookup k (drop_devices cert_to_device_id remap db).0.devices
        ≡ (if contains_key k remap then none else lookup k db.devices)
  unfolding drop_devices lookup
  dropped-lookup [] db k done = refl
  dropped-lookup ((old, new) ∷ remap) db k done =
      elim (Option-cases (enforce (record db { devices = remove old db.devices }))) [
        | inl failed ↦ absurd (ground (arith, done, failed))
        | inr (db', e) ↦
            let done' : (drop_devices cert_to_device_id remap db').1 ≡ true =
              rw (e, drop_devices) at done in
            rw (e, drop_devices)
              (dropped-lookup remap db' k done'
                ∙ ap (λ d. if contains_key k remap then none else lookup k (Database.devices d))
                    (sym (enforced _ db' e).0)
                ∙ dropped_row old new k remap db.devices)
      ]

  finished :
      (now : ℤ) (own : DeviceId) (der : List ℕ) (name : String) (remap : Remap) (db : Database)
      → (finish_unify cert_to_device_id now own der name remap db).1 ≡ true
      → ((drop_devices cert_to_device_id remap db).1 ≡ true)
        × ((finish_unify cert_to_device_id now own der name remap db).0.devices
            ≡ ensure_self_row now own der name (drop_devices cert_to_device_id remap db).0.devices)
  unfolding ensure_self_row drop_devices
  finished now own der name remap db success =
      elim (Bool-cases (drop_devices cert_to_device_id remap db).1) [
        | inr failed ↦ absurd (cc (rw failed at success))
        | inl done ↦ (done, rw done refl)
      ]

  written_row-lookup :
      (now : ℤ) (own : DeviceId) (der : List ℕ) (name : String) (rows : HashMap DeviceId DeviceRow)
      (k : DeviceId)
      → own ≢ k
      → (lookup k (ensure_self_row now own der name rows) ≡ lookup k rows)
        × (option_bind
              (lookup own (ensure_self_row now own der name rows))
              (λ row. DeviceRow.cert_der row)
            ≡ some der)
  unfolding ensure_self_row
  written_row-lookup now own der name rows k other = (
    lookup-insert_ne own k (self_row now der name (lookup own rows)) rows other,
    ap (λ o. option_bind o (λ row. DeviceRow.cert_der row))
          (lookup-insert_self own (self_row now der name (lookup own rows)) rows)
        ∙ self_row-cert now der name (lookup own rows),
  )
    where
      self_row-cert :
          (now : ℤ) (der : List ℕ) (name : String) (o : Option DeviceRow)
          → (self_row now der name o).cert_der ≡ some der
      self_row-cert now der name none = refl
      self_row-cert now der name (some row) = refl

  -- The row of our own device, and what became of the others.
  finished-lookup :
      (now : ℤ) (own : DeviceId) (der : List ℕ) (name : String) (remap : Remap) (db : Database)
      → (finish_unify cert_to_device_id now own der name remap db).1 ≡ true
      → (k : DeviceId) → own ≢ k
      → (lookup k (finish_unify cert_to_device_id now own der name remap db).0.devices
          ≡ (if contains_key k remap then none else lookup k db.devices))
        × (option_bind
              (lookup own (finish_unify cert_to_device_id now own der name remap db).0.devices)
              (λ row. DeviceRow.cert_der row)
            ≡ some der)
  finished-lookup now own der name remap db success k other =
      let (done, same) = finished now own der name remap db success in
      let (theirs, ours) =
        written_row-lookup now own der name (drop_devices cert_to_device_id remap db).0.devices k
          other in
      (
        ap (λ m. lookup k m) same ∙ theirs ∙ dropped-lookup remap db k done,
        ap (λ m. option_bind (lookup own m) (λ row. DeviceRow.cert_der row)) same ∙ ours,
      )

  -- When the migration succeeds, another device that has a certificate, and is not the legacy row of
  -- ours, keeps its row as it was if it stands under the id of its certificate, and has no row under
  -- its id otherwise; and our own row stands under the id of our certificate, and has it. The ids of
  -- the table are unique.
  pub reconcile_devices_by_cert-others :
      (now : ℤ) (der : List ℕ) (legacy : Option DeviceId) (name : String) (db : Database)
      (k : DeviceId) (row : DeviceRow) (cert : List ℕ)
      → IsMap db.devices
      → cert_to_device_id der ≢ k
      → legacy ≢ some k
      → lookup k db.devices ≡ some row
      → row.cert_der ≡ some cert
      → (reconcile_devices_by_cert cert_to_device_id now der legacy name db).1 ≡ true
      → (lookup k (reconcile_devices_by_cert cert_to_device_id now der legacy name db).0.devices
          ≡ (if cert_to_device_id cert == k then some row else none))
        × (option_bind
              (lookup
                (cert_to_device_id der)
                (reconcile_devices_by_cert cert_to_device_id now der legacy name db).0.devices)
              (λ own_row. DeviceRow.cert_der own_row)
            ≡ some der)
  unfolding reconcile_devices_by_cert
  reconcile_devices_by_cert-others now der legacy name db k row cert unique other current found has
        success =
      let own = cert_to_device_id der in
      let remap = device_remap cert_to_device_id own legacy db.devices in
      let moved = (repoint_tables referenced remap db).0 in
      elim (Bool-cases (repoint_tables referenced remap db).1) [
        | inr failed ↦ absurd (ground (arith, success, failed))
        | inl done ↦
            let (theirs, ours) =
              finished-lookup now own der name remap moved (rw done at success) k other in
            rw done (
              theirs
                  ∙ ap (λ m. if contains_key k remap then none else lookup k m)
                      (tables_devices referenced referenced_leave remap db)
                  ∙ ap (λ b. if b then none else lookup k db.devices)
                      (remapped_iff cert_to_device_id own legacy db.devices k row cert unique other
                        current found has)
                  ∙ ap (λ o. if not (cert_to_device_id cert == k) then none else o) found
                  ∙ flip (cert_to_device_id cert == k) row,
              ours,
            )
      ]
    where
      flip :
          (test : Bool) (row : DeviceRow)
          → (if not test then none else some row) ≡ (if test then some row else none)
      flip true row = refl
      flip false row = refl
