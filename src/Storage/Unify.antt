-- ===== src/Storage/Unify.antt =====
-- `reconcile_devices_by_cert` of ferrisync-core/src/storage/mod.rs. `cert_to_device_id` hashes the
-- certificate: a parameter.
use ferri_sync.Prelude.{
  ℕ, ◌+◌, Bool, true, false, not, ◌&&◌, ◌||◌, List, [], ◌∷◌, Option, none, some, String, string_eq,
  nat_eq, pair_eq, ◌==◌, if◌then◌else◌, is_some,
}
use ferri_sync.Prelude.Int.{ℤ}
use ferri_sync.Prelude.Maps.{HashMap, lookup, insert, remove, contains_key}
use ferri_sync.Prelude.Options.{option_or}
use ferri_sync.Version.{DeviceId}
use ferri_sync.Storage.{Database}
use ferri_sync.Storage.References.{enforce}
use ferri_sync.Storage.Devices.{DeviceRow, ensure_self_row}
use ferri_sync.Storage.Repoint.{Remap, repoint_tables, referenced}

module _ (cert_to_device_id : List ℕ → DeviceId) where
  -- One row of the first loop: the key is not the id of the certificate.
  abbrev pub remap_row : DeviceId → Option (List ℕ) → Remap → Remap
  remap_row id none remap = remap
  remap_row id (some cert) remap =
      let canonical = cert_to_device_id cert in
      if canonical == id then remap else insert id canonical remap

  unfoldable pub remap_rows : HashMap DeviceId DeviceRow → Remap → Remap
  remap_rows [] remap = remap
  remap_rows ((id, row) ∷ rows) remap = remap_rows rows (remap_row id row.cert_der remap)

  -- One row of the second loop: another row with our own certificate.
  abbrev pub remap_self : DeviceId → DeviceId → Option (List ℕ) → Remap → Remap
  remap_self own_id id none remap = remap
  remap_self own_id id (some cert) remap =
      if (cert_to_device_id cert == own_id) && not (id == own_id)
      then insert id own_id remap
      else remap

  unfoldable pub remap_selves : DeviceId → HashMap DeviceId DeviceRow → Remap → Remap
  remap_selves own_id [] remap = remap
  remap_selves own_id ((id, row) ∷ rows) remap =
      remap_selves own_id rows (remap_self own_id id row.cert_der remap)

  -- `cert_count_by_name` and `cert_ids_by_name` in one map.
  abbrev pub count_name :
      String → Option (List ℕ) → HashMap String (ℕ × DeviceId) → HashMap String (ℕ × DeviceId)
  count_name name none names = names
  count_name name (some cert) names =
      let (count, id) = option_or (lookup name names) (0, "") in
      insert name (count + 1, cert_to_device_id cert) names

  unfoldable pub certs_by_name :
      HashMap DeviceId DeviceRow → HashMap String (ℕ × DeviceId) → HashMap String (ℕ × DeviceId)
  certs_by_name [] names = names
  certs_by_name ((id, row) ∷ rows) names =
      certs_by_name rows (count_name row.name row.cert_der names)

  -- One row of the last loop: a row without a certificate, whose name one certificate has.
  abbrev pub remap_named : DeviceId → DeviceId → Option (ℕ × DeviceId) → Remap → Remap
  remap_named own_id id none remap = remap
  remap_named own_id id (some (count, canonical)) remap =
      if (count == 1) && not (canonical == own_id) then insert id canonical remap else remap

  abbrev pub remap_stub :
      HashMap String (ℕ × DeviceId) → DeviceId → DeviceId → DeviceRow → Remap → Remap
  remap_stub names own_id id row remap =
      if is_some row.cert_der || contains_key id remap
      then remap
      else remap_named own_id id (lookup row.name names) remap

  unfoldable pub remap_stubs :
      HashMap String (ℕ × DeviceId) → DeviceId → HashMap DeviceId DeviceRow → Remap → Remap
  remap_stubs names own_id [] remap = remap
  remap_stubs names own_id ((id, row) ∷ rows) remap =
      remap_stubs names own_id rows (remap_stub names own_id id row remap)

  abbrev pub remap_legacy : DeviceId → Option DeviceId → Remap
  remap_legacy own_id none = []
  remap_legacy own_id (some legacy) = (legacy, own_id) ∷ []

  unfoldable pub device_remap : DeviceId → Option DeviceId → HashMap DeviceId DeviceRow → Remap
  unfolding remap_rows remap_selves certs_by_name remap_stubs
  device_remap own_id legacy_self_id rows =
      let remap = remove own_id (remap_rows rows (remap_legacy own_id legacy_self_id)) in
      remap_stubs (certs_by_name rows []) own_id rows (remap_selves own_id rows remap)

  -- The loop that drops the rows of the old ids: it ends at the first that something refers to.
  unfoldable pub drop_devices : Remap → Database → Database × Bool
  unfolding enforce
  drop_devices [] db = (db, true)
  drop_devices ((old_id, new_id) ∷ remap) db =
      elim (enforce (record db { devices = remove old_id db.devices })) [
        | none ↦ (db, false)
        | some db' ↦ drop_devices remap db'
      ]

  -- The rows of the old ids go, and ours is written.
  abbrev pub finish_unify : ℤ → DeviceId → List ℕ → String → Remap → Database → Database × Bool
  unfolding ensure_self_row drop_devices
  finish_unify now own_id cert_der own_name remap db =
      let (db', done) = drop_devices remap db in
      if done
      then (record db' { devices = ensure_self_row now own_id cert_der own_name db'.devices }, true)
      else (db', false)

  unfoldable pub reconcile_devices_by_cert :
      ℤ → List ℕ → Option DeviceId → String → Database → Database × Bool
  unfolding device_remap
  reconcile_devices_by_cert now cert_der legacy_self_id own_name db =
      let own_id = cert_to_device_id cert_der in
      let remap = device_remap own_id legacy_self_id db.devices in
      let (db', done) = repoint_tables referenced remap db in
      if done then finish_unify now own_id cert_der own_name remap db' else (db', false)
