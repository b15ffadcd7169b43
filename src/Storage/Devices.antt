-- ===== src/Storage/Devices.antt =====
-- The table `devices` of ferrisync-core/src/storage/mod.rs and its queries. A table is the list of
-- its rows under their primary keys, in the order of the row ids; `now` is `unixepoch()`.
use ferri_sync.Prelude.{
  ℕ, Bool, true, false, List, [], ◌∷◌, Option, none, some, String, string_eq, nat_eq, list_eq, ◌==◌,
  if◌then◌else◌, is_some, filter_map, map,
}
use ferri_sync.Prelude.Int.{ℤ, int_leb}
use ferri_sync.Prelude.Maps.{HashMap, lookup, insert, adjust}
use ferri_sync.Prelude.Options.{option_bind}
use ferri_sync.Version.{DeviceId}
use ferri_sync.Storage.Tables.{order_by}

-- A row of the table `devices`, under its id.
pub record DeviceRow : Type 0 where
  pub name : String
  pub cert_der : Option (List ℕ)
  pub last_seen : Option ℤ
  pub last_addr : Option String

-- `COALESCE(new, old)`
abbrev pub coalesce_with {ℓ} : {A : Type ℓ} → Option A → Option A → Option A
coalesce_with none old = old
coalesce_with (some new) old = some new

-- `INSERT .. ON CONFLICT(id) DO UPDATE`.
unfoldable pub upsert_row :
    ℤ → String → Option (List ℕ) → Option String → Option DeviceRow → DeviceRow
upsert_row now name cert_der last_addr none = record {
  name = name;
  cert_der = cert_der;
  last_seen = some now;
  last_addr = last_addr;
}
upsert_row now name cert_der last_addr (some row) = record {
  name = name;
  cert_der = coalesce_with cert_der row.cert_der;
  last_seen = some now;
  last_addr = coalesce_with last_addr row.last_addr;
}

unfoldable pub upsert_device :
    ℤ
    → DeviceId
    → String
    → Option (List ℕ)
    → Option String
    → HashMap DeviceId DeviceRow
    → HashMap DeviceId DeviceRow
unfolding upsert_row
upsert_device now id name cert_der last_addr devices =
    insert id (upsert_row now name cert_der last_addr (lookup id devices)) devices

unfoldable pub get_device_name : DeviceId → HashMap DeviceId DeviceRow → Option String
get_device_name id devices = elim (lookup id devices) [ none ↦ none | some row ↦ some row.name ]

-- The row that `ensure_self_row` leaves: an empty name keeps the old one, the address stays.
abbrev pub self_row : ℤ → List ℕ → String → Option DeviceRow → DeviceRow
self_row now cert_der name none = record {
  name = name;
  cert_der = some cert_der;
  last_seen = some now;
  last_addr = none;
}
self_row now cert_der name (some row) = record row {
  name = if name == "" then row.name else name;
  cert_der = some cert_der;
  last_seen = some now;
}

unfoldable pub ensure_self_row :
    ℤ → DeviceId → List ℕ → String → HashMap DeviceId DeviceRow → HashMap DeviceId DeviceRow
ensure_self_row now id cert_der name devices =
    insert id (self_row now cert_der name (lookup id devices)) devices

unfoldable pub device_last_addr : DeviceId → HashMap DeviceId DeviceRow → Option String
device_last_addr id devices = option_bind (lookup id devices) (λ row. DeviceRow.last_addr row)

unfoldable pub set_device_last_addr :
    DeviceId → String → HashMap DeviceId DeviceRow → HashMap DeviceId DeviceRow
set_device_last_addr id addr devices =
    adjust id (λ row. record row { last_addr = some addr }) devices

unfoldable pub get_device_cert : DeviceId → HashMap DeviceId DeviceRow → Option (List ℕ)
get_device_cert id devices = option_bind (lookup id devices) (λ row. DeviceRow.cert_der row)

-- The loop over the rows with a certificate; blake3 is a library: a parameter.
module _ (blake3 : List ℕ → List ℕ) where
  abbrev pub has_fingerprint : List ℕ → Option (List ℕ) → Bool
  has_fingerprint fingerprint none = false
  has_fingerprint fingerprint (some der) = blake3 der == fingerprint

  unfoldable pub get_device_by_cert_fingerprint :
      List ℕ → HashMap DeviceId DeviceRow → Option DeviceId
  get_device_by_cert_fingerprint fingerprint [] = none
  get_device_by_cert_fingerprint fingerprint ((id, row) ∷ rows) =
      if has_fingerprint fingerprint row.cert_der
      then some id
      else get_device_by_cert_fingerprint fingerprint rows

-- `INSERT .. ON CONFLICT(id) DO UPDATE SET cert_der`: a new row is named by its id.
abbrev pub cert_row : ℤ → DeviceId → List ℕ → Option DeviceRow → DeviceRow
cert_row now id cert_der none = record {
  name = id;
  cert_der = some cert_der;
  last_seen = some now;
  last_addr = none;
}
cert_row now id cert_der (some row) = record row { cert_der = some cert_der }

unfoldable pub set_device_cert :
    ℤ → DeviceId → List ℕ → HashMap DeviceId DeviceRow → HashMap DeviceId DeviceRow
set_device_cert now id cert_der devices =
    insert id (cert_row now id cert_der (lookup id devices)) devices

-- `last_addr IS NOT NULL AND last_addr != '' AND cert_der IS NOT NULL`
abbrev pub trusted_addr : DeviceId → Option String → Bool → Option (DeviceId × String)
trusted_addr id none has_cert = none
trusted_addr id (some addr) has_cert =
    if addr == "" then none else if has_cert then some (id, addr) else none

unfoldable pub list_trusted_device_addrs : HashMap DeviceId DeviceRow → List (DeviceId × String)
list_trusted_device_addrs devices =
    filter_map
      (λ kv. trusted_addr kv.0 (DeviceRow.last_addr kv.1) (is_some (DeviceRow.cert_der kv.1)))
      devices

-- `ORDER BY last_seen DESC`, where NULL is the smallest.
abbrev pub seen_first : DeviceId × String × Option ℤ → DeviceId × String × Option ℤ → Bool
seen_first (i, n, t) (j, m, none) = true
seen_first (i, n, none) (j, m, some u) = false
seen_first (i, n, some t) (j, m, some u) = int_leb u t

unfoldable pub list_devices : HashMap DeviceId DeviceRow → List (DeviceId × String × Option ℤ)
list_devices devices =
    order_by seen_first (map (λ kv. (kv.0, DeviceRow.name kv.1, DeviceRow.last_seen kv.1)) devices)
