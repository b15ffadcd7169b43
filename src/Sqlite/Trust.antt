-- ===== src/Sqlite/Trust.antt =====
-- `IdentityVerifier` and `FolderAuthorizer` of ferrisync-core/src/authorization over the store of
-- persistence/sqlite.rs.
use ferri_sync.Prelude.{
  ℕ, ◌≡◌, refl, ap, ◌∙◌, ◌≢◌, true, false, List, none, some, string_eq, list_eq, nat_eq, eq_refl,
  eq_iff, is_some, arith,
}
use ferri_sync.Prelude.Maps.{lookup, lookup-insert_self}
use ferri_sync.Prelude.Options.{option_bind}
use ferri_sync.Prelude.Entries.{adjust_missing, adjust_found}
use ferri_sync.Version.{DeviceId}
use ferri_sync.Snapshot.{FolderId}
use ferri_sync.Storage.Devices.{DeviceRow}
use ferri_sync.Identity.{StateStore, verify_or_trust, can_write}
use ferri_sync.Identity.Trust.{verify_or_trust_known, verify_or_trust_fresh, can_read_iff}
use ferri_sync.Sqlite.{SqliteStore}
use ferri_sync.Sqlite.Devices.{
  get_device, get_device_cert, set_device_cert, get_device_by_cert_fingerprint,
}

module _ (blake3 : List ℕ → List ℕ) where
  abbrev pub sqlite_store : StateStore SqliteStore
  sqlite_store = record {
    get_device = get_device;
    get_device_cert = get_device_cert;
    set_device_cert = set_device_cert;
    get_device_by_cert_fingerprint = get_device_by_cert_fingerprint blake3;
  }

  no_cert :
      (id : DeviceId) (s : SqliteStore) → lookup id s.devices ≡ none → get_device_cert id s ≡ none
  unfolding get_device_cert
  no_cert id s missing = ap (λ o. option_bind o (λ row. DeviceRow.cert_der row)) missing

  row_cert :
      (id : DeviceId) (s : SqliteStore) (row : DeviceRow)
      → lookup id s.devices ≡ some row
      → get_device_cert id s ≡ row.cert_der
  unfolding get_device_cert
  row_cert id s row found = ap (λ o. option_bind o (λ row. DeviceRow.cert_der row)) found

  set_nothing :
      (id : DeviceId) (cert : List ℕ) (s : SqliteStore)
      → lookup id s.devices ≡ none
      → set_device_cert id cert s ≡ s
  unfolding set_device_cert
  set_nothing id cert s missing =
      ap (λ m. record s { devices = m })
        (adjust_missing id (λ row. record row { cert_der = some cert }) s.devices missing)

  no_device :
      (id : DeviceId) (s : SqliteStore) → lookup id s.devices ≡ none → get_device id s ≡ none
  unfolding get_device
  no_device id s missing = rw (missing, get_device) refl

  stored_cert :
      (id : DeviceId) (cert : List ℕ) (row : DeviceRow) (s : SqliteStore)
      → lookup id s.devices ≡ some row
      → get_device_cert id (set_device_cert id cert s) ≡ some cert
  unfolding get_device_cert set_device_cert
  stored_cert id cert row s found =
      ap (λ m. option_bind (lookup id m) (λ row. DeviceRow.cert_der row))
        (adjust_found id row (λ row. record row { cert_der = some cert }) s.devices found)
      ∙ ap (λ o. option_bind o (λ row. DeviceRow.cert_der row))
          (lookup-insert_self id (record row { cert_der = some cert }) s.devices)

  -- A device without a row is trusted with any certificate, nothing is stored of it, and it may not
  -- write.
  pub verify_or_trust_unknown :
      (id : DeviceId) (cert : List ℕ) (folder : FolderId) (s : SqliteStore)
      → lookup id s.devices ≡ none
      → (verify_or_trust sqlite_store blake3 id cert s ≡ (s, true))
        × (can_write sqlite_store id folder s ≡ false)
  verify_or_trust_unknown id cert folder s missing = (
    verify_or_trust_fresh sqlite_store blake3 id cert s (no_cert id s missing)
        ∙ ap (λ t. (t, true)) (set_nothing id cert s missing),
    (can_read_iff sqlite_store id folder s).1 ∙ ap is_some (no_device id s missing),
  )

  -- A device whose row has no certificate is trusted with the first that it shows: from then on that
  -- certificate is accepted, every other is refused, and neither changes the store.
  pub verify_or_trust_pinned :
      (id : DeviceId) (cert : List ℕ) (row : DeviceRow) (s : SqliteStore)
      → lookup id s.devices ≡ some row
      → row.cert_der ≡ none
      → (t : SqliteStore) × (verify_or_trust sqlite_store blake3 id cert s ≡ (t, true))
        × (verify_or_trust sqlite_store blake3 id cert t ≡ (t, true))
        × ((other : List ℕ)
            → other ≢ cert
            → verify_or_trust sqlite_store blake3 id other t ≡ (t, false))
  verify_or_trust_pinned id cert row s found unpinned =
      let t = set_device_cert id cert s in
      let stored = stored_cert id cert row s found in
      (
        t,
        verify_or_trust_fresh sqlite_store blake3 id cert s (row_cert id s row found ∙ unpinned),
        verify_or_trust_known sqlite_store blake3 id cert cert t stored
            ∙ ap (λ b. (t, b)) (eq_refl cert),
        λ other different.
            verify_or_trust_known sqlite_store blake3 id other cert t stored
            ∙ ap (λ b. (t, b)) (ground (arith, eq_iff other cert, different)),
      )
