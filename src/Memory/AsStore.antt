-- ===== src/Memory/AsStore.antt =====
-- The store of memory.rs as the `StateStore` of authorization/identity.rs.
use ferri_sync.Prelude.{
  ℕ, ◌≡◌, refl, ap, ◌∙◌, ◌≢◌, true, false, List, [], ◌∷◌, Option, none, some, string_eq, nat_eq,
  list_eq, ◌==◌, eq_iff, eq_refl, arith, is_some, ◌⊎◌, inl, inr, Bool-cases, length,
}
use ferri_sync.Prelude.Maps.{HashMap, lookup, insert, lookup-insert_self, lookup-insert_ne}
use ferri_sync.Prelude.Options.{option_bind}
use ferri_sync.Version.{DeviceId}
use ferri_sync.Domain.{Device, Fingerprint}
use ferri_sync.Memory.{
  MemoryStore, get_device, get_device_cert, set_device_cert, get_device_by_cert_fingerprint,
  with_fingerprint, find_fingerprint,
}
use ferri_sync.Identity.Trust.{verify_or_trust_known, verify_or_trust_first, can_read_iff}
use ferri_sync.Identity.{StateStore, StoreLaws, verify_or_trust, verify_peer, can_read, can_write}
use ferri_sync.Snapshot.{FolderId}

module _ (blake3 : List ℕ → Fingerprint) where
  abbrev pub memory_store : StateStore MemoryStore
  unfolding get_device get_device_cert set_device_cert get_device_by_cert_fingerprint
  memory_store = record {
    get_device = get_device;
    get_device_cert = get_device_cert;
    set_device_cert = set_device_cert blake3;
    get_device_by_cert_fingerprint = get_device_by_cert_fingerprint;
  }

  set_row :
      (id : DeviceId) (der : List ℕ) (s : MemoryStore)
      → lookup id (set_device_cert blake3 id der s).devices
        ≡ some (with_fingerprint id (blake3 der) (lookup id s.devices))
  unfolding set_device_cert
  set_row id der s = lookup-insert_self id _ s.devices

  row_fingerprint :
      (id : DeviceId) (fp : Fingerprint) (o : Option Device)
      → (with_fingerprint id fp o).fingerprint ≡ some fp
  row_fingerprint id fp none = refl
  row_fingerprint id fp (some d) = refl

  stored_cert :
      (id : DeviceId) (der : List ℕ) (s : MemoryStore)
      → get_device_cert id (set_device_cert blake3 id der s) ≡ some (blake3 der)
  unfolding get_device_cert
  stored_cert id der s =
      ap (λ o. option_bind o (λ d. Device.fingerprint d)) (set_row id der s)
      ∙ row_fingerprint id (blake3 der) (lookup id s.devices)

  found_fingerprint :
      (id : DeviceId) (d : Device) (fp : Fingerprint) (m : HashMap DeviceId Device)
      → d.fingerprint ≡ some fp
      → is_some (find_fingerprint fp (insert id d m)) ≡ true
  unfolding insert
  found_fingerprint id d fp [] e = ground (arith, e, eq_refl fp)
  found_fingerprint id d fp ((j, c) ∷ m) e =
      ground (arith, e, eq_refl fp, found_fingerprint id d fp m e)

  -- The store in memory keeps the laws.
  pub memory_store-StoreLaws : StoreLaws memory_store blake3
  unfolding memory_store set_device_cert get_device get_device_by_cert_fingerprint
  memory_store-StoreLaws = record {
    set_known = λ id der s. ap is_some (set_row id der s);
    set_has_cert = λ id der s. ap is_some (stored_cert id der s);
    set_found = λ id der s.
        found_fingerprint id _ (blake3 der) s.devices
          (row_fingerprint id (blake3 der) (lookup id s.devices));
    set_others = λ id j der s different. lookup-insert_ne id j _ s.devices different;
  }

  pub read_cert :
      (id : DeviceId) (s : MemoryStore) → memory_store.get_device_cert id s ≡ get_device_cert id s
  unfolding memory_store
  read_cert id s = refl

  -- In memory a device without a certificate is accepted whatever certificate it shows; from then on
  -- it may read and write every folder, some device is found for its certificate, the answer to any
  -- certificate leaves the store as it is, and other devices are as before.
  pub verify_or_trust_new :
      (id : DeviceId) (cert : List ℕ) (s : MemoryStore)
      → get_device_cert id s ≡ none
      → (t : MemoryStore) × (verify_or_trust memory_store blake3 id cert s ≡ (t, true))
        × ((folder : FolderId)
            → (can_read memory_store id folder t ≡ true)
              × (can_write memory_store id folder t ≡ true))
        × (is_some (verify_peer memory_store blake3 cert t) ≡ true)
        × ((other : List ℕ) → (verify_or_trust memory_store blake3 id other t).0 ≡ t)
        × ((j : DeviceId) → id ≢ j → get_device j t ≡ get_device j s)
  unfolding memory_store
  verify_or_trust_new id cert s fresh =
      let (t, trusted, writes, found, pinned, others) =
        verify_or_trust_first memory_store blake3 memory_store-StoreLaws id cert s
          (read_cert id s ∙ fresh) in
      (
        t,
        trusted,
        λ folder. ((can_read_iff memory_store id folder t).0 ∙ writes folder, writes folder),
        found,
        pinned,
        others,
      )

  -- In memory what is compared with the certificate is the fingerprint that was stored for it: a
  -- device that shows the certificate it was trusted with is refused the next time. The condition
  -- is that the certificate is not as long as its hash.
  pub verify_or_trust_again :
      (id : DeviceId) (cert : List ℕ) (s : MemoryStore)
      → length cert ≢ length (blake3 cert)
      → (verify_or_trust memory_store blake3 id cert (set_device_cert blake3 id cert s)).1 ≡ false
  verify_or_trust_again id cert s longer =
      let t = set_device_cert blake3 id cert s in
      ap (λ r. r.1)
        (verify_or_trust_known memory_store blake3 id cert (blake3 cert) t
          (read_cert id t ∙ stored_cert id cert s))
      ∙ differs (Bool-cases (cert == blake3 cert))
    where
      differs :
          ((cert == blake3 cert) ≡ true) ⊎ ((cert == blake3 cert) ≡ false)
          → (cert == blake3 cert) ≡ false
      differs (inl same) = absurd (longer (ap length ((eq_iff cert (blake3 cert)).0 same)))
      differs (inr other) = other
