-- ===== src/Identity/Trust.antt =====
-- Trust on first use, over any store with the laws and over the store in memory.
use ferri_sync.Prelude.{
  ℕ, ◌≡◌, refl, ◌≢◌, true, List, none, some, string_eq, nat_eq, list_eq, ◌==◌, arith, is_some,
}
use ferri_sync.Version.{DeviceId}
use ferri_sync.Snapshot.{FolderId}
use ferri_sync.Domain.{Fingerprint}
use ferri_sync.Identity.{
  StateStore, StoreLaws, verify_peer, trust_first_use, verify_or_trust, check_permission, can_read,
  can_write,
}

module _ {S : Type 0} (store : StateStore S) (blake3 : List ℕ → Fingerprint) where
  pub verify_or_trust_known :
      (id : DeviceId) (cert stored : List ℕ) (s : S)
      → store.get_device_cert id s ≡ some stored
      → verify_or_trust store blake3 id cert s ≡ (s, cert == stored)
  unfolding verify_or_trust
  verify_or_trust_known id cert stored s e = rw (e, verify_or_trust) refl

  pub verify_or_trust_fresh :
      (id : DeviceId) (cert : List ℕ) (s : S)
      → store.get_device_cert id s ≡ none
      → verify_or_trust store blake3 id cert s ≡ (store.set_device_cert id cert s, true)
  unfolding verify_or_trust trust_first_use
  verify_or_trust_fresh id cert s fresh = rw (fresh, verify_or_trust) refl

module _ {S : Type 0} (store : StateStore S) (blake3 : List ℕ → Fingerprint)
    (laws : StoreLaws store blake3) where
  -- A device without a certificate is accepted whatever certificate it shows; from then on it is
  -- known and may write every folder, some device is found for its certificate, the answer
  -- to any certificate leaves the store as it is, and other devices are as before.
  pub verify_or_trust_first :
      (id : DeviceId) (cert : List ℕ) (s : S)
      → store.get_device_cert id s ≡ none
      → (t : S) × (verify_or_trust store blake3 id cert s ≡ (t, true))
        × ((folder : FolderId) → can_write store id folder t ≡ true)
        × (is_some (verify_peer store blake3 cert t) ≡ true)
        × ((other : List ℕ) → (verify_or_trust store blake3 id other t).0 ≡ t)
        × ((j : DeviceId) → id ≢ j → store.get_device j t ≡ store.get_device j s)
  unfolding verify_or_trust can_write check_permission verify_peer trust_first_use
  verify_or_trust_first id cert s fresh = (
    store.set_device_cert id cert s,
    verify_or_trust_fresh store blake3 id cert s fresh,
    λ folder. ground (arith, laws.set_known id cert s),
    laws.set_found id cert s,
    λ other. pinned other,
    λ j different. laws.set_others id j cert s different,
  )
    where
      pinned :
          (other : List ℕ)
          → (verify_or_trust store blake3 id other (store.set_device_cert id cert s)).0
            ≡ store.set_device_cert id cert s
      pinned other = ground (arith, laws.set_has_cert id cert s)

module _ {S : Type 0} (store : StateStore S) where
  -- A device may read exactly if it may write, and exactly if it is known.
  pub can_read_iff :
      (id : DeviceId) (folder : FolderId) (s : S)
      → (can_read store id folder s ≡ can_write store id folder s)
        × (can_write store id folder s ≡ is_some (store.get_device id s))
  unfolding can_read can_write check_permission
  can_read_iff id folder s = ground arith
