-- ===== src/Identity.antt =====
-- ferrisync-core/src/authorization: `IdentityVerifier` of identity.rs and `FolderAuthorizer` of
-- folder_auth.rs, over any `StateStore`.
pub mod Trust
use ferri_sync.Prelude.{
  ℕ, ◌≡◌, ◌≢◌, Bool, true, false, List, Option, none, some, nat_eq, list_eq, ◌==◌, if◌then◌else◌,
  is_some, leb,
}
use ferri_sync.Version.{DeviceId}
use ferri_sync.Snapshot.{FolderId}
use ferri_sync.Domain.{Device, Fingerprint}

-- What both use of the trait `StateStore`.
pub record StateStore (S : Type 0) : Type 0 where
  pub get_device : DeviceId → S → Option Device
  pub get_device_cert : DeviceId → S → Option (List ℕ)
  pub set_device_cert : DeviceId → List ℕ → S → S
  pub get_device_by_cert_fingerprint : Fingerprint → S → Option DeviceId

-- Laws of the trait that both rely on: a device whose certificate was set is known, has a
-- certificate, and its fingerprint is found; other devices are as before.
pub record StoreLaws {S : Type 0} (store : StateStore S) (blake3 : List ℕ → Fingerprint)
    : Type 0 where
  pub set_known :
      (id : DeviceId) (der : List ℕ) (s : S)
      → is_some (store.get_device id (store.set_device_cert id der s)) ≡ true
  pub set_has_cert :
      (id : DeviceId) (der : List ℕ) (s : S)
      → is_some (store.get_device_cert id (store.set_device_cert id der s)) ≡ true
  pub set_found :
      (id : DeviceId) (der : List ℕ) (s : S)
      → is_some (store.get_device_by_cert_fingerprint (blake3 der) (store.set_device_cert id der s))
        ≡ true
  pub set_others :
      (id j : DeviceId) (der : List ℕ) (s : S)
      → id ≢ j
      → store.get_device j (store.set_device_cert id der s) ≡ store.get_device j s

pub data Permission : Type 0 where
  denied read_only read_write : Permission

-- The derived order on `Permission`.
abbrev pub rank : Permission → ℕ
rank denied = 0
rank read_only = 1
rank read_write = 2

module _ {S : Type 0} (store : StateStore S) (blake3 : List ℕ → Fingerprint) where
  pub verify_peer : List ℕ → S → Option DeviceId
  verify_peer cert_der s = store.get_device_by_cert_fingerprint (blake3 cert_der) s

  pub trust_first_use : DeviceId → List ℕ → S → S
  trust_first_use device_id cert_der s = store.set_device_cert device_id cert_der s

  -- The answer and the store after it.
  pub verify_or_trust : DeviceId → List ℕ → S → S × Bool
  unfolding trust_first_use
  verify_or_trust device_id cert_der s = elim (store.get_device_cert device_id s) [
    | some stored_der ↦ (s, cert_der == stored_der)
    | none ↦ (trust_first_use device_id cert_der s, true)
  ]

module _ {S : Type 0} (store : StateStore S) where
  pub check_permission : DeviceId → FolderId → S → Permission
  check_permission device folder s =
      if is_some (store.get_device device s) then read_write else denied

  pub can_read : DeviceId → FolderId → S → Bool
  unfolding check_permission
  can_read device folder s = leb (rank read_only) (rank (check_permission device folder s))

  pub can_write : DeviceId → FolderId → S → Bool
  unfolding check_permission
  can_write device folder s = leb (rank read_write) (rank (check_permission device folder s))
