-- ===== src/PairGate.antt =====
-- Device pairing: `PairGate` and the pairing calls of `ServeHandle` of
-- ferrisync-core/src/sync_engine/server.rs, over the device table of storage/mod.rs.
pub mod Operator
pub mod FolderPairs
pub mod Grants
pub mod Tests
use ferri_sync.Prelude.{
  ℕ, Bool, true, false, not, ◌||◌, List, [], ◌∷◌, ◌++◌, Option, none, some, String, string_eq,
  nat_eq, list_eq, ◌==◌, contains, if◌then◌else◌, is_some, keep,
}
use ferri_sync.Prelude.Int.{ℤ}
use ferri_sync.Prelude.Maps.{HashMap, lookup, insert}
use ferri_sync.Prelude.Options.{option_bind}
use ferri_sync.Version.{DeviceId}
use ferri_sync.Storage.Devices.{DeviceRow, upsert_device, get_device_by_cert_fingerprint}

pub data PairPolicy : Type 0 where
  auto_accept confirm : PairPolicy

pub record PendingPairing : Type 0 where
  pub device_id : DeviceId
  pub device_name : String
  pub cert_der : Option (List ℕ)

pub data Admission : Type 0 where
  accept hold deny : Admission

-- The part of `PairGateInner` for devices, and the table.
pub record Gate : Type 0 where
  pub pending : List PendingPairing
  pub denied : List DeviceId
  pub devices : HashMap DeviceId DeviceRow

-- `SyncEvent::PairRequested`
pub record PairRequested : Type 0 where
  pub name : String
  pub id : DeviceId

abbrev pub find_pending : DeviceId → List PendingPairing → Option PendingPairing
find_pending id [] = none
find_pending id (p ∷ ps) = if p.device_id == id then some p else find_pending id ps

abbrev pub is_auto_accept : PairPolicy → Bool
is_auto_accept auto_accept = true
is_auto_accept confirm = false

module _ (blake3 : List ℕ → List ℕ) where
  pub is_known : Option (List ℕ) → Gate → Bool
  unfolding get_device_by_cert_fingerprint
  is_known none g = false
  is_known (some cert) g = is_some (get_device_by_cert_fingerprint blake3 (blake3 cert) g.devices)

  -- The gate after it, the answer, and the event that is sent, if any.
  pub admit :
      PairPolicy
      → DeviceId
      → String
      → Option (List ℕ)
      → Gate
      → Gate × Admission × Option PairRequested
  unfolding is_known
  admit policy device_id device_name cert_der g =
      if is_known cert_der g || is_auto_accept policy
      then (g, accept, none)
      else if contains device_id g.denied
      then (g, deny, none)
      else if is_some (find_pending device_id g.pending)
      then (g, hold, none)
      else (
        record g {
          pending =
              g.pending
              ++ record { device_id = device_id; device_name = device_name; cert_der = cert_der }
                ∷ [];
        },
        hold,
        some (record { name = device_name; id = device_id }),
      )

abbrev pub without : DeviceId → List PendingPairing → List PendingPairing
without id ps = keep (λ p. not (p.device_id == id)) ps

pub approve_pairing : ℤ → DeviceId → String → Gate → Gate
unfolding upsert_device
approve_pairing now device_id device_name g =
    let cert_der =
      option_bind (find_pending device_id g.pending) (λ p. PendingPairing.cert_der p) in
    record g {
      devices = upsert_device now device_id device_name cert_der none g.devices;
      pending = without device_id g.pending;
    }

-- `denied` is a set: a member is not added again.
pub deny_pairing : DeviceId → Gate → Gate
deny_pairing device_id g = record g {
  pending = without device_id g.pending;
  denied = if contains device_id g.denied then g.denied else device_id ∷ g.denied;
}
