-- ===== src/PairGate/Operator.antt =====
-- What the gate of server.rs answers over the calls of its operator.
use ferri_sync.Prelude.{
  ℕ, ◌≡◌, refl, ap, sym, ◌∙◌, true, false, List, [], ◌∷◌, ◌++◌, Option, none, some, String,
  string_eq, nat_eq, list_eq, eq_iff, eq_refl, contains, arith, subst, is_some,
}
use ferri_sync.Prelude.Int.{ℤ}
use ferri_sync.Prelude.Maps.{HashMap, lookup, insert}
use ferri_sync.Prelude.Options.{option_bind}
use ferri_sync.Version.{DeviceId}
use ferri_sync.Storage.Devices.{
  DeviceRow, upsert_row, upsert_device, get_device_by_cert_fingerprint,
}
use ferri_sync.PairGate.{
  PairPolicy, confirm, PendingPairing, accept, hold, deny, Gate, find_pending, is_known, admit,
  approve_pairing, deny_pairing,
}

module _ (blake3 : List ℕ → List ℕ) where
  inserted_found :
      (id : DeviceId) (row : DeviceRow) (cert : List ℕ) (m : HashMap DeviceId DeviceRow)
      → row.cert_der ≡ some cert
      → is_some (get_device_by_cert_fingerprint blake3 (blake3 cert) (insert id row m)) ≡ true
  unfolding get_device_by_cert_fingerprint insert
  inserted_found id row cert [] e = ground (arith, e, eq_refl (blake3 cert))
  inserted_found id row cert ((j, r) ∷ m) e =
      ground (arith, e, eq_refl (blake3 cert), inserted_found id row cert m e)

  upsert_row-cert :
      (now : ℤ) (name : String) (cert : List ℕ) (o : Option DeviceRow)
      → (upsert_row now name (some cert) none o).cert_der ≡ some cert
  unfolding upsert_row
  upsert_row-cert now name cert none = refl
  upsert_row-cert now name cert (some row) = refl

  find_pending-append :
      (id : DeviceId) (ps : List PendingPairing) (p : PendingPairing)
      → find_pending id ps ≡ none
      → p.device_id ≡ id
      → find_pending id (ps ++ p ∷ []) ≡ some p
  find_pending-append id [] p h e = ground (arith, e, eq_iff p.device_id id)
  find_pending-append id (q ∷ ps) p h e = ground (arith, h, find_pending-append id ps p)

  admit_known :
      (policy : PairPolicy) (id : DeviceId) (name : String) (cert : Option (List ℕ)) (g : Gate)
      → is_known blake3 cert g ≡ true
      → admit blake3 policy id name cert g ≡ (g, accept, none)
  unfolding admit
  admit_known policy id name cert g h = ground (arith, h)

  admit_denied :
      (id : DeviceId) (name : String) (cert : Option (List ℕ)) (g : Gate)
      → is_known blake3 cert g ≡ false
      → contains id g.denied ≡ true
      → admit blake3 confirm id name cert g ≡ (g, deny, none)
  unfolding admit
  admit_denied id name cert g h d = ground (arith, h, d)

  admit_held :
      (id : DeviceId) (name : String) (cert : Option (List ℕ)) (g : Gate) (p : PendingPairing)
      → is_known blake3 cert g ≡ false
      → contains id g.denied ≡ false
      → find_pending id g.pending ≡ some p
      → admit blake3 confirm id name cert g ≡ (g, hold, none)
  unfolding admit
  admit_held id name cert g p h d w = ground (arith, h, d, w)

  abbrev queued : DeviceId → String → Option (List ℕ) → Gate → Gate
  queued id name cert g = record g {
    pending = g.pending ++ record { device_id = id; device_name = name; cert_der = cert } ∷ [];
  }

  admit_new :
      (id : DeviceId) (name : String) (cert : Option (List ℕ)) (g : Gate)
      → is_known blake3 cert g ≡ false
      → contains id g.denied ≡ false
      → find_pending id g.pending ≡ none
      → admit blake3 confirm id name cert g
        ≡ (queued id name cert g, hold, some (record { name = name; id = id }))
  unfolding admit
  admit_new id name cert g h d w = ground (arith, h, d, w)

  -- Being known is a matter of the table.
  is_known-devices :
      (cert : Option (List ℕ)) (g h : Gate)
      → g.devices ≡ h.devices
      → is_known blake3 cert g ≡ is_known blake3 cert h
  unfolding is_known
  is_known-devices none g h e = refl
  is_known-devices (some cert) g h e =
      ap (λ m. is_some (get_device_by_cert_fingerprint blake3 (blake3 cert) m)) e

  approved_known :
      (now : ℤ) (id : DeviceId) (name host_name : String) (cert : List ℕ) (g : Gate)
      → find_pending id g.pending ≡ none
      → is_known blake3
          (some cert)
          (approve_pairing now id host_name (queued id name (some cert) g))
        ≡ true
  unfolding is_known approve_pairing upsert_device
  approved_known now id name host_name cert g fresh = inserted_found id _ cert g.devices (
      ap
        (λ o. DeviceRow.cert_der (
          upsert_row now host_name (option_bind o (λ p. PendingPairing.cert_der p)) none
            (lookup id g.devices)))
        (find_pending-append id g.pending
          (record { device_id = id; device_name = name; cert_der = some cert }) fresh refl)
      ∙ upsert_row-cert now host_name cert (lookup id g.devices))

  -- Under `confirm`, an unknown device that was not denied is held, and the host hears of it once: a
  -- retry changes nothing and sends nothing. Once the host approves it, it is accepted with the
  -- certificate it showed first, whatever name it then uses.
  pub admit-approve_pairing :
      (now : ℤ) (id : DeviceId) (name host_name later : String) (cert : List ℕ) (g : Gate)
      → is_known blake3 (some cert) g ≡ false
      → contains id g.denied ≡ false
      → find_pending id g.pending ≡ none
      → let (held, answer, event) = admit blake3 confirm id name (some cert) g in
        (answer ≡ hold)
        × (event ≡ some (record { name = name; id = id }))
        × (admit blake3 confirm id later (some cert) held ≡ (held, hold, none))
        × ((admit blake3 confirm id later (some cert) (approve_pairing now id host_name held)).1
            ≡ accept)
  admit-approve_pairing now id name host_name later cert g unknown free fresh =
      let first = admit_new id name (some cert) g unknown free fresh in
      (
        ap (λ r. r.1) first,
        ap (λ r. r.2) first,
        subst (λ r. admit blake3 confirm id later (some cert) r.0 ≡ (r.0, hold, none)) (sym first)
            (admit_held id later (some cert) (queued id name (some cert) g)
              (record { device_id = id; device_name = name; cert_der = some cert })
              (is_known-devices (some cert) (queued id name (some cert) g) g refl ∙ unknown) free
              (find_pending-append id g.pending
                (record { device_id = id; device_name = name; cert_der = some cert }) fresh refl)),
        subst
            (λ r.
              (admit blake3 confirm id later (some cert) (approve_pairing now id host_name r.0)).1
              ≡ accept)
            (sym first)
            (ap (λ r. r.1)
              (admit_known confirm id later (some cert)
                (approve_pairing now id host_name (queued id name (some cert) g))
                (approved_known now id name host_name cert g fresh))),
      )

  -- A device that the host denied is refused, without an event and without a change of the gate, as
  -- long as its certificate is unknown.
  pub deny_pairing-admit :
      (id : DeviceId) (name : String) (cert : Option (List ℕ)) (g : Gate)
      → is_known blake3 cert g ≡ false
      → admit blake3 confirm id name cert (deny_pairing id g) ≡ (deny_pairing id g, deny, none)
  unfolding deny_pairing
  deny_pairing-admit id name cert g unknown =
      admit_denied id name cert (deny_pairing id g)
        (is_known-devices cert (deny_pairing id g) g (denied_devices id g) ∙ unknown)
        (now_denied id g)
    where
      denied_devices : (id : DeviceId) (g : Gate) → (deny_pairing id g).devices ≡ g.devices
      denied_devices id g = refl

      now_denied : (id : DeviceId) (g : Gate) → contains id (deny_pairing id g).denied ≡ true
      now_denied id g = ground (arith, eq_refl id)
