-- ===== src/Storage/Remapped.antt =====
-- Which rows of devices `reconcile_devices_by_cert` of ferrisync-core/src/storage/mod.rs remaps.
use ferri_sync.Prelude.{
  ℕ, ◌≡◌, ◌≢◌, refl, sym, ap, ◌∙◌, subst, Bool, true, false, not, List, [], ◌∷◌, Option, none, some,
  String, string_eq, nat_eq, pair_eq, ◌==◌, eq_iff, eq_refl, arith, inl, inr, Bool-cases,
}
use ferri_sync.Prelude.Maps.{
  HashMap, lookup, remove, contains_key, IsMap, lookup-remove, lookup-insert,
}
use ferri_sync.Prelude.Predicates.{All}
use ferri_sync.Version.{DeviceId}
use ferri_sync.Storage.Devices.{DeviceRow}
use ferri_sync.Storage.References.{some_same}
use ferri_sync.Storage.Unify.{
  remap_row, remap_rows, remap_self, remap_selves, remap_named, remap_stub, remap_stubs,
  remap_legacy, device_remap,
}
use ferri_sync.Storage.Repoint.{Remap}
use ferri_sync.Storage.Invariant.{insert-found, All-imp}

-- A row under an id that has its one certificate is the row of the table.
only_row :
    (k : DeviceId) (row : DeviceRow) (rows : HashMap DeviceId DeviceRow)
    → IsMap rows
    → lookup k rows ≡ some row
    → All (λ kv. (kv.0 == k) ≡ true → kv.1 ≡ row) rows
unfolding lookup
only_row k row [] unique found = tt
only_row k row ((j, first) ∷ rows) (fresh, unique) found = elim (Bool-cases (j == k)) [
  | inl hit ↦ (
    λ same. ground (arith, found, hit),
    absent k row rows (subst (λ i. lookup i rows ≡ none) ((eq_iff j k).0 hit) fresh),
  )
  | inr miss ↦ (
    λ same. absurd (ground (arith, same, miss)),
    only_row k row rows unique (ground (arith, found, miss)),
  )
]
  where
    absent :
        (k : DeviceId) (row : DeviceRow) (rows : HashMap DeviceId DeviceRow)
        → lookup k rows ≡ none
        → All (λ kv. (kv.0 == k) ≡ true → kv.1 ≡ row) rows
    absent k row [] h = tt
    absent k row ((j, first) ∷ rows) h = elim (Bool-cases (j == k)) [
      | inl hit ↦ absurd (ground (arith, h, hit))
      | inr miss ↦
          (λ same. absurd (ground (arith, same, miss)), absent k row rows (ground (arith, h, miss)))
    ]

module _ (cert_to_device_id : List ℕ → DeviceId) where
  -- A row without a certificate, or under the id of its certificate.
  abbrev pub is_canonical : DeviceId → Option (List ℕ) → Bool
  is_canonical id none = true
  is_canonical id (some cert) = cert_to_device_id cert == id

  row_kept :
      (k id : DeviceId) (cert : Option (List ℕ)) (r : Remap)
      → contains_key k r ≡ true
      → contains_key k (remap_row cert_to_device_id id cert r) ≡ true
  row_kept k id none r h = h
  row_kept k id (some cert) r h = ground (arith, h, insert-found id k (cert_to_device_id cert) r)

  rows_kept :
      (k : DeviceId) (rows : HashMap DeviceId DeviceRow) (r : Remap)
      → contains_key k r ≡ true
      → contains_key k (remap_rows cert_to_device_id rows r) ≡ true
  unfolding remap_rows
  rows_kept k [] r h = h
  rows_kept k ((id, row) ∷ rows) r h =
      rows_kept k rows (remap_row cert_to_device_id id row.cert_der r)
        (row_kept k id row.cert_der r h)

  row_covered :
      (id : DeviceId) (cert : Option (List ℕ)) (r : Remap)
      → is_canonical id cert ≡ false
      → contains_key id (remap_row cert_to_device_id id cert r) ≡ true
  row_covered id none r h = absurd (ground (arith, h))
  row_covered id (some cert) r h =
      ground (arith, h, lookup-insert id id (cert_to_device_id cert) r, eq_refl id)

  -- The first loop remaps a row that is not under the id of its certificate.
  found_covered :
      (rows : HashMap DeviceId DeviceRow) (r : Remap) (k : DeviceId) (row : DeviceRow)
      → lookup k rows ≡ some row
      → is_canonical k row.cert_der ≡ false
      → contains_key k (remap_rows cert_to_device_id rows r) ≡ true
  unfolding remap_rows lookup
  found_covered [] r k row found odd = absurd (ground (arith, found))
  found_covered ((j, first) ∷ rows) r k row found odd = elim (Bool-cases (j == k)) [
    | inl hit ↦
        let same : j ≡ k = (eq_iff j k).0 hit in
        let is_row : first ≡ row = some_same first row (rw hit at found) in
        rows_kept k rows _ (
          subst (λ i. contains_key k (remap_row cert_to_device_id i first.cert_der r) ≡ true)
            (sym same)
            (subst
              (λ f. contains_key k (remap_row cert_to_device_id k (DeviceRow.cert_der f) r) ≡ true)
              (sym is_row) (row_covered k row.cert_der r odd)))
    | inr miss ↦
        found_covered rows (remap_row cert_to_device_id j first.cert_der r) k row (rw miss at found)
          odd
  ]

  self_kept :
      (own k id : DeviceId) (cert : Option (List ℕ)) (r : Remap)
      → contains_key k r ≡ true
      → contains_key k (remap_self cert_to_device_id own id cert r) ≡ true
  self_kept own k id none r h = h
  self_kept own k id (some cert) r h = ground (arith, h, insert-found id k own r)

  selves_kept :
      (own k : DeviceId) (rows : HashMap DeviceId DeviceRow) (r : Remap)
      → contains_key k r ≡ true
      → contains_key k (remap_selves cert_to_device_id own rows r) ≡ true
  unfolding remap_selves
  selves_kept own k [] r h = h
  selves_kept own k ((id, row) ∷ rows) r h =
      selves_kept own k rows (remap_self cert_to_device_id own id row.cert_der r)
        (self_kept own k id row.cert_der r h)

  named_kept :
      (own k id : DeviceId) (o : Option (ℕ × DeviceId)) (r : Remap)
      → contains_key k r ≡ true
      → contains_key k (remap_named cert_to_device_id own id o r) ≡ true
  named_kept own k id none r h = h
  named_kept own k id (some (count, canonical)) r h =
      ground (arith, h, insert-found id k canonical r)

  stubs_kept :
      (names : HashMap String (ℕ × DeviceId)) (own k : DeviceId) (rows : HashMap DeviceId DeviceRow)
      (r : Remap)
      → contains_key k r ≡ true
      → contains_key k (remap_stubs cert_to_device_id names own rows r) ≡ true
  unfolding remap_stubs
  stubs_kept names own k [] r h = h
  stubs_kept names own k ((id, row) ∷ rows) r h =
      stubs_kept names own k rows (remap_stub cert_to_device_id names own id row r)
        (ground (arith, h, named_kept own k id (lookup row.name names) r))

  -- So does `remap` in the end, but for our own id.
  remap_covered :
      (own : DeviceId) (legacy : Option DeviceId) (rows : HashMap DeviceId DeviceRow) (k : DeviceId)
      → contains_key k
          (remap_rows cert_to_device_id rows (remap_legacy cert_to_device_id own legacy))
        ≡ true
      → (own == k) ≡ false
      → contains_key k (device_remap cert_to_device_id own legacy rows) ≡ true
  unfolding device_remap
  remap_covered own legacy rows k h other = stubs_kept _ own k rows _ (
      selves_kept own k rows _ (
        ground (
          arith,
          h,
          other,
          lookup-remove own k
              (remap_rows cert_to_device_id rows (remap_legacy cert_to_device_id own legacy)),
        )))

  -- What the loops do for a row that has the certificate of its own id.
  abbrev Stays : DeviceId → DeviceId × DeviceRow → Type 0
  Stays k kv =
      (kv.0 == k) ≡ true
      → (cert : List ℕ) × (DeviceRow.cert_der kv.1 ≡ some cert) × (cert_to_device_id cert ≡ k)

  row_free :
      (k id : DeviceId) (cert : Option (List ℕ)) (r : Remap)
      → ((id == k) ≡ true → (c : List ℕ) × (cert ≡ some c) × (cert_to_device_id c ≡ k))
      → contains_key k r ≡ false
      → contains_key k (remap_row cert_to_device_id id cert r) ≡ false
  row_free k id none r stays h = h
  row_free k id (some cert) r stays h = elim (Bool-cases (id == k)) [
    | inl hit ↦
        let (c, e, canonical) = stays hit in
        let same : cert_to_device_id cert ≡ id =
          ap cert_to_device_id (some_same cert c e) ∙ canonical ∙ sym ((eq_iff id k).0 hit) in
        rw ((eq_iff (cert_to_device_id cert) id).1 same) h
    | inr miss ↦ ground (arith, h, miss, lookup-insert id k (cert_to_device_id cert) r)
  ]

  rows_free :
      (k : DeviceId) (rows : HashMap DeviceId DeviceRow) (r : Remap)
      → All (Stays k) rows
      → contains_key k r ≡ false
      → contains_key k (remap_rows cert_to_device_id rows r) ≡ false
  unfolding remap_rows
  rows_free k [] r stays h = h
  rows_free k ((id, row) ∷ rows) r (one, stays) h =
      rows_free k rows _ stays (row_free k id row.cert_der r one h)

  self_free :
      (own k id : DeviceId) (cert : Option (List ℕ)) (r : Remap)
      → own ≢ k
      → ((id == k) ≡ true → (c : List ℕ) × (cert ≡ some c) × (cert_to_device_id c ≡ k))
      → contains_key k r ≡ false
      → contains_key k (remap_self cert_to_device_id own id cert r) ≡ false
  self_free own k id none r other stays h = h
  self_free own k id (some cert) r other stays h = elim (Bool-cases (id == k)) [
    | inl hit ↦
        let (c, e, canonical) = stays hit in
        let its : cert_to_device_id cert ≡ k =
          ap cert_to_device_id (some_same cert c e) ∙ canonical in
        elim (Bool-cases (cert_to_device_id cert == own)) [
          | inl ours ↦ absurd (other (sym ((eq_iff (cert_to_device_id cert) own).0 ours) ∙ its))
          | inr theirs ↦ rw theirs h
        ]
    | inr miss ↦ ground (arith, h, miss, lookup-insert id k own r)
  ]

  selves_free :
      (own k : DeviceId) (rows : HashMap DeviceId DeviceRow) (r : Remap)
      → own ≢ k
      → All (Stays k) rows
      → contains_key k r ≡ false
      → contains_key k (remap_selves cert_to_device_id own rows r) ≡ false
  unfolding remap_selves
  selves_free own k [] r other stays h = h
  selves_free own k ((id, row) ∷ rows) r other (one, stays) h =
      selves_free own k rows _ other stays (self_free own k id row.cert_der r other one h)

  named_free :
      (own k id : DeviceId) (o : Option (ℕ × DeviceId)) (r : Remap)
      → (id == k) ≡ false
      → contains_key k r ≡ false
      → contains_key k (remap_named cert_to_device_id own id o r) ≡ false
  named_free own k id none r miss h = h
  named_free own k id (some (count, canonical)) r miss h =
      ground (arith, h, miss, lookup-insert id k canonical r)

  stub_free :
      (names : HashMap String (ℕ × DeviceId)) (own k id : DeviceId) (row : DeviceRow) (r : Remap)
      → Stays k (id, row)
      → contains_key k r ≡ false
      → contains_key k (remap_stub cert_to_device_id names own id row r) ≡ false
  stub_free names own k id row r stays h = elim (Bool-cases (id == k)) [
    | inl hit ↦ let (c, e, canonical) = stays hit in rw e h
    | inr miss ↦ ground (arith, h, named_free own k id (lookup row.name names) r miss h)
  ]

  stubs_free :
      (names : HashMap String (ℕ × DeviceId)) (own k : DeviceId) (rows : HashMap DeviceId DeviceRow)
      (r : Remap)
      → All (Stays k) rows
      → contains_key k r ≡ false
      → contains_key k (remap_stubs cert_to_device_id names own rows r) ≡ false
  unfolding remap_stubs
  stubs_free names own k [] r stays h = h
  stubs_free names own k ((id, row) ∷ rows) r (one, stays) h =
      stubs_free names own k rows _ stays (stub_free names own k id row r one h)

  legacy_free :
      (own k : DeviceId) (legacy : Option DeviceId)
      → legacy ≢ some k
      → contains_key k (remap_legacy cert_to_device_id own legacy) ≡ false
  unfolding lookup
  legacy_free own k none other = refl
  legacy_free own k (some l) other = elim (Bool-cases (l == k)) [
    | inl hit ↦ absurd (other (ap (λ i. some i) ((eq_iff l k).0 hit)))
    | inr miss ↦ rw miss refl
  ]

  remap_free :
      (own : DeviceId) (legacy : Option DeviceId) (rows : HashMap DeviceId DeviceRow) (k : DeviceId)
      → own ≢ k
      → legacy ≢ some k
      → All (Stays k) rows
      → contains_key k (device_remap cert_to_device_id own legacy rows) ≡ false
  unfolding device_remap
  remap_free own legacy rows k other current stays =
      let first = remap_rows cert_to_device_id rows (remap_legacy cert_to_device_id own legacy) in
      let free =
        rows_free k rows (remap_legacy cert_to_device_id own legacy) stays
          (legacy_free own k legacy current) in
      stubs_free _ own k rows _ stays (
        selves_free own k rows (remove own first) other stays
          (ground (arith, free, lookup-remove own k first)))

  -- Whether a row with a certificate is remapped.
  pub remapped_iff :
      (own : DeviceId) (legacy : Option DeviceId) (rows : HashMap DeviceId DeviceRow) (k : DeviceId)
      (row : DeviceRow) (cert : List ℕ)
      → IsMap rows
      → own ≢ k
      → legacy ≢ some k
      → lookup k rows ≡ some row
      → row.cert_der ≡ some cert
      → contains_key k (device_remap cert_to_device_id own legacy rows)
        ≡ not (cert_to_device_id cert == k)
  remapped_iff own legacy rows k row cert unique other current found has =
      elim (Bool-cases (cert_to_device_id cert == k)) [
        | inl hit ↦
            remap_free own legacy rows k other current (
              All-imp _ (Stays k)
                (λ kv only same. (
                  cert,
                  ap (λ r. DeviceRow.cert_der r) (only same) ∙ has,
                  (eq_iff (cert_to_device_id cert) k).0 hit,
                ))
                rows (only_row k row rows unique found))
            ∙ ap not (sym hit)
        | inr miss ↦
            remap_covered own legacy rows k
              (found_covered rows (remap_legacy cert_to_device_id own legacy) k row found
                (ap (is_canonical k) has ∙ miss))
              (different own k other)
            ∙ ap not (sym miss)
      ]
    where
      different : (i j : DeviceId) → i ≢ j → (i == j) ≡ false
      different i j other = elim (Bool-cases (i == j)) [
        | inl same ↦ absurd (other ((eq_iff i j).0 same))
        | inr miss ↦ miss
      ]
