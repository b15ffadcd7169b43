-- ===== src/PairGate/Grants.antt =====
-- What the folder pairings of ferrisync-core/src/sync_engine/server.rs answer and store.
use ferri_sync.Prelude.{
  ℕ, ◌+◌, Bool, sym, false, Option-cases, ◌≡◌, refl, ap, ◌∙◌, true, Option, none, some, String,
  string_eq, pair_eq, nat_eq, eq_refl, contains, arith, inl, inr, Bool-cases,
}
use ferri_sync.Prelude.Int.{ℤ}
use ferri_sync.Prelude.Maps.{lookup, lookup-insert_self, insert}
use ferri_sync.Version.{DeviceId}
use ferri_sync.Protocol.{RemoteFolderPair, RemoteFolderPairRequest}
use ferri_sync.Storage.{Database}
use ferri_sync.Storage.Devices.{DeviceRow, upsert_row, upsert_device, get_device_name}
use ferri_sync.Storage.Folders.{add_folder_device, folder_id_for_guid, with_folder, with_pair}
use ferri_sync.Storage.References.{enforce, enforced, some_same}
use ferri_sync.Prelude.Options.{option_bind}
use ferri_sync.Storage.Sharing.{ensure_folder_by_guid, replica_or_new}
use ferri_sync.PairGate.FolderPairs.{
  FolderGate, approved, rejected, approve_folder_pair, request_folder_pair, deny_folder_pair,
  decide_request, answer_request, attach_peer, attach_pair, grant_of,
}

request_granted :
    (now : ℤ) (owner : DeviceId) (path : String) (req : RemoteFolderPairRequest) (g : FolderGate)
    (grant : RemoteFolderPair)
    → lookup (req.device_id, req.folder_guid) g.folder_approved ≡ some grant
    → request_folder_pair now owner path req g ≡ (g, approved grant)
unfolding request_folder_pair
request_granted now owner path req g grant h = ap (λ o. answer_request now owner path req g o) h

-- After a folder pairing is approved, whether or not the storage could attach the peer, a request of
-- the same device for the same folder is answered with the grant, at whatever path the share stands,
-- and changes nothing.
pub request-approve_folder_pair :
    (now later : ℤ) (owner asked : DeviceId) (guid name path path' : String)
    (remote : Option String) (req : RemoteFolderPairRequest) (g : FolderGate)
    → req.device_id ≡ asked
    → req.folder_guid ≡ guid
    → let g' = (approve_folder_pair now owner asked guid name path remote g).0 in
      request_folder_pair later owner path' req g' ≡ (g', approved (grant_of guid name remote))
unfolding approve_folder_pair
request-approve_folder_pair now later owner asked guid name path path' remote req g same_device
      same_guid =
    let g' = (approve_folder_pair now owner asked guid name path remote g).0 in
    let grant = grant_of guid name remote in
    request_granted later owner path' req g' grant (
      ap (λ k. lookup k (insert (asked, guid) grant g.folder_approved))
        (λ i. (same_device i, same_guid i))
      ∙ lookup-insert_self (asked, guid) grant g.folder_approved)

ungranted :
    (id : DeviceId) (guid : String) (g : FolderGate)
    → lookup (id, guid) g.folder_approved ≡ none
    → lookup (id, guid) (deny_folder_pair id guid g).folder_approved ≡ none
unfolding deny_folder_pair
ungranted id guid g h = h

denied_now :
    (id : DeviceId) (guid : String) (g : FolderGate)
    → contains (id, guid) (deny_folder_pair id guid g).folder_denied ≡ true
unfolding deny_folder_pair
denied_now id guid g = elim (Bool-cases (contains (id, guid) g.folder_denied)) [
  | inl old ↦ rw old old
  | inr new ↦ rw new (ground (arith, eq_refl {T = DeviceId × String} (id, guid)))
]

decide_denied :
    (now : ℤ) (owner : DeviceId) (path : String) (req : RemoteFolderPairRequest) (g : FolderGate)
    → contains (req.device_id, req.folder_guid) g.folder_denied ≡ true
    → decide_request now owner path req g ≡ (g, rejected)
unfolding decide_request
decide_denied now owner path req g h = rw h refl

-- A denied folder pairing, where none was granted before, is rejected whenever it is asked for.
pub request-deny_folder_pair :
    (now : ℤ) (owner : DeviceId) (path : String) (req : RemoteFolderPairRequest) (g : FolderGate)
    → lookup (req.device_id, req.folder_guid) g.folder_approved ≡ none
    → let g' = deny_folder_pair req.device_id req.folder_guid g in
      request_folder_pair now owner path req g' ≡ (g', rejected)
unfolding request_folder_pair
request-deny_folder_pair now owner path req g h =
    let g' = deny_folder_pair req.device_id req.folder_guid g in
    ap (λ o. answer_request now owner path req g' o) (ungranted req.device_id req.folder_guid g h)
    ∙ decide_denied now owner path req g' (denied_now req.device_id req.folder_guid g)

renamed_row :
    (now : ℤ) (name : String) (o : Option DeviceRow) → (upsert_row now name none none o).name ≡ name
unfolding upsert_row
renamed_row now name none = refl
renamed_row now name (some row) = refl

enforce-devices : (db db' : Database) → enforce db ≡ some db' → db'.devices ≡ db.devices
enforce-devices db db' e = ap Database.devices (sym (enforced db db' e).0)

replica-devices :
    (guid path name : String) (owner : DeviceId) (db : Database) (o : Option ℕ) (r : ℕ × Database)
    → replica_or_new guid path name owner db o ≡ some r
    → r.1.devices ≡ db.devices
replica-devices guid path name owner db none r e =
    let made = with_folder path name owner "bidirectional" guid db in
    elim (Option-cases (enforce made)) [
      | inl failed ↦ absurd (ground (arith, e, failed))
      | inr (db', kept) ↦
          ap (λ x. Database.devices x.1)
            (sym (
              some_same (db.last_folder + 1, db') r
                (sym (ap (λ o. option_bind o (λ db'. some (db.last_folder + 1, db'))) kept) ∙ e)))
          ∙ enforce-devices made db' kept
    ]
replica-devices guid path name owner db (some id) r e =
    ap (λ x. Database.devices x.1) (sym (some_same (id, db) r e))

abbrev pair_result : Option Database → Database → Database
pair_result o db =
    (elim o as (λ _. Database × Bool) [ none ↦ (db, false) | some db' ↦ (db', true) ]).0

attach_pair-devices :
    (asked : DeviceId) (remote : Option String) (db : Database) (o : Option (ℕ × Database))
    → ((r : ℕ × Database) → o ≡ some r → r.1.devices ≡ db.devices)
    → (attach_pair asked remote db o).0.devices ≡ db.devices
unfolding add_folder_device
attach_pair-devices asked remote db none h = refl
attach_pair-devices asked remote db (some (id, replica)) h =
    let paired = with_pair id asked "bidirectional" remote replica in
    elim (Option-cases (enforce paired)) [
      | inl failed ↦ ap (λ o. (pair_result o replica).devices) failed ∙ h (id, replica) refl
      | inr (db', kept) ↦
          ap (λ o. (pair_result o replica).devices) kept
          ∙ enforce-devices paired db' kept
          ∙ h (id, replica) refl
    ]

-- Approving a folder pairing gives the device of the peer the name of the folder.
pub approve_folder_pair-name :
    (now : ℤ) (owner asked : DeviceId) (guid name path : String) (remote : Option String)
    (g : FolderGate)
    → get_device_name asked
        (approve_folder_pair now owner asked guid name path remote g).0.storage.devices
      ≡ some name
unfolding approve_folder_pair attach_peer ensure_folder_by_guid upsert_device get_device_name
approve_folder_pair-name now owner asked guid name path remote g =
    let devices = upsert_device now asked name none none g.storage.devices in
    let db = record (g.storage) { devices = devices } in
    ap (λ m. get_device_name asked m)
      (attach_pair-devices asked remote db _
        (replica-devices guid path name owner db (folder_id_for_guid guid db)))
    ∙ ap
        (λ o. elim o as (λ _. Option String) [ none ↦ none | some row ↦ some (DeviceRow.name row) ])
        (lookup-insert_self asked (upsert_row now name none none (lookup asked g.storage.devices))
          g.storage.devices)
    ∙ ap some (renamed_row now name (lookup asked g.storage.devices))
