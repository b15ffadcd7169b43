-- ===== src/PairGate/FolderPairs.antt =====
-- Folder pairing: `approve_folder_pair`, `request_folder_pair` and `deny_folder_pair` of
-- ferrisync-core/src/sync_engine/server.rs, over the database of storage/mod.rs.
use ferri_sync.Prelude.{
  ℕ, Bool, true, false, not, ◌&&◌, ◌||◌, List, [], ◌∷◌, ◌++◌, Option, none, some, String, string_eq,
  pair_eq, ◌==◌, contains, if◌then◌else◌, is_some, keep,
}
use ferri_sync.Prelude.Int.{ℤ}
use ferri_sync.Prelude.Maps.{HashMap, lookup, insert}
use ferri_sync.Version.{DeviceId}
use ferri_sync.Protocol.{RemoteFolderPair, RemoteFolderPairRequest}
use ferri_sync.Storage.{Database}
use ferri_sync.Storage.Devices.{upsert_device, get_device_cert}
use ferri_sync.Storage.Folders.{add_folder_device}
use ferri_sync.Storage.Sharing.{ensure_folder_by_guid}

pub data FolderPairOutcome : Type 0 where
  pending rejected : FolderPairOutcome
  approved : RemoteFolderPair → FolderPairOutcome

-- The part of `PairGateInner` for folders, and the storage.
pub record FolderGate : Type 0 where
  pub folder_pending : List RemoteFolderPairRequest
  pub folder_approved : HashMap (DeviceId × String) RemoteFolderPair
  pub folder_denied : List (DeviceId × String)
  pub storage : Database

abbrev pub is_request : DeviceId → String → RemoteFolderPairRequest → Bool
is_request device_id folder_guid p = (p.device_id == device_id) && (p.folder_guid == folder_guid)

abbrev pub without_request :
    DeviceId → String → List RemoteFolderPairRequest → List RemoteFolderPairRequest
without_request device_id folder_guid ps = keep (λ p. not (is_request device_id folder_guid p)) ps

abbrev pub any_request : DeviceId → String → List RemoteFolderPairRequest → Bool
any_request device_id folder_guid [] = false
any_request device_id folder_guid (p ∷ ps) =
    is_request device_id folder_guid p || any_request device_id folder_guid ps

-- The statements on the storage, without a transaction: the peer's row, the replica, and the pair.
-- The database after them, and whether all succeeded.
abbrev pub attach_pair :
    DeviceId → Option String → Database → Option (ℕ × Database) → Database × Bool
attach_pair device_id remote_path db none = (db, false)
attach_pair device_id remote_path db (some (folder_id, replica)) =
    elim (add_folder_device folder_id device_id "bidirectional" remote_path replica) [
      | none ↦ (replica, false)
      | some paired ↦ (paired, true)
    ]

unfoldable pub attach_peer :
    ℤ → DeviceId → DeviceId → String → String → String → Option String → Database → Database × Bool
unfolding upsert_device ensure_folder_by_guid add_folder_device
attach_peer now owner_id device_id folder_guid name local_path remote_path db =
    let db' = record db { devices = upsert_device now device_id name none none db.devices } in
    attach_pair device_id remote_path db'
      (ensure_folder_by_guid folder_guid local_path name owner_id db')

abbrev pub grant_of : String → String → Option String → RemoteFolderPair
grant_of folder_guid name remote_path = record {
  folder_guid = folder_guid;
  name = name;
  mode = "bidirectional";
  remote_path = remote_path;
}

-- The grant is remembered before the statements; the second result is none when one of them fails.
unfoldable pub approve_folder_pair :
    ℤ
    → DeviceId
    → DeviceId
    → String
    → String
    → String
    → Option String
    → FolderGate
    → FolderGate × Option RemoteFolderPair
unfolding attach_peer
approve_folder_pair now owner_id device_id folder_guid name local_path remote_path g =
    let grant = grant_of folder_guid name remote_path in
    let (storage, attached) =
      attach_peer now owner_id device_id folder_guid name local_path remote_path g.storage in
    (
      record g {
        folder_pending = without_request device_id folder_guid g.folder_pending;
        folder_approved = insert (device_id, folder_guid) grant g.folder_approved;
        storage = storage;
      },
      if attached then some grant else none,
    )

-- `approve_folder_pair` for a trusted device; the share's path is the peer's remote path. When it
-- fails the request is held.
abbrev pub hold_failed :
    RemoteFolderPairRequest → FolderGate → Option RemoteFolderPair → FolderGate × FolderPairOutcome
hold_failed req g (some grant) = (g, approved grant)
hold_failed req g none = (record g { folder_pending = g.folder_pending ++ req ∷ [] }, pending)

unfoldable pub approve_trusted :
    ℤ → DeviceId → String → RemoteFolderPairRequest → FolderGate → FolderGate × FolderPairOutcome
unfolding approve_folder_pair
approve_trusted now owner_id local_path req g =
    let (g', grant) =
      approve_folder_pair now owner_id req.device_id req.folder_guid req.name local_path
        (some local_path) g in
    hold_failed req g' grant

-- What follows when there is no grant.
unfoldable pub decide_request :
    ℤ → DeviceId → String → RemoteFolderPairRequest → FolderGate → FolderGate × FolderPairOutcome
unfolding approve_trusted get_device_cert
decide_request now owner_id local_path req g =
    if contains (req.device_id, req.folder_guid) g.folder_denied
    then (g, rejected)
    else if is_some (get_device_cert req.device_id g.storage.devices)
    then approve_trusted now owner_id local_path req g
    else if any_request req.device_id req.folder_guid g.folder_pending
    then (g, pending)
    else (record g { folder_pending = g.folder_pending ++ req ∷ [] }, pending)

abbrev pub answer_request :
    ℤ
    → DeviceId
    → String
    → RemoteFolderPairRequest
    → FolderGate
    → Option RemoteFolderPair
    → FolderGate × FolderPairOutcome
answer_request now owner_id local_path req g (some grant) = (g, approved grant)
answer_request now owner_id local_path req g none = decide_request now owner_id local_path req g

unfoldable pub request_folder_pair :
    ℤ → DeviceId → String → RemoteFolderPairRequest → FolderGate → FolderGate × FolderPairOutcome
unfolding decide_request
request_folder_pair now owner_id local_path req g =
    answer_request now owner_id local_path req g
      (lookup (req.device_id, req.folder_guid) g.folder_approved)

-- `folder_denied` is a set: a member is not added again.
unfoldable pub deny_folder_pair : DeviceId → String → FolderGate → FolderGate
deny_folder_pair device_id folder_guid g = record g {
  folder_pending = without_request device_id folder_guid g.folder_pending;
  folder_denied =
      if contains (device_id, folder_guid) g.folder_denied
      then g.folder_denied
      else (device_id, folder_guid) ∷ g.folder_denied;
}
