-- ===== src/Memory.antt =====
-- ferrisync-core/src/persistence/memory.rs: `InMemoryStateStore`, the store behind `StateStore`.
-- Every operation succeeds, so each gives its value, the state after it, or both.
pub mod Invariant
pub mod Reach
pub mod Removal
pub mod Folders
pub mod AsStore
pub mod Tests
use ferri_sync.Prelude.{
  ℕ, ◌+◌, ◌-◌, Bool, true, false, not, ◌&&◌, ◌||◌, List, [], ◌∷◌, ◌++◌, map, Option, none, some,
  String, string_eq, Eq, pair_eq, list_eq, nat_eq, ◌==◌, contains, if◌then◌else◌, is_some, leb,
  length, take, keep, reverse_onto,
}
use ferri_sync.Prelude.Int.{ℤ, pos, int_eq, int_leb, i64_inc}
use ferri_sync.Prelude.Maps.{HashMap, lookup, insert, remove, values, adjust}
use ferri_sync.Prelude.Options.{option_or, option_bind, as_usize}
use ferri_sync.Version.{DeviceId}
use ferri_sync.Snapshot.{FilePath, FolderId, Tombstone}
use ferri_sync.Domain.{
  Device, Fingerprint, Folder, FileMetadata, HistoryEntry, SessionRecord, DeviceCleanup,
  SyncDirection, bidirectional, parse_direction,
}

pub record MemoryStore : Type 0 where
  pub devices : HashMap DeviceId Device
  pub folders : HashMap FolderId Folder
  pub file_metadata : HashMap (FolderId × FilePath) FileMetadata
  pub history : List HistoryEntry
  pub tombstones : List Tombstone
  pub sessions : List SessionRecord
  pub next_folder_id : ℤ

abbrev pub empty_store : MemoryStore
empty_store = record {
  devices = [];
  folders = [];
  file_metadata = [];
  history = [];
  tombstones = [];
  sessions = [];
  next_folder_id = pos 0;
}

-- `sort_by_key(|f| f.id.0)`
abbrev pub insert_by_id : Folder → List Folder → List Folder
insert_by_id f [] = f ∷ []
insert_by_id f (g ∷ gs) = if int_leb f.id g.id then f ∷ g ∷ gs else g ∷ insert_by_id f gs

abbrev pub sort_by_id : List Folder → List Folder
sort_by_id [] = []
sort_by_id (f ∷ fs) = insert_by_id f (sort_by_id fs)

unfoldable pub get_device : DeviceId → MemoryStore → Option Device
get_device id s = lookup id s.devices

unfoldable pub upsert_device : Device → MemoryStore → MemoryStore
upsert_device d s = record s { devices = insert d.id d s.devices }

unfoldable pub list_devices : MemoryStore → List Device
list_devices s = values s.devices

-- The loop over the folder ids: the map after it and the number of folders removed.
pub remove_folders : List FolderId → HashMap FolderId Folder → HashMap FolderId Folder × ℕ
remove_folders [] folders = (folders, 0)
remove_folders (fid ∷ fids) folders =
    let removed = as_usize (is_some (lookup fid folders)) in
    let (rest, count) = remove_folders fids (remove fid folders) in (rest, removed + count)

abbrev pub folder_ids_of : DeviceId → HashMap FolderId Folder → List FolderId
folder_ids_of id folders =
    map (λ f. Folder.id f) (keep (λ f. Folder.device_id f == id) (values folders))

unfoldable pub remove_device : DeviceId → MemoryStore → MemoryStore × DeviceCleanup
unfolding remove_folders
remove_device id s =
    let device_removed = as_usize (is_some (lookup id s.devices)) in
    let fids = folder_ids_of id s.folders in
    let (folders, folders_removed) = remove_folders fids s.folders in
    let metadata = keep (λ kv. not (contains (kv.0.0) fids)) s.file_metadata in
    let history =
      keep
        (λ e.
          not (HistoryEntry.device_id e == id) && not (contains (HistoryEntry.folder_id e) fids))
        s.history in
    let sessions = keep (λ r. not (SessionRecord.peer_device r == id)) s.sessions in
    (
      record s {
        devices = remove id s.devices;
        folders = folders;
        file_metadata = metadata;
        history = history;
        sessions = sessions;
      },
      record {
        sessions_removed = length s.sessions - length sessions;
        history_removed = length s.history - length history;
        metadata_removed = length (keep (λ kv. contains (kv.0.0) fids) s.file_metadata);
        folders_removed = folders_removed;
        device_removed = device_removed;
      },
    )

pub get_device_cert : DeviceId → MemoryStore → Option Fingerprint
get_device_cert id s = option_bind (lookup id s.devices) (λ d. Device.fingerprint d)

-- The row of a device with a new fingerprint: the one that stands there, or a fresh one.
abbrev pub with_fingerprint : DeviceId → Fingerprint → Option Device → Device
with_fingerprint id fp (some d) = record d { fingerprint = some fp }
with_fingerprint id fp none = record {
  id = id;
  name = "";
  fingerprint = some fp;
  last_seen = none;
  last_addr = none;
}

-- `from_der` hashes with blake3, a library: a parameter.
module _ (blake3 : List ℕ → Fingerprint) where
  pub set_device_cert : DeviceId → List ℕ → MemoryStore → MemoryStore
  set_device_cert id cert_der s =
      let d = with_fingerprint id (blake3 cert_der) (lookup id s.devices) in
      record s { devices = insert id d s.devices }

-- `values().find(..)`: the first in the order of iteration.
abbrev pub find_fingerprint : Fingerprint → HashMap DeviceId Device → Option DeviceId
find_fingerprint fp [] = none
find_fingerprint fp ((k, d) ∷ m) =
    if has_fingerprint fp d.fingerprint then some d.id else find_fingerprint fp m
  where
    has_fingerprint : Fingerprint → Option Fingerprint → Bool
    has_fingerprint fp none = false
    has_fingerprint fp (some g) = g == fp

pub get_device_by_cert_fingerprint : Fingerprint → MemoryStore → Option DeviceId
get_device_by_cert_fingerprint fp s = find_fingerprint fp s.devices

unfoldable pub device_last_addr : DeviceId → MemoryStore → Option String
device_last_addr id s = option_bind (lookup id s.devices) (λ d. Device.last_addr d)

unfoldable pub set_device_last_addr : DeviceId → String → MemoryStore → MemoryStore
set_device_last_addr id addr s = record s {
  devices = adjust id (λ d. record d { last_addr = some addr }) s.devices;
}

unfoldable pub get_folder : FolderId → MemoryStore → Option Folder
get_folder id s = lookup id s.folders

unfoldable pub list_folders : MemoryStore → List Folder
list_folders s = sort_by_id (values s.folders)

unfoldable pub add_folder : String → DeviceId → String → MemoryStore → MemoryStore × FolderId
add_folder local_path device_id direction s =
    let id = i64_inc s.next_folder_id in
    let folder : Folder = record {
      id = id;
      local_path = local_path;
      device_id = device_id;
      direction = option_or (parse_direction direction) bidirectional;
      last_sync_at = none;
    } in
    (record s { folders = insert id folder s.folders; next_folder_id = id }, id)

unfoldable pub remove_folder : FolderId → MemoryStore → MemoryStore
remove_folder id s = record s { folders = remove id s.folders }

unfoldable pub set_folder_last_sync : FolderId → ℤ → MemoryStore → MemoryStore
set_folder_last_sync id ts s = record s {
  folders = adjust id (λ f. record f { last_sync_at = some ts }) s.folders;
}

unfoldable pub set_folder_device : FolderId → DeviceId → MemoryStore → MemoryStore
set_folder_device id device_id s = record s {
  folders = adjust id (λ f. record f { device_id = device_id }) s.folders;
}

pub get_file_metadata : FolderId → FilePath → MemoryStore → Option FileMetadata
get_file_metadata folder_id path s = lookup (folder_id, path) s.file_metadata

unfoldable pub upsert_file_metadata : FileMetadata → MemoryStore → MemoryStore
upsert_file_metadata meta s = record s {
  file_metadata = insert (meta.folder_id, meta.path) meta s.file_metadata;
}

unfoldable pub record_history : HistoryEntry → MemoryStore → MemoryStore
record_history entry s = record s { history = s.history ++ entry ∷ [] }

pub get_tombstones : FolderId → ℕ → MemoryStore → List Tombstone
get_tombstones folder_id since s =
    keep (λ t. (Tombstone.folder_id t == folder_id) && leb since (Tombstone.deleted_at t))
      s.tombstones

unfoldable pub add_tombstone : Tombstone → MemoryStore → MemoryStore
add_tombstone tomb s = record s { tombstones = s.tombstones ++ tomb ∷ [] }

unfoldable pub record_session : SessionRecord → MemoryStore → MemoryStore
record_session session s = record s { sessions = s.sessions ++ session ∷ [] }

pub list_recent_sessions : ℕ → MemoryStore → List SessionRecord
list_recent_sessions limit s = take limit (reverse_onto s.sessions [])

unfoldable pub clear_all_sync_state : MemoryStore → MemoryStore × ℕ × ℕ
clear_all_sync_state s = (
  record s { folders = []; devices = []; file_metadata = []; history = [] },
  length s.folders,
  length s.devices,
)

-- Whether `remove_sync_folders` keeps a folder.
abbrev pub other_device : Option DeviceId → Folder → Bool
other_device none f = false
other_device (some dev) f = not (f.device_id == dev)

abbrev pub stays : String → Option DeviceId → Folder → Bool
stays local_path device_id f = if f.local_path == local_path then other_device device_id f else true

unfoldable pub remove_sync_folders : String → Option DeviceId → MemoryStore → MemoryStore × ℕ
remove_sync_folders local_path device_id s =
    let kept = keep (λ kv. stays local_path device_id (kv.1)) s.folders in
    (record s { folders = kept }, length s.folders - length kept)
