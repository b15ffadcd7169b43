-- ===== src/Memory/Reach.antt =====
-- The calls of memory.rs that write, as steps, and the stores that they reach.
use ferri_sync.Prelude.{
  ℕ, refl, not, List, [], ◌∷◌, Option, some, String, string_eq, pair_eq, arith, contains,
}
use ferri_sync.Prelude.Int.{ℤ, int_eq}
use ferri_sync.Prelude.Maps.{insert-IsMap, remove-IsMap}
use ferri_sync.Prelude.Entries.{
  keep-All, insert-All, remove-All, adjust-All, adjust-IsMap, keep-IsMap,
}
use ferri_sync.Version.{DeviceId}
use ferri_sync.Snapshot.{FilePath, FolderId, Tombstone}
use ferri_sync.Domain.{Device, FileMetadata, HistoryEntry, SessionRecord}
use ferri_sync.Memory.Invariant.{
  IsStore, Below, DeviceKeyed, MetadataKeyed, insert-IsDevices, row_id, adjust-IsFolders,
  keep-IsFolders, remove_folders-IsFolders, add-IsFolders,
}
use ferri_sync.Memory.{
  MemoryStore, empty_store, upsert_device, remove_device, set_device_cert, set_device_last_addr,
  add_folder, remove_folder, set_folder_last_sync, set_folder_device, upsert_file_metadata,
  record_history, add_tombstone, record_session, clear_all_sync_state, remove_sync_folders,
  folder_ids_of,
}

-- One call of an operation that writes.
pub data Step (blake3 : List ℕ → List ℕ) : MemoryStore → MemoryStore → Type 0 where
  by_upsert_device : {s : MemoryStore} (d : Device) → Step blake3 s (upsert_device d s)
  by_remove_device : {s : MemoryStore} (id : DeviceId) → Step blake3 s (remove_device id s).0
  by_set_device_cert :
      {s : MemoryStore} (id : DeviceId) (der : List ℕ)
      → Step blake3 s (set_device_cert blake3 id der s)
  by_set_device_last_addr :
      {s : MemoryStore} (id : DeviceId) (addr : String)
      → Step blake3 s (set_device_last_addr id addr s)
  by_add_folder :
      {s : MemoryStore} (path : String) (id : DeviceId) (direction : String)
      → Below s.next_folder_id
      → Step blake3 s (add_folder path id direction s).0
  by_remove_folder : {s : MemoryStore} (id : FolderId) → Step blake3 s (remove_folder id s)
  by_set_folder_last_sync :
      {s : MemoryStore} (id : FolderId) (ts : ℤ) → Step blake3 s (set_folder_last_sync id ts s)
  by_set_folder_device :
      {s : MemoryStore} (id : FolderId) (d : DeviceId) → Step blake3 s (set_folder_device id d s)
  by_upsert_file_metadata :
      {s : MemoryStore} (meta : FileMetadata) → Step blake3 s (upsert_file_metadata meta s)
  by_record_history : {s : MemoryStore} (h : HistoryEntry) → Step blake3 s (record_history h s)
  by_add_tombstone : {s : MemoryStore} (t : Tombstone) → Step blake3 s (add_tombstone t s)
  by_record_session : {s : MemoryStore} (r : SessionRecord) → Step blake3 s (record_session r s)
  by_clear_all_sync_state : {s : MemoryStore} → Step blake3 s (clear_all_sync_state s).0
  by_remove_sync_folders :
      {s : MemoryStore} (path : String) (d : Option DeviceId)
      → Step blake3 s (remove_sync_folders path d s).0

-- Any number of calls from the store that `new` makes.
pub data Reachable (blake3 : List ℕ → List ℕ) : MemoryStore → Type 0 where
  at_new : Reachable blake3 empty_store
  after : {s t : MemoryStore} → Reachable blake3 s → Step blake3 s t → Reachable blake3 t

Step-IsStore :
    (blake3 : List ℕ → List ℕ) (s t : MemoryStore) → Step blake3 s t → IsStore s → IsStore t
unfolding upsert_device remove_device set_device_cert set_device_last_addr add_folder remove_folder
    set_folder_last_sync set_folder_device upsert_file_metadata record_history add_tombstone
    record_session clear_all_sync_state remove_sync_folders
Step-IsStore blake3 s _ (by_upsert_device d) i = record {
  devices = insert-IsDevices d.id d s.devices refl i.devices;
  folders = i.folders;
  metadata = i.metadata;
}
Step-IsStore blake3 s _ (by_remove_device id) i = record {
  devices = record {
    map = remove-IsMap id s.devices i.devices.map;
    keyed = remove-All DeviceKeyed id s.devices i.devices.keyed;
  };
  folders =
      remove_folders-IsFolders s.next_folder_id (folder_ids_of id s.folders) s.folders i.folders;
  metadata =
      let gone = λ (kv : (FolderId × FilePath) × FileMetadata).
        not (contains kv.0.0 (folder_ids_of id s.folders)) in
      record {
        map = keep-IsMap gone s.file_metadata i.metadata.map;
        keyed = keep-All MetadataKeyed gone s.file_metadata i.metadata.keyed;
      };
}
Step-IsStore blake3 s _ (by_set_device_cert id der) i = record {
  devices = insert-IsDevices id _ s.devices (row_id id (blake3 der) s.devices i.devices) i.devices;
  folders = i.folders;
  metadata = i.metadata;
}
Step-IsStore blake3 s _ (by_set_device_last_addr id addr) i = record {
  devices = record {
    map = adjust-IsMap id (λ d. record d { last_addr = some addr }) s.devices i.devices.map;
    keyed =
        adjust-All DeviceKeyed id (λ d. record d { last_addr = some addr }) s.devices (λ d e. e)
          i.devices.keyed;
  };
  folders = i.folders;
  metadata = i.metadata;
}
Step-IsStore blake3 s _ (by_add_folder path id direction b) i = record {
  devices = i.devices;
  folders = add-IsFolders s.next_folder_id _ s.folders refl b i.folders;
  metadata = i.metadata;
}
Step-IsStore blake3 s _ (by_remove_folder id) i = record {
  devices = i.devices;
  folders = remove_folders-IsFolders s.next_folder_id (id ∷ []) s.folders i.folders;
  metadata = i.metadata;
}
Step-IsStore blake3 s _ (by_set_folder_last_sync id ts) i = record {
  devices = i.devices;
  folders = adjust-IsFolders s.next_folder_id id _ s.folders (λ g. refl) i.folders;
  metadata = i.metadata;
}
Step-IsStore blake3 s _ (by_set_folder_device id d) i = record {
  devices = i.devices;
  folders = adjust-IsFolders s.next_folder_id id _ s.folders (λ g. refl) i.folders;
  metadata = i.metadata;
}
Step-IsStore blake3 s _ (by_upsert_file_metadata meta) i = record {
  devices = i.devices;
  folders = i.folders;
  metadata = record {
    map = insert-IsMap (meta.folder_id, meta.path) meta s.file_metadata i.metadata.map;
    keyed =
        insert-All MetadataKeyed (meta.folder_id, meta.path) meta s.file_metadata (refl, refl)
          i.metadata.keyed;
  };
}
Step-IsStore blake3 s _ (by_record_history h) i = record {
  devices = i.devices;
  folders = i.folders;
  metadata = i.metadata;
}
Step-IsStore blake3 s _ (by_add_tombstone t) i = record {
  devices = i.devices;
  folders = i.folders;
  metadata = i.metadata;
}
Step-IsStore blake3 s _ (by_record_session r) i = record {
  devices = i.devices;
  folders = i.folders;
  metadata = i.metadata;
}
Step-IsStore blake3 s _ by_clear_all_sync_state i = record {
  devices = record { map = tt; keyed = tt };
  folders = record {
    map = tt;
    keyed = tt;
    last_id = i.folders.last_id;
    next_is = i.folders.next_is;
    last_fits = i.folders.last_fits;
    below = tt;
  };
  metadata = record { map = tt; keyed = tt };
}
Step-IsStore blake3 s _ (by_remove_sync_folders path d) i = record {
  devices = i.devices;
  folders = keep-IsFolders s.next_folder_id _ s.folders i.folders;
  metadata = i.metadata;
}

-- Every store that the operations reach from the empty one keys devices, folders and metadata by
-- what they hold, and its folder ids are among the ids handed out so far.
pub Reachable-IsStore :
    (blake3 : List ℕ → List ℕ) (s : MemoryStore) → Reachable blake3 s → IsStore s
Reachable-IsStore blake3 _ at_new = record {
  devices = record { map = tt; keyed = tt };
  folders = record {
    map = tt;
    keyed = tt;
    last_id = 0;
    next_is = refl;
    last_fits = omega arith;
    below = tt;
  };
  metadata = record { map = tt; keyed = tt };
}
Reachable-IsStore blake3 _ (after {s} {t} r step) =
    Step-IsStore blake3 s t step (Reachable-IsStore blake3 s r)
