-- ===== src/Memory/Removal.antt =====
-- What `remove_device` of memory.rs leaves behind and what it counts.
use ferri_sync.Prelude.{
  ◌+◌, ◌≡◌, refl, ap, ◌∙◌, Bool, false, not, ◌&&◌, List, [], ◌∷◌, Option, none, some, string_eq,
  pair_eq, ◌==◌, eq_iff, arith, if◌then◌else◌, keep, contains, length, length-keep-le,
}
use ferri_sync.Prelude.Int.{int_eq}
use ferri_sync.Prelude.Maps.{HashMap, lookup, remove, IsMap, remove-IsMap, lookup-remove}
use ferri_sync.Prelude.Predicates.{All}
use ferri_sync.Prelude.Entries.{
  keep-cong, All-every, keep-keep, remove-keep, length-remove, entries-lookup, length-keep-not,
}
use ferri_sync.Version.{DeviceId}
use ferri_sync.Snapshot.{FolderId}
use ferri_sync.Domain.{Folder}
use ferri_sync.Memory.{MemoryStore, remove_folders, remove_device, folder_ids_of, get_device}
use ferri_sync.Memory.Invariant.{IsStore, FolderKeyed}

-- The loop removes exactly the ids of the list.
remove_folders-keep :
    (fids : List FolderId) (m : HashMap FolderId Folder)
    → (remove_folders fids m).0 ≡ keep (λ kv. not (contains kv.0 fids)) m
unfolding remove_folders
remove_folders-keep [] [] = refl
remove_folders-keep [] (kv ∷ m) = ap (λ l. kv ∷ l) (remove_folders-keep [] m)
remove_folders-keep (fid ∷ fids) m =
    remove_folders-keep fids (remove fid m)
    ∙ ap (λ l. keep (λ kv. not (contains kv.0 fids)) l) (remove-keep fid m)
    ∙ keep-keep (λ kv. not (contains kv.0 fids)) (λ kv. not (kv.0 == fid)) m
    ∙ keep-cong (λ kv. if not (kv.0 == fid) then not (contains kv.0 fids) else false)
        (λ kv. not (contains kv.0 (fid ∷ fids))) m (same m)
  where
    same :
        (l : HashMap FolderId Folder)
        → All
            (λ kv.
              (if not (kv.0 == fid) then not (contains kv.0 fids) else false)
              ≡ not (contains kv.0 (fid ∷ fids)))
            l
    same [] = tt
    same ((k, f) ∷ l) = (ground (arith, eq_iff k fid, eq_iff fid k), same l)

-- Every folder that the loop counts is one that it removes.
remove_folders-count :
    (fids : List FolderId) (m : HashMap FolderId Folder)
    → IsMap m
    → (remove_folders fids m).1 + length (remove_folders fids m).0 ≡ length m
unfolding remove_folders
remove_folders-count [] m h = omega arith
remove_folders-count (fid ∷ fids) m h =
    omega (
      arith,
      remove_folders-count fids (remove fid m) (remove-IsMap fid m h),
      length-remove fid m h,
    )

-- Whether a key is among the ids of a device's folders.
abbrev owned : DeviceId → Option Folder → Bool
owned id none = false
owned id (some f) = f.device_id == id

contains-folder_ids_of :
    (id : DeviceId) (k : FolderId) (m : HashMap FolderId Folder)
    → IsMap m
    → All FolderKeyed m
    → contains k (folder_ids_of id m) ≡ owned id (lookup k m)
unfolding lookup
contains-folder_ids_of id k [] h keyed = refl
contains-folder_ids_of id k ((j, f) ∷ m) (fresh, h) (e, keyed) =
    ground (arith, e, fresh, eq_iff j k, eq_iff f.id k, contains-folder_ids_of id k m h keyed)

-- Whether a row belongs to a folder of the device, by the folders of the store.
abbrev pub in_folder_of : DeviceId → MemoryStore → FolderId → Bool
in_folder_of id s fid = owned id (lookup fid s.folders)

-- In a store that satisfies the invariant, removing a device takes away its row, its folders, the
-- metadata and history of its folders, its own history and its sessions, and nothing else: the
-- other rows stay in their order, and tombstones and the id counter are untouched.
pub remove_device_exact :
    (id : DeviceId) (s : MemoryStore)
    → IsStore s
    → let t = (remove_device id s).0 in
      ((j : DeviceId) → get_device j t ≡ (if id == j then none else get_device j s))
      × (t.folders ≡ keep (λ kv. not (kv.1.device_id == id)) s.folders)
      × (t.file_metadata ≡ keep (λ kv. not (in_folder_of id s kv.0.0)) s.file_metadata)
      × (t.history
          ≡ keep (λ e. not (e.device_id == id) && not (in_folder_of id s e.folder_id)) s.history)
      × (t.sessions ≡ keep (λ r. not (r.peer_device == id)) s.sessions)
      × (t.tombstones ≡ s.tombstones)
      × (t.next_folder_id ≡ s.next_folder_id)
unfolding remove_device get_device
remove_device_exact id s i = (
  λ j. lookup-remove id j s.devices,
  remove_folders-keep (folder_ids_of id s.folders) s.folders
      ∙ keep-cong _ _ s.folders (own_ids s.folders (entries-lookup s.folders i.folders.map)),
  keep-cong _ _ s.file_metadata (All-every _ (λ kv. ap not (owners kv.0.0)) s.file_metadata),
  keep-cong _ _ s.history (
      All-every _ (λ e. ap (λ b. not (e.device_id == id) && not b) (owners e.folder_id)) s.history),
  refl,
  refl,
  refl,
)
  where
    owners : (k : FolderId) → contains k (folder_ids_of id s.folders) ≡ in_folder_of id s k
    owners k = contains-folder_ids_of id k s.folders i.folders.map i.folders.keyed

    own_ids :
        (l : HashMap FolderId Folder)
        → All (λ kv. lookup kv.0 s.folders ≡ some kv.1) l
        → All
            (λ kv. not (contains kv.0 (folder_ids_of id s.folders)) ≡ not (kv.1.device_id == id))
            l
    own_ids [] h = tt
    own_ids ((k, f) ∷ l) (found, h) = (ap not (owners k ∙ ap (owned id) found), own_ids l h)

-- The counts that `remove_device` returns are the numbers of rows that it took away.
pub remove_device_counts :
    (id : DeviceId) (s : MemoryStore)
    → IsStore s
    → let (t, c) = remove_device id s in
      (c.device_removed + length t.devices ≡ length s.devices)
      × (c.folders_removed + length t.folders ≡ length s.folders)
      × (c.metadata_removed + length t.file_metadata ≡ length s.file_metadata)
      × (c.history_removed + length t.history ≡ length s.history)
      × (c.sessions_removed + length t.sessions ≡ length s.sessions)
unfolding remove_device
remove_device_counts id s i = (
  length-remove id s.devices i.devices.map,
  remove_folders-count (folder_ids_of id s.folders) s.folders i.folders.map,
  length-keep-not (λ kv. contains kv.0.0 (folder_ids_of id s.folders)) s.file_metadata,
  omega (arith, length-keep-le _ s.history),
  omega (arith, length-keep-le _ s.sessions),
)
