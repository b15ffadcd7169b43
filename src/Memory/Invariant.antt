-- ===== src/Memory/Invariant.antt =====
-- The invariant of the store of memory.rs: what each map holds under which key.
use ferri_sync.Prelude.{
  ℕ, ◌+◌, ◌-◌, ◌≤◌, ◌<◌, ◌^◌, ◌≡◌, refl, ap, ◌∙◌, ◌≢◌, Bool, List, [], ◌∷◌, string_eq, pair_eq,
  arith, ltb, Bool-cases, Option-cases, inl, inr, keep,
}
use ferri_sync.Prelude.Int.{ℤ, pos, int_eq, i64_inc}
use ferri_sync.Prelude.Maps.{
  HashMap, lookup, insert, remove, adjust, IsMap, insert-IsMap, remove-IsMap,
}
use ferri_sync.Prelude.Predicates.{All}
use ferri_sync.Prelude.Entries.{
  keep-All, insert-All, remove-All, lookup-All, adjust-All, adjust-IsMap, keep-IsMap,
}
use ferri_sync.Version.{DeviceId}
use ferri_sync.Snapshot.{FilePath, FolderId}
use ferri_sync.Domain.{Device, Folder, FileMetadata}
use ferri_sync.Memory.{MemoryStore, remove_folders, with_fingerprint}

abbrev pub DeviceKeyed : DeviceId × Device → Type 0
DeviceKeyed kv = kv.1.id ≡ kv.0

abbrev pub FolderKeyed : FolderId × Folder → Type 0
FolderKeyed kv = kv.1.id ≡ kv.0

abbrev pub MetadataKeyed : (FolderId × FilePath) × FileMetadata → Type 0
MetadataKeyed kv = (kv.1.folder_id ≡ kv.0.0) × (kv.1.path ≡ kv.0.1)

-- The ids that were handed out are natural numbers up to `n`.
abbrev pub HandedOut : ℕ → FolderId × Folder → Type 0
HandedOut n kv = (k : ℕ) × (kv.0 ≡ pos k) × (k ≤ n)

pub record IsDevices (devices : HashMap DeviceId Device) : Type 0 where
  pub map : IsMap devices
  pub keyed : All DeviceKeyed devices

pub record IsMetadata (metadata : HashMap (FolderId × FilePath) FileMetadata) : Type 0 where
  pub map : IsMap metadata
  pub keyed : All MetadataKeyed metadata

pub record IsFolders (next : ℤ) (folders : HashMap FolderId Folder) : Type 0 where
  pub map : IsMap folders
  pub keyed : All FolderKeyed folders
  pub last_id : ℕ
  pub next_is : next ≡ pos last_id
  pub last_fits : last_id < 2 ^ 63
  pub below : All (HandedOut last_id) folders

pub record IsStore (s : MemoryStore) : Type 0 where
  pub devices : IsDevices s.devices
  pub folders : IsFolders s.next_folder_id s.folders
  pub metadata : IsMetadata s.file_metadata

-- The next id is not the last of `i64`.
abbrev pub Below : ℤ → Type 0
Below next = next ≢ pos (2 ^ 63 - 1)

remove_folders-All :
    (P : FolderId × Folder → Type 0) (fids : List FolderId) (m : HashMap FolderId Folder)
    → All P m
    → All P (remove_folders fids m).0
unfolding remove_folders
remove_folders-All P [] m h = h
remove_folders-All P (fid ∷ fids) m h =
    remove_folders-All P fids (remove fid m) (remove-All P fid m h)

remove_folders-IsMap :
    (fids : List FolderId) (m : HashMap FolderId Folder) → IsMap m → IsMap (remove_folders fids m).0
unfolding remove_folders
remove_folders-IsMap [] m h = h
remove_folders-IsMap (fid ∷ fids) m h =
    remove_folders-IsMap fids (remove fid m) (remove-IsMap fid m h)

HandedOut-monotone :
    (n : ℕ) (m : HashMap FolderId Folder) → All (HandedOut n) m → All (HandedOut (n + 1)) m
HandedOut-monotone n [] h = tt
HandedOut-monotone n (kv ∷ m) ((k, same, low), h) =
    ((k, same, omega arith), HandedOut-monotone n m h)

pub fresh_id : (n : ℕ) (z : ℤ) → z ≡ pos n → Below z → n < 2 ^ 63 → i64_inc z ≡ pos (n + 1)
fresh_id n z e b low = elim (Bool-cases (ltb (n + 1) (2 ^ 63))) [
  | inl fits ↦ ap i64_inc e ∙ rw fits refl
  | inr full ↦ absurd (b (e ∙ ap pos (ground arith)))
]

pub insert-IsDevices :
    (id : DeviceId) (d : Device) (m : HashMap DeviceId Device)
    → d.id ≡ id
    → IsDevices m
    → IsDevices (insert id d m)
insert-IsDevices id d m e i = record {
  map = insert-IsMap id d m i.map;
  keyed = insert-All DeviceKeyed id d m e i.keyed;
}

pub row_id :
    (id : DeviceId) (fp : List ℕ) (m : HashMap DeviceId Device)
    → IsDevices m
    → (with_fingerprint id fp (lookup id m)).id ≡ id
row_id id fp m i = elim (Option-cases (lookup id m)) [
  | inl missing ↦ ap (λ o. Device.id (with_fingerprint id fp o)) missing
  | inr (d, found) ↦
      ap (λ o. Device.id (with_fingerprint id fp o)) found
      ∙ lookup-All DeviceKeyed id d m i.keyed found
]

-- Folders change their fields, never their id.
pub adjust-IsFolders :
    (next : ℤ) (id : FolderId) (f : Folder → Folder) (m : HashMap FolderId Folder)
    → ((g : Folder) → (f g).id ≡ g.id)
    → IsFolders next m
    → IsFolders next (adjust id f m)
adjust-IsFolders next id f m same i = record {
  map = adjust-IsMap id f m i.map;
  keyed = adjust-All FolderKeyed id f m (λ g e. same g ∙ e) i.keyed;
  last_id = i.last_id;
  next_is = i.next_is;
  last_fits = i.last_fits;
  below = adjust-All (HandedOut i.last_id) id f m (λ g h. h) i.below;
}

pub keep-IsFolders :
    (next : ℤ) (p : FolderId × Folder → Bool) (m : HashMap FolderId Folder)
    → IsFolders next m
    → IsFolders next (keep p m)
keep-IsFolders next p m i = record {
  map = keep-IsMap p m i.map;
  keyed = keep-All FolderKeyed p m i.keyed;
  last_id = i.last_id;
  next_is = i.next_is;
  last_fits = i.last_fits;
  below = keep-All (HandedOut i.last_id) p m i.below;
}

pub remove_folders-IsFolders :
    (next : ℤ) (fids : List FolderId) (m : HashMap FolderId Folder)
    → IsFolders next m
    → IsFolders next (remove_folders fids m).0
remove_folders-IsFolders next fids m i = record {
  map = remove_folders-IsMap fids m i.map;
  keyed = remove_folders-All FolderKeyed fids m i.keyed;
  last_id = i.last_id;
  next_is = i.next_is;
  last_fits = i.last_fits;
  below = remove_folders-All (HandedOut i.last_id) fids m i.below;
}

pub add-IsFolders :
    (next : ℤ) (f : Folder) (m : HashMap FolderId Folder)
    → f.id ≡ i64_inc next
    → Below next
    → IsFolders next m
    → IsFolders (i64_inc next) (insert (i64_inc next) f m)
add-IsFolders next f m e b i =
    let up = fresh_id i.last_id next i.next_is b i.last_fits in
    record {
      map = insert-IsMap (i64_inc next) f m i.map;
      keyed = insert-All FolderKeyed (i64_inc next) f m e i.keyed;
      last_id = i.last_id + 1;
      next_is = up;
      last_fits = elim (Bool-cases (ltb (i.last_id + 1) (2 ^ 63))) [
        | inl fits ↦ ground arith
        | inr full ↦ absurd (b (i.next_is ∙ ap pos (ground (arith, i.last_fits))))
      ];
      below =
          insert-All (HandedOut (i.last_id + 1)) (i64_inc next) f m (i.last_id + 1, up, omega arith)
            (HandedOut-monotone i.last_id m i.below);
    }
