-- ===== src/Memory/Folders.antt =====
-- The folders, sessions and tombstones of memory.rs: fresh ids, the order of lists.
use ferri_sync.Prelude.Options.{option_bind}
use ferri_sync.Prelude.{
  ◌&&◌, is_some, leb, ◌==◌, string_eq, pair_eq, if◌then◌else◌, ℕ, suc, ◌+◌, ◌≡◌, refl, ap, ◌∙◌, ◌≢◌,
  Bool, true, false, List, [], ◌∷◌, ◌++◌, none, some, String, arith, Option-cases, Bool-cases, inl,
  inr, take, keep, length, reverse_onto,
}
use ferri_sync.Prelude.Int.{ℤ, pos, negsuc, int_eq, int_leb, i64_inc}
use ferri_sync.Prelude.Maps.{HashMap, lookup, lookup-insert_self, lookup-insert_ne, values, adjust}
use ferri_sync.Prelude.Predicates.{All}
use ferri_sync.Prelude.Entries.{lookup-All}
use ferri_sync.Version.{DeviceId}
use ferri_sync.Snapshot.{FolderId}
use ferri_sync.Domain.{
  Folder, SessionRecord, direction_as_str, parse_direction, SyncDirection, bidirectional, push_only,
  pull_only,
}
use ferri_sync.Snapshot.{Tombstone}
use ferri_sync.Domain.{Device, FileMetadata}
use ferri_sync.Memory.{
  get_device, upsert_device, get_file_metadata, upsert_file_metadata, device_last_addr,
  set_device_last_addr, get_tombstones, add_tombstone, MemoryStore, get_folder, add_folder,
  list_folders, insert_by_id, sort_by_id, record_session, list_recent_sessions,
}
use ferri_sync.Memory.Invariant.{IsStore, Below, HandedOut, fresh_id}

-- Every direction is parsed back from its text.
pub parse_direction-direction_as_str :
    (d : SyncDirection) → parse_direction (direction_as_str d) ≡ some d
unfolding parse_direction
parse_direction-direction_as_str bidirectional = refl
parse_direction-direction_as_str push_only = refl
parse_direction-direction_as_str pull_only = refl

no_folder_at :
    (n : ℕ) (m : HashMap FolderId Folder) → All (HandedOut n) m → lookup (pos (n + 1)) m ≡ none
no_folder_at n m h = elim (Option-cases (lookup (pos (n + 1)) m)) [
  | inl missing ↦ missing
  | inr (f, found) ↦
      let (k, same, low) = lookup-All (HandedOut n) (pos (n + 1)) f m h found in
      absurd (ground (arith, same, low))
]

-- `add_folder` takes an id that no folder has, puts the folder there with the direction that the
-- text names, and changes no other folder; the condition is that ids are left.
pub add_folder_fresh :
    (path : String) (device : DeviceId) (d : SyncDirection) (s : MemoryStore)
    → IsStore s
    → Below s.next_folder_id
    → let (t, id) = add_folder path device (direction_as_str d) s in
      (get_folder id s ≡ none)
      × (get_folder id t
          ≡ some (record {
            id = id;
            local_path = path;
            device_id = device;
            direction = d;
            last_sync_at = none;
          }))
      × ((j : FolderId) → id ≢ j → get_folder j t ≡ get_folder j s)
unfolding get_folder add_folder
add_folder_fresh path device d s i b = (
  ap (λ z. lookup z s.folders)
        (fresh_id i.folders.last_id s.next_folder_id i.folders.next_is b i.folders.last_fits)
      ∙ no_folder_at i.folders.last_id s.folders i.folders.below,
  rw (parse_direction-direction_as_str d)
      (lookup-insert_self (i64_inc s.next_folder_id) _ s.folders),
  λ j other. lookup-insert_ne (i64_inc s.next_folder_id) j _ s.folders other,
)

-- Ascending ids: each folder's id is at most those behind it.
abbrev FirstLe : Folder → List Folder → Type 0
FirstLe f [] = Unit {0}
FirstLe f (g ∷ gs) = int_leb f.id g.id ≡ true

abbrev pub IsAscending : List Folder → Type 0
IsAscending [] = Unit {0}
IsAscending (f ∷ fs) = FirstLe f fs × IsAscending fs

le_total : (a b : ℤ) → int_leb a b ≡ false → int_leb b a ≡ true
le_total (pos a) (pos b) h = ground arith
le_total (pos a) (negsuc b) h = refl
le_total (negsuc a) (pos b) h = ground arith
le_total (negsuc a) (negsuc b) h = ground arith

insert-FirstLe :
    (f g : Folder) (gs : List Folder)
    → int_leb g.id f.id ≡ true
    → FirstLe g gs
    → FirstLe g (insert_by_id f gs)
insert-FirstLe f g [] low h = low
insert-FirstLe f g (k ∷ ks) low h = ground (arith, h, low)

insert-IsAscending :
    (f : Folder) (fs : List Folder) → IsAscending fs → IsAscending (insert_by_id f fs)
insert-IsAscending f [] h = (tt, tt)
insert-IsAscending f (g ∷ gs) (hg, h) = elim (Bool-cases (int_leb f.id g.id)) [
  | inl low ↦ rw low (low, (hg, h))
  | inr high ↦
      rw high (insert-FirstLe f g gs (le_total f.id g.id high) hg, insert-IsAscending f gs h)
]

-- What is counted of a list is counted of the sorted list.
insert-count :
    (p : Folder → Bool) (f : Folder) (fs : List Folder)
    → length (keep p (insert_by_id f fs)) ≡ length (keep p (f ∷ fs))
insert-count p f [] = refl
insert-count p f (g ∷ gs) = ground (arith, insert-count p f gs)

sort-count :
    (p : Folder → Bool) (fs : List Folder) → length (keep p (sort_by_id fs)) ≡ length (keep p fs)
sort-count p [] = refl
sort-count p (f ∷ fs) = insert-count p f (sort_by_id fs) ∙ ground (arith, sort-count p fs)

sort-IsAscending : (fs : List Folder) → IsAscending (sort_by_id fs)
sort-IsAscending [] = tt
sort-IsAscending (f ∷ fs) = insert-IsAscending f (sort_by_id fs) (sort-IsAscending fs)

-- `list_folders` is in ascending order of ids, whatever the map's order, and of every kind of
-- folder it has as many as the map.
pub list_folders-IsAscending :
    (s : MemoryStore)
    → IsAscending (list_folders s)
      × ((p : Folder → Bool)
          → length (keep p (list_folders s)) ≡ length (keep p (values s.folders)))
unfolding list_folders
list_folders-IsAscending s =
    (sort-IsAscending (values s.folders), λ p. sort-count p (values s.folders))

reverse_onto-snoc :
    {A : Type 0} (xs ys : List A) (x : A) → reverse_onto (xs ++ x ∷ []) ys ≡ x ∷ reverse_onto xs ys
reverse_onto-snoc [] ys x = refl
reverse_onto-snoc (z ∷ xs) ys x = reverse_onto-snoc xs (z ∷ ys) x

-- The recent sessions start with the one recorded last, followed by those listed before it.
pub list_recent_sessions-record_session :
    (limit : ℕ) (r : SessionRecord) (s : MemoryStore)
    → list_recent_sessions (suc limit) (record_session r s) ≡ r ∷ list_recent_sessions limit s
unfolding list_recent_sessions record_session
list_recent_sessions-record_session limit r s =
    ap (λ l. take (suc limit) l) (reverse_onto-snoc s.sessions [] r)

keep-snoc :
    {A : Type 0} (p : A → Bool) (xs : List A) (x : A)
    → keep p (xs ++ x ∷ []) ≡ keep p xs ++ (if p x then x ∷ [] else [])
keep-snoc p [] x = refl
keep-snoc p (y ∷ xs) x = ground (arith, keep-snoc p xs x)

-- What is written is read back: a device and a file's metadata under their keys, an address if the
-- device is known, and a tombstone behind the older ones of its folder if it is recent enough.
pub write-read :
    (d : Device) (meta : FileMetadata) (tomb : Tombstone) (id : DeviceId) (addr : String)
    (folder : FolderId) (since : ℕ) (s : MemoryStore)
    → (get_device d.id (upsert_device d s) ≡ some d)
      × (get_file_metadata meta.folder_id meta.path (upsert_file_metadata meta s) ≡ some meta)
      × (device_last_addr id (set_device_last_addr id addr s)
          ≡ (if is_some (get_device id s) then some addr else none))
      × (get_tombstones folder since (add_tombstone tomb s)
          ≡ get_tombstones folder since s
            ++ (if (tomb.folder_id == folder) && leb since tomb.deleted_at then tomb ∷ [] else []))
unfolding get_device upsert_device get_file_metadata upsert_file_metadata device_last_addr
    set_device_last_addr get_tombstones add_tombstone
write-read d meta tomb id addr folder since s = (
  lookup-insert_self d.id d s.devices,
  lookup-insert_self (meta.folder_id, meta.path) meta s.file_metadata,
  elim (Option-cases (lookup id s.devices)) [
    | inl missing ↦ rw (missing, adjust) (rw missing refl)
    | inr (row, found) ↦
        rw (found, adjust)
          (ap (λ o. option_bind o (λ d. Device.last_addr d)) (lookup-insert_self id _ s.devices))
  ],
  keep-snoc _ s.tombstones tomb,
)
