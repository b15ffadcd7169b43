-- ===== src/Memory/Tests.antt =====
-- A small store with two devices and their folders.
use ferri_sync.Prelude.{
  ℕ, ◌≡◌, refl, ◌≢◌, true, false, not, ◌&&◌, List, [], ◌∷◌, none, String, string_eq, ◌==◌, is_some,
  if◌then◌else◌, keep, length, arith,
}
use ferri_sync.Prelude.Int.{pos, int_eq}
use ferri_sync.Prelude.Maps.{insert, lookup}
use ferri_sync.Version.{DeviceId}
use ferri_sync.Snapshot.{FolderId}
use ferri_sync.Snapshot.{Tombstone, file}
use ferri_sync.Domain.{FileMetadata, Device, SessionRecord}
use ferri_sync.Memory.{
  list_devices, MemoryStore, empty_store, upsert_device, add_folder, remove_device, get_device,
  get_device_cert, set_device_cert,
}
use ferri_sync.Memory.Invariant.{IsStore, Below}
use ferri_sync.Memory.Reach.{
  Reachable, at_new, after, by_upsert_device, by_add_folder, Reachable-IsStore,
}
use ferri_sync.Memory.Removal.{in_folder_of, remove_device_exact}
use ferri_sync.Memory.AsStore.{
  memory_store, memory_store-StoreLaws, verify_or_trust_again, verify_or_trust_new,
}
use ferri_sync.Identity.{StoreLaws, verify_or_trust, can_read, can_write, verify_peer}

abbrev digest : List ℕ → List ℕ
digest bytes = length bytes ∷ []

abbrev phone : Device
phone = record {
  id = "phone";
  name = "Phone";
  fingerprint = none;
  last_seen = none;
  last_addr = none;
}

abbrev paired : MemoryStore
paired = upsert_device phone empty_store

abbrev shared : MemoryStore
shared = (add_folder "/photos" "phone" "push" paired).0

ids_left : Below paired.next_folder_id
unfolding upsert_device
ids_left e = ground (arith, e)

shared_reached : Reachable digest shared
shared_reached =
    after (after at_new (by_upsert_device phone)) (by_add_folder "/photos" "phone" "push" ids_left)

Reachable-IsStore_example : IsStore shared
Reachable-IsStore_example = Reachable-IsStore digest shared shared_reached

shared-IsStore : IsStore shared
shared-IsStore = Reachable-IsStore digest shared shared_reached

paired-IsStore : IsStore paired
paired-IsStore = Reachable-IsStore digest paired (after at_new (by_upsert_device phone))

remove_device_exact_example :
    let t = (remove_device "phone" shared).0 in
    ((j : DeviceId) → get_device j t ≡ (if "phone" == j then none else get_device j shared))
    × (t.folders ≡ keep (λ kv. not (kv.1.device_id == "phone")) shared.folders)
    × (t.file_metadata ≡ keep (λ kv. not (in_folder_of "phone" shared kv.0.0)) shared.file_metadata)
    × (t.history
        ≡ keep
            (λ e. not (e.device_id == "phone") && not (in_folder_of "phone" shared e.folder_id))
            shared.history)
    × (t.sessions ≡ keep (λ r. not (r.peer_device == "phone")) shared.sessions)
    × (t.tombstones ≡ shared.tombstones)
    × (t.next_folder_id ≡ shared.next_folder_id)
remove_device_exact_example = remove_device_exact "phone" shared shared-IsStore

abbrev session : SessionRecord
session = record {
  ts = pos 5;
  direction = "push";
  peer_device = "phone";
  addr = "";
  folder_path = "/photos";
  pushed_count = 1;
  pulled_count = 0;
  conflicts_count = 0;
  pushed_bytes = 9;
  pulled_bytes = 0;
}

abbrev meta : FileMetadata
meta = record {
  path = "a";
  folder_id = pos 1;
  kind = file;
  mtime = pos 1;
  size = pos 2;
  hash = [];
  device_id = "phone";
  version = pos 1;
  local_version = pos 1;
  remote_version = pos 0;
  local_mtime = pos 1;
  remote_mtime = pos 0;
}

abbrev grave : Tombstone
grave = record { path = "b"; folder_id = pos 1; device_id = "phone"; deleted_at = 9 }

-- The listing of the devices, and the counts of a full reset.
listed : length (list_devices shared) ≡ 1
unfolding list_devices add_folder upsert_device insert
listed = refl

abbrev cert : List ℕ
cert = 1 ∷ 2 ∷ []

two_is_not_one : length cert ≢ length (digest cert)
two_is_not_one e = ground (arith, e)

verify_or_trust_again_example :
    (verify_or_trust
      (memory_store digest)
      digest
      "phone"
      cert
      (set_device_cert digest "phone" cert shared)).1
    ≡ false
verify_or_trust_again_example = verify_or_trust_again digest "phone" cert shared two_is_not_one

nothing_stored : get_device_cert "phone" empty_store ≡ none
unfolding get_device_cert lookup
nothing_stored = refl

verify_or_trust_new_example :
    (t : MemoryStore) × (verify_or_trust (memory_store digest) digest "phone" cert empty_store
      ≡ (t, true))
    × ((folder : FolderId)
        → (can_read (memory_store digest) "phone" folder t ≡ true)
          × (can_write (memory_store digest) "phone" folder t ≡ true))
    × (is_some (verify_peer (memory_store digest) digest cert t) ≡ true)
    × ((other : List ℕ) → (verify_or_trust (memory_store digest) digest "phone" other t).0 ≡ t)
    × ((j : DeviceId) → ◌≢◌ {A = String} "phone" j → get_device j t ≡ get_device j empty_store)
verify_or_trust_new_example = verify_or_trust_new digest "phone" cert empty_store nothing_stored

memory_store-StoreLaws_example : StoreLaws (memory_store digest) digest
memory_store-StoreLaws_example = memory_store-StoreLaws digest
