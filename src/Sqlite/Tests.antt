-- ===== src/Sqlite/Tests.antt =====
-- A small database with a device that shares a folder.
use ferri_sync.Prelude.{
  string_eq, ℕ, ◌≡◌, refl, ◌≢◌, true, false, List, [], ◌∷◌, none, some, length,
}
use ferri_sync.Prelude.Int.{pos}
use ferri_sync.Prelude.Maps.{lookup, insert}
use ferri_sync.Snapshot.{Tombstone}
use ferri_sync.Domain.{Device}
use ferri_sync.Identity.{verify_or_trust, can_write}
use ferri_sync.Storage.Devices.{DeviceRow}
use ferri_sync.Sqlite.{SqliteStore, empty_tables}
use ferri_sync.Sqlite.Folders.{add_folder, folder_row}
use ferri_sync.Sqlite.Files.{add_tombstone}
use ferri_sync.Sqlite.References.{check_keys}
use ferri_sync.Sqlite.Folders.{clear_all_sync_state}
use ferri_sync.Sqlite.Devices.{remove_device}
use ferri_sync.Prelude.Options.{option_or}
use ferri_sync.Sqlite.Trust.{sqlite_store, verify_or_trust_unknown, verify_or_trust_pinned}

abbrev digest : List ℕ → List ℕ
digest bytes = length bytes ∷ []

abbrev phone : Device
phone = record {
  id = "phone";
  name = "Phone";
  fingerprint = none;
  last_seen = none;
  last_addr = none;
}

abbrev phone_row : DeviceRow
phone_row = record { name = "Phone"; cert_der = none; last_seen = some (pos 9); last_addr = none }

abbrev paired : SqliteStore
paired = record empty_tables { devices = ("phone", phone_row) ∷ [] }

abbrev shared : SqliteStore
shared = record paired {
  sync_folders = (pos 1, folder_row "/photos" "phone" "push") ∷ [];
  last_folder = 1;
}

abbrev grave : Tombstone
grave = record { path = "b"; folder_id = pos 1; device_id = "phone"; deleted_at = 9 }

-- A folder of an unknown device is refused, and a folder with a tombstone keeps its device.
stranger_refused : add_folder "/photos" "tv" "push" paired ≡ none
unfolding add_folder insert lookup check_keys
stranger_refused = refl

added_here : add_folder "/photos" "phone" "push" paired ≡ some (shared, pos 1)
unfolding add_folder insert lookup check_keys
added_here = refl

buried : SqliteStore
buried = option_or (add_tombstone grave shared) paired

tombstone_keeps : remove_device "phone" buried ≡ none
unfolding buried add_tombstone remove_device lookup check_keys
tombstone_keeps = refl

not_cleared : clear_all_sync_state buried ≡ none
unfolding buried add_tombstone clear_all_sync_state lookup check_keys
not_cleared = refl

no_tv : lookup "tv" shared.devices ≡ none
unfolding lookup
no_tv = refl

has_phone : lookup "phone" shared.devices ≡ some phone_row
unfolding lookup
has_phone = refl

verify_or_trust_unknown_example :
    (verify_or_trust (sqlite_store digest) digest "tv" (7 ∷ []) shared ≡ (shared, true))
    × (can_write (sqlite_store digest) "tv" (pos 1) shared ≡ false)
verify_or_trust_unknown_example = verify_or_trust_unknown digest "tv" (7 ∷ []) (pos 1) shared no_tv

verify_or_trust_pinned_example :
    (t : SqliteStore) × (verify_or_trust (sqlite_store digest) digest "phone" (7 ∷ []) shared
      ≡ (t, true))
    × (verify_or_trust (sqlite_store digest) digest "phone" (7 ∷ []) t ≡ (t, true))
    × ((other : List ℕ)
        → other ≢ 7 ∷ []
        → verify_or_trust (sqlite_store digest) digest "phone" other t ≡ (t, false))
verify_or_trust_pinned_example =
    verify_or_trust_pinned digest "phone" (7 ∷ []) phone_row shared has_phone refl
