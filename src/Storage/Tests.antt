-- ===== src/Storage/Tests.antt =====
-- The database on small inputs.
use ferri_sync.Prelude.{
  ap, ℕ, zero, suc, ◌+◌, ◌^◌, ◌≤◌, ◌≡◌, refl, true, false, List, [], ◌∷◌, Option, none, some,
  String, string_eq, nat_eq, pair_eq, length, arith,
}
use ferri_sync.Prelude.Int.{pos}
use ferri_sync.Prelude.Options.{option_or}
use ferri_sync.Prelude.Maps.{insert, lookup, remove}
use ferri_sync.Version.{DeviceId}
use ferri_sync.Domain.{DeviceCleanup, SessionRecord}
use ferri_sync.Storage.{Database, empty_database}
use ferri_sync.Storage.Devices.{DeviceRow, ensure_self_row}
use ferri_sync.Storage.Tables.{first_row}
use ferri_sync.Storage.Labels.{path_label}
use ferri_sync.Storage.Folders.{add_sync_folder, list_sync_folders, add_folder_device, at_path}
use ferri_sync.Storage.Pairs.{remove_folder_device}
use ferri_sync.Storage.Records.{
  remove_device, record_session, list_recent_sessions, max_session_history,
}
use ferri_sync.Storage.Sharing.{wire_folder_pair, wire_folder}
use ferri_sync.Storage.Schema.{backfill, initialize_schema}
use ferri_sync.Storage.References.{enforce, keeps_references}
use ferri_sync.Storage.Repoint.{repoint_tables, repoint_table}
use ferri_sync.Storage.Unify.{
  remap_rows, remap_selves, certs_by_name, remap_stubs, drop_devices, device_remap,
  reconcile_devices_by_cert,
}
use ferri_sync.Storage.Registration.{IsNumbered, remove_folder_device-add_sync_folder}
use ferri_sync.Storage.Invariant.{IsDatabase}
use ferri_sync.Storage.Sessions.{
  IsHistory, IsStorable, record_session-IsHistory, list_recent_sessions-record_session,
}
use ferri_sync.Storage.Unified.{reconcile_devices_by_cert-others}
use ferri_sync.Prelude.{eq_iff, ◌≢◌, string_eq, list_eq}
use ferri_sync.Prelude.Maps.{IsMap}
use ferri_sync.Prelude.Options.{option_bind}
use ferri_sync.Storage.Wiring.{IsWired, wire_folder_pair-IsWired}

abbrev guid_of : ℕ → String
guid_of zero = "g0"
guid_of (suc zero) = "g1"
guid_of (suc (suc n)) = "g2"

label_of_path : path_label "/home/me/Documents//" ≡ "Documents"
unfolding path_label
label_of_path = refl

label_of_root : path_label "/" ≡ "/"
unfolding path_label
label_of_root = refl

abbrev device : String → Option (List ℕ) → DeviceRow
device name cert = record { name = name; cert_der = cert; last_seen = none; last_addr = none }

-- The device with its own folder.
abbrev started : Database
started = record empty_database {
  devices =
      ("d1", device "Laptop" none)
      ∷ ("d2", device "Phone" none)
      ∷ ("d3", device "Tablet" none)
      ∷ [];
}

abbrev one_folder : Database
unfolding add_sync_folder
one_folder = (option_or (add_sync_folder guid_of "/a/b" "d1" "push" started) (0, started)).1

abbrev two_pairs : Database
unfolding add_folder_device
two_pairs = option_or (add_folder_device 1 "d2" "pull" none one_folder) started

-- A folder of a device without a row is refused, and so is a pair of a folder without one.
unknown_device : add_sync_folder guid_of "/a/b" "d9" "push" started ≡ none
unfolding add_sync_folder insert lookup enforce
unknown_device = refl

listed_in_order :
    list_sync_folders two_pairs
    ≡ (1, "/a/b", "d1", "push", none) ∷ (1, "/a/b", "d2", "pull", none) ∷ []
unfolding list_sync_folders two_pairs one_folder insert lookup enforce
listed_in_order = refl

-- The device that a folder names cannot be removed, another can.
owner_stays : remove_device "d1" two_pairs ≡ none
unfolding remove_device two_pairs one_folder insert lookup enforce
owner_stays = refl

without_phone : Database × DeviceCleanup
without_phone = option_or (remove_device "d2" two_pairs) (
  started,
  record {
    sessions_removed = 0;
    history_removed = 0;
    metadata_removed = 0;
    folders_removed = 0;
    device_removed = 0;
  },
)

-- Opening the database again brings back a pair that was removed.
half_removed : Database
half_removed = (option_or (remove_folder_device 1 "d1" two_pairs) (started, false)).0

comes_back :
    list_sync_folders (initialize_schema guid_of half_removed)
    ≡ list_sync_folders (record two_pairs {
      folder_devices =
          ((1, "d2"), record { mode = "pull"; remote_path = none; enabled = true })
          ∷ ((1, "d1"), record { mode = "push"; remote_path = none; enabled = true })
          ∷ [];
    })
unfolding half_removed list_sync_folders initialize_schema backfill remove_folder_device two_pairs
    one_folder insert lookup remove enforce
comes_back = refl

two_pairs-IsNumbered : IsNumbered two_pairs
unfolding two_pairs one_folder insert lookup enforce
two_pairs-IsNumbered = ((omega arith, tt), (omega arith, (omega arith, tt)))

two_pairs_refer : keeps_references two_pairs ≡ true
unfolding two_pairs one_folder insert lookup enforce
two_pairs_refer = refl

nothing_at : first_row (at_path "/c") two_pairs.sync_folders ≡ none
unfolding two_pairs one_folder insert lookup enforce
nothing_at = refl

second_added : ℕ × Database
second_added = option_or (add_sync_folder guid_of "/c" "d2" "push" two_pairs) (0, started)

adds : add_sync_folder guid_of "/c" "d2" "push" two_pairs ≡ some (second_added.0, second_added.1)
unfolding second_added add_sync_folder two_pairs one_folder insert lookup enforce
adds = refl

remove_folder_device-add_sync_folder_example :
    remove_folder_device second_added.0 "d2" second_added.1
    ≡ some (record two_pairs { last_folder = two_pairs.last_folder + 1 }, true)
remove_folder_device-add_sync_folder_example =
    remove_folder_device-add_sync_folder guid_of "/c" "d2" "push" two_pairs second_added.1
      second_added.0 two_pairs-IsNumbered two_pairs_refer nothing_at adds

session : SessionRecord
session = record {
  ts = pos 5;
  direction = "out";
  peer_device = "d2";
  addr = "10.0.0.2:9000";
  folder_path = "/a/b";
  pushed_count = 1;
  pulled_count = 2;
  conflicts_count = 0;
  pushed_bytes = 2 ^ 63 + 1;
  pulled_bytes = 3;
}

two_pairs-IsHistory : IsHistory two_pairs
unfolding two_pairs one_folder insert lookup enforce
two_pairs-IsHistory = (tt, tt)

record_session-IsHistory_example :
    IsHistory (record_session session two_pairs)
    × (length (record_session session two_pairs).sync_sessions ≤ max_session_history)
record_session-IsHistory_example = record_session-IsHistory session two_pairs two_pairs-IsHistory

session-IsStorable : IsStorable session
unfolding session
session-IsStorable = (omega arith, omega arith, omega arith, omega arith, omega arith)

list_recent_sessions-record_session_example :
    list_recent_sessions 1 (record_session session two_pairs) ≡ some (session ∷ [])
list_recent_sessions-record_session_example =
    list_recent_sessions-record_session session two_pairs session-IsStorable

-- Pairing a share with a folder that this device has at the path.
two_pairs-IsDatabase : IsDatabase two_pairs
unfolding two_pairs one_folder insert lookup enforce
two_pairs-IsDatabase = (
  ((omega arith, tt), (refl, tt), (ground arith, (refl, tt)), (refl, (refl, tt))),
  (refl, (refl, (refl, tt))),
)

wired : Database × Option ℕ
unfolding wire_folder_pair
wired = wire_folder_pair "g7" "/a/b" "Docs" "d1" "d3" none two_pairs

wires : wire_folder_pair "g7" "/a/b" "Docs" "d1" "d3" none two_pairs ≡ (wired.0, some 1)
unfolding wired wire_folder_pair wire_folder two_pairs one_folder insert lookup enforce
wires = refl

wire_folder_pair-IsWired_example : IsWired "g7" "d3" (1, wired.0)
wire_folder_pair-IsWired_example =
    wire_folder_pair-IsWired "g7" "/a/b" "Docs" "d1" "d3" none two_pairs wired.0 1
      two_pairs-IsDatabase wires

-- The id of a certificate, and a table where our own row stands under an old id: where no row has the
-- new id, what refers to the old one stops the unification.
abbrev id_of : List ℕ → DeviceId
id_of [] = "me"
id_of (byte ∷ bytes) = "c1"

own_refused : (reconcile_devices_by_cert id_of (pos 9) [] (some "d1") "Laptop" two_pairs).1 ≡ false
unfolding reconcile_devices_by_cert device_remap remap_rows remap_selves certs_by_name remap_stubs
    repoint_tables repoint_table insert lookup remove enforce two_pairs one_folder drop_devices
own_refused = refl

-- Two rows of one certificate, one of them under an old id, and our own row under another.
abbrev known : Database
known = record empty_database {
  devices =
      ("u", device "Laptop" none)
      ∷ ("old", device "Phone" (some (1 ∷ [])))
      ∷ ("c1", device "Phone" (some (1 ∷ [])))
      ∷ [];
}

known-IsMap : IsMap known.devices
unfolding lookup
known-IsMap = (refl, (refl, (refl, tt)))

unified : (reconcile_devices_by_cert id_of (pos 9) [] (some "u") "Laptop" known).1 ≡ true
unfolding reconcile_devices_by_cert device_remap remap_rows remap_selves certs_by_name remap_stubs
    repoint_tables repoint_table insert lookup remove enforce drop_devices ensure_self_row
unified = refl

known_old : lookup "old" known.devices ≡ some (device "Phone" (some (1 ∷ [])))
unfolding lookup
known_old = refl

me_old : ◌≢◌ {A = String} "me" "old"
me_old e = cc ((eq_iff {T = String} "me" "old").1 e)

u_old : ◌≢◌ {A = Option String} (some "u") (some "old")
u_old e = cc ((eq_iff {T = String} "u" "old").1 (ap (λ o. option_or o "") e))

reconcile_devices_by_cert-others_example :
    (lookup "old" (reconcile_devices_by_cert id_of (pos 9) [] (some "u") "Laptop" known).0.devices
      ≡ none)
    × (option_bind
          (lookup "me"
            (reconcile_devices_by_cert id_of (pos 9) [] (some "u") "Laptop" known).0.devices)
          (λ own_row. DeviceRow.cert_der own_row)
        ≡ some [])
reconcile_devices_by_cert-others_example =
    reconcile_devices_by_cert-others id_of (pos 9) [] (some "u") "Laptop" known "old"
      (device "Phone" (some (1 ∷ []))) (1 ∷ []) known-IsMap me_old u_old known_old refl unified
