-- ===== src/Health/Tests.antt =====
-- A folder with two peers and a row of this device.
use ferri_sync.Prelude.{◌≡◌, List, [], ◌∷◌, map, none, some, string_eq, Distinct}
use ferri_sync.Prelude.Int.{ℤ, pos, int_eq}
use ferri_sync.Health.{
  connected, FolderStatus, DeviceStatus, group_folders, merge_group, healthy, conflicted,
  not_configured,
}
use ferri_sync.Health.Collect.{find_folder, rows_of}
use ferri_sync.Health.Grouping.{group_folders_merged}

abbrev with_phone : FolderStatus
with_phone = record {
  id = pos 1;
  path = "/a";
  device_id = "phone";
  device_name = some "Phone";
  health = conflicted;
  last_sync = some (pos 4);
  conflicts = 2;
}

abbrev with_tablet : FolderStatus
with_tablet = record {
  id = pos 1;
  path = "/a";
  device_id = "tablet";
  device_name = none;
  health = healthy;
  last_sync = some (pos 9);
  conflicts = 0;
}

abbrev here : FolderStatus
here = record {
  id = pos 1;
  path = "/a";
  device_id = "laptop";
  device_name = none;
  health = not_configured;
  last_sync = none;
  conflicts = 0;
}

abbrev other : FolderStatus
other = record {
  id = pos 2;
  path = "/b";
  device_id = "laptop";
  device_name = none;
  health = not_configured;
  last_sync = none;
  conflicts = 0;
}

abbrev tablet : DeviceStatus
tablet = record { id = "tablet"; name = "Tablet"; presence = connected; folder_count = 1 }

group_folders_merged_example :
    (ms : List FolderStatus) × (group_folders (with_phone ∷ other ∷ with_tablet ∷ []) "laptop"
      ≡ some ms)
    × Distinct (map (λ f. FolderStatus.id f) ms)
    × ((id : ℤ)
        → find_folder id ms
          ≡ merge_group "laptop" (rows_of id (with_phone ∷ other ∷ with_tablet ∷ [])))
group_folders_merged_example = group_folders_merged (with_phone ∷ other ∷ with_tablet ∷ []) "laptop"
