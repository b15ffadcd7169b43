-- ===== src/Health.antt =====
-- ferrisync-core/src/health.rs: what the stored rows mean for the user.
pub mod Collect
pub mod Grouping
pub mod Groups
pub mod Rules
pub mod Tests
use Prim.Native.String.{◌++◌ as text_append}
use ferri_sync.Prelude.{
  ℕ, ◌+◌, max, Bool, true, false, not, List, [], ◌∷◌, ◌++◌, Option, none, some, String, string_eq,
  ◌==◌, contains, if◌then◌else◌, ltb, length, keep, is_some,
}
use ferri_sync.Prelude.Int.{ℤ, pos, int_eq, int_leb, i64_sub, max_option}
use ferri_sync.Prelude.Maps.{HashMap, lookup, insert, remove}
use ferri_sync.Prelude.Options.{option_or, option_bind}
use ferri_sync.Version.{DeviceId}

abbrev pub connected_window_secs : ℤ
connected_window_secs = pos 300

abbrev pub recently_seen_window_secs : ℤ
recently_seen_window_secs = pos 86_400

pub data Presence : Type 0 where
  connected recently_seen offline_device : Presence

pub from_last_seen : ℤ → Option ℤ → Presence
from_last_seen now_secs none = offline_device
from_last_seen now_secs (some ts) =
    if int_leb (i64_sub now_secs ts) connected_window_secs
    then connected
    else if int_leb (i64_sub now_secs ts) recently_seen_window_secs
    then recently_seen
    else offline_device

pub data FolderHealth : Type 0 where
  healthy syncing waiting offline error conflicted not_configured : FolderHealth

pub needs_attention : FolderHealth → Bool
needs_attention conflicted = true
needs_attention error = true
needs_attention offline = true
needs_attention _ = false

pub record DeviceStatus : Type 0 where
  pub id : DeviceId
  pub name : String
  pub presence : Presence
  pub folder_count : ℕ

pub record FolderStatus : Type 0 where
  pub id : ℤ
  pub path : String
  pub device_id : DeviceId
  pub device_name : Option String
  pub health : FolderHealth
  pub last_sync : Option ℤ
  pub conflicts : ℕ

pub folder_health : DeviceId → DeviceId → Presence → Option ℤ → ℕ → Bool → Bool → FolderHealth
folder_health device_id own_device_id dev_presence last_sync conflicts is_syncing is_errored =
    if device_id == own_device_id
    then not_configured
    else if ltb 0 conflicts
    then conflicted
    else if is_syncing
    then syncing
    else if is_errored
    then error
    else elim dev_presence [
      | connected ↦ if is_some last_sync then healthy else waiting
      | recently_seen ↦ waiting
      | offline_device ↦ if is_some last_sync then waiting else offline
    ]

pub health_priority : FolderHealth → ℕ
health_priority conflicted = 6
health_priority error = 5
health_priority offline = 4
health_priority not_configured = 3
health_priority waiting = 2
health_priority syncing = 1
health_priority healthy = 0

pub peer_label : DeviceId → FolderStatus → String
peer_label own_device_id f =
    if f.device_id == own_device_id then "this device" else option_or f.device_name f.device_id

-- `labels.join(", ")`
abbrev join : List String → String
join [] = ""
join (l ∷ []) = l
join (l ∷ k ∷ labels) = text_append l (text_append ", " (join (k ∷ labels)))

-- What the loop over a group changes.
pub record Merge : Type 0 where
  pub labels : List String
  pub saw_self : Bool
  pub worst : FolderHealth
  pub device_id : DeviceId
  pub last_sync : Option ℤ
  pub conflicts : ℕ

pub merge_row : DeviceId → Merge → FolderStatus → Merge
unfolding peer_label health_priority
merge_row own_device_id m f =
    let label = peer_label own_device_id f in
    let is_worse = ltb (health_priority m.worst) (health_priority f.health) in
    if f.device_id == own_device_id then record m { saw_self = true } else record {
      labels = if contains label m.labels then m.labels else m.labels ++ label ∷ [];
      saw_self = m.saw_self;
      worst = if is_worse then f.health else m.worst;
      device_id = if is_worse then f.device_id else m.device_id;
      last_sync = max_option m.last_sync f.last_sync;
      conflicts = max m.conflicts f.conflicts;
    }

pub merge_rows : DeviceId → Merge → List FolderStatus → Merge
unfolding merge_row
merge_rows own_device_id m [] = m
merge_rows own_device_id m (f ∷ fs) = merge_rows own_device_id (merge_row own_device_id m f) fs

abbrev pub start_merge : FolderStatus → Merge
start_merge first = record {
  labels = [];
  saw_self = false;
  worst = healthy;
  device_id = first.device_id;
  last_sync = first.last_sync;
  conflicts = first.conflicts;
}

-- After the loop: the folder from its peers, or from its own row if it has no peer.
pub finish : FolderStatus → List String → Merge → FolderStatus
finish first [] m = record first { device_name = some "this device" }
finish first (l ∷ labels) m =
    let all = if m.saw_self then (l ∷ labels) ++ "this device" ∷ [] else l ∷ labels in
    record first {
      device_id = m.device_id;
      device_name = some (join all);
      health = m.worst;
      last_sync = m.last_sync;
      conflicts = m.conflicts;
    }

-- One group of rows; `none` is the panic of `group[0]` on an empty group.
pub merge_group : DeviceId → List FolderStatus → Option FolderStatus
unfolding merge_rows finish
merge_group own_device_id [] = none
merge_group own_device_id (first ∷ rest) =
    let m = merge_rows own_device_id (start_merge first) (first ∷ rest) in
    some (finish first m.labels m)

-- `if by_id.entry(f.id).or_default().is_empty() { order.push(f.id) }`
abbrev pub push_first : List FolderStatus → ℤ → List ℤ → List ℤ
push_first [] id order = order ++ id ∷ []
push_first (g ∷ gs) id order = order

abbrev pub rows_at : ℤ → HashMap ℤ (List FolderStatus) → List FolderStatus
rows_at id by_id = option_or (lookup id by_id) []

-- The first loop: `by_id` and `order`.
pub collect_rows :
    List FolderStatus
    → HashMap ℤ (List FolderStatus)
    → List ℤ
    → HashMap ℤ (List FolderStatus) × List ℤ
collect_rows [] by_id order = (by_id, order)
collect_rows (f ∷ fs) by_id order =
    collect_rows fs (insert f.id (rows_at f.id by_id ++ f ∷ []) by_id)
      (push_first (rows_at f.id by_id) f.id order)

abbrev pub cons_both : Option FolderStatus → Option (List FolderStatus) → Option (List FolderStatus)
cons_both (some f) (some fs) = some (f ∷ fs)
cons_both _ _ = none

-- The second loop; `none` is a panic of `unwrap` or of `group[0]`.
pub merge_all : DeviceId → List ℤ → HashMap ℤ (List FolderStatus) → Option (List FolderStatus)
unfolding merge_group
merge_all own_device_id [] by_id = some []
merge_all own_device_id (id ∷ order) by_id =
    cons_both (option_bind (lookup id by_id) (merge_group own_device_id))
      (merge_all own_device_id order (remove id by_id))

pub group_folders : List FolderStatus → DeviceId → Option (List FolderStatus)
unfolding collect_rows merge_all
group_folders folders own_device_id =
    let (by_id, order) = collect_rows folders [] [] in merge_all own_device_id order by_id

pub record HealthSummary : Type 0 where
  pub device_total : ℕ
  pub device_connected : ℕ
  pub device_recently_seen : ℕ
  pub folders_total : ℕ
  pub folders_healthy : ℕ
  pub folders_needing_attention : ℕ
  pub conflicts_total : ℕ
  pub last_sync_secs : Option ℤ

abbrev pub is_connected : DeviceStatus → Bool
is_connected d = elim d.presence [ connected ↦ true | _ ↦ false ]

abbrev pub is_recently_seen : DeviceStatus → Bool
is_recently_seen d = elim d.presence [ recently_seen ↦ true | _ ↦ false ]

abbrev pub is_well : FolderStatus → Bool
is_well f = elim f.health [ healthy ↦ true | syncing ↦ true | _ ↦ false ]

abbrev sum_conflicts : List FolderStatus → ℕ
sum_conflicts [] = 0
sum_conflicts (f ∷ fs) = f.conflicts + sum_conflicts fs

abbrev latest_sync : List FolderStatus → Option ℤ
latest_sync [] = none
latest_sync (f ∷ fs) = max_option f.last_sync (latest_sync fs)

pub summarize : List DeviceStatus → List FolderStatus → HealthSummary
unfolding needs_attention
summarize devices folders = record {
  device_total = length devices;
  device_connected = length (keep is_connected devices);
  device_recently_seen = length (keep is_recently_seen devices);
  folders_total = length folders;
  folders_healthy = length (keep is_well folders);
  folders_needing_attention = length (keep (λ f. needs_attention f.health) folders);
  conflicts_total = sum_conflicts folders;
  last_sync_secs = latest_sync folders;
}
