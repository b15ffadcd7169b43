-- ===== src/Storage/Display.antt =====
-- The label of a folder's peer: `folder_remote_labels` of ferrisync-core/src/storage/mod.rs.
use Prim.Native.String.{compare}
use text.Mathlib.Text.{is_le}
use ferri_sync.Prelude.{
  ℕ, Bool, true, false, [], ◌∷◌, String, string_eq, nat_eq, ◌==◌, if◌then◌else◌, keep, ltb,
}
use ferri_sync.Prelude.Maps.{HashMap, insert, contains_key}
use ferri_sync.Prelude.Options.{option_or}
use ferri_sync.Version.{DeviceId}
use ferri_sync.Storage.{Database, PairRow}
use ferri_sync.Storage.Devices.{get_device_name}
use ferri_sync.Storage.Tables.{order_by}

-- `ORDER BY fd.folder_id, fd.device_id`
abbrev pair_leb : (ℕ × DeviceId) × PairRow → (ℕ × DeviceId) × PairRow → Bool
pair_leb ((i, d), row) ((j, e), other) =
    if ltb i j then true else if i == j then is_le (compare d e) else false

-- `remote`, else the device's name, else its id.
abbrev pair_label : DeviceId → PairRow → Database → String
unfolding get_device_name
pair_label dev row db = option_or row.remote_path (option_or (get_device_name dev db.devices) dev)

-- `out` and `self_only`.
pub record LabelMaps : Type 0 where
  pub out : HashMap ℕ String
  pub self_only : HashMap ℕ String

-- `entry(fid).or_insert(..)`
abbrev or_insert : ℕ → String → HashMap ℕ String → HashMap ℕ String
or_insert fid label labels = if contains_key fid labels then labels else insert fid label labels

-- The loop over the rows.
pub label_pairs : DeviceId → Database → HashMap (ℕ × DeviceId) PairRow → LabelMaps → LabelMaps
unfolding pair_label
label_pairs own db [] maps = maps
label_pairs own db (((fid, dev), row) ∷ rows) maps =
    let label = pair_label dev row db in
    label_pairs own db rows (
      if dev == own
      then record maps { self_only = or_insert fid label maps.self_only }
      else record maps { out = or_insert fid label maps.out })

-- The loop over `self_only`.
abbrev pub label_selves : HashMap ℕ String → HashMap ℕ String → HashMap ℕ String
label_selves [] out = out
label_selves ((fid, label) ∷ selves) out = label_selves selves (or_insert fid "this device" out)

unfoldable pub folder_remote_labels : DeviceId → Database → HashMap ℕ String
unfolding label_pairs
folder_remote_labels own_device_id db =
    let rows = order_by pair_leb (keep (λ kv. PairRow.enabled kv.1) db.folder_devices) in
    let maps = label_pairs own_device_id db rows (record { out = []; self_only = [] }) in
    label_selves maps.self_only maps.out
