-- ===== src/Storage/Schema.antt =====
-- What opening a database does to the rows that are there: the end of `initialize_schema` in
-- ferrisync-core/src/storage/mod.rs. The tables and columns are those of Storage.antt.
use ferri_sync.Prelude.{
  ℕ, Bool, true, [], ◌∷◌, ◌++◌, map, Option, none, some, String, string_eq, nat_eq, pair_eq,
  list_eq, ◌==◌, if◌then◌else◌, is_some,
}
use ferri_sync.Prelude.Maps.{HashMap, lookup}
use ferri_sync.Version.{DeviceId}
use ferri_sync.Storage.{Database, FolderRow, PairRow}
use ferri_sync.Prelude.Options.{option_or}
use ferri_sync.Storage.References.{enforce}
use ferri_sync.Storage.{Database}
use ferri_sync.Storage.Labels.{path_label}

-- `INSERT OR IGNORE INTO folder_devices .. SELECT id, device_id, direction, active`
abbrev pub backfill_pair :
    ℕ → FolderRow → HashMap (ℕ × DeviceId) PairRow → HashMap (ℕ × DeviceId) PairRow
backfill_pair id f pairs =
    if is_some (lookup (id, f.device_id) pairs)
    then pairs
    else pairs
      ++ ((id, f.device_id), record { mode = f.direction; remote_path = none; enabled = f.active })
        ∷ []

unfoldable pub backfill_pairs :
    HashMap ℕ FolderRow → HashMap (ℕ × DeviceId) PairRow → HashMap (ℕ × DeviceId) PairRow
backfill_pairs [] pairs = pairs
backfill_pairs ((id, f) ∷ folders) pairs = backfill_pairs folders (backfill_pair id f pairs)

-- One statement, whose error is ignored: a violated foreign key takes all its rows back.
unfoldable pub backfill : Database → Database
unfolding backfill_pairs enforce
backfill db =
    option_or
      (enforce (record db { folder_devices = backfill_pairs db.sync_folders db.folder_devices })) db

-- `IS NULL OR .. = ''`
abbrev pub is_unset : Option String → Bool
is_unset none = true
is_unset (some s) = s == ""

module _ (new_folder_guid : ℕ → String) where
  -- The guid and the name of one folder after the two loops.
  unfoldable pub complete_row : ℕ → FolderRow → FolderRow
  unfolding path_label
  complete_row id f = record f {
    folder_guid = if is_unset f.folder_guid then some (new_folder_guid id) else f.folder_guid;
    name = if is_unset f.name then some (path_label f.local_path) else f.name;
  }

  abbrev pub complete_rows : HashMap ℕ FolderRow → HashMap ℕ FolderRow
  complete_rows rows = map (λ kv. (kv.0, complete_row (kv.0) (kv.1))) rows

  unfoldable pub initialize_schema : Database → Database
  unfolding backfill complete_row
  initialize_schema db =
      let filled = backfill db in record filled { sync_folders = complete_rows filled.sync_folders }
