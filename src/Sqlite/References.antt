-- ===== src/Sqlite/References.antt =====
-- The foreign keys of ferrisync-core/src/persistence/sqlite.rs, which the bundled SQLite enforces: a
-- statement that would leave a violation fails, on a database that has none.
use ferri_sync.Prelude.{
  Bool, true, false, ◌≡◌, refl, sym, ◌∙◌, ◌&&◌, Option, none, some, string_eq, if◌then◌else◌,
  is_some, inl, inr, Bool-cases, arith,
}
use ferri_sync.Prelude.Int.{int_eq}
use ferri_sync.Prelude.Maps.{lookup}
use ferri_sync.Version.{DeviceId}
use ferri_sync.Snapshot.{FolderId}
use ferri_sync.Domain.{HistoryEntry}
use ferri_sync.Storage.References.{all_rows, some_same}
use ferri_sync.Sqlite.{SqliteStore, SqliteFolderRow, FileHistoryRow, TombstoneRow}

abbrev pub device_known : SqliteStore → DeviceId → Bool
device_known s id = is_some (lookup id s.devices)

abbrev pub folder_known : SqliteStore → FolderId → Bool
folder_known s id = is_some (lookup id s.sync_folders)

-- Every `FOREIGN KEY` of the schema.
abbrev pub owners_known : SqliteStore → Bool
owners_known s = all_rows (λ kv. device_known s (SqliteFolderRow.device_id kv.1)) s.sync_folders

abbrev pub files_known : SqliteStore → Bool
files_known s =
    all_rows (λ kv. folder_known s (kv.0.0)) s.file_metadata
    && (all_rows (λ r. folder_known s (HistoryEntry.folder_id (FileHistoryRow.entry r)))
          s.file_history
        && all_rows (λ t. folder_known s (TombstoneRow.folder_id t)) s.tombstones)

abbrev pub keys_hold : SqliteStore → Bool
keys_hold s = owners_known s && files_known s

-- The end of a statement that may violate a foreign key.
unfoldable pub check_keys : SqliteStore → Option SqliteStore
check_keys s = if keys_hold s then some s else none

-- A statement that succeeds leaves what it wrote, without a violation.
pub checked :
    (s after : SqliteStore) → check_keys s ≡ some after → (s ≡ after) × (keys_hold s ≡ true)
unfolding check_keys
checked s after e = elim (Bool-cases (keys_hold s)) [
  | inl kept ↦ (some_same s after (sym (allowed kept) ∙ e), kept)
  | inr broken ↦ absurd (ground (arith, sym (refused broken) ∙ e))
]
  where
    allowed : keys_hold s ≡ true → (if keys_hold s then some s else none) ≡ some s
    allowed kept = rw kept refl

    refused : keys_hold s ≡ false → (if keys_hold s then some s else none) ≡ none
    refused broken = rw broken refl
