-- ===== src/Sqlite/Files.antt =====
-- Metadata, history, tombstones and sessions of ferrisync-core/src/persistence/sqlite.rs.
use ferri_sync.Prelude.{
  ℕ, ◌-◌, ◌&&◌, List, [], ◌∷◌, ◌++◌, map, Option, none, some, string_eq, pair_eq, ◌==◌, keep,
  length, take, replicate, reverse_onto,
}
use ferri_sync.Prelude.Int.{ℤ, int_eq, int_leb, of_word, as_u64}
use ferri_sync.Prelude.Maps.{lookup, insert}
use ferri_sync.Prelude.Options.{option_bind, option_or}
use ferri_sync.Snapshot.{FilePath, FileHash, FolderId, Tombstone, file}
use ferri_sync.Domain.{FileMetadata, HistoryEntry, SessionRecord}
use ferri_sync.Storage.{MetadataRow, SessionRow}
use ferri_sync.Storage.Records.{metadata_row, session_row, read_session}
use ferri_sync.Sqlite.References.{check_keys}
use ferri_sync.Sqlite.{SqliteStore, TombstoneRow}

-- The first 32 bytes of the column, filled up with zeros.
abbrev pub read_hash : List ℕ → FileHash
read_hash raw = take 32 raw ++ replicate (32 - length raw) 0

-- A row of the table as metadata.
abbrev pub read_metadata : FolderId × FilePath → MetadataRow → FileMetadata
read_metadata (folder_id, path) row = record {
  path = path;
  folder_id = folder_id;
  kind = file;
  mtime = row.mtime;
  size = row.size;
  hash = read_hash (option_or row.hash []);
  device_id = option_or row.device_id "";
  version = row.version;
  local_version = row.local_version;
  remote_version = row.remote_version;
  local_mtime = row.local_mtime;
  remote_mtime = row.remote_mtime;
}

unfoldable pub get_file_metadata : FolderId → FilePath → SqliteStore → Option FileMetadata
get_file_metadata folder_id path s = elim (lookup (folder_id, path) s.file_metadata) [
  | none ↦ none
  | some row ↦ some (read_metadata (folder_id, path) row)
]

-- The versions of the metadata are not among the columns that are written.
unfoldable pub upsert_file_metadata : FileMetadata → SqliteStore → Option SqliteStore
unfolding check_keys
upsert_file_metadata meta s =
    let key : FolderId × FilePath = (meta.folder_id, meta.path) in
    check_keys (record s {
      file_metadata =
          insert key
            (metadata_row meta.mtime meta.size meta.hash meta.device_id
              (lookup key s.file_metadata))
            s.file_metadata;
    })

-- `now` is `unixepoch()`.
unfoldable pub record_history : ℤ → HistoryEntry → SqliteStore → Option SqliteStore
unfolding check_keys
record_history now entry s =
    check_keys (record s {
      file_history = s.file_history ++ record { entry = entry; recorded_at = now } ∷ [];
    })

abbrev pub read_tombstone : TombstoneRow → Tombstone
read_tombstone row = record {
  path = row.path;
  folder_id = row.folder_id;
  device_id = row.device_id;
  deleted_at = as_u64 row.deleted_at;
}

unfoldable pub get_tombstones : FolderId → ℕ → SqliteStore → List Tombstone
get_tombstones folder_id since s = map read_tombstone (
    keep
      (λ t.
        (TombstoneRow.folder_id t == folder_id)
        && int_leb (of_word since) (TombstoneRow.deleted_at t))
      s.tombstones)

abbrev pub tombstone_row : Tombstone → TombstoneRow
tombstone_row tomb = record {
  folder_id = tomb.folder_id;
  path = tomb.path;
  device_id = tomb.device_id;
  deleted_at = of_word tomb.deleted_at;
}

unfoldable pub add_tombstone : Tombstone → SqliteStore → Option SqliteStore
unfolding check_keys
add_tombstone tomb s =
    check_keys (record s { tombstones = s.tombstones ++ tombstone_row tomb ∷ [] })

unfoldable pub record_session : SessionRecord → SqliteStore → SqliteStore
record_session session s = record s { sync_sessions = s.sync_sessions ++ session_row session ∷ [] }

-- `collect::<Result<Vec<_>>>()`: the first row that cannot be read fails the call.
abbrev pub collect_session_rows : List SessionRow → Option (List SessionRecord)
collect_session_rows [] = some []
collect_session_rows (row ∷ rows) =
    option_bind (read_session row)
      (λ r. option_bind (collect_session_rows rows) (λ rs. some (r ∷ rs)))

-- `ORDER BY id DESC LIMIT ?1`
unfoldable pub list_recent_sessions : ℕ → SqliteStore → Option (List SessionRecord)
unfolding read_session
list_recent_sessions limit s = collect_session_rows (take limit (reverse_onto s.sync_sessions []))
