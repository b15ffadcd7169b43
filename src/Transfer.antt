-- ===== src/Transfer.antt =====
-- The transfer of one file: `validate_chunk` of ferrisync-core/src/sync/orchestrator.rs, and
-- `send_file_chunks` and the reassembly of chunks of sync_engine/session.rs, which both peers run.
-- Sums and differences of usize wrap, as in a release build.
pub mod Accounts
pub mod Buffer
pub mod Steps
pub mod Roundtrip
pub mod Tests
use Prim.Native.String.{len}
use ferri_sync.Prelude.{
  ℕ, zero, suc, ◌+◌, ◌-◌, ◌*◌, ◌%◌, ◌^◌, min, ◌≡◌, refl, Bool, true, false, not, List, [], ◌∷◌,
  ◌++◌, Option, none, some, String, string_eq, ◌==◌, if◌then◌else◌, ltb, leb, length, take, drop,
  replicate,
}
use ferri_sync.Prelude.Maps.{HashMap, lookup, insert, remove}
use ferri_sync.Protocol.{FileChunk, max_chunk_frame, max_file_size, max_path_len}
use ferri_sync.Prelude.Results.{Result, ok, err, guard, ◌>>=◌, ◌>>◌}

abbrev pub chunk_size : ℕ
chunk_size = 64 * 1024

abbrev pub max_in_flight : ℕ
max_in_flight = 64

abbrev pub max_buffered : ℕ
max_buffered = 256 * 1024 * 1024

abbrev pub word_mod : ℕ
word_mod = 2 ^ 64

pub data ChunkError : Type 0 where
  path_too_long file_too_large chunk_too_large offset_overflow past_total : ChunkError
  too_many_in_flight buffer_limit : ChunkError

pub validate_chunk : FileChunk → ℕ → ℕ → Result ChunkError (Unit {0})
validate_chunk chunk in_flight buffered_bytes = do
  guard (not (ltb max_path_len (len chunk.path))) path_too_long
  guard (not (ltb max_file_size chunk.total_size)) file_too_large
  guard (not (ltb max_chunk_frame (length chunk.bytes))) chunk_too_large
  let end = chunk.offset + length chunk.bytes
  guard (ltb end word_mod) offset_overflow
  guard (not (ltb chunk.total_size end)) past_total
  guard (not (leb max_in_flight in_flight)) too_many_in_flight
  guard (not (ltb max_buffered ((buffered_bytes + length chunk.bytes) % word_mod))) buffer_limit

-- `send_file_chunks` from an offset on; `none` when the fuel runs out.
module _ (folder_id path : String) (bytes : List ℕ) where
  abbrev pub chunk_at : ℕ → ℕ → FileChunk
  chunk_at offset end = record {
    folder_id = folder_id;
    path = path;
    offset = offset;
    bytes = take (end - offset) (drop offset bytes);
    total_size = length bytes;
  }

  abbrev pub add_chunk : FileChunk → Option (List FileChunk) → Option (List FileChunk)
  add_chunk c none = none
  add_chunk c (some cs) = some (c ∷ cs)

  pub send_from : ℕ → ℕ → Option (List FileChunk)
  send_from zero offset = none
  send_from (suc fuel) offset =
      let end = min (offset + chunk_size) (length bytes) in
      let rest = add_chunk (chunk_at offset end) (send_from fuel end) in
      if leb (length bytes) end then some (chunk_at offset end ∷ []) else rest

  pub send_file_chunks : Option (List FileChunk)
  unfolding send_from
  send_file_chunks = send_from (length bytes + 1) 0

-- `entry.resize(end, 0)` where it is shorter, then the copy into `[start..end]`.
pub write_at : List ℕ → ℕ → List ℕ → List ℕ
write_at entry start bytes =
    let end = start + length bytes in
    let grown = entry ++ replicate (end - length entry) 0 in
    take start grown ++ bytes ++ drop end grown

-- `incoming_files` and `buffered_bytes`.
pub record Incoming : Type 0 where
  pub files : HashMap String (List ℕ)
  pub buffered : ℕ

abbrev pub entry_or_empty : Option (List ℕ) → List ℕ
entry_or_empty none = []
entry_or_empty (some e) = e

-- What is done with an accepted chunk: the state after it, and the file if it is complete.
pub store_chunk : FileChunk → Incoming → Incoming × Option (List ℕ)
store_chunk chunk s =
    let entry = write_at (entry_or_empty (lookup chunk.path s.files)) chunk.offset chunk.bytes in
    let buffered = (s.buffered + length chunk.bytes) % word_mod in
    if leb chunk.total_size (chunk.offset + length chunk.bytes)
    then (
      record {
        files = remove chunk.path (insert chunk.path entry s.files);
        buffered = (buffered + word_mod - length entry) % word_mod;
      },
      some entry,
    )
    else (record { files = insert chunk.path entry s.files; buffered = buffered }, none)

-- The arm for `FileChunk` up to the integrity check.
pub receive_chunk : FileChunk → Incoming → Result ChunkError (Incoming × Option (List ℕ))
receive_chunk chunk s =
    if chunk.path == "metadata.db"
    then ok (s, none)
    else (do validate_chunk chunk (length s.files) s.buffered; ok (store_chunk chunk s))

-- The chunks of one file one after another: the state after them and the files that they complete.
pub receive_all : List FileChunk → Incoming → Result ChunkError (Incoming × List (List ℕ))
receive_all [] s = ok (s, [])
receive_all (c ∷ cs) s = do
  (s', done) ← receive_chunk c s
  (s'', more) ← receive_all cs s'
  ok (s'', elim done [ none ↦ more | some f ↦ f ∷ more ])
