-- ===== src/Transfer/Steps.antt =====
-- One chunk on its way: what the sender cuts off, and what a receiver that holds the bytes before it
-- makes of it.
use Prim.Native.String.{len}
use ferri_sync.Prelude.{
  ℕ, suc, ◌+◌, ◌-◌, min, ◌≤◌, ◌<◌, ◌≡◌, ap, ◌∙◌, ◌≢◌, List, [], ◌∷◌, none, some, String, string_eq,
  eq_iff, arith, length, take, drop, length-take, length-drop,
}
use ferri_sync.Prelude.Maps.{lookup, insert, lookup-insert_self}
use ferri_sync.Prelude.Results.{ok, err}
use ferri_sync.Protocol.{max_file_size, max_path_len}
use ferri_sync.Transfer.{
  buffer_limit, Incoming, chunk_size, max_buffered, max_in_flight, chunk_at, add_chunk, send_from,
  word_mod, validate_chunk, write_at, store_chunk, entry_or_empty, receive_chunk,
}
use ferri_sync.Transfer.Buffer.{
  take_all, take-append-take-drop, write_at_end, insert-insert, remove-insert, length-insert,
}

-- A receiver that has a free slot for the file and none of it yet.
pub record IsReady (path : String) (bytes : List ℕ) (s : Incoming) : Type 0 where
  pub is_file : path ≢ "metadata.db"
  pub path_fits : len path ≤ max_path_len
  pub unseen : lookup path s.files ≡ none
  pub slots : length s.files + 1 < max_in_flight
  pub allowed : length bytes ≤ max_file_size

-- The receiver after the first `o` bytes of the file.
pub record Holds (path : String) (bytes : List ℕ) (s : Incoming) (o : ℕ) (t : Incoming)
    : Type 0 where
  pub prefix : entry_or_empty (lookup path t.files) ≡ take o bytes
  pub others : (v : List ℕ) → insert path v t.files ≡ insert path v s.files
  pub slots : length t.files < max_in_flight
  pub counted : t.buffered ≡ s.buffered + o

module _ (folder_id path : String) (bytes : List ℕ) where
  length-piece : (o end : ℕ) → end ≤ length bytes → length (take (end - o) (drop o bytes)) ≡ end - o
  length-piece o end h = omega (arith, length-take (end - o) (drop o bytes), length-drop o bytes)

  entry-written :
      (o end : ℕ) (t : Incoming)
      → o ≤ end
      → end ≤ length bytes
      → entry_or_empty (lookup path t.files) ≡ take o bytes
      → write_at (entry_or_empty (lookup path t.files)) o (take (end - o) (drop o bytes))
        ≡ take end bytes
  entry-written o end t h k e =
      ap (λ x. write_at x o (take (end - o) (drop o bytes))) e
      ∙ write_at_end (take o bytes) (take (end - o) (drop o bytes)) o
          (omega (arith, length-take o bytes))
      ∙ take-append-take-drop o (end - o) bytes
      ∙ ap (λ n. take n bytes) (omega arith)

  accepts :
      (o end : ℕ) (t : Incoming)
      → path ≢ "metadata.db"
      → len path ≤ max_path_len
      → o ≤ end
      → end ≤ length bytes
      → end - o ≤ chunk_size
      → length t.files < max_in_flight
      → t.buffered + (end - o) ≤ max_buffered
      → length bytes ≤ max_file_size
      → receive_chunk (chunk_at folder_id path bytes o end) t
        ≡ ok (store_chunk (chunk_at folder_id path bytes o end) t)
  unfolding receive_chunk validate_chunk
  accepts o end t a b c d e f g h = ground (arith, eq_iff path "metadata.db", length-piece o end d)

  -- The last chunk completes the file and leaves the receiver as it was before the first.
  pub receive_last :
      (s : Incoming) (o : ℕ) (t : Incoming)
      → IsReady path bytes s
      → Holds path bytes s o t
      → o ≤ length bytes
      → length bytes - o ≤ chunk_size
      → s.buffered + length bytes ≤ max_buffered
      → receive_chunk (chunk_at folder_id path bytes o (length bytes)) t ≡ ok (s, some bytes)
  unfolding store_chunk
  receive_last s o t room h low last space =
      accepts o (length bytes) t room.is_file room.path_fits low (omega arith) last h.slots
        (omega (arith, h.counted, space)) room.allowed
      ∙ ground (
        arith,
        whole,
        length-piece o (length bytes) (omega arith),
        h.others bytes,
        remove-insert path bytes s.files room.unseen,
        h.counted,
        space,
        low,
      )
    where
      whole :
          write_at (entry_or_empty (lookup path t.files)) o (take (length bytes - o) (drop o bytes))
          ≡ bytes
      whole =
          entry-written o (length bytes) t low (omega arith) h.prefix
          ∙ take_all bytes (length bytes) (omega arith)

  -- A chunk before the last is added to the entry.
  pub receive_more :
      (s : Incoming) (o : ℕ) (t : Incoming)
      → IsReady path bytes s
      → Holds path bytes s o t
      → o + chunk_size < length bytes
      → s.buffered + (o + chunk_size) ≤ max_buffered
      → (t' : Incoming) × (receive_chunk (chunk_at folder_id path bytes o (o + chunk_size)) t
          ≡ ok (t', none))
        × Holds path bytes s (o + chunk_size) t'
  unfolding store_chunk
  receive_more s o t room h more space = (
    record {
      files = insert path (take (o + chunk_size) bytes) t.files;
      buffered = t.buffered + chunk_size;
    },
    accepts o (o + chunk_size) t room.is_file room.path_fits (omega arith) (omega arith)
          (omega arith) h.slots (omega (arith, h.counted, space)) room.allowed
        ∙ ground (
          arith,
          entry-written o (o + chunk_size) t (omega arith) (omega arith) h.prefix,
          length-piece o (o + chunk_size) (omega arith),
          h.counted,
          more,
        ),
    record {
      prefix = ap entry_or_empty (lookup-insert_self path (take (o + chunk_size) bytes) t.files);
      others = λ v. insert-insert path v (take (o + chunk_size) bytes) t.files ∙ h.others v;
      slots = omega (
        arith,
        ap length (h.others (take (o + chunk_size) bytes)),
        length-insert path (take (o + chunk_size) bytes) s.files,
        room.slots,
      );
      counted = omega (arith, h.counted);
    },
  )

  -- A chunk past the buffer limit is refused.
  pub refuses :
      (s : Incoming) (o end : ℕ) (t : Incoming)
      → IsReady path bytes s
      → Holds path bytes s o t
      → o ≤ end
      → end ≤ length bytes
      → end - o ≤ chunk_size
      → max_buffered < s.buffered + end
      → s.buffered + end < word_mod
      → receive_chunk (chunk_at folder_id path bytes o end) t ≡ err buffer_limit
  unfolding receive_chunk validate_chunk
  refuses s o end t room h a b c over small = ground (
    arith,
    eq_iff path "metadata.db",
    length-piece o end b,
    room.is_file,
    room.path_fits,
    room.allowed,
    h.slots,
    h.counted,
  )

  pub send_last :
      (fuel o : ℕ)
      → length bytes ≤ o + chunk_size
      → send_from folder_id path bytes (suc fuel) o
        ≡ some (chunk_at folder_id path bytes o (length bytes) ∷ [])
  unfolding send_from
  send_last fuel o h =
      let e : min (o + chunk_size) (length bytes) ≡ length bytes = omega arith in
      rw (e, send_from) (ground arith)

  pub send_more :
      (fuel o : ℕ)
      → o + chunk_size < length bytes
      → send_from folder_id path bytes (suc fuel) o
        ≡ add_chunk folder_id path bytes
            (chunk_at folder_id path bytes o (o + chunk_size))
            (send_from folder_id path bytes fuel (o + chunk_size))
  unfolding send_from
  send_more fuel o h =
      let e : min (o + chunk_size) (length bytes) ≡ o + chunk_size = omega arith in
      rw (e, send_from) (ground arith)
