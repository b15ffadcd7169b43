-- ===== src/Transfer/Accounts.antt =====
-- What a chunk that leaves a gap does to `buffered_bytes`.
use ferri_sync.Prelude.{
  ℕ, sym, subst, ◌+◌, ◌-◌, ◌≤◌, ◌<◌, ◌≡◌, false, List, [], ◌++◌, none, string_eq, arith, length,
  take, drop, replicate, length-append, length-take, length-drop, length-replicate,
}
use ferri_sync.Prelude.Maps.{lookup}
use ferri_sync.Prelude.Results.{is_ok}
use ferri_sync.Protocol.{FileChunk, max_file_size}
use ferri_sync.Transfer.{Incoming, word_mod, write_at, store_chunk, validate_chunk}

-- The entry that a first piece makes: zeros up to the piece, then the piece.
length-write_at_new :
    (bytes : List ℕ) (start : ℕ) → length (write_at [] start bytes) ≡ start + length bytes
unfolding write_at
length-write_at_new bytes start = parts (replicate (start + length bytes - 0) 0) zeros
  where
    zeros : length (replicate {A = ℕ} (start + length bytes - 0) 0) ≡ start + length bytes
    zeros = omega (arith, length-replicate {A = ℕ} (start + length bytes - 0) 0)

    parts :
        (grown : List ℕ)
        → length grown ≡ start + length bytes
        → length (take start grown ++ bytes ++ drop (start + length bytes) grown)
          ≡ start + length bytes
    parts grown e = omega (
      arith,
      length-take start grown,
      length-drop (start + length bytes) grown,
      length-append (take start grown) bytes,
      length-append (take start grown ++ bytes) (drop (start + length bytes) grown),
    )

-- A first chunk that completes its file and starts past the bytes buffered so far makes the
-- subtraction wrap by the gap.
pub gap-buffered :
    (c : FileChunk) (s : Incoming)
    → lookup c.path s.files ≡ none
    → c.offset + length c.bytes ≡ c.total_size
    → c.total_size ≤ max_file_size
    → s.buffered < c.offset
    → (store_chunk c s).0.buffered ≡ word_mod - (c.offset - s.buffered)
unfolding store_chunk
gap-buffered c s fresh complete small gap =
    rw fresh (ground (arith, length-write_at_new c.bytes c.offset))

limit :
    (next : FileChunk) (in_flight gap : ℕ)
    → 0 < gap
    → gap ≤ max_file_size
    → (length next.bytes < gap → is_ok (validate_chunk next in_flight (word_mod - gap)) ≡ false)
      × (gap ≤ length next.bytes
          → is_ok (validate_chunk next in_flight (word_mod - gap))
            ≡ is_ok (validate_chunk next in_flight 0))
unfolding validate_chunk
limit next in_flight gap some_gap small = (λ short. ground arith, λ long. ground arith)

-- After a first chunk of a file that completes it, is within the size limit, and starts past the
-- bytes buffered so far, the session refuses every chunk that is shorter than the gap, and a chunk
-- at least as long as the gap passes the checks exactly if it passes them with nothing buffered.
pub validate_chunk-gap :
    (c next : FileChunk) (s : Incoming) (in_flight : ℕ)
    → lookup c.path s.files ≡ none
    → c.offset + length c.bytes ≡ c.total_size
    → c.total_size ≤ max_file_size
    → s.buffered < c.offset
    → let buffered = (store_chunk c s).0.buffered in
      (length next.bytes < c.offset - s.buffered
        → is_ok (validate_chunk next in_flight buffered) ≡ false)
      × (c.offset - s.buffered ≤ length next.bytes
          → is_ok (validate_chunk next in_flight buffered)
            ≡ is_ok (validate_chunk next in_flight 0))
validate_chunk-gap c next s in_flight fresh complete small gap =
    subst
      (λ b.
        (length next.bytes < c.offset - s.buffered
          → is_ok (validate_chunk next in_flight b) ≡ false)
        × (c.offset - s.buffered ≤ length next.bytes
            → is_ok (validate_chunk next in_flight b) ≡ is_ok (validate_chunk next in_flight 0)))
      (sym (gap-buffered c s fresh complete small gap))
      (limit next in_flight (c.offset - s.buffered) (omega arith) (omega arith))
