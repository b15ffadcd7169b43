-- ===== src/Protocol/Framing.antt =====
-- A frame that is parsed back: `frame_message` against `parse_frame` and `parse_chunk_frame`.
use ferri_sync.Prelude.{
  ℕ, zero, suc, ◌+◌, ◌/◌, ◌%◌, ◌^◌, ◌≤◌, ◌<◌, ◌≡◌, refl, ◌∙◌, List, ◌++◌, Option, some, arith,
  if◌then◌else◌, ltb, length, take, length-append, length-take, take-length-append,
}
use ferri_sync.Prelude.Results.{ok, err}
use ferri_sync.Protocol.{
  SyncMessage, frame_too_large, frame_too_short, incomplete_frame, expected_file_chunk,
  is_file_chunk, to_be_bytes, from_be_bytes, frame_message, parse_frame, parse_limited,
  parse_chunk_frame, max_control_frame, max_chunk_frame,
}

be_roundtrip :
    (n m : ℕ)
    → n < 2 ^ 32
    → m ≡ n % 2 ^ 32
    → from_be_bytes (m / 2 ^ 24 % 256) (m / 2 ^ 16 % 256) (m / 2 ^ 8 % 256) (m % 256) ≡ n
be_roundtrip n m h e = omega arith

module _ (serialize : SyncMessage → Option (List ℕ)) (deserialize : List ℕ → Option SyncMessage)
    (round : (m : SyncMessage) (p : List ℕ) → serialize m ≡ some p → deserialize p ≡ some m) where
  -- What a parser with a limit makes of a framed payload and what follows it.
  parse-framed :
      (limit : ℕ) (m : SyncMessage) (p rest : List ℕ)
      → serialize m ≡ some p
      → length p < 2 ^ 32
      → parse_limited serialize deserialize limit (to_be_bytes (length p % 2 ^ 32) ++ p ++ rest)
        ≡ (if ltb limit (length p) then err frame_too_large else ok (m, 4 + length p))
  parse-framed limit m p rest e h =
      rw (be_roundtrip (length p) (length p % 2 ^ 32) h refl) (
        ground
          (arith, length-append p rest, take-length-append p rest (length p) refl, round m p e))

  -- A message that serializes is framed, and from any bytes that start with its frame `parse_frame`
  -- gives the message and the number of bytes of the frame; but if the payload is longer than 1 MiB
  -- (and its length fits the four bytes), the frame is refused as too large.
  pub frame-parse :
      (m : SyncMessage) (p rest : List ℕ)
      → serialize m ≡ some p
      → length p < 2 ^ 32
      → (f : List ℕ) × (frame_message serialize deserialize m ≡ ok f)
        × (parse_frame serialize deserialize (f ++ rest)
            ≡ (if ltb max_control_frame (length p) then err frame_too_large else ok (m, length f)))
  unfolding frame_message parse_frame
  frame-parse m p rest e h = (
    to_be_bytes (length p % 2 ^ 32) ++ p,
    rw e refl,
    parse-framed max_control_frame m p rest e h ∙ ground arith,
  )

  -- `parse_chunk_frame` takes from a frame of at most 128 KiB what is a chunk and refuses every
  -- other message.
  pub frame-parse_chunk :
      (m : SyncMessage) (p rest : List ℕ)
      → serialize m ≡ some p
      → length p ≤ max_chunk_frame
      → (f : List ℕ) × (frame_message serialize deserialize m ≡ ok f)
        × (parse_chunk_frame serialize deserialize (f ++ rest)
            ≡ (if is_file_chunk m then ok (m, length f) else err expected_file_chunk))
  unfolding frame_message parse_chunk_frame
  frame-parse_chunk m p rest e h = (
    to_be_bytes (length p % 2 ^ 32) ++ p,
    rw e refl,
    rw (parse-framed max_chunk_frame m p rest e (omega arith)) (ground arith),
  )

  -- A stream that ends inside a frame is refused and never taken for a message.
  pub frame-parse_prefix :
      (m : SyncMessage) (p : List ℕ) (n : ℕ)
      → serialize m ≡ some p
      → length p ≤ max_control_frame
      → n < 4 + length p
      → (f : List ℕ) × (frame_message serialize deserialize m ≡ ok f)
        × (parse_frame serialize deserialize (take n f)
            ≡ (if ltb n 4 then err frame_too_short else err incomplete_frame))
  unfolding frame_message parse_frame
  frame-parse_prefix m p n e h short =
      (to_be_bytes (length p % 2 ^ 32) ++ p, rw e refl, cut n short)
    where
      cut :
          (n : ℕ)
          → n < 4 + length p
          → parse_limited serialize deserialize max_control_frame
              (take n (to_be_bytes (length p % 2 ^ 32) ++ p))
            ≡ (if ltb n 4 then err frame_too_short else err incomplete_frame)
      cut zero short = refl
      cut (suc zero) short = refl
      cut (suc (suc zero)) short = refl
      cut (suc (suc (suc zero))) short = refl
      cut (suc (suc (suc (suc n)))) short =
          rw (be_roundtrip (length p) (length p % 2 ^ 32) (omega arith) refl)
            (ground (arith, length-take n p))
