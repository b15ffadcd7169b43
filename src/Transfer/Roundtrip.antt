-- ===== src/Transfer/Roundtrip.antt =====
-- A file that is sent in chunks and received in order arrives whole, and the receiver's accounts
-- are as before; a file beyond the buffer limit never arrives.
use ferri_sync.Prelude.{
  ℕ, zero, suc, ◌+◌, ◌-◌, ◌≤◌, ◌<◌, ◌≡◌, refl, ap, ◌∙◌, List, [], ◌∷◌, some, String, string_eq,
  arith, leb, length, Bool-cases, inl, inr,
}
use ferri_sync.Prelude.Results.{ok, err}
use ferri_sync.Protocol.{FileChunk}
use ferri_sync.Transfer.{
  buffer_limit, Incoming, chunk_size, max_buffered, word_mod, chunk_at, send_from, send_file_chunks,
  entry_or_empty, receive_all,
}
use ferri_sync.Transfer.Steps.{
  IsReady, Holds, receive_last, receive_more, refuses, send_last, send_more,
}

module _ (folder_id path : String) (bytes : List ℕ) where
  sends :
      (fuel o : ℕ)
      → o ≤ length bytes
      → length bytes - o < fuel
      → (cs : List FileChunk) × (send_from folder_id path bytes fuel o ≡ some cs)
  sends zero o low enough = absurd (omega arith)
  sends (suc fuel) o low enough = elim (Bool-cases (leb (length bytes) (o + chunk_size))) [
    | inl last ↦ (
      chunk_at folder_id path bytes o (length bytes) ∷ [],
      send_last folder_id path bytes fuel o (ground arith),
    )
    | inr more ↦
        let (cs, sent) = sends fuel (o + chunk_size) (ground arith) (ground arith) in
        (
          chunk_at folder_id path bytes o (o + chunk_size) ∷ cs,
          send_more folder_id path bytes fuel o (ground arith) ∙ rw sent,
        )
  ]

  deliver :
      (s : Incoming) (fuel o : ℕ) (t : Incoming)
      → IsReady path bytes s
      → s.buffered + length bytes ≤ max_buffered
      → Holds path bytes s o t
      → o ≤ length bytes
      → length bytes - o < fuel
      → (cs : List FileChunk) × (send_from folder_id path bytes fuel o ≡ some cs)
        × (receive_all cs t ≡ ok (s, bytes ∷ []))
  unfolding receive_all
  deliver s zero o t room space h low enough = absurd (omega arith)
  deliver s (suc fuel) o t room space h low enough =
      elim (Bool-cases (leb (length bytes) (o + chunk_size))) [
        | inl last ↦ (
          chunk_at folder_id path bytes o (length bytes) ∷ [],
          send_last folder_id path bytes fuel o (ground arith),
          rw (receive_last folder_id path bytes s o t room h low (ground arith) space) refl,
        )
        | inr more ↦
            let (t', step, h') =
              receive_more folder_id path bytes s o t room h (ground arith) (ground arith) in
            let (cs, sent, got) =
              deliver s fuel (o + chunk_size) t' room space h' (ground arith) (ground arith) in
            (
              chunk_at folder_id path bytes o (o + chunk_size) ∷ cs,
              send_more folder_id path bytes fuel o (ground arith) ∙ rw sent,
              rw (step, got) refl,
            )
      ]

  overflow :
      (s : Incoming) (fuel o : ℕ) (t : Incoming)
      → IsReady path bytes s
      → max_buffered < s.buffered + length bytes
      → s.buffered + length bytes < word_mod
      → Holds path bytes s o t
      → o ≤ length bytes
      → length bytes - o < fuel
      → (cs : List FileChunk) × (send_from folder_id path bytes fuel o ≡ some cs)
        × (receive_all cs t ≡ err buffer_limit)
  unfolding receive_all
  overflow s zero o t room over small h low enough = absurd (omega arith)
  overflow s (suc fuel) o t room over small h low enough =
      elim (Bool-cases (leb (length bytes) (o + chunk_size))) [
        | inl last ↦ (
          chunk_at folder_id path bytes o (length bytes) ∷ [],
          send_last folder_id path bytes fuel o (ground arith),
          rw
              (refuses folder_id path bytes s o (length bytes) t room h low (omega arith)
                (ground arith) over small)
              refl,
        )
        | inr more ↦ elim (Bool-cases (leb (s.buffered + (o + chunk_size)) max_buffered)) [
          | inl fits ↦
              let (t', step, h') =
                receive_more folder_id path bytes s o t room h (ground arith) (ground arith) in
              let (cs, sent, got) =
                overflow s fuel (o + chunk_size) t' room over small h' (ground arith)
                  (ground arith) in
              (
                chunk_at folder_id path bytes o (o + chunk_size) ∷ cs,
                send_more folder_id path bytes fuel o (ground arith) ∙ rw sent,
                rw (step, got) refl,
              )
          | inr full ↦
              let (cs, sent) = sends fuel (o + chunk_size) (ground arith) (ground arith) in
              (
                chunk_at folder_id path bytes o (o + chunk_size) ∷ cs,
                send_more folder_id path bytes fuel o (ground arith) ∙ rw sent,
                rw
                    (refuses folder_id path bytes s o (o + chunk_size) t room h (omega arith)
                      (ground arith) (omega arith) (ground arith) (ground arith))
                    refl,
              )
        ]
      ]

  start_Holds : (s : Incoming) → IsReady path bytes s → Holds path bytes s 0 s
  start_Holds s room = record {
    prefix = ap entry_or_empty room.unseen;
    others = λ v. refl;
    slots = omega (arith, room.slots);
    counted = omega arith;
  }

  -- Sending a file ends, and a receiver with a free slot and none of the file yet, whose buffered
  -- bytes stay within the limit with it, gets exactly the file and is left as it was; the file is
  -- not the database, its path fits, and its size is allowed.
  pub send-receive :
      (s : Incoming)
      → IsReady path bytes s
      → s.buffered + length bytes ≤ max_buffered
      → (cs : List FileChunk) × (send_file_chunks folder_id path bytes ≡ some cs)
        × (receive_all cs s ≡ ok (s, bytes ∷ []))
  unfolding send_file_chunks
  send-receive s room space =
      deliver s (length bytes + 1) 0 s room space (start_Holds s room) (omega arith) (omega arith)

  -- Under the same conditions on the receiver, a file that would take the buffered bytes past the
  -- limit of 256 MiB is refused on the way, although its size is allowed; the sum of the buffered
  -- bytes and the size is within usize.
  pub send-receive_overflow :
      (s : Incoming)
      → IsReady path bytes s
      → max_buffered < s.buffered + length bytes
      → s.buffered + length bytes < word_mod
      → (cs : List FileChunk) × (send_file_chunks folder_id path bytes ≡ some cs)
        × (receive_all cs s ≡ err buffer_limit)
  unfolding send_file_chunks
  send-receive_overflow s room over small =
      overflow s (length bytes + 1) 0 s room over small (start_Holds s room) (omega arith)
        (omega arith)
