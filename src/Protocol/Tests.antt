-- ===== src/Protocol/Tests.antt =====
-- A serializer of two messages, and their frames.
use ferri_sync.Prelude.{
  ℕ, ◌≡◌, refl, List, [], ◌∷◌, ◌++◌, Option, none, some, if◌then◌else◌, ltb, length, take, arith,
}
use ferri_sync.Prelude.Results.{ok, err}
use ferri_sync.Protocol.{
  SyncMessage, list_shared_folders, folder_pair_pending, max_control_frame, frame_message,
  parse_frame, frame_too_large, frame_too_short, incomplete_frame,
}
use ferri_sync.Protocol.Framing.{frame-parse, frame-parse_prefix}

abbrev payload : List ℕ
payload = 8 ∷ 0 ∷ []

abbrev serialize : SyncMessage → Option (List ℕ)
serialize list_shared_folders = some payload
serialize folder_pair_pending = some (11 ∷ [])
serialize _ = none

abbrev deserialize : List ℕ → Option SyncMessage
deserialize (a ∷ b ∷ rest) = some list_shared_folders
deserialize (a ∷ []) = some folder_pair_pending
deserialize [] = none

serialize-deserialize :
    (m : SyncMessage) (p : List ℕ) → serialize m ≡ some p → deserialize p ≡ some m
serialize-deserialize list_shared_folders p e = ground (arith, e)
serialize-deserialize folder_pair_pending p e = ground (arith, e)
serialize-deserialize _ p e = absurd (ground (arith, e))

frame-parse_example :
    (f : List ℕ) × (frame_message serialize deserialize list_shared_folders ≡ ok f)
    × (parse_frame serialize deserialize (f ++ 7 ∷ []) ≡ (
        if ltb max_control_frame (length payload)
        then err frame_too_large
        else ok (list_shared_folders, length f)))
frame-parse_example =
    frame-parse serialize deserialize serialize-deserialize list_shared_folders payload (7 ∷ [])
      refl (omega arith)

frame-parse_prefix_example :
    (f : List ℕ) × (frame_message serialize deserialize list_shared_folders ≡ ok f)
    × (parse_frame serialize deserialize (take 5 f)
        ≡ (if ltb 5 4 then err frame_too_short else err incomplete_frame))
frame-parse_prefix_example =
    frame-parse_prefix serialize deserialize serialize-deserialize list_shared_folders payload 5
      refl (omega arith) (omega arith)
