-- ===== src/Transfer/Tests.antt =====
-- A small file on its way, a receiver that is nearly full, and a chunk that leaves a gap.
use ferri_sync.Prelude.{
  ℕ, ◌-◌, ◌≤◌, ◌<◌, length, ◌≡◌, refl, ◌≢◌, false, String, string_eq, eq_iff, List, [], ◌∷◌, some,
  none, arith,
}
use ferri_sync.Prelude.Maps.{lookup}
use ferri_sync.Prelude.Results.{ok, err, is_ok}
use ferri_sync.Protocol.{FileChunk}
use ferri_sync.Transfer.{
  Incoming, buffer_limit, send_file_chunks, receive_all, validate_chunk, store_chunk,
}
use ferri_sync.Transfer.Steps.{IsReady}
use ferri_sync.Transfer.Roundtrip.{send-receive, send-receive_overflow}
use ferri_sync.Transfer.Accounts.{validate_chunk-gap}

abbrev content : List ℕ
content = 104 ∷ 105 ∷ []

abbrev idle : Incoming
idle = record { files = []; buffered = 0 }

abbrev nearly_full : Incoming
nearly_full = record { files = []; buffered = 268_435_455 }

not_metadata : ◌≢◌ {A = String} "a.txt" "metadata.db"
not_metadata e = cc ((eq_iff {T = String} "a.txt" "metadata.db").1 e)

idle-IsReady : IsReady "a.txt" content idle
unfolding lookup
idle-IsReady = record {
  is_file = not_metadata;
  path_fits = omega arith;
  unseen = refl;
  slots = omega arith;
  allowed = omega arith;
}

nearly_full-IsReady : IsReady "a.txt" content nearly_full
unfolding lookup
nearly_full-IsReady = record {
  is_file = not_metadata;
  path_fits = omega arith;
  unseen = refl;
  slots = omega arith;
  allowed = omega arith;
}

send-receive_example :
    (cs : List FileChunk) × (send_file_chunks "1" "a.txt" content ≡ some cs)
    × (receive_all cs idle ≡ ok (idle, content ∷ []))
send-receive_example = send-receive "1" "a.txt" content idle idle-IsReady (omega arith)

send-receive_overflow_example :
    (cs : List FileChunk) × (send_file_chunks "1" "a.txt" content ≡ some cs)
    × (receive_all cs nearly_full ≡ err buffer_limit)
send-receive_overflow_example =
    send-receive_overflow "1" "a.txt" content nearly_full nearly_full-IsReady (omega arith)
      (omega arith)

abbrev gap : FileChunk
gap = record { folder_id = "1"; path = "a.txt"; offset = 5; bytes = 1 ∷ []; total_size = 6 }

abbrev next : FileChunk
next = record { folder_id = "1"; path = "b.txt"; offset = 0; bytes = 1 ∷ []; total_size = 1 }

nothing_there : lookup gap.path idle.files ≡ none
unfolding lookup
nothing_there = refl

validate_chunk-gap_example :
    let buffered = (store_chunk gap idle).0.buffered in
    (length next.bytes < gap.offset - idle.buffered
      → is_ok (validate_chunk next 0 buffered) ≡ false)
    × (gap.offset - idle.buffered ≤ length next.bytes
        → is_ok (validate_chunk next 0 buffered) ≡ is_ok (validate_chunk next 0 0))
validate_chunk-gap_example =
    validate_chunk-gap gap next idle 0 nothing_there (omega arith) (omega arith) (omega arith)
