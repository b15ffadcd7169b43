-- ===== src/Protocol.antt =====
-- ferrisync-core/src/protocol/mod.rs: the messages of a session and their length-prefixed frames.
pub mod Framing
pub mod Tests
use ferri_sync.Prelude.{
  ℕ, ◌+◌, ◌*◌, ◌/◌, ◌%◌, ◌^◌, Bool, true, false, List, [], ◌∷◌, ◌++◌, Option, none, some, String,
  if◌then◌else◌, ltb, length, take,
}
use ferri_sync.Prelude.Int.{ℤ}
use ferri_sync.Prelude.Results.{Result, ok, err, ◌>>=◌}
use ferri_sync.Hello.{Hello}

abbrev pub max_control_frame : ℕ
max_control_frame = 1024 * 1024

abbrev pub max_chunk_frame : ℕ
max_chunk_frame = 128 * 1024

abbrev pub max_file_size : ℕ
max_file_size = 10 * 1024 * 1024 * 1024

abbrev pub max_path_len : ℕ
max_path_len = 1024

abbrev pub max_file_request_paths : ℕ
max_file_request_paths = 1000

abbrev pub max_index_entries : ℕ
max_index_entries = 100_000

pub record PairRequest : Type 0 where
  pub device_id : String
  pub device_name : String
  pub cert_fingerprint : List ℕ

pub record PairResponse : Type 0 where
  pub accepted : Bool
  pub device_id : String
  pub device_name : String
  pub cert_fingerprint : List ℕ
  pub reason : Option String

pub record IndexEntry : Type 0 where
  pub path : String
  pub local_version : ℕ
  pub remote_version : ℕ
  pub mtime : ℤ
  pub size : ℕ
  pub hash : List ℕ

pub record Index : Type 0 where
  pub folder_id : String
  pub device_id : String
  pub remote_path : Option String
  pub entries : List IndexEntry

pub record FileRequest : Type 0 where
  pub folder_id : String
  pub paths : List String

pub record FileChunk : Type 0 where
  pub folder_id : String
  pub path : String
  pub offset : ℕ
  pub bytes : List ℕ
  pub total_size : ℕ

pub record Ack : Type 0 where
  pub path : String
  pub success : Bool
  pub error : Option String

pub data ErrorCode : Type 0 where
  protocol_version_mismatch authentication_failed file_not_found : ErrorCode
  permission_denied internal_error : ErrorCode

pub record ErrorMessage : Type 0 where
  pub code : ErrorCode
  pub message : String

pub record SharedFolderInfo : Type 0 where
  pub folder_guid : String
  pub name : String
  pub mode : String
  pub local_path : String

pub record RemoteFolderPair : Type 0 where
  pub folder_guid : String
  pub name : String
  pub mode : String
  pub remote_path : Option String

pub record RemoteFolderPairRequest : Type 0 where
  pub device_id : String
  pub device_name : String
  pub folder_guid : String
  pub name : String
  pub mode : String

pub data SyncMessage : Type 0 where
  hello : Hello → SyncMessage
  pair_request : PairRequest → SyncMessage
  pair_response : PairResponse → SyncMessage
  index : Index → SyncMessage
  file_request : FileRequest → SyncMessage
  file_chunk : FileChunk → SyncMessage
  ack : Ack → SyncMessage
  error : ErrorMessage → SyncMessage
  list_shared_folders : SyncMessage
  shared_folders : List SharedFolderInfo → SyncMessage
  request_folder_pair : RemoteFolderPairRequest → SyncMessage
  folder_pair_pending : SyncMessage
  folder_pair_approved : RemoteFolderPair → SyncMessage
  folder_pair_rejected : String → SyncMessage

pub is_file_chunk : SyncMessage → Bool
is_file_chunk (file_chunk c) = true
is_file_chunk _ = false

pub data FrameError : Type 0 where
  serialize_failed frame_too_short frame_too_large incomplete_frame : FrameError
  deserialize_failed expected_file_chunk : FrameError

-- `u32::to_be_bytes` and back.
abbrev pub to_be_bytes : ℕ → List ℕ
to_be_bytes n = n / 2 ^ 24 % 256 ∷ n / 2 ^ 16 % 256 ∷ n / 2 ^ 8 % 256 ∷ n % 256 ∷ []

abbrev pub from_be_bytes : ℕ → ℕ → ℕ → ℕ → ℕ
from_be_bytes a b c d = a * 2 ^ 24 + b * 2 ^ 16 + c * 2 ^ 8 + d

-- The serializer is a library, bincode: its two functions are parameters.
module _ (serialize : SyncMessage → Option (List ℕ))
    (deserialize : List ℕ → Option SyncMessage) where
  abbrev framed : Option (List ℕ) → Result FrameError (List ℕ)
  framed none = err serialize_failed
  framed (some payload) = ok (to_be_bytes (length payload % 2 ^ 32) ++ payload)

  pub frame_message : SyncMessage → Result FrameError (List ℕ)
  frame_message msg = framed (serialize msg)

  abbrev pub or_failed : Option SyncMessage → Result FrameError SyncMessage
  or_failed none = err deserialize_failed
  or_failed (some msg) = ok msg

  -- Both parsers, up to their limit.
  abbrev pub parse_limited : ℕ → List ℕ → Result FrameError (SyncMessage × ℕ)
  parse_limited limit (a ∷ b ∷ c ∷ d ∷ rest) =
      let len = from_be_bytes a b c d in
      if ltb limit len
      then err frame_too_large
      else if ltb (length rest) len
      then err incomplete_frame
      else (or_failed (deserialize (take len rest)) >>= λ msg. ok (msg, 4 + len))
  parse_limited limit _ = err frame_too_short

  pub parse_frame : List ℕ → Result FrameError (SyncMessage × ℕ)
  parse_frame bytes = parse_limited max_control_frame bytes

  abbrev only_chunk : SyncMessage × ℕ → Result FrameError (SyncMessage × ℕ)
  only_chunk (msg, used) = if is_file_chunk msg then ok (msg, used) else err expected_file_chunk

  pub parse_chunk_frame : List ℕ → Result FrameError (SyncMessage × ℕ)
  unfolding is_file_chunk
  parse_chunk_frame bytes = parse_limited max_chunk_frame bytes >>= only_chunk
