-- ===== src/Hello.antt =====
-- ferrisync-core/src/protocol_v2/hello.rs: the handshake message and its validation.
pub mod Rules
pub mod Tests
use Prim.Native.String.{len}
use ferri_sync.Prelude.{ℕ, ◌+◌, Bool, List, [], ◌∷◌, String, if◌then◌else◌, ltb, eqb, length, not}
use ferri_sync.Prelude.Results.{Result, ok, err, guard, ◌>>=◌, ◌>>◌}

abbrev pub protocol_version : ℕ
protocol_version = 3

abbrev pub max_hello_folders : ℕ
max_hello_folders = 256

pub record HelloFolder : Type 0 where
  pub id : String
  pub name : String
  pub direction : String

pub record Hello : Type 0 where
  pub version : ℕ
  pub device_id : String
  pub device_name : String
  pub cert_fingerprint : List ℕ
  pub folders : List HelloFolder

pub data HelloError : Type 0 where
  version_mismatch : ℕ → ℕ → HelloError
  empty_device_id : HelloError
  device_id_too_long : ℕ → ℕ → HelloError
  too_many_folders : ℕ → ℕ → HelloError
  empty_folder_name : ℕ → HelloError

abbrev pub is_empty : String → Bool
is_empty s = eqb (len s) 0

-- The loop over `folders.iter().enumerate()`.
pub check_names : ℕ → List HelloFolder → Result HelloError (Unit {0})
check_names i [] = ok tt
check_names i (folder ∷ folders) =
    if is_empty folder.name then err (empty_folder_name i) else check_names (i + 1) folders

pub validate : Hello → Result HelloError (Unit {0})
validate h = do
  guard (not (ltb protocol_version h.version)) (version_mismatch h.version protocol_version)
  guard (not (is_empty h.device_id)) empty_device_id
  guard (not (ltb 128 (len h.device_id))) (device_id_too_long (len h.device_id) 128)
  guard (not (ltb max_hello_folders (length h.folders)))
      (too_many_folders (length h.folders) max_hello_folders)
  check_names 0 h.folders

-- `Hello::from_device`: `fingerprint` is what the crypto provider computes from the certificate.
pub from_device : String → String → List ℕ → List HelloFolder → Hello
from_device id name fingerprint folders = record {
  version = protocol_version;
  device_id = id;
  device_name = name;
  cert_fingerprint = fingerprint;
  folders = folders;
}
