-- ===== src/Hello/Rules.antt =====
-- `validate` accepts exactly the messages that meet the documented rules.
use Prim.Native.String.{len}
use ferri_sync.Prelude.{
  ℕ, zero, suc, ◌+◌, ◌≤◌, ◌<◌, ◌≡◌, refl, ◌↔◌, List, [], ◌∷◌, String, length, arith, Bool-cases,
  inl, inr, subst,
}
use ferri_sync.Prelude.Predicates.{All}
use ferri_sync.Prelude.Results.{ok, err}
use ferri_sync.Hello.{
  protocol_version, max_hello_folders, HelloFolder, Hello, empty_folder_name, check_names, validate,
  from_device, is_empty,
}

abbrev pub IsNamed : HelloFolder → Type 0
IsNamed f = 0 < len f.name

-- The documented rules.
pub record IsAcceptable (h : Hello) : Type 0 where
  pub supported : h.version ≤ protocol_version
  pub identified : 0 < len h.device_id
  pub id_fits : len h.device_id ≤ 128
  pub folders_fit : length h.folders ≤ max_hello_folders
  pub all_named : All IsNamed h.folders

check_names_sound : (i : ℕ) (fs : List HelloFolder) → check_names i fs ≡ ok tt → All IsNamed fs
unfolding check_names
check_names_sound i [] e = tt
check_names_sound i (f ∷ fs) e = ground (arith, check_names_sound (i + 1) fs)

check_names_complete : (i : ℕ) (fs : List HelloFolder) → All IsNamed fs → check_names i fs ≡ ok tt
unfolding check_names
check_names_complete i [] h = refl
check_names_complete i (f ∷ fs) h = ground (arith, h, check_names_complete (i + 1) fs h.1)

-- `validate` accepts a message exactly if it keeps the documented rules: a known version, a device
-- id of 1 to 128 bytes, and at most 256 folders, each with a name.
pub validate_iff : (h : Hello) → (validate h ≡ ok tt) ↔ IsAcceptable h
unfolding validate
validate_iff h = (sound, complete)
  where
    sound : validate h ≡ ok tt → IsAcceptable h
    sound e = record {
      supported = ground arith;
      identified = ground arith;
      id_fits = ground arith;
      folders_fit = ground arith;
      all_named = check_names_sound 0 h.folders (ground arith);
    }

    complete : IsAcceptable h → validate h ≡ ok tt
    complete a = ground (arith, a, check_names_complete 0 h.folders a.all_named)

-- The folder at the index has no name, and those before it have one.
abbrev pub Unnamed : ℕ → List HelloFolder → Type 0
Unnamed i [] = ⊥
Unnamed zero (f ∷ fs) = len f.name ≡ 0
Unnamed (suc i) (f ∷ fs) = IsNamed f × Unnamed i fs

check_names_first :
    (i k : ℕ) (fs : List HelloFolder)
    → check_names i fs ≡ err (empty_folder_name k)
    → (j : ℕ) × (k ≡ i + j) × Unnamed j fs
unfolding check_names
check_names_first i k [] e = cc
check_names_first i k (f ∷ fs) e = elim (Bool-cases (is_empty f.name)) [
  | inl bad ↦ (0, ground arith, ground arith)
  | inr fine ↦
      let (j, p, q) = check_names_first (i + 1) k fs (ground arith) in
      (suc j, omega (arith, p), (ground arith, q))
]

-- If a message is refused for an empty folder name, the reported index is that of the first folder
-- with no name.
pub validate_first-Unnamed :
    (h : Hello) (k : ℕ) → validate h ≡ err (empty_folder_name k) → Unnamed k h.folders
unfolding validate
validate_first-Unnamed h k e =
    let (j, p, q) = check_names_first 0 k h.folders (ground arith) in
    subst (λ i. Unnamed i h.folders) (omega (arith, p)) q

-- A device with an id of 1 to 128 bytes and at most 256 named folders makes a message that
-- `validate` accepts.
pub from_device-IsAcceptable :
    (id name : String) (fingerprint : List ℕ) (folders : List HelloFolder)
    → 0 < len id
    → len id ≤ 128
    → length folders ≤ max_hello_folders
    → All IsNamed folders
    → validate (from_device id name fingerprint folders) ≡ ok tt
unfolding from_device
from_device-IsAcceptable id name fingerprint folders a b c d =
    (validate_iff (from_device id name fingerprint folders)).1 (record {
      supported = omega arith;
      identified = a;
      id_fits = b;
      folders_fit = c;
      all_named = d;
    })
