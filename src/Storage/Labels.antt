-- ===== src/Storage/Labels.antt =====
-- Folder names in ferrisync-core/src/storage/mod.rs: the label of a path.
use Prim.Native.Char.{Char, code}
use ferri_sync.Prelude.{
  leb, Bool, true, not, ◌&&◌, ◌||◌, List, [], ◌∷◌, Option, none, some, String, string_eq, nat_eq,
  pair_eq, ◌==◌, if◌then◌else◌, contains, keep,
}
use ferri_sync.Prelude.Options.{option_or}

abbrev is_separator : Char → Bool
is_separator c = (code c == 47) || (code c == 92)

-- `trim_end_matches(['/', '\\'])`
abbrev trim_separators : String → String
trim_separators String.[] = ""
trim_separators (String.◌∷◌ c s) =
    let rest = trim_separators s in if is_separator c && (rest == "") then "" else String.◌∷◌ c rest

-- A character in front of the first part.
abbrev extend_first : Char → List String → List String
extend_first c [] = String.◌∷◌ c "" ∷ []
extend_first c (part ∷ parts) = String.◌∷◌ c part ∷ parts

-- `split(['/', '\\'])`
abbrev split_separators : String → List String
split_separators String.[] = "" ∷ []
split_separators (String.◌∷◌ c s) =
    let parts = split_separators s in if is_separator c then "" ∷ parts else extend_first c parts

abbrev next_back : {A : Type 0} → List A → Option A
next_back [] = none
next_back (x ∷ xs) = elim (next_back xs) [ none ↦ some x | some y ↦ some y ]

unfoldable pub path_label : String → String
path_label local_path =
    let parts = keep (λ s. not (s == "")) (split_separators (trim_separators local_path)) in
    option_or (next_back parts) local_path

-- `char::is_whitespace`: the Unicode property White_Space.
abbrev pub is_whitespace : Char → Bool
is_whitespace c =
    (leb 9 (code c) && leb (code c) 13)
    || (leb 8192 (code c) && leb (code c) 8202)
    || contains (code c) (32 ∷ 133 ∷ 160 ∷ 5760 ∷ 8232 ∷ 8233 ∷ 8239 ∷ 8287 ∷ 12288 ∷ [])

-- `trim().is_empty()`
abbrev pub is_blank : String → Bool
is_blank String.[] = true
is_blank (String.◌∷◌ c s) = is_whitespace c && is_blank s

abbrev pub name_or_label : Option String → String → String
name_or_label none path = path_label path
name_or_label (some n) path = if is_blank n then path_label path else n
