-- ===== src/Repl/Words.antt =====
-- Words and numbers in ferrisync/src/repl/parser.rs: `trim`, `join`, `parse` of the unsigned types,
-- `flag_value` and `required_flag`.
use Prim.Native.Char.{code}
use ferri_sync.Prelude.{
  ℕ, ◌+◌, ◌*◌, ◌-◌, ◌^◌, ◌&&◌, List, [], ◌∷◌, Option, none, some, String, string_eq, nat_eq, ◌==◌,
  if◌then◌else◌, leb, ltb,
}
use ferri_sync.Prelude.Options.{option_bind}
use ferri_sync.Prelude.Results.{Result, ok, err, ◌>>=◌}
use ferri_sync.Storage.Labels.{is_whitespace}
use ferri_sync.Repl.{ParseError, usage, missing_value, missing_flag, invalid_number}

abbrev trim_start : String → String
trim_start String.[] = ""
trim_start (String.◌∷◌ c s) = if is_whitespace c then trim_start s else String.◌∷◌ c s

abbrev trim_end : String → String
trim_end String.[] = ""
trim_end (String.◌∷◌ c s) =
    let rest = trim_end s in if is_whitespace c && (rest == "") then "" else String.◌∷◌ c rest

abbrev pub trim : String → String
trim s = trim_start (trim_end s)

-- `args.join(" ")`
abbrev append : String → String → String
append String.[] t = t
append (String.◌∷◌ c s) t = String.◌∷◌ c (append s t)

abbrev pub join : List String → String
join [] = ""
join (w ∷ []) = w
join (w ∷ v ∷ ws) = append w (append " " (join (v ∷ ws)))

-- The digits of a number, after those that were read.
abbrev digits : ℕ → String → Option ℕ
digits n String.[] = some n
digits n (String.◌∷◌ c s) =
    if leb 48 (code c) && leb (code c) 57 then digits (10 * n + (code c - 48)) s else none

-- At least one digit.
abbrev number : String → Option ℕ
number String.[] = none
number (String.◌∷◌ c s) = digits 0 (String.◌∷◌ c s)

-- A plus sign may stand in front.
abbrev pub unsigned : String → Option ℕ
unsigned String.[] = none
unsigned (String.◌∷◌ c s) = if code c == 43 then number s else number (String.◌∷◌ c s)

-- `if n < 2^w { Some(n) } else { None }`: the overflow of the type.
abbrev pub fits_width : ℕ → ℕ → Option ℕ
fits_width width n = if ltb n (2 ^ width) then some n else none

-- `s.parse::<uW>()`
abbrev pub parse_unsigned : ℕ → String → Option ℕ
parse_unsigned width s = option_bind (unsigned s) (λ n. fits_width width n)

-- `.parse().with_context(..)?`
abbrev pub number_or : String → Option ℕ → Result ParseError ℕ
number_or s none = err (invalid_number s)
number_or s (some n) = ok n

abbrev pub parse_number : ℕ → String → Result ParseError ℕ
parse_number width s = number_or s (parse_unsigned width s)

-- `args.first().context(..)?`
abbrev pub first_or : String → List String → Result ParseError String
first_or cmd [] = err (usage cmd)
first_or cmd (w ∷ ws) = ok w

-- What follows a flag: `it.next().context(..)?`, or `args.get(i + 1)`.
abbrev pub value_after : String → List String → Result ParseError (Option String)
value_after name [] = err (missing_value name)
value_after name (v ∷ ws) = ok (some v)

unfoldable pub flag_value : List String → String → Result ParseError (Option String)
flag_value [] name = ok none
flag_value (w ∷ ws) name = if w == name then value_after name ws else flag_value ws name

abbrev pub value_or_missing : String → Option String → Result ParseError String
value_or_missing name none = err (missing_flag name)
value_or_missing name (some v) = ok v

unfoldable pub required_flag : List String → String → Result ParseError String
unfolding flag_value
required_flag args name = flag_value args name >>= value_or_missing name
