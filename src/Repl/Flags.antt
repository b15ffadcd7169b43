-- ===== src/Repl/Flags.antt =====
-- The argument loops of ferrisync/src/repl/parser.rs: `add`, `sync`, `unsync` and `reset`.
use text.Mathlib.Text.{starts_with}
use ferri_sync.Prelude.{
  ℕ, Bool, true, false, ◌&&◌, ◌||◌, not, List, [], ◌∷◌, Option, none, some, String, string_eq,
  nat_eq, ◌==◌, if◌then◌else◌, is_some,
}
use ferri_sync.Prelude.Results.{Result, ok, err, ◌>>=◌}
use ferri_sync.Repl.{
  ReplCommand, sync, unsync, ParseError, yes_alone, usage, unknown_flag, unexpected_argument,
  duplicate_flag, missing_value,
}
use ferri_sync.Repl.Words.{parse_number}

-- The loop of `add` after the path: the name so far.
unfoldable pub add_flags : Option String → List String → Result ParseError (Option String)
add_flags name [] = ok name
add_flags name (tok ∷ []) =
    if tok == "--name"
    then (if is_some name then err (duplicate_flag "--name") else err (missing_value "--name"))
    else err (usage "add")
add_flags name (tok ∷ v ∷ toks) =
    let rest = add_flags (some v) toks in
    if tok == "--name"
    then (if is_some name then err (duplicate_flag "--name") else rest)
    else err (usage "add")

-- The variables of the loop of `sync`.
pub record SyncFlags : Type 0 where
  pub folder : Option String
  pub device : Option String
  pub wait : ℕ
  pub dry_run : Bool

abbrev pub no_flags : SyncFlags
no_flags = record { folder = none; device = none; wait = 0; dry_run = false }

-- What a token of `sync` or `unsync` is.
pub data Token : Type 0 where
  device_flag wait_flag dry_run_flag yes_flag other_flag word : Token

abbrev pub sync_token : String → Token
sync_token tok =
    if tok == "--device"
    then device_flag
    else if tok == "--wait"
    then wait_flag
    else if tok == "--dry-run"
    then dry_run_flag
    else if starts_with tok "--"
    then other_flag
    else word

-- A token that takes no value.
abbrev pub sync_word : Token → String → SyncFlags → Result ParseError SyncFlags
sync_word device_flag tok s =
    if is_some s.device then err (duplicate_flag "--device") else err (missing_value "--device")
sync_word wait_flag tok s =
    if not (s.wait == 0) then err (duplicate_flag "--wait") else err (missing_value "--wait")
sync_word dry_run_flag tok s = ok (record s { dry_run = true })
sync_word word tok s =
    if is_some s.folder then err (unexpected_argument tok) else ok (record s { folder = some tok })
sync_word _ tok s = err (unknown_flag tok)

-- A token with the one after it: none where the token does not take it as its value.
abbrev pub sync_value : Token → String → SyncFlags → Option (Result ParseError SyncFlags)
sync_value device_flag v s = some (
    if is_some s.device then err (duplicate_flag "--device") else ok (record s { device = some v }))
sync_value wait_flag v s = some (
    if not (s.wait == 0)
    then err (duplicate_flag "--wait")
    else parse_number 64 v >>= λ n. ok (record s { wait = n }))
sync_value _ v s = none

-- The rest of the loop after a result, with the tokens that are left.
unfoldable pub sync_flags : List String → SyncFlags → Result ParseError SyncFlags
sync_flags [] s = ok s
sync_flags (tok ∷ []) s = sync_word (sync_token tok) tok s
sync_flags (tok ∷ v ∷ toks) s = elim (sync_value (sync_token tok) v s) [
  | some (err e) ↦ err e
  | some (ok s') ↦ sync_flags toks s'
  | none ↦ elim (sync_word (sync_token tok) tok s) [
    | err e ↦ err e
    | ok s' ↦ sync_flags (v ∷ toks) s'
  ]
]

-- The `match` after the loop: without a folder and a device, `wait` is dropped.
abbrev pub sync_command : Option String → Option String → ℕ → Bool → Result ParseError ReplCommand
sync_command none none wait dry_run =
    ok (sync (record { folder = none; device = none; wait = 0; dry_run = dry_run }))
sync_command (some folder) (some device) wait dry_run =
    ok
      (sync (record { folder = some folder; device = some device; wait = wait; dry_run = dry_run }))
sync_command none (some device) wait dry_run = err (usage "sync")
sync_command (some folder) none wait dry_run = err (usage "sync")

unfoldable pub parse_sync : List String → Result ParseError ReplCommand
unfolding sync_flags
parse_sync args = sync_flags args no_flags >>= λ s. sync_command s.folder s.device s.wait s.dry_run

-- The variables of the loop of `unsync`.
pub record UnsyncFlags : Type 0 where
  pub folder : Option String
  pub device : Option String
  pub confirmed : Bool

abbrev pub unsync_token : String → Token
unsync_token tok =
    if tok == "--yes"
    then yes_flag
    else if tok == "--device"
    then device_flag
    else if starts_with tok "--"
    then other_flag
    else word

abbrev pub unsync_word : Token → String → UnsyncFlags → Result ParseError UnsyncFlags
unsync_word yes_flag tok s =
    if s.confirmed then err (duplicate_flag "--yes") else ok (record s { confirmed = true })
unsync_word device_flag tok s =
    if is_some s.device then err (duplicate_flag "--device") else err (missing_value "--device")
unsync_word word tok s =
    if is_some s.folder then err (unexpected_argument tok) else ok (record s { folder = some tok })
unsync_word _ tok s = err (unknown_flag tok)

abbrev pub unsync_value : Token → String → UnsyncFlags → Option (Result ParseError UnsyncFlags)
unsync_value device_flag v s = some (
    if is_some s.device then err (duplicate_flag "--device") else ok (record s { device = some v }))
unsync_value _ v s = none

unfoldable pub unsync_flags : List String → UnsyncFlags → Result ParseError UnsyncFlags
unsync_flags [] s = ok s
unsync_flags (tok ∷ []) s = unsync_word (unsync_token tok) tok s
unsync_flags (tok ∷ v ∷ toks) s = elim (unsync_value (unsync_token tok) v s) [
  | some (err e) ↦ err e
  | some (ok s') ↦ unsync_flags toks s'
  | none ↦ elim (unsync_word (unsync_token tok) tok s) [
    | err e ↦ err e
    | ok s' ↦ unsync_flags (v ∷ toks) s'
  ]
]

-- `--yes` stands alone.
abbrev pub unsync_command : UnsyncFlags → Result ParseError ReplCommand
unsync_command s =
    if s.confirmed && (is_some s.folder || is_some s.device)
    then err yes_alone
    else ok (unsync s.folder s.device s.confirmed)

unfoldable pub parse_unsync : List String → Result ParseError ReplCommand
unfolding unsync_flags
parse_unsync args =
    unsync_flags args (record { folder = none; device = none; confirmed = false })
    >>= unsync_command

-- The loop of `reset`.
unfoldable pub reset_flags : Bool → List String → Result ParseError Bool
reset_flags confirmed [] = ok confirmed
reset_flags confirmed (tok ∷ toks) =
    let rest = reset_flags true toks in
    if tok == "--yes"
    then (if confirmed then err (duplicate_flag "--yes") else rest)
    else err (usage "reset")
