-- ===== src/Repl/Waiting.antt =====
-- The loops for `sync` and `unsync` of ferrisync/src/repl/parser.rs.
use ferri_sync.Prelude.{
  ℕ, ◌^◌, ◌<◌, refl, Bool, false, ◌&&◌, ◌||◌, not, List, [], ◌∷◌, Option, none, some, String,
  string_eq, nat_eq, ◌==◌, is_some, arith, inl, inr, Bool-cases,
}
use ferri_sync.Prelude.Results.{Result, ok, err}
use ferri_sync.Repl.{ParseError}
use ferri_sync.Repl.Words.{unsigned, parse_number}
use ferri_sync.Repl.Flags.{
  SyncFlags, no_flags, Token, device_flag, wait_flag, dry_run_flag, yes_flag, other_flag, word,
  sync_token, sync_word, sync_value, sync_flags, sync_command, parse_sync, unsync_flags,
  unsync_command, parse_unsync,
}
use ferri_sync.Repl.Bounds.{bind-OkAll, IsCommand, OkAll, bind_any, number_bound}

-- The wait of `sync` stays a number of 64 bits.
abbrev pub IsWaiting : SyncFlags → Type 0
IsWaiting s = s.wait < 2 ^ 64

pub sync_word-IsWaiting :
    (t : Token) (tok : String) (s : SyncFlags) → IsWaiting s → OkAll IsWaiting (sync_word t tok s)
sync_word-IsWaiting device_flag tok s h = elim (Bool-cases (is_some s.device)) [
  | inl hit ↦ rw hit tt
  | inr miss ↦ rw miss tt
]
sync_word-IsWaiting wait_flag tok s h = elim (Bool-cases (not (s.wait == 0))) [
  | inl hit ↦ rw hit tt
  | inr miss ↦ rw miss tt
]
sync_word-IsWaiting dry_run_flag tok s h = h
sync_word-IsWaiting yes_flag tok s h = tt
sync_word-IsWaiting other_flag tok s h = tt
sync_word-IsWaiting word tok s h = elim (Bool-cases (is_some s.folder)) [
  | inl hit ↦ rw hit tt
  | inr miss ↦ rw miss h
]

-- What holds of a value that is there.
abbrev pub SomeOk : Option (Result ParseError SyncFlags) → Type 0
SomeOk none = Unit
SomeOk (some r) = OkAll IsWaiting r

pub sync_value_waiting :
    (t : Token) (v : String) (s : SyncFlags) → IsWaiting s → SomeOk (sync_value t v s)
sync_value_waiting device_flag v s h = elim (Bool-cases (is_some s.device)) [
  | inl hit ↦ rw hit tt
  | inr miss ↦ rw miss h
]
sync_value_waiting wait_flag v s h = elim (Bool-cases (not (s.wait == 0))) [
  | inl hit ↦ rw hit tt
  | inr miss ↦ rw miss (
      bind-OkAll (λ n. n < 2 ^ 64) IsWaiting (parse_number 64 v) (λ n. ok (record s { wait = n }))
        (number_bound 64 v (unsigned v)) (λ n h. h))
]
sync_value_waiting dry_run_flag v s h = tt
sync_value_waiting yes_flag v s h = tt
sync_value_waiting other_flag v s h = tt
sync_value_waiting word v s h = tt

-- The rest of the loop after a token, and after a token with the one that follows.
pub after_word :
    (ws : List String) (r : Result ParseError SyncFlags)
    → ((s : SyncFlags) → IsWaiting s → OkAll IsWaiting (sync_flags ws s))
    → OkAll IsWaiting r
    → OkAll IsWaiting (elim r [ err e ↦ err e | ok s ↦ sync_flags ws s ])
after_word ws (ok s) next h = next s h
after_word ws (err e) next h = tt

pub after_value :
    (ws vs : List String) (o : Option (Result ParseError SyncFlags))
    (r : Result ParseError SyncFlags)
    → ((s : SyncFlags) → IsWaiting s → OkAll IsWaiting (sync_flags ws s))
    → ((s : SyncFlags) → IsWaiting s → OkAll IsWaiting (sync_flags vs s))
    → SomeOk o
    → OkAll IsWaiting r
    → OkAll IsWaiting (elim o [
      | some (err e) ↦ err e
      | some (ok s) ↦ sync_flags ws s
      | none ↦ elim r [ err e ↦ err e | ok s ↦ sync_flags vs s ]
    ])
after_value ws vs (some (ok s)) r next more h k = next s h
after_value ws vs (some (err e)) r next more h k = tt
after_value ws vs none r next more h k = after_word vs r more k

pub sync_flags-IsWaiting :
    (toks : List String) (s : SyncFlags) → IsWaiting s → OkAll IsWaiting (sync_flags toks s)
unfolding sync_flags
sync_flags-IsWaiting [] s h = h
sync_flags-IsWaiting (tok ∷ []) s h = sync_word-IsWaiting (sync_token tok) tok s h
sync_flags-IsWaiting (tok ∷ v ∷ toks) s h =
    after_value toks (v ∷ toks) (sync_value (sync_token tok) v s) (sync_word (sync_token tok) tok s)
      (λ s' h'. sync_flags-IsWaiting toks s' h') (λ s' h'. sync_flags-IsWaiting (v ∷ toks) s' h')
      (sync_value_waiting (sync_token tok) v s h) (sync_word-IsWaiting (sync_token tok) tok s h)

pub sync_command-IsCommand :
    (folder device : Option String) (wait : ℕ) (dry_run : Bool)
    → wait < 2 ^ 64
    → OkAll IsCommand (sync_command folder device wait dry_run)
sync_command-IsCommand none none wait dry_run h = (refl, omega arith)
sync_command-IsCommand (some folder) (some device) wait dry_run h = (refl, h)
sync_command-IsCommand none (some device) wait dry_run h = tt
sync_command-IsCommand (some folder) none wait dry_run h = tt

pub sync_bound : (args : List String) → OkAll IsCommand (parse_sync args)
unfolding parse_sync
sync_bound args =
    bind-OkAll IsWaiting IsCommand (sync_flags args no_flags)
      (λ s. sync_command s.folder s.device s.wait s.dry_run)
      (sync_flags-IsWaiting args no_flags (omega arith))
      (λ s h. sync_command-IsCommand s.folder s.device s.wait s.dry_run h)

pub unsync_bound : (args : List String) → OkAll IsCommand (parse_unsync args)
unfolding parse_unsync
unsync_bound args =
    bind_any (unsync_flags args (record { folder = none; device = none; confirmed = false }))
      unsync_command
      (λ s. elim (Bool-cases (s.confirmed && (is_some s.folder || is_some s.device))) [
        | inl hit ↦ rw hit tt
        | inr miss ↦ rw miss miss
      ])
