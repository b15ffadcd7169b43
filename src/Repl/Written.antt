-- ===== src/Repl/Written.antt =====
-- How the commands with a folder and a device are written for ferrisync/src/repl/parser.rs.
use ferri_sync.Prelude.{
  ◌≡◌, refl, ap, ◌∙◌, true, false, List, [], ◌∷◌, none, some, String, string_eq, ◌==◌,
  if◌then◌else◌, is_some,
}
use ferri_sync.Prelude.Results.{Result, ok, err, ◌>>=◌}
use ferri_sync.Repl.{ReplCommand, add, sync, unsync, watch, ParseError, unexpected_argument}
use ferri_sync.Repl.Words.{flag_value, value_or_missing, required_flag}
use ferri_sync.Repl.Flags.{
  word, SyncFlags, UnsyncFlags, no_flags, sync_token, sync_word, sync_value, sync_flags,
  sync_command, parse_sync, unsync_token, unsync_word, unsync_value, unsync_flags, unsync_command,
  parse_unsync, add_flags,
}
use ferri_sync.Repl.Parser.{parse_words}

-- A word in front of the rest, in the two loops.
sync_flags_word :
    (f v : String) (toks : List String) (s : SyncFlags)
    → sync_token f ≡ word
    → s.folder ≡ none
    → sync_flags (f ∷ v ∷ toks) s ≡ sync_flags (v ∷ toks) (record s { folder = some f })
unfolding sync_flags
sync_flags_word f v toks s h free =
    ap
      (λ t. elim (sync_value t v s) as (λ _. Result ParseError SyncFlags) [
        | some (err e) ↦ err e
        | some (ok s') ↦ sync_flags toks s'
        | none ↦ elim (sync_word t f s) as (λ _. Result ParseError SyncFlags) [
          | err e ↦ err e
          | ok s' ↦ sync_flags (v ∷ toks) s'
        ]
      ])
      h
    ∙ ap
        (λ o.
          elim (if is_some o
              then err (unexpected_argument f)
              else ok (record s { folder = some f }))
            as (λ _. Result ParseError SyncFlags) [
              | err e ↦ err e
              | ok s' ↦ sync_flags (v ∷ toks) s'
            ])
        free

unsync_flags_word :
    (f v : String) (toks : List String) (s : UnsyncFlags)
    → unsync_token f ≡ word
    → s.folder ≡ none
    → unsync_flags (f ∷ v ∷ toks) s ≡ unsync_flags (v ∷ toks) (record s { folder = some f })
unfolding unsync_flags
unsync_flags_word f v toks s h free =
    ap
      (λ t. elim (unsync_value t v s) as (λ _. Result ParseError UnsyncFlags) [
        | some (err e) ↦ err e
        | some (ok s') ↦ unsync_flags toks s'
        | none ↦ elim (unsync_word t f s) as (λ _. Result ParseError UnsyncFlags) [
          | err e ↦ err e
          | ok s' ↦ unsync_flags (v ∷ toks) s'
        ]
      ])
      h
    ∙ ap
        (λ o.
          elim (if is_some o
              then err (unexpected_argument f)
              else ok (record s { folder = some f }))
            as (λ _. Result ParseError UnsyncFlags) [
              | err e ↦ err e
              | ok s' ↦ unsync_flags (v ∷ toks) s'
            ])
        free

abbrev sync_end : SyncFlags → Result ParseError ReplCommand
sync_end s = sync_command s.folder s.device s.wait s.dry_run

no_unsync : UnsyncFlags
no_unsync = record { folder = none; device = none; confirmed = false }

sync_folder_first :
    (f d : String)
    → sync_token f ≡ word
    → parse_sync (f ∷ "--device" ∷ d ∷ [])
      ≡ ok (sync (record { folder = some f; device = some d; wait = 0; dry_run = false }))
unfolding parse_sync sync_flags
sync_folder_first f d h =
    ap (λ r. r >>= sync_end) (sync_flags_word f "--device" (d ∷ []) no_flags h refl)

sync_folder_last :
    (f d : String)
    → sync_token f ≡ word
    → parse_sync ("--device" ∷ d ∷ "--dry-run" ∷ f ∷ [])
      ≡ ok (sync (record { folder = some f; device = some d; wait = 0; dry_run = true }))
unfolding parse_sync sync_flags
sync_folder_last f d h =
    ap
      (λ t.
        sync_word t f (record { folder = none; device = some d; wait = 0; dry_run = true })
        >>= sync_end)
      h

unsync_folder_first :
    (f d : String)
    → unsync_token f ≡ word
    → parse_unsync (f ∷ "--device" ∷ d ∷ []) ≡ ok (unsync (some f) (some d) false)
unfolding parse_unsync unsync_flags no_unsync
unsync_folder_first f d h =
    ap (λ r. r >>= unsync_command) (unsync_flags_word f "--device" (d ∷ []) no_unsync h refl)

unsync_folder_last :
    (f d : String)
    → unsync_token f ≡ word
    → parse_unsync ("--device" ∷ d ∷ f ∷ []) ≡ ok (unsync (some f) (some d) false)
unfolding parse_unsync unsync_flags
unsync_folder_last f d h =
    ap
      (λ t.
        unsync_word t f (record { folder = none; device = some d; confirmed = false })
        >>= unsync_command)
      h

device_value :
    (f d : String)
    → (f == "--device") ≡ false
    → flag_value (f ∷ "--device" ∷ d ∷ []) "--device" ≡ ok (some d)
unfolding flag_value
device_value f d h = rw h refl

watch_device :
    (f d : String)
    → (f == "--device") ≡ false
    → parse_words "watch" (f ∷ "--device" ∷ d ∷ []) ≡ ok (watch (record { folder = f; device = d }))
unfolding parse_words required_flag
watch_device f d h =
    ap
      (λ r. (r >>= value_or_missing "--device") >>= λ device.
        ok (watch (record { folder = f; device = device })))
      (device_value f d h)

-- The commands that name a folder `f` and a device or a name `d`, where `f` is no flag: `sync` and
-- `unsync` take the folder before or after the device, `watch` and `add` take it first, and each
-- is read as the command with that folder and that device or name.
pub parse_words-read :
    (f d : String)
    → sync_token f ≡ word
    → unsync_token f ≡ word
    → (f == "--device") ≡ false
    → (parse_words "sync" (f ∷ "--device" ∷ d ∷ [])
        ≡ ok (sync (record { folder = some f; device = some d; wait = 0; dry_run = false })))
      × (parse_words "sync" ("--device" ∷ d ∷ "--dry-run" ∷ f ∷ [])
          ≡ ok (sync (record { folder = some f; device = some d; wait = 0; dry_run = true })))
      × (parse_words "unsync" (f ∷ "--device" ∷ d ∷ []) ≡ ok (unsync (some f) (some d) false))
      × (parse_words "unsync" ("--device" ∷ d ∷ f ∷ []) ≡ ok (unsync (some f) (some d) false))
      × (parse_words "watch" (f ∷ "--device" ∷ d ∷ [])
          ≡ ok (watch (record { folder = f; device = d })))
      × (parse_words "add" (f ∷ "--name" ∷ d ∷ []) ≡ ok (add f (some d)))
unfolding parse_words add_flags
parse_words-read f d h k n = (
  sync_folder_first f d h,
  sync_folder_last f d h,
  unsync_folder_first f d k,
  unsync_folder_last f d k,
  watch_device f d n,
  refl,
)
