-- ===== src/Repl/Tests.antt =====
-- Lines and words.
use ferri_sync.Prelude.{
  ◌≡◌, refl, true, false, List, [], ◌∷◌, Option, none, some, String, string_eq,
}
use ferri_sync.Prelude.Results.{ok, err}
use ferri_sync.Repl.{pair, sync, unsync, watch, add, invalid_number, yes_alone}
use ferri_sync.Repl.Words.{trim, flag_value}
use ferri_sync.Repl.Flags.{sync_flags, parse_sync, unsync_flags, parse_unsync}
use ferri_sync.Repl.Parser.{parse_words, parse_split, parse_line}
use ferri_sync.Repl.Bounds.{IsCommand}
use ferri_sync.Repl.Accepted.{parse_line-IsCommand}
use ferri_sync.Repl.Written.{parse_words-read}

trimmed : trim "  a b\t" ≡ "a b"
trimmed = refl

port_too_large :
    parse_words "pair" ("10.0.0.2" ∷ "--port" ∷ "65536" ∷ []) ≡ err (invalid_number "65536")
unfolding parse_words flag_value
port_too_large = refl

port_with_sign : parse_words "pair" ("10.0.0.2" ∷ "--port" ∷ "+80" ∷ []) ≡ ok (pair "10.0.0.2" 80)
unfolding parse_words flag_value
port_with_sign = refl

-- A wait without a folder is read and dropped; one of zero may be given twice.
wait_alone :
    parse_words "sync" ("--wait" ∷ "0" ∷ "--wait" ∷ "5" ∷ [])
    ≡ ok (sync (record { folder = none; device = none; wait = 0; dry_run = false }))
unfolding parse_words parse_sync sync_flags
wait_alone = refl

yes_with_folder : parse_words "unsync" ("docs" ∷ "--yes" ∷ []) ≡ err yes_alone
unfolding parse_words parse_unsync unsync_flags
yes_with_folder = refl

-- Splitting a line that has one word.
abbrev one_word : String → Option (List String)
one_word s = some ("pair" ∷ s ∷ [])

reads : parse_line one_word " 10.0.0.2 " ≡ ok (some (pair "10.0.0.2" 9847))
unfolding parse_line parse_split parse_words flag_value
reads = refl

parse_line-IsCommand_example : IsCommand (pair "10.0.0.2" 9847)
parse_line-IsCommand_example =
    parse_line-IsCommand one_word " 10.0.0.2 " (pair "10.0.0.2" 9847) reads

parse_words-read_example :
    (parse_words "sync" ("docs" ∷ "--device" ∷ "phone" ∷ [])
      ≡ ok (
          sync (record { folder = some "docs"; device = some "phone"; wait = 0; dry_run = false })))
    × (parse_words "sync" ("--device" ∷ "phone" ∷ "--dry-run" ∷ "docs" ∷ [])
        ≡ ok (
            sync
              (record { folder = some "docs"; device = some "phone"; wait = 0; dry_run = true })))
    × (parse_words "unsync" ("docs" ∷ "--device" ∷ "phone" ∷ [])
        ≡ ok (unsync (some "docs") (some "phone") false))
    × (parse_words "unsync" ("--device" ∷ "phone" ∷ "docs" ∷ [])
        ≡ ok (unsync (some "docs") (some "phone") false))
    × (parse_words "watch" ("docs" ∷ "--device" ∷ "phone" ∷ [])
        ≡ ok (watch (record { folder = "docs"; device = "phone" })))
    × (parse_words "add" ("docs" ∷ "--name" ∷ "phone" ∷ []) ≡ ok (add "docs" (some "phone")))
parse_words-read_example = parse_words-read "docs" "phone" refl refl refl
