-- ===== src/Repl/Accepted.antt =====
-- What holds of every command that `parse_line` of ferrisync/src/repl/parser.rs accepts.
use ferri_sync.Prelude.{
  ◌≡◌, refl, List, [], ◌∷◌, Option, none, some, String, string_eq, nat_eq, ◌==◌, subst, arith, inl,
  inr, Bool-cases,
}
use ferri_sync.Prelude.Predicates.{All}
use ferri_sync.Prelude.Results.{Result, ok, err, ◌>>=◌}
use ferri_sync.Repl.{ReplCommand, unwatch, unserve, confirm, deny, ParseError}
use ferri_sync.Repl.Words.{trim}
use ferri_sync.Repl.Parser.{
  plain_commands, find_plain, argument_commands, find_parser, plain_or, parse_words, parse_split,
  parse_line,
}
use ferri_sync.Repl.Bounds.{
  IsCommand, OkAll, rename_bound, discover_bound, pair_bound, serve_bound, id_bound, add_bound,
  watch_bound, reset_bound,
}
use ferri_sync.Repl.Waiting.{sync_bound, unsync_bound}

plain_bound :
    (cmd : String) (table : List (String × ReplCommand)) (c : ReplCommand)
    → All (λ row. IsCommand row.1) table
    → find_plain cmd table ≡ some c
    → IsCommand c
plain_bound cmd [] c h e = absurd (ground (arith, e))
plain_bound cmd ((name, command) ∷ rest) c (hc, h) e = elim (Bool-cases (cmd == name)) [
  | inl hit ↦ subst IsCommand {x = command} {y = c} (ground (arith, e, hit)) hc
  | inr miss ↦ plain_bound cmd rest c h (ground (arith, e, miss))
]

table_bound :
    (cmd : String) (table : List (String × (List String → Result ParseError ReplCommand)))
    (args : List String)
    → All (λ row. (ws : List String) → OkAll IsCommand (row.1 ws)) table
    → OkAll IsCommand (find_parser cmd table args)
table_bound cmd [] args h = tt
table_bound cmd ((name, parse) ∷ rest) args (hp, h) = elim (Bool-cases (cmd == name)) [
  | inl hit ↦ rw hit (hp args)
  | inr miss ↦ rw miss (table_bound cmd rest args h)
]

parsers_bound : All (λ row. (ws : List String) → OkAll IsCommand (row.1 ws)) argument_commands
parsers_bound = (
  rename_bound,
  (
    discover_bound,
    (
      pair_bound,
      (
        add_bound,
        (
          sync_bound,
          (
            unsync_bound,
            (
              watch_bound,
              (
                id_bound "unwatch" unwatch (λ n h. h),
                (
                  serve_bound,
                  (
                    id_bound "unserve" unserve (λ n h. h),
                    (
                      reset_bound,
                      (
                        id_bound "confirm" confirm (λ n h. h),
                        (id_bound "deny" deny (λ n h. h), tt),
                      ),
                    ),
                  ),
                ),
              ),
            ),
          ),
        ),
      ),
    ),
  ),
)

plain_table : All (λ row. IsCommand row.1) plain_commands
plain_table = (
  tt,
  (
    tt,
    (
      tt,
      (
        tt,
        (
          tt,
          (tt, (tt, (tt, (tt, (tt, (tt, (tt, (tt, (tt, (tt, (tt, (tt, (tt, (tt, tt)))))))))))))),
        ),
      ),
    ),
  ),
)

words_bound : (cmd : String) (args : List String) → OkAll IsCommand (parse_words cmd args)
unfolding parse_words
words_bound cmd args = looked_up (find_plain cmd plain_commands) refl
  where
    looked_up :
        (o : Option ReplCommand)
        → find_plain cmd plain_commands ≡ o
        → OkAll IsCommand (plain_or cmd args o)
    looked_up (some c) e = plain_bound cmd plain_commands c plain_table e
    looked_up none e = table_bound cmd argument_commands args parsers_bound

-- What a wrapped result gives.
ok_some :
    (r : Result ParseError ReplCommand) (c : ReplCommand)
    → OkAll IsCommand r
    → (r >>= λ command. ok (some command)) ≡ ok (some c)
    → IsCommand c
ok_some (err e) c h found = absurd (ground (arith, found))
ok_some (ok d) c h found = subst IsCommand {x = d} {y = c} (ground (arith, found)) h

split_bound :
    (o : Option (List String)) (c : ReplCommand) → parse_split o ≡ ok (some c) → IsCommand c
unfolding parse_split
split_bound none c e = absurd (ground (arith, e))
split_bound (some []) c e = absurd (ground (arith, e))
split_bound (some (cmd ∷ args)) c e = ok_some (parse_words cmd args) c (words_bound cmd args) e

-- Every command that a line is accepted as makes sense: its numbers fit their types, a new name is
-- not blank, `sync` has a folder and a device or neither, and `--yes` of `unsync` stands alone.
pub parse_line-IsCommand :
    (shlex_split : String → Option (List String)) (line : String) (c : ReplCommand)
    → parse_line shlex_split line ≡ ok (some c)
    → IsCommand c
unfolding parse_line
parse_line-IsCommand shlex_split line c e = split_bound (shlex_split (trim line)) c e
