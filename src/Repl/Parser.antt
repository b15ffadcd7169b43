-- ===== src/Repl/Parser.antt =====
-- `parse_line` of ferrisync/src/repl/parser.rs. `shlex_split` is a library: a parameter.
use ferri_sync.Prelude.{
  ℕ, false, List, [], ◌∷◌, Option, none, some, String, string_eq, ◌==◌, if◌then◌else◌,
}
use ferri_sync.Prelude.Results.{Result, ok, err, ◌>>=◌}
use ferri_sync.Storage.Labels.{is_blank}
use ferri_sync.Repl.{
  ReplCommand, help, status, devices, folders, activity, conflicts, doctor, sessions, rename, reset,
  discover, pair, add, watch, watches, unwatch, serve, serves, unserve, pendings, confirm, deny,
  affirm, refuse, exit, ParseError, unbalanced_quotes, usage, unknown_command,
}
use ferri_sync.Repl.Words.{trim, join, parse_number, first_or, flag_value, required_flag}
use ferri_sync.Repl.Flags.{add_flags, parse_sync, parse_unsync, reset_flags}

abbrev pub default_port : ℕ
default_port = 9847

-- The commands without arguments; what follows them is not looked at.
abbrev pub plain_commands : List (String × ReplCommand)
plain_commands =
    ("help", help)
    ∷ ("?", help)
    ∷ ("exit", exit)
    ∷ ("quit", exit)
    ∷ ("q", exit)
    ∷ ("y", affirm)
    ∷ ("yes", affirm)
    ∷ ("n", refuse)
    ∷ ("no", refuse)
    ∷ ("status", status)
    ∷ ("devices", devices)
    ∷ ("folders", folders)
    ∷ ("activity", activity)
    ∷ ("conflicts", conflicts)
    ∷ ("doctor", doctor)
    ∷ ("sessions", sessions)
    ∷ ("watches", watches)
    ∷ ("serves", serves)
    ∷ ("pendings", pendings)
    ∷ []

abbrev pub find_plain : String → List (String × ReplCommand) → Option ReplCommand
find_plain cmd [] = none
find_plain cmd ((name, command) ∷ rest) = if cmd == name then some command else find_plain cmd rest

-- `flag_value(args, "--port")?`, with the default.
abbrev pub port_of : Option String → Result ParseError ℕ
port_of none = ok default_port
port_of (some p) = parse_number 16 p

abbrev pub parse_rename : List String → Result ParseError ReplCommand
parse_rename args = if is_blank (join args) then err (usage "rename") else ok (rename (join args))

abbrev pub parse_discover : List String → Result ParseError ReplCommand
parse_discover [] = ok (discover 3)
parse_discover (s ∷ args) = parse_number 64 s >>= λ n. ok (discover n)

abbrev pub parse_pair : List String → Result ParseError ReplCommand
parse_pair args = first_or "pair" args >>= λ ip.
    flag_value args "--port" >>= λ flag. port_of flag >>= λ port. ok (pair ip port)

abbrev pub parse_add : List String → Result ParseError ReplCommand
parse_add [] = err (usage "add")
parse_add (path ∷ args) = add_flags none args >>= λ name. ok (add path name)

abbrev pub parse_watch : List String → Result ParseError ReplCommand
parse_watch args = first_or "watch" args >>= λ folder. required_flag args "--device" >>= λ device.
    ok (watch (record { folder = folder; device = device }))

abbrev pub head_of : List String → Option String
head_of [] = none
head_of (w ∷ ws) = some w

abbrev pub parse_serve : List String → Result ParseError ReplCommand
parse_serve args =
    flag_value args "--port" >>= λ flag. port_of flag >>= λ port. ok (serve (head_of args) port)

-- `unwatch`, `unserve`, `confirm` and `deny`: a number of 32 bits.
abbrev pub parse_id : String → (ℕ → ReplCommand) → List String → Result ParseError ReplCommand
parse_id cmd make args = first_or cmd args >>= λ w. parse_number 32 w >>= λ n. ok (make n)

abbrev pub parse_reset : List String → Result ParseError ReplCommand
parse_reset args = reset_flags false args >>= λ confirmed. ok (reset confirmed)

-- The commands with arguments.
abbrev pub argument_commands : List (String × (List String → Result ParseError ReplCommand))
argument_commands =
    ("rename", parse_rename)
    ∷ ("discover", parse_discover)
    ∷ ("pair", parse_pair)
    ∷ ("add", parse_add)
    ∷ ("sync", parse_sync)
    ∷ ("unsync", parse_unsync)
    ∷ ("watch", parse_watch)
    ∷ ("unwatch", parse_id "unwatch" unwatch)
    ∷ ("serve", parse_serve)
    ∷ ("unserve", parse_id "unserve" unserve)
    ∷ ("reset", parse_reset)
    ∷ ("confirm", parse_id "confirm" confirm)
    ∷ ("deny", parse_id "deny" deny)
    ∷ []

abbrev pub find_parser :
    String
    → List (String × (List String → Result ParseError ReplCommand))
    → List String
    → Result ParseError ReplCommand
find_parser cmd [] args = err (unknown_command cmd)
find_parser cmd ((name, parse) ∷ rest) args =
    if cmd == name then parse args else find_parser cmd rest args

abbrev pub plain_or : String → List String → Option ReplCommand → Result ParseError ReplCommand
plain_or cmd args (some command) = ok command
plain_or cmd args none = find_parser cmd argument_commands args

unfoldable pub parse_words : String → List String → Result ParseError ReplCommand
parse_words cmd args = plain_or cmd args (find_plain cmd plain_commands)

-- `None` for a blank line.
unfoldable pub parse_split : Option (List String) → Result ParseError (Option ReplCommand)
unfolding parse_words
parse_split none = err unbalanced_quotes
parse_split (some []) = ok none
parse_split (some (cmd ∷ args)) = parse_words cmd args >>= λ command. ok (some command)

module _ (shlex_split : String → Option (List String)) where
  unfoldable pub parse_line : String → Result ParseError (Option ReplCommand)
  unfolding parse_split
  parse_line line = parse_split (shlex_split (trim line))
