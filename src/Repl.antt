-- ===== src/Repl.antt =====
-- The interactive command line: ferrisync/src/repl/commands.rs and parser.rs, with the arguments of
-- ferrisync/src/commands/args.rs.
pub mod Words
pub mod Flags
pub mod Parser
pub mod Bounds
pub mod Waiting
pub mod Accepted
pub mod Written
pub mod Tests
use ferri_sync.Prelude.{ℕ, Bool, Option, String}

pub record SyncArgs : Type 0 where
  pub folder : Option String
  pub device : Option String
  pub wait : ℕ
  pub dry_run : Bool

pub record WatchArgs : Type 0 where
  pub folder : String
  pub device : String

pub data ReplCommand : Type 0 where
  help status devices folders activity conflicts doctor sessions : ReplCommand
  rename : (name : String) → ReplCommand
  reset : (confirmed : Bool) → ReplCommand
  discover : (seconds : ℕ) → ReplCommand
  pair : (ip : String) (port : ℕ) → ReplCommand
  add : (path : String) (name : Option String) → ReplCommand
  sync : SyncArgs → ReplCommand
  unsync : (folder device : Option String) (confirmed : Bool) → ReplCommand
  watch : WatchArgs → ReplCommand
  watches : ReplCommand
  unwatch : (id : ℕ) → ReplCommand
  serve : (folder : Option String) (port : ℕ) → ReplCommand
  serves : ReplCommand
  unserve : (id : ℕ) → ReplCommand
  pendings : ReplCommand
  confirm deny : (n : ℕ) → ReplCommand
  affirm refuse exit : ReplCommand

-- Why a line is refused; the words are those that the message names.
pub data ParseError : Type 0 where
  unbalanced_quotes yes_alone : ParseError
  usage unknown_command unknown_flag unexpected_argument : String → ParseError
  duplicate_flag missing_value missing_flag invalid_number : String → ParseError
