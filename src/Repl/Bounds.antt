-- ===== src/Repl/Bounds.antt =====
-- The numbers and names that the commands of ferrisync/src/repl/parser.rs carry.
use ferri_sync.Prelude.{
  ℕ, ◌^◌, ◌<◌, ◌≡◌, false, ◌&&◌, ◌||◌, List, [], ◌∷◌, Option, none, some, String, string_eq, nat_eq,
  is_some, ltb, ltb→lt, arith, inl, inr, Bool-cases,
}
use ferri_sync.Prelude.Options.{option_bind}
use ferri_sync.Prelude.Results.{Result, ok, err, ◌>>=◌}
use ferri_sync.Storage.Labels.{is_blank}
use ferri_sync.Repl.{
  ReplCommand, rename, reset, discover, pair, add, sync, unsync, watch, unwatch, serve, unserve,
  confirm, deny, ParseError,
}
use ferri_sync.Repl.Words.{
  join, fits_width, unsigned, number_or, parse_number, first_or, flag_value, required_flag,
}
use ferri_sync.Repl.Flags.{add_flags, reset_flags}
use ferri_sync.Repl.Parser.{
  port_of, parse_rename, parse_discover, parse_pair, parse_add, parse_watch, head_of, parse_serve,
  parse_id, parse_reset,
}

-- A command that makes sense: numbers within their types, a name that is not blank, `sync` with a
-- folder and a device or with neither, and `--yes` alone.
abbrev pub IsCommand : ReplCommand → Type 0
IsCommand (rename name) = is_blank name ≡ false
IsCommand (discover seconds) = seconds < 2 ^ 64
IsCommand (pair ip port) = port < 2 ^ 16
IsCommand (serve folder port) = port < 2 ^ 16
IsCommand (unwatch id) = id < 2 ^ 32
IsCommand (unserve id) = id < 2 ^ 32
IsCommand (confirm n) = n < 2 ^ 32
IsCommand (deny n) = n < 2 ^ 32
IsCommand (sync args) = (is_some args.folder ≡ is_some args.device) × (args.wait < 2 ^ 64)
IsCommand (unsync folder device confirmed) =
    (confirmed && (is_some folder || is_some device)) ≡ false
IsCommand _ = Unit

-- What holds of a result that is no error.
abbrev pub OkAll {ℓ κ} : {A : Type ℓ} → (A → Type κ) → Result ParseError A → Type κ
OkAll P (ok a) = P a
OkAll P (err e) = Unit

pub bind-OkAll {ℓ κ μ ν} :
    {A : Type ℓ} {B : Type κ} (P : A → Type μ) (Q : B → Type ν) (r : Result ParseError A)
    (f : A → Result ParseError B)
    → OkAll P r
    → ((a : A) → P a → OkAll Q (f a))
    → OkAll Q (r >>= f)
bind-OkAll P Q (ok a) f h step = step a h
bind-OkAll P Q (err e) f h step = tt

-- A step whose result does not matter, and one that gives a number.
pub bind_any :
    {A : Type 0} (r : Result ParseError A) (f : A → Result ParseError ReplCommand)
    → ((a : A) → OkAll IsCommand (f a))
    → OkAll IsCommand (r >>= f)
bind_any (ok a) f step = step a
bind_any (err e) f step = tt

pub bind_number :
    (bound : ℕ) (r : Result ParseError ℕ) (make : ℕ → ReplCommand)
    → OkAll (λ n. n < bound) r
    → ((n : ℕ) → n < bound → IsCommand (make n))
    → OkAll IsCommand (r >>= λ n. ok (make n))
bind_number bound (ok n) make h made = made n h
bind_number bound (err e) make h made = tt

pub number_bound :
    (width : ℕ) (s : String) (o : Option ℕ)
    → OkAll (λ n. n < 2 ^ width) (number_or s (option_bind o (λ n. fits_width width n)))
number_bound width s none = tt
number_bound width s (some n) = elim (Bool-cases (ltb n (2 ^ width))) [
  | inl hit ↦ rw hit (ltb→lt n (2 ^ width) hit)
  | inr miss ↦ rw miss tt
]

pub port_bound : (o : Option String) → OkAll (λ n. n < 2 ^ 16) (port_of o)
port_bound none = omega arith
port_bound (some p) = number_bound 16 p (unsigned p)

pub rename_bound : (args : List String) → OkAll IsCommand (parse_rename args)
rename_bound args = elim (Bool-cases (is_blank (join args))) [
  | inl blank ↦ rw blank tt
  | inr named ↦ rw named named
]

pub discover_bound : (args : List String) → OkAll IsCommand (parse_discover args)
discover_bound [] = omega arith
discover_bound (s ∷ args) =
    bind_number (2 ^ 64) (parse_number 64 s) discover (number_bound 64 s (unsigned s)) (λ n h. h)

pub port_step :
    (make : ℕ → ReplCommand) (args : List String)
    → ((n : ℕ) → n < 2 ^ 16 → IsCommand (make n))
    → OkAll IsCommand (flag_value args "--port" >>= λ flag. port_of flag >>= λ port. ok (make port))
port_step make args made =
    bind_any (flag_value args "--port") (λ flag. port_of flag >>= λ port. ok (make port))
      (λ flag. bind_number (2 ^ 16) (port_of flag) make (port_bound flag) made)

pub pair_bound : (args : List String) → OkAll IsCommand (parse_pair args)
pair_bound args =
    bind_any (first_or "pair" args)
      (λ ip. flag_value args "--port" >>= λ flag. port_of flag >>= λ port. ok (pair ip port))
      (λ ip. port_step (λ port. pair ip port) args (λ n h. h))

pub serve_bound : (args : List String) → OkAll IsCommand (parse_serve args)
serve_bound args = port_step (λ port. serve (head_of args) port) args (λ n h. h)

pub id_bound :
    (cmd : String) (make : ℕ → ReplCommand)
    → ((n : ℕ) → n < 2 ^ 32 → IsCommand (make n))
    → (args : List String) → OkAll IsCommand (parse_id cmd make args)
id_bound cmd make made args =
    bind_any (first_or cmd args) (λ w. parse_number 32 w >>= λ n. ok (make n))
      (λ w. bind_number (2 ^ 32) (parse_number 32 w) make (number_bound 32 w (unsigned w)) made)

pub add_bound : (args : List String) → OkAll IsCommand (parse_add args)
add_bound [] = tt
add_bound (path ∷ args) = bind_any (add_flags none args) (λ name. ok (add path name)) (λ name. tt)

pub watch_bound : (args : List String) → OkAll IsCommand (parse_watch args)
watch_bound args =
    bind_any (first_or "watch" args)
      (λ folder. required_flag args "--device" >>= λ device.
        ok (watch (record { folder = folder; device = device })))
      (λ folder.
        bind_any (required_flag args "--device")
          (λ device. ok (watch (record { folder = folder; device = device }))) (λ device. tt))

pub reset_bound : (args : List String) → OkAll IsCommand (parse_reset args)
reset_bound args =
    bind_any (reset_flags false args) (λ confirmed. ok (reset confirmed)) (λ confirmed. tt)
