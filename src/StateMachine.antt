-- ===== src/StateMachine.antt =====
-- ferrisync-core/src/protocol_v2/state_machine.rs: the lifecycle of a sync session.
pub mod Lifecycle
pub mod Tests
use ferri_sync.Prelude.{
  ℕ, ◌+◌, ◌%◌, ◌^◌, ◌≡◌, refl, ◌↔◌, Bool, true, false, not, List, [], ◌∷◌, arith, if◌then◌else◌,
  eqb,
}
use ferri_sync.Prelude.Results.{Result, ok, err, is_ok}

pub data SessionState : Type 0 where
  handshaking active reconciling transferring finalizing complete error : SessionState

pub is_terminal : SessionState → Bool
is_terminal complete = true
is_terminal error = true
is_terminal _ = false

abbrev state_code : SessionState → ℕ
state_code handshaking = 0
state_code active = 1
state_code reconciling = 2
state_code transferring = 3
state_code finalizing = 4
state_code complete = 5
state_code error = 6

pub record StateMachine : Type 0 where
  pub state : SessionState
  pub pushed : ℕ
  pub pulled : ℕ
  pub conflicts : ℕ

pub data TransitionError : Type 0 where
  -- the state that the machine is in, and the state that the call wants
  invalid_transition : SessionState → SessionState → TransitionError
  already_terminal : TransitionError

pub record SessionStats : Type 0 where
  pub pushed : ℕ
  pub pulled : ℕ
  pub conflicts : ℕ

abbrev pub usize_mod : ℕ
usize_mod = 2 ^ 64

abbrev pub new_machine : StateMachine
new_machine = record { state = handshaking; pushed = 0; pulled = 0; conflicts = 0 }

abbrev pub same_state : SessionState → SessionState → Bool
same_state a b = eqb (state_code a) (state_code b)

-- A call on `&mut self`: the machine after it, and its result.
abbrev pub Outcome : Type 0
Outcome = StateMachine × Result TransitionError (Unit {0})

-- `require_state(expected)?` and the assignment that follows it.
pub advance : SessionState → SessionState → StateMachine → Outcome
advance expected next sm =
    if same_state sm.state expected
    then (record sm { state = next }, ok tt)
    else (sm, err (invalid_transition sm.state expected))

pub on_handshake_complete : StateMachine → Outcome
on_handshake_complete = advance handshaking active

pub on_index_received : StateMachine → Outcome
on_index_received = advance active reconciling

pub on_transfer_start : StateMachine → Outcome
on_transfer_start = advance reconciling transferring

pub on_transfer_complete : StateMachine → Outcome
on_transfer_complete = advance transferring finalizing

pub finalize : StateMachine → Outcome
finalize = advance finalizing complete

pub record_upload : StateMachine → StateMachine
record_upload sm = record sm { pushed = (sm.pushed + 1) % usize_mod }

pub record_download : StateMachine → StateMachine
record_download sm = record sm { pulled = (sm.pulled + 1) % usize_mod }

pub record_conflict : StateMachine → StateMachine
record_conflict sm = record sm { conflicts = (sm.conflicts + 1) % usize_mod }

pub fail : StateMachine → Outcome
fail sm =
    if is_terminal sm.state
    then (sm, err already_terminal)
    else (record sm { state = error }, ok tt)

pub stats : StateMachine → SessionStats
stats sm = record { pushed = sm.pushed; pulled = sm.pulled; conflicts = sm.conflicts }

-- The calls that a session makes, in any order.
pub data Call : Type 0 where
  handshake_complete index_received transfer_start transfer_complete finalizes fails : Call
  uploaded downloaded conflicted : Call

pub call : Call → StateMachine → Outcome
unfolding on_handshake_complete on_index_received on_transfer_start on_transfer_complete finalize
    fail record_upload record_download record_conflict advance is_terminal
call handshake_complete sm = on_handshake_complete sm
call index_received sm = on_index_received sm
call transfer_start sm = on_transfer_start sm
call transfer_complete sm = on_transfer_complete sm
call finalizes sm = finalize sm
call fails sm = fail sm
call uploaded sm = (record_upload sm, ok tt)
call downloaded sm = (record_download sm, ok tt)
call conflicted sm = (record_conflict sm, ok tt)

pub run : StateMachine → List Call → StateMachine
run sm [] = sm
run sm (c ∷ cs) = run (call c sm).0 cs
