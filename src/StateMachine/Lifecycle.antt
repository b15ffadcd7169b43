-- ===== src/StateMachine/Lifecycle.antt =====
-- The order of the states, that nothing leaves a terminal state, and the counters.
use ferri_sync.Prelude.{
  ℕ, ◌+◌, ◌%◌, ◌<◌, ◌≡◌, refl, ◌≢◌, Bool, true, false, List, [], ◌∷◌, ◌++◌, arith, if◌then◌else◌,
  sym, ap, ◌∙◌, append-nil, append_assoc,
}
use ferri_sync.Prelude.Results.{is_ok}
use ferri_sync.StateMachine.{
  SessionState, handshaking, active, reconciling, transferring, finalizing, complete, error,
  is_terminal, StateMachine, new_machine, usize_mod, Call, handshake_complete, index_received,
  transfer_start, transfer_complete, finalizes, uploaded, downloaded, conflicted, call, run,
}

-- The calls that move the lifecycle; the others only count.
abbrev pub moves : Call → Bool
moves uploaded = false
moves downloaded = false
moves conflicted = false
moves _ = true

-- The lifecycle calls that the machine accepts, in order.
pub accepted : StateMachine → List Call → List Call
accepted sm [] = []
accepted sm (c ∷ cs) =
    let rest = accepted (call c sm).0 cs in
    if moves c then (if is_ok (call c sm).1 then c ∷ rest else rest) else rest

-- The way to each state of a session that does not fail.
pub way : SessionState → List Call
way handshaking = []
way active = handshake_complete ∷ []
way reconciling = handshake_complete ∷ index_received ∷ []
way transferring = handshake_complete ∷ index_received ∷ transfer_start ∷ []
way finalizing = handshake_complete ∷ index_received ∷ transfer_start ∷ transfer_complete ∷ []
way complete =
    handshake_complete ∷ index_received ∷ transfer_start ∷ transfer_complete ∷ finalizes ∷ []
way error = []

-- A call that the machine refuses changes nothing.
pub call_refused : (c : Call) (sm : StateMachine) → is_ok (call c sm).1 ≡ false → (call c sm).0 ≡ sm
unfolding call
call_refused uploaded sm h = cc
call_refused downloaded sm h = cc
call_refused conflicted sm h = cc
call_refused _ sm h = ground arith

-- What one call adds to the accepted ones.
adds : Call → StateMachine → List Call
adds c sm = if moves c then (if is_ok (call c sm).1 then c ∷ [] else []) else []

accepted-cons :
    (c : Call) (cs : List Call) (sm : StateMachine)
    → accepted sm (c ∷ cs) ≡ adds c sm ++ accepted (call c sm).0 cs
unfolding accepted adds
accepted-cons c cs sm = ground arith

-- A call keeps to the way, or ends in the error state.
way-call :
    (c : Call) (sm : StateMachine)
    → (call c sm).0.state ≢ error
    → way (call c sm).0.state ≡ way sm.state ++ adds c sm
unfolding call way adds
way-call uploaded sm h = simp append-nil
way-call downloaded sm h = simp append-nil
way-call conflicted sm h = simp append-nil
way-call _ sm h = ground (arith, append-nil (way sm.state))

-- Nothing leaves a terminal state, whatever is called.
pub call_terminal :
    (c : Call) (sm : StateMachine) → is_terminal sm.state ≡ true → (call c sm).0.state ≡ sm.state
unfolding call
call_terminal uploaded sm h = refl
call_terminal downloaded sm h = refl
call_terminal conflicted sm h = refl
call_terminal _ sm h = ground arith

pub run_terminal :
    (cs : List Call) (sm : StateMachine)
    → is_terminal sm.state ≡ true
    → (run sm cs).state ≡ sm.state
unfolding run
run_terminal [] sm h = refl
run_terminal (c ∷ cs) sm h =
    run_terminal cs (call c sm).0 (ap is_terminal (call_terminal c sm h) ∙ h) ∙ call_terminal c sm h

error_stays : (cs : List Call) (sm : StateMachine) → sm.state ≡ error → (run sm cs).state ≡ error
unfolding is_terminal
error_stays cs sm e = run_terminal cs sm (ap is_terminal e) ∙ e

-- What a machine accepted so far and goes on to accept is the way to the state that it reaches,
-- unless it fails.
pub accepted-way :
    (cs : List Call) (sm : StateMachine)
    → (run sm cs).state ≢ error
    → way (run sm cs).state ≡ way sm.state ++ accepted sm cs
unfolding run
accepted-way [] sm h = unfold accepted in simp append-nil
accepted-way (c ∷ cs) sm h =
    accepted-way cs (call c sm).0 h
    ∙ ap (λ w. w ++ accepted (call c sm).0 cs)
        (way-call c sm (λ e. h (error_stays cs (call c sm).0 e)))
    ∙ append_assoc (way sm.state) (adds c sm) (accepted (call c sm).0 cs)
    ∙ ap (λ w. way sm.state ++ w) (sym (accepted-cons c cs sm))

-- If any calls take a new session to its end, the lifecycle calls that it accepted are the five
-- steps, in order, each once.
pub complete_needs_way :
    (cs : List Call)
    → (run new_machine cs).state ≡ complete
    → accepted new_machine cs
      ≡ handshake_complete ∷ index_received ∷ transfer_start ∷ transfer_complete ∷ finalizes ∷ []
unfolding way
complete_needs_way cs e = sym (accepted-way cs new_machine (λ f. cc)) ∙ ap way e

pub uploads_in : List Call → ℕ
uploads_in [] = 0
uploads_in (uploaded ∷ cs) = uploads_in cs + 1
uploads_in (_ ∷ cs) = uploads_in cs

-- The count of pushed files grows by one for every recorded upload, modulo the width of `usize`,
-- whatever other calls the session makes.
pub run-pushed :
    (cs : List Call) (sm : StateMachine)
    → sm.pushed < usize_mod
    → (run sm cs).pushed ≡ (sm.pushed + uploads_in cs) % usize_mod
unfolding run uploads_in call
run-pushed [] sm h = omega arith
run-pushed (uploaded ∷ cs) sm h = omega (arith, run-pushed cs (call uploaded sm).0 (omega arith))
run-pushed (c ∷ cs) sm h = ground (arith, run-pushed cs (call c sm).0)
