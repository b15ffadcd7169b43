-- ===== src/StateMachine/Tests.antt =====
-- Sessions of state_machine.rs, call by call.
use ferri_sync.Prelude.{◌≡◌, refl, List, [], ◌∷◌}
use ferri_sync.StateMachine.{
  complete, new_machine, run, call, Call, handshake_complete, index_received, transfer_start,
  transfer_complete, finalizes, fails, uploaded, downloaded,
}
use ferri_sync.StateMachine.Lifecycle.{accepted, complete_needs_way}

-- A session with an early call that is refused and two recorded files.
abbrev session : List Call
session =
    handshake_complete ∷ transfer_start ∷ index_received ∷ transfer_start ∷ uploaded ∷ downloaded
    ∷ transfer_complete ∷ finalizes ∷ fails ∷ []

session_completes : (run new_machine session).state ≡ complete
unfolding run call
session_completes = refl

complete_needs_way_example :
    accepted new_machine session
    ≡ handshake_complete ∷ index_received ∷ transfer_start ∷ transfer_complete ∷ finalizes ∷ []
complete_needs_way_example = complete_needs_way session session_completes
