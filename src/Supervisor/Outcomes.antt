-- ===== src/Supervisor/Outcomes.antt =====
-- How the end of the child decides the state of the job.
use codex_waiting_plgin.Prelude.{◌↔◌, ◌≢◌, ◌⊎◌, pos, negsuc, true, ℤ, ◌≡◌, arith, false, Bool}
use codex_waiting_plgin.Store.States.{
  cancelled, completed, is_terminal, completed_stale, ExecutionState, running,
  execution_transitions, execution_eq,
}
use codex_waiting_plgin.Supervisor.{classify}

-- Every ending gives a terminal state, and the exit code or the signal, never both.
pub classify_terminal :
    (c : Bool) (code : ℤ) (stale : Bool) → is_terminal (classify c code stale).0 ≡ true
unfolding classify
classify_terminal c code stale = ground arith

-- The state is COMPLETED, or COMPLETED_STALE, exactly where no cancellation was requested and the
-- child returned 0, as the project fingerprint was kept or not; it is FAILED exactly where none was
-- requested and the child returned another code, or ended by a signal other than SIGTERM. In all
-- other cases it is CANCELLED.
pub classify_lem :
    (c : Bool) (code : ℤ) (stale : Bool)
    → let s = (classify c code stale).0 in
      ((s ≡ completed) ↔ ((c ≡ false) × (code ≡ pos 0) × (stale ≡ false)))
      × ((s ≡ completed_stale) ↔ ((c ≡ false) × (code ≡ pos 0) × (stale ≡ true)))
      × ((s ≡ cancelled) ↔ ((c ≡ true) ⊎ (code ≡ negsuc 14)))
      × ((s ≡ ExecutionState.failed) ↔ ((c ≡ false) × (code ≢ pos 0) × (code ≢ negsuc 14)))
unfolding classify
classify_lem c code stale = ground arith

-- The table allows each of these states after RUNNING.
pub classify_allowed :
    (c : Bool) (code : ℤ) (stale : Bool)
    → (execution_transitions running (classify c code stale).0 ≡ true)
      × (execution_eq (classify c code stale).0 running ≡ false)
unfolding classify
classify_allowed c code stale = ground arith
