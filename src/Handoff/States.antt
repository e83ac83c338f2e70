-- ===== src/Handoff/States.antt =====
-- The phases of a handoff, and what the controller holds.
use codex_waiting_plgin.Prelude.{String, Option}
use codex_waiting_plgin.Registry.{RegistryError, Threads}
use codex_waiting_plgin.Prelude.Exec.{Exec}
use codex_waiting_plgin.Store.Records.{Result}
use codex_waiting_plgin.Protocol.Json.{Members}
use codex_waiting_plgin.Router.{Events, RouterError}

-- `HandoffPhase`; its texts are the names.
pub data HandoffPhase : Type 0 where
  turn_started handoff_requested turn_interrupting turn_interrupted : HandoffPhase
  handoff_turn_closed waiting_for_job job_completed continuation_started : HandoffPhase
  continuation_completed short_command_completed failed : HandoffPhase

abbrev pub phase_text : HandoffPhase → String
phase_text turn_started = "TURN_STARTED"
phase_text handoff_requested = "HANDOFF_REQUESTED"
phase_text turn_interrupting = "TURN_INTERRUPTING"
phase_text turn_interrupted = "TURN_INTERRUPTED"
phase_text handoff_turn_closed = "HANDOFF_TURN_CLOSED"
phase_text waiting_for_job = "WAITING_FOR_JOB"
phase_text job_completed = "JOB_COMPLETED"
phase_text continuation_started = "CONTINUATION_STARTED"
phase_text continuation_completed = "CONTINUATION_COMPLETED"
phase_text short_command_completed = "SHORT_COMMAND_COMPLETED"
phase_text failed = "FAILED"

-- A marker that was found, with `str(marker["job_id"])`.
pub record Marker : Type 0 where
  pub job_id : String
  pub object : Members

-- `HandoffObservation`; of a turn only its status.
pub record Observation : Type 0 where
  pub phase : HandoffPhase
  pub thread_id : String
  pub turn_id : String
  pub marker : Option Marker
  pub item_id : Option String
  pub result : Option Result
  pub turn : Option (Option String)
  pub error : Option String

-- The controller with one observation, and the files of the registry and of the router.
pub record Session : Type 0 where
  pub phase : HandoffPhase
  pub observation : Observation
  pub threads : Threads
  pub events : Events

-- `HandoffControllerError` by its message, and the exceptions of the other parts that pass.
pub data HandoffError : Type 0 where
  no_thread timeout_not_positive no_marker no_handoff_marker marker_not_observed : HandoffError
  no_terminal_result no_event_id result_unreadable turn_not_closed not_interrupted : HandoffError
  registry_error : RegistryError → HandoffError
  continuation_failed : RouterError → HandoffError

abbrev pub HandoffAction : Type 0 → Type 0
HandoffAction A = Exec HandoffError Session A
