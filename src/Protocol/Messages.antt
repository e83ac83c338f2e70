-- ===== src/Protocol/Messages.antt =====
-- Whole messages: a request of the controller against the union of all requests of the App Server.
use codex_waiting_plgin.Prelude.{Bool, pos, refl, true, false, ◌≡◌, ◌||◌, ℕ, String}
use codex_waiting_plgin.Protocol.Types.ClientRequests.{client_request}
use codex_waiting_plgin.Protocol.Conformance.{and_true}
use codex_waiting_plgin.Protocol.Types.ThreadSettings.{thread_start_params, thread_resume_params}
use codex_waiting_plgin.Protocol.Json.{Json, object, member, number, text, end}
use codex_waiting_plgin.Protocol.Schema.{conforms, Ty}
use codex_waiting_plgin.Protocol.Types.ItemsBase.{process_kill_params}
use codex_waiting_plgin.Protocol.Types.Basics.{initialize_params}
use codex_waiting_plgin.Protocol.Types.Turns.{turn_interrupt_params}
use codex_waiting_plgin.Protocol.Types.ThreadItems.{command_exec_params}
use codex_waiting_plgin.Protocol.Types.TurnRecords.{turn_start_params}
use codex_waiting_plgin.Protocol.Types.Threads.{thread_background_terminals_list_params}
use codex_waiting_plgin.Protocol.Types.ItemRecords.{process_spawn_params}

-- The message of `AppServerProcess.request`.
abbrev pub message : ℕ → String → Json → Json
message id method params =
    object
      (member "id" (number (pos id)) (member "method" (text method) (member "params" params end)))

or_false : (b : Bool) → (b || false) ≡ b
or_false true = refl
or_false false = refl

-- The requests that the controller's files send.
pub data Request : Type 0 where
  initialize thread_start thread_resume turn_start turn_interrupt : Request
  terminals_list command_exec process_spawn process_kill : Request

abbrev pub method_of : Request → String
method_of initialize = "initialize"
method_of thread_start = "thread/start"
method_of thread_resume = "thread/resume"
method_of turn_start = "turn/start"
method_of turn_interrupt = "turn/interrupt"
method_of terminals_list = "thread/backgroundTerminals/list"
method_of command_exec = "command/exec"
method_of process_spawn = "process/spawn"
method_of process_kill = "process/kill"

-- The type of the parameters of each.
abbrev pub params_of : Request → Ty
params_of initialize = initialize_params
params_of thread_start = thread_start_params
params_of thread_resume = thread_resume_params
params_of turn_start = turn_start_params
params_of turn_interrupt = turn_interrupt_params
params_of terminals_list = thread_background_terminals_list_params
params_of command_exec = command_exec_params
params_of process_spawn = process_spawn_params
params_of process_kill = process_kill_params

-- A message of the controller is a request of the App Server exactly where its parameters belong to
-- the type of its method: no other member of the union admits it.
pub conforms-message :
    (r : Request) (id : ℕ) (p : Json)
    → conforms client_request (message id (method_of r) p) ≡ conforms (params_of r) p
unfolding conforms
conforms-message initialize id p = simp (or_false, and_true)
conforms-message thread_start id p = simp (or_false, and_true)
conforms-message thread_resume id p = simp (or_false, and_true)
conforms-message turn_start id p = simp (or_false, and_true)
conforms-message turn_interrupt id p = simp (or_false, and_true)
conforms-message terminals_list id p = simp (or_false, and_true)
conforms-message command_exec id p = simp (or_false, and_true)
conforms-message process_spawn id p = simp (or_false, and_true)
conforms-message process_kill id p = simp (or_false, and_true)
