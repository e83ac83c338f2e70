-- ===== src/Registry/Records.antt =====
-- The objects in the file of the registry.
use codex_waiting_plgin.Prelude.{String, Option, List}
use codex_waiting_plgin.Prelude.Dict.{Dict}
use codex_waiting_plgin.Prelude.Exec.{Exec}
use codex_waiting_plgin.Protocol.Json.{Members, Json}

-- The values of a turn in `turns`.
pub record TurnEntry : Type 0 where
  pub turn_id : String
  pub status : Option String
  pub started_at : Option String
  pub completed_at : Option String
  pub updated_at : Option String

-- The object of one handoff: that of `record_handoff`, and what the updates of the handoff
-- controller add.
pub record Handoff : Type 0 where
  pub thread_id : String
  pub turn_id : String
  pub item_id : Option String
  pub job_id : String
  pub event_id : Option Json
  pub marker : Members
  pub state : String
  pub created_at : String
  pub updated_at : String
  pub turn_status : Option String
  pub completion_event_id : Option String
  pub result_sha256 : Option String
  pub error : Option String
  pub continuation_turn_id : Option String
  pub delivery_state : Option String

-- The object of one thread.
pub record ThreadRecord : Type 0 where
  pub thread_id : String
  pub owner : String
  pub app_server_instance : String
  pub created_at : String
  pub updated_at : String
  pub cwd : String
  pub sandbox : Json
  pub approval_policy : Json
  pub model : Option String
  pub source : String
  pub state : String
  pub turns : List TurnEntry
  pub handoffs : List Handoff

-- The object `threads` of the file.
abbrev pub Threads : Type 0
Threads = Dict ThreadRecord

-- The two `ValueError`s, and `KeyError` of a thread and of a handoff.
pub data RegistryError : Type 0 where
  ids_required mapped_elsewhere unknown_thread unknown_handoff : RegistryError

abbrev pub RegistryAction : Type 0 → Type 0
RegistryAction A = Exec RegistryError Threads A
