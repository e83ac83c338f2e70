-- ===== src/Registry.antt =====
-- snooze_controller/thread_registry.py: the file of the threads that belong to Snooze, with their
-- turns and handoffs. A method that changes the file holds the lock from its reading to its writing;
-- `append_turn` and `update_turn` read before, so each is two steps there and one step here.
mod Records
pub mod Writes
pub mod Bindings
pub mod Recording
pub use Records.*
use codex_waiting_plgin.Prelude.{
  String, ◌++◌, ◌||◌, ◌==◌, ◌∷◌, Option, not, List, none, if◌then◌else◌, some, [], ◌*◌,
}
use codex_waiting_plgin.Prelude.Exec.{raised, ok, Exec}
use codex_waiting_plgin.Protocol.Json.{field, Json, Members, object}
use codex_waiting_plgin.Prelude.Dict.{put, get, Dict}

-- What `register` is called with beside the thread.
pub record Registration : Type 0 where
  pub app_server_instance : String
  pub cwd : String
  pub sandbox : Json
  pub approval_policy : Json
  pub model : Option String
  pub source : String

abbrev pub new_thread : String → String → Registration → ThreadRecord
new_thread now thread r = record {
  thread_id = thread;
  owner = "codex-snooze";
  app_server_instance = r.app_server_instance;
  created_at = now;
  updated_at = now;
  cwd = r.cwd;
  sandbox = r.sandbox;
  approval_policy = r.approval_policy;
  model = r.model;
  source = r.source;
  state = "LIVE";
  turns = [];
  handoffs = [];
}

-- `register`: an entry of the thread that is there is replaced.
unfoldable pub register_thread : String → String → Registration → RegistryAction ThreadRecord
register_thread now thread r threads =
    if thread == "" || r.app_server_instance == ""
    then (raised ids_required, threads)
    else (ok (new_thread now thread r), put thread (new_thread now thread r) threads)

abbrev pub update_found :
    String
    → String
    → (ThreadRecord → ThreadRecord)
    → Option ThreadRecord
    → RegistryAction ThreadRecord
update_found now thread f none threads = (raised unknown_thread, threads)
update_found now thread f (some r) threads =
    let w : ThreadRecord = record (f r) { updated_at = now } in (ok w, put thread w threads)

-- `update`; the fields are a function on the record.
abbrev pub update : String → String → (ThreadRecord → ThreadRecord) → RegistryAction ThreadRecord
update now thread f threads = update_found now thread f (get thread threads) threads

abbrev pub add_turn : String → String → String → ThreadRecord → ThreadRecord
add_turn now turn status r = record r {
  turns =
      r.turns
      ++ record {
        turn_id = turn;
        status = some status;
        started_at = some now;
        completed_at = none;
        updated_at = none;
      }
        ∷ [];
}

-- `append_turn`.
unfoldable pub append_turn : String → String → String → String → RegistryAction ThreadRecord
append_turn now thread turn status = update now thread (add_turn now turn status)

-- The first turn of the id is changed, or one without a start is added.
abbrev pub change_turn :
    String → String → Option String → Option String → List TurnEntry → List TurnEntry
change_turn now turn status completed [] =
    record {
      turn_id = turn;
      status = status;
      started_at = none;
      completed_at = completed;
      updated_at = some now;
    }
    ∷ []
change_turn now turn status completed (t ∷ ts) =
    if t.turn_id == turn
    then record t { status = status; completed_at = completed; updated_at = some now } ∷ ts
    else t ∷ change_turn now turn status completed ts

abbrev pub with_turn : String → String → Option String → Option String → ThreadRecord → ThreadRecord
with_turn now turn status completed r = record r {
  turns = change_turn now turn status completed r.turns;
}

-- `update_turn`, with the two fields that `wait_turn` gives.
unfoldable pub update_turn :
    String → String → String → Option String → Option String → RegistryAction ThreadRecord
update_turn now thread turn status completed =
    update now thread (with_turn now turn status completed)

abbrev pub with_state : String → Option String → ThreadRecord → ThreadRecord
with_state state none r = record r { state = state }
with_state state (some i) r = record r { state = state; app_server_instance = i }

-- `mark_state`.
unfoldable pub mark_state : String → String → String → Option String → RegistryAction ThreadRecord
mark_state now thread state i = update now thread (with_state state i)

-- `{}.get(k)` is `None` for a missing key and for null.
abbrev pub event_of : Members → Option Json
event_of m = field "completion_event_id" (object m)

abbrev pub find_job : String → List Handoff → Option Handoff
find_job job [] = none
find_job job (h ∷ hs) = if h.job_id == job then some h else find_job job hs

abbrev pub new_handoff :
    String → String → String → Option String → String → Members → String → Handoff
new_handoff now thread turn item job marker state = record {
  thread_id = thread;
  turn_id = turn;
  item_id = item;
  job_id = job;
  event_id = event_of marker;
  marker = marker;
  state = state;
  created_at = now;
  updated_at = now;
  turn_status = none;
  completion_event_id = none;
  result_sha256 = none;
  error = none;
  continuation_turn_id = none;
  delivery_state = none;
}

abbrev pub add_handoff : String → String → Handoff → ThreadRecord → RegistryAction Handoff
add_handoff now thread h r threads =
    (ok h, put thread (record r { handoffs = r.handoffs ++ h ∷ []; updated_at = now }) threads)

abbrev pub record_found :
    String → String → Handoff → ThreadRecord → Option Handoff → RegistryAction Handoff
record_found now thread h r none threads = add_handoff now thread h r threads
record_found now thread h r (some x) threads =
    if not (x.turn_id == h.turn_id) || not (x.thread_id == thread)
    then (raised mapped_elsewhere, threads)
    else (ok x, threads)

abbrev pub record_in : String → String → Handoff → Option ThreadRecord → RegistryAction Handoff
record_in now thread h none threads = (raised unknown_thread, threads)
record_in now thread h (some r) threads =
    record_found now thread h r (find_job h.job_id r.handoffs) threads

-- `record_handoff`: the mapping of a job to a turn of a thread.
unfoldable pub record_handoff :
    String → String → String → Option String → String → Members → String → RegistryAction Handoff
record_handoff now thread turn item job marker state threads =
    record_in now thread (new_handoff now thread turn item job marker state) (get thread threads)
      threads

-- The keyword arguments of `update_handoff`, as its callers give them.
pub data HandoffField : Type 0 where
  state_field error_field : String → HandoffField
  turn_status_field event_field digest_field turn_field delivery_field :
      Option String → HandoffField

abbrev pub set_field : HandoffField → Handoff → Handoff
set_field (state_field v) h = record h { state = v }
set_field (error_field v) h = record h { error = some v }
set_field (turn_status_field v) h = record h { turn_status = v }
set_field (event_field v) h = record h { completion_event_id = v }
set_field (digest_field v) h = record h { result_sha256 = v }
set_field (turn_field v) h = record h { continuation_turn_id = v }
set_field (delivery_field v) h = record h { delivery_state = v }

abbrev pub set_fields : List HandoffField → Handoff → Handoff
set_fields [] h = h
set_fields (f ∷ fs) h = set_fields fs (set_field f h)

-- The first handoff of the job, changed.
abbrev pub change_handoff : String → String → List HandoffField → List Handoff → List Handoff
change_handoff now job fs [] = []
change_handoff now job fs (h ∷ hs) =
    if h.job_id == job
    then record (set_fields fs h) { updated_at = now } ∷ hs
    else h ∷ change_handoff now job fs hs

abbrev pub changed_handoff :
    String
    → String
    → String
    → List HandoffField
    → ThreadRecord
    → Option Handoff
    → RegistryAction Handoff
changed_handoff now thread job fs r none threads = (raised unknown_handoff, threads)
changed_handoff now thread job fs r (some h) threads = (
  ok (record (set_fields fs h) { updated_at = now }),
  put thread (record r { handoffs = change_handoff now job fs r.handoffs; updated_at = now })
      threads,
)

abbrev pub update_handoff_in :
    String → String → String → List HandoffField → Option ThreadRecord → RegistryAction Handoff
update_handoff_in now thread job fs none threads = (raised unknown_thread, threads)
update_handoff_in now thread job fs (some r) threads =
    changed_handoff now thread job fs r (find_job job r.handoffs) threads

-- `update_handoff`.
unfoldable pub update_handoff :
    String → String → String → List HandoffField → RegistryAction Handoff
update_handoff now thread job fs threads =
    update_handoff_in now thread job fs (get thread threads) threads
