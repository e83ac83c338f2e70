-- ===== src/AppServer.antt =====
-- snooze_controller/app_server_process.py: the process of the App Server and its JSON-RPC stream. Its
-- threads are taken as steps: a request is its sending and its end, and what the server writes is
-- read between. Standard error, the trace and the queue `_messages`, which nothing reads, are not
-- modelled.
mod Queues
pub mod Steps
pub mod Waiters
pub mod Answers
pub use Queues.*
use codex_waiting_plgin.Prelude.{
  Option, negsuc, none, [], false, if◌then◌else◌, nat_eq, ℕ, pos, String, ◌&&◌, ℤ, ◌||◌, ◌∷◌, Bool,
  is_positive, not, List, true, is_some, leb, some, suc, ◌*◌,
}
use codex_waiting_plgin.Protocol.Json.{
  Members, get_member, field, Json, object, number, array, member, boolean, text, end,
}
use codex_waiting_plgin.Prelude.Exec.{ok, Exec, raised, Outcome, modify, ◌>>◌}
use codex_waiting_plgin.Router.{started}

-- `AppServerLifecycle`.
pub data Lifecycle : Type 0 where
  stopped starting initializing ready degraded crashed restarting failed : Lifecycle

-- The object. `started` tells that there is a process, `closed` is `_closed_by_owner`.
pub record Server : Type 0 where
  pub lifecycle : Lifecycle
  pub started : Bool
  pub closed : Bool
  pub instance_id : Option String
  pub counter : ℕ
  pub pending : Pending
  pub restart_count : ℕ

abbrev pub new_server : Server
new_server = record {
  lifecycle = Lifecycle.stopped;
  started = false;
  closed = false;
  instance_id = none;
  counter = 0;
  pending = [];
  restart_count = 0;
}

-- `ValueError`, and `AppServerProcessError` by its message.
pub data ServerError : Type 0 where
  timeout_not_positive max_restarts_not_positive restart_limit could_not_start : ServerError
  stdin_unavailable write_failed timed_out initialize_failed : ServerError
  cannot_start not_ready : Lifecycle → ServerError

abbrev pub ServerAction : Type 0 → Type 0
ServerAction A = Exec ServerError Server A

abbrev pub set_lifecycle : Lifecycle → Server → Server
set_lifecycle l s = record s { lifecycle = l }

-- `stop`, its timeout positive; the process ends by itself, on SIGTERM or on SIGKILL. It is one step
-- here: in the code the state changes a moment after `_closed_by_owner`.
unfoldable pub stop : Server → Server
stop s =
    if s.started
    then record s { lifecycle = Lifecycle.stopped; started = false; closed = true }
    else set_lifecycle Lifecycle.stopped s

abbrev pub crashes : Lifecycle → Lifecycle
crashes Lifecycle.stopped = Lifecycle.stopped
crashes Lifecycle.failed = Lifecycle.failed
crashes l = Lifecycle.crashed

-- `_mark_crashed`.
unfoldable pub mark_crashed : Server → Server
mark_crashed s =
    if s.closed
    then s
    else record s { lifecycle = crashes s.lifecycle; pending = fail_all s.pending }

-- Lists and dictionaries are no keys: the look-up raises, and the reader ends as at a crash.
abbrev pub is_hashable : Json → Bool
is_hashable (array xs) = false
is_hashable (object m) = false
is_hashable v = true

-- `_handle_stdout_line` of a parsed message. One that is no response changes none of these fields.
-- A second answer waits in the reader for the queue to be emptied, and its waiter is gone by then.
abbrev pub dispatch : Option ℕ → Json → Server → Server
dispatch none v s = s
dispatch (some k) v s = record s { pending = answer k v s.pending }

abbrev pub receive : Option Json → Json → Server → Server
receive none v s = s
receive (some id) v s = if is_hashable id then dispatch (key_of id) v s else mark_crashed s

abbrev pub is_response : Members → Bool
is_response m = is_some (get_member "result" m) || is_some (get_member "error" m)

abbrev pub id_of : Members → Option Json
id_of m = if is_response m then get_member "id" m else none

unfoldable pub handle_stdout_line : Json → Server → Server
unfolding mark_crashed
handle_stdout_line (object m) s = receive (id_of m) (object m) s
handle_stdout_line v s = s

abbrev pub may_send : Lifecycle → Bool
may_send ready = true
may_send initializing = true
may_send l = false

-- How `_send_raw` ends, where there is a process.
pub data Sent : Type 0 where
  written broken_pipe : Sent

-- `request` up to the wait: the id, under which a waiter stands.
abbrev pub forget : ℕ → Server → Server
forget k s = record s { pending = remove k s.pending }

abbrev pub register : Server → Server
register s = record s { counter = suc s.counter; pending = (suc s.counter, none) ∷ s.pending }

unfoldable pub send_request : ℤ → Bool → Sent → ServerAction ℕ
unfolding mark_crashed
send_request timeout allow_before_ready sent s =
    if not (is_positive timeout)
    then (raised timeout_not_positive, s)
    else if not (may_send s.lifecycle) && not allow_before_ready
    then (raised (not_ready s.lifecycle), s)
    else if not s.started
    then (raised stdin_unavailable, forget (suc s.counter) (register s))
    else elim sent [
      | written ↦ (ok (suc s.counter), register s)
      | broken_pipe ↦ (raised write_failed, forget (suc s.counter) (mark_crashed (register s)))
    ]

-- `request` from the wait on: the answer that is there when it ends, or the timeout.
abbrev pub waited : Option Json → Outcome ServerError Json
waited (some v) = ok v
waited none = raised timed_out

unfoldable pub end_request : ℕ → ServerAction Json
end_request id s = (waited (slot_of id s.pending), forget id s)

-- What `initialize` gives: an answer, or an exception of the request.
pub data Initialized : Type 0 where
  answered : Json → Initialized
  no_answer : ServerError → Initialized

pub record Startup : Type 0 where
  pub spawns : Bool
  pub instance : String
  pub reply : Initialized

abbrev is_object : Option Json → Bool
is_object (some (object m)) = true
is_object v = false

abbrev pub is_accepted : Json → Bool
is_accepted v = not (is_some (field "error" v)) && is_object (field "result" v)

abbrev pub startable : Lifecycle → Bool
startable Lifecycle.stopped = true
startable Lifecycle.crashed = true
startable restarting = true
startable l = false

-- `start` up to the request `initialize`, with `_spawn`.
unfoldable pub begin_start : ℤ → Bool → String → ServerAction (Unit {0})
begin_start timeout spawns instance_ s =
    if not (is_positive timeout)
    then (raised timeout_not_positive, s)
    else if not (startable s.lifecycle)
    then (raised (cannot_start s.lifecycle), s)
    else if not spawns
    then (raised could_not_start, set_lifecycle Lifecycle.failed s)
    else (
      ok tt,
      record s {
        lifecycle = initializing;
        started = true;
        closed = false;
        instance_id = some instance_;
      },
    )

-- `start` from the end of `initialize` on.
unfoldable pub initialized : Initialized → ServerAction Json
unfolding stop
initialized (no_answer e) s = (raised e, stop s)
initialized (answered v) s =
    if is_accepted v then (ok v, set_lifecycle ready s) else (raised initialize_failed, stop s)

-- `start`, where no other thread acts between; the request `initialize` takes an id.
unfoldable pub start : ℤ → Startup → ServerAction Json
start timeout up = do
  begin_start timeout up.spawns up.instance
  modify (λ s. record s { counter = suc s.counter })
  initialized up.reply

-- `restart` up to its start.
unfoldable pub begin_restart : ℕ → ServerAction (Unit {0})
unfolding stop
begin_restart max_restarts s =
    if nat_eq max_restarts 0
    then (raised max_restarts_not_positive, s)
    else if leb max_restarts s.restart_count
    then (raised restart_limit, s)
    else (ok tt, set_lifecycle restarting (stop (record s { restart_count = suc s.restart_count })))

-- `restart`.
unfoldable pub restart : ℤ → ℕ → Startup → ServerAction Json
restart timeout max_restarts up = do begin_restart max_restarts; start timeout up
