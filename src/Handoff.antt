-- ===== src/Handoff.antt =====
-- snooze_controller/handoff.py: HandoffController, which sees a job detach, closes the turn, waits for
-- the result and routes the continuation. A wait is a list of what its polls see before the deadline;
-- what the App Server does is an argument. The search for the marker in the messages, the handoff
-- tool and the clocks of the observation are not modelled.
mod States
pub mod Waits
pub mod Closings
pub mod Continuations
pub mod EndToEnd
pub use States.*
use codex_waiting_plgin.Registry.{
  RegistryError, delivery_field, error_field, turn_field, Threads, Handoff, HandoffField,
  digest_field, event_field, state_field, turn_status_field, update_handoff, record_handoff,
}
use codex_waiting_plgin.Prelude.Exec.{
  ok, raise_if, raise, Exec, pure, Outcome, modify, raised, ◌>>=◌, ◌>>◌,
}
use codex_waiting_plgin.Prelude.{
  [], Bool, ◌∷◌, none, if◌then◌else◌, String, ℕ, Option, ◌==◌, List, some, ℤ, not, is_positive, ◌*◌,
}
use codex_waiting_plgin.Router.{route, Events, RouterError, Turn}
use codex_waiting_plgin.Store.Records.{Result, missing, File, holds, unreadable}
use codex_waiting_plgin.Protocol.Json.{Members}
use codex_waiting_plgin.Store.States.{is_terminal}

-- `self.phase = p; observation.phase = p`.
abbrev pub set_phase : HandoffPhase → Session → Session
set_phase p s = record s { phase = p; observation = record s.observation { phase = p } }

abbrev pub lift :
    {A : Type 0} → Session → Outcome RegistryError A × Threads → Outcome HandoffError A × Session
lift s (ok a, threads) = (ok a, record s { threads = threads })
lift s (raised e, threads) = (raised (registry_error e), record s { threads = threads })

-- `registry.update_handoff` for the thread of the observation.
abbrev pub note : String → String → List HandoffField → HandoffAction Handoff
note now job fs s = lift s (update_handoff now s.observation.thread_id job fs s.threads)

-- What closes the turn: it is seen completed; or the interrupt succeeds, or fails because the turn
-- completed, and the wait then ends; or the interrupt fails.
pub data Closing : Type 0 where
  completed_before : Option String → Closing
  interrupted raced : Option (Option String) → Closing
  refused : Closing

abbrev wait_closed : Option (Option String) → HandoffAction (Unit {0})
wait_closed none s = (raised turn_not_closed, s)
wait_closed (some status) s =
    (ok tt, record s { observation = record s.observation { turn = some status } })

-- `_close_current_turn`: `self.phase` stays where the turn had completed or the interrupt was raced.
unfoldable pub close_current_turn : String → Closing → HandoffAction (Unit {0})
close_current_turn raced_error (completed_before status) s = (
  ok tt,
  record s {
    observation = record s.observation { phase = handoff_turn_closed; turn = some status };
  },
)
close_current_turn raced_error (interrupted end) s =
    wait_closed end (set_phase turn_interrupted (set_phase turn_interrupting s))
close_current_turn raced_error (raced end) s =
    let t : Session = set_phase turn_interrupting s in
    wait_closed end (record t {
      observation = record t.observation { phase = handoff_turn_closed; error = some raced_error };
    })
close_current_turn raced_error refused s = (raised not_interrupted, set_phase turn_interrupting s)

abbrev pub request : String → String → Session → Marker → Option String → Session
request thread turn s m item = record s {
  phase = handoff_requested;
  observation = record {
    phase = handoff_requested;
    thread_id = thread;
    turn_id = turn;
    marker = some m;
    item_id = item;
    result = none;
    turn = none;
    error = none;
  };
}

abbrev pub item_or : Option String → Option String → Option String
item_or none known = known
item_or (some i) known = some i

abbrev pub status_of : Option (Option String) → Option String
status_of none = none
status_of (some status) = status

-- What `wait_for_handoff` writes after the turn is closed, and its return.
abbrev pub close_noted : String → String → HandoffAction Observation
close_noted now job s =
    (note now job (
          state_field (phase_text s.observation.phase)
          ∷ turn_status_field (status_of s.observation.turn)
          ∷ [])
        >>= λ h t. (ok t.observation, t))
      s

abbrev pub set_item : Handoff → Session → Session
set_item h s = record s {
  observation = record s.observation { item_id = item_or s.observation.item_id h.item_id };
}

-- `wait_for_handoff` once a marker is seen; `self.handoff` is kept where it raises.
unfoldable pub hand_off :
    String → String → String → String → Marker → Option String → Closing → HandoffAction Observation
hand_off now raced_error thread turn m item closing s =
    (do
      h ← λ t. lift t (
          record_handoff now thread turn item m.job_id m.object (phase_text handoff_requested)
            t.threads)
      modify (set_item h)
      close_current_turn raced_error closing
      close_noted now m.job_id)
      (request thread turn s m item)

-- What a poll of `wait_for_handoff` sees: nothing yet, a marker with the item of its command and the
-- closing of the turn, or the turn completed without a marker, with the result of a new job if one
-- is there.
pub data Seen : Type 0 where
  waiting : Seen
  marked : Marker → Option String → Closing → Seen
  ended : Option String → File Result → Seen

abbrev short_command : String → String → Option String → File Result → HandoffAction Observation
short_command thread turn status missing s = (raised no_handoff_marker, s)
short_command thread turn status unreadable s = (raised result_unreadable, s)
short_command thread turn status (holds r) s = (
  ok (record {
    phase = short_command_completed;
    thread_id = thread;
    turn_id = turn;
    marker = none;
    item_id = none;
    result = some r;
    turn = some status;
    error = none;
  }),
  s,
)

-- The loop of `wait_for_handoff`.
abbrev pub watch : String → String → String → String → List Seen → HandoffAction Observation
watch now raced_error thread turn [] s = (raised marker_not_observed, s)
watch now raced_error thread turn (waiting ∷ polls) s = watch now raced_error thread turn polls s
watch now raced_error thread turn (marked m item closing ∷ polls) s =
    hand_off now raced_error thread turn m item closing s
watch now raced_error thread turn (ended status result ∷ polls) s =
    short_command thread turn status result s

-- `wait_for_handoff`.
unfoldable pub wait_for_handoff :
    String → String → Option String → String → ℤ → List Seen → HandoffAction Observation
wait_for_handoff now raced_error none turn timeout polls s = (raised no_thread, s)
wait_for_handoff now raced_error (some thread) turn timeout polls s =
    if thread == ""
    then (raised no_thread, s)
    else if not (is_positive timeout)
    then (raised timeout_not_positive, s)
    else watch now raced_error thread turn polls s

abbrev pub outcome_fields : Result → List HandoffField
outcome_fields r =
    state_field (phase_text job_completed)
    ∷ event_field (some r.completion_event_id)
    ∷ digest_field r.result_sha256
    ∷ []

-- The loop of `wait_for_job` over what `store.read_result` gives at each poll.
unfoldable pub poll : String → String → List (File Result) → HandoffAction Result
poll now job [] s = (raised no_terminal_result, s)
poll now job (missing ∷ polls) s = poll now job polls s
poll now job (unreadable ∷ polls) s = (raised result_unreadable, s)
poll now job (holds r ∷ polls) s =
    let rest = poll now job polls s in
    if is_terminal r.execution_state
    then (do
      modify (λ t.
          set_phase job_completed
            (record t { observation = record t.observation { result = some r } }))
      _ ← note now job (outcome_fields r)
      pure r)
        s
    else rest

abbrev pub wait_marked : String → List (File Result) → Option Marker → HandoffAction Result
wait_marked now polls none s = (raised no_marker, s)
wait_marked now polls (some m) s = poll now m.job_id polls (set_phase waiting_for_job s)

-- `wait_for_job`.
unfoldable pub wait_for_job : String → List (File Result) → HandoffAction Result
wait_for_job now polls s = wait_marked now polls s.observation.marker s

abbrev pub result_of : String → List (File Result) → Option Result → HandoffAction Result
result_of now polls none s = wait_for_job now polls s
result_of now polls (some r) s = (ok r, s)

abbrev pub completed_fields : String → List HandoffField
completed_fields turn =
    state_field (phase_text continuation_completed)
    ∷ turn_field (some turn)
    ∷ delivery_field (some "SENT_UNCONFIRMED")
    ∷ []

-- The end of a continuation, by what `router.route` returned or raised.
abbrev pub routed :
    (RouterError → String)
    → String
    → String
    → Option String
    → Outcome RouterError (String × ℕ)
    → HandoffAction (String × ℕ)
routed text now job status (raised e) = do
  modify (λ t. set_phase failed t)
  modify (λ t. record t { observation = record t.observation { error = some (text e) } })
  _ ← note now job (state_field (phase_text failed) ∷ error_field (text e) ∷ [])
  raise (continuation_failed e)
routed text now job status (ok (turn, attempts)) = do
  modify (set_phase continuation_completed)
  modify (λ t. record t { observation = record t.observation { turn = some status } })
  _ ← note now job (completed_fields turn)
  pure (turn, attempts)

-- `continue_after_job`; `thread` is that of the agent controller, `status` that of the turn if it
-- completes.
unfoldable pub continue_after_job :
    (RouterError → String)
    → String
    → Option String
    → Bool
    → List (File Result)
    → Turn
    → Option String
    → HandoffAction (String × ℕ)
continue_after_job text now thread allow_duplicate polls turn status s =
    (do
      r ← result_of now polls s.observation.result
      raise_if (r.completion_event_id == "") no_event_id
      modify (set_phase continuation_started)
      _ ← note now r.job_id (state_field (phase_text continuation_started) ∷ [])
      λ t.
          let (o, events) =
            route now thread r.completion_event_id r.job_id r.result_sha256 allow_duplicate turn
              t.events in
          routed text now r.job_id status o (record t { events = events }))
      s
