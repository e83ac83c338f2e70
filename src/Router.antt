-- ===== src/Router.antt =====
-- snooze_controller/completion_router.py: the durable record of completion events, and the turn that
-- delivers one. Each method but `route` holds the lock, so it is one step; `route` holds it in blocks.
pub mod Claims
pub mod Traces
pub mod Duplicates
use codex_waiting_plgin.Prelude.{
  ◌==◌, Option, if◌then◌else◌, option_eq, ◌&&◌, [], List, true, not, ℕ, ◌∷◌, false, Bool, none,
  some, String, ◌||◌, suc,
}
use codex_waiting_plgin.Prelude.Exec.{modify, raise_if, pure, raise, Exec, ◌>>◌, ◌>>=◌}
use codex_waiting_plgin.Prelude.Dict.{Dict, get, put}
use codex_waiting_plgin.Prelude.Texts.{joined}

-- The texts of `state`; SENDING is tested for and never written.
pub data EventState : Type 0 where
  claimed starting sending sent_unconfirmed retry_wait acked : EventState

-- The object under one event id.
pub record Event : Type 0 where
  pub event_id : String
  pub job_id : String
  pub thread_id : String
  pub result_sha256 : Option String
  pub state : EventState
  pub attempts : ℕ
  pub claimed_at : Option String
  pub started_at : Option String
  pub sent_at : Option String
  pub acked_at : Option String
  pub turn_id : Option String
  pub error : Option String
  pub updated_at : Option String
  pub retry_requested_at : Option String

-- The object `events` of the file.
abbrev pub Events : Type 0
Events = Dict Event

-- `CompletionRouterError`, by its message; `turn_failed` carries the text of the controller's error.
pub data RouterError : Type 0 where
  ids_required bound_elsewhere already_acked in_flight permission_required : RouterError
  no_live_thread unknown_event acked_cannot_retry not_sent turn_mismatch : RouterError
  turn_failed : String → RouterError

abbrev pub Action : Type 0 → Type 0
Action A = Exec RouterError Events A

abbrev is_in_flight : EventState → Bool
is_in_flight claimed = true
is_in_flight starting = true
is_in_flight sending = true
is_in_flight _ = false

abbrev is_acked : EventState → Bool
is_acked acked = true
is_acked _ = false

abbrev is_sent : EventState → Bool
is_sent sent_unconfirmed = true
is_sent _ = false

-- The refusals of `claim` for an event that is there.
abbrev claim_error : Event → String → String → Bool → Option RouterError
claim_error e job_id thread_id allow_duplicate =
    if not (e.job_id == job_id) || not (e.thread_id == thread_id)
    then some bound_elsewhere
    else if is_acked e.state
    then some already_acked
    else if is_in_flight e.state && not allow_duplicate
    then some in_flight
    else if is_sent e.state && not allow_duplicate
    then some permission_required
    else none

abbrev pub new_event : String → String → String → String → Option String → Event
new_event now event_id job_id thread_id digest = record {
  event_id = event_id;
  job_id = job_id;
  thread_id = thread_id;
  result_sha256 = digest;
  state = claimed;
  attempts = 1;
  claimed_at = some now;
  started_at = none;
  sent_at = none;
  acked_at = none;
  turn_id = none;
  error = none;
  updated_at = none;
  retry_requested_at = none;
}

abbrev claimed_again : String → Option String → Event → Event
claimed_again now digest e = record e {
  state = claimed;
  attempts = suc e.attempts;
  claimed_at = some now;
  result_sha256 = digest;
}

abbrev claim_found :
    String → String → String → String → Option String → Bool → Option Event → Action Event
claim_found now event_id job_id thread_id digest allow_duplicate none = do
  let e : Event = new_event now event_id job_id thread_id digest
  modify (put event_id e)
  pure e
claim_found now event_id job_id thread_id digest allow_duplicate (some x) =
    elim (claim_error x job_id thread_id allow_duplicate) [
      | some error ↦ raise error
      | none ↦ (do
        modify (put event_id (claimed_again now digest x))
        pure (claimed_again now digest x))
    ]

-- `claim`.
unfoldable pub claim : String → String → String → String → Option String → Bool → Action Event
claim now event_id job_id thread_id digest allow_duplicate l =
    (do
      raise_if (event_id == "" || job_id == "" || thread_id == "") ids_required
      claim_found now event_id job_id thread_id digest allow_duplicate (get event_id l))
      l

-- A change of the record of an event, or an error where there is none.
abbrev change_found : String → (Event → Event) → Option Event → Action Event
change_found event_id f none = raise unknown_event
change_found event_id f (some e) = do modify (put event_id (f e)); pure (f e)

abbrev change : String → (Event → Event) → Action Event
change event_id f l = change_found event_id f (get event_id l) l

-- `mark_retry`.
unfoldable pub mark_retry : String → String → String → Action Event
mark_retry now event_id error =
    change event_id
      (λ e. record e { state = retry_wait; error = some error; updated_at = some now })

-- What the controller's `start_turn` and `wait_turn` do: the start raises, or a turn starts and then
-- is not seen to complete (an `AgentControllerError`), or the wait raises another error, or it
-- completes. An error has the name of its type and its message.
pub data Turn : Type 0 where
  not_started : String → String → Turn
  started : String → String → Turn
  interrupted : String → String → String → Turn
  completed : String → Turn

-- `f"{type(exc).__name__}: {exc}"`.
abbrev pub error_text : String → String → String
error_text kind msg = joined kind (joined ": " msg)

-- The second and the third block of `route` that hold the lock.
unfoldable pub begin_turn : String → String → Action Event
begin_turn now event_id =
    change event_id (λ x. record x { state = starting; started_at = some now })

unfoldable pub note_turn : String → String → String → Action Event
note_turn now event_id turn = change event_id (λ e. record e {
  state = sent_unconfirmed;
  sent_at = some now;
  turn_id = some turn;
  error = none;
})

-- The outer handler of `route`.
abbrev give_up : String → String → String → String → Action String
give_up now event_id kind msg = do
  _ ← mark_retry now event_id (error_text kind msg)
  raise (turn_failed msg)

-- `route` after its claim and the state STARTING. A turn that is not seen to complete is marked by the
-- inner and by the outer handler; the text of the prompt is not modelled.
unfoldable pub send : String → String → Turn → Action String
send now event_id (not_started kind msg) = give_up now event_id kind msg
send now event_id (started turn msg) = do
  _ ← note_turn now event_id turn
  _ ← mark_retry now event_id msg
  give_up now event_id "AgentControllerError" msg
send now event_id (interrupted turn kind msg) = do
  _ ← note_turn now event_id turn
  give_up now event_id kind msg
send now event_id (completed turn) = do _ ← note_turn now event_id turn; pure turn

-- `route`, where no other thread acts between its blocks; Router/Traces has these as steps of their own.
-- The thread is that of the controller. Returns the id of the turn and the attempts.
unfoldable pub route :
    String → Option String → String → String → Option String → Bool → Turn → Action (String × ℕ)
route now none event_id job_id digest allow_duplicate turn = raise no_live_thread
route now (some thread) event_id job_id digest allow_duplicate turn = do
  raise_if (thread == "") no_live_thread
  e ← claim now event_id job_id thread digest allow_duplicate
  _ ← begin_turn now event_id
  t ← send now event_id turn
  pure (t, e.attempts)

abbrev turn_mismatches : Option String → Option String → Bool
turn_mismatches none recorded = false
turn_mismatches (some t) recorded = not (option_eq recorded (some t))

abbrev acknowledge_found : String → String → Option String → Option Event → Action Event
acknowledge_found now event_id turn none = raise unknown_event
acknowledge_found now event_id turn (some e) =
    if is_acked e.state
    then pure e
    else if not (is_sent e.state)
    then raise not_sent
    else if turn_mismatches turn e.turn_id
    then raise turn_mismatch
    else (do
      let w : Event = record e { state = acked; acked_at = some now; error = none }
      modify (put event_id w)
      pure w)

-- `acknowledge`.
unfoldable pub acknowledge : String → String → Option String → Action Event
acknowledge now event_id turn l = acknowledge_found now event_id turn (get event_id l) l

abbrev retry_found : String → String → Bool → Option Event → Action Event
retry_found now event_id allow_duplicate none = raise unknown_event
retry_found now event_id allow_duplicate (some e) =
    if is_acked e.state
    then raise acked_cannot_retry
    else if is_sent e.state && not allow_duplicate
    then raise permission_required
    else (do
      let w : Event = record e { state = retry_wait; retry_requested_at = some now }
      modify (put event_id w)
      pure w)

-- `retry`.
unfoldable pub retry : String → String → Bool → Action Event
retry now event_id allow_duplicate l = retry_found now event_id allow_duplicate (get event_id l) l
