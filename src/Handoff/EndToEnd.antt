-- ===== src/Handoff/EndToEnd.antt =====
-- From the end of the child to the acknowledged continuation: the supervisor, the wait of the handoff
-- controller, the router and the registry together.
use codex_waiting_plgin.Handoff.Continuations.{started_fields, continue_known}
use codex_waiting_plgin.Prelude.Exec.{Outcome, ok}
use codex_waiting_plgin.Store.Records.{
  ProcessIdentity, Result, Job, Digests, holds, File, Metadata, JobSpec,
}
use codex_waiting_plgin.Router.Claims.{delivered, route-accepted}
use codex_waiting_plgin.Router.{
  Events, Event, RouterError, route, completed, acknowledge, acked, new_event,
}
use codex_waiting_plgin.Prelude.{
  ◌||◌, none, ap, ◌==◌, refl, ◌∷◌, Option, ◌≡◌, false, true, some, List, ◌++◌, ℕ, String, eq_refl,
  ◌∙◌, arith,
}
use codex_waiting_plgin.Supervisor.{World, finish_job}
use codex_waiting_plgin.Supervisor.Crash.{IsRunning, run_result, finish_job_writes}
use codex_waiting_plgin.Handoff.{
  continuation_completed, HandoffError, continue_after_job, outcome_fields, Session, Marker,
  completed_fields, result_of, wait_for_job,
}
use codex_waiting_plgin.Handoff.Waits.{
  awaited, wait_for_job_known, recorded-awaited, all_pending, recorded,
}
use codex_waiting_plgin.Store.States.{is_terminal}
use codex_waiting_plgin.Registry.{Handoff}
use codex_waiting_plgin.Registry.Recording.{refreshed, update_handoff_known}
use codex_waiting_plgin.Supervisor.Outcomes.{classify_terminal}
use codex_waiting_plgin.Prelude.Dict.{get, put, get-put_self}
use codex_waiting_plgin.Protocol.Json.{Members}

-- What the registry says of a job whose continuation has completed.
pub record SaysContinued (continuation : String) (r : Result) (o : Option Handoff) : Type 0 where
  pub handoff : Handoff
  pub found : o ≡ some handoff
  pub state : handoff.state ≡ "CONTINUATION_COMPLETED"
  pub turn : handoff.continuation_turn_id ≡ some continuation
  pub delivery_state : handoff.delivery_state ≡ some "SENT_UNCONFIRMED"
  pub event : handoff.completion_event_id ≡ some r.completion_event_id
  pub digest : handoff.result_sha256 ≡ r.result_sha256

result_of-none :
    (now : String) (polls : List (File Result)) (o : Option Result) (s : Session)
    → o ≡ none
    → result_of now polls o s ≡ wait_for_job now polls s
result_of-none now polls none s e = refl
result_of-none now polls (some r) s e = absurd (ground arith)

module _ (d : Digests) (w : World) (job_id : String) (spec : JobSpec) (child : ProcessIdentity)
    (m : Metadata) (j : Job) (running : IsRunning job_id spec m j) where
  abbrev result_file : File Result
  result_file = (finish_job d w job_id spec child j).1.result

  abbrev made : Result
  made = run_result d w job_id spec child m j running

  made_terminal : is_terminal made.execution_state ≡ true
  made_terminal = classify_terminal _ _ _

  -- The event of the result, when the continuation is acknowledged.
  abbrev pub Acknowledged : String → String → String → Events → Type 0
  Acknowledged now thread turn events =
      (x : Event) × (get w.event_id (acknowledge now w.event_id (some turn) events).1 ≡ some x)
      × (x.state ≡ acked)
      × (x.job_id ≡ job_id)
      × (x.thread_id ≡ thread)
      × (x.turn_id ≡ some turn)

  module _ (text : RouterError → String) (now now' thread turn : String) (status : Option String)
      (before after : List (File Result)) (marker_object : Members) (h : Handoff)
      (se : Session) where
    abbrev mk : Marker
    mk = record { job_id = job_id; object = marker_object }

    abbrev continued : Outcome HandoffError (String × ℕ) × Session
    continued =
        continue_after_job text now (some thread) false (before ++ result_file ∷ after)
          (completed turn) status se

    abbrev routed_event : Event
    routed_event =
        delivered now (completed turn) (new_event now w.event_id job_id thread made.result_sha256)

    route_new :
        (events : Events)
        → (w.event_id == "" || job_id == "" || thread == "") ≡ false
        → get w.event_id events ≡ none
        → route now (some thread) w.event_id job_id made.result_sha256 false (completed turn) events
          ≡ (ok (turn, 1), put w.event_id routed_event events)
    route_new events ids new = rw new at (
        route-accepted now w.event_id job_id thread made.result_sha256 false (completed turn) events
          (rw new refl) ids)

    abbrev acknowledged_event : Event
    acknowledged_event = record routed_event { state = acked; acked_at = some now'; error = none }

    acknowledge_new :
        (events : Events) → Acknowledged now' thread turn (put w.event_id routed_event events)
    unfolding acknowledge
    acknowledge_new events = (
      acknowledged_event,
      rw (get-put_self w.event_id routed_event events, eq_refl turn)
          (get-put_self w.event_id acknowledged_event (put w.event_id routed_event events)),
      refl,
      refl,
      refl,
      refl,
    )

    -- A job whose child ends is delivered: where a detached job is in the registry and its event is
    -- new to the router, then after the supervisor's end of the run the controller, however often it
    -- polled in vain before, sees the result and returns the completed turn as the first attempt; the
    -- handoff is in the state CONTINUATION_COMPLETED with that turn and the result's event and
    -- digest; and an acknowledgement of the turn leaves the event ACKED.
    pub finished_job_is_delivered :
        se.observation.marker ≡ some mk
        → se.observation.result ≡ none
        → all_pending before ≡ true
        → recorded se.observation.thread_id job_id se.threads ≡ some h
        → (w.event_id == "" || job_id == "" || thread == "") ≡ false
        → get w.event_id se.events ≡ none
        → let (reply, e) = continued in
          (reply ≡ ok (turn, 1))
          × (e.phase ≡ continuation_completed)
          × (recorded se.observation.thread_id job_id e.threads
              ≡ some (
                  refreshed now
                    (completed_fields turn)
                    (refreshed now started_fields (refreshed now (outcome_fields made) h))))
          × SaysContinued turn made (recorded se.observation.thread_id job_id e.threads)
          × Acknowledged now' thread turn e.events
    finished_job_is_delivered mark none_yet p k ids new =
        let named : (w.event_id == "") ≡ false = ground arith in
        let file : result_file ≡ holds made =
          ap (λ q. q.1.result) (finish_job_writes d w job_id spec child m j running).0 in
        let waits = wait_for_job_known now mk made before after h se mark p made_terminal k in
        let seen = recorded-awaited now mk made h se k in
        let begun =
          (update_handoff_known now se.observation.thread_id job_id started_fields _ _ seen).1 in
        let ended =
          (update_handoff_known now se.observation.thread_id job_id (completed_fields turn) _ _
            begun).1 in
        let e = route_new se.events ids new in
        let eq =
          continue_known text now status (some thread) false (before ++ holds made ∷ after)
            (completed turn) made (refreshed now (outcome_fields made) h) se
            (awaited now mk made se)
            (result_of-none now (before ++ holds made ∷ after) se.observation.result se none_yet
              ∙ waits)
            named seen in
        rw (file, eq, e)
          (
            refl,
            refl,
            ended,
            record {
              handoff = _;
              found = ended;
              state = refl;
              turn = refl;
              delivery_state = refl;
              event = refl;
              digest = refl;
            },
            acknowledge_new se.events,
          )
