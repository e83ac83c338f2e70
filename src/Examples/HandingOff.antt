-- ===== src/Examples/HandingOff.antt =====
-- A handoff of the job j1 of the thread th1.
use codex_waiting_plgin.Handoff.Continuations.{started_fields}
use codex_waiting_plgin.Protocol.Json.{member, end, boolean}
use codex_waiting_plgin.Router.{completed, RouterError}
use codex_waiting_plgin.Registry.Bindings.{mapping}
use codex_waiting_plgin.Prelude.{
  refl, ◌∷◌, Option, some, String, [], ◌++◌, true, none, List, false, ◌≡◌,
}
use codex_waiting_plgin.Delivery.Sent.{is_ok}
use codex_waiting_plgin.Handoff.{
  handoff_turn_closed, continuation_completed, wait_for_job, Session, hand_off, waiting_for_job,
  completed_fields, no_terminal_result, continue_after_job, job_completed, raced, set_phase,
  outcome_fields, Marker,
}
use codex_waiting_plgin.Store.Records.{holds, Result, missing, File}
use codex_waiting_plgin.Prelude.Exec.{raised, ok}
use codex_waiting_plgin.Examples.{
  metadata_in, success, running_job, spec, registration, child, digests,
}
use codex_waiting_plgin.Handoff.Waits.{
  wait_for_job_ends, wait_for_job_expires, recorded, SaysCompleted,
}
use codex_waiting_plgin.Registry.Recording.{refreshed}
use codex_waiting_plgin.Handoff.EndToEnd.{Acknowledged, finished_job_is_delivered, SaysContinued}
use codex_waiting_plgin.Supervisor.{finish_job}
use codex_waiting_plgin.Examples.Supervising.{running_is_running, world, made}
use codex_waiting_plgin.Registry.{ThreadRecord, Handoff, new_handoff, new_thread}
use codex_waiting_plgin.Handoff.Closings.{hand_off_maps}
use codex_waiting_plgin.Store.States.{running}

abbrev marker : Marker
marker = record { job_id = "j1"; object = member "codex_snooze" (boolean true) end }

abbrev handoff : Handoff
handoff = new_handoff "t1" "th1" "tu1" (some "i1") "j1" marker.object "HANDOFF_REQUESTED"

abbrev thread : List Handoff → ThreadRecord
thread hs = record (new_thread "t0" "th1" registration) { handoffs = hs }

abbrev session : Option Result → List Handoff → Session
session r hs = record {
  phase = handoff_turn_closed;
  observation = record {
    phase = handoff_turn_closed;
    thread_id = "th1";
    turn_id = "tu1";
    marker = some marker;
    item_id = some "i1";
    result = r;
    turn = some (some "completed");
    error = none;
  };
  threads = ("th1", thread hs) ∷ [];
  events = [];
}

abbrev before : List (File Result)
before = missing ∷ missing ∷ []

hand_off_maps_example :
    let (reply, t) =
      hand_off "t1" "raced" "th1" "tu1" marker (some "i1") (raced none) (session none []) in
    (is_ok reply ≡ false)
    × (h : Handoff) × (recorded "th1" "j1" t.threads ≡ some h)
    × (mapping h ≡ mapping handoff)
    × (h.state ≡ "HANDOFF_REQUESTED")
hand_off_maps_example =
    hand_off_maps "t1" "raced" "th1" "tu1" marker (some "i1") (thread []) (session none [])
      (raced none) refl refl

wait_for_job_ends_example :
    let (o, t) = wait_for_job "t2" (before ++ holds success ∷ []) (session none (handoff ∷ [])) in
    (o ≡ ok success)
    × (t.phase ≡ job_completed)
    × (t.observation.result ≡ some success)
    × (recorded "th1" "j1" t.threads ≡ some (refreshed "t2" (outcome_fields success) handoff))
    × SaysCompleted success (recorded "th1" "j1" t.threads)
wait_for_job_ends_example =
    wait_for_job_ends "t2" marker success before [] handoff (session none (handoff ∷ [])) refl refl
      refl refl

polls_after_deadline :
    wait_for_job "t2" before (session none (handoff ∷ []))
    ≡ (raised no_terminal_result, set_phase waiting_for_job (session none (handoff ∷ [])))
polls_after_deadline =
    wait_for_job_expires "t2" marker before (session none (handoff ∷ [])) refl refl

abbrev no_text : RouterError → String
no_text e = "refused"

-- The supervisor ends the run of j1 after two polls without a result.
finished_job_is_delivered_example :
    let file = (finish_job digests world "j1" spec child running_job).1.result in
    let (reply, e) =
      continue_after_job no_text "t3"
        (some "th1")
        false
        (before ++ file ∷ [])
        (completed "tu2")
        (some "completed")
        (session none (handoff ∷ [])) in
    (reply ≡ ok ("tu2", 1))
    × (e.phase ≡ continuation_completed)
    × (recorded "th1" "j1" e.threads
        ≡ some (
            refreshed "t3"
              (completed_fields "tu2")
              (refreshed "t3" started_fields (refreshed "t3" (outcome_fields made) handoff))))
    × SaysContinued "tu2" made (recorded "th1" "j1" e.threads)
    × Acknowledged digests world "j1" spec child
        (metadata_in running)
        running_job
        running_is_running
        "t4"
        "th1"
        "tu2"
        e.events
finished_job_is_delivered_example =
    finished_job_is_delivered digests world "j1" spec child (metadata_in running) running_job
      running_is_running no_text "t3" "t4" "th1" "tu2" (some "completed") before [] marker.object
      handoff (session none (handoff ∷ [])) refl refl refl refl refl refl
