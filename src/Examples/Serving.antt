-- ===== src/Examples/Serving.antt =====
-- A server with two requests.
use codex_waiting_plgin.AppServer.Steps.{
  here, stops, reads, sends, Reach, later, is_live, initializes, ends, begins,
}
use codex_waiting_plgin.Prelude.{arith, ◌∷◌, [], true, false, pos, none, some, ◌≡◌, refl}
use codex_waiting_plgin.AppServer.{
  handle_stdout_line, Startup, send_request, broken_pipe, register, Server, mark_crashed,
  initialized, written, end_request, new_server, answered, stop, write_failed, restart, ready,
  timed_out, Lifecycle, begin_start,
}
use codex_waiting_plgin.Prelude.Exec.{raised, ok}
use codex_waiting_plgin.AppServer.Answers.{
  own_answer, send_finds_process, stop_leaves_waiting, crash_answers, restart_recovers,
}
use codex_waiting_plgin.Delivery.Sent.{is_ok}
use codex_waiting_plgin.AppServer.Waiters.{reply_id}
use codex_waiting_plgin.Protocol.Json.{Json, null, object, member, number, end}

abbrev reply : Json
reply = object (member "id" (number (pos 1)) (member "result" (object end) end))

abbrev up : Startup
up = record { spawns = true; instance = "i1"; reply = answered reply }

-- Started, with the requests 2 and 3 sent.
abbrev serving : Server
serving = record new_server {
  lifecycle = ready;
  started = true;
  instance_id = some "i1";
  counter = 3;
  pending = (3, none) ∷ (2, none) ∷ [];
}

abbrev to_two : Json
to_two = object (member "id" (number (pos 2)) (member "result" null end))

serving-Reach : Reach new_server serving
unfolding begin_start send_request handle_stdout_line end_request initialized
serving-Reach =
    let begun = later here (begins new_server (pos 20) true "i1") in
    let asked = later begun (sends _ (pos 20) true written) in
    let replied = later (later asked (reads _ reply)) (ends _ 1) in
    let started_ = later replied (initializes _ (answered reply) refl) in
    later (later started_ (sends _ (pos 30) false written)) (sends _ (pos 30) false written)

own_answer_example : reply_id to_two ≡ some 2
unfolding handle_stdout_line end_request
own_answer_example = own_answer 2 to_two (later serving-Reach (reads serving to_two)) refl

crash_answers_example : is_ok (end_request 2 (stop (mark_crashed serving))).0 ≡ true
unfolding mark_crashed stop
crash_answers_example =
    crash_answers 2 serving-Reach refl (omega arith) (later here (stops (mark_crashed serving)))
      refl

stopped_request_waits : (end_request 3 (mark_crashed (stop serving))).0 ≡ raised timed_out
stopped_request_waits = stop_leaves_waiting 3 serving refl refl

request_finds_process :
    (send_request (pos 30) false written serving ≡ (ok 4, register serving))
    × ((send_request (pos 30) false broken_pipe serving).0 ≡ raised write_failed)
request_finds_process = send_finds_process (pos 30) false serving-Reach refl refl

abbrev failed_ : Server
failed_ = record serving { lifecycle = Lifecycle.failed }

failed_server_restarts :
    let (o, t) = restart (pos 20) 1 up failed_ in
    (o ≡ ok reply) × (t.lifecycle ≡ ready) × (is_live t ≡ true) × (t.restart_count ≡ 1)
failed_server_restarts =
    restart_recovers (pos 20) 1 up reply failed_ refl (omega arith) refl refl refl
