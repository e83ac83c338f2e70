-- ===== src/Examples/Routing.antt =====
-- The router with one event.
use codex_waiting_plgin.Prelude.{refl, none, false, [], ◌≡◌, some, List, ◌∷◌}
use codex_waiting_plgin.Router.{
  route, started, Event, sent_unconfirmed, completed, mark_retry, acknowledge, acked, retry_wait,
}
use codex_waiting_plgin.Prelude.Exec.{ok}
use codex_waiting_plgin.Router.Traces.{
  acknowledges, Call, Kept, run_all, run_all-Kept, any_late, claims, marks,
}
use codex_waiting_plgin.Router.Duplicates.{unconfirmed_sent_again, late_failure_reopens}
use codex_waiting_plgin.Prelude.Dict.{get, put}

abbrev sent : Event
sent = record {
  event_id = "e1";
  job_id = "j1";
  thread_id = "th1";
  result_sha256 = none;
  state = sent_unconfirmed;
  attempts = 1;
  claimed_at = some "t0";
  started_at = some "t0";
  sent_at = some "t0";
  acked_at = none;
  turn_id = some "tu1";
  error = none;
  updated_at = none;
  retry_requested_at = none;
}

-- An acknowledgement while the route still waits, whose turn is then not seen to complete.
abbrev calls : List Call
calls =
    acknowledges "t1" "e1" (some "tu1")
    ∷ marks "t2" "e1" "timeout"
    ∷ claims "t3" "e1" "j1" "th1" none false
    ∷ []

run_all-Kept_example : Kept (any_late "e1" calls) sent (get "e1" (run_all calls (put "e1" sent [])))
run_all-Kept_example = run_all-Kept calls "e1" sent (put "e1" sent []) refl

unconfirmed_sent_again_example :
    let l' = (route "t1" (some "th1") "e1" "j1" none false (started "tu1" "timeout") []).1 in
    (route "t2" (some "th1") "e1" "j1" none false (completed "tu2") l').0 ≡ ok ("tu2", 2)
unconfirmed_sent_again_example =
    unconfirmed_sent_again "t1" "t2" "e1" "j1" "th1" "tu1" "tu2" "timeout" none none [] refl refl

late_failure_reopens_example :
    let l' = (acknowledge "t1" "e1" (some "tu1") (put "e1" sent [])).1 in
    (get "e1" l' ≡ some (record sent { state = acked; acked_at = some "t1"; error = none }))
    × (get "e1" (mark_retry "t2" "e1" "timeout" l').1
        ≡ some (record sent {
          state = retry_wait;
          acked_at = some "t1";
          error = some "timeout";
          updated_at = some "t2";
        }))
late_failure_reopens_example =
    late_failure_reopens "t1" "t2" "e1" "timeout" sent (put "e1" sent []) refl refl
