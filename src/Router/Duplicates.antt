-- ===== src/Router/Duplicates.antt =====
-- Where the router starts a second turn for one event without the permission.
use codex_waiting_plgin.Prelude.{
  ◌==◌, some, none, ◌||◌, arith, eq_refl, ap, ◌≡◌, refl, Option, false, String,
}
use codex_waiting_plgin.Prelude.Exec.{ok}
use codex_waiting_plgin.Router.{
  Events, started, route, mark_retry, Event, acknowledge, completed, sent_unconfirmed, new_event,
  acked, retry_wait, turn_mismatches,
}
use codex_waiting_plgin.Router.Claims.{delivered, route-accepted}
use codex_waiting_plgin.Prelude.Dict.{get, put-put, get-put_self, put}

-- A new event whose turn starts but is not seen to complete is in RETRY_WAIT, although the prompt was
-- sent: the next route, without the permission, starts another turn and returns it as the second
-- attempt.
pub unconfirmed_sent_again :
    (now now' event job thread t t' msg : String) (digest digest' : Option String) (l : Events)
    → get event l ≡ none
    → (event == "" || job == "" || thread == "") ≡ false
    → let l' = (route now (some thread) event job digest false (started t msg) l).1 in
      (route now' (some thread) event job digest' false (completed t') l').0 ≡ ok (t', 2)
unconfirmed_sent_again now now' event job thread t t' msg digest digest' l g ids =
    let e : Event = delivered now (started t msg) (new_event now event job thread digest) in
    rw
      (
        ap (λ p. p.1)
            (rw g at
              (route-accepted now event job thread digest false (started t msg) l (rw g refl) ids)),
        ap (λ p. p.0)
            (rw (get-put_self event e l) at (
              route-accepted now' event job thread digest' false (completed t') (put event e l)
                (rw (get-put_self event e l, eq_refl job, eq_refl thread) refl) ids)),
      )
      refl

own_turn : (o : Option String) → turn_mismatches o o ≡ false
own_turn none = refl
own_turn (some t) = rw (eq_refl t) refl

acknowledged :
    (now event : String) (e : Event) (l : Events)
    → get event l ≡ some e
    → e.state ≡ sent_unconfirmed
    → (acknowledge now event e.turn_id l).1
      ≡ put event (record e { state = acked; acked_at = some now; error = none }) l
unfolding acknowledge
acknowledged now event e l g s = rw g (ground (arith, own_turn e.turn_id))

-- Where the operator acknowledges an event while its route still waits, and the wait then fails, the
-- event is in RETRY_WAIT afterwards: the acknowledgement is lost.
pub late_failure_reopens :
    (now now' event error : String) (e : Event) (l : Events)
    → get event l ≡ some e
    → e.state ≡ sent_unconfirmed
    → let l' = (acknowledge now event e.turn_id l).1 in
      (get event l' ≡ some (record e { state = acked; acked_at = some now; error = none }))
      × (get event (mark_retry now' event error l').1
          ≡ some (record e {
            state = retry_wait;
            acked_at = some now;
            error = some error;
            updated_at = some now';
          }))
unfolding mark_retry
late_failure_reopens now now' event error e l g s =
    rw (acknowledged now event e l g s) (get-put_self event _ l, simp (get-put_self, put-put))
