-- ===== src/Router/Claims.antt =====
-- One event of the router: what a claim refuses, and what a route leaves.
use codex_waiting_plgin.Prelude.{
  Option, is_some, refl, true, ◌==◌, String, some, ◌≡◌, none, arith, Bool, false, ℕ, ◌||◌, inl, inr,
  Bool-cases, ◌∙◌,
}
use codex_waiting_plgin.Router.{
  Turn, Events, route, Event, new_event, change, claim_error, sent_unconfirmed, completed, started,
  mark_retry, claim, not_started, turn_failed, RouterError, claimed_again, retry_wait, send,
  error_text, note_turn, interrupted, begin_turn,
}
use codex_waiting_plgin.Delivery.Sent.{is_ok}
use codex_waiting_plgin.Prelude.Exec.{ok, Outcome, raised, ◌>>=◌, pure}
use codex_waiting_plgin.Prelude.Dict.{put-put, get, get-put_self, put}

abbrev pub thread_text : Option String → String
thread_text none = ""
thread_text (some t) = t

pub claim_refused :
    (now event job thread : String) (digest : Option String) (dup : Bool) (e : Event) (l : Events)
    → get event l ≡ some e
    → is_some (claim_error e job thread dup) ≡ true
    → ((claim now event job thread digest dup l).1 ≡ l)
      × (is_ok (claim now event job thread digest dup l).0 ≡ false)
unfolding claim
claim_refused now event job thread digest dup e l g h = rw g (ground arith)

-- An action that raises ends the block.
then_raised :
    {A B : Type 0} (m : Events → Outcome RouterError A × Events)
    (f : A → Events → Outcome RouterError B × Events) (l : Events)
    → is_ok (m l).0 ≡ false
    → (((m >>= f) l).1 ≡ (m l).1) × (is_ok ((m >>= f) l).0 ≡ false)
then_raised m f l h = ground arith

-- Without the permission, an event that is claimed, starting, sent or acknowledged is not routed
-- again: the route raises, and the record stays as it is. A route for another job or another thread
-- raises even with the permission.
pub route_refused :
    (now event job : String) (thread : Option String) (digest : Option String) (dup : Bool)
    (t : Turn) (e : Event) (l : Events)
    → get event l ≡ some e
    → is_some (claim_error e job (thread_text thread) dup) ≡ true
    → ((route now thread event job digest dup t l).1 ≡ l)
      × (is_ok (route now thread event job digest dup t l).0 ≡ false)
unfolding route
route_refused now event job none digest dup t e l g h = (refl, refl)
route_refused now event job (some th) digest dup t e l g h =
    let r = claim_refused now event job th digest dup e l g h in
    elim (Bool-cases (th == "")) [
      | inl y ↦ rw y (refl, refl)
      | inr n ↦
          rw n (let q = then_raised (claim now event job th digest dup) _ l r.1 in (q.0 ∙ r.0, q.1))
    ]

-- The record that an accepted claim leaves: a new one, or the former one with one more attempt.
abbrev pub accepted : String → String → String → String → Option String → Option Event → Event
accepted now event job thread digest none = new_event now event job thread digest
accepted now event job thread digest (some e) = claimed_again now digest e

abbrev pub refuses : String → String → Bool → Option Event → Bool
refuses job thread dup none = false
refuses job thread dup (some e) = is_some (claim_error e job thread dup)

-- What a route writes of a turn that has started.
abbrev noted : String → String → Event → Event
noted now turn e = record e {
  state = sent_unconfirmed;
  started_at = some now;
  sent_at = some now;
  turn_id = some turn;
  error = none;
}

-- The record after the turn of a route.
abbrev pub delivered : String → Turn → Event → Event
delivered now (not_started kind msg) e = record e {
  state = retry_wait;
  started_at = some now;
  error = some (error_text kind msg);
  updated_at = some now;
}
delivered now (started t msg) e = record (noted now t e) {
  state = retry_wait;
  error = some (error_text "AgentControllerError" msg);
  updated_at = some now;
}
delivered now (interrupted t kind msg) e = record (noted now t e) {
  state = retry_wait;
  error = some (error_text kind msg);
  updated_at = some now;
}
delivered now (completed t) e = noted now t e

abbrev pub route_outcome : Turn → ℕ → Outcome RouterError (String × ℕ)
route_outcome (not_started kind msg) n = raised (turn_failed msg)
route_outcome (started t msg) n = raised (turn_failed msg)
route_outcome (interrupted t kind msg) n = raised (turn_failed msg)
route_outcome (completed t) n = ok (t, n)

pub claim-accepted :
    (now event job thread : String) (digest : Option String) (dup : Bool) (l : Events)
    (o : Option Event)
    → get event l ≡ o
    → refuses job thread dup o ≡ false
    → (event == "" || job == "" || thread == "") ≡ false
    → claim now event job thread digest dup l ≡ (
      ok (accepted now event job thread digest o),
      put event (accepted now event job thread digest o) l,
    )
unfolding claim
claim-accepted now event job thread digest dup l none g r i = ground arith
claim-accepted now event job thread digest dup l (some e) g r i = ground arith

pub change-put :
    (k : String) (f : Event → Event) (e : Event) (l : Events)
    → change k f (put k e l) ≡ (ok (f e), put k (f e) l)
change-put k f e l = rw (get-put_self k e l, put-put k e (f e) l) refl

-- The rest of a route after its claim, with the record `e` that the claim wrote.
after_claim :
    (now event : String) (t : Turn) (e : Event) (l : Events) (n : ℕ)
    → (begin_turn now event >>= λ x. (send now event t >>= λ y. pure (y, n))) (put event e l)
      ≡ (route_outcome t n, put event (delivered now t e) l)
unfolding begin_turn note_turn send mark_retry
after_claim now event (not_started kind msg) e l n = simp (get-put_self, put-put)
after_claim now event (started t msg) e l n = simp (get-put_self, put-put)
after_claim now event (interrupted t kind msg) e l n = simp (get-put_self, put-put)
after_claim now event (completed t) e l n = simp (get-put_self, put-put)

pub route-accepted :
    (now event job thread : String) (digest : Option String) (dup : Bool) (t : Turn) (l : Events)
    → refuses job thread dup (get event l) ≡ false
    → (event == "" || job == "" || thread == "") ≡ false
    → let e = accepted now event job thread digest (get event l) in
      route now (some thread) event job digest dup t l
      ≡ (route_outcome t e.attempts, put event (delivered now t e) l)
unfolding route
route-accepted now event job thread digest dup t l r i =
    rw (no_thread, claim-accepted now event job thread digest dup l (get event l) refl r i)
      (after_claim now event t (accepted now event job thread digest (get event l)) l _)
  where
    no_thread : (thread == "") ≡ false
    no_thread = ground arith

-- A route with an empty id writes nothing.
pub route_empty :
    (now thread event job : String) (digest : Option String) (dup : Bool) (t : Turn) (l : Events)
    → (event == "" || job == "" || thread == "") ≡ true
    → (route now (some thread) event job digest dup t l).1 ≡ l
unfolding route claim
route_empty now thread event job digest dup t l h = elim (Bool-cases (thread == "")) [
  | inl y ↦ rw y refl
  | inr n ↦ rw (n, h) refl
]
