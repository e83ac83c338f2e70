-- ===== src/Router/Traces.antt =====
-- Sequences of the steps of the router, as the threads of a process take them on the one record.
use codex_waiting_plgin.Router.{
  started, Events, Event, not_started, Turn, acknowledge, acked, completed, retry, claim_error,
  is_acked, retry_wait, note_turn, mark_retry, begin_turn, error_text, claim, change, interrupted,
  starting, sent_unconfirmed,
}
use codex_waiting_plgin.Prelude.{
  ◌≡◌, none, Option, arith, ◌∷◌, List, [], some, String, Bool, false, ◌≤◌, refl, ◌⊎◌, ap, inl, inr,
  ◌==◌, Bool-cases, ◌||◌, Option-cases, ◌∙◌, eq_iff, ◌&&◌, true,
}
use codex_waiting_plgin.Router.Claims.{accepted, claim-accepted, claim_refused}
use codex_waiting_plgin.Prelude.Dict.{get, get-put, put}

-- A step that holds the lock, with its time and its arguments: a claim, the state STARTING, the turn
-- that was started, and `mark_retry`, of which a route is made, or an acknowledgement or a retry of the
-- operator. Routes of several threads take their steps in any order.
pub data Call : Type 0 where
  claims : String → String → String → String → Option String → Bool → Call
  begins : String → String → Call
  notes : String → String → String → Call
  marks : String → String → String → Call
  acknowledges : String → String → Option String → Call
  retries : String → String → Bool → Call

unfoldable pub run_call : Call → Events → Events
run_call (claims now event job thread digest dup) l = (claim now event job thread digest dup l).1
run_call (begins now event) l = (begin_turn now event l).1
run_call (notes now event turn) l = (note_turn now event turn l).1
run_call (marks now event error) l = (mark_retry now event error l).1
run_call (acknowledges now event turn) l = (acknowledge now event turn l).1
run_call (retries now event dup) l = (retry now event dup l).1

unfoldable pub run_all : List Call → Events → Events
run_all [] l = l
run_all (c ∷ cs) l = run_all cs (run_call c l)

-- A step that a route takes after its claim, on the event of the route.
abbrev pub is_late : String → Call → Bool
is_late k (begins now event) = event == k
is_late k (notes now event turn) = event == k
is_late k (marks now event error) = event == k
is_late k c = false

abbrev pub any_late : String → List Call → Bool
any_late k [] = false
any_late k (c ∷ cs) = is_late k c || any_late k cs

-- What becomes of one event: it stays bound and loses no attempt, and where it is acknowledged and
-- there is no late step, it stays as it is.
abbrev pub Kept : Bool → Event → Option Event → Type 0
Kept late e none = ⊥
Kept late e (some x) =
    (x.job_id ≡ e.job_id)
    × (x.thread_id ≡ e.thread_id)
    × (e.attempts ≤ x.attempts)
    × ((is_acked e.state ≡ false) ⊎ (late ≡ true) ⊎ (x ≡ e))

Kept-same : (late : Bool) (e : Event) → Kept late e (some e)
Kept-same late e = ground arith

abbrev KeptFrom : Bool → Option Event → Event → Type 0
KeptFrom late none x = Unit {0}
KeptFrom late (some e) x = Kept late e (some x)

-- A step on an event writes nothing, or it writes the record of that event, which is kept where there
-- was one.
abbrev Writes : Bool → String → Events → Events → Type 0
Writes late event l l' =
    (l' ≡ l) ⊎ ((x : Event) × (l' ≡ put event x l) × KeptFrom late (get event l) x)

Writes-Kept :
    (late : Bool) (event k : String) (e : Event) (l l' : Events)
    → Writes late event l l'
    → get k l ≡ some e
    → Kept (event == k && late) e (get k l')
Writes-Kept late event k e l l' (inl equal) g = rw (equal, g) (Kept-same _ e)
Writes-Kept late event k e l l' (inr (x, eq, kept)) g =
    rw (eq, get-put)
      (elim (Bool-cases (event == k)) [
        | inl own ↦ rw own (rw (ap (λ i. get i l) ((eq_iff event k).0 own) ∙ g) at kept)
        | inr other ↦ rw (other, g) (Kept-same _ e)
      ])

acknowledge_writes :
    (now event : String) (turn : Option String) (l : Events) (e : Event)
    → get event l ≡ some e
    → let l' = (acknowledge now event turn l).1 in
      (l' ≡ l)
      ⊎ ((l' ≡ put event (record e { state = acked; acked_at = some now; error = none }) l)
          × (is_acked e.state ≡ false))
unfolding acknowledge
acknowledge_writes now event turn l e g = rw g (ground arith)

retry_writes :
    (now event : String) (dup : Bool) (l : Events) (e : Event)
    → get event l ≡ some e
    → let l' = (retry now event dup l).1 in
      (l' ≡ l)
      ⊎ ((l' ≡ put event (record e { state = retry_wait; retry_requested_at = some now }) l)
          × (is_acked e.state ≡ false))
unfolding retry
retry_writes now event dup l e g = rw g (ground arith)

claim_found-Writes :
    (now event job thread : String) (digest : Option String) (dup : Bool) (l : Events)
    (o : Option Event)
    → get event l ≡ o
    → (event == "" || job == "" || thread == "") ≡ false
    → Writes false event l (claim now event job thread digest dup l).1
claim_found-Writes now event job thread digest dup l none g ids = inr (
  accepted now event job thread digest none,
  ap (λ p. p.1) (claim-accepted now event job thread digest dup l none g refl ids),
  rw g tt,
)
claim_found-Writes now event job thread digest dup l (some e) g ids =
    elim (Option-cases (claim_error e job thread dup)) [
      | inl good ↦ inr (
        accepted now event job thread digest (some e),
        ap (λ p. p.1)
            (claim-accepted now event job thread digest dup l (some e) g (rw good refl) ids),
        rw g (ground arith),
      )
      | inr bad ↦ inl (claim_refused now event job thread digest dup e l g (rw bad.1 refl)).0
    ]

claim-Writes :
    (now event job thread : String) (digest : Option String) (dup : Bool) (l : Events)
    → Writes false event l (claim now event job thread digest dup l).1
unfolding claim
claim-Writes now event job thread digest dup l =
    elim (Bool-cases (event == "" || job == "" || thread == "")) [
      | inl empty ↦ inl (rw empty refl)
      | inr ids ↦ claim_found-Writes now event job thread digest dup l (get event l) refl ids
    ]

-- A change that keeps what an event is bound to and its attempts is kept as a late step.
change-Writes :
    (f : Event → Event)
    → ((e : Event) → Kept true e (some (f e)))
    → (event : String) (l : Events) → Writes true event l (change event f l).1
change-Writes f kept event l = elim (Option-cases (get event l)) [
  | inl lacks ↦ inl (rw lacks refl)
  | inr (e, g) ↦ inr (f e, rw g refl, rw g (kept e))
]

acknowledges-Writes :
    (now event : String) (turn : Option String) (l : Events)
    → Writes false event l (acknowledge now event turn l).1
unfolding acknowledge
acknowledges-Writes now event turn l = elim (Option-cases (get event l)) [
  | inl lacks ↦ inl (rw lacks refl)
  | inr (e, g) ↦ elim (acknowledge_writes now event turn l e g) [
    | inl equal ↦ inl equal
    | inr (eq, n) ↦ inr (_, eq, rw g (ground arith))
  ]
]

retries-Writes :
    (now event : String) (dup : Bool) (l : Events) → Writes false event l (retry now event dup l).1
unfolding retry
retries-Writes now event dup l = elim (Option-cases (get event l)) [
  | inl lacks ↦ inl (rw lacks refl)
  | inr (e, g) ↦ elim (retry_writes now event dup l e g) [
    | inl equal ↦ inl equal
    | inr (eq, n) ↦ inr (_, eq, rw g (ground arith))
  ]
]

and_late : (b : Bool) → ((b && false) ≡ false) × ((b && true) ≡ b)
and_late b = ground arith

late_Kept :
    (f : Event → Event)
    → ((e : Event) → Kept true e (some (f e)))
    → (event k : String) (e : Event) (l : Events) → get k l ≡ some e
    → Kept (event == k) e (get k (change event f l).1)
late_Kept f kept event k e l g =
    rw (and_late (event == k)).1 at
      (Writes-Kept true event k e l _ (change-Writes f kept event l) g)

run_call-Kept :
    (c : Call) (k : String) (e : Event) (l : Events)
    → get k l ≡ some e
    → Kept (is_late k c) e (get k (run_call c l))
unfolding run_call begin_turn note_turn mark_retry
run_call-Kept (claims now event job thread digest dup) k e l g =
    rw (and_late (event == k)).0 at
      (Writes-Kept false event k e l _ (claim-Writes now event job thread digest dup l) g)
run_call-Kept (begins now event) k e l g =
    late_Kept (λ x. record x { state = starting; started_at = some now }) (λ x. ground arith) event
      k e l g
run_call-Kept (notes now event turn) k e l g =
    late_Kept
      (λ x. record x {
        state = sent_unconfirmed;
        sent_at = some now;
        turn_id = some turn;
        error = none;
      })
      (λ x. ground arith) event k e l g
run_call-Kept (marks now event error) k e l g =
    late_Kept (λ x. record x { state = retry_wait; error = some error; updated_at = some now })
      (λ x. ground arith) event k e l g
run_call-Kept (acknowledges now event turn) k e l g =
    rw (and_late (event == k)).0 at
      (Writes-Kept false event k e l _ (acknowledges-Writes now event turn l) g)
run_call-Kept (retries now event dup) k e l g =
    rw (and_late (event == k)).0 at
      (Writes-Kept false event k e l _ (retries-Writes now event dup l) g)

Kept-trans :
    (a b : Bool) (e x : Event) (o : Option Event)
    → Kept a e (some x)
    → Kept b x o
    → Kept (a || b) e o
Kept-trans a b e x none h k = absurd k
Kept-trans a b e x (some y) h k = ground arith

Kept-some :
    (late : Bool) (e : Event) (o : Option Event) → Kept late e o → (x : Event) × (o ≡ some x)
Kept-some late e none h = absurd h
Kept-some late e (some x) h = (x, refl)

-- Whatever steps of routes, acknowledgements and retries are taken, in any order and with any
-- arguments, an event stays bound to its job and its thread and loses no attempt; and an ACKED event
-- stays as it is unless a route that has claimed it before still takes one of its later steps.
pub run_all-Kept :
    (cs : List Call) (k : String) (e : Event) (l : Events)
    → get k l ≡ some e
    → Kept (any_late k cs) e (get k (run_all cs l))
unfolding run_all
run_all-Kept [] k e l g = rw g (Kept-same false e)
run_all-Kept (c ∷ cs) k e l g =
    let step = run_call-Kept c k e l g in
    let (x, gx) = Kept-some (is_late k c) e (get k (run_call c l)) step in
    Kept-trans (is_late k c) (any_late k cs) e x _ (rw gx at step)
      (run_all-Kept cs k x (run_call c l) gx)

-- The steps of a route after the state STARTING.
abbrev pub steps_of : String → String → Turn → List Call
steps_of now event (not_started kind msg) = marks now event (error_text kind msg) ∷ []
steps_of now event (started turn msg) =
    notes now event turn
    ∷ marks now event msg
    ∷ marks now event (error_text "AgentControllerError" msg)
    ∷ []
steps_of now event (interrupted turn kind msg) =
    notes now event turn ∷ marks now event (error_text kind msg) ∷ []
steps_of now event (completed turn) = notes now event turn ∷ []
