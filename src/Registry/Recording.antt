-- ===== src/Registry/Recording.antt =====
-- What `record_handoff` returns and writes.
use codex_waiting_plgin.Prelude.{
  List, Option-cases, Option, arith, if◌then◌else◌, ◌||◌, ◌≡◌, inr, [], none, inl, ◌==◌, ◌++◌, not,
  some, refl, ◌∷◌, String, false, eq_refl, eq_iff, Bool-cases, ap, ◌∙◌, true,
}
use codex_waiting_plgin.Prelude.Exec.{ok, raised, Outcome}
use codex_waiting_plgin.Prelude.Dict.{put, get-put, get, get-put_self}
use codex_waiting_plgin.Registry.Bindings.{mapping_in, mapped, Mapping, mapping, mapping-set_fields}
use codex_waiting_plgin.Protocol.Json.{Members}
use codex_waiting_plgin.Registry.{
  ThreadRecord, record_handoff, Threads, mapped_elsewhere, new_handoff, Handoff, find_job,
  RegistryError, set_fields, change_handoff, update_handoff, HandoffField,
}

module _ (now thread turn job state : String) (item : Option String) (marker : Members)
    (r : ThreadRecord) (l : Threads) where
  -- A job that the thread holds already.
  record_handoff_found :
      (x : Handoff)
      → get thread l ≡ some r
      → find_job job r.handoffs ≡ some x
      → record_handoff now thread turn item job marker state l ≡ (
        (if not (x.turn_id == turn) || not (x.thread_id == thread)
            then raised mapped_elsewhere
            else ok x),
        l,
      )
  unfolding record_handoff
  record_handoff_found x g f = rw (g, f) (ground arith)

  abbrev fresh : Handoff
  fresh = new_handoff now thread turn item job marker state

  -- One that it does not hold.
  pub record_handoff_new :
      get thread l ≡ some r
      → find_job job r.handoffs ≡ none
      → record_handoff now thread turn item job marker state l ≡ (
        ok fresh,
        put thread (record r { handoffs = r.handoffs ++ fresh ∷ []; updated_at = now }) l,
      )
  unfolding record_handoff
  record_handoff_new g f = rw (g, f) refl

record_handoff_unknown :
    (now thread turn job state : String) (item : Option String) (marker : Members) (h : Handoff)
    (l : Threads)
    → get thread l ≡ none
    → ¬ ((record_handoff now thread turn item job marker state l).0 ≡ ok h)
unfolding record_handoff
record_handoff_unknown now thread turn job state item marker h l g e = ground (arith, rw g at e)

find_job-append_new :
    (h : Handoff) (hs : List Handoff)
    → find_job h.job_id hs ≡ none
    → find_job h.job_id (hs ++ h ∷ []) ≡ some h
find_job-append_new h [] n = ground (arith, eq_refl h.job_id)
find_job-append_new h (y ∷ hs) n = ground (arith, find_job-append_new h hs)

mapped-append_new :
    (h : Handoff) (hs : List Handoff)
    → find_job h.job_id hs ≡ none
    → mapped h.job_id (hs ++ h ∷ []) ≡ some (mapping h)
mapped-append_new h [] n = ground (arith, eq_refl h.job_id)
mapped-append_new h (y ∷ hs) n = ground (arith, mapped-append_new h hs)

-- A recording of a job that the thread holds for a turn.
recorded_again :
    (now thread turn turn' job state : String) (item : Option String) (marker : Members)
    (r : ThreadRecord) (h : Handoff) (l : Threads)
    → get thread l ≡ some r
    → find_job job r.handoffs ≡ some h
    → h.turn_id ≡ turn
    → h.thread_id ≡ thread
    → record_handoff now thread turn' item job marker state l
      ≡ ((if turn == turn' then ok h else raised mapped_elsewhere), l)
recorded_again now thread turn turn' job state item marker r h l g f t th =
    rw
      (record_handoff_found now thread turn' job state item marker r l h g f, t, th, eq_refl thread)
      (ground arith)

abbrev own_or_raise : String → String → Handoff → Outcome RegistryError Handoff
own_or_raise thread turn x =
    if not (x.turn_id == turn) || not (x.thread_id == thread) then raised mapped_elsewhere else ok x

found_own :
    (thread turn : String) (x h : Handoff)
    → own_or_raise thread turn x ≡ ok h
    → (x ≡ h) × (x.turn_id ≡ turn) × (x.thread_id ≡ thread)
found_own thread turn x h e = ground (arith, eq_iff x.turn_id turn, eq_iff x.thread_id thread)

-- A mapping that `record_handoff` has returned is returned again for the same turn, whatever item,
-- marker and state are given, and refused for another one; in both cases nothing is written.
pub record_handoff_again :
    (now now' thread turn turn' job state state' : String) (item item' : Option String)
    (marker marker' : Members) (h : Handoff) (l : Threads)
    → (record_handoff now thread turn item job marker state l).0 ≡ ok h
    → let l' = (record_handoff now thread turn item job marker state l).1 in
      record_handoff now' thread turn' item' job marker' state' l'
      ≡ ((if turn == turn' then ok h else raised mapped_elsewhere), l')
record_handoff_again now now' thread turn turn' job state state' item item' marker marker' h l e =
    elim (Option-cases (get thread l)) [
      | inl gone ↦ absurd (record_handoff_unknown now thread turn job state item marker h l gone e)
      | inr (r, g) ↦ elim (Option-cases (find_job job r.handoffs)) [
        | inl new ↦
            let eq = record_handoff_new now thread turn job state item marker r l g new in
            let own : new_handoff now thread turn item job marker state ≡ h =
              ground (arith, eq, e) in
            rw eq (
              rw⁻¹ own (
                recorded_again now' thread turn turn' job state' item' marker' _ _ _
                  (get-put_self thread _ l) (find_job-append_new _ r.handoffs new) refl refl))
        | inr (x, f) ↦
            let eq = record_handoff_found now thread turn job state item marker r l x g f in
            let own = found_own thread turn x h (rw eq at e) in
            rw eq (
              rw⁻¹ own.0 (
                recorded_again now' thread turn turn' job state' item' marker' r x l g f own.1
                  own.2))
      ]
    ]

-- Two threads may hold the same job, each with a handoff of its own: a mapping of a job under one
-- thread does not stand against one under another thread.
pub job_in_two_threads :
    (now thread other turn job state : String) (item : Option String) (marker : Members)
    (r : ThreadRecord) (m : Mapping) (l : Threads)
    → (other == thread) ≡ false
    → mapping_in job (get thread l) ≡ some m
    → get other l ≡ some r
    → find_job job r.handoffs ≡ none
    → let (o, l') = record_handoff now other turn item job marker state l in
      (o ≡ ok (new_handoff now other turn item job marker state))
      × (mapping_in job (get thread l') ≡ some m)
      × (mapping_in job (get other l')
          ≡ some (mapping (new_handoff now other turn item job marker state)))
job_in_two_threads now thread other turn job state item marker r m l d e g n =
    let x : Handoff = new_handoff now other turn item job marker state in
    rw (record_handoff_new now other turn job state item marker r l g n) (
      refl,
      rw (get-put other thread _ l, d) e,
      rw (get-put_self other _ l) (mapped-append_new x r.handoffs n),
    )

-- The handoff of a job under a thread.
abbrev pub handoff_in : String → Option ThreadRecord → Option Handoff
handoff_in job none = none
handoff_in job (some r) = find_job job r.handoffs

abbrev pub refreshed : String → List HandoffField → Handoff → Handoff
refreshed now fs h = record (set_fields fs h) { updated_at = now }

found_first :
    (k : String) (x : Handoff) (hs : List Handoff)
    → (x.job_id == k) ≡ true
    → find_job k (x ∷ hs) ≡ some x
found_first k x hs e = rw e refl

find_job-change :
    (now job : String) (fs : List HandoffField) (h : Handoff) (hs : List Handoff)
    → find_job job hs ≡ some h
    → find_job job (change_handoff now job fs hs) ≡ some (refreshed now fs h)
find_job-change now job fs h [] e = absurd (ground arith)
find_job-change now job fs h (y ∷ hs) e =
    let own : (set_fields fs y).job_id ≡ y.job_id = ap (λ m. m.job_id) (mapping-set_fields fs y) in
    elim (Bool-cases (y.job_id == job)) [
      | inl b ↦
          let p : y ≡ h = ground arith in
          rw b (
            found_first job (refreshed now fs y) hs (rw own b)
            ∙ ap (λ x. some (refreshed now fs x)) p)
      | inr n ↦ rw (n, n) (find_job-change now job fs h hs (ground arith))
    ]

found_in :
    (job : String) (h : Handoff) (o : Option ThreadRecord)
    → handoff_in job o ≡ some h
    → (r : ThreadRecord) × (o ≡ some r) × (find_job job r.handoffs ≡ some h)
found_in job h none e = absurd (ground arith)
found_in job h (some r) e = (r, refl, e)

-- An update of a handoff that is there returns it changed, and it is there changed afterwards.
pub update_handoff_known :
    (now thread job : String) (fs : List HandoffField) (h : Handoff) (l : Threads)
    → handoff_in job (get thread l) ≡ some h
    → let (o, l') = update_handoff now thread job fs l in
      (o ≡ ok (refreshed now fs h)) × (handoff_in job (get thread l') ≡ some (refreshed now fs h))
unfolding update_handoff
update_handoff_known now thread job fs h l e =
    let (r, g, f) = found_in job h (get thread l) e in
    rw (g, f) (refl, rw (get-put_self thread _ l) (find_job-change now job fs h r.handoffs f))

-- The handoff that a recording of a new job adds is there.
pub record_handoff_adds :
    (now thread turn job state : String) (item : Option String) (marker : Members)
    (r : ThreadRecord) (l : Threads)
    → get thread l ≡ some r
    → find_job job r.handoffs ≡ none
    → handoff_in job (get thread (record_handoff now thread turn item job marker state l).1)
      ≡ some (new_handoff now thread turn item job marker state)
record_handoff_adds now thread turn job state item marker r l g n =
    rw (record_handoff_new now thread turn job state item marker r l g n, get-put_self thread _ l)
      (find_job-append_new (new_handoff now thread turn item job marker state) r.handoffs n)
