-- ===== src/Handoff/Waits.antt =====
-- The wait for the result of a job.
use codex_waiting_plgin.Handoff.{
  lift, poll, Marker, Session, outcome_fields, job_completed, set_phase, note, waiting_for_job,
  wait_for_job, no_terminal_result,
}
use codex_waiting_plgin.Prelude.{
  String, Option, ◌∷◌, arith, List, [], not, ◌≡◌, refl, some, false, ◌&&◌, Bool, true, ◌++◌, ◌∙◌,
}
use codex_waiting_plgin.Registry.{RegistryError, Handoff, Threads, HandoffField, update_handoff}
use codex_waiting_plgin.Prelude.Exec.{ok, raised, Outcome}
use codex_waiting_plgin.Registry.Recording.{handoff_in, refreshed, update_handoff_known}
use codex_waiting_plgin.Store.Records.{unreadable, File, holds, missing, Result}
use codex_waiting_plgin.Store.States.{is_terminal}
use codex_waiting_plgin.Prelude.Dict.{get}

-- The handoff of a job in the registry.
abbrev pub recorded : String → String → Threads → Option Handoff
recorded thread job threads = handoff_in job (get thread threads)

-- The session after an update of a handoff.
abbrev pub after_note : String → String → List HandoffField → Session → Session
after_note now job fs s = record s {
  threads = (update_handoff now s.observation.thread_id job fs s.threads).1;
}

pub lift_ok :
    {A : Type 0} (s : Session) (a : A) (p : Outcome RegistryError A × Threads)
    → p.0 ≡ ok a
    → lift s p ≡ (ok a, record s { threads = p.1 })
lift_ok s a (ok b, l) e = ground arith
lift_ok s a (raised x, l) e = absurd (ground arith)

-- A note on a handoff that is there.
pub note_known :
    (now job : String) (fs : List HandoffField) (h : Handoff) (s : Session)
    → recorded s.observation.thread_id job s.threads ≡ some h
    → note now job fs s ≡ (ok (refreshed now fs h), after_note now job fs s)
note_known now job fs h s e =
    lift_ok s (refreshed now fs h) (update_handoff now s.observation.thread_id job fs s.threads)
      (update_handoff_known now s.observation.thread_id job fs h s.threads e).0

pub recorded-after_note :
    (now job : String) (fs : List HandoffField) (h : Handoff) (s : Session)
    → recorded s.observation.thread_id job s.threads ≡ some h
    → recorded s.observation.thread_id job (after_note now job fs s).threads
      ≡ some (refreshed now fs h)
recorded-after_note now job fs h s e =
    (update_handoff_known now s.observation.thread_id job fs h s.threads e).1

-- No poll sees a terminal result, and none an unreadable file.
abbrev pub is_pending : File Result → Bool
is_pending missing = true
is_pending unreadable = false
is_pending (holds r) = not (is_terminal r.execution_state)

abbrev pub all_pending : List (File Result) → Bool
all_pending [] = true
all_pending (p ∷ polls) = is_pending p && all_pending polls

poll_pending :
    (now job : String) (before after : List (File Result)) (s : Session)
    → all_pending before ≡ true
    → poll now job (before ++ after) s ≡ poll now job after s
unfolding poll
poll_pending now job [] after s e = refl
poll_pending now job (missing ∷ before) after s e = poll_pending now job before after s e
poll_pending now job (unreadable ∷ before) after s e = absurd (ground arith)
poll_pending now job (holds r ∷ before) after s e =
    rw not_terminal (poll_pending now job before after s (ground arith))
  where
    not_terminal : is_terminal r.execution_state ≡ false
    not_terminal = ground arith

-- The session when the result is seen.
abbrev pub seen_result : Result → Session → Session
seen_result r s =
    set_phase job_completed (record s { observation = record s.observation { result = some r } })

poll_terminal :
    (now job : String) (r : Result) (after : List (File Result)) (h : Handoff) (s : Session)
    → is_terminal r.execution_state ≡ true
    → recorded s.observation.thread_id job s.threads ≡ some h
    → poll now job (holds r ∷ after) s
      ≡ (ok r, after_note now job (outcome_fields r) (seen_result r s))
unfolding poll
poll_terminal now job r after h s e k =
    rw (e, note_known now job (outcome_fields r) h (seen_result r s) k) refl

poll_expires :
    (now job : String) (polls : List (File Result)) (s : Session)
    → all_pending polls ≡ true
    → poll now job polls s ≡ (raised no_terminal_result, s)
unfolding poll
poll_expires now job [] s e = refl
poll_expires now job (missing ∷ polls) s e = poll_expires now job polls s e
poll_expires now job (unreadable ∷ polls) s e = absurd (ground arith)
poll_expires now job (holds r ∷ polls) s e =
    rw not_terminal (poll_expires now job polls s (ground arith))
  where
    not_terminal : is_terminal r.execution_state ≡ false
    not_terminal = ground arith

wait_marker :
    (now : String) (polls : List (File Result)) (m : Marker) (s : Session)
    → s.observation.marker ≡ some m
    → wait_for_job now polls s ≡ poll now m.job_id polls (set_phase waiting_for_job s)
unfolding wait_for_job
wait_marker now polls m s e = rw e refl

abbrev pub awaited : String → Marker → Result → Session → Session
awaited now m r s =
    after_note now m.job_id (outcome_fields r) (seen_result r (set_phase waiting_for_job s))

pub wait_for_job_known :
    (now : String) (m : Marker) (r : Result) (before after : List (File Result)) (h : Handoff)
    (s : Session)
    → s.observation.marker ≡ some m
    → all_pending before ≡ true
    → is_terminal r.execution_state ≡ true
    → recorded s.observation.thread_id m.job_id s.threads ≡ some h
    → wait_for_job now (before ++ holds r ∷ after) s ≡ (ok r, awaited now m r s)
wait_for_job_known now m r before after h s e p k g =
    rw
      (
        wait_marker now (before ++ holds r ∷ after) m s e,
        poll_pending now m.job_id before (holds r ∷ after) (set_phase waiting_for_job s) p,
      )
      (poll_terminal now m.job_id r after h (set_phase waiting_for_job s) k g)

pub recorded-awaited :
    (now : String) (m : Marker) (r : Result) (h : Handoff) (s : Session)
    → recorded s.observation.thread_id m.job_id s.threads ≡ some h
    → recorded s.observation.thread_id m.job_id (awaited now m r s).threads
      ≡ some (refreshed now (outcome_fields r) h)
recorded-awaited now m r h s g =
    recorded-after_note now m.job_id (outcome_fields r) h
      (seen_result r (set_phase waiting_for_job s)) g

-- What the registry says of a job whose result was seen.
pub record SaysCompleted (r : Result) (o : Option Handoff) : Type 0 where
  pub handoff : Handoff
  pub found : o ≡ some handoff
  pub state : handoff.state ≡ "JOB_COMPLETED"
  pub event : handoff.completion_event_id ≡ some r.completion_event_id
  pub digest : handoff.result_sha256 ≡ r.result_sha256

-- However many polls see no result, or one that is not terminal, the wait returns the first terminal
-- result that one sees, in the phase JOB_COMPLETED, and the handoff in the registry has that state and
-- the event and the digest of the result.
pub wait_for_job_ends :
    (now : String) (m : Marker) (r : Result) (before after : List (File Result)) (h : Handoff)
    (s : Session)
    → s.observation.marker ≡ some m
    → all_pending before ≡ true
    → is_terminal r.execution_state ≡ true
    → recorded s.observation.thread_id m.job_id s.threads ≡ some h
    → let (o, t) = wait_for_job now (before ++ holds r ∷ after) s in
      (o ≡ ok r)
      × (t.phase ≡ job_completed)
      × (t.observation.result ≡ some r)
      × (recorded s.observation.thread_id m.job_id t.threads
          ≡ some (refreshed now (outcome_fields r) h))
      × SaysCompleted r (recorded s.observation.thread_id m.job_id t.threads)
wait_for_job_ends now m r before after h s e p k g =
    rw (wait_for_job_known now m r before after h s e p k g) (
      refl,
      refl,
      refl,
      recorded-awaited now m r h s g,
      record {
        handoff = refreshed now (outcome_fields r) h;
        found = recorded-awaited now m r h s g;
        state = refl;
        event = refl;
        digest = refl;
      },
    )

-- Where no poll sees a terminal result, the wait raises, and the registry stays as it is.
pub wait_for_job_expires :
    (now : String) (m : Marker) (polls : List (File Result)) (s : Session)
    → s.observation.marker ≡ some m
    → all_pending polls ≡ true
    → wait_for_job now polls s ≡ (raised no_terminal_result, set_phase waiting_for_job s)
wait_for_job_expires now m polls s e p =
    wait_marker now polls m s e ∙ poll_expires now m.job_id polls (set_phase waiting_for_job s) p
