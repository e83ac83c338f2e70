-- ===== src/Handoff/Continuations.antt =====
-- The continuation after the result, written out.
use codex_waiting_plgin.Router.{route, RouterError, Events, Turn}
use codex_waiting_plgin.Prelude.{
  [], List, refl, ◌==◌, Bool, String, some, ℕ, ◌∷◌, ◌≡◌, false, Option,
}
use codex_waiting_plgin.Handoff.{
  phase_text, set_phase, routed, Session, continue_after_job, result_of, completed_fields,
  continuation_failed, HandoffPhase, HandoffError, continuation_completed, continuation_started,
  failed,
}
use codex_waiting_plgin.Prelude.Exec.{Outcome, raised, ok}
use codex_waiting_plgin.Registry.{HandoffField, Handoff, state_field, error_field}
use codex_waiting_plgin.Handoff.Waits.{note_known, after_note, recorded, recorded-after_note}
use codex_waiting_plgin.Store.Records.{Result, File}
use codex_waiting_plgin.Registry.Recording.{refreshed}

abbrev pub reply_of : Outcome RouterError (String × ℕ) → Outcome HandoffError (String × ℕ)
reply_of (ok turn) = ok turn
reply_of (raised e) = raised (continuation_failed e)

abbrev pub end_phase : Outcome RouterError (String × ℕ) → HandoffPhase
end_phase (ok turn) = continuation_completed
end_phase (raised e) = failed

abbrev pub started_fields : List HandoffField
started_fields = state_field (phase_text continuation_started) ∷ []

module _ (text : RouterError → String) (now : String) (status : Option String) where
  abbrev pub end_fields : Outcome RouterError (String × ℕ) → List HandoffField
  end_fields (ok (turn, attempts)) = completed_fields turn
  end_fields (raised e) = state_field (phase_text failed) ∷ error_field (text e) ∷ []

  abbrev end_turn :
      Outcome RouterError (String × ℕ) → Option (Option String) → Option (Option String)
  end_turn (ok turn) o = some status
  end_turn (raised e) o = o

  abbrev end_error : Outcome RouterError (String × ℕ) → Option String → Option String
  end_error (ok turn) o = o
  end_error (raised e) o = some (text e)

  abbrev ending : Outcome RouterError (String × ℕ) → Session → Session
  ending o s = record s {
    phase = end_phase o;
    observation = record s.observation {
      phase = end_phase o;
      turn = end_turn o s.observation.turn;
      error = end_error o s.observation.error;
    };
  }

  routed_known :
      (job : String) (o : Outcome RouterError (String × ℕ)) (h : Handoff) (s : Session)
      → recorded s.observation.thread_id job s.threads ≡ some h
      → routed text now job status o s
        ≡ (reply_of o, after_note now job (end_fields o) (ending o s))
  routed_known job (ok (turn, n)) h s e =
      rw (note_known now job (completed_fields turn) h (ending (ok (turn, n)) s) e) refl
  routed_known job (raised x) h s e =
      rw (note_known now job (end_fields (raised x)) h (ending (raised x) s) e) refl

  module _ (thread : Option String) (dup : Bool) (polls : List (File Result)) (turn : Turn)
      (r : Result) (h : Handoff) where
    abbrev routing : Events → Outcome RouterError (String × ℕ) × Events
    routing events = route now thread r.completion_event_id r.job_id r.result_sha256 dup turn events

    abbrev starting_ : Session → Session
    starting_ s = after_note now r.job_id started_fields (set_phase continuation_started s)

    abbrev ended_session : Session → Session
    ended_session s =
        let (o, events) = routing s.events in
        after_note now r.job_id (end_fields o) (ending o (record (starting_ s) { events = events }))

    -- The continuation of a session whose result is there, or comes.
    pub continue_known :
        (s t : Session)
        → result_of now polls s.observation.result s ≡ (ok r, t)
        → (r.completion_event_id == "") ≡ false
        → recorded t.observation.thread_id r.job_id t.threads ≡ some h
        → continue_after_job text now thread dup polls turn status s
          ≡ (reply_of (routing t.events).0, ended_session t)
    unfolding continue_after_job
    continue_known s t w n k =
        let started_at =
          recorded-after_note now r.job_id started_fields h (set_phase continuation_started t) k in
        rw (w, n, note_known now r.job_id started_fields h (set_phase continuation_started t) k)
          (routed_known r.job_id (routing t.events).0 (refreshed now started_fields h)
            (record (starting_ t) { events = (routing t.events).1 }) started_at)
