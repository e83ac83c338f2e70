-- ===== src/Delivery/Sent.antt =====
-- What the sending methods leave in the job directory.
use codex_waiting_plgin.Prelude.{
  suc, String, ◌≡◌, Bool, true, none, some, arith, false, if◌then◌else◌, is_zero, ◌&&◌, refl,
}
use codex_waiting_plgin.Prelude.Exec.{ok, Outcome}
use codex_waiting_plgin.Store.States.{
  sending, sent_unconfirmed, delivery_eq, DeliveryState, pending,
}
use codex_waiting_plgin.Store.Records.{
  Result, Delivery, holds, Job, Digests, File, missing, unreadable,
}
use codex_waiting_plgin.Delivery.{
  result_hash_matches, payload_of, allowed_states, prepare_delivery, deliver_manual, CliRun,
  DeliveryError, ResumeReply, timed_out, retry_wait, raised, could_not_start, resume_timed_out,
  exited, spawn_failed,
}
use codex_waiting_plgin.Prelude.Texts.{joined}

-- A job directory whose result is intact and whose delivery may be sent.
pub record IsReady (d : Digests) (allow_duplicate : Bool) (r : Result) (v : Delivery) (j : Job)
    : Type 0 where
  pub has_result : j.result ≡ holds r
  pub has_delivery : j.delivery ≡ holds v
  pub intact : result_hash_matches d r ≡ true
  pub allowed : allowed_states allow_duplicate v.state ≡ true

-- Whether the directory, its delivery in the given state, is ready.
abbrev pub is_ready : Digests → Bool → DeliveryState → File Result → Bool
is_ready d dup s (holds r) = result_hash_matches d r && allowed_states dup s
is_ready d dup s _ = false

abbrev pub is_ok {ℓ κ} : {E : Type κ} {A : Type ℓ} → Outcome E A → Bool
is_ok (ok a) = true
is_ok (raised e) = false

-- The delivery while it is being sent.
abbrev pub in_flight : String → String → Delivery → Delivery
in_flight now transport v = record v {
  state = sending;
  attempts = suc v.attempts;
  last_attempt_at = some now;
  transport = some transport;
  error_code = none;
  error_message = none;
  updated_at = some now;
}

module _ {d : Digests} {dup : Bool} {r : Result} {v : Delivery} {j : Job} (now job_id : String)
    (h : IsReady d dup r v j) where
  pub prepare_lem :
      (t : String)
      → prepare_delivery d now job_id t dup j ≡ (
        ok (payload_of job_id t r, suc v.attempts, v.state),
        record j { delivery = holds (in_flight now t v); payload = holds (payload_of job_id t r) },
      )
  unfolding prepare_delivery
  prepare_lem t = ground arith

  -- The job directory after a manual delivery.
  abbrev manually_sent : Job
  manually_sent = record j {
    delivery = holds (record (in_flight now "manual-file" v) {
      state = sent_unconfirmed;
      remote_marker = some "delivery_payload.json";
    });
    payload = holds (payload_of job_id "manual-file" r);
  }

  -- A manual delivery of a ready directory returns the number of the attempt, the event and whether it
  -- is a duplicate, and leaves the payload and a delivery that is SENT_UNCONFIRMED.
  pub deliver_manual_sends : deliver_manual d now job_id dup j ≡ (
    ok (record {
      state = sent_unconfirmed;
      sent = some (suc v.attempts, r.completion_event_id);
      duplicate = delivery_eq v.state sent_unconfirmed;
    }),
    manually_sent,
  )
  unfolding deliver_manual
  deliver_manual_sends = ground (arith, prepare_lem "manual-file")

-- The delivery after a resume, by how the command line ended.
abbrev pub resumed : String → String → CliRun → Delivery → Delivery
resumed now session (timed_out m) v = record (in_flight now "codex-exec-resume" v) {
  state = retry_wait;
  error_code = some "DELIVERY_TIMEOUT";
  error_message = some m;
}
resumed now session (could_not_start m) v = record (in_flight now "codex-exec-resume" v) {
  state = retry_wait;
  error_code = some "RESUME_SPAWN_FAILED";
  error_message = some m;
}
resumed now session (exited code digits) v =
    if is_zero code
    then record (in_flight now "codex-exec-resume" v) {
      state = sent_unconfirmed;
      remote_marker = some (joined "codex-exec-resume:" session);
    }
    else record (in_flight now "codex-exec-resume" v) {
      state = retry_wait;
      error_code = some "RESUME_FAILED";
      error_message = some (joined "codex exec resume returned " digits);
    }

-- What the caller of a resume gets.
abbrev pub resume_outcome :
    CliRun → Delivery → Result → DeliveryState → Outcome DeliveryError ResumeReply
resume_outcome (timed_out m) v r s = raised resume_timed_out
resume_outcome (could_not_start m) v r s = raised spawn_failed
resume_outcome (exited code digits) v r s = ok (record {
  state = s;
  attempts = suc v.attempts;
  event_id = r.completion_event_id;
  returncode = some code;
  duplicate = delivery_eq v.state sent_unconfirmed;
})

abbrev retried : String → Delivery → Delivery
retried now v = record v {
  state = pending;
  error_code = some "EXPLICIT_RETRY";
  error_message = some "operator requested another at-least-once delivery attempt";
  updated_at = some now;
}

-- Where the directory is not ready, `_prepare_delivery` raises and writes nothing.
pub prepare_refused :
    (d : Digests) (now job_id t : String) (dup : Bool) (v : Delivery) (j : Job)
    → j.delivery ≡ holds v
    → is_ready d dup v.state j.result ≡ false
    → ((prepare_delivery d now job_id t dup j).1 ≡ j)
      × (is_ok (prepare_delivery d now job_id t dup j).0 ≡ false)
unfolding prepare_delivery
prepare_refused d now job_id t dup v j h n = ground arith

pub ready_result :
    (d : Digests) (dup : Bool) (v : Delivery) (j : Job)
    → j.delivery ≡ holds v
    → is_ready d dup v.state j.result ≡ true
    → (r : Result) × IsReady d dup r v j
ready_result d dup v j h n =
    elim j.result
        as (λ f.
          j.result ≡ f → is_ready d dup v.state f ≡ true → (r : Result) × IsReady d dup r v j) [
            | missing ↦ λ e k. cc
            | unreadable ↦ λ e k. cc
            | holds r ↦ λ e k. (
              r,
              record {
                has_result = e;
                has_delivery = h;
                intact = ground arith;
                allowed = ground arith;
              },
            )
          ]
      refl n
