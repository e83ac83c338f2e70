-- ===== src/Delivery.antt =====
-- snooze_controller/controller.py: `DeliveryController` on one job directory. A method is an action
-- over the directory, which raises as the method does.
pub mod Sent
pub mod Commands
pub mod Safety
pub mod Traces
use codex_waiting_plgin.Prelude.{
  ℕ, ℤ, is_zero, is_positive, String, Bool, true, false, Option, none, some, not, ◌&&◌, ◌||◌, ◌==◌,
  if◌then◌else◌, option_eq,
}
use codex_waiting_plgin.Prelude.Exec.{
  Exec, Outcome, ok, raised, pure, raise, raise_if, modify, ◌>>=◌, ◌>>◌,
}
use codex_waiting_plgin.Store.States.{
  DeliveryState, pending, claimed, sending, sent_unconfirmed, acked, retry_wait, delivery_eq,
}
use codex_waiting_plgin.Store.Records.{
  JobSpec, Result, Delivery, Payload, Attempt, missing, unreadable, holds, Job, Digests,
}
use codex_waiting_plgin.Store.Update.{
  StoreError, value_error, load, update_delivery, claim_delivery,
}
use codex_waiting_plgin.Prelude.Texts.{joined}

-- What a method raises: an exception of the store, or a `DeliveryControllerError`, by its message.
pub data DeliveryError : Type 0 where
  store : StoreError → DeliveryError
  result_not_available hash_mismatch already_acked duplicate_permission_required not_deliverable :
      DeliveryError
  session_required timeout_not_positive resume_timed_out spawn_failed : DeliveryError
  not_sent event_mismatch acked_cannot_retry not_retryable : DeliveryError

abbrev pub Action : Type 0 → Type 0
Action A = Exec DeliveryError Job A

abbrev of_store : {A S : Type 0} → Outcome StoreError A × S → Outcome DeliveryError A × S
of_store (ok a, s) = (ok a, s)
of_store (raised e, s) = (raised (store e), s)

-- A method of the store, called from the controller.
abbrev pub call : {A : Type 0} → Exec StoreError Job A → Action A
call m j = of_store (m j)

-- `store.read_result`, which is `None` for a missing file.
abbrev pub read_result : Exec StoreError Job (Option Result)
read_result j = elim j.result [
  | missing ↦ (ok none, j)
  | unreadable ↦ (raised value_error, j)
  | holds r ↦ (ok (some r), j)
]

-- `result_digest` and `result_hash_matches` of models.py.
abbrev pub result_digest : Digests → Result → String
result_digest d r = d.result_sha256 (record r { result_sha256 = none })

abbrev pub result_hash_matches : Digests → Result → Bool
result_hash_matches d r = option_eq r.result_sha256 (some (result_digest d r))

abbrev of_result : Option Result → Action Result
of_result none = raise result_not_available
of_result (some r) = pure r

-- The first two tests of `_event_payload` and of `_prepare_delivery`.
abbrev valid_result : Digests → Action Result
valid_result d = do
  found ← call read_result
  r ← of_result found
  raise_if (not (result_hash_matches d r)) hash_mismatch
  pure r

abbrev pub payload_of : String → String → Result → Payload
payload_of job_id transport r = record {
  schema_version = 1;
  event_id = r.completion_event_id;
  job_id = job_id;
  result_sha256 = r.result_sha256;
  completed_at = r.completed_at;
  execution_state = r.execution_state;
  result_state = r.result_state;
  exit_code = r.exit_code;
  termination_signal = r.termination_signal;
  duration_seconds = r.duration_seconds;
  source_state_changed = r.source_state_changed;
  log_preview = r.log_preview;
  transport = transport;
}

-- `_event_payload`, with the transport that `_prepare_delivery` adds.
abbrev event_payload : Digests → String → String → Action Payload
event_payload d job_id transport = do r ← valid_result d; pure (payload_of job_id transport r)

-- PENDING, RETRY_WAIT and FAILED, and SENT_UNCONFIRMED with the permission: `allowed_states`.
abbrev pub allowed_states : Bool → DeliveryState → Bool
allowed_states allow_duplicate pending = true
allowed_states allow_duplicate retry_wait = true
allowed_states allow_duplicate DeliveryState.failed = true
allowed_states allow_duplicate sent_unconfirmed = allow_duplicate
allowed_states allow_duplicate _ = false

-- The changes that `claim_delivery` is called with.
abbrev attempt_changes : String → String → Delivery → Delivery
attempt_changes now transport v = record v {
  last_attempt_at = some now;
  transport = some transport;
  error_code = none;
  error_message = none;
}

abbrev write_payload : Payload → Job → Job
write_payload p j = record j { payload = holds p }

abbrev pub Prepared : Type 0
Prepared = Payload × ℕ × DeliveryState

-- `_prepare_delivery`.
unfoldable pub prepare_delivery : Digests → String → String → String → Bool → Action Prepared
unfolding claim_delivery update_delivery
prepare_delivery d now job_id transport allow_duplicate = do
  _ ← valid_result d
  v ← call (λ j. load j.delivery j)
  raise_if (delivery_eq v.state acked) already_acked
  raise_if (delivery_eq v.state sent_unconfirmed && not allow_duplicate)
      duplicate_permission_required
  raise_if (not (allowed_states true v.state)) not_deliverable
  c ← call (claim_delivery now (allowed_states allow_duplicate) (attempt_changes now transport))
  _ ← call (update_delivery now sending (λ x. x))
  p ← event_payload d job_id transport
  modify (write_payload p)
  pure (p, c.attempts, v.state)

-- The dictionary that `deliver_manual` returns; `sent` is `none` where nothing was sent.
pub record ManualReply : Type 0 where
  pub state : DeliveryState
  pub sent : Option (ℕ × String)
  pub duplicate : Bool

abbrev unsent : DeliveryState → ManualReply
unsent s = record { state = s; sent = none; duplicate = false }

-- What `deliver_manual` does after its two early returns.
abbrev send_manual : Digests → String → String → Bool → Action ManualReply
send_manual d now job_id allow_duplicate = do
  (p, attempts, previous) ← prepare_delivery d now job_id "manual-file" allow_duplicate
  _ ← call (
      update_delivery now sent_unconfirmed
        (λ v. record v { remote_marker = some "delivery_payload.json" }))
  pure (record {
    state = sent_unconfirmed;
    sent = some (attempts, p.event_id);
    duplicate = delivery_eq previous sent_unconfirmed;
  })

-- `deliver_manual`.
unfoldable pub deliver_manual : Digests → String → String → Bool → Action ManualReply
unfolding update_delivery
deliver_manual d now job_id allow_duplicate = do
  v ← call (λ j. load j.delivery j)
  if delivery_eq v.state acked || (delivery_eq v.state sent_unconfirmed && not allow_duplicate)
      then pure (unsent v.state)
      else send_manual d now job_id allow_duplicate

-- How `subprocess.run` of `codex exec resume` ends: an exit status with its decimal text, or `TimeoutExpired` or an
-- `OSError`, with its text.
pub data CliRun : Type 0 where
  exited : ℤ → String → CliRun
  timed_out could_not_start : String → CliRun

abbrev attempt_record : String → String → Option ℤ → Option String → Option String → Attempt
attempt_record now session code error message = record {
  transport = "codex-exec-resume";
  session_id = session;
  returncode = code;
  error_code = error;
  error_message = message;
  at = now;
}

abbrev write_attempt : Attempt → Job → Job
write_attempt a j = record j { attempt = holds a }

-- The changes of an update that gives up this attempt.
abbrev failure : String → String → Delivery → Delivery
failure code message v = record v { error_code = some code; error_message = some message }

-- `read_spec`, whose job id must be that of the directory.
abbrev pub read_spec : String → Exec StoreError Job JobSpec
read_spec job_id = do
  s ← λ j. load j.spec j
  raise_if (not (s.job_id == job_id)) value_error
  pure s

-- The two handlers, and the branches on the exit status.
abbrev after_run : String → String → CliRun → Action (Option ℤ)
after_run now session (timed_out message) = do
  modify (write_attempt (attempt_record now session none (some "DELIVERY_TIMEOUT") (some message)))
  _ ← call (update_delivery now retry_wait (failure "DELIVERY_TIMEOUT" message))
  raise resume_timed_out
after_run now session (could_not_start message) = do
  modify
      (write_attempt (attempt_record now session none (some "RESUME_SPAWN_FAILED") (some message)))
  _ ← call (update_delivery now retry_wait (failure "RESUME_SPAWN_FAILED" message))
  raise spawn_failed
after_run now session (exited code digits) = do
  modify (write_attempt (attempt_record now session (some code) none none))
  _ ← call (
      if is_zero code
      then update_delivery now sent_unconfirmed
          (λ v. record v { remote_marker = some (joined "codex-exec-resume:" session) })
      else update_delivery now retry_wait
          (failure "RESUME_FAILED" (joined "codex exec resume returned " digits)))
  pure (some code)

pub record ResumeReply : Type 0 where
  pub state : DeliveryState
  pub attempts : ℕ
  pub event_id : String
  pub returncode : Option ℤ
  pub duplicate : Bool

-- `resume_cli` from the reading of the specification on: a step of its own, before which others may
-- have written.
unfoldable pub finish_resume : String → String → String → CliRun → Prepared → Action ResumeReply
unfolding update_delivery
finish_resume now job_id session run (p, attempts, previous) = do
  _ ← call (read_spec job_id)
  code ← after_run now session run
  v ← call (λ j. load j.delivery j)
  pure (record {
    state = v.state;
    attempts = attempts;
    event_id = p.event_id;
    returncode = code;
    duplicate = delivery_eq previous sent_unconfirmed;
  })

-- `resume_cli`, where nobody else writes in the directory while the command line runs; `run` is what
-- that does when the code starts it.
unfoldable pub resume_cli :
    Digests → String → String → String → ℤ → Bool → CliRun → Action ResumeReply
resume_cli d now job_id session timeout allow_duplicate run = do
  raise_if (session == "") session_required
  raise_if (not (is_positive timeout)) timeout_not_positive
  prepared ← prepare_delivery d now job_id "codex-exec-resume" allow_duplicate
  finish_resume now job_id session run prepared

-- `event_id is not None and event_id != expected`.
abbrev mismatch : Option String → Option String → Bool
mismatch none expected = false
mismatch (some e) expected = not (option_eq (some e) expected)

-- `acknowledge`.
unfoldable pub acknowledge : String → Option String → Action Delivery
unfolding update_delivery
acknowledge now event_id = do
  v ← call (λ j. load j.delivery j)
  if delivery_eq v.state acked then pure v else (do
    raise_if (not (delivery_eq v.state sent_unconfirmed)) not_sent
    raise_if (mismatch event_id v.completion_event_id) event_mismatch
    call (
        update_delivery now acked
          (λ x. record x { acked_at = some now; error_code = none; error_message = none })))

-- The states that `retry` accepts.
abbrev pub retryable : DeliveryState → Bool
retryable sent_unconfirmed = true
retryable retry_wait = true
retryable DeliveryState.failed = true
retryable claimed = true
retryable sending = true
retryable _ = false

-- `retry`.
unfoldable pub retry : String → Bool → Action Delivery
unfolding update_delivery
retry now allow_duplicate = do
  v ← call (λ j. load j.delivery j)
  raise_if (delivery_eq v.state sent_unconfirmed && not allow_duplicate)
      duplicate_permission_required
  raise_if (delivery_eq v.state acked) acked_cannot_retry
  raise_if (not (retryable v.state)) not_retryable
  call (
      update_delivery now pending
        (failure "EXPLICIT_RETRY" "operator requested another at-least-once delivery attempt"))
