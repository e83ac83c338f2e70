-- ===== src/Recovery.antt =====
-- snooze_core/recovery.py: repair of one job directory after a crash.
pub mod Repair
pub mod Loss
use codex_waiting_plgin.Prelude.{
  if◌then◌else◌, none, true, String, not, Bool, option_eq, ◌&&◌, Option, false, ◌==◌, some,
}
use codex_waiting_plgin.Store.Update.{
  write_delivery, reconcile_metadata_from_result, StoreError, write_result, load, reconciled,
}
use codex_waiting_plgin.Prelude.Exec.{pure, Exec, modify, ok, gets, ◌>>=◌, ◌>>◌}
use codex_waiting_plgin.Store.Records.{
  holds, new_delivery, Job, File, JobSpec, Metadata, Result, Delivery, Payload, Digests,
}
use codex_waiting_plgin.Delivery.{result_digest, result_hash_matches, read_spec, read_result}
use codex_waiting_plgin.Store.States.{
  not_ready, orphaned, claimed, sending, execution_eq, retry_wait, ExecutionState, lost, pending,
  fine, sent_unconfirmed, is_terminal, submitted,
}
use codex_waiting_plgin.Process.{Host, identity_matches}

-- `_supervisor_alive`: the identity where there is one, otherwise the bare process id.
abbrev supervisor_alive : Host → Metadata → Bool
supervisor_alive host m = elim m.supervisor_identity [
  | some identity ↦ identity_matches host false identity
  | none ↦ elim m.supervisor_pid [ some pid ↦ host.process_exists pid | none ↦ false ]
]

-- `_child_alive`.
abbrev child_alive : Host → Metadata → Bool
child_alive host m = elim m.process_identity [
  | some identity ↦ identity_matches host false identity
  | none ↦ false
]

-- The reasons of `_valid_result`, by their messages.
pub data Invalid : Type 0 where
  spec_unreadable job_id_differs spec_digest_differs not_terminal hash_differs : Invalid

abbrev spec_of : String → File JobSpec → Option JobSpec
spec_of job_id (holds s) = if s.job_id == job_id then some s else none
spec_of job_id _ = none

-- `_valid_result`; `none` where the result is valid.
unfoldable pub valid_result : Digests → String → File JobSpec → Result → Option Invalid
valid_result d job_id f r = elim (spec_of job_id f) [
  | none ↦ some spec_unreadable
  | some s ↦
      if not (r.job_id == job_id)
      then some job_id_differs
      else if not (r.spec_sha256 == d.spec_sha256 s)
      then some spec_digest_differs
      else if not (is_terminal r.execution_state)
      then some not_terminal
      else if not (result_hash_matches d r)
      then some hash_differs
      else none
]

-- The keys of the report.
pub data Action : Type 0 where
  nothing result_invalid metadata_reconciled terminal_result_missing still_running synthetic :
      Action

pub record Report : Type 0 where
  pub action : Action
  pub error : Option Invalid
  pub after_execution_state : Option ExecutionState
  pub delivery_repaired : Bool
  pub delivery_retry_required : Bool
  pub synthetic_result : Bool

abbrev report : Action → Option ExecutionState → Report
report a s = record {
  action = a;
  error = none;
  after_execution_state = s;
  delivery_repaired = false;
  delivery_retry_required = false;
  synthetic_result = false;
}

-- The delivery that `_repair_delivery` starts from, its event and digest already those expected.
abbrev bound : Delivery → Result → Delivery
bound v r = record v {
  completion_event_id = some r.completion_event_id;
  result_sha256 = r.result_sha256;
}

abbrev starting_delivery : String → File Delivery → Delivery
starting_delivery job_id (holds v) = record v { job_id = job_id }
starting_delivery job_id _ = new_delivery job_id none none not_ready

-- `payload_valid`; an empty `event_id` would be looked up under the key `completion_event_id`, which
-- no payload has.
abbrev payload_valid : String → File Payload → Result → Bool
payload_valid job_id (holds p) r =
    p.job_id == job_id
    && p.event_id == r.completion_event_id
    && option_eq p.result_sha256 r.result_sha256
payload_valid job_id _ r = false

abbrev or_else : Option String → String → Option String
or_else none s = some s
or_else (some t) s = if t == "" then some s else some t

-- The branches of `_repair_delivery` on the state, with the flags of the report.
abbrev repaired : Bool → Delivery → Delivery × Bool × Bool
repaired true v = elim v.state [
  | claimed ↦ (
    record v {
      state = sent_unconfirmed;
      transport = or_else v.transport "manual-file";
      remote_marker = or_else v.remote_marker "delivery_payload.json";
      error_code = none;
      error_message = none;
    },
    true,
    false,
  )
  | sending ↦ (
    record v {
      state = sent_unconfirmed;
      transport = or_else v.transport "manual-file";
      remote_marker = or_else v.remote_marker "delivery_payload.json";
      error_code = none;
      error_message = none;
    },
    true,
    false,
  )
  | not_ready ↦ (record v { state = pending }, true, false)
  | _ ↦ (v, false, false)
]
repaired false v = elim v.state [
  | claimed ↦ (
    record v {
      state = retry_wait;
      error_code = some "DELIVERY_INTERRUPTED";
      error_message = some "delivery state was in-flight when recovery ran";
    },
    false,
    true,
  )
  | sending ↦ (
    record v {
      state = retry_wait;
      error_code = some "DELIVERY_INTERRUPTED";
      error_message = some "delivery state was in-flight when recovery ran";
    },
    false,
    true,
  )
  | not_ready ↦ (record v { state = pending }, true, false)
  | sent_unconfirmed ↦ (
    record v {
      state = retry_wait;
      error_code = some "DELIVERY_PAYLOAD_MISSING";
      error_message = some "delivery state referenced a missing or mismatched payload";
    },
    false,
    true,
  )
  | _ ↦ (v, false, false)
]

-- `_repair_delivery`: what it writes, and the flags it sets.
unfoldable pub repair_delivery :
    String → String → Result → File Payload → File Delivery → Delivery × Bool × Bool
repair_delivery now job_id r p f =
    let (w, done, retry) =
      repaired (payload_valid job_id p r) (bound (starting_delivery job_id f) r) in
    (record w { updated_at = some now }, done, retry)

-- The result of `_write_synthetic_loss` before its digest: no exit code and no signal.
abbrev synthetic_result :
    Digests → String → String → String → JobSpec → Metadata → ExecutionState → Result
synthetic_result d now job_id event_id s m state = record {
  schema_version = 1;
  job_id = job_id;
  spec_sha256 = d.spec_sha256 s;
  execution_state = state;
  result_state = if execution_eq state orphaned then "SUPERVISOR_ORPHANED" else "SUPERVISOR_LOST";
  exit_code = none;
  termination_signal = none;
  started_at = m.start_time;
  completed_at = some now;
  duration_seconds = none;
  process_identity = none;
  project_fingerprint_start = m.project_fingerprint_start;
  project_fingerprint_end = m.project_fingerprint_end;
  source_state_changed = m.stale;
  logging = record m.logging { state = fine };
  log_preview = "";
  completion_event_id = event_id;
  result_sha256 = none;
  error_code = some (if execution_eq state lost then "SUPERVISOR_LOST" else "SUPERVISOR_ORPHANED");
  error_message = none;
}

-- `result.result_sha256 = result_digest(result)`.
abbrev pub signed : Digests → Result → Result
signed d r = record r { result_sha256 = some (result_digest d r) }

-- `_write_synthetic_loss`, with the reason that it records.
unfoldable pub write_synthetic_loss :
    Digests → String → String → String → ExecutionState → String → Exec StoreError Job Result
write_synthetic_loss d now job_id event_id state reason = do
  m ← λ j. load j.metadata j
  s ← read_spec job_id
  let r : Result =
      signed d
        (record (synthetic_result d now job_id event_id s m state) { error_message = some reason })
  modify (write_result r)
  _ ← reconcile_metadata_from_result now r
  modify (write_delivery (new_delivery job_id (some event_id) r.result_sha256 pending))
  pure r

-- `recover_job` where result.json could be read.
abbrev recover_from_result :
    Digests → String → String → Metadata → Result → Exec StoreError Job Report
recover_from_result d now job_id m r j = elim (valid_result d job_id j.spec r) [
  | some reason ↦ (ok (record (report result_invalid none) { error = some reason }), j)
  | none ↦
      (do
        reconciled ←
            (if execution_eq m.execution_state r.execution_state
                && option_eq m.result_state (some r.result_state)
              then pure false
              else (do _ ← reconcile_metadata_from_result now r; pure true))
        repair ← gets (λ j. repair_delivery now job_id r j.payload j.delivery)
        modify (write_delivery repair.0)
        pure
            (record (report (if reconciled then metadata_reconciled else nothing)
              (some r.execution_state)) {
                delivery_repaired = repair.1;
                delivery_retry_required = repair.2;
              }))
        j
]

-- The state and the reason for a job without a result whose supervisor is gone.
abbrev loss : ExecutionState → Bool → ExecutionState × String
loss submitted child = (orphaned, "job was submitted but no supervisor was found")
loss s true =
    (orphaned, "supervisor disappeared while the child process identity was still present")
loss s false = (lost, "supervisor and child process were not present; exit status is unavailable")

-- `recover_job` where there is no result.json.
abbrev recover_without_result :
    Digests → Host → String → String → String → Metadata → Exec StoreError Job Report
recover_without_result d host now job_id event_id m =
    if is_terminal m.execution_state
    then (do
      r ←
          write_synthetic_loss d now job_id event_id lost
            "terminal metadata existed without result.json"
      pure (record (report terminal_result_missing (some r.execution_state)) {
        synthetic_result = true;
      }))
    else if supervisor_alive host m
    then pure (report still_running (some m.execution_state))
    else (do
      let (state, reason) = loss m.execution_state (child_alive host m)
      r ← write_synthetic_loss d now job_id event_id state reason
      pure (record (report synthetic (some r.execution_state)) { synthetic_result = true }))

-- `recover_job`; `event_id` is the UUID of a synthetic completion event.
unfoldable pub recover_job : Digests → Host → String → String → String → Exec StoreError Job Report
recover_job d host now job_id event_id = do
  m ← λ j. load j.metadata j
  found ← read_result
  λ j. elim found [
    | some r ↦ recover_from_result d now job_id m r j
    | none ↦ recover_without_result d host now job_id event_id m j
  ]
