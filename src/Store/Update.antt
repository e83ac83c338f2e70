-- ===== src/Store/Update.antt =====
-- snooze_core/store.py: the methods of `JobStore` on one job directory. Each runs under its lock, so
-- it is one step; `now` is what `utc_now()` returns.
use codex_waiting_plgin.Prelude.{suc, String, Bool, true, Option, none, some, not, if◌then◌else◌}
use codex_waiting_plgin.Prelude.Exec.{Exec, pure, raise, raise_if, modify, ◌>>=◌, ◌>>◌}
use codex_waiting_plgin.Store.States.{
  ExecutionState, submitted, DeliveryState, not_ready, claimed, execution_eq, delivery_eq,
  execution_transitions, delivery_transitions,
}
use codex_waiting_plgin.Store.Records.{
  JobSpec, Metadata, Result, Delivery, File, missing, unreadable, holds, Job, Digests,
  ProcessIdentity, empty_log_info, new_delivery,
}

-- The exceptions that the methods raise: `FileNotFoundError` (an `OSError`), `ValueError`.
pub data StoreError : Type 0 where
  os_error value_error : StoreError

-- `load_json` of one file of the directory.
abbrev pub load : {A S : Type 0} → File A → Exec StoreError S A
load missing = raise os_error
load unreadable = raise value_error
load (holds a) = pure a

-- The metadata that `create` writes.
abbrev pub initial_metadata : Digests → String → JobSpec → Metadata
initial_metadata d now spec = record {
  job_id = spec.job_id;
  spec_sha256 = d.spec_sha256 spec;
  command = spec.command;
  cwd = spec.cwd;
  shell = spec.shell;
  execution_state = submitted;
  result_state = none;
  supervisor_pid = none;
  supervisor_identity = none;
  pid = none;
  process_group = none;
  start_time = none;
  finish_time = none;
  exit_code = none;
  termination_signal = none;
  process_identity = none;
  project_fingerprint_start = none;
  project_fingerprint_end = none;
  stale = none;
  logging = empty_log_info;
  error_code = none;
  error_message = none;
  cancellation_requested_at = none;
  created_at = now;
  updated_at = now;
}

-- `create`, in a directory that it makes (`mkdir` raises where there is one).
unfoldable pub create : Digests → String → JobSpec → Job
create d now spec = record {
  spec = holds spec;
  metadata = holds (initial_metadata d now spec);
  result = missing;
  delivery = holds (new_delivery spec.job_id none none not_ready);
  payload = missing;
  attempt = missing;
}

abbrev write_metadata_file : String → Metadata → Job → Job
write_metadata_file now m j = record j { metadata = holds (record m { updated_at = now }) }

abbrev write_delivery_file : Delivery → Job → Job
write_delivery_file v j = record j { delivery = holds v }

-- `target != current and target not in TABLE[current]`.
abbrev refuses : {A : Type 0} → (A → A → Bool) → (A → A → Bool) → A → A → Bool
refuses eq table current target = if eq target current then not true else not (table current target)

-- `update_metadata(job_id, execution_state=target, ...)`: `changes` sets the other fields.
unfoldable pub update_metadata :
    String → Option ExecutionState → (Metadata → Metadata) → Exec StoreError Job Metadata
update_metadata now none changes j =
    (do
      value ← load j.metadata
      modify (write_metadata_file now (changes value))
      pure (changes value))
      j
update_metadata now (some target) changes j =
    (do
      value ← load j.metadata
      raise_if (refuses execution_eq execution_transitions value.execution_state target) value_error
      let written : Metadata = record (changes value) { execution_state = target }
      modify (write_metadata_file now written)
      pure written)
      j

-- `update_delivery(job_id, state=target, ...)`; no caller leaves `state` out.
unfoldable pub update_delivery :
    String → DeliveryState → (Delivery → Delivery) → Exec StoreError Job Delivery
update_delivery now target changes j =
    (do
      value ← load j.delivery
      raise_if (refuses delivery_eq delivery_transitions value.state target) value_error
      let written : Delivery = record (changes value) { state = target; updated_at = some now }
      modify (write_delivery_file written)
      pure written)
      j

-- `claim_delivery`: `allowed` is membership in `allowed_states`.
unfoldable pub claim_delivery :
    String → (DeliveryState → Bool) → (Delivery → Delivery) → Exec StoreError Job Delivery
claim_delivery now allowed changes j =
    (do
      value ← load j.delivery
      raise_if (not (allowed value.state)) value_error
      raise_if (not (delivery_transitions value.state claimed)) value_error
      let attempted : Delivery = record (changes value) { attempts = suc value.attempts }
      let written : Delivery = record attempted { state = claimed; updated_at = some now }
      modify (write_delivery_file written)
      pure written)
      j

-- `write_result`, `write_delivery` (and `write_delivery_dict`): no test of the former contents.
abbrev pub write_result : Result → Job → Job
write_result r j = record j { result = holds r }

abbrev pub write_delivery : Delivery → Job → Job
write_delivery v j = record j { delivery = holds v }

-- The identity of the result where it has one: `if result.get("process_identity") is not None`.
abbrev pub kept_identity : Option ProcessIdentity → Option ProcessIdentity → Option ProcessIdentity
kept_identity none old = old
kept_identity (some new) old = some new

-- What `reconcile_metadata_from_result` copies; result.json always has the keys of `field_map`.
abbrev pub reconciled : Result → Metadata → Metadata
reconciled r m = record m {
  execution_state = r.execution_state;
  result_state = some r.result_state;
  finish_time = r.completed_at;
  exit_code = r.exit_code;
  termination_signal = r.termination_signal;
  project_fingerprint_end = r.project_fingerprint_end;
  stale = r.source_state_changed;
  logging = r.logging;
  error_code = r.error_code;
  error_message = r.error_message;
  process_identity = kept_identity r.process_identity m.process_identity;
}

unfoldable pub reconcile_metadata_from_result : String → Result → Exec StoreError Job Metadata
reconcile_metadata_from_result now r j =
    (do
      value ← load j.metadata
      modify (write_metadata_file now (reconciled r value))
      pure (reconciled r value))
      j
