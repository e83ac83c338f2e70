-- ===== src/Examples.antt =====
-- Concrete job directories and runs, to which the theorems are applied.
mod Sending
mod Recovering
pub mod Supervising
mod Owners
mod Messages
mod Routing
mod Logging
mod Serving
mod Registering
mod HandingOff
mod Reading
use codex_waiting_plgin.Store.Records.{
  holds, Metadata, Result, ProcessIdentity, missing, empty_log_info, JobSpec, Delivery, Digests,
  Job, new_delivery,
}
use codex_waiting_plgin.Prelude.{some, ℕ, Bool, none, false}
use codex_waiting_plgin.Store.States.{DeliveryState, not_ready, running, ExecutionState, completed}
use codex_waiting_plgin.Process.{Host}
use codex_waiting_plgin.Store.Update.{initial_metadata}
use codex_waiting_plgin.Protocol.Json.{null}
use codex_waiting_plgin.Registry.{Registration}

abbrev pub digests : Digests
digests = record { spec_sha256 = λ s. s.command; result_sha256 = λ r. r.completion_event_id }

abbrev pub spec : JobSpec
spec = record {
  schema_version = 1;
  job_id = "j1";
  command = "make";
  cwd = "/p";
  shell = "/bin/zsh";
}

abbrev pub success : Result
success = record {
  schema_version = 1;
  job_id = "j1";
  spec_sha256 = "make";
  execution_state = completed;
  result_state = "SUCCESS";
  exit_code = some 0;
  termination_signal = none;
  started_at = some "t0";
  completed_at = some "t1";
  duration_seconds = none;
  process_identity = none;
  project_fingerprint_start = none;
  project_fingerprint_end = none;
  source_state_changed = some false;
  logging = empty_log_info;
  log_preview = "";
  completion_event_id = "e1";
  result_sha256 = some "e1";
  error_code = none;
  error_message = none;
}

abbrev pub delivery_in : DeliveryState → Delivery
delivery_in s = new_delivery "j1" (some "e1") (some "e1") s

abbrev pub metadata_in : ExecutionState → Metadata
metadata_in s = record (initial_metadata digests "t0" spec) {
  execution_state = s;
  supervisor_pid = some 7;
}

-- A job with a result, its delivery in the given state.
abbrev pub finished_job : DeliveryState → Job
finished_job s = record {
  spec = holds spec;
  metadata = holds (metadata_in completed);
  result = holds success;
  delivery = holds (delivery_in s);
  payload = missing;
  attempt = missing;
}

-- A job whose child runs, or ran.
abbrev pub running_job : Job
running_job = record {
  spec = holds spec;
  metadata = holds (metadata_in running);
  result = missing;
  delivery = holds (new_delivery "j1" none none not_ready);
  payload = missing;
  attempt = missing;
}

abbrev nobody : ℕ → ProcessIdentity
nobody n = record {
  pid = n;
  pgid = none;
  start_time = none;
  executable = none;
  command_fingerprint = none;
}

-- A host where every process is there, or none is.
abbrev pub host : Bool → Host
host b = record { process_identity = nobody; process_exists = λ n. b }

abbrev pub child : ProcessIdentity
child = nobody 8

abbrev pub registration : Registration
registration = record {
  app_server_instance = "i1";
  cwd = "/p";
  sandbox = null;
  approval_policy = null;
  model = none;
  source = "codex-app-server";
}
