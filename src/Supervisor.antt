-- ===== src/Supervisor.antt =====
-- snooze_core/supervisor.py: `run_job` and `cancel_job` on one job directory. The host answers through
-- a `World`; the supervisor log is not modelled.
pub mod Outcomes
pub mod Crash
pub mod Cancel
pub mod Refusals
use codex_waiting_plgin.Store.Records.{
  Result, changed, Digests, Job, JobSpec, LogInfo, ProcessIdentity, Fingerprint, Metadata,
  new_delivery,
}
use codex_waiting_plgin.Prelude.{
  ℤ, suc, String, negsuc, ◌+◌, not, zero, ℕ, pos, none, ◌==◌, false, if◌then◌else◌, nat_eq, true,
  ◌&&◌, Bool, Option, ◌||◌, some, is_some,
}
use codex_waiting_plgin.Recovery.{signed}
use codex_waiting_plgin.Prelude.Exec.{Exec, raised, modify, raise, pure, ok, ◌>>◌, ◌>>=◌}
use codex_waiting_plgin.Store.Update.{
  load, StoreError, write_delivery, os_error, write_result, update_metadata,
}
use codex_waiting_plgin.Store.States.{
  lost, running, cancelled, submitted, pending, completed, starting, completed_stale,
  ExecutionState, execution_eq, LoggingState, is_terminal,
}
use codex_waiting_plgin.Delivery.{read_spec}
use codex_waiting_plgin.Process.{identity_matches, Host}
use codex_waiting_plgin.Examples.{host}
use codex_waiting_plgin.Prelude.Texts.{joined}

-- What the system and other processes do in one run of the supervisor.
pub record World : Type 0 where
  pub lock_free : Bool
  -- what other processes write before the lock is held, and while the child runs
  pub before_lock : Job → Job
  pub during : Job → Job
  pub group_writable : Bool
  pub logs_open : Bool
  pub cwd_exists : Bool
  pub shell_runs : Bool
  pub shell_name : String
  pub supervisor : ProcessIdentity
  pub child : Option ProcessIdentity
  pub returncode : ℤ
  pub readers_failed : Bool
  pub log_info : LogInfo
  pub log_preview : String
  pub project_start : Fingerprint
  pub project_end : Fingerprint
  pub started_at : String
  pub finished_at : String
  pub duration : Option String
  pub event_id : String
  -- the texts of errors: of opening the logs, and of an exception in the run
  pub log_error : String
  pub exception_text : String

-- `process_exit_code` of models.py.
unfoldable pub process_exit_code : ℤ → Option ℕ × Option ℕ
process_exit_code (pos n) = (some n, none)
process_exit_code (negsuc n) = (none, some (suc n))

abbrev sigterm : ℕ
sigterm = 15

-- The `if` ladder of `run_job` after the child has ended: cancelled, return code, stale.
unfoldable pub classify : Bool → ℤ → Bool → ExecutionState × String
classify true code stale = (cancelled, "CANCELLED")
classify false (pos zero) stale = (if stale then completed_stale else completed, "SUCCESS")
classify false (pos (suc n)) stale = (ExecutionState.failed, "NONZERO_EXIT")
classify false (negsuc n) stale =
    (if nat_eq (suc n) sigterm then cancelled else ExecutionState.failed, "SIGNAL")

-- The result of `_write_terminal_failure` before its digest.
abbrev failed_result : Digests → World → JobSpec → String → String → Result
failed_result d w s code msg = record {
  schema_version = 1;
  job_id = s.job_id;
  spec_sha256 = d.spec_sha256 s;
  execution_state = ExecutionState.failed;
  result_state = "INFRASTRUCTURE_ERROR";
  exit_code = none;
  termination_signal = none;
  started_at = none;
  completed_at = some w.finished_at;
  duration_seconds = none;
  process_identity = none;
  project_fingerprint_start = none;
  project_fingerprint_end = none;
  source_state_changed = none;
  logging = w.log_info;
  log_preview = w.log_preview;
  completion_event_id = w.event_id;
  result_sha256 = none;
  error_code = some code;
  error_message = some msg;
}

-- `_write_terminal_failure`.
unfoldable pub write_terminal_failure :
    Digests → World → JobSpec → String → String → Exec StoreError Job ℕ
write_terminal_failure d w s code msg = do
  m ← λ j. load j.metadata j
  _ ←
      (if execution_eq m.execution_state submitted
        then update_metadata w.finished_at (some ExecutionState.failed) (λ v. record v {
          result_state = some "INFRASTRUCTURE_ERROR";
          finish_time = some w.finished_at;
          error_code = some code;
          error_message = some msg;
        })
        else pure m)
  let r : Result = signed d (failed_result d w s code msg)
  modify (write_result r)
  modify (write_delivery (new_delivery s.job_id (some w.event_id) r.result_sha256 pending))
  pure 125

-- The metadata update to STARTING, and to RUNNING.
abbrev start_metadata : World → Exec StoreError Job Metadata
start_metadata w = update_metadata w.started_at (some starting) (λ m. record m {
  supervisor_pid = some w.supervisor.pid;
  supervisor_identity = some w.supervisor;
  start_time = some w.started_at;
  project_fingerprint_start = some w.project_start;
  error_code = none;
  error_message = none;
})

abbrev running_metadata : World → ProcessIdentity → Exec StoreError Job Metadata
running_metadata w child = update_metadata w.started_at (some running) (λ m. record m {
  pid = some child.pid;
  process_group = child.pgid;
  process_identity = some child;
})

-- The result of a child that has ended, before its digest.
abbrev child_result : Digests → World → String → JobSpec → ProcessIdentity → Bool → Result
child_result d w job_id s child was_cancelled =
    let stale = changed (some w.project_start) (some w.project_end) in
    let (state, result) = classify was_cancelled w.returncode stale in
    let (code, signal) = process_exit_code w.returncode in
    record {
      schema_version = 1;
      job_id = job_id;
      spec_sha256 = d.spec_sha256 s;
      execution_state = state;
      result_state = result;
      exit_code = code;
      termination_signal = signal;
      started_at = some w.started_at;
      completed_at = some w.finished_at;
      duration_seconds = w.duration;
      process_identity = some child;
      project_fingerprint_start = some w.project_start;
      project_fingerprint_end = some w.project_end;
      source_state_changed = some stale;
      logging =
          if w.readers_failed
          then record w.log_info { state = LoggingState.failed }
          else w.log_info;
      log_preview = w.log_preview;
      completion_event_id = w.event_id;
      result_sha256 = none;
      error_code = none;
      error_message = none;
    }

-- The second and the third of the three final writes.
abbrev pub finish_metadata : World → Result → Exec StoreError Job Metadata
finish_metadata w r = update_metadata w.finished_at (some r.execution_state) (λ m. record m {
  result_state = some r.result_state;
  finish_time = some w.finished_at;
  exit_code = r.exit_code;
  termination_signal = r.termination_signal;
  project_fingerprint_end = some w.project_end;
  stale = r.source_state_changed;
  logging = r.logging;
  error_code = none;
  error_message = none;
})

abbrev pub finish_delivery : String → Result → Job → Job
finish_delivery job_id r =
    write_delivery (new_delivery job_id (some r.completion_event_id) r.result_sha256 pending)

-- The exit status of the supervisor: the code, or 128 and the signal.
abbrev exit_status : Option ℕ × Option ℕ → ℕ
exit_status (some code, signal) = code
exit_status (none, none) = 128 + 1
exit_status (none, some zero) = 128 + 1
exit_status (none, some (suc n)) = 128 + suc n

-- `run_job` from the reading of the metadata after the end of the child, here `latest`, on: the
-- final writes.
unfoldable pub conclude :
    Digests → World → String → JobSpec → ProcessIdentity → Metadata → Exec StoreError Job ℕ
conclude d w job_id s child latest = do
  let r : Result =
      signed d (child_result d w job_id s child (is_some latest.cancellation_requested_at))
  modify (write_result r)
  _ ← finish_metadata w r
  modify (finish_delivery job_id r)
  pure (exit_status (process_exit_code w.returncode))

-- `run_job` from the end of the child on, where nobody else writes in it; Supervisor/Cancel has what a
-- cancellation between the reading and the writes does.
unfoldable pub finish_job :
    Digests → World → String → JobSpec → ProcessIdentity → Exec StoreError Job ℕ
unfolding conclude
finish_job d w job_id s child = do
  latest ← λ j. load j.metadata j
  conclude d w job_id s child latest

-- The `Popen` call raises where there is no child, and the rest of the run waits for its end.
abbrev run_child :
    Digests → World → String → JobSpec → Option ProcessIdentity → Exec StoreError Job ℕ
run_child d w job_id s none = raise os_error
run_child d w job_id s (some child) = do
  _ ← running_metadata w child
  modify w.during
  finish_job d w job_id s child

abbrev supported_shell : String → Bool
supported_shell name = name == "zsh" || name == "bash"

-- The body of the `try` block.
abbrev run_checked : Digests → World → String → JobSpec → Exec StoreError Job ℕ
run_checked d w job_id s =
    if not w.cwd_exists
    then write_terminal_failure d w s "CWD_NOT_FOUND"
        (joined "working directory does not exist: " s.cwd)
    else if not w.shell_runs
    then write_terminal_failure d w s "SHELL_NOT_EXECUTABLE"
        (joined "shell is not executable: " s.shell)
    else if not (supported_shell w.shell_name)
    then write_terminal_failure d w s "SHELL_UNSUPPORTED"
        (joined "only zsh and bash are supported in v0.1: " s.shell)
    else (do _ ← start_metadata w; run_child d w job_id s w.child)

-- The handler of the `try` block: a started job is recorded as LOST, and a failure to do so is
-- passed over. `signal_process_group` is the host's.
abbrev is_started : ExecutionState → Bool
is_started s = execution_eq s starting || execution_eq s running

abbrev mark_lost : World → Job → Job
mark_lost w j =
    (update_metadata w.finished_at (some lost)
      (λ m. record m {
        result_state = some "SUPERVISOR_EXCEPTION";
        finish_time = some w.finished_at;
        error_code = some "SUPERVISOR_EXCEPTION";
        error_message = some w.exception_text;
        logging = w.log_info;
      })
      j).1

abbrev pub on_exception : World → Exec StoreError Job ℕ
on_exception w = do
  latest ← λ j. load j.metadata j
  modify (λ j. if is_started latest.execution_state then mark_lost w j else j)
  pure 125

abbrev pub try :
    {A : Type 0} → Exec StoreError Job A → Exec StoreError Job A → Exec StoreError Job A
try body handler j = elim (body j).0 [ ok a ↦ (ok a, (body j).1) | raised e ↦ handler (body j).1 ]

-- The tests between the lock and the `try` block: the code and the message of a refusal.
abbrev pub refusal : Digests → World → JobSpec → JobSpec → Metadata → Option (String × String)
refusal d w s on_disk m =
    if not (d.spec_sha256 on_disk == d.spec_sha256 s)
    then some ("JOB_SPEC_TAMPERED", "canonical JobSpec changed before execution")
    else if not (m.spec_sha256 == d.spec_sha256 s)
    then some ("JOB_SPEC_TAMPERED", "metadata JobSpec digest does not match spec.json")
    else if not
        (m.job_id == s.job_id && m.command == s.command && m.cwd == s.cwd && m.shell == s.shell)
    then some ("JOB_SPEC_TAMPERED", "immutable JobSpec fields changed in metadata.json")
    else if w.group_writable
    then some ("JOB_SPEC_UNSAFE_PERMISSIONS", "spec.json is writable by group or others")
    else if not w.logs_open
    then some ("LOG_INIT_FAILED", joined "could not initialize log files: " w.log_error)
    else none

abbrev run_locked : Digests → World → String → JobSpec → Exec StoreError Job ℕ
run_locked d w job_id s = do
  on_disk ← read_spec job_id
  m ← λ j. load j.metadata j
  elim (refusal d w s on_disk m) [
    | some (code, msg) ↦ write_terminal_failure d w s code msg
    | none ↦ try (run_checked d w job_id s) (on_exception w)
  ]

-- `run_job`: 125 where the specification cannot be read or another supervisor holds the lock.
unfoldable pub run_job : Digests → World → String → Exec StoreError Job ℕ
run_job d w job_id j = elim (read_spec job_id j).0 [
  | raised e ↦ (ok 125, j)
  | ok s ↦
      if not w.lock_free
      then (ok 125, w.before_lock j)
      else run_locked d w job_id s (w.before_lock j)
]

-- What the host does for a cancellation: whether the signals are sent, and whether the process is gone
-- before the time is over.
pub record Signals : Type 0 where
  pub terminated : Bool
  pub gone : Bool
  pub killed : Bool

abbrev signal_status : Host → Signals → ProcessIdentity → ℕ
signal_status host e identity =
    if not e.terminated
    then 1
    else if e.gone
    then 0
    else if identity_matches host false identity && not e.killed
    then 1
    else 0

-- `cancel_job`.
unfoldable pub cancel_job : Host → Signals → String → Exec StoreError Job ℕ
cancel_job host e now = do
  m ← λ j. load j.metadata j
  if is_terminal m.execution_state then pure 0 else (do
    _ ← update_metadata now none (λ v. record v { cancellation_requested_at = some now })
    elim m.process_identity [
      | none ↦ pure 1
      | some identity ↦ pure (signal_status host e identity)
    ])
