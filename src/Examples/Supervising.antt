-- ===== src/Examples/Supervising.antt =====
-- A run of the supervisor, and a crash in it.
use codex_waiting_plgin.Examples.{
  running_job, child, spec, digests, host, metadata_in, finished_job,
}
use codex_waiting_plgin.Store.Records.{
  Fingerprint, empty_log_info, holds, Result, new_delivery, Metadata, Job, Delivery,
}
use codex_waiting_plgin.Recovery.Repair.{recovered, Agrees, Reports}
use codex_waiting_plgin.Prelude.Exec.{ok}
use codex_waiting_plgin.Supervisor.Crash.{
  run_result, after_metadata, crash_recovery, IsRunning, crashed, finish_job-Agrees,
}
use codex_waiting_plgin.Prelude.{false, pos, ◌≢◌, ◌↔◌, ◌≡◌, none, ◌⊎◌, true, refl, negsuc, some}
use codex_waiting_plgin.Store.States.{
  completed_stale, running, cancelled, pending, ExecutionState, acked,
}
use codex_waiting_plgin.Supervisor.Outcomes.{classify_lem}
use codex_waiting_plgin.Supervisor.{
  classify, finish_job, World, Signals, cancel_job, write_terminal_failure, conclude, run_job,
}
use codex_waiting_plgin.Recovery.{valid_result}
use codex_waiting_plgin.Supervisor.Refusals.{ended_job_replaced, refused_result, refused-Agrees}
use codex_waiting_plgin.Supervisor.Cancel.{cancel_wins, late_cancellation_lost}
use codex_waiting_plgin.Store.Update.{initial_metadata, create}

abbrev project : Fingerprint
project = record {
  kind = "FILESYSTEM";
  root = none;
  head = none;
  branch = none;
  status_porcelain_v2_hash = none;
  untracked_files_manifest_hash = none;
  index_diff_hash = none;
  working_tree_diff_hash = none;
}

-- The child returns 3.
abbrev pub world : World
world = record {
  lock_free = true;
  before_lock = λ j. j;
  during = λ j. j;
  group_writable = false;
  logs_open = true;
  cwd_exists = true;
  shell_runs = true;
  shell_name = "zsh";
  supervisor = child;
  child = some child;
  returncode = pos 3;
  readers_failed = false;
  log_info = empty_log_info;
  log_preview = "";
  project_start = project;
  project_end = project;
  started_at = "t0";
  finished_at = "t1";
  duration = none;
  event_id = "e1";
  log_error = "";
  exception_text = "";
}

abbrev pub running_is_running : IsRunning "j1" spec (metadata_in running) running_job
running_is_running = record {
  has_spec = refl;
  has_metadata = refl;
  has_delivery = refl;
  own_spec = refl;
  is_running = refl;
}

abbrev pub made : Result
made = run_result digests world "j1" spec child (metadata_in running) running_job running_is_running

finish_job-Agrees_example :
    let (reply, j') = finish_job digests world "j1" spec child running_job in
    (reply ≡ ok 3)
    × Agrees made j'
    × Reports made j'.metadata
    × (valid_result digests "j1" j'.spec made ≡ none)
    × (j'.delivery ≡ holds (new_delivery "j1" (some "e1") (some "e1") pending))
finish_job-Agrees_example =
    finish_job-Agrees digests world "j1" spec child (metadata_in running) running_job
      running_is_running

crash_recovery_example :
    let j' =
      recovered digests
        (host false)
        "t2"
        "j1"
        "e9"
        (crashed world "j1" made after_metadata running_job) in
    Agrees made j'
    × Reports made j'.metadata
    × (j'.delivery
        ≡ holds
            (record (new_delivery "j1" (some made.completion_event_id) made.result_sha256 pending) {
              updated_at = some "t2";
            }))
crash_recovery_example =
    crash_recovery digests world "j1" spec child (metadata_in running) running_job
      running_is_running (host false) "t2" "e9" after_metadata

classify_lem_example :
    let s = (classify false (negsuc 14) false).0 in
    ((s ≡ ExecutionState.completed) ↔ ((false ≡ false) × (negsuc 14 ≡ pos 0) × (false ≡ false)))
    × ((s ≡ completed_stale) ↔ ((false ≡ false) × (negsuc 14 ≡ pos 0) × (false ≡ true)))
    × ((s ≡ cancelled) ↔ ((false ≡ true) ⊎ (negsuc 14 ≡ negsuc 14)))
    × ((s ≡ ExecutionState.failed)
        ↔ ((false ≡ false) × (negsuc 14 ≢ pos 0) × (negsuc 14 ≢ negsuc 14)))
classify_lem_example = classify_lem false (negsuc 14) false

abbrev signals : Signals
signals = record { terminated = true; gone = false; killed = true }

cancel_wins_example :
    let j' =
      (finish_job digests world "j1" spec child
        (cancel_job (host true) signals "t1" running_job).1).1 in
    (r : Result) × (v : Metadata) × (j'.result ≡ holds r)
    × (j'.metadata ≡ holds v)
    × (r.execution_state ≡ cancelled)
    × (v.execution_state ≡ cancelled)
    × (valid_result digests "j1" (holds spec) r ≡ none)
cancel_wins_example =
    cancel_wins digests world "j1" spec child (metadata_in running) running_job running_is_running
      (host true) signals "t1"

-- The child returns 0.
abbrev succeeding : World
succeeding = record world { returncode = pos 0 }

late_cancellation_lost_example :
    let j' =
      (conclude digests succeeding "j1" spec child
        (metadata_in running)
        (cancel_job (host true) signals "t1" running_job).1).1 in
    (r : Result) × (v : Metadata) × (j'.result ≡ holds r)
    × (j'.metadata ≡ holds v)
    × ((r.execution_state ≡ ExecutionState.completed) ⊎ (r.execution_state ≡ completed_stale))
    × (v.execution_state ≡ r.execution_state)
    × (v.cancellation_requested_at ≡ some "t1")
    × (valid_result digests "j1" j'.spec r ≡ none)
late_cancellation_lost_example =
    late_cancellation_lost digests succeeding "j1" spec child (metadata_in running) running_job
      running_is_running (host true) signals "t1" refl refl

abbrev submitted_job : Job
submitted_job = create digests "t0" spec

refused-Agrees_example :
    let (reply, j') =
      write_terminal_failure digests world spec "CWD_NOT_FOUND" "no directory" submitted_job in
    let r = refused_result digests world spec "CWD_NOT_FOUND" "no directory" in
    (reply ≡ ok 125)
    × Agrees r j'
    × (r.execution_state ≡ ExecutionState.failed)
    × (r.exit_code ≡ none)
    × (r.termination_signal ≡ none)
unfolding create
refused-Agrees_example =
    refused-Agrees digests world spec "CWD_NOT_FOUND" "no directory"
      (initial_metadata digests "t0" spec) submitted_job refl refl

-- The working directory is gone.
abbrev elsewhere : World
elsewhere = record world { cwd_exists = false }

ended_job_replaced_example :
    let (reply, j') = run_job digests elsewhere "j1" (finished_job acked) in
    (reply ≡ ok 125)
    × (j'.metadata ≡ (finished_job acked).metadata)
    × ((r : Result) × (v : Delivery) × (j'.result ≡ holds r)
        × (j'.delivery ≡ holds v)
        × (r.execution_state ≡ ExecutionState.failed)
        × (r.error_code ≡ some "CWD_NOT_FOUND")
        × (v.state ≡ pending)
        × (v.result_sha256 ≡ r.result_sha256))
ended_job_replaced_example =
    ended_job_replaced digests elsewhere "j1" spec (metadata_in ExecutionState.completed)
      (finished_job acked) refl refl refl refl refl refl refl refl
