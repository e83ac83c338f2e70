-- ===== src/Supervisor/Crash.antt =====
-- A crash of the supervisor between its final writes, and recovery after it.
use codex_waiting_plgin.Store.States.{
  pending, not_ready, running, ExecutionState, execution_eq, is_terminal,
}
use codex_waiting_plgin.Store.Records.{
  holds, Delivery, Job, Metadata, new_delivery, JobSpec, Digests, Result, ProcessIdentity, changed,
  File, Payload,
}
use codex_waiting_plgin.Recovery.Repair.{
  signed_valid, Agrees, recovered, recover_valid_delivery, recover_valid-Agrees,
  recover_valid-Reports, Reports,
}
use codex_waiting_plgin.Prelude.{
  ◌≡◌, true, none, ◌==◌, refl, String, some, is_some, arith, ap, ◌∙◌, negsuc, ◌+◌, ℤ, pos, ℕ, false,
  inl, inr,
}
use codex_waiting_plgin.Store.Update.{write_result, update_metadata}
use codex_waiting_plgin.Supervisor.{
  World, finish_delivery, finish_job, finish_metadata, child_result, process_exit_code,
}
use codex_waiting_plgin.Prelude.Exec.{ok}
use codex_waiting_plgin.Recovery.{signed, valid_result, repair_delivery}
use codex_waiting_plgin.Supervisor.Outcomes.{classify_terminal, classify_allowed}
use codex_waiting_plgin.Process.{Host}

-- How far the final writes came.
pub data CrashPoint : Type 0 where
  after_result after_metadata after_delivery : CrashPoint

-- The directory at the crash: `r` is the result that the supervisor made.
unfoldable pub crashed : World → String → Result → CrashPoint → Job → Job
crashed w job_id r after_result j = write_result r j
crashed w job_id r after_metadata j = (finish_metadata w r (write_result r j)).1
crashed w job_id r after_delivery j =
    finish_delivery job_id r (finish_metadata w r (write_result r j)).1

-- The state of a job while its child runs.
pub record IsRunning (job_id : String) (s : JobSpec) (m : Metadata) (j : Job) : Type 0 where
  pub has_spec : j.spec ≡ holds s
  pub has_metadata : j.metadata ≡ holds m
  pub has_delivery : j.delivery ≡ holds (new_delivery job_id none none not_ready)
  pub own_spec : (s.job_id == job_id) ≡ true
  pub is_running : m.execution_state ≡ running

-- The status that a shell reports: the code, or 128 and the signal.
abbrev pub shell_status : ℤ → ℕ
shell_status (pos n) = n
shell_status (negsuc n) = 129 + n

running_not_terminal :
    (s t : ExecutionState) → s ≡ running → is_terminal t ≡ true → execution_eq s t ≡ false
running_not_terminal s t e h = rw e (ground arith)

module _ (d : Digests) (w : World) (job_id : String) (s : JobSpec) (child : ProcessIdentity)
    (m : Metadata) (j : Job) (h : IsRunning job_id s m j) where
  -- The signed result of the run.
  abbrev pub run_result : Result
  run_result = signed d (child_result d w job_id s child (is_some m.cancellation_requested_at))

  pub run_valid : valid_result d job_id j.spec run_result ≡ none
  run_valid = rw h.has_spec (
      signed_valid d job_id s
        (child_result d w job_id s child (is_some m.cancellation_requested_at)) h.own_spec refl refl
        (classify_terminal _ _ _))

  abbrev finished_metadata : Metadata
  finished_metadata = record m {
    execution_state = run_result.execution_state;
    result_state = some run_result.result_state;
    finish_time = some w.finished_at;
    exit_code = run_result.exit_code;
    termination_signal = run_result.termination_signal;
    project_fingerprint_end = some w.project_end;
    stale = run_result.source_state_changed;
    logging = run_result.logging;
    error_code = none;
    error_message = none;
    updated_at = w.finished_at;
  }

  abbrev pub finished : Job
  finished = record j {
    result = holds run_result;
    metadata = holds finished_metadata;
    delivery = holds (
        new_delivery job_id (some run_result.completion_event_id) run_result.result_sha256 pending);
  }

  finish_metadata_lem :
      (finish_metadata w run_result (write_result run_result j)).1
      ≡ record j { result = holds run_result; metadata = holds finished_metadata }
  unfolding update_metadata
  finish_metadata_lem = ground (
    arith,
    classify_allowed (is_some m.cancellation_requested_at) w.returncode
        (changed (some w.project_start) (some w.project_end)),
  )

  pub finish_job_writes :
      (finish_job d w job_id s child j ≡ (ok (shell_status w.returncode), finished))
      × (valid_result d job_id finished.spec run_result ≡ none)
  unfolding finish_job update_metadata process_exit_code
  finish_job_writes = (
    ground (
      arith,
      classify_allowed (is_some m.cancellation_requested_at) w.returncode
          (changed (some w.project_start) (some w.project_end)),
    ),
    run_valid,
  )

  finished-Agrees : Agrees run_result finished
  finished-Agrees = record {
    metadata = finished_metadata;
    delivery =
        new_delivery job_id (some run_result.completion_event_id) run_result.result_sha256 pending;
    has_result = refl;
    has_metadata = refl;
    has_delivery = refl;
    execution_state = refl;
    result_state = refl;
    event = refl;
    digest = refl;
    settled = refl;
  }

  finished-Reports : Reports run_result finished.metadata
  finished-Reports = record {
    metadata = finished_metadata;
    has_metadata = refl;
    exit_code = refl;
    signal = refl;
    finish_time = refl;
    fingerprint = refl;
    stale = refl;
    error_code = refl;
    error_message = refl;
  }

  running_other : execution_eq m.execution_state run_result.execution_state ≡ false
  running_other =
      running_not_terminal m.execution_state run_result.execution_state h.is_running
        (classify_terminal _ _ _)

  -- Without a crash, the supervisor returns the exit status of the child, 128 and the signal for a
  -- signal, and leaves a valid result of the run with which metadata and delivery agree, the metadata
  -- with its exit code, signal, time and staleness, the delivery PENDING.
  pub finish_job-Agrees :
      let (reply, j') = finish_job d w job_id s child j in
      (reply ≡ ok (shell_status w.returncode))
      × Agrees run_result j'
      × Reports run_result j'.metadata
      × (valid_result d job_id j'.spec run_result ≡ none)
      × (j'.delivery
          ≡ holds (
              new_delivery job_id
                (some run_result.completion_event_id)
                run_result.result_sha256
                pending))
  finish_job-Agrees =
      let (ends, valid) = finish_job_writes in
      rw ends (refl, finished-Agrees, finished-Reports, valid, refl)

  abbrev sent_pending : String → Delivery
  sent_pending now =
      record (new_delivery job_id (some run_result.completion_event_id) run_result.result_sha256
        pending) { updated_at = some now }

  -- A repair that finds the delivery unready, or already PENDING for the result.
  repair_unready :
      (now : String) (p : File Payload)
      → (repair_delivery now job_id run_result p
          (holds (new_delivery job_id none none not_ready))).0
        ≡ sent_pending now
  unfolding repair_delivery
  repair_unready now p = ground arith

  repair_pending :
      (now : String) (p : File Payload)
      → (repair_delivery now job_id run_result p finished.delivery).0 ≡ sent_pending now
  unfolding repair_delivery
  repair_pending now p = ground arith

  -- A recovery leaves metadata that report the result.
  recovered-Reports :
      (host : Host) (now event_id : String) (k : Job)
      → k.metadata ≡ holds finished_metadata
      → k.result ≡ holds run_result
      → valid_result d job_id k.spec run_result ≡ none
      → Reports run_result (recovered d host now job_id event_id k).metadata
  recovered-Reports host now event_id k hm hr v =
      let agreement =
        recover_valid-Agrees d host now job_id event_id finished_metadata run_result k hm hr v in
      elim agreement.1 [
        | inl reports ↦ reports
        | inr (kept, execution, result) ↦ rw (kept, hm) finished-Reports
      ]

  -- After a crash behind any of the three final writes, with whatever processes still there, an
  -- explicit recovery ends as the undisturbed run: metadata and delivery agree with the result that
  -- was made, the metadata with its exit code, signal, time and staleness, and the delivery is PENDING.
  pub crash_recovery :
      (host : Host) (now event_id : String) (point : CrashPoint)
      → let j' = recovered d host now job_id event_id (crashed w job_id run_result point j) in
        Agrees run_result j'
        × Reports run_result j'.metadata
        × (j'.delivery
            ≡ holds
                (record (new_delivery job_id
                  (some run_result.completion_event_id)
                  run_result.result_sha256
                  pending) { updated_at = some now }))
  unfolding crashed
  crash_recovery host now event_id after_result =
      let k = write_result run_result j in
      (
        (recover_valid-Agrees d host now job_id event_id m run_result k h.has_metadata refl
            run_valid).0,
        recover_valid-Reports d host now job_id event_id m run_result k h.has_metadata refl
            run_valid running_other,
        recover_valid_delivery d host now job_id event_id m run_result k h.has_metadata refl
              run_valid
            ∙ rw h.has_delivery (ap holds (repair_unready now j.payload)),
      )
  crash_recovery host now event_id after_metadata =
      let k : Job = record j { result = holds run_result; metadata = holds finished_metadata } in
      rw finish_metadata_lem (
        (recover_valid-Agrees d host now job_id event_id finished_metadata run_result k refl refl
            run_valid).0,
        recovered-Reports host now event_id k refl refl run_valid,
        recover_valid_delivery d host now job_id event_id finished_metadata run_result k refl refl
              run_valid
            ∙ rw h.has_delivery (ap holds (repair_unready now j.payload)),
      )
  crash_recovery host now event_id after_delivery = rw finish_metadata_lem (
    (recover_valid-Agrees d host now job_id event_id finished_metadata run_result finished refl refl
        run_valid).0,
    recovered-Reports host now event_id finished refl refl run_valid,
    recover_valid_delivery d host now job_id event_id finished_metadata run_result finished refl
          refl run_valid
        ∙ ap holds (repair_pending now j.payload),
  )
