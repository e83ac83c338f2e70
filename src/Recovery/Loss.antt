-- ===== src/Recovery/Loss.antt =====
-- Recovery of a job that left no result.
use codex_waiting_plgin.Store.States.{
  lost, orphaned, pending, ExecutionState, is_terminal, submitted,
}
use codex_waiting_plgin.Recovery.Repair.{Agrees, recovered, signed_valid, Reports}
use codex_waiting_plgin.Recovery.{
  valid_result, write_synthetic_loss, signed, recover_job, synthetic_result, supervisor_alive, loss,
  child_alive,
}
use codex_waiting_plgin.Store.Records.{
  Result, missing, holds, Metadata, new_delivery, Job, Digests, JobSpec,
}
use codex_waiting_plgin.Prelude.{
  ◌||◌, String, not, ◌⊎◌, arith, refl, ◌==◌, some, false, ◌≡◌, none, true, if◌then◌else◌, ◌↔◌,
}
use codex_waiting_plgin.Store.Update.{reconcile_metadata_from_result, reconciled}
use codex_waiting_plgin.Process.{Host}
use codex_waiting_plgin.Prelude.Exec.{ok}

-- A result that tells of a loss, and of no exit status.
pub record TellsOfLoss (r : Result) : Type 0 where
  pub no_exit_code : r.exit_code ≡ none
  pub no_signal : r.termination_signal ≡ none
  pub loss_state : (r.execution_state ≡ lost) ⊎ (r.execution_state ≡ orphaned)

-- Whether the job of these metadata is an orphan: it never had a supervisor, or its child is alive.
abbrev pub IsOrphan : Host → Metadata → Type 0
IsOrphan host m =
    (is_terminal m.execution_state ≡ false)
    × ((m.execution_state ≡ submitted) ⊎ (child_alive host m ≡ true))

-- The directory holds an intact synthetic result, ORPHANED exactly for an orphan, and metadata and
-- delivery that agree with it; `m` are the metadata before.
pub record IsLost (d : Digests) (host : Host) (m : Metadata) (job_id event_id : String) (j : Job)
    : Type 0 where
  pub result : Result
  pub tells : TellsOfLoss result
  pub valid : valid_result d job_id j.spec result ≡ none
  pub agrees : Agrees result j
  pub reports : Reports result j.metadata
  pub orphan : (result.execution_state ≡ orphaned) ↔ IsOrphan host m
  pub event : result.completion_event_id ≡ event_id

module _ (d : Digests) (host : Host) (now job_id event_id : String) where
  -- The result that `_write_synthetic_loss` writes.
  abbrev lost_result : JobSpec → Metadata → ExecutionState → String → Result
  lost_result s m state reason =
      signed d
        (record (synthetic_result d now job_id event_id s m state) { error_message = some reason })

  abbrev lost_job : JobSpec → Metadata → ExecutionState → String → Job → Job
  lost_job s m state reason j = record j {
    result = holds (lost_result s m state reason);
    metadata = holds (record (reconciled (lost_result s m state reason) m) { updated_at = now });
    delivery =
        holds (
          new_delivery job_id (some event_id) (lost_result s m state reason).result_sha256 pending);
  }

  write_loss_lem :
      (s : JobSpec) (m : Metadata) (state : ExecutionState) (reason : String) (j : Job)
      → j.spec ≡ holds s
      → j.metadata ≡ holds m
      → (s.job_id == job_id) ≡ true
      → write_synthetic_loss d now job_id event_id state reason j
        ≡ (ok (lost_result s m state reason), lost_job s m state reason j)
  unfolding write_synthetic_loss reconcile_metadata_from_result
  write_loss_lem s m state reason j hs hm hi = ground arith

  lost_valid :
      (s : JobSpec) (m : Metadata) (state : ExecutionState) (reason : String)
      → (s.job_id == job_id) ≡ true
      → is_terminal state ≡ true
      → valid_result d job_id (holds s) (lost_result s m state reason) ≡ none
  lost_valid s m state reason hi ht =
      signed_valid d job_id s
        (record (synthetic_result d now job_id event_id s m state) { error_message = some reason })
        hi refl refl ht

  lost_job-IsLost :
      (s : JobSpec) (m : Metadata) (state : ExecutionState) (reason : String) (j : Job)
      → j.spec ≡ holds s
      → (s.job_id == job_id) ≡ true
      → (state ≡ lost) ⊎ (state ≡ orphaned)
      → (state ≡ orphaned) ↔ IsOrphan host m
      → IsLost d host m job_id event_id (lost_job s m state reason j)
  lost_job-IsLost s m state reason j hs hi hl ho = record {
    result = lost_result s m state reason;
    tells = record { no_exit_code = refl; no_signal = refl; loss_state = hl };
    valid = rw hs (lost_valid s m state reason hi (ground arith));
    agrees = record {
      metadata = record (reconciled (lost_result s m state reason) m) { updated_at = now };
      delivery =
          new_delivery job_id (some event_id) (lost_result s m state reason).result_sha256 pending;
      has_result = refl;
      has_metadata = refl;
      has_delivery = refl;
      execution_state = refl;
      result_state = refl;
      event = refl;
      digest = refl;
      settled = refl;
    };
    reports = record {
      metadata = record (reconciled (lost_result s m state reason) m) { updated_at = now };
      has_metadata = refl;
      exit_code = refl;
      signal = refl;
      finish_time = refl;
      fingerprint = refl;
      stale = refl;
      error_code = refl;
      error_message = refl;
    };
    orphan = ho;
    event = refl;
  }

  -- The state and the reason that recovery records.
  abbrev loss_of : Metadata → ExecutionState × String
  loss_of m =
      if is_terminal m.execution_state
      then (lost, "terminal metadata existed without result.json")
      else loss m.execution_state (child_alive host m)

  loss_of_state : (m : Metadata) → ((loss_of m).0 ≡ lost) ⊎ ((loss_of m).0 ≡ orphaned)
  loss_of_state m = ground arith

  loss_of_orphaned : (m : Metadata) → ((loss_of m).0 ≡ orphaned) ↔ IsOrphan host m
  loss_of_orphaned m = ground arith

  recover_lost_lem :
      (s : JobSpec) (m : Metadata) (j : Job)
      → j.spec ≡ holds s
      → j.metadata ≡ holds m
      → j.result ≡ missing
      → (s.job_id == job_id) ≡ true
      → (is_terminal m.execution_state || not (supervisor_alive host m)) ≡ true
      → recovered d host now job_id event_id j ≡ lost_job s m (loss_of m).0 (loss_of m).1 j
  unfolding recovered recover_job
  recover_lost_lem s m j hs hm hr hi ha =
      ground (arith, write_loss_lem s m (loss_of m).0 (loss_of m).1 j hs hm hi)

  -- A job without a result, with readable metadata and its own readable specification, that is
  -- terminal or whose supervisor is gone, is recorded as a loss: a valid synthetic result in the state
  -- ORPHANED where the job was SUBMITTED, or not terminal with its child alive, and in the state LOST
  -- else, with no exit code and no signal, with which metadata and delivery agree.
  pub recover-IsLost :
      (s : JobSpec) (m : Metadata) (j : Job)
      → j.spec ≡ holds s
      → j.metadata ≡ holds m
      → j.result ≡ missing
      → (s.job_id == job_id) ≡ true
      → (is_terminal m.execution_state || not (supervisor_alive host m)) ≡ true
      → IsLost d host m job_id event_id (recovered d host now job_id event_id j)
  recover-IsLost s m j hs hm hr hi ha = rw (recover_lost_lem s m j hs hm hr hi ha) (
      lost_job-IsLost s m (loss_of m).0 (loss_of m).1 j hs hi (loss_of_state m)
        (loss_of_orphaned m))
