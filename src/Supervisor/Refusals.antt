-- ===== src/Supervisor/Refusals.antt =====
-- A run that is refused before its child starts.
use codex_waiting_plgin.Recovery.{signed}
use codex_waiting_plgin.Store.States.{pending, submitted, ExecutionState, is_terminal}
use codex_waiting_plgin.Store.Records.{
  Result, JobSpec, Job, holds, Digests, Metadata, new_delivery, Delivery,
}
use codex_waiting_plgin.Prelude.{String, ◌≡◌, false, some, arith, refl, none, ◌==◌, true, ◌∙◌, ℕ}
use codex_waiting_plgin.Recovery.Repair.{Agrees}
use codex_waiting_plgin.Supervisor.{
  write_terminal_failure, World, failed_result, run_job, refusal, try, on_exception,
}
use codex_waiting_plgin.Store.Update.{update_metadata, StoreError}
use codex_waiting_plgin.Prelude.Exec.{ok, Exec}
use codex_waiting_plgin.Prelude.Texts.{joined}

-- The result of a refusal, with its digest.
abbrev pub refused_result : Digests → World → JobSpec → String → String → Result
refused_result d w s code msg = signed d (failed_result d w s code msg)

abbrev pub refused_delivery : Digests → World → JobSpec → String → String → Delivery
refused_delivery d w s code msg =
    new_delivery s.job_id (some w.event_id) (refused_result d w s code msg).result_sha256 pending

-- For a job that is SUBMITTED, a refusal returns 125 and leaves a directory that agrees with its
-- FAILED result, of no exit code and no signal.
pub refused-Agrees :
    (d : Digests) (w : World) (s : JobSpec) (code msg : String) (m : Metadata) (j : Job)
    → j.metadata ≡ holds m
    → m.execution_state ≡ submitted
    → let (reply, j') = write_terminal_failure d w s code msg j in
      (reply ≡ ok 125)
      × Agrees (refused_result d w s code msg) j'
      × ((refused_result d w s code msg).execution_state ≡ ExecutionState.failed)
      × ((refused_result d w s code msg).exit_code ≡ none)
      × ((refused_result d w s code msg).termination_signal ≡ none)
unfolding write_terminal_failure update_metadata
refused-Agrees d w s code msg m j h e =
    rw (h, e)
      (
        refl,
        record {
          metadata = _;
          delivery = refused_delivery d w s code msg;
          has_result = refl;
          has_metadata = refl;
          has_delivery = refl;
          execution_state = refl;
          result_state = refl;
          event = refl;
          digest = refl;
          settled = refl;
        },
        refl,
        refl,
        refl,
      )

late_refusal :
    (d : Digests) (w : World) (s : JobSpec) (code msg : String) (m : Metadata) (j : Job)
    → j.metadata ≡ holds m
    → is_terminal m.execution_state ≡ true
    → write_terminal_failure d w s code msg j ≡ (
      ok 125,
      record j {
        result = holds (refused_result d w s code msg);
        delivery = holds (refused_delivery d w s code msg);
      },
    )
unfolding write_terminal_failure
late_refusal d w s code msg m j h e = ground (arith, h, e)

try_ok :
    (body handler : Exec StoreError Job ℕ) (j : Job) (n : ℕ) (k : Job)
    → body j ≡ (ok n, k)
    → try body handler j ≡ (ok n, k)
try_ok body handler j n k e = ground arith

cwd_refused :
    (d : Digests) (w : World) (job_id : String) (s : JobSpec) (m : Metadata) (j : Job)
    → j.spec ≡ holds s
    → j.metadata ≡ holds m
    → (s.job_id == job_id) ≡ true
    → w.lock_free ≡ true
    → w.before_lock j ≡ j
    → refusal d w s s m ≡ none
    → w.cwd_exists ≡ false
    → run_job d w job_id j
      ≡ try
          (write_terminal_failure d w s "CWD_NOT_FOUND"
            (joined "working directory does not exist: " s.cwd))
          (on_exception w)
          j
unfolding run_job
cwd_refused d w job_id s m j hs hm hi free alone accepted_ gone_ = ground arith

-- Where a supervisor is started for a job that has already ended, and the working directory is gone
-- meanwhile, the run returns 125 and replaces the result by a FAILED one and the delivery, which may
-- have been ACKED, by a PENDING one, while the metadata still tell of the former result.
pub ended_job_replaced :
    (d : Digests) (w : World) (job_id : String) (s : JobSpec) (m : Metadata) (j : Job)
    → j.spec ≡ holds s
    → j.metadata ≡ holds m
    → (s.job_id == job_id) ≡ true
    → is_terminal m.execution_state ≡ true
    → w.lock_free ≡ true
    → w.before_lock j ≡ j
    → refusal d w s s m ≡ none
    → w.cwd_exists ≡ false
    → let (reply, j') = run_job d w job_id j in
      (reply ≡ ok 125)
      × (j'.metadata ≡ j.metadata)
      × ((r : Result) × (v : Delivery) × (j'.result ≡ holds r)
          × (j'.delivery ≡ holds v)
          × (r.execution_state ≡ ExecutionState.failed)
          × (r.error_code ≡ some "CWD_NOT_FOUND")
          × (v.state ≡ pending)
          × (v.result_sha256 ≡ r.result_sha256))
ended_job_replaced d w job_id s m j hs hm hi ht free alone accepted_ gone_ =
    let msg : String = joined "working directory does not exist: " s.cwd in
    let ends =
      cwd_refused d w job_id s m j hs hm hi free alone accepted_ gone_
      ∙ try_ok (write_terminal_failure d w s "CWD_NOT_FOUND" msg) (on_exception w) j 125 _
          (late_refusal d w s "CWD_NOT_FOUND" msg m j hm ht) in
    rw ends (
      refl,
      refl,
      (
        refused_result d w s "CWD_NOT_FOUND" msg,
        refused_delivery d w s "CWD_NOT_FOUND" msg,
        refl,
        refl,
        refl,
        refl,
        refl,
        refl,
      ),
    )
