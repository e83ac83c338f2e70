-- ===== src/Supervisor/Cancel.antt =====
-- A cancellation while the child runs, and one after the supervisor has looked for it.
use codex_waiting_plgin.Store.Update.{update_metadata}
use codex_waiting_plgin.Store.Records.{
  Metadata, JobSpec, Job, holds, Result, ProcessIdentity, Digests, new_delivery, changed,
}
use codex_waiting_plgin.Supervisor.{cancel_job, finish_job, Signals, World, classify, conclude}
use codex_waiting_plgin.Prelude.{◌≡◌, some, arith, refl, none, String, ap, ◌⊎◌, pos, is_some}
use codex_waiting_plgin.Supervisor.Crash.{IsRunning, run_result, finish_job_writes, run_valid}
use codex_waiting_plgin.Process.{Host}
use codex_waiting_plgin.Store.States.{cancelled, completed_stale, completed, pending}
use codex_waiting_plgin.Recovery.{valid_result}
use codex_waiting_plgin.Supervisor.Outcomes.{classify_allowed}

module _ (d : Digests) (w : World) (job_id : String) (s : JobSpec) (child : ProcessIdentity)
    (m : Metadata) (j : Job) (h : IsRunning job_id s m j) where
  abbrev requested : String → Metadata
  requested now = record m { cancellation_requested_at = some now; updated_at = now }

  cancel_lem :
      (host : Host) (e : Signals) (now : String)
      → (cancel_job host e now j).1 ≡ record j { metadata = holds (requested now) }
  unfolding cancel_job update_metadata
  cancel_lem host e now = ground (arith, h.has_metadata, h.is_running)

  requested-IsRunning :
      (now : String)
      → IsRunning job_id s (requested now) (record j { metadata = holds (requested now) })
  requested-IsRunning now = record {
    has_spec = h.has_spec;
    has_metadata = refl;
    has_delivery = h.has_delivery;
    own_spec = h.own_spec;
    is_running = h.is_running;
  }

  -- Where `cancel_job` was called on a running job before the supervisor reads the metadata after the
  -- end of the child, whatever became of its signals and whatever the exit status of the child, the run
  -- ends with a result in the state CANCELLED, and metadata in that state.
  pub cancel_wins :
      (host : Host) (e : Signals) (now : String)
      → let j' = (finish_job d w job_id s child (cancel_job host e now j).1).1 in
        (r : Result) × (v : Metadata) × (j'.result ≡ holds r)
        × (j'.metadata ≡ holds v)
        × (r.execution_state ≡ cancelled)
        × (v.execution_state ≡ cancelled)
        × (valid_result d job_id j.spec r ≡ none)
  unfolding classify
  cancel_wins host e now =
      let k = requested-IsRunning now in
      let j' : Job = record j { metadata = holds (requested now) } in
      let (ends, valid) = finish_job_writes d w job_id s child (requested now) j' k in
      let eq = ap (λ p. p.1) ends in
      rw (cancel_lem host e now) (
        run_result d w job_id s child (requested now) j' k,
        _,
        ap (λ x. x.result) eq,
        ap (λ x. x.metadata) eq,
        refl,
        refl,
        valid,
      )

  -- The metadata of a run that did not see the request.
  abbrev unseen : String → Result → Metadata
  unseen now r = record (requested now) {
    execution_state = r.execution_state;
    result_state = some r.result_state;
    finish_time = some w.finished_at;
    exit_code = r.exit_code;
    termination_signal = r.termination_signal;
    project_fingerprint_end = some w.project_end;
    stale = r.source_state_changed;
    logging = r.logging;
    error_code = none;
    error_message = none;
    updated_at = w.finished_at;
  }

  conclude-unseen :
      (now : String)
      → let r = run_result d w job_id s child m j h in
        (conclude d w job_id s child m (record j { metadata = holds (requested now) })).1
        ≡ record j {
          result = holds r;
          metadata = holds (unseen now r);
          delivery =
              holds (new_delivery job_id (some r.completion_event_id) r.result_sha256 pending);
        }
  unfolding conclude update_metadata
  conclude-unseen now = ground (
    arith,
    h.is_running,
    classify_allowed (is_some m.cancellation_requested_at) w.returncode
        (changed (some w.project_start) (some w.project_end)),
  )

  -- A cancellation that comes after the supervisor has read the metadata and before it writes the
  -- result is lost: where the child returned 0 and no cancellation was there before, `cancel_job` asks
  -- for the cancellation of a running job, and the run ends with a valid result and metadata that are
  -- COMPLETED or COMPLETED_STALE, the request still among the latter.
  pub late_cancellation_lost :
      (host : Host) (e : Signals) (now : String)
      → m.cancellation_requested_at ≡ none
      → w.returncode ≡ pos 0
      → let j' = (conclude d w job_id s child m (cancel_job host e now j).1).1 in
        (r : Result) × (v : Metadata) × (j'.result ≡ holds r)
        × (j'.metadata ≡ holds v)
        × ((r.execution_state ≡ completed) ⊎ (r.execution_state ≡ completed_stale))
        × (v.execution_state ≡ r.execution_state)
        × (v.cancellation_requested_at ≡ some now)
        × (valid_result d job_id j'.spec r ≡ none)
  unfolding classify
  late_cancellation_lost host e now none_yet zero_ =
      let r = run_result d w job_id s child m j h in
      rw (cancel_lem host e now, conclude-unseen now)
        (
          r,
          unseen now r,
          refl,
          refl,
          rw (none_yet, zero_) (ground arith),
          refl,
          refl,
          run_valid d w job_id s child m j h,
        )
