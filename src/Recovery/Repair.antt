-- ===== src/Recovery/Repair.antt =====
-- What recovery makes of a job directory.
use codex_waiting_plgin.Store.States.{
  sending, not_ready, DeliveryState, claimed, acked, execution_eq, is_terminal,
}
use codex_waiting_plgin.Process.{Host}
use codex_waiting_plgin.Store.Records.{
  holds, Metadata, Job, Result, Delivery, Digests, File, Payload, JobSpec,
}
use codex_waiting_plgin.Prelude.{
  true, Bool, ◌&&◌, arith, ◌≡◌, none, String, if◌then◌else◌, false, option_eq, some, refl,
  option_eq→eq, eq_refl, ◌==◌, eq_iff, Bool-cases, ◌⊎◌, inl, inr,
}
use codex_waiting_plgin.Recovery.{valid_result, repair_delivery, recover_job, signed}
use codex_waiting_plgin.Store.Update.{reconciled, reconcile_metadata_from_result}
use codex_waiting_plgin.Delivery.{result_digest}

-- Neither in flight nor unready: the states that recovery leaves.
abbrev pub is_settled : DeliveryState → Bool
is_settled not_ready = false
is_settled claimed = false
is_settled sending = false
is_settled _ = true

-- The metadata of a file tell of the end of the run what the result tells of it.
pub record Reports (r : Result) (f : File Metadata) : Type 0 where
  pub metadata : Metadata
  pub has_metadata : f ≡ holds metadata
  pub exit_code : metadata.exit_code ≡ r.exit_code
  pub signal : metadata.termination_signal ≡ r.termination_signal
  pub finish_time : metadata.finish_time ≡ r.completed_at
  pub fingerprint : metadata.project_fingerprint_end ≡ r.project_fingerprint_end
  pub stale : metadata.stale ≡ r.source_state_changed
  pub error_code : metadata.error_code ≡ r.error_code
  pub error_message : metadata.error_message ≡ r.error_message

-- The directory agrees with a result: its metadata has the two states of the result, and its delivery
-- is bound to the event and the digest of the result, and not in flight.
pub record Agrees (r : Result) (j : Job) : Type 0 where
  pub metadata : Metadata
  pub delivery : Delivery
  pub has_result : j.result ≡ holds r
  pub has_metadata : j.metadata ≡ holds metadata
  pub has_delivery : j.delivery ≡ holds delivery
  pub execution_state : metadata.execution_state ≡ r.execution_state
  pub result_state : metadata.result_state ≡ some r.result_state
  pub event : delivery.completion_event_id ≡ some r.completion_event_id
  pub digest : delivery.result_sha256 ≡ r.result_sha256
  pub settled : is_settled delivery.state ≡ true

repair_bound :
    (now job_id : String) (r : Result) (p : File Payload) (f : File Delivery)
    → let w = (repair_delivery now job_id r p f).0 in
      (w.completion_event_id ≡ some r.completion_event_id)
      × (w.result_sha256 ≡ r.result_sha256)
      × (is_settled w.state ≡ true)
unfolding repair_delivery
repair_bound now job_id r p f = ground arith

-- The delivery of a settled directory that is ACKED is not touched by a repair.
pub repair-acked :
    (now job_id : String) (r : Result) (p : File Payload) (v : Delivery)
    → v.state ≡ acked
    → (repair_delivery now job_id r p (holds v)).0.state ≡ acked
unfolding repair_delivery
repair-acked now job_id r p v s = ground arith

-- A signed result of a terminal state, for the specification of the directory, is valid.
pub signed_valid :
    (d : Digests) (job_id : String) (s : JobSpec) (r : Result)
    → (s.job_id == job_id) ≡ true
    → r.job_id ≡ job_id
    → r.spec_sha256 ≡ d.spec_sha256 s
    → is_terminal r.execution_state ≡ true
    → valid_result d job_id (holds s) (signed d r) ≡ none
unfolding valid_result
signed_valid d job_id s r hi hj hs ht = ground (
  arith,
  eq_iff r.job_id job_id,
  eq_iff r.spec_sha256 (d.spec_sha256 s),
  eq_refl (result_digest d (signed d r)),
)

module _ (d : Digests) (host : Host) (now job_id event_id : String) where
  unfoldable pub recovered : Job → Job
  recovered j = (recover_job d host now job_id event_id j).1

  abbrev reconciled_metadata : Metadata → Result → Metadata
  reconciled_metadata m r =
      if execution_eq m.execution_state r.execution_state
        && option_eq m.result_state (some r.result_state)
      then m
      else record (reconciled r m) { updated_at = now }

  -- The directory that recovery leaves where the result is valid.
  recover_valid_lem :
      (m : Metadata) (r : Result) (j : Job)
      → j.metadata ≡ holds m
      → j.result ≡ holds r
      → valid_result d job_id j.spec r ≡ none
      → recovered j ≡ record j {
        metadata = holds (reconciled_metadata m r);
        delivery = holds (repair_delivery now job_id r j.payload j.delivery).0;
      }
  unfolding recovered recover_job reconcile_metadata_from_result
  recover_valid_lem m r j hm hr v = ground arith

  reconciled_agrees :
      (m : Metadata) (r : Result)
      → ((reconciled_metadata m r).execution_state ≡ r.execution_state)
        × ((reconciled_metadata m r).result_state ≡ some r.result_state)
  reconciled_agrees m r = ground (arith, option_eq→eq m.result_state (some r.result_state))

  -- Metadata of other states are made to report the result, those of the same two states are left.
  reconciled-Reports :
      (m : Metadata) (r : Result)
      → Reports r (holds (reconciled_metadata m r))
        ⊎ ((reconciled_metadata m r ≡ m)
            × (m.execution_state ≡ r.execution_state)
            × (m.result_state ≡ some r.result_state))
  reconciled-Reports m r =
      elim (Bool-cases (
        execution_eq m.execution_state r.execution_state
        && option_eq m.result_state (some r.result_state))) [
          | inl same_states ↦ inr (
            rw same_states refl,
            ground arith,
            ground (arith, option_eq→eq m.result_state (some r.result_state)),
          )
          | inr other ↦ inl (record {
            metadata = record (reconciled r m) { updated_at = now };
            has_metadata = rw other refl;
            exit_code = refl;
            signal = refl;
            finish_time = refl;
            fingerprint = refl;
            stale = refl;
            error_code = refl;
            error_message = refl;
          })
        ]

  reconciled_idem :
      (m : Metadata) (r : Result)
      → reconciled_metadata (reconciled_metadata m r) r ≡ reconciled_metadata m r
  reconciled_idem m r = ground (arith, eq_refl r.result_state)

  -- With a valid result, recovery leaves metadata of the two states of the result and a delivery that
  -- is bound to it and not in flight. Metadata that had other states then report its exit code,
  -- signal, time, fingerprint, staleness and error; metadata that had both states already are not
  -- written, whatever else they say. The result, the specification and the payload stay as they were.
  pub recover_valid-Agrees :
      (m : Metadata) (r : Result) (j : Job)
      → j.metadata ≡ holds m
      → j.result ≡ holds r
      → valid_result d job_id j.spec r ≡ none
      → Agrees r (recovered j)
        × (Reports r (recovered j).metadata
            ⊎ (((recovered j).metadata ≡ j.metadata)
                × (m.execution_state ≡ r.execution_state)
                × (m.result_state ≡ some r.result_state)))
        × ((recovered j).spec ≡ j.spec)
        × ((recovered j).payload ≡ j.payload)
  recover_valid-Agrees m r j hm hr v =
      let p = repair_bound now job_id r j.payload j.delivery in
      let q = reconciled_agrees m r in
      rw (recover_valid_lem m r j hm hr v) (
        record {
          metadata = reconciled_metadata m r;
          delivery = (repair_delivery now job_id r j.payload j.delivery).0;
          has_result = hr;
          has_metadata = refl;
          has_delivery = refl;
          execution_state = q.0;
          result_state = q.1;
          event = p.0;
          digest = p.1;
          settled = p.2;
        },
        elim (reconciled-Reports m r) [
          | inl reports ↦ inl reports
          | inr (kept, execution, result) ↦ inr (rw (kept, hm) refl, execution, result)
        ],
        refl,
        refl,
      )

  repair_idem :
      (r : Result) (p : File Payload) (f : File Delivery)
      → let w = (repair_delivery now job_id r p f).0 in
        (repair_delivery now job_id r p (holds w)).0 ≡ w
  unfolding repair_delivery
  repair_idem r p (holds v) = ground arith
  repair_idem r p f = ground arith

  -- With a valid result, a second recovery at the same moment changes nothing.
  pub recover_idempotent :
      (m : Metadata) (r : Result) (j : Job)
      → j.metadata ≡ holds m
      → j.result ≡ holds r
      → valid_result d job_id j.spec r ≡ none
      → recovered (recovered j) ≡ recovered j
  recover_idempotent m r j hm hr v =
      let w : Delivery = (repair_delivery now job_id r j.payload j.delivery).0 in
      let j' : Job = record j { metadata = holds (reconciled_metadata m r); delivery = holds w } in
      rw
        (
          recover_valid_lem m r j hm hr v,
          recover_valid_lem (reconciled_metadata m r) r j' refl hr v,
        )
        (cc (reconciled_idem m r, repair_idem r j.payload j.delivery))

  -- Where the metadata have another state than the result, a recovery makes them report it.
  pub recover_valid-Reports :
      (m : Metadata) (r : Result) (j : Job)
      → j.metadata ≡ holds m
      → j.result ≡ holds r
      → valid_result d job_id j.spec r ≡ none
      → execution_eq m.execution_state r.execution_state ≡ false
      → Reports r (recovered j).metadata
  recover_valid-Reports m r j hm hr v n = rw (recover_valid_lem m r j hm hr v) (record {
    metadata = record (reconciled r m) { updated_at = now };
    has_metadata = rw n refl;
    exit_code = refl;
    signal = refl;
    finish_time = refl;
    fingerprint = refl;
    stale = refl;
    error_code = refl;
    error_message = refl;
  })

  pub recover_valid_delivery :
      (m : Metadata) (r : Result) (j : Job)
      → j.metadata ≡ holds m
      → j.result ≡ holds r
      → valid_result d job_id j.spec r ≡ none
      → (recovered j).delivery ≡ holds (repair_delivery now job_id r j.payload j.delivery).0
  recover_valid_delivery m r j hm hr v = rw (recover_valid_lem m r j hm hr v)
