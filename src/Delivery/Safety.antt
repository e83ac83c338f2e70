-- ===== src/Delivery/Safety.antt =====
-- What no sequence of calls of the delivery controller does.
use codex_waiting_plgin.Store.States.{
  DeliveryState, delivery_eq, not_ready, acked, sent_unconfirmed, sending,
}
use codex_waiting_plgin.Store.Records.{Digests, Delivery, File, holds, missing, unreadable, Result}
use codex_waiting_plgin.Prelude.{
  String, Bool, true, ◌≡◌, not, ◌≤◌, arith, Bool-cases, inl, inr, ℤ, false, suc,
}
use codex_waiting_plgin.Delivery.Commands.{
  perform, deliver, Command, resume, ack, permits, again, is_ack,
}
use codex_waiting_plgin.Delivery.{
  Job, prepare_delivery, CliRun, exited, finish_resume, Prepared, payload_of, timed_out,
  could_not_start,
}
use codex_waiting_plgin.Delivery.Sent.{
  is_ready, ready_result, deliver_manual_sends, prepare_refused, prepare_lem, IsReady, in_flight,
}

-- What no number of steps of the transition table leaves: ACKED is final, and NOT_READY is never
-- entered again.
abbrev pub reaches : DeliveryState → DeliveryState → Bool
reaches acked b = delivery_eq b acked
reaches not_ready b = true
reaches a b = not (delivery_eq b not_ready)

-- The delivery that was `v` is still there, its state by the table, its attempts never fewer, and
-- bound to the same event and result.
abbrev pub Follows : Delivery → File Delivery → Type 0
Follows v missing = ⊥
Follows v unreadable = ⊥
Follows v (holds w) =
    (reaches v.state w.state ≡ true)
    × (v.attempts ≤ w.attempts)
    × (w.completion_event_id ≡ v.completion_event_id)
    × (w.result_sha256 ≡ v.result_sha256)

-- From the state SENDING on, a resume keeps what the attempt has counted.
finish-Follows :
    (now job_id session : String) (run : CliRun) (p : Prepared) (v : Delivery) (j : Job)
    → j.delivery ≡ holds (in_flight now "codex-exec-resume" v)
    → reaches v.state sending ≡ true
    → Follows v (finish_resume now job_id session run p j).1.delivery
unfolding finish_resume
finish-Follows now job_id session (exited code digits) p v j h s = ground arith
finish-Follows now job_id session (timed_out m) p v j h s = ground arith
finish-Follows now job_id session (could_not_start m) p v j h s = ground arith

module _ (d : Digests) (job_id : String) (v : Delivery) (j : Job) (h : j.delivery ≡ holds v) where
  deliver-Follows :
      (now : String) (dup : Bool) → Follows v (perform d job_id (deliver now dup) j).delivery
  unfolding perform
  deliver-Follows now dup = elim (Bool-cases (is_ready d dup v.state j.result)) [
    | inl e ↦
        let (r, ready) = ready_result d dup v j h e in
        ground (arith, deliver_manual_sends now job_id ready)
    | inr e ↦ ground (arith, prepare_refused d now job_id "manual-file" dup v j h e)
  ]

  -- A resume of a ready directory, by how the command line ends.
  ready-Follows :
      (now session : String) (timeout : ℤ) (dup : Bool) (run : CliRun) {r : Result}
      → IsReady d dup r v j
      → Follows v (perform d job_id (resume now session timeout dup run) j).delivery
  unfolding perform
  ready-Follows now session timeout dup run {r} ready =
      let t : String = "codex-exec-resume" in
      let j' : Job = record j {
        delivery = holds (in_flight now t v);
        payload = holds (payload_of job_id t r);
      } in
      ground (
        arith,
        prepare_lem now job_id ready t,
        finish-Follows now job_id session run (payload_of job_id t r, suc v.attempts, v.state) v j',
      )

  refused_resume :
      (now session : String) (timeout : ℤ) (dup : Bool) (run : CliRun)
      → is_ready d dup v.state j.result ≡ false
      → perform d job_id (resume now session timeout dup run) j ≡ j
  unfolding perform
  refused_resume now session timeout dup run e =
      ground (arith, prepare_refused d now job_id "codex-exec-resume" dup v j h e)

  Follows-same : Follows v j.delivery
  Follows-same = ground arith

  resume-Follows :
      (now session : String) (timeout : ℤ) (dup : Bool) (run : CliRun)
      → Follows v (perform d job_id (resume now session timeout dup run) j).delivery
  resume-Follows now session timeout dup run = elim (Bool-cases (is_ready d dup v.state j.result)) [
    | inl e ↦ ready-Follows now session timeout dup run (ready_result d dup v j h e).1
    | inr e ↦ rw (refused_resume now session timeout dup run e) Follows-same
  ]

  -- One call moves the delivery along the table, counts no attempt back, and never rebinds it to
  -- another event or result.
  pub perform-Follows : (c : Command) → Follows v (perform d job_id c j).delivery
  unfolding perform
  perform-Follows (deliver now dup) = deliver-Follows now dup
  perform-Follows (resume now session timeout dup run) = resume-Follows now session timeout dup run
  perform-Follows (ack now event) = ground arith
  perform-Follows (again now dup) = ground arith

  -- A call without the duplicate permission, other than an acknowledgement, changes nothing of a
  -- delivery that is SENT_UNCONFIRMED.
  pub unpermitted_lem :
      (c : Command)
      → v.state ≡ sent_unconfirmed
      → permits c ≡ false
      → is_ack c ≡ false
      → perform d job_id c j ≡ j
  unfolding perform prepare_delivery
  unpermitted_lem (deliver now dup) s p a = ground arith
  unpermitted_lem (resume now session timeout dup run) s p a = ground arith
  unpermitted_lem (ack now event) s p a = cc
  unpermitted_lem (again now dup) s p a = ground arith

  -- No call changes anything once the delivery is ACKED.
  pub acked_lem : (c : Command) → v.state ≡ acked → perform d job_id c j ≡ j
  unfolding perform prepare_delivery
  acked_lem (deliver now dup) s = ground arith
  acked_lem (resume now session timeout dup run) s = ground arith
  acked_lem (ack now event) s = ground arith
  acked_lem (again now dup) s = ground arith
