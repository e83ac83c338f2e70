-- ===== src/Delivery/Traces.antt =====
-- Sequences of calls of the delivery controller, and two controllers at one delivery.
use codex_waiting_plgin.Store.Update.{claim_delivery, update_delivery, value_error}
use codex_waiting_plgin.Store.Records.{Delivery, Digests, File, holds, Job, missing, unreadable}
use codex_waiting_plgin.Prelude.{String, List, Bool, ◌≡◌, arith, true, ◌∷◌, not, refl, [], ◌&&◌}
use codex_waiting_plgin.Delivery.Commands.{perform_all, Command, perform, permits, is_ack}
use codex_waiting_plgin.Delivery.Safety.{Follows, perform-Follows, unpermitted_lem, acked_lem}
use codex_waiting_plgin.Store.States.{acked, sent_unconfirmed, sending}
use codex_waiting_plgin.Delivery.{allowed_states}
use codex_waiting_plgin.Delivery.Sent.{is_ok}
use codex_waiting_plgin.Prelude.Exec.{raised}

Follows-trans :
    (v w : Delivery) (f : File Delivery) → Follows v (holds w) → Follows w f → Follows v f
Follows-trans v w missing h k = absurd k
Follows-trans v w unreadable h k = absurd k
Follows-trans v w (holds x) h k = ground arith

-- A delivery file that follows another holds something.
Follows-holds : (v : Delivery) (f : File Delivery) → Follows v f → (w : Delivery) × (f ≡ holds w)
Follows-holds v missing h = absurd h
Follows-holds v unreadable h = absurd h
Follows-holds v (holds w) h = (w, refl)

module _ (d : Digests) (job_id : String) where
  -- Whatever calls are made, in any order and with any endings of the command line: an ACKED
  -- delivery stays ACKED, NOT_READY is not entered again, attempts are never counted back, and the
  -- delivery stays bound to its completion event and its result digest.
  pub perform_all-Follows :
      (cs : List Command) (v : Delivery) (j : Job)
      → j.delivery ≡ holds v
      → Follows v (perform_all d job_id cs j).delivery
  unfolding perform_all
  perform_all-Follows [] v j h = ground arith
  perform_all-Follows (c ∷ cs) v j h =
      let step = perform-Follows d job_id v j h c in
      let (w, e) = Follows-holds v (perform d job_id c j).delivery step in
      Follows-trans v w _ (rw e at step) (perform_all-Follows cs w (perform d job_id c j) e)

  -- The calls without the duplicate permission, acknowledgements aside.
  abbrev pub all_unpermitted : List Command → Bool
  all_unpermitted [] = true
  all_unpermitted (c ∷ cs) = not (permits c) && not (is_ack c) && all_unpermitted cs

  -- No sequence of calls that lack the duplicate permission, and acknowledge nothing, changes a job
  -- directory whose delivery is SENT_UNCONFIRMED: nothing is sent a second time.
  pub unpermitted_all :
      (cs : List Command) (v : Delivery) (j : Job)
      → j.delivery ≡ holds v
      → v.state ≡ sent_unconfirmed
      → all_unpermitted cs ≡ true
      → perform_all d job_id cs j ≡ j
  unfolding perform_all
  unpermitted_all [] v j h s p = refl
  unpermitted_all (c ∷ cs) v j h s p =
      rw (unpermitted_lem d job_id v j h c s (ground arith) (ground arith))
        (unpermitted_all cs v j h s (ground arith))

  -- Once ACKED, a job directory is changed by no sequence of calls.
  pub acked_all :
      (cs : List Command) (v : Delivery) (j : Job)
      → j.delivery ≡ holds v
      → v.state ≡ acked
      → perform_all d job_id cs j ≡ j
  unfolding perform_all
  acked_all [] v j h s = refl
  acked_all (c ∷ cs) v j h s = rw (acked_lem d job_id v j h c s) (acked_all cs v j h s)

-- A claim that succeeds is exclusive: until the delivery leaves CLAIMED and SENDING, a claim by
-- another controller, with the duplicate permission or not, raises and writes nothing.
pub claim_exclusive :
    (now now' : String) (dup dup' : Bool) (ch ch' : Delivery → Delivery) (j : Job)
    → let j₁ = (claim_delivery now (allowed_states dup) ch j).1 in
      let j₂ = (update_delivery now sending (λ v. v) j₁).1 in
      is_ok (claim_delivery now (allowed_states dup) ch j).0 ≡ true
      → (claim_delivery now' (allowed_states dup') ch' j₁ ≡ (raised value_error, j₁))
        × (claim_delivery now' (allowed_states dup') ch' j₂ ≡ (raised value_error, j₂))
unfolding claim_delivery update_delivery
claim_exclusive now now' dup dup' ch ch' j h = ground arith
