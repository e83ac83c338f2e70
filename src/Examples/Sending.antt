-- ===== src/Examples/Sending.antt =====
-- The delivery controller on concrete directories.
use codex_waiting_plgin.Prelude.{refl, some, false, true, ◌≡◌, ◌∷◌, pos, []}
use codex_waiting_plgin.Delivery.Sent.{IsReady}
use codex_waiting_plgin.Delivery.Traces.{perform_all-Follows, unpermitted_all, claim_exclusive}
use codex_waiting_plgin.Prelude.Exec.{raised}
use codex_waiting_plgin.Store.Records.{Delivery}
use codex_waiting_plgin.Delivery.Commands.{ack, deliver, resume, again, perform_all}
use codex_waiting_plgin.Store.Update.{claim_delivery, update_delivery, value_error}
use codex_waiting_plgin.Delivery.{allowed_states, exited}
use codex_waiting_plgin.Examples.{delivery_in, finished_job, success, digests}
use codex_waiting_plgin.Store.States.{pending, sending, sent_unconfirmed}
use codex_waiting_plgin.Delivery.Safety.{Follows}

perform_all-Follows_example :
    Follows
      (delivery_in pending)
      (perform_all digests "j1"
        (deliver "t2" false ∷ ack "t3" (some "e1") ∷ again "t4" true ∷ [])
        (finished_job pending)).delivery
perform_all-Follows_example =
    perform_all-Follows digests "j1"
      (deliver "t2" false ∷ ack "t3" (some "e1") ∷ again "t4" true ∷ []) (delivery_in pending)
      (finished_job pending) refl

unpermitted_all_example :
    perform_all digests "j1"
      (deliver "t2" false
        ∷ resume "t3" "s1" (pos 5) false (exited (pos 0) "0")
        ∷ again "t4" false
        ∷ [])
      (finished_job sent_unconfirmed)
    ≡ finished_job sent_unconfirmed
unpermitted_all_example =
    unpermitted_all digests "j1"
      (deliver "t2" false
        ∷ resume "t3" "s1" (pos 5) false (exited (pos 0) "0")
        ∷ again "t4" false
        ∷ [])
      (delivery_in sent_unconfirmed) (finished_job sent_unconfirmed) refl refl refl

claim_exclusive_example :
    (claim_delivery "t3"
        (allowed_states true)
        (λ v. v)
        (claim_delivery "t2" (allowed_states false) (λ v. v) (finished_job pending)).1
      ≡ (
        raised value_error,
        (claim_delivery "t2" (allowed_states false) (λ v. v) (finished_job pending)).1,
      ))
    × (claim_delivery "t3"
          (allowed_states true)
          (λ v. v)
          (update_delivery "t2" sending
            (λ v. v)
            (claim_delivery "t2" (allowed_states false) (λ v. v) (finished_job pending)).1).1
        ≡ (
          raised value_error,
          (update_delivery "t2" sending
              (λ v. v)
              (claim_delivery "t2" (allowed_states false) (λ v. v) (finished_job pending)).1).1,
        ))
unfolding claim_delivery
claim_exclusive_example =
    claim_exclusive "t2" "t3" false true (λ v. v) (λ v. v) (finished_job pending) refl

abbrev sending_is_ready : IsReady digests false success (delivery_in pending) (finished_job pending)
sending_is_ready = record { has_result = refl; has_delivery = refl; intact = refl; allowed = refl }
