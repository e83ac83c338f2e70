-- ===== src/Examples/Recovering.antt =====
-- Recovery of concrete directories.
use codex_waiting_plgin.Recovery.Repair.{
  recover_valid-Agrees, Agrees, recover_idempotent, recovered, Reports,
}
use codex_waiting_plgin.Examples.{
  metadata_in, success, spec, host, finished_job, digests, running_job,
}
use codex_waiting_plgin.Recovery.Loss.{IsLost, recover-IsLost}
use codex_waiting_plgin.Prelude.{false, refl, none, ◌≡◌, Option, ℤ, some, String, ◌⊎◌}
use codex_waiting_plgin.Store.Records.{missing, holds, Job}
use codex_waiting_plgin.Recovery.{valid_result}
use codex_waiting_plgin.Store.States.{running, sending}
use codex_waiting_plgin.Store.Serial.{as_dict, deserialize_spec, deserialize_spec-as_dict}
use codex_waiting_plgin.Protocol.Json.{Json, number, text}

recover-IsLost_example :
    IsLost digests
      (host false)
      (metadata_in running)
      "j1"
      "e9"
      (recovered digests (host false) "t2" "j1" "e9" running_job)
recover-IsLost_example =
    recover-IsLost digests (host false) "t2" "j1" "e9" spec (metadata_in running) running_job refl
      refl refl refl refl

-- The delivery was being sent when the controller ended, and the metadata still say RUNNING.
abbrev interrupted_job : Job
interrupted_job = record (finished_job sending) { metadata = holds (metadata_in running) }

success_is_valid : valid_result digests "j1" (holds spec) success ≡ none
unfolding valid_result
success_is_valid = refl

recover_valid-Agrees_example :
    let k = recovered digests (host false) "t2" "j1" "e9" interrupted_job in
    Agrees success k
    × (Reports success k.metadata
        ⊎ ((k.metadata ≡ holds (metadata_in running))
            × ((metadata_in running).execution_state ≡ success.execution_state)
            × ((metadata_in running).result_state ≡ some success.result_state)))
    × ((recovered digests (host false) "t2" "j1" "e9" interrupted_job).spec ≡ holds spec)
    × ((recovered digests (host false) "t2" "j1" "e9" interrupted_job).payload ≡ missing)
recover_valid-Agrees_example =
    recover_valid-Agrees digests (host false) "t2" "j1" "e9" (metadata_in running) success
      interrupted_job refl refl success_is_valid

recover_idempotent_example :
    recovered digests
      (host false)
      "t2"
      "j1"
      "e9"
      (recovered digests (host false) "t2" "j1" "e9" interrupted_job)
    ≡ recovered digests (host false) "t2" "j1" "e9" interrupted_job
recover_idempotent_example =
    recover_idempotent digests (host false) "t2" "j1" "e9" (metadata_in running) success
      interrupted_job refl refl success_is_valid

abbrev int_of : Json → Option ℤ
int_of (number n) = some n
int_of v = none

abbrev str_of : Json → String
str_of (text s) = s
str_of v = ""

deserialize_spec-as_dict_example : deserialize_spec int_of str_of (as_dict spec) ≡ some spec
deserialize_spec-as_dict_example =
    deserialize_spec-as_dict int_of str_of (λ n. refl) (λ s. refl) spec
