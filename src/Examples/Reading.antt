-- ===== src/Examples/Reading.antt =====
-- A process that writes a byte and exits, in a log of three events.
use codex_waiting_plgin.Prelude.{[], refl, ◌≡◌, String, arith, ℕ, Option, List, ◌∷◌}
use codex_waiting_plgin.NativeBackend.Reading.{wait_reads_all, full_log_is_deaf, outcome, concat}
use codex_waiting_plgin.Prelude.Exec.{raised}
use codex_waiting_plgin.NativeBackend.Bounded.{seen_logs}
use codex_waiting_plgin.NativeBackend.{wait, read, wait_timed_out, Handle, Event}
use codex_waiting_plgin.Protocol.Json.{Json, null, object, member, text, end}

abbrev decode : Option Json → List ℕ
decode v = 65 ∷ []

abbrev utf8 : List ℕ → String
utf8 [] = ""
utf8 (b ∷ bs) = "A"

abbrev handle : Handle
handle = record { process_id = "p1"; stdout = []; stderr = [] }

abbrev event : String → Event
event method = record {
  kind = "notification";
  method = method;
  params = object (member "processHandle" (text "p1") end);
}

abbrev noise : Event
noise = record { kind = "stderr"; method = ""; params = null }

abbrev exit_batches : List (List Event)
exit_batches = (event "process/outputDelta" ∷ []) ∷ (event "process/exited" ∷ []) ∷ []

wait_reads_all_example :
    wait decode utf8 ((noise ∷ []) ∷ seen_logs 3 (noise ∷ []) exit_batches) 0 handle
    ≡ outcome decode utf8 (read decode utf8 (noise ∷ concat exit_batches) handle)
wait_reads_all_example = wait_reads_all decode utf8 3 (noise ∷ []) exit_batches handle (omega arith)

abbrev full_log : List Event
full_log = noise ∷ noise ∷ noise ∷ []

full_log_is_deaf_example :
    (wait decode utf8 (full_log ∷ seen_logs 3 full_log exit_batches) 0 handle).0
    ≡ raised wait_timed_out
unfolding read
full_log_is_deaf_example = full_log_is_deaf decode utf8 3 full_log exit_batches handle refl refl
