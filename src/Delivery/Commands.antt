-- ===== src/Delivery/Commands.antt =====
-- The calls that an operator can make of the delivery controller, in any order.
use codex_waiting_plgin.Delivery.{
  deliver_manual, resume_cli, Digests, acknowledge, CliRun, retry, Job,
}
use codex_waiting_plgin.Prelude.{String, Bool, ℤ, List, false, true, Option, ◌∷◌, []}

pub data Command : Type 0 where
  deliver : String → Bool → Command
  resume : String → String → ℤ → Bool → CliRun → Command
  ack : String → Option String → Command
  again : String → Bool → Command

-- The directory after a call, whether it returned or raised; the first text is the time.
unfoldable pub perform : Digests → String → Command → Job → Job
unfolding deliver_manual resume_cli acknowledge retry
perform d job_id (deliver now dup) j = (deliver_manual d now job_id dup j).1
perform d job_id (resume now session timeout dup run) j =
    (resume_cli d now job_id session timeout dup run j).1
perform d job_id (ack now event) j = (acknowledge now event j).1
perform d job_id (again now dup) j = (retry now dup j).1

unfoldable pub perform_all : Digests → String → List Command → Job → Job
perform_all d job_id [] j = j
perform_all d job_id (c ∷ cs) j = perform_all d job_id cs (perform d job_id c j)

-- Whether a call carries the explicit permission for a duplicate.
abbrev pub permits : Command → Bool
permits (deliver now dup) = dup
permits (resume now session timeout dup run) = dup
permits (ack now event) = false
permits (again now dup) = dup

abbrev pub is_ack : Command → Bool
is_ack (ack now event) = true
is_ack _ = false
