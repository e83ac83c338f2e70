-- ===== src/Ownership.antt =====
-- snooze_controller/v05_backend.py: selection of a backend, command evidence, and the ledger that
-- records the owner of each job.
pub mod Selection
pub mod Entries
pub mod Traces
use codex_waiting_plgin.Prelude.{
  if◌then◌else◌, not, ◌∷◌, false, some, ◌&&◌, true, none, nat_eq, is_some, ℕ, ◌==◌, [], option_eq,
  ◌||◌, Bool, String, List, Option, ◌*◌,
}
use codex_waiting_plgin.Prelude.Exec.{ok, modify, pure, Exec, raise_if, raised, ◌>>◌}
use codex_waiting_plgin.Prelude.Dict.{Dict, get, put}

-- `V05Backend`.
pub data Backend : Type 0 where
  thread_native_terminal descendant_supervisor controller_command_exec cli_resume_fallback : Backend

-- `OwnershipState`.
pub data OwnershipState : Type 0 where
  foreground handoff_pending native_background supervisor_background completing completed failed :
      OwnershipState

abbrev backend_index : Backend → ℕ
backend_index thread_native_terminal = 0
backend_index descendant_supervisor = 1
backend_index controller_command_exec = 2
backend_index cli_resume_fallback = 3

abbrev state_index : OwnershipState → ℕ
state_index foreground = 0
state_index handoff_pending = 1
state_index native_background = 2
state_index supervisor_background = 3
state_index completing = 4
state_index OwnershipState.completed = 5
state_index OwnershipState.failed = 6

abbrev pub backend_eq : Backend → Backend → Bool
backend_eq a b = nat_eq (backend_index a) (backend_index b)

abbrev pub ownership_eq : OwnershipState → OwnershipState → Bool
ownership_eq a b = nat_eq (state_index a) (state_index b)

-- `target in OWNERSHIP_TRANSITIONS[current]`.
abbrev pub ownership_transitions : OwnershipState → OwnershipState → Bool
ownership_transitions foreground handoff_pending = true
ownership_transitions foreground OwnershipState.failed = true
ownership_transitions handoff_pending native_background = true
ownership_transitions handoff_pending supervisor_background = true
ownership_transitions handoff_pending completing = true
ownership_transitions handoff_pending OwnershipState.failed = true
ownership_transitions native_background completing = true
ownership_transitions native_background OwnershipState.failed = true
ownership_transitions supervisor_background completing = true
ownership_transitions supervisor_background OwnershipState.failed = true
ownership_transitions completing OwnershipState.completed = true
ownership_transitions completing OwnershipState.failed = true
ownership_transitions _ _ = false

-- `PendingHandoff`, and the record of the ledger, which adds the two times; the threshold, a number of
-- seconds, is a text here.
pub record PendingHandoff : Type 0 where
  pub handoff_id : String
  pub job_id : String
  pub thread_id : String
  pub turn_id : String
  pub expected_command_sha256 : String
  pub threshold_seconds : String
  pub backend : Backend
  pub state : OwnershipState

pub record Entry : Type 0 where
  pub handoff : PendingHandoff
  pub open handoff use *
  pub created_at : String
  pub updated_at : String

-- The object `jobs` of the ledger's file.
abbrev pub Ledger : Type 0
Ledger = Dict Entry

-- `KeyError`, and the `ValueError`s by their messages.
pub data OwnershipError : Type 0 where
  unknown_job already_recorded swap_failed invalid_transition : OwnershipError
  backend_required backend_mismatch record_mismatch owner_changed : OwnershipError

-- `OwnershipLedger.create`.
unfoldable pub create : String → PendingHandoff → Exec OwnershipError Ledger Entry
create now h l =
    (do
      raise_if (is_some (get h.job_id l)) already_recorded
      let e : Entry = record { handoff = h; created_at = now; updated_at = now }
      modify (put h.job_id e)
      pure e)
      l

-- The backend that a background state belongs to.
abbrev expected_backend : OwnershipState → Option Backend
expected_backend native_background = some thread_native_terminal
expected_backend supervisor_background = some descendant_supervisor
expected_backend _ = none

-- The tests of the block for the background states.
abbrev background_error : Entry → Option Backend → Option Backend → Option OwnershipError
background_error e none backend = none
background_error e (some x) none = some backend_required
background_error e (some x) (some b) =
    if not (backend_eq b x)
    then some backend_mismatch
    else if not (backend_eq e.backend b)
    then some record_mismatch
    else none

abbrev owner_error : Entry → Option Backend → Option OwnershipError
owner_error e none = none
owner_error e (some b) = if not (backend_eq e.backend b) then some owner_changed else none

-- All the tests of `transition`, in their order.
abbrev transition_error :
    Entry → OwnershipState → OwnershipState → Option Backend → Option OwnershipError
transition_error e expected target backend =
    if not (ownership_eq e.state expected)
    then some swap_failed
    else if not (ownership_eq target e.state) && not (ownership_transitions e.state target)
    then some invalid_transition
    else elim (background_error e (expected_backend target) backend) [
      | some x ↦ some x
      | none ↦ owner_error e backend
    ]

abbrev moved : String → OwnershipState → Entry → Entry
moved now target e = record {
  handoff = record e.handoff { state = target };
  created_at = e.created_at;
  updated_at = now;
}

abbrev try_transition :
    String
    → String
    → OwnershipState
    → OwnershipState
    → Option Backend
    → Option Entry
    → Exec OwnershipError Ledger Entry
try_transition now job_id expected target backend none l = (raised unknown_job, l)
try_transition now job_id expected target backend (some e) l =
    elim (transition_error e expected target backend) [
      | some x ↦ (raised x, l)
      | none ↦ (ok (moved now target e), put job_id (moved now target e) l)
    ]

-- `OwnershipLedger.transition`: the file is written only where every test passes.
unfoldable pub transition :
    String
    → String
    → OwnershipState
    → OwnershipState
    → Option Backend
    → Exec OwnershipError Ledger Entry
transition now job_id expected target backend l =
    try_transition now job_id expected target backend (get job_id l) l

-- The keys of the evidence that both candidates need.
abbrev pub required_evidence : List String
required_evidence =
    "status" ∷ "sandbox_parity" ∷ "approval_parity" ∷ "handoff_10s" ∷ "job_survival" ∷ "model_idle"
    ∷ "auto_continuation" ∷ "command_integrity" ∷ []

-- `security_ready` of every key; a missing key is the text `None`, which is not PASS.
abbrev pub ready : (String → Option String) → List String → Bool
ready evidence [] = true
ready evidence (k ∷ ks) = option_eq (evidence k) (some "PASS") && ready evidence ks

-- `select_backend`, of the evidence for the two candidates.
unfoldable pub select_backend : (String → Option String) → (String → Option String) → Backend
select_backend native descendant =
    if ready native required_evidence
    then thread_native_terminal
    else if ready descendant required_evidence
    then descendant_supervisor
    else cli_resume_fallback

-- `command_integrity`: the digests of the three commands, by a digest that is given, and the status.
pub data Status : Type 0 where
  pass unknown fail : Status

abbrev pub CommandHash : Type 0
CommandHash = String → String

abbrev digest_of : CommandHash → Option String → Option String
digest_of sha256 none = none
digest_of sha256 (some c) = if c == "" then none else some (sha256 c)

pub record Integrity : Type 0 where
  pub requested : String
  pub observed : Option String
  pub executed : Option String
  pub status : Status
  pub approval_semantics_proven : Bool

-- `none` where `command_sha256` raises, on an empty requested command.
unfoldable pub command_integrity :
    CommandHash → String → Option String → Option String → Option Integrity
command_integrity sha256 requested observed executed =
    if requested == ""
    then none
    else some (record {
      requested = sha256 requested;
      observed = digest_of sha256 observed;
      executed = digest_of sha256 executed;
      status =
          if option_eq observed (some requested) && option_eq executed (some requested)
          then pass
          else if not (is_some observed) || not (is_some executed)
          then unknown
          else fail;
      approval_semantics_proven = false;
    })
