-- ===== src/Store/Records.antt =====
-- snooze_core/models.py, git_fingerprint.py: what the files of a job directory hold. Times, UUIDs and
-- digests are texts; the modules that make them are the arguments of the operations.
use codex_waiting_plgin.Prelude.{
  ℕ, ℤ, String, Bool, true, false, Option, none, some, ◌==◌, not, ◌||◌, if◌then◌else◌, option_eq,
}
use codex_waiting_plgin.Store.States.{ExecutionState, DeliveryState, LoggingState, fine}

-- `JobSpec`.
pub record JobSpec : Type 0 where
  pub schema_version : ℕ
  pub job_id : String
  pub command : String
  pub cwd : String
  pub shell : String

-- `ProcessIdentity`.
pub record ProcessIdentity : Type 0 where
  pub pid : ℕ
  pub pgid : Option ℕ
  pub start_time : Option String
  pub executable : Option String
  pub command_fingerprint : Option String

-- The dictionary that `fingerprint` returns.
pub record Fingerprint : Type 0 where
  pub kind : String
  pub root : Option String
  pub head : Option String
  pub branch : Option String
  pub status_porcelain_v2_hash : Option String
  pub untracked_files_manifest_hash : Option String
  pub index_diff_hash : Option String
  pub working_tree_diff_hash : Option String

-- `LogInfo`, with its default values.
pub record LogInfo : Type 0 where
  pub stdout_bytes : ℕ
  pub stderr_bytes : ℕ
  pub combined_bytes : ℕ
  pub stdout_truncated : Bool
  pub stderr_truncated : Bool
  pub combined_truncated : Bool
  pub preview_truncated : Bool
  pub state : LoggingState

abbrev pub empty_log_info : LogInfo
empty_log_info = record {
  stdout_bytes = 0;
  stderr_bytes = 0;
  combined_bytes = 0;
  stdout_truncated = false;
  stderr_truncated = false;
  combined_truncated = false;
  preview_truncated = false;
  state = fine;
}

-- The object in metadata.json.
pub record Metadata : Type 0 where
  pub job_id : String
  pub spec_sha256 : String
  pub command : String
  pub cwd : String
  pub shell : String
  pub execution_state : ExecutionState
  pub result_state : Option String
  pub supervisor_pid : Option ℕ
  pub supervisor_identity : Option ProcessIdentity
  pub pid : Option ℕ
  pub process_group : Option ℕ
  pub start_time : Option String
  pub finish_time : Option String
  pub exit_code : Option ℕ
  pub termination_signal : Option ℕ
  pub process_identity : Option ProcessIdentity
  pub project_fingerprint_start : Option Fingerprint
  pub project_fingerprint_end : Option Fingerprint
  pub stale : Option Bool
  pub logging : LogInfo
  pub error_code : Option String
  pub error_message : Option String
  pub cancellation_requested_at : Option String
  pub created_at : String
  pub updated_at : String

-- `Result`, the object in result.json; `duration_seconds` is a text here, since nothing computes with it.
pub record Result : Type 0 where
  pub schema_version : ℕ
  pub job_id : String
  pub spec_sha256 : String
  pub execution_state : ExecutionState
  pub result_state : String
  pub exit_code : Option ℕ
  pub termination_signal : Option ℕ
  pub started_at : Option String
  pub completed_at : Option String
  pub duration_seconds : Option String
  pub process_identity : Option ProcessIdentity
  pub project_fingerprint_start : Option Fingerprint
  pub project_fingerprint_end : Option Fingerprint
  pub source_state_changed : Option Bool
  pub logging : LogInfo
  pub log_preview : String
  pub completion_event_id : String
  pub result_sha256 : Option String
  pub error_code : Option String
  pub error_message : Option String

-- `Delivery`, the object in delivery.json; the updates of the store add `updated_at`.
pub record Delivery : Type 0 where
  pub schema_version : ℕ
  pub job_id : String
  pub completion_event_id : Option String
  pub result_sha256 : Option String
  pub state : DeliveryState
  pub attempts : ℕ
  pub last_attempt_at : Option String
  pub acked_at : Option String
  pub transport : Option String
  pub remote_marker : Option String
  pub error_code : Option String
  pub error_message : Option String
  pub updated_at : Option String

-- `Delivery(...)` with the default values of the fields that are not given.
abbrev pub new_delivery : String → Option String → Option String → DeliveryState → Delivery
new_delivery job event digest s = record {
  schema_version = 1;
  job_id = job;
  completion_event_id = event;
  result_sha256 = digest;
  state = s;
  attempts = 0;
  last_attempt_at = none;
  acked_at = none;
  transport = none;
  remote_marker = none;
  error_code = none;
  error_message = none;
  updated_at = none;
}

-- delivery_payload.json, the dictionary of `_event_payload` with its `transport`. Its `result_path`,
-- the path of result.json, is left out: nothing compares it.
pub record Payload : Type 0 where
  pub schema_version : ℕ
  pub event_id : String
  pub job_id : String
  pub result_sha256 : Option String
  pub completed_at : Option String
  pub execution_state : ExecutionState
  pub result_state : String
  pub exit_code : Option ℕ
  pub termination_signal : Option ℕ
  pub duration_seconds : Option String
  pub source_state_changed : Option Bool
  pub log_preview : String
  pub transport : String

-- delivery_attempt.json, the evidence of one `codex exec resume`; the tails of its output are left out.
pub record Attempt : Type 0 where
  pub transport : String
  pub session_id : String
  pub returncode : Option ℤ
  pub error_code : Option String
  pub error_message : Option String
  pub at : String

-- A file: it is not there, cannot be parsed as its object, or holds a value.
pub data File (A : Type 0) : Type 0 where
  missing : File A
  unreadable : File A
  holds : A → File A

-- A job directory.
pub record Job : Type 0 where
  pub spec : File JobSpec
  pub metadata : File Metadata
  pub result : File Result
  pub delivery : File Delivery
  pub payload : File Payload
  pub attempt : File Attempt

-- `hashlib.sha256` over `canonical_json`, of a specification and of a result.
pub record Digests : Type 0 where
  pub spec_sha256 : JobSpec → String
  pub result_sha256 : Result → String

-- `changed` of git_fingerprint.py.
unfoldable pub changed : Option Fingerprint → Option Fingerprint → Bool
changed none end = false
changed (some s) none = false
changed (some s) (some e) =
    if not (s.kind == e.kind)
    then true
    else if not (s.kind == "GIT")
    then false
    else not (option_eq s.root e.root)
      || not (option_eq s.head e.head)
      || not (option_eq s.branch e.branch)
      || not (option_eq s.status_porcelain_v2_hash e.status_porcelain_v2_hash)
      || not (option_eq s.untracked_files_manifest_hash e.untracked_files_manifest_hash)
      || not (option_eq s.index_diff_hash e.index_diff_hash)
      || not (option_eq s.working_tree_diff_hash e.working_tree_diff_hash)
