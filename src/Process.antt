-- ===== src/Process.antt =====
-- snooze_core/process_identity.py. What `ps`, `getpgid` and `kill(pid, 0)` answer is the host's.
use codex_waiting_plgin.Prelude.{
  String, nat_eq, ◌&&◌, ℕ, Option, false, none, true, Bool, ◌||◌, some, option_eq, not,
}
use codex_waiting_plgin.Store.Records.{ProcessIdentity}

-- `process_identity(pid)` and `process_exists(pid)` at the moment of a call.
pub record Host : Type 0 where
  pub process_identity : ℕ → ProcessIdentity
  pub process_exists : ℕ → Bool

-- `expected is not None and current != expected`, negated.
abbrev text_agrees : Option String → Option String → Bool
text_agrees none current = true
text_agrees (some e) current = option_eq current (some e)

abbrev number_agrees : Option ℕ → Option ℕ → Bool
number_agrees none current = true
number_agrees (some e) none = false
number_agrees (some e) (some c) = nat_eq c e

abbrev matches : Bool → ProcessIdentity → ProcessIdentity → Bool
matches include_command expected current =
    nat_eq current.pid expected.pid
    && number_agrees expected.pgid current.pgid
    && text_agrees expected.start_time current.start_time
    && (not include_command || text_agrees expected.command_fingerprint current.command_fingerprint)

-- `identity_matches`.
unfoldable pub identity_matches : Host → Bool → ProcessIdentity → Bool
identity_matches host include_command expected =
    matches include_command expected (host.process_identity expected.pid)
