-- ===== src/Gate.antt =====
-- snooze_controller/gate.py: routing by measured capabilities. A dictionary of texts is a function.
pub mod Safety
use codex_waiting_plgin.Prelude.{
  false, option_eq, some, none, Option, [], ◌==◌, if◌then◌else◌, ◌&&◌, Bool, String, not, true,
  ◌||◌, List, ◌∷◌,
}

abbrev pub Flags : Type 0
Flags = String → Option String

-- `flags.get(name) == status`.
abbrev pub has : Flags → String → String → Bool
has flags name status = option_eq (flags name) (some status)

pub data Mode : Type 0 where
  app_server_direct app_server_partial cli_resume_fallback manual_delivery : Mode

abbrev pub direct_required : List String
direct_required =
    "app_server_control" ∷ "desktop_ui_integration" ∷ "sandbox_preserved" ∷ "approval_preserved"
    ∷ "turn_interrupt" ∷ "busy_thread_delivery" ∷ "job_survives_interrupt"
    ∷ "automatic_completion_delivery" ∷ []

abbrev pub all_pass : Flags → List String → Bool
all_pass flags [] = true
all_pass flags (name ∷ names) = has flags name "PASS" && all_pass flags names

-- `choose_control_plane`.
unfoldable pub choose_control_plane : Flags → Mode
choose_control_plane flags =
    if all_pass flags direct_required
    then app_server_direct
    else if has flags "app_server_control" "PASS"
        && (has flags "turn_interrupt" "PASS" || has flags "turn_interrupt" "PARTIAL")
    then app_server_partial
    else if has flags "conversation_history_shared" "PASS" && has flags "cli_resume" "PASS"
    then cli_resume_fallback
    else manual_delivery

-- An item of the list `capabilities`: its name, its status, and the observations that are `True`.
pub record Capability : Type 0 where
  pub name : String
  pub status : Option String
  pub observed : String → Bool

-- The dictionary that the comprehension builds: the last item of a name counts, and one with an empty
-- name is left out.
abbrev pub find : String → List Capability → Option Capability
find n [] = none
find n (c ∷ cs) =
    let later = find n cs in
    elim later [
      | some x ↦ some x
      | none ↦ if c.name == n && not (c.name == "") then some c else none
    ]

abbrev pub passes : Option Capability → Bool
passes none = false
passes (some c) = option_eq c.status (some "PASS")

abbrev pub saw : Option Capability → String → Bool
saw none key = false
saw (some c) key = c.observed key

-- `choose_architecture`.
unfoldable pub choose_architecture : List Capability → Mode
choose_architecture cs =
    let resume = find "codex_exec_resume" cs in
    if saw resume "desktop_ui_same_thread"
      && saw resume "sandbox_policy_restored"
      && saw resume "approval_policy_restored"
      && passes (find "busy_thread_delivery" cs)
      && passes (find "turn_interrupt" cs)
      && passes (find "snooze_turn_interrupt_survival" cs)
    then app_server_direct
    else if passes resume && saw resume "conversation_history_restored"
    then cli_resume_fallback
    else manual_delivery
