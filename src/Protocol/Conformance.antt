-- ===== src/Protocol/Conformance.antt =====
-- Which requests of the controller belong to the types of the App Server.
use codex_waiting_plgin.Prelude.{
  true, refl, ◌≡◌, Option, List, false, String, ◌&&◌, ◌∷◌, [], ℕ, some, none, Bool, arith,
}
use codex_waiting_plgin.Protocol.Types.ThreadSettings.{thread_start_params, thread_resume_params}
use codex_waiting_plgin.Protocol.Schema.{conforms, str, optional, ◌∪◌, null_ty, arr}
use codex_waiting_plgin.Protocol.Json.{Json, all_items, text, object, member, boolean, end}
use codex_waiting_plgin.Protocol.Types.ItemsBase.{dynamic_tool_spec}
use codex_waiting_plgin.Protocol.Requests.{
  handoff_exec_params, create_thread_params, interrupt_turn_params, start_turn_params, spawn_params,
  text_of, texts, resume_thread_params, nonempty, given,
}
use codex_waiting_plgin.Protocol.Types.ThreadItems.{command_exec_params}
use codex_waiting_plgin.Protocol.Types.Config.{sandbox_mode, ask_for_approval}
use codex_waiting_plgin.Protocol.Types.Approvals.{sandbox_policy}
use codex_waiting_plgin.Protocol.Types.TurnRecords.{turn_start_params}
use codex_waiting_plgin.Protocol.Types.ItemRecords.{process_spawn_params}
use codex_waiting_plgin.Protocol.Types.Turns.{turn_interrupt_params}

texts_conform : (l : List String) → all_items (conforms str) (texts l) ≡ true
unfolding conforms
texts_conform [] = refl
texts_conform (s ∷ r) = texts_conform r

pub and_true : (b : Bool) → (b && true) ≡ b
and_true true = refl
and_true false = refl

-- `create_thread_conforms`, the model already tested.
create_thread_cases :
    (cwd : String) (sandbox : Option String) (approval : Option Json)
    (model instructions : Option String) (tools : Option Json)
    → conforms thread_start_params (
        object (
          member "cwd" (text cwd) (
            member "ephemeral" (boolean false) (
              given "sandbox" (text_of sandbox) (
                given "approvalPolicy" approval (
                  given "model" (text_of model) (
                    given "developerInstructions"
                      (text_of instructions)
                      (given "dynamicTools" tools end))))))))
      ≡ (optional (conforms (ask_for_approval ∪ null_ty)) approval
          && (optional (conforms (sandbox_mode ∪ null_ty)) (text_of sandbox)
              && optional (conforms (arr dynamic_tool_spec ∪ null_ty)) tools))
unfolding conforms
create_thread_cases cwd none none none none none = refl
create_thread_cases cwd none none none none (some t) = simp and_true
create_thread_cases cwd none none none (some i) none = refl
create_thread_cases cwd none none none (some i) (some t) = simp and_true
create_thread_cases cwd none none (some m) none none = refl
create_thread_cases cwd none none (some m) none (some t) = simp and_true
create_thread_cases cwd none none (some m) (some i) none = refl
create_thread_cases cwd none none (some m) (some i) (some t) = simp and_true
create_thread_cases cwd none (some a) none none none = refl
create_thread_cases cwd none (some a) none none (some t) = simp and_true
create_thread_cases cwd none (some a) none (some i) none = refl
create_thread_cases cwd none (some a) none (some i) (some t) = simp and_true
create_thread_cases cwd none (some a) (some m) none none = refl
create_thread_cases cwd none (some a) (some m) none (some t) = simp and_true
create_thread_cases cwd none (some a) (some m) (some i) none = refl
create_thread_cases cwd none (some a) (some m) (some i) (some t) = simp and_true
create_thread_cases cwd (some s) none none none none = refl
create_thread_cases cwd (some s) none none none (some t) = simp and_true
create_thread_cases cwd (some s) none none (some i) none = refl
create_thread_cases cwd (some s) none none (some i) (some t) = simp and_true
create_thread_cases cwd (some s) none (some m) none none = refl
create_thread_cases cwd (some s) none (some m) none (some t) = simp and_true
create_thread_cases cwd (some s) none (some m) (some i) none = refl
create_thread_cases cwd (some s) none (some m) (some i) (some t) = simp and_true
create_thread_cases cwd (some s) (some a) none none none = refl
create_thread_cases cwd (some s) (some a) none none (some t) = simp and_true
create_thread_cases cwd (some s) (some a) none (some i) none = refl
create_thread_cases cwd (some s) (some a) none (some i) (some t) = simp and_true
create_thread_cases cwd (some s) (some a) (some m) none none = refl
create_thread_cases cwd (some s) (some a) (some m) none (some t) = simp and_true
create_thread_cases cwd (some s) (some a) (some m) (some i) none = refl
create_thread_cases cwd (some s) (some a) (some m) (some i) (some t) = simp and_true

-- The parameters of `create_thread` belong to ThreadStartParams exactly where the sandbox is a
-- SandboxMode, the approval policy an AskForApproval or null, and the tools a list of
-- DynamicToolSpec or null; the other arguments may be any.
pub create_thread_conforms :
    (cwd : String) (sandbox : Option String) (approval : Option Json)
    (model instructions : Option String) (tools : Option Json)
    → conforms thread_start_params
        (create_thread_params cwd sandbox approval model instructions tools)
      ≡ (optional (conforms (ask_for_approval ∪ null_ty)) approval
          && (optional (conforms (sandbox_mode ∪ null_ty)) (text_of sandbox)
              && optional (conforms (arr dynamic_tool_spec ∪ null_ty)) tools))
unfolding create_thread_params
create_thread_conforms cwd sandbox approval model instructions tools =
    create_thread_cases cwd sandbox approval (nonempty model) instructions tools

-- The parameters of `resume_thread` always belong to ThreadResumeParams.
pub resume_thread_conforms :
    (thread_id : String) (cwd : Option String)
    → conforms thread_resume_params (resume_thread_params thread_id cwd) ≡ true
unfolding resume_thread_params conforms
resume_thread_conforms thread_id cwd = ground arith

-- The parameters of `start_turn` belong to TurnStartParams exactly where the approval policy, if one
-- is given, is an AskForApproval or null, and the sandbox policy a SandboxPolicy or null.
pub start_turn_conforms :
    (thread_id words message_id : String) (cwd : Option String) (approval policy : Option Json)
    → conforms turn_start_params (start_turn_params thread_id words message_id cwd approval policy)
      ≡ (optional (conforms (ask_for_approval ∪ null_ty)) approval
          && optional (conforms (sandbox_policy ∪ null_ty)) policy)
unfolding start_turn_params conforms
start_turn_conforms thread_id words message_id none none none = refl
start_turn_conforms thread_id words message_id none none (some p) = simp and_true
start_turn_conforms thread_id words message_id none (some a) none = refl
start_turn_conforms thread_id words message_id none (some a) (some p) = simp and_true
start_turn_conforms thread_id words message_id (some c) none none = refl
start_turn_conforms thread_id words message_id (some c) none (some p) = simp and_true
start_turn_conforms thread_id words message_id (some c) (some a) none = refl
start_turn_conforms thread_id words message_id (some c) (some a) (some p) = simp and_true

-- The parameters of `interrupt_turn` always belong to TurnInterruptParams.
pub interrupt_turn_conforms :
    (thread_id turn_id : String)
    → conforms turn_interrupt_params (interrupt_turn_params thread_id turn_id) ≡ true
unfolding interrupt_turn_params conforms
interrupt_turn_conforms thread_id turn_id = refl

-- The request that runs the handoff launcher belongs to CommandExecParams exactly where its sandbox
-- policy is a SandboxPolicy or null.
pub handoff_exec_conforms :
    (launch : List String) (cwd : String) (policy : Json)
    → conforms command_exec_params (handoff_exec_params launch cwd policy)
      ≡ conforms (sandbox_policy ∪ null_ty) policy
unfolding handoff_exec_params conforms
handoff_exec_conforms launch cwd policy =
    rw (texts_conform launch) (and_true (conforms (sandbox_policy ∪ null_ty) policy))

-- The parameters of `process/spawn` always belong to ProcessSpawnParams.
pub spawn_conforms :
    (command : List String) (cwd process_id : String) (timeout_ms : Option ℕ) (stream : Bool)
    (cap : ℕ)
    → conforms process_spawn_params (spawn_params command cwd process_id timeout_ms stream cap)
      ≡ true
unfolding spawn_params conforms
spawn_conforms command cwd process_id none stream cap = rw (texts_conform command) refl
spawn_conforms command cwd process_id (some n) stream cap = rw (texts_conform command) refl
