-- ===== src/Protocol/Types/ThreadSettings.antt =====
-- probes/app-server-ts: thread settings, one definition for each file.
use codex_waiting_plgin.Protocol.Schema.{
  Ty, any, arr, bool, dict, lit, none_more, null_ty, obj, opt, req, str, ◌&◌, ◌∪◌,
}
use codex_waiting_plgin.Protocol.Types.Approvals.{turn_environment_params}
use codex_waiting_plgin.Protocol.Types.BasicRecords.{sub_agent_source}
use codex_waiting_plgin.Protocol.Types.Basics.{
  absolute_path_buf, multi_agent_mode, personality, selected_capability_root,
}
use codex_waiting_plgin.Protocol.Types.Config.{approvals_reviewer, ask_for_approval, sandbox_mode}
use codex_waiting_plgin.Protocol.Types.ItemRecords.{response_item}
use codex_waiting_plgin.Protocol.Types.ItemsBase.{dynamic_tool_spec}
use codex_waiting_plgin.Protocol.Types.Threads.{
  thread_history_mode, thread_source, thread_start_source,
}
use codex_waiting_plgin.Protocol.Types.TurnInputs.{thread_resume_initial_turns_page_params}

-- v2/ThreadStartParams.ts
abbrev pub thread_start_params : Ty
thread_start_params = obj (
    opt "model" (str ∪ null_ty)
    & opt "modelProvider" (str ∪ null_ty)
    & opt "allowProviderModelFallback" bool
    & opt "serviceTier" (str ∪ null_ty ∪ null_ty)
    & opt "cwd" (str ∪ null_ty)
    & opt "runtimeWorkspaceRoots" (arr absolute_path_buf ∪ null_ty)
    & opt "approvalPolicy" (ask_for_approval ∪ null_ty)
    & opt "approvalsReviewer" (approvals_reviewer ∪ null_ty)
    & opt "sandbox" (sandbox_mode ∪ null_ty)
    & opt "permissions" (str ∪ null_ty)
    & opt "config" (dict any ∪ null_ty)
    & opt "serviceName" (str ∪ null_ty)
    & opt "baseInstructions" (str ∪ null_ty)
    & opt "developerInstructions" (str ∪ null_ty)
    & opt "personality" (personality ∪ null_ty)
    & opt "multiAgentMode" (multi_agent_mode ∪ null_ty)
    & opt "ephemeral" (bool ∪ null_ty)
    & opt "historyMode" (thread_history_mode ∪ null_ty)
    & opt "sessionStartSource" (thread_start_source ∪ null_ty)
    & opt "threadSource" (thread_source ∪ null_ty)
    & opt "projectId" (str ∪ null_ty)
    & opt "environments" (arr turn_environment_params ∪ null_ty)
    & opt "dynamicTools" (arr dynamic_tool_spec ∪ null_ty)
    & opt "selectedCapabilityRoots" (arr selected_capability_root ∪ null_ty)
    & opt "mockExperimentalField" (str ∪ null_ty)
    & opt "experimentalRawEvents" bool
    & none_more)

-- v2/ThreadResumeParams.ts
abbrev pub thread_resume_params : Ty
thread_resume_params = obj (
    req "threadId" str
    & opt "history" (arr response_item ∪ null_ty)
    & opt "path" (str ∪ null_ty)
    & opt "model" (str ∪ null_ty)
    & opt "modelProvider" (str ∪ null_ty)
    & opt "serviceTier" (str ∪ null_ty ∪ null_ty)
    & opt "cwd" (str ∪ null_ty)
    & opt "runtimeWorkspaceRoots" (arr absolute_path_buf ∪ null_ty)
    & opt "approvalPolicy" (ask_for_approval ∪ null_ty)
    & opt "approvalsReviewer" (approvals_reviewer ∪ null_ty)
    & opt "sandbox" (sandbox_mode ∪ null_ty)
    & opt "permissions" (str ∪ null_ty)
    & opt "config" (dict any ∪ null_ty)
    & opt "baseInstructions" (str ∪ null_ty)
    & opt "developerInstructions" (str ∪ null_ty)
    & opt "personality" (personality ∪ null_ty)
    & opt "excludeTurns" bool
    & opt "initialTurnsPage" (thread_resume_initial_turns_page_params ∪ null_ty)
    & none_more)

-- v2/SessionSource.ts
abbrev pub session_source : Ty
session_source =
    lit "cli"
    ∪ lit "vscode"
    ∪ lit "exec"
    ∪ lit "appServer"
    ∪ obj (req "custom" str & none_more)
    ∪ obj (req "subAgent" sub_agent_source & none_more)
    ∪ lit "unknown"
