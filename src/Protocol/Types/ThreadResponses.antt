-- ===== src/Protocol/Types/ThreadResponses.antt =====
-- probes/app-server-ts: thread responses, one definition for each file.
use codex_waiting_plgin.Protocol.Schema.{
  Ty, arr, bool, none_more, null_ty, num, obj, req, str, ◌&◌, ◌∪◌,
}
use codex_waiting_plgin.Protocol.Types.Approvals.{sandbox_policy}
use codex_waiting_plgin.Protocol.Types.Apps.{legacy_app_path_string}
use codex_waiting_plgin.Protocol.Types.Basics.{absolute_path_buf, multi_agent_mode}
use codex_waiting_plgin.Protocol.Types.Config.{
  active_permission_profile, approvals_reviewer, ask_for_approval,
}
use codex_waiting_plgin.Protocol.Types.ItemsBase.{reasoning_effort}
use codex_waiting_plgin.Protocol.Types.ThreadSettings.{session_source}
use codex_waiting_plgin.Protocol.Types.Threads.{
  git_info, thread_extra, thread_history_mode, thread_section, thread_source, thread_status,
}
use codex_waiting_plgin.Protocol.Types.TurnRecords.{turn, turns_page}

-- v2/Thread.ts
abbrev pub thread : Ty
thread = obj (
    req "id" str
    & req "extra" (thread_extra ∪ null_ty)
    & req "sessionId" str
    & req "forkedFromId" (str ∪ null_ty)
    & req "parentThreadId" (str ∪ null_ty)
    & req "preview" str
    & req "ephemeral" bool
    & req "section" (thread_section ∪ null_ty)
    & req "sectionEnteredAt" (num ∪ null_ty)
    & req "projectId" (str ∪ null_ty)
    & req "historyMode" thread_history_mode
    & req "modelProvider" str
    & req "model" (str ∪ null_ty)
    & req "reasoningEffort" (reasoning_effort ∪ null_ty)
    & req "createdAt" num
    & req "updatedAt" num
    & req "recencyAt" (num ∪ null_ty)
    & req "status" thread_status
    & req "path" (str ∪ null_ty)
    & req "cwd" absolute_path_buf
    & req "cliVersion" str
    & req "source" session_source
    & req "canAcceptDirectInput" (bool ∪ null_ty)
    & req "threadSource" (thread_source ∪ null_ty)
    & req "agentNickname" (str ∪ null_ty)
    & req "agentRole" (str ∪ null_ty)
    & req "gitInfo" (git_info ∪ null_ty)
    & req "name" (str ∪ null_ty)
    & req "turns" (arr turn)
    & none_more)

-- v2/ThreadStartResponse.ts
abbrev pub thread_start_response : Ty
thread_start_response = obj (
    req "thread" thread
    & req "model" str
    & req "modelProvider" str
    & req "serviceTier" (str ∪ null_ty)
    & req "cwd" absolute_path_buf
    & req "runtimeWorkspaceRoots" (arr absolute_path_buf)
    & req "instructionSources" (arr legacy_app_path_string)
    & req "approvalPolicy" ask_for_approval
    & req "approvalsReviewer" approvals_reviewer
    & req "sandbox" sandbox_policy
    & req "activePermissionProfile" (active_permission_profile ∪ null_ty)
    & req "reasoningEffort" (reasoning_effort ∪ null_ty)
    & req "multiAgentMode" multi_agent_mode
    & none_more)

-- v2/ThreadResumeResponse.ts
abbrev pub thread_resume_response : Ty
thread_resume_response = obj (
    req "thread" thread
    & req "model" str
    & req "modelProvider" str
    & req "serviceTier" (str ∪ null_ty)
    & req "cwd" absolute_path_buf
    & req "runtimeWorkspaceRoots" (arr absolute_path_buf)
    & req "instructionSources" (arr legacy_app_path_string)
    & req "approvalPolicy" ask_for_approval
    & req "approvalsReviewer" approvals_reviewer
    & req "sandbox" sandbox_policy
    & req "activePermissionProfile" (active_permission_profile ∪ null_ty)
    & req "reasoningEffort" (reasoning_effort ∪ null_ty)
    & req "multiAgentMode" multi_agent_mode
    & req "initialTurnsPage" (turns_page ∪ null_ty)
    & req "turnsBackwardsCursor" (str ∪ null_ty)
    & req "itemsBackwardsCursor" (str ∪ null_ty)
    & none_more)

-- v2/ThreadStartedNotification.ts
abbrev pub thread_started_notification : Ty
thread_started_notification = obj (req "thread" thread & none_more)
