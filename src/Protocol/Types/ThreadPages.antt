-- ===== src/Protocol/Types/ThreadPages.antt =====
-- probes/app-server-ts: thread pages, one definition for each file.
use codex_waiting_plgin.Protocol.Schema.{Ty, none_more, null_ty, obj, req, str, ◌&◌, ◌∪◌}
use codex_waiting_plgin.Protocol.Types.Approvals.{sandbox_policy}
use codex_waiting_plgin.Protocol.Types.Basics.{absolute_path_buf, multi_agent_mode, personality}
use codex_waiting_plgin.Protocol.Types.Config.{
  active_permission_profile, approvals_reviewer, ask_for_approval,
}
use codex_waiting_plgin.Protocol.Types.ItemsBase.{reasoning_effort, reasoning_summary}
use codex_waiting_plgin.Protocol.Types.ThreadItems.{collaboration_mode}

-- v2/ThreadSettings.ts
abbrev pub thread_settings : Ty
thread_settings = obj (
    req "cwd" absolute_path_buf
    & req "approvalPolicy" ask_for_approval
    & req "approvalsReviewer" approvals_reviewer
    & req "sandboxPolicy" sandbox_policy
    & req "activePermissionProfile" (active_permission_profile ∪ null_ty)
    & req "model" str
    & req "modelProvider" str
    & req "serviceTier" (str ∪ null_ty)
    & req "effort" (reasoning_effort ∪ null_ty)
    & req "summary" (reasoning_summary ∪ null_ty)
    & req "collaborationMode" collaboration_mode
    & req "multiAgentMode" multi_agent_mode
    & req "personality" (personality ∪ null_ty)
    & none_more)

-- v2/ThreadSettingsUpdatedNotification.ts
abbrev pub thread_settings_updated_notification : Ty
thread_settings_updated_notification =
    obj (req "threadId" str & req "threadSettings" thread_settings & none_more)
