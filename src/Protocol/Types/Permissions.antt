-- ===== src/Protocol/Types/Permissions.antt =====
-- probes/app-server-ts: permissions, one definition for each file.
use codex_waiting_plgin.Protocol.Schema.{
  Ty, arr, none_more, null_ty, num, obj, opt, req, str, ◌&◌, ◌∪◌,
}
use codex_waiting_plgin.Protocol.Types.Approvals.{additional_permission_profile}
use codex_waiting_plgin.Protocol.Types.Apps.{legacy_app_path_string}
use codex_waiting_plgin.Protocol.Types.Config.{
  command_execution_approval_decision, command_execution_approval_kind, exec_policy_amendment,
  network_approval_context, network_policy_amendment,
}
use codex_waiting_plgin.Protocol.Types.ItemRecords.{command_action}

-- v2/CommandExecutionRequestApprovalParams.ts
abbrev pub command_execution_request_approval_params : Ty
command_execution_request_approval_params = obj (
    req "kind" command_execution_approval_kind
    & req "threadId" str
    & req "turnId" str
    & req "itemId" str
    & req "startedAtMs" num
    & opt "approvalId" (str ∪ null_ty)
    & req "environmentId" (str ∪ null_ty)
    & opt "reason" (str ∪ null_ty)
    & opt "networkApprovalContext" (network_approval_context ∪ null_ty)
    & opt "command" (str ∪ null_ty)
    & opt "cwd" (legacy_app_path_string ∪ null_ty)
    & opt "commandActions" (arr command_action ∪ null_ty)
    & opt "additionalPermissions" (additional_permission_profile ∪ null_ty)
    & opt "proposedExecpolicyAmendment" (exec_policy_amendment ∪ null_ty)
    & opt "proposedNetworkPolicyAmendments" (arr network_policy_amendment ∪ null_ty)
    & opt "availableDecisions" (arr command_execution_approval_decision ∪ null_ty)
    & none_more)
