-- ===== src/Protocol/Types/Approvals.antt =====
-- probes/app-server-ts: approvals, one definition for each file.
use codex_waiting_plgin.Protocol.Schema.{
  Ty, arr, bool, dict, lit, none_more, null_ty, num, obj, opt, req, str, ◌&◌, ◌∪◌,
}
use codex_waiting_plgin.Protocol.Types.Account.{guardian_user_authorization}
use codex_waiting_plgin.Protocol.Types.Apps.{legacy_app_path_string}
use codex_waiting_plgin.Protocol.Types.Basics.{
  absolute_path_buf, auto_review_decision_source, file_change,
}
use codex_waiting_plgin.Protocol.Types.Config.{
  additional_network_permissions, file_system_access_mode, guardian_approval_review_status,
  guardian_command_source, guardian_risk_level, network_access, network_approval_protocol,
}
use codex_waiting_plgin.Protocol.Types.Items.{parsed_command}
use codex_waiting_plgin.Protocol.Types.Threads.{thread_id}
use codex_waiting_plgin.Protocol.Types.Turns.{text_range}

-- v2/TurnEnvironmentParams.ts
abbrev pub turn_environment_params : Ty
turn_environment_params = obj (
    req "environmentId" str
    & req "cwd" legacy_app_path_string
    & opt "runtimeWorkspaceRoots" (arr legacy_app_path_string ∪ null_ty)
    & none_more)

-- v2/SandboxPolicy.ts
abbrev pub sandbox_policy : Ty
sandbox_policy =
    obj (req "type" (lit "dangerFullAccess") & none_more)
    ∪ obj (req "type" (lit "readOnly") & req "networkAccess" bool & none_more)
    ∪ obj (req "type" (lit "externalSandbox") & req "networkAccess" network_access & none_more)
    ∪ obj (
        req "type" (lit "workspaceWrite")
        & req "writableRoots" (arr absolute_path_buf)
        & req "networkAccess" bool
        & req "excludeTmpdirEnvVar" bool
        & req "excludeSlashTmp" bool
        & none_more)

-- ApplyPatchApprovalParams.ts
abbrev pub apply_patch_approval_params : Ty
apply_patch_approval_params = obj (
    req "conversationId" thread_id
    & req "callId" str
    & req "fileChanges" (dict file_change)
    & req "reason" (str ∪ null_ty)
    & req "grantRoot" (str ∪ null_ty)
    & none_more)

-- ExecCommandApprovalParams.ts
abbrev pub exec_command_approval_params : Ty
exec_command_approval_params = obj (
    req "conversationId" thread_id
    & req "callId" str
    & req "approvalId" (str ∪ null_ty)
    & req "command" (arr str)
    & req "cwd" str
    & req "reason" (str ∪ null_ty)
    & req "parsedCmd" (arr parsed_command)
    & none_more)

-- v2/FileSystemSpecialPath.ts
abbrev pub file_system_special_path : Ty
file_system_special_path =
    obj (req "kind" (lit "root") & none_more)
    ∪ obj (req "kind" (lit "minimal") & none_more)
    ∪ obj (
        req "kind" (lit "project_roots")
        & req "subpath" (legacy_app_path_string ∪ null_ty)
        & none_more)
    ∪ obj (req "kind" (lit "tmpdir") & none_more)
    ∪ obj (req "kind" (lit "slash_tmp") & none_more)
    ∪ obj (
        req "kind" (lit "unknown")
        & req "path" str
        & req "subpath" (legacy_app_path_string ∪ null_ty)
        & none_more)

-- v2/FileSystemPath.ts
abbrev pub file_system_path : Ty
file_system_path =
    obj (req "type" (lit "path") & req "path" legacy_app_path_string & none_more)
    ∪ obj (req "type" (lit "glob_pattern") & req "pattern" str & none_more)
    ∪ obj (req "type" (lit "special") & req "value" file_system_special_path & none_more)

-- v2/FileSystemSandboxEntry.ts
abbrev pub file_system_sandbox_entry : Ty
file_system_sandbox_entry =
    obj (req "path" file_system_path & req "access" file_system_access_mode & none_more)

-- v2/AdditionalFileSystemPermissions.ts
abbrev pub additional_file_system_permissions : Ty
additional_file_system_permissions = obj (
    req "read" (arr legacy_app_path_string ∪ null_ty)
    & req "write" (arr legacy_app_path_string ∪ null_ty)
    & opt "globScanMaxDepth" num
    & opt "entries" (arr file_system_sandbox_entry)
    & none_more)

-- v2/AdditionalPermissionProfile.ts
abbrev pub additional_permission_profile : Ty
additional_permission_profile = obj (
    req "network" (additional_network_permissions ∪ null_ty)
    & req "fileSystem" (additional_file_system_permissions ∪ null_ty)
    & none_more)

-- v2/RequestPermissionProfile.ts
abbrev pub request_permission_profile : Ty
request_permission_profile = obj (
    req "network" (additional_network_permissions ∪ null_ty)
    & req "fileSystem" (additional_file_system_permissions ∪ null_ty)
    & none_more)

-- v2/PermissionsRequestApprovalParams.ts
abbrev pub permissions_request_approval_params : Ty
permissions_request_approval_params = obj (
    req "threadId" str
    & req "turnId" str
    & req "itemId" str
    & req "environmentId" (str ∪ null_ty)
    & req "startedAtMs" num
    & req "cwd" absolute_path_buf
    & req "reason" (str ∪ null_ty)
    & req "permissions" request_permission_profile
    & none_more)

-- v2/ConfigWarningNotification.ts
abbrev pub config_warning_notification : Ty
config_warning_notification = obj (
    req "summary" str
    & req "details" (str ∪ null_ty)
    & opt "path" str
    & opt "range" text_range
    & none_more)

-- v2/GuardianApprovalReview.ts
abbrev pub guardian_approval_review : Ty
guardian_approval_review = obj (
    req "status" guardian_approval_review_status
    & req "riskLevel" (guardian_risk_level ∪ null_ty)
    & req "userAuthorization" (guardian_user_authorization ∪ null_ty)
    & req "rationale" (str ∪ null_ty)
    & none_more)

-- v2/GuardianApprovalReviewAction.ts
abbrev pub guardian_approval_review_action : Ty
guardian_approval_review_action =
    obj (
      req "type" (lit "command")
      & req "source" guardian_command_source
      & req "command" str
      & req "cwd" absolute_path_buf
      & none_more)
    ∪ obj (
        req "type" (lit "execve")
        & req "source" guardian_command_source
        & req "program" str
        & req "argv" (arr str)
        & req "cwd" absolute_path_buf
        & none_more)
    ∪ obj (
        req "type" (lit "writeStdin")
        & req "approvalId" str
        & req "processId" str
        & req "stdin" str
        & req "cwd" legacy_app_path_string
        & none_more)
    ∪ obj (
        req "type" (lit "applyPatch")
        & req "cwd" absolute_path_buf
        & req "files" (arr absolute_path_buf)
        & none_more)
    ∪ obj (
        req "type" (lit "networkAccess")
        & req "target" str
        & req "host" str
        & req "protocol" network_approval_protocol
        & req "port" num
        & none_more)
    ∪ obj (
        req "type" (lit "mcpToolCall")
        & req "server" str
        & req "toolName" str
        & req "connectorId" (str ∪ null_ty)
        & req "connectorName" (str ∪ null_ty)
        & req "toolTitle" (str ∪ null_ty)
        & none_more)
    ∪ obj (
        req "type" (lit "requestPermissions")
        & req "reason" (str ∪ null_ty)
        & req "permissions" request_permission_profile
        & none_more)

-- v2/ItemGuardianApprovalReviewCompletedNotification.ts
abbrev pub item_guardian_approval_review_completed_notification : Ty
item_guardian_approval_review_completed_notification = obj (
    req "threadId" str
    & req "turnId" str
    & req "startedAtMs" num
    & req "completedAtMs" num
    & req "reviewId" str
    & req "targetItemId" (str ∪ null_ty)
    & req "decisionSource" auto_review_decision_source
    & req "review" guardian_approval_review
    & req "action" guardian_approval_review_action
    & none_more)

-- v2/ItemGuardianApprovalReviewStartedNotification.ts
abbrev pub item_guardian_approval_review_started_notification : Ty
item_guardian_approval_review_started_notification = obj (
    req "threadId" str
    & req "turnId" str
    & req "startedAtMs" num
    & req "reviewId" str
    & req "targetItemId" (str ∪ null_ty)
    & req "review" guardian_approval_review
    & req "action" guardian_approval_review_action
    & none_more)
