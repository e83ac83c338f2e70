-- ===== src/Protocol/Types/Config.antt =====
-- probes/app-server-ts: config, one definition for each file.
use codex_waiting_plgin.Protocol.Schema.{
  Ty, arr, bool, lit, none_more, null_ty, num, obj, opt, req, str, ◌&◌, ◌∪◌,
}

-- v2/ApprovalsReviewer.ts
abbrev pub approvals_reviewer : Ty
approvals_reviewer = lit "user" ∪ lit "auto_review" ∪ lit "guardian_subagent"

-- v2/AskForApproval.ts
abbrev pub ask_for_approval : Ty
ask_for_approval =
    lit "untrusted"
    ∪ lit "on-request"
    ∪ obj (
        req "granular" (
          obj (
            req "sandbox_approval" bool
            & req "rules" bool
            & req "skill_approval" bool
            & req "request_permissions" bool
            & req "mcp_elicitations" bool
            & none_more))
        & none_more)
    ∪ lit "never"

-- v2/SandboxMode.ts
abbrev pub sandbox_mode : Ty
sandbox_mode = lit "read-only" ∪ lit "workspace-write" ∪ lit "danger-full-access"

-- v2/NetworkAccess.ts
abbrev pub network_access : Ty
network_access = lit "restricted" ∪ lit "enabled"

-- v2/ActivePermissionProfile.ts
abbrev pub active_permission_profile : Ty
active_permission_profile = obj (req "id" str & req "extends" (str ∪ null_ty) & none_more)

-- v2/FileSystemAccessMode.ts
abbrev pub file_system_access_mode : Ty
file_system_access_mode = lit "read" ∪ lit "write" ∪ lit "deny"

-- v2/AdditionalNetworkPermissions.ts
abbrev pub additional_network_permissions : Ty
additional_network_permissions = obj (req "enabled" (bool ∪ null_ty) & none_more)

-- v2/ExecPolicyAmendment.ts
abbrev pub exec_policy_amendment : Ty
exec_policy_amendment = arr str

-- v2/NetworkPolicyRuleAction.ts
abbrev pub network_policy_rule_action : Ty
network_policy_rule_action = lit "allow" ∪ lit "deny"

-- v2/NetworkPolicyAmendment.ts
abbrev pub network_policy_amendment : Ty
network_policy_amendment =
    obj (req "host" str & req "action" network_policy_rule_action & none_more)

-- v2/CommandExecutionApprovalDecision.ts
abbrev pub command_execution_approval_decision : Ty
command_execution_approval_decision =
    lit "accept"
    ∪ lit "acceptForSession"
    ∪ obj (
        req "acceptWithExecpolicyAmendment"
          (obj (req "execpolicy_amendment" exec_policy_amendment & none_more))
        & none_more)
    ∪ obj (
        req "applyNetworkPolicyAmendment"
          (obj (req "network_policy_amendment" network_policy_amendment & none_more))
        & none_more)
    ∪ lit "decline"
    ∪ lit "cancel"

-- v2/CommandExecutionApprovalKind.ts
abbrev pub command_execution_approval_kind : Ty
command_execution_approval_kind = lit "command" ∪ lit "writeStdin"

-- v2/NetworkApprovalProtocol.ts
abbrev pub network_approval_protocol : Ty
network_approval_protocol = lit "http" ∪ lit "https" ∪ lit "socks5Tcp" ∪ lit "socks5Udp"

-- v2/NetworkApprovalContext.ts
abbrev pub network_approval_context : Ty
network_approval_context =
    obj (req "host" str & req "protocol" network_approval_protocol & none_more)

-- v2/FileChangeRequestApprovalParams.ts
abbrev pub file_change_request_approval_params : Ty
file_change_request_approval_params = obj (
    req "threadId" str
    & req "turnId" str
    & req "itemId" str
    & req "startedAtMs" num
    & opt "reason" (str ∪ null_ty)
    & opt "grantRoot" (str ∪ null_ty)
    & none_more)

-- v2/EnvironmentConnectionNotification.ts
abbrev pub environment_connection_notification : Ty
environment_connection_notification = obj (req "threadId" str & req "environmentId" str & none_more)

-- v2/ExternalAgentConfigMigrationItemType.ts
abbrev pub external_agent_config_migration_item_type : Ty
external_agent_config_migration_item_type =
    lit "AGENTS_MD"
    ∪ lit "CONFIG"
    ∪ lit "SKILLS"
    ∪ lit "PLUGINS"
    ∪ lit "MCP_SERVER_CONFIG"
    ∪ lit "SUBAGENTS"
    ∪ lit "HOOKS"
    ∪ lit "COMMANDS"
    ∪ lit "MEMORY"
    ∪ lit "SESSIONS"

-- v2/ExternalAgentConfigImportItemTypeFailure.ts
abbrev pub external_agent_config_import_item_type_failure : Ty
external_agent_config_import_item_type_failure = obj (
    req "itemType" external_agent_config_migration_item_type
    & req "errorType" (str ∪ null_ty)
    & req "subErrorType" (str ∪ null_ty)
    & req "failureStage" str
    & req "message" str
    & req "cwd" (str ∪ null_ty)
    & req "source" (str ∪ null_ty)
    & none_more)

-- v2/ExternalAgentConfigImportItemTypeSuccess.ts
abbrev pub external_agent_config_import_item_type_success : Ty
external_agent_config_import_item_type_success = obj (
    req "itemType" external_agent_config_migration_item_type
    & req "cwd" (str ∪ null_ty)
    & req "source" (str ∪ null_ty)
    & req "target" (str ∪ null_ty)
    & req "title" (str ∪ null_ty)
    & none_more)

-- v2/ExternalAgentConfigImportTypeResult.ts
abbrev pub external_agent_config_import_type_result : Ty
external_agent_config_import_type_result = obj (
    req "itemType" external_agent_config_migration_item_type
    & req "successes" (arr external_agent_config_import_item_type_success)
    & req "failures" (arr external_agent_config_import_item_type_failure)
    & none_more)

-- v2/ExternalAgentConfigImportCompletedNotification.ts
abbrev pub external_agent_config_import_completed_notification : Ty
external_agent_config_import_completed_notification = obj (
    req "importId" str
    & req "itemTypeResults" (arr external_agent_config_import_type_result)
    & none_more)

-- v2/ExternalAgentConfigImportProgressNotification.ts
abbrev pub external_agent_config_import_progress_notification : Ty
external_agent_config_import_progress_notification = obj (
    req "importId" str
    & req "itemTypeResults" (arr external_agent_config_import_type_result)
    & none_more)

-- v2/GuardianWarningNotification.ts
abbrev pub guardian_warning_notification : Ty
guardian_warning_notification = obj (req "threadId" str & req "message" str & none_more)

-- v2/GuardianApprovalReviewStatus.ts
abbrev pub guardian_approval_review_status : Ty
guardian_approval_review_status =
    lit "inProgress" ∪ lit "approved" ∪ lit "denied" ∪ lit "timedOut" ∪ lit "aborted"

-- v2/GuardianRiskLevel.ts
abbrev pub guardian_risk_level : Ty
guardian_risk_level = lit "low" ∪ lit "medium" ∪ lit "high" ∪ lit "critical"

-- v2/GuardianCommandSource.ts
abbrev pub guardian_command_source : Ty
guardian_command_source = lit "shell" ∪ lit "unifiedExec"

-- v2/WindowsSandboxSetupMode.ts
abbrev pub windows_sandbox_setup_mode : Ty
windows_sandbox_setup_mode = lit "elevated" ∪ lit "unelevated"

-- v2/WindowsSandboxSetupCompletedNotification.ts
abbrev pub windows_sandbox_setup_completed_notification : Ty
windows_sandbox_setup_completed_notification = obj (
    req "mode" windows_sandbox_setup_mode
    & req "success" bool
    & req "error" (str ∪ null_ty)
    & none_more)
