-- ===== src/Protocol/Types/ConfigReplies.antt =====
-- probes/app-server-ts: config replies, one definition for each file.
use codex_waiting_plgin.Protocol.Schema.{
  Ty, arr, bool, dict, none_more, null_ty, obj, opt, req, str, ◌&◌, ◌∪◌,
}
use codex_waiting_plgin.Protocol.Types.AppsData.{
  external_agent_detected_connector_candidate, external_agent_imported_connector_candidate,
}
use codex_waiting_plgin.Protocol.Types.Basics.{absolute_path_buf}
use codex_waiting_plgin.Protocol.Types.BasicsData.{write_status}
use codex_waiting_plgin.Protocol.Types.BasicsDataBase.{path_uri}
use codex_waiting_plgin.Protocol.Types.Composites.{config_requirements, overridden_metadata}
use codex_waiting_plgin.Protocol.Types.CompositesBase.{
  config, external_agent_config_migration_item, review_decision,
}
use codex_waiting_plgin.Protocol.Types.Config.{command_execution_approval_decision}
use codex_waiting_plgin.Protocol.Types.ConfigData.{
  config_layer, config_layer_metadata, environment_shell_info, environment_status_kind,
  external_agent_config_import_history, file_change_approval_decision, granted_permission_profile,
  permission_grant_scope, permission_profile_summary, windows_sandbox_readiness,
}

-- ApplyPatchApprovalResponse.ts
abbrev pub apply_patch_approval_response : Ty
apply_patch_approval_response = obj (req "decision" review_decision & none_more)

-- ExecCommandApprovalResponse.ts
abbrev pub exec_command_approval_response : Ty
exec_command_approval_response = obj (req "decision" review_decision & none_more)

-- v2/CommandExecutionRequestApprovalResponse.ts
abbrev pub command_execution_request_approval_response : Ty
command_execution_request_approval_response =
    obj (req "decision" command_execution_approval_decision & none_more)

-- v2/ConfigReadResponse.ts
abbrev pub config_read_response : Ty
config_read_response = obj (
    req "config" config
    & req "origins" (dict config_layer_metadata)
    & req "layers" (arr config_layer ∪ null_ty)
    & none_more)

-- v2/ConfigRequirementsReadResponse.ts
abbrev pub config_requirements_read_response : Ty
config_requirements_read_response =
    obj (req "requirements" (config_requirements ∪ null_ty) & none_more)

-- v2/ConfigWriteResponse.ts
abbrev pub config_write_response : Ty
config_write_response = obj (
    req "status" write_status
    & req "version" str
    & req "filePath" absolute_path_buf
    & req "overriddenMetadata" (overridden_metadata ∪ null_ty)
    & none_more)

-- v2/EnvironmentAddResponse.ts
abbrev pub environment_add_response : Ty
environment_add_response = obj (none_more)

-- v2/EnvironmentInfoResponse.ts
abbrev pub environment_info_response : Ty
environment_info_response =
    obj (req "shell" environment_shell_info & req "cwd" (path_uri ∪ null_ty) & none_more)

-- v2/EnvironmentStatusResponse.ts
abbrev pub environment_status_response : Ty
environment_status_response =
    obj (req "status" environment_status_kind & opt "error" str & none_more)

-- v2/ExternalAgentConfigDetectResponse.ts
abbrev pub external_agent_config_detect_response : Ty
external_agent_config_detect_response = obj (
    req "items" (arr external_agent_config_migration_item)
    & req "connectors" (arr external_agent_detected_connector_candidate)
    & none_more)

-- v2/ExternalAgentConfigImportHistoriesReadResponse.ts
abbrev pub external_agent_config_import_histories_read_response : Ty
external_agent_config_import_histories_read_response = obj (
    req "data" (arr external_agent_config_import_history)
    & req "connectors" (arr external_agent_imported_connector_candidate)
    & none_more)

-- v2/ExternalAgentConfigImportHistoryRecordResponse.ts
abbrev pub external_agent_config_import_history_record_response : Ty
external_agent_config_import_history_record_response = obj (req "importId" str & none_more)

-- v2/ExternalAgentConfigImportResponse.ts
abbrev pub external_agent_config_import_response : Ty
external_agent_config_import_response = obj (req "importId" str & none_more)

-- v2/FileChangeRequestApprovalResponse.ts
abbrev pub file_change_request_approval_response : Ty
file_change_request_approval_response =
    obj (req "decision" file_change_approval_decision & none_more)

-- v2/PermissionProfileListResponse.ts
abbrev pub permission_profile_list_response : Ty
permission_profile_list_response =
    obj (req "data" (arr permission_profile_summary) & req "nextCursor" (str ∪ null_ty) & none_more)

-- v2/PermissionsRequestApprovalResponse.ts
abbrev pub permissions_request_approval_response : Ty
permissions_request_approval_response = obj (
    req "permissions" granted_permission_profile
    & req "scope" permission_grant_scope
    & opt "strictAutoReview" bool
    & none_more)

-- v2/SkillsConfigWriteResponse.ts
abbrev pub skills_config_write_response : Ty
skills_config_write_response = obj (req "effectiveEnabled" bool & none_more)

-- v2/ThreadApproveGuardianDeniedActionResponse.ts
abbrev pub thread_approve_guardian_denied_action_response : Ty
thread_approve_guardian_denied_action_response = obj (none_more)

-- v2/WindowsSandboxReadinessResponse.ts
abbrev pub windows_sandbox_readiness_response : Ty
windows_sandbox_readiness_response = obj (req "status" windows_sandbox_readiness & none_more)

-- v2/WindowsSandboxSetupStartResponse.ts
abbrev pub windows_sandbox_setup_start_response : Ty
windows_sandbox_setup_start_response = obj (req "started" bool & none_more)
