-- ===== src/Protocol/Types/ConfigRequests.antt =====
-- probes/app-server-ts: config requests, one definition for each file.
use codex_waiting_plgin.Protocol.Schema.{
  Ty, any, arr, bool, none_more, null_ty, num, obj, opt, req, str, ◌&◌, ◌∪◌,
}
use codex_waiting_plgin.Protocol.Types.Basics.{absolute_path_buf}
use codex_waiting_plgin.Protocol.Types.BasicsDataBase.{merge_strategy}
use codex_waiting_plgin.Protocol.Types.CompositesBase.{
  config_edit, external_agent_config_migration_item,
}
use codex_waiting_plgin.Protocol.Types.Config.{
  external_agent_config_import_item_type_failure, external_agent_config_migration_item_type,
  windows_sandbox_setup_mode,
}

-- v2/ConfigBatchWriteParams.ts
abbrev pub config_batch_write_params : Ty
config_batch_write_params = obj (
    req "edits" (arr config_edit)
    & opt "filePath" (str ∪ null_ty)
    & opt "expectedVersion" (str ∪ null_ty)
    & opt "reloadUserConfig" bool
    & none_more)

-- v2/ConfigReadParams.ts
abbrev pub config_read_params : Ty
config_read_params = obj (opt "includeLayers" bool & opt "cwd" (str ∪ null_ty) & none_more)

-- v2/ConfigValueWriteParams.ts
abbrev pub config_value_write_params : Ty
config_value_write_params = obj (
    req "keyPath" str
    & req "value" any
    & req "mergeStrategy" merge_strategy
    & opt "filePath" (str ∪ null_ty)
    & opt "expectedVersion" (str ∪ null_ty)
    & none_more)

-- v2/EnvironmentAddParams.ts
abbrev pub environment_add_params : Ty
environment_add_params = obj (
    req "environmentId" str
    & req "execServerUrl" str
    & opt "connectTimeoutMs" (num ∪ null_ty)
    & none_more)

-- v2/EnvironmentInfoParams.ts
abbrev pub environment_info_params : Ty
environment_info_params = obj (req "environmentId" str & none_more)

-- v2/EnvironmentStatusParams.ts
abbrev pub environment_status_params : Ty
environment_status_params = obj (req "environmentId" str & none_more)

-- v2/ExternalAgentConfigDetectParams.ts
abbrev pub external_agent_config_detect_params : Ty
external_agent_config_detect_params = obj (
    opt "includeHome" bool
    & opt "cwds" (arr str ∪ null_ty)
    & opt "maxSessionAgeDays" (num ∪ null_ty)
    & opt "maxSessions" (num ∪ null_ty)
    & opt "source" (str ∪ null_ty)
    & opt "migrationSource" (str ∪ null_ty)
    & none_more)

-- v2/ExternalAgentConfigImportHistoryRecordSuccessParams.ts
abbrev pub external_agent_config_import_history_record_success_params : Ty
external_agent_config_import_history_record_success_params = obj (
    req "itemType" external_agent_config_migration_item_type
    & req "cwd" (str ∪ null_ty)
    & req "source" (str ∪ null_ty)
    & req "target" (str ∪ null_ty)
    & opt "title" (str ∪ null_ty)
    & none_more)

-- v2/ExternalAgentConfigImportHistoryRecordTypeResultParams.ts
abbrev pub external_agent_config_import_history_record_type_result_params : Ty
external_agent_config_import_history_record_type_result_params = obj (
    req "itemType" external_agent_config_migration_item_type
    & req "successes" (arr external_agent_config_import_history_record_success_params)
    & req "failures" (arr external_agent_config_import_item_type_failure)
    & none_more)

-- v2/ExternalAgentConfigImportHistoryRecordParams.ts
abbrev pub external_agent_config_import_history_record_params : Ty
external_agent_config_import_history_record_params = obj (
    req "providerId" str
    & req "itemTypeResults" (arr external_agent_config_import_history_record_type_result_params)
    & none_more)

-- v2/ExternalAgentConfigImportParams.ts
abbrev pub external_agent_config_import_params : Ty
external_agent_config_import_params = obj (
    req "migrationItems" (arr external_agent_config_migration_item)
    & opt "source" (str ∪ null_ty)
    & opt "providerId" (str ∪ null_ty)
    & opt "migrationSource" (str ∪ null_ty)
    & none_more)

-- v2/PermissionProfileListParams.ts
abbrev pub permission_profile_list_params : Ty
permission_profile_list_params = obj (
    opt "cursor" (str ∪ null_ty)
    & opt "limit" (num ∪ null_ty)
    & opt "cwd" (str ∪ null_ty)
    & none_more)

-- v2/SkillsConfigWriteParams.ts
abbrev pub skills_config_write_params : Ty
skills_config_write_params = obj (
    opt "path" (absolute_path_buf ∪ null_ty)
    & opt "name" (str ∪ null_ty)
    & req "enabled" bool
    & none_more)

-- v2/ThreadApproveGuardianDeniedActionParams.ts
abbrev pub thread_approve_guardian_denied_action_params : Ty
thread_approve_guardian_denied_action_params =
    obj (req "threadId" str & req "event" any & none_more)

-- v2/WindowsSandboxSetupStartParams.ts
abbrev pub windows_sandbox_setup_start_params : Ty
windows_sandbox_setup_start_params =
    obj
      (req "mode" windows_sandbox_setup_mode & opt "cwd" (absolute_path_buf ∪ null_ty) & none_more)
