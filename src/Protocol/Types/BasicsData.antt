-- ===== src/Protocol/Types/BasicsData.antt =====
-- probes/app-server-ts: basics data, one definition for each file.
use codex_waiting_plgin.Protocol.Schema.{
  Ty, arr, bool, dict, lit, none_more, null_ty, num, obj, req, str, ◌&◌, ◌∪◌,
}
use codex_waiting_plgin.Protocol.Types.BasicsDataBase.{project_root}
use codex_waiting_plgin.Protocol.Types.TurnInputs.{user_input}

-- Verbosity.ts
abbrev pub verbosity : Ty
verbosity = lit "low" ∪ lit "medium" ∪ lit "high"

-- v2/AllowDenyRequirement.ts
abbrev pub allow_deny_requirement : Ty
allow_deny_requirement = lit "allow" ∪ lit "deny"

-- v2/AutoReviewRequirements.ts
abbrev pub auto_review_requirements : Ty
auto_review_requirements =
    obj (
      req "requiredOnModels" (arr str ∪ null_ty)
      & req "ignoreRules" (arr str ∪ null_ty)
      & none_more)

-- v2/AwsCredentialType.ts
abbrev pub aws_credential_type : Ty
aws_credential_type = lit "accessKeys" ∪ lit "bedrockApiKey"

-- v2/ComputerUseMacosRequirements.ts
abbrev pub computer_use_macos_requirements : Ty
computer_use_macos_requirements =
    obj (req "bundleIds" (dict allow_deny_requirement ∪ null_ty) & none_more)

-- v2/ComputerUseWindowsExeRequirement.ts
abbrev pub computer_use_windows_exe_requirement : Ty
computer_use_windows_exe_requirement = obj (
    req "publisherName" str
    & req "productName" str
    & req "binaryName" (str ∪ null_ty)
    & req "access" allow_deny_requirement
    & none_more)

-- v2/ComputerUseWindowsRequirements.ts
abbrev pub computer_use_windows_requirements : Ty
computer_use_windows_requirements = obj (
    req "aumids" (dict allow_deny_requirement ∪ null_ty)
    & req "exes" (arr computer_use_windows_exe_requirement ∪ null_ty)
    & none_more)

-- v2/ComputerUseRequirements.ts
abbrev pub computer_use_requirements : Ty
computer_use_requirements = obj (
    req "allowLockedComputerUse" (bool ∪ null_ty)
    & req "allowPersistentApproval" (bool ∪ null_ty)
    & req "defaultAppAccess" (allow_deny_requirement ∪ null_ty)
    & req "macos" (computer_use_macos_requirements ∪ null_ty)
    & req "windows" (computer_use_windows_requirements ∪ null_ty)
    & none_more)

-- v2/FeedbackRequirements.ts
abbrev pub feedback_requirements : Ty
feedback_requirements = obj (req "enabled" (bool ∪ null_ty) & none_more)

-- v2/ResidencyRequirement.ts
abbrev pub residency_requirement : Ty
residency_requirement = lit "us"

-- v2/WriteStatus.ts
abbrev pub write_status : Ty
write_status = lit "ok" ∪ lit "okOverridden"

-- v2/ExperimentalFeatureStage.ts
abbrev pub experimental_feature_stage : Ty
experimental_feature_stage =
    lit "beta" ∪ lit "underDevelopment" ∪ lit "stable" ∪ lit "deprecated" ∪ lit "removed"

-- v2/ExperimentalFeature.ts
abbrev pub experimental_feature : Ty
experimental_feature = obj (
    req "name" str
    & req "stage" experimental_feature_stage
    & req "displayName" (str ∪ null_ty)
    & req "description" (str ∪ null_ty)
    & req "announcement" (str ∪ null_ty)
    & req "enabled" bool
    & req "defaultEnabled" bool
    & none_more)

-- v2/FsReadDirectoryEntry.ts
abbrev pub fs_read_directory_entry : Ty
fs_read_directory_entry =
    obj (req "fileName" str & req "isDirectory" bool & req "isFile" bool & none_more)

-- v2/MarketplaceInterface.ts
abbrev pub marketplace_interface : Ty
marketplace_interface = obj (req "displayName" (str ∪ null_ty) & none_more)

-- v2/MultiAgentVersion.ts
abbrev pub multi_agent_version : Ty
multi_agent_version = lit "disabled" ∪ lit "v1" ∪ lit "v2"

-- v2/ScheduledTaskWeekday.ts
abbrev pub scheduled_task_weekday : Ty
scheduled_task_weekday = lit "MO" ∪ lit "TU" ∪ lit "WE" ∪ lit "TH" ∪ lit "FR" ∪ lit "SA" ∪ lit "SU"

-- v2/ScheduledTaskSchedule.ts
abbrev pub scheduled_task_schedule : Ty
scheduled_task_schedule =
    obj (
      req "type" (lit "hourly")
      & req "intervalHours" num
      & req "days" (arr scheduled_task_weekday ∪ null_ty)
      & none_more)
    ∪ obj (req "type" (lit "daily") & req "time" str & none_more)
    ∪ obj (req "type" (lit "weekdays") & req "time" str & none_more)
    ∪ obj (
        req "type" (lit "weekly")
        & req "days" (arr scheduled_task_weekday)
        & req "time" str
        & none_more)

-- v2/ScheduledTaskSummary.ts
abbrev pub scheduled_task_summary : Ty
scheduled_task_summary = obj (
    req "key" str
    & req "name" str
    & req "prompt" str
    & req "schedule" scheduled_task_schedule
    & none_more)

-- v2/Project.ts
abbrev pub project : Ty
project = obj (
    req "id" str
    & req "name" str
    & req "roots" (arr project_root)
    & req "metadata" (dict str)
    & req "position" num
    & req "createdAt" num
    & req "updatedAt" num
    & req "recencyAt" (num ∪ null_ty)
    & none_more)

-- v2/QueuedSubmission.ts
abbrev pub queued_submission : Ty
queued_submission =
    obj (req "id" str & req "input" (arr user_input) & req "clientUserMessageId" str & none_more)

-- v2/RemoteControlClient.ts
abbrev pub remote_control_client : Ty
remote_control_client = obj (
    req "clientId" str
    & req "displayName" (str ∪ null_ty)
    & req "deviceType" (str ∪ null_ty)
    & req "platform" (str ∪ null_ty)
    & req "osVersion" (str ∪ null_ty)
    & req "deviceModel" (str ∪ null_ty)
    & req "appVersion" (str ∪ null_ty)
    & req "lastSeenAt" (num ∪ null_ty)
    & none_more)

-- v2/ServerDiagnosticsGauge.ts
abbrev pub server_diagnostics_gauge : Ty
server_diagnostics_gauge = obj (req "name" str & req "value" num & none_more)
