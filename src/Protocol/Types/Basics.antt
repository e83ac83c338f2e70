-- ===== src/Protocol/Types/Basics.antt =====
-- probes/app-server-ts: basics, one definition for each file.
use codex_waiting_plgin.Protocol.Schema.{
  Ty, any, arr, bool, dict, lit, none_more, null_ty, num, obj, opt, req, str, ◌&◌, ◌∩◌, ◌∪◌,
}

-- AbsolutePathBuf.ts
abbrev pub absolute_path_buf : Ty
absolute_path_buf = str

-- MultiAgentMode.ts
abbrev pub multi_agent_mode : Ty
multi_agent_mode = obj (req "custom" str & none_more) ∪ lit "explicitRequestOnly" ∪ lit "proactive"

-- Personality.ts
abbrev pub personality : Ty
personality = lit "none" ∪ lit "friendly" ∪ lit "pragmatic"

-- v2/CapabilityRootLocation.ts
abbrev pub capability_root_location : Ty
capability_root_location =
    obj (req "type" (lit "environment") & req "environmentId" str & req "path" str & none_more)

-- v2/SelectedCapabilityRoot.ts
abbrev pub selected_capability_root : Ty
selected_capability_root = obj (req "id" str & req "location" capability_root_location & none_more)

-- LocalShellExecAction.ts
abbrev pub local_shell_exec_action : Ty
local_shell_exec_action = obj (
    req "command" (arr str)
    & req "timeout_ms" (num ∪ null_ty)
    & req "working_directory" (str ∪ null_ty)
    & req "env" (dict str ∪ null_ty)
    & req "user" (str ∪ null_ty)
    & none_more)

-- LocalShellAction.ts
abbrev pub local_shell_action : Ty
local_shell_action = obj (req "type" (lit "exec") & none_more) ∩ local_shell_exec_action

-- LocalShellStatus.ts
abbrev pub local_shell_status : Ty
local_shell_status = lit "completed" ∪ lit "in_progress" ∪ lit "incomplete"

-- v2/SortDirection.ts
abbrev pub sort_direction : Ty
sort_direction = lit "asc" ∪ lit "desc"

-- ModeKind.ts
abbrev pub mode_kind : Ty
mode_kind = lit "plan" ∪ lit "default"

-- v2/AdditionalContextKind.ts
abbrev pub additional_context_kind : Ty
additional_context_kind = lit "untrusted" ∪ lit "application"

-- v2/AdditionalContextEntry.ts
abbrev pub additional_context_entry : Ty
additional_context_entry = obj (req "value" str & req "kind" additional_context_kind & none_more)

-- v2/CyberAccessProgram.ts
abbrev pub cyber_access_program : Ty
cyber_access_program = lit "standard" ∪ lit "daybreakBlue" ∪ lit "daybreakRed"

-- v2/ByteRange.ts
abbrev pub byte_range : Ty
byte_range = obj (req "start" num & req "end" num & none_more)

-- ClientInfo.ts
abbrev pub client_info : Ty
client_info = obj (req "name" str & req "title" (str ∪ null_ty) & req "version" str & none_more)

-- InitializeCapabilities.ts
abbrev pub initialize_capabilities : Ty
initialize_capabilities = obj (
    req "experimentalApi" bool
    & req "requestAttestation" bool
    & opt "mcpServerOpenaiFormElicitation" bool
    & opt "optOutNotificationMethods" (arr str ∪ null_ty)
    & opt "extensions" (dict any ∪ null_ty)
    & none_more)

-- InitializeParams.ts
abbrev pub initialize_params : Ty
initialize_params = obj (
    req "clientInfo" client_info
    & req "capabilities" (initialize_capabilities ∪ null_ty)
    & none_more)

-- AgentPath.ts
abbrev pub agent_path : Ty
agent_path = str

-- v2/SubAgentActivityKind.ts
abbrev pub sub_agent_activity_kind : Ty
sub_agent_activity_kind = lit "started" ∪ lit "interacted" ∪ lit "interrupted" ∪ lit "completed"

-- InitializeResponse.ts
abbrev pub initialize_response : Ty
initialize_response = obj (
    req "userAgent" str
    & req "codexHome" absolute_path_buf
    & req "platformFamily" str
    & req "platformOs" str
    & none_more)

-- FileChange.ts
abbrev pub file_change : Ty
file_change =
    obj (req "type" (lit "add") & req "content" str & none_more)
    ∪ obj (req "type" (lit "delete") & req "content" str & none_more)
    ∪ obj (
        req "type" (lit "update")
        & req "unified_diff" str
        & req "move_path" (str ∪ null_ty)
        & none_more)

-- RequestId.ts
abbrev pub request_id : Ty
request_id = str ∪ num

-- v2/AttestationGenerateParams.ts
abbrev pub attestation_generate_params : Ty
attestation_generate_params = obj (none_more)

-- v2/CurrentTimeReadParams.ts
abbrev pub current_time_read_params : Ty
current_time_read_params = obj (req "threadId" str & none_more)

-- FuzzyFileSearchMatchType.ts
abbrev pub fuzzy_file_search_match_type : Ty
fuzzy_file_search_match_type = lit "file" ∪ lit "directory"

-- FuzzyFileSearchResult.ts
abbrev pub fuzzy_file_search_result : Ty
fuzzy_file_search_result = obj (
    req "root" str
    & req "path" str
    & req "match_type" fuzzy_file_search_match_type
    & req "file_name" str
    & req "score" num
    & req "indices" (arr num ∪ null_ty)
    & none_more)

-- v2/DesktopOnboardingEntrypoint.ts
abbrev pub desktop_onboarding_entrypoint : Ty
desktop_onboarding_entrypoint = lit "life_sciences"

-- v2/ContextCompactedNotification.ts
abbrev pub context_compacted_notification : Ty
context_compacted_notification = obj (req "threadId" str & req "turnId" str & none_more)

-- v2/DeprecationNoticeNotification.ts
abbrev pub deprecation_notice_notification : Ty
deprecation_notice_notification =
    obj (req "summary" str & req "details" (str ∪ null_ty) & none_more)

-- v2/FsChangedNotification.ts
abbrev pub fs_changed_notification : Ty
fs_changed_notification =
    obj (req "watchId" str & req "changedPaths" (arr absolute_path_buf) & none_more)

-- v2/AutoReviewDecisionSource.ts
abbrev pub auto_review_decision_source : Ty
auto_review_decision_source = lit "agent"

-- v2/PlanDeltaNotification.ts
abbrev pub plan_delta_notification : Ty
plan_delta_notification =
    obj (req "threadId" str & req "turnId" str & req "itemId" str & req "delta" str & none_more)

-- v2/ProjectChangeType.ts
abbrev pub project_change_type : Ty
project_change_type = lit "created" ∪ lit "updated" ∪ lit "deleted"

-- v2/ProjectChangedNotification.ts
abbrev pub project_changed_notification : Ty
project_changed_notification =
    obj (req "projectId" str & req "changeType" project_change_type & none_more)

-- v2/ResponseUsageMetadata.ts
abbrev pub response_usage_metadata : Ty
response_usage_metadata =
    obj (req "amount" (str ∪ null_ty) & req "metadata" (any ∪ null_ty) & none_more)

-- v2/RemoteControlConnectionStatus.ts
abbrev pub remote_control_connection_status : Ty
remote_control_connection_status =
    lit "disabled" ∪ lit "connecting" ∪ lit "connected" ∪ lit "errored"

-- v2/RemoteControlStatusChangedNotification.ts
abbrev pub remote_control_status_changed_notification : Ty
remote_control_status_changed_notification = obj (
    req "status" remote_control_connection_status
    & req "serverName" str
    & req "installationId" str
    & req "environmentId" (str ∪ null_ty)
    & none_more)

-- v2/ServerRequestResolvedNotification.ts
abbrev pub server_request_resolved_notification : Ty
server_request_resolved_notification =
    obj (req "threadId" str & req "requestId" request_id & none_more)

-- v2/StrictReviewRequiredNotification.ts
abbrev pub strict_review_required_notification : Ty
strict_review_required_notification =
    obj (req "threadId" str & req "turnId" str & req "startedAtMs" num & none_more)

-- v2/TerminalInteractionNotification.ts
abbrev pub terminal_interaction_notification : Ty
terminal_interaction_notification = obj (
    req "threadId" str
    & req "turnId" str
    & req "itemId" str
    & req "processId" str
    & req "stdin" str
    & none_more)

-- v2/WarningNotification.ts
abbrev pub warning_notification : Ty
warning_notification = obj (req "threadId" (str ∪ null_ty) & req "message" str & none_more)

-- v2/WindowsWorldWritableWarningNotification.ts
abbrev pub windows_world_writable_warning_notification : Ty
windows_world_writable_warning_notification =
    obj (req "samplePaths" (arr str) & req "extraCount" num & req "failedScan" bool & none_more)
