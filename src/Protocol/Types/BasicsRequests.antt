-- ===== src/Protocol/Types/BasicsRequests.antt =====
-- probes/app-server-ts: basics requests, one definition for each file.
use codex_waiting_plgin.Protocol.Schema.{
  Ty, arr, bool, dict, none_more, null_ty, num, obj, opt, req, str, ◌&◌, ◌∪◌,
}
use codex_waiting_plgin.Protocol.Types.Basics.{absolute_path_buf, sort_direction}
use codex_waiting_plgin.Protocol.Types.BasicsDataBase.{
  project_root, project_sort_key, remote_control_clients_list_order, review_delivery, review_target,
}
use codex_waiting_plgin.Protocol.Types.Threads.{thread_id}

-- FuzzyFileSearchParams.ts
abbrev pub fuzzy_file_search_params : Ty
fuzzy_file_search_params =
    obj (
      req "query" str & req "roots" (arr str) & req "cancellationToken" (str ∪ null_ty) & none_more)

-- GetConversationSummaryParams.ts
abbrev pub get_conversation_summary_params : Ty
get_conversation_summary_params =
    obj (req "rolloutPath" str & none_more) ∪ obj (req "conversationId" thread_id & none_more)

-- v2/ExperimentalFeatureEnablementSetParams.ts
abbrev pub experimental_feature_enablement_set_params : Ty
experimental_feature_enablement_set_params = obj (req "enablement" (dict bool) & none_more)

-- v2/ExperimentalFeatureListParams.ts
abbrev pub experimental_feature_list_params : Ty
experimental_feature_list_params = obj (
    opt "cursor" (str ∪ null_ty)
    & opt "limit" (num ∪ null_ty)
    & opt "threadId" (str ∪ null_ty)
    & none_more)

-- v2/FeedbackUploadParams.ts
abbrev pub feedback_upload_params : Ty
feedback_upload_params = obj (
    req "classification" str
    & opt "reason" (str ∪ null_ty)
    & opt "threadId" (str ∪ null_ty)
    & opt "includeLogs" bool
    & opt "extraLogFiles" (arr str ∪ null_ty)
    & opt "tags" (dict str ∪ null_ty)
    & none_more)

-- v2/FsCopyParams.ts
abbrev pub fs_copy_params : Ty
fs_copy_params = obj (
    req "sourcePath" absolute_path_buf
    & req "destinationPath" absolute_path_buf
    & opt "recursive" bool
    & none_more)

-- v2/FsCreateDirectoryParams.ts
abbrev pub fs_create_directory_params : Ty
fs_create_directory_params =
    obj (req "path" absolute_path_buf & opt "recursive" (bool ∪ null_ty) & none_more)

-- v2/FsGetMetadataParams.ts
abbrev pub fs_get_metadata_params : Ty
fs_get_metadata_params = obj (req "path" absolute_path_buf & none_more)

-- v2/FsReadDirectoryParams.ts
abbrev pub fs_read_directory_params : Ty
fs_read_directory_params = obj (req "path" absolute_path_buf & none_more)

-- v2/FsReadFileParams.ts
abbrev pub fs_read_file_params : Ty
fs_read_file_params = obj (req "path" absolute_path_buf & none_more)

-- v2/FsRemoveParams.ts
abbrev pub fs_remove_params : Ty
fs_remove_params = obj (
    req "path" absolute_path_buf
    & opt "recursive" (bool ∪ null_ty)
    & opt "force" (bool ∪ null_ty)
    & none_more)

-- v2/FsUnwatchParams.ts
abbrev pub fs_unwatch_params : Ty
fs_unwatch_params = obj (req "watchId" str & none_more)

-- v2/FsWatchParams.ts
abbrev pub fs_watch_params : Ty
fs_watch_params = obj (req "watchId" str & req "path" absolute_path_buf & none_more)

-- v2/FsWriteFileParams.ts
abbrev pub fs_write_file_params : Ty
fs_write_file_params = obj (req "path" absolute_path_buf & req "dataBase64" str & none_more)

-- v2/MarketplaceAddParams.ts
abbrev pub marketplace_add_params : Ty
marketplace_add_params = obj (
    req "source" str
    & opt "refName" (str ∪ null_ty)
    & opt "sparsePaths" (arr str ∪ null_ty)
    & none_more)

-- v2/MarketplaceRemoveParams.ts
abbrev pub marketplace_remove_params : Ty
marketplace_remove_params = obj (req "marketplaceName" str & none_more)

-- v2/MarketplaceUpgradeParams.ts
abbrev pub marketplace_upgrade_params : Ty
marketplace_upgrade_params = obj (opt "marketplaceName" (str ∪ null_ty) & none_more)

-- v2/MockExperimentalMethodParams.ts
abbrev pub mock_experimental_method_params : Ty
mock_experimental_method_params = obj (opt "value" (str ∪ null_ty) & none_more)

-- v2/ProjectCreateParams.ts
abbrev pub project_create_params : Ty
project_create_params = obj (
    req "name" str
    & req "roots" (arr project_root)
    & opt "metadata" (dict str ∪ null_ty)
    & req "idempotencyKey" str
    & none_more)

-- v2/ProjectDeleteParams.ts
abbrev pub project_delete_params : Ty
project_delete_params = obj (req "projectId" str & none_more)

-- v2/ProjectImportParams.ts
abbrev pub project_import_params : Ty
project_import_params = obj (
    req "name" str
    & req "roots" (arr project_root)
    & opt "metadata" (dict str ∪ null_ty)
    & opt "threads" (arr str ∪ null_ty)
    & req "idempotencyKey" str
    & none_more)

-- v2/ProjectListParams.ts
abbrev pub project_list_params : Ty
project_list_params = obj (
    opt "cursor" (str ∪ null_ty)
    & opt "limit" (num ∪ null_ty)
    & opt "sortKey" (project_sort_key ∪ null_ty)
    & opt "sortDirection" (sort_direction ∪ null_ty)
    & none_more)

-- v2/ProjectMoveParams.ts
abbrev pub project_move_params : Ty
project_move_params = obj (req "projectId" str & opt "beforeProjectId" (str ∪ null_ty) & none_more)

-- v2/ProjectReadParams.ts
abbrev pub project_read_params : Ty
project_read_params = obj (req "projectId" str & none_more)

-- v2/ProjectUpdateParams.ts
abbrev pub project_update_params : Ty
project_update_params = obj (
    req "projectId" str
    & opt "name" (str ∪ null_ty)
    & opt "roots" (arr project_root ∪ null_ty)
    & opt "metadata" (dict str ∪ null_ty)
    & none_more)

-- v2/RemoteControlClientsListParams.ts
abbrev pub remote_control_clients_list_params : Ty
remote_control_clients_list_params = obj (
    req "environmentId" str
    & opt "cursor" (str ∪ null_ty)
    & opt "limit" (num ∪ null_ty)
    & opt "order" (remote_control_clients_list_order ∪ null_ty)
    & none_more)

-- v2/RemoteControlClientsRevokeParams.ts
abbrev pub remote_control_clients_revoke_params : Ty
remote_control_clients_revoke_params =
    obj (req "environmentId" str & req "clientId" str & none_more)

-- v2/RemoteControlDisableParams.ts
abbrev pub remote_control_disable_params : Ty
remote_control_disable_params = obj (opt "ephemeral" bool & none_more)

-- v2/RemoteControlEnableParams.ts
abbrev pub remote_control_enable_params : Ty
remote_control_enable_params = obj (opt "ephemeral" bool & none_more)

-- v2/RemoteControlPairingStartParams.ts
abbrev pub remote_control_pairing_start_params : Ty
remote_control_pairing_start_params = obj (opt "manualCode" bool & none_more)

-- v2/RemoteControlPairingStatusParams.ts
abbrev pub remote_control_pairing_status_params : Ty
remote_control_pairing_status_params =
    obj (opt "pairingCode" (str ∪ null_ty) & opt "manualPairingCode" (str ∪ null_ty) & none_more)

-- v2/ReviewStartParams.ts
abbrev pub review_start_params : Ty
review_start_params = obj (
    req "threadId" str
    & req "target" review_target
    & opt "delivery" (review_delivery ∪ null_ty)
    & none_more)

-- v2/ServerDiagnosticsParams.ts
abbrev pub server_diagnostics_params : Ty
server_diagnostics_params = obj (none_more)
