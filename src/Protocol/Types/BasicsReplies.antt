-- ===== src/Protocol/Types/BasicsReplies.antt =====
-- probes/app-server-ts: basics replies, one definition for each file.
use codex_waiting_plgin.Protocol.Schema.{
  Ty, arr, bool, dict, none_more, null_ty, num, obj, req, str, ◌&◌, ◌∪◌,
}
use codex_waiting_plgin.Protocol.Types.Basics.{
  absolute_path_buf, fuzzy_file_search_result, remote_control_connection_status,
}
use codex_waiting_plgin.Protocol.Types.BasicsData.{
  experimental_feature, fs_read_directory_entry, project, remote_control_client,
  server_diagnostics_gauge,
}
use codex_waiting_plgin.Protocol.Types.CompositesBase.{conversation_summary}
use codex_waiting_plgin.Protocol.Types.ItemsData.{server_diagnostics_process}
use codex_waiting_plgin.Protocol.Types.TurnRecords.{turn}
use codex_waiting_plgin.Protocol.Types.TurnsData.{marketplace_upgrade_error_info}

-- FuzzyFileSearchResponse.ts
abbrev pub fuzzy_file_search_response : Ty
fuzzy_file_search_response = obj (req "files" (arr fuzzy_file_search_result) & none_more)

-- GetConversationSummaryResponse.ts
abbrev pub get_conversation_summary_response : Ty
get_conversation_summary_response = obj (req "summary" conversation_summary & none_more)

-- v2/AttestationGenerateResponse.ts
abbrev pub attestation_generate_response : Ty
attestation_generate_response = obj (req "token" str & none_more)

-- v2/CurrentTimeReadResponse.ts
abbrev pub current_time_read_response : Ty
current_time_read_response = obj (req "currentTimeAt" num & none_more)

-- v2/ExperimentalFeatureEnablementSetResponse.ts
abbrev pub experimental_feature_enablement_set_response : Ty
experimental_feature_enablement_set_response = obj (req "enablement" (dict bool) & none_more)

-- v2/ExperimentalFeatureListResponse.ts
abbrev pub experimental_feature_list_response : Ty
experimental_feature_list_response =
    obj (req "data" (arr experimental_feature) & req "nextCursor" (str ∪ null_ty) & none_more)

-- v2/FeedbackUploadResponse.ts
abbrev pub feedback_upload_response : Ty
feedback_upload_response = obj (req "threadId" str & none_more)

-- v2/FsCopyResponse.ts
abbrev pub fs_copy_response : Ty
fs_copy_response = obj (none_more)

-- v2/FsCreateDirectoryResponse.ts
abbrev pub fs_create_directory_response : Ty
fs_create_directory_response = obj (none_more)

-- v2/FsGetMetadataResponse.ts
abbrev pub fs_get_metadata_response : Ty
fs_get_metadata_response = obj (
    req "isDirectory" bool
    & req "isFile" bool
    & req "isSymlink" bool
    & req "createdAtMs" num
    & req "modifiedAtMs" num
    & none_more)

-- v2/FsReadDirectoryResponse.ts
abbrev pub fs_read_directory_response : Ty
fs_read_directory_response = obj (req "entries" (arr fs_read_directory_entry) & none_more)

-- v2/FsReadFileResponse.ts
abbrev pub fs_read_file_response : Ty
fs_read_file_response = obj (req "dataBase64" str & none_more)

-- v2/FsRemoveResponse.ts
abbrev pub fs_remove_response : Ty
fs_remove_response = obj (none_more)

-- v2/FsUnwatchResponse.ts
abbrev pub fs_unwatch_response : Ty
fs_unwatch_response = obj (none_more)

-- v2/FsWatchResponse.ts
abbrev pub fs_watch_response : Ty
fs_watch_response = obj (req "path" absolute_path_buf & none_more)

-- v2/FsWriteFileResponse.ts
abbrev pub fs_write_file_response : Ty
fs_write_file_response = obj (none_more)

-- v2/MarketplaceAddResponse.ts
abbrev pub marketplace_add_response : Ty
marketplace_add_response = obj (
    req "marketplaceName" str
    & req "installedRoot" absolute_path_buf
    & req "alreadyAdded" bool
    & none_more)

-- v2/MarketplaceRemoveResponse.ts
abbrev pub marketplace_remove_response : Ty
marketplace_remove_response =
    obj (req "marketplaceName" str & req "installedRoot" (absolute_path_buf ∪ null_ty) & none_more)

-- v2/MarketplaceUpgradeResponse.ts
abbrev pub marketplace_upgrade_response : Ty
marketplace_upgrade_response = obj (
    req "selectedMarketplaces" (arr str)
    & req "upgradedRoots" (arr absolute_path_buf)
    & req "errors" (arr marketplace_upgrade_error_info)
    & none_more)

-- v2/MockExperimentalMethodResponse.ts
abbrev pub mock_experimental_method_response : Ty
mock_experimental_method_response = obj (req "echoed" (str ∪ null_ty) & none_more)

-- v2/ProjectCreateResponse.ts
abbrev pub project_create_response : Ty
project_create_response = obj (req "project" project & none_more)

-- v2/ProjectDeleteResponse.ts
abbrev pub project_delete_response : Ty
project_delete_response = obj (none_more)

-- v2/ProjectImportResponse.ts
abbrev pub project_import_response : Ty
project_import_response = obj (req "project" project & none_more)

-- v2/ProjectListResponse.ts
abbrev pub project_list_response : Ty
project_list_response =
    obj (req "data" (arr project) & req "nextCursor" (str ∪ null_ty) & none_more)

-- v2/ProjectMoveResponse.ts
abbrev pub project_move_response : Ty
project_move_response = obj (none_more)

-- v2/ProjectReadResponse.ts
abbrev pub project_read_response : Ty
project_read_response = obj (req "project" project & none_more)

-- v2/ProjectUpdateResponse.ts
abbrev pub project_update_response : Ty
project_update_response = obj (req "project" project & none_more)

-- v2/RemoteControlClientsListResponse.ts
abbrev pub remote_control_clients_list_response : Ty
remote_control_clients_list_response =
    obj (req "data" (arr remote_control_client) & req "nextCursor" (str ∪ null_ty) & none_more)

-- v2/RemoteControlClientsRevokeResponse.ts
abbrev pub remote_control_clients_revoke_response : Ty
remote_control_clients_revoke_response = obj (none_more)

-- v2/RemoteControlDisableResponse.ts
abbrev pub remote_control_disable_response : Ty
remote_control_disable_response = obj (
    req "status" remote_control_connection_status
    & req "serverName" str
    & req "installationId" str
    & req "environmentId" (str ∪ null_ty)
    & none_more)

-- v2/RemoteControlEnableResponse.ts
abbrev pub remote_control_enable_response : Ty
remote_control_enable_response = obj (
    req "status" remote_control_connection_status
    & req "serverName" str
    & req "installationId" str
    & req "environmentId" (str ∪ null_ty)
    & none_more)

-- v2/RemoteControlPairingStartResponse.ts
abbrev pub remote_control_pairing_start_response : Ty
remote_control_pairing_start_response = obj (
    req "pairingCode" str
    & req "manualPairingCode" (str ∪ null_ty)
    & req "environmentId" str
    & req "expiresAt" num
    & none_more)

-- v2/RemoteControlPairingStatusResponse.ts
abbrev pub remote_control_pairing_status_response : Ty
remote_control_pairing_status_response = obj (req "claimed" bool & none_more)

-- v2/RemoteControlStatusReadResponse.ts
abbrev pub remote_control_status_read_response : Ty
remote_control_status_read_response = obj (
    req "status" remote_control_connection_status
    & req "serverName" str
    & req "installationId" str
    & req "environmentId" (str ∪ null_ty)
    & none_more)

-- v2/ReviewStartResponse.ts
abbrev pub review_start_response : Ty
review_start_response = obj (req "turn" turn & req "reviewThreadId" str & none_more)

-- v2/ServerDiagnosticsResponse.ts
abbrev pub server_diagnostics_response : Ty
server_diagnostics_response = obj (
    req "process" server_diagnostics_process
    & req "gauges" (arr server_diagnostics_gauge)
    & none_more)
