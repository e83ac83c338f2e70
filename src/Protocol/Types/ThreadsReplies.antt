-- ===== src/Protocol/Types/ThreadsReplies.antt =====
-- probes/app-server-ts: threads replies, one definition for each file.
use codex_waiting_plgin.Protocol.Schema.{Ty, arr, bool, none_more, null_ty, obj, req, str, ◌&◌, ◌∪◌}
use codex_waiting_plgin.Protocol.Types.Approvals.{sandbox_policy}
use codex_waiting_plgin.Protocol.Types.Apps.{legacy_app_path_string}
use codex_waiting_plgin.Protocol.Types.Basics.{absolute_path_buf, multi_agent_mode}
use codex_waiting_plgin.Protocol.Types.BasicsData.{queued_submission}
use codex_waiting_plgin.Protocol.Types.Composites.{model, thread_search_occurrence}
use codex_waiting_plgin.Protocol.Types.Config.{
  active_permission_profile, approvals_reviewer, ask_for_approval,
}
use codex_waiting_plgin.Protocol.Types.ItemsBase.{reasoning_effort}
use codex_waiting_plgin.Protocol.Types.ThreadResponses.{thread}
use codex_waiting_plgin.Protocol.Types.Threads.{thread_goal, thread_section}
use codex_waiting_plgin.Protocol.Types.ThreadsData.{
  git_sha, thread_search_result, thread_timeline_entry, thread_unsubscribe_status,
}
use codex_waiting_plgin.Protocol.Types.TurnRecords.{turn}

-- FuzzyFileSearchSessionStartResponse.ts
abbrev pub fuzzy_file_search_session_start_response : Ty
fuzzy_file_search_session_start_response = obj (none_more)

-- FuzzyFileSearchSessionStopResponse.ts
abbrev pub fuzzy_file_search_session_stop_response : Ty
fuzzy_file_search_session_stop_response = obj (none_more)

-- FuzzyFileSearchSessionUpdateResponse.ts
abbrev pub fuzzy_file_search_session_update_response : Ty
fuzzy_file_search_session_update_response = obj (none_more)

-- GitDiffToRemoteResponse.ts
abbrev pub git_diff_to_remote_response : Ty
git_diff_to_remote_response = obj (req "sha" git_sha & req "diff" str & none_more)

-- v2/ModelListResponse.ts
abbrev pub model_list_response : Ty
model_list_response = obj (req "data" (arr model) & req "nextCursor" (str ∪ null_ty) & none_more)

-- v2/ModelProviderCapabilitiesReadResponse.ts
abbrev pub model_provider_capabilities_read_response : Ty
model_provider_capabilities_read_response =
    obj (req "namespaceTools" bool & req "imageGeneration" bool & req "webSearch" bool & none_more)

-- v2/ThreadArchiveResponse.ts
abbrev pub thread_archive_response : Ty
thread_archive_response = obj (none_more)

-- v2/ThreadBackgroundTerminalsCleanResponse.ts
abbrev pub thread_background_terminals_clean_response : Ty
thread_background_terminals_clean_response = obj (none_more)

-- v2/ThreadBackgroundTerminalsTerminateResponse.ts
abbrev pub thread_background_terminals_terminate_response : Ty
thread_background_terminals_terminate_response = obj (req "terminated" bool & none_more)

-- v2/ThreadCompactStartResponse.ts
abbrev pub thread_compact_start_response : Ty
thread_compact_start_response = obj (none_more)

-- v2/ThreadDeleteResponse.ts
abbrev pub thread_delete_response : Ty
thread_delete_response = obj (none_more)

-- v2/ThreadForkResponse.ts
abbrev pub thread_fork_response : Ty
thread_fork_response = obj (
    req "thread" thread
    & req "model" str
    & req "modelProvider" str
    & req "serviceTier" (str ∪ null_ty)
    & req "cwd" absolute_path_buf
    & req "runtimeWorkspaceRoots" (arr absolute_path_buf)
    & req "instructionSources" (arr legacy_app_path_string)
    & req "approvalPolicy" ask_for_approval
    & req "approvalsReviewer" approvals_reviewer
    & req "sandbox" sandbox_policy
    & req "activePermissionProfile" (active_permission_profile ∪ null_ty)
    & req "reasoningEffort" (reasoning_effort ∪ null_ty)
    & req "multiAgentMode" multi_agent_mode
    & none_more)

-- v2/ThreadGoalClearResponse.ts
abbrev pub thread_goal_clear_response : Ty
thread_goal_clear_response = obj (req "cleared" bool & none_more)

-- v2/ThreadGoalGetResponse.ts
abbrev pub thread_goal_get_response : Ty
thread_goal_get_response = obj (req "goal" (thread_goal ∪ null_ty) & none_more)

-- v2/ThreadGoalSetResponse.ts
abbrev pub thread_goal_set_response : Ty
thread_goal_set_response = obj (req "goal" thread_goal & none_more)

-- v2/ThreadListResponse.ts
abbrev pub thread_list_response : Ty
thread_list_response = obj (
    req "data" (arr thread)
    & req "nextCursor" (str ∪ null_ty)
    & req "backwardsCursor" (str ∪ null_ty)
    & none_more)

-- v2/ThreadLoadedListResponse.ts
abbrev pub thread_loaded_list_response : Ty
thread_loaded_list_response =
    obj (req "data" (arr str) & req "nextCursor" (str ∪ null_ty) & none_more)

-- v2/ThreadMetadataUpdateResponse.ts
abbrev pub thread_metadata_update_response : Ty
thread_metadata_update_response = obj (req "thread" thread & none_more)

-- v2/ThreadQueueAddResponse.ts
abbrev pub thread_queue_add_response : Ty
thread_queue_add_response = obj (req "queuedSubmission" queued_submission & none_more)

-- v2/ThreadQueueDeleteResponse.ts
abbrev pub thread_queue_delete_response : Ty
thread_queue_delete_response = obj (req "deleted" bool & none_more)

-- v2/ThreadQueueListResponse.ts
abbrev pub thread_queue_list_response : Ty
thread_queue_list_response =
    obj (req "data" (arr queued_submission) & req "nextCursor" (str ∪ null_ty) & none_more)

-- v2/ThreadQueueReorderResponse.ts
abbrev pub thread_queue_reorder_response : Ty
thread_queue_reorder_response = obj (none_more)

-- v2/ThreadQueueStartResponse.ts
abbrev pub thread_queue_start_response : Ty
thread_queue_start_response = obj (req "turn" turn & none_more)

-- v2/ThreadQueueUpdateResponse.ts
abbrev pub thread_queue_update_response : Ty
thread_queue_update_response = obj (req "queuedSubmission" queued_submission & none_more)

-- v2/ThreadReadResponse.ts
abbrev pub thread_read_response : Ty
thread_read_response = obj (req "thread" thread & none_more)

-- v2/ThreadRevertResponse.ts
abbrev pub thread_revert_response : Ty
thread_revert_response = obj (
    req "thread" thread
    & req "turnsBackwardsCursor" (str ∪ null_ty)
    & req "itemsBackwardsCursor" (str ∪ null_ty)
    & none_more)

-- v2/ThreadRollbackResponse.ts
abbrev pub thread_rollback_response : Ty
thread_rollback_response = obj (req "thread" thread & none_more)

-- v2/ThreadSearchOccurrencesResponse.ts
abbrev pub thread_search_occurrences_response : Ty
thread_search_occurrences_response =
    obj (req "data" (arr thread_search_occurrence) & req "nextCursor" (str ∪ null_ty) & none_more)

-- v2/ThreadSearchResponse.ts
abbrev pub thread_search_response : Ty
thread_search_response = obj (
    req "data" (arr thread_search_result)
    & req "nextCursor" (str ∪ null_ty)
    & req "backwardsCursor" (str ∪ null_ty)
    & none_more)

-- v2/ThreadSectionCreateResponse.ts
abbrev pub thread_section_create_response : Ty
thread_section_create_response = obj (req "section" thread_section & none_more)

-- v2/ThreadSectionDeleteResponse.ts
abbrev pub thread_section_delete_response : Ty
thread_section_delete_response = obj (none_more)

-- v2/ThreadSectionListResponse.ts
abbrev pub thread_section_list_response : Ty
thread_section_list_response =
    obj (req "data" (arr thread_section) & req "nextCursor" (str ∪ null_ty) & none_more)

-- v2/ThreadSectionMoveResponse.ts
abbrev pub thread_section_move_response : Ty
thread_section_move_response = obj (none_more)

-- v2/ThreadSectionUpdateResponse.ts
abbrev pub thread_section_update_response : Ty
thread_section_update_response = obj (req "section" thread_section & none_more)

-- v2/ThreadSetNameResponse.ts
abbrev pub thread_set_name_response : Ty
thread_set_name_response = obj (none_more)

-- v2/ThreadSettingsUpdateResponse.ts
abbrev pub thread_settings_update_response : Ty
thread_settings_update_response = obj (none_more)

-- v2/ThreadTimelineListResponse.ts
abbrev pub thread_timeline_list_response : Ty
thread_timeline_list_response = obj (
    req "data" (arr thread_timeline_entry)
    & req "nextCursor" (str ∪ null_ty)
    & req "activeRealtimeSessionAtPageStart" (str ∪ null_ty)
    & none_more)

-- v2/ThreadUnarchiveResponse.ts
abbrev pub thread_unarchive_response : Ty
thread_unarchive_response = obj (req "thread" thread & none_more)

-- v2/ThreadUnsubscribeResponse.ts
abbrev pub thread_unsubscribe_response : Ty
thread_unsubscribe_response = obj (req "status" thread_unsubscribe_status & none_more)
