-- ===== src/Protocol/Types/ThreadsRequests.antt =====
-- probes/app-server-ts: threads requests, one definition for each file.
use codex_waiting_plgin.Protocol.Schema.{
  Ty, any, arr, bool, dict, none_more, null_ty, num, obj, opt, req, str, ◌&◌, ◌∪◌,
}
use codex_waiting_plgin.Protocol.Types.Approvals.{sandbox_policy}
use codex_waiting_plgin.Protocol.Types.Basics.{
  absolute_path_buf, multi_agent_mode, personality, sort_direction,
}
use codex_waiting_plgin.Protocol.Types.Config.{approvals_reviewer, ask_for_approval, sandbox_mode}
use codex_waiting_plgin.Protocol.Types.ItemsBase.{reasoning_effort, reasoning_summary}
use codex_waiting_plgin.Protocol.Types.ThreadItems.{collaboration_mode}
use codex_waiting_plgin.Protocol.Types.Threads.{
  thread_goal_status, thread_section_appearance, thread_source,
}
use codex_waiting_plgin.Protocol.Types.ThreadsData.{
  thread_search_sort_key, thread_sort_key, thread_source_kind,
}
use codex_waiting_plgin.Protocol.Types.TurnInputs.{user_input}

-- FuzzyFileSearchSessionStartParams.ts
abbrev pub fuzzy_file_search_session_start_params : Ty
fuzzy_file_search_session_start_params =
    obj (req "sessionId" str & req "roots" (arr str) & none_more)

-- FuzzyFileSearchSessionStopParams.ts
abbrev pub fuzzy_file_search_session_stop_params : Ty
fuzzy_file_search_session_stop_params = obj (req "sessionId" str & none_more)

-- FuzzyFileSearchSessionUpdateParams.ts
abbrev pub fuzzy_file_search_session_update_params : Ty
fuzzy_file_search_session_update_params = obj (req "sessionId" str & req "query" str & none_more)

-- GitDiffToRemoteParams.ts
abbrev pub git_diff_to_remote_params : Ty
git_diff_to_remote_params = obj (req "cwd" str & none_more)

-- v2/ModelListParams.ts
abbrev pub model_list_params : Ty
model_list_params = obj (
    opt "cursor" (str ∪ null_ty)
    & opt "limit" (num ∪ null_ty)
    & opt "includeHidden" (bool ∪ null_ty)
    & none_more)

-- v2/ModelProviderCapabilitiesReadParams.ts
abbrev pub model_provider_capabilities_read_params : Ty
model_provider_capabilities_read_params = obj (none_more)

-- v2/ThreadArchiveParams.ts
abbrev pub thread_archive_params : Ty
thread_archive_params = obj (req "threadId" str & none_more)

-- v2/ThreadBackgroundTerminalsCleanParams.ts
abbrev pub thread_background_terminals_clean_params : Ty
thread_background_terminals_clean_params = obj (req "threadId" str & none_more)

-- v2/ThreadBackgroundTerminalsTerminateParams.ts
abbrev pub thread_background_terminals_terminate_params : Ty
thread_background_terminals_terminate_params =
    obj (req "threadId" str & req "processId" str & none_more)

-- v2/ThreadCompactStartParams.ts
abbrev pub thread_compact_start_params : Ty
thread_compact_start_params = obj (req "threadId" str & none_more)

-- v2/ThreadDeleteParams.ts
abbrev pub thread_delete_params : Ty
thread_delete_params = obj (req "threadId" str & none_more)

-- v2/ThreadForkParams.ts
abbrev pub thread_fork_params : Ty
thread_fork_params = obj (
    req "threadId" str
    & opt "lastTurnId" (str ∪ null_ty)
    & opt "beforeTurnId" (str ∪ null_ty)
    & opt "path" (str ∪ null_ty)
    & opt "model" (str ∪ null_ty)
    & opt "modelProvider" (str ∪ null_ty)
    & opt "serviceTier" (str ∪ null_ty ∪ null_ty)
    & opt "cwd" (str ∪ null_ty)
    & opt "runtimeWorkspaceRoots" (arr absolute_path_buf ∪ null_ty)
    & opt "approvalPolicy" (ask_for_approval ∪ null_ty)
    & opt "approvalsReviewer" (approvals_reviewer ∪ null_ty)
    & opt "sandbox" (sandbox_mode ∪ null_ty)
    & opt "permissions" (str ∪ null_ty)
    & opt "config" (dict any ∪ null_ty)
    & opt "baseInstructions" (str ∪ null_ty)
    & opt "developerInstructions" (str ∪ null_ty)
    & opt "ephemeral" bool
    & opt "threadSource" (thread_source ∪ null_ty)
    & opt "excludeTurns" bool
    & opt "deferGoalContinuation" bool
    & none_more)

-- v2/ThreadGoalClearParams.ts
abbrev pub thread_goal_clear_params : Ty
thread_goal_clear_params = obj (req "threadId" str & none_more)

-- v2/ThreadGoalGetParams.ts
abbrev pub thread_goal_get_params : Ty
thread_goal_get_params = obj (req "threadId" str & none_more)

-- v2/ThreadGoalSetParams.ts
abbrev pub thread_goal_set_params : Ty
thread_goal_set_params = obj (
    req "threadId" str
    & opt "objective" (str ∪ null_ty)
    & opt "status" (thread_goal_status ∪ null_ty)
    & opt "tokenBudget" (num ∪ null_ty)
    & none_more)

-- v2/ThreadListParams.ts
abbrev pub thread_list_params : Ty
thread_list_params = obj (
    opt "cursor" (str ∪ null_ty)
    & opt "limit" (num ∪ null_ty)
    & opt "sortKey" (thread_sort_key ∪ null_ty)
    & opt "sortDirection" (sort_direction ∪ null_ty)
    & opt "modelProviders" (arr str ∪ null_ty)
    & opt "sourceKinds" (arr thread_source_kind ∪ null_ty)
    & opt "archived" (bool ∪ null_ty)
    & opt "sectionId" (str ∪ null_ty)
    & opt "projectId" (str ∪ null_ty)
    & opt "cwd" (str ∪ arr str ∪ null_ty)
    & opt "useStateDbOnly" bool
    & opt "searchTerm" (str ∪ null_ty)
    & opt "parentThreadId" (str ∪ null_ty)
    & opt "ancestorThreadId" (str ∪ null_ty)
    & none_more)

-- v2/ThreadLoadedListParams.ts
abbrev pub thread_loaded_list_params : Ty
thread_loaded_list_params =
    obj (opt "cursor" (str ∪ null_ty) & opt "limit" (num ∪ null_ty) & none_more)

-- v2/ThreadMetadataGitInfoUpdateParams.ts
abbrev pub thread_metadata_git_info_update_params : Ty
thread_metadata_git_info_update_params = obj (
    opt "sha" (str ∪ null_ty)
    & opt "branch" (str ∪ null_ty)
    & opt "originUrl" (str ∪ null_ty)
    & none_more)

-- v2/ThreadMetadataUpdateParams.ts
abbrev pub thread_metadata_update_params : Ty
thread_metadata_update_params = obj (
    req "threadId" str
    & opt "projectId" (str ∪ null_ty)
    & opt "gitInfo" (thread_metadata_git_info_update_params ∪ null_ty)
    & none_more)

-- v2/ThreadQueueAddParams.ts
abbrev pub thread_queue_add_params : Ty
thread_queue_add_params =
    obj (
      req "threadId" str & req "input" (arr user_input) & req "clientUserMessageId" str & none_more)

-- v2/ThreadQueueDeleteParams.ts
abbrev pub thread_queue_delete_params : Ty
thread_queue_delete_params = obj (req "threadId" str & req "queuedSubmissionId" str & none_more)

-- v2/ThreadQueueListParams.ts
abbrev pub thread_queue_list_params : Ty
thread_queue_list_params =
    obj
      (req "threadId" str & opt "cursor" (str ∪ null_ty) & opt "limit" (num ∪ null_ty) & none_more)

-- v2/ThreadQueueReorderParams.ts
abbrev pub thread_queue_reorder_params : Ty
thread_queue_reorder_params =
    obj (req "threadId" str & req "queuedSubmissionIds" (arr str) & none_more)

-- v2/ThreadQueueStartParams.ts
abbrev pub thread_queue_start_params : Ty
thread_queue_start_params =
    obj (req "threadId" str & opt "queuedSubmissionId" (str ∪ null_ty) & none_more)

-- v2/ThreadQueueUpdateParams.ts
abbrev pub thread_queue_update_params : Ty
thread_queue_update_params =
    obj
      (req "threadId" str & req "queuedSubmissionId" str & req "input" (arr user_input) & none_more)

-- v2/ThreadReadParams.ts
abbrev pub thread_read_params : Ty
thread_read_params = obj (req "threadId" str & opt "includeTurns" bool & none_more)

-- v2/ThreadRevertParams.ts
abbrev pub thread_revert_params : Ty
thread_revert_params = obj (req "threadId" str & req "beforeTurnId" str & none_more)

-- v2/ThreadRollbackParams.ts
abbrev pub thread_rollback_params : Ty
thread_rollback_params = obj (req "threadId" str & req "numTurns" num & none_more)

-- v2/ThreadSearchOccurrencesParams.ts
abbrev pub thread_search_occurrences_params : Ty
thread_search_occurrences_params = obj (
    req "threadId" str
    & req "searchTerm" str
    & opt "cursor" (str ∪ null_ty)
    & opt "limit" (num ∪ null_ty)
    & none_more)

-- v2/ThreadSearchParams.ts
abbrev pub thread_search_params : Ty
thread_search_params = obj (
    opt "cursor" (str ∪ null_ty)
    & opt "limit" (num ∪ null_ty)
    & opt "sortKey" (thread_search_sort_key ∪ null_ty)
    & opt "sortDirection" (sort_direction ∪ null_ty)
    & opt "sourceKinds" (arr thread_source_kind ∪ null_ty)
    & opt "archived" (bool ∪ null_ty)
    & req "searchTerm" str
    & none_more)

-- v2/ThreadSectionCreateParams.ts
abbrev pub thread_section_create_params : Ty
thread_section_create_params =
    obj (req "name" str & opt "appearance" (thread_section_appearance ∪ null_ty) & none_more)

-- v2/ThreadSectionDeleteParams.ts
abbrev pub thread_section_delete_params : Ty
thread_section_delete_params = obj (req "sectionId" str & none_more)

-- v2/ThreadSectionListParams.ts
abbrev pub thread_section_list_params : Ty
thread_section_list_params =
    obj (opt "cursor" (str ∪ null_ty) & opt "limit" (num ∪ null_ty) & none_more)

-- v2/ThreadSectionMoveParams.ts
abbrev pub thread_section_move_params : Ty
thread_section_move_params = obj (
    req "threadId" str
    & req "sectionId" (str ∪ null_ty)
    & opt "beforeThreadId" (str ∪ null_ty)
    & none_more)

-- v2/ThreadSectionUpdateParams.ts
abbrev pub thread_section_update_params : Ty
thread_section_update_params = obj (
    req "sectionId" str
    & req "name" str
    & opt "appearance" (thread_section_appearance ∪ null_ty)
    & none_more)

-- v2/ThreadSetNameParams.ts
abbrev pub thread_set_name_params : Ty
thread_set_name_params = obj (req "threadId" str & req "name" str & none_more)

-- v2/ThreadSettingsUpdateParams.ts
abbrev pub thread_settings_update_params : Ty
thread_settings_update_params = obj (
    req "threadId" str
    & opt "cwd" (str ∪ null_ty)
    & opt "approvalPolicy" (ask_for_approval ∪ null_ty)
    & opt "approvalsReviewer" (approvals_reviewer ∪ null_ty)
    & opt "sandboxPolicy" (sandbox_policy ∪ null_ty)
    & opt "permissions" (str ∪ null_ty)
    & opt "model" (str ∪ null_ty)
    & opt "serviceTier" (str ∪ null_ty ∪ null_ty)
    & opt "effort" (reasoning_effort ∪ null_ty)
    & opt "summary" (reasoning_summary ∪ null_ty)
    & opt "collaborationMode" (collaboration_mode ∪ null_ty)
    & opt "multiAgentMode" (multi_agent_mode ∪ null_ty)
    & opt "personality" (personality ∪ null_ty)
    & none_more)

-- v2/ThreadTimelineListParams.ts
abbrev pub thread_timeline_list_params : Ty
thread_timeline_list_params =
    obj
      (req "threadId" str & opt "cursor" (str ∪ null_ty) & opt "limit" (num ∪ null_ty) & none_more)

-- v2/ThreadUnarchiveParams.ts
abbrev pub thread_unarchive_params : Ty
thread_unarchive_params = obj (req "threadId" str & none_more)

-- v2/ThreadUnsubscribeParams.ts
abbrev pub thread_unsubscribe_params : Ty
thread_unsubscribe_params = obj (req "threadId" str & none_more)
