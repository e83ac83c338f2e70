-- ===== src/Protocol/Types/Threads.antt =====
-- probes/app-server-ts: threads, one definition for each file.
use codex_waiting_plgin.Protocol.Schema.{
  Ty, arr, bool, lit, none_more, null_ty, num, obj, opt, req, str, ◌&◌, ◌∪◌,
}

-- v2/ThreadHistoryMode.ts
abbrev pub thread_history_mode : Ty
thread_history_mode = lit "legacy" ∪ lit "paginated"

-- v2/ThreadSource.ts
abbrev pub thread_source : Ty
thread_source = str

-- v2/ThreadStartSource.ts
abbrev pub thread_start_source : Ty
thread_start_source = lit "startup" ∪ lit "clear"

-- v2/ThreadBackgroundTerminalsListParams.ts
abbrev pub thread_background_terminals_list_params : Ty
thread_background_terminals_list_params =
    obj
      (req "threadId" str & opt "cursor" (str ∪ null_ty) & opt "limit" (num ∪ null_ty) & none_more)

-- v2/GitInfo.ts
abbrev pub git_info : Ty
git_info = obj (
    req "sha" (str ∪ null_ty)
    & req "branch" (str ∪ null_ty)
    & req "originUrl" (str ∪ null_ty)
    & none_more)

-- ThreadId.ts
abbrev pub thread_id : Ty
thread_id = str

-- v2/ThreadExtra.ts
abbrev pub thread_extra : Ty
thread_extra = obj (none_more)

-- v2/ThreadSectionAppearance.ts
abbrev pub thread_section_appearance : Ty
thread_section_appearance =
    obj (req "icon" (str ∪ null_ty) & req "color" (str ∪ null_ty) & none_more)

-- v2/ThreadSection.ts
abbrev pub thread_section : Ty
thread_section = obj (
    req "id" str
    & req "name" str
    & req "appearance" (thread_section_appearance ∪ null_ty)
    & none_more)

-- v2/ThreadActiveFlag.ts
abbrev pub thread_active_flag : Ty
thread_active_flag = lit "waitingOnApproval" ∪ lit "waitingOnUserInput"

-- v2/ThreadStatus.ts
abbrev pub thread_status : Ty
thread_status =
    obj (req "type" (lit "notLoaded") & none_more)
    ∪ obj (req "type" (lit "idle") & none_more)
    ∪ obj (req "type" (lit "systemError") & none_more)
    ∪ obj (req "type" (lit "active") & req "activeFlags" (arr thread_active_flag) & none_more)

-- FuzzyFileSearchSessionCompletedNotification.ts
abbrev pub fuzzy_file_search_session_completed_notification : Ty
fuzzy_file_search_session_completed_notification = obj (req "sessionId" str & none_more)

-- v2/ModelRerouteReason.ts
abbrev pub model_reroute_reason : Ty
model_reroute_reason = lit "highRiskCyberActivity"

-- v2/ModelReroutedNotification.ts
abbrev pub model_rerouted_notification : Ty
model_rerouted_notification = obj (
    req "threadId" str
    & req "turnId" str
    & req "fromModel" str
    & req "toModel" str
    & req "reason" model_reroute_reason
    & none_more)

-- v2/ModelSafetyBufferingUpdatedNotification.ts
abbrev pub model_safety_buffering_updated_notification : Ty
model_safety_buffering_updated_notification = obj (
    req "threadId" str
    & req "turnId" str
    & req "model" str
    & req "useCases" (arr str)
    & req "reasons" (arr str)
    & req "showBufferingUi" bool
    & req "fasterModel" (str ∪ null_ty)
    & none_more)

-- v2/ModelVerification.ts
abbrev pub model_verification : Ty
model_verification = lit "trustedAccessForCyber"

-- v2/ModelVerificationNotification.ts
abbrev pub model_verification_notification : Ty
model_verification_notification = obj (
    req "threadId" str
    & req "turnId" str
    & req "verifications" (arr model_verification)
    & none_more)

-- v2/ThreadArchivedNotification.ts
abbrev pub thread_archived_notification : Ty
thread_archived_notification = obj (req "threadId" str & none_more)

-- v2/ThreadClosedNotification.ts
abbrev pub thread_closed_notification : Ty
thread_closed_notification = obj (req "threadId" str & none_more)

-- v2/ThreadDeletedNotification.ts
abbrev pub thread_deleted_notification : Ty
thread_deleted_notification = obj (req "threadId" str & none_more)

-- v2/ThreadGoalClearedNotification.ts
abbrev pub thread_goal_cleared_notification : Ty
thread_goal_cleared_notification = obj (req "threadId" str & none_more)

-- v2/ThreadGoalStatus.ts
abbrev pub thread_goal_status : Ty
thread_goal_status =
    lit "active"
    ∪ lit "paused"
    ∪ lit "blocked"
    ∪ lit "usageLimited"
    ∪ lit "budgetLimited"
    ∪ lit "complete"

-- v2/ThreadGoal.ts
abbrev pub thread_goal : Ty
thread_goal = obj (
    req "threadId" str
    & req "objective" str
    & req "status" thread_goal_status
    & req "tokenBudget" (num ∪ null_ty)
    & req "tokensUsed" num
    & req "timeUsedSeconds" num
    & req "createdAt" num
    & req "updatedAt" num
    & none_more)

-- v2/ThreadGoalUpdatedNotification.ts
abbrev pub thread_goal_updated_notification : Ty
thread_goal_updated_notification =
    obj (req "threadId" str & req "turnId" (str ∪ null_ty) & req "goal" thread_goal & none_more)

-- v2/ThreadNameUpdatedNotification.ts
abbrev pub thread_name_updated_notification : Ty
thread_name_updated_notification = obj (req "threadId" str & opt "threadName" str & none_more)

-- v2/ThreadProjectUpdatedNotification.ts
abbrev pub thread_project_updated_notification : Ty
thread_project_updated_notification =
    obj (req "threadId" str & req "projectId" (str ∪ null_ty) & none_more)

-- v2/ThreadQueueChangedNotification.ts
abbrev pub thread_queue_changed_notification : Ty
thread_queue_changed_notification = obj (req "threadId" str & none_more)

-- v2/ThreadRevertedNotification.ts
abbrev pub thread_reverted_notification : Ty
thread_reverted_notification = obj (req "threadId" str & none_more)

-- v2/ThreadStatusChangedNotification.ts
abbrev pub thread_status_changed_notification : Ty
thread_status_changed_notification =
    obj (req "threadId" str & req "status" thread_status & none_more)

-- v2/ThreadUnarchivedNotification.ts
abbrev pub thread_unarchived_notification : Ty
thread_unarchived_notification = obj (req "threadId" str & none_more)
