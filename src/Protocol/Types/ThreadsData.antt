-- ===== src/Protocol/Types/ThreadsData.antt =====
-- probes/app-server-ts: threads data, one definition for each file.
use codex_waiting_plgin.Protocol.Schema.{
  Ty, arr, lit, none_more, null_ty, num, obj, req, str, ◌&◌, ◌∪◌,
}
use codex_waiting_plgin.Protocol.Types.BasicRecords.{sub_agent_source}
use codex_waiting_plgin.Protocol.Types.ItemsBase.{reasoning_effort}
use codex_waiting_plgin.Protocol.Types.Realtime.{thread_realtime_item}
use codex_waiting_plgin.Protocol.Types.ThreadItems.{thread_item}
use codex_waiting_plgin.Protocol.Types.ThreadResponses.{thread}
use codex_waiting_plgin.Protocol.Types.Turns.{turn_error, turn_status}

-- v2/SessionMigration.ts
abbrev pub session_migration : Ty
session_migration = obj (req "path" str & req "cwd" str & req "title" (str ∪ null_ty) & none_more)

-- v2/ThreadSortKey.ts
abbrev pub thread_sort_key : Ty
thread_sort_key = lit "created_at" ∪ lit "updated_at" ∪ lit "recency_at" ∪ lit "section_position"

-- v2/ThreadSourceKind.ts
abbrev pub thread_source_kind : Ty
thread_source_kind =
    lit "cli"
    ∪ lit "vscode"
    ∪ lit "exec"
    ∪ lit "appServer"
    ∪ lit "subAgent"
    ∪ lit "subAgentReview"
    ∪ lit "subAgentCompact"
    ∪ lit "subAgentThreadSpawn"
    ∪ lit "subAgentOther"
    ∪ lit "unknown"

-- v2/ThreadSearchSortKey.ts
abbrev pub thread_search_sort_key : Ty
thread_search_sort_key = lit "created_at" ∪ lit "updated_at" ∪ lit "recency_at"

-- ConversationGitInfo.ts
abbrev pub conversation_git_info : Ty
conversation_git_info = obj (
    req "sha" (str ∪ null_ty)
    & req "branch" (str ∪ null_ty)
    & req "origin_url" (str ∪ null_ty)
    & none_more)

-- InternalSessionSource.ts
abbrev pub internal_session_source : Ty
internal_session_source = lit "memory_consolidation" ∪ lit "guardian"

-- SessionSource.ts
abbrev pub session_source_root : Ty
session_source_root =
    lit "cli"
    ∪ lit "vscode"
    ∪ lit "exec"
    ∪ lit "mcp"
    ∪ obj (req "custom" str & none_more)
    ∪ obj (req "internal" internal_session_source & none_more)
    ∪ obj (req "subagent" sub_agent_source & none_more)
    ∪ lit "unknown"

-- GitSha.ts
abbrev pub git_sha : Ty
git_sha = str

-- v2/NewThreadModelDefaults.ts
abbrev pub new_thread_model_defaults : Ty
new_thread_model_defaults = obj (
    req "model" (str ∪ null_ty)
    & req "modelReasoningEffort" (reasoning_effort ∪ null_ty)
    & req "serviceTier" (str ∪ null_ty)
    & none_more)

-- v2/ModelsRequirements.ts
abbrev pub models_requirements : Ty
models_requirements = obj (req "newThread" (new_thread_model_defaults ∪ null_ty) & none_more)

-- v2/ThreadUsageBreakdownGroup.ts
abbrev pub thread_usage_breakdown_group : Ty
thread_usage_breakdown_group = obj (
    req "model" (str ∪ null_ty)
    & req "reasoningEffort" (str ∪ null_ty)
    & req "speed" (str ∪ null_ty)
    & req "estimatedUsageCreditsMicros" num
    & req "netNewInputTokens" (num ∪ null_ty)
    & req "cachedInputTokens" (num ∪ null_ty)
    & req "inputTokens" (num ∪ null_ty)
    & req "outputTokens" (num ∪ null_ty)
    & req "totalTokens" (num ∪ null_ty)
    & none_more)

-- v2/ThreadUsage.ts
abbrev pub thread_usage : Ty
thread_usage = obj (
    req "threadId" str
    & req "estimatedUsageCreditsMicros" num
    & req "estimatedUsageUsdMicros" (num ∪ null_ty)
    & req "groups" (arr thread_usage_breakdown_group)
    & none_more)

-- v2/ModelAvailabilityNux.ts
abbrev pub model_availability_nux : Ty
model_availability_nux = obj (req "message" str & none_more)

-- v2/ModelServiceTier.ts
abbrev pub model_service_tier : Ty
model_service_tier = obj (req "id" str & req "name" str & req "description" str & none_more)

-- v2/ModelUpgradeInfo.ts
abbrev pub model_upgrade_info : Ty
model_upgrade_info = obj (
    req "model" str
    & req "upgradeCopy" (str ∪ null_ty)
    & req "modelLink" (str ∪ null_ty)
    & req "migrationMarkdown" (str ∪ null_ty)
    & req "retirementAt" (num ∪ null_ty)
    & none_more)

-- v2/ThreadSearchResult.ts
abbrev pub thread_search_result : Ty
thread_search_result = obj (req "thread" thread & req "snippet" str & none_more)

-- v2/ThreadTimelineEntry.ts
abbrev pub thread_timeline_entry : Ty
thread_timeline_entry =
    obj (
      req "type" (lit "item")
      & req "position" num
      & req "turnId" str
      & req "item" thread_item
      & none_more)
    ∪ obj (
        req "type" (lit "realtime")
        & req "position" num
        & req "item" thread_realtime_item
        & none_more)
    ∪ obj (
        req "type" (lit "turnStarted")
        & req "position" num
        & req "turnId" str
        & req "startedAt" (num ∪ null_ty)
        & none_more)
    ∪ obj (
        req "type" (lit "turnCompleted")
        & req "position" num
        & req "turnId" str
        & req "status" turn_status
        & req "error" (turn_error ∪ null_ty)
        & req "startedAt" (num ∪ null_ty)
        & req "completedAt" (num ∪ null_ty)
        & req "durationMs" (num ∪ null_ty)
        & none_more)

-- v2/ThreadUnsubscribeStatus.ts
abbrev pub thread_unsubscribe_status : Ty
thread_unsubscribe_status = lit "notLoaded" ∪ lit "notSubscribed" ∪ lit "unsubscribed"
