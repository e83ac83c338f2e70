-- ===== src/Protocol/Types/TurnRecords.antt =====
-- probes/app-server-ts: turn records, one definition for each file.
use codex_waiting_plgin.Protocol.Schema.{
  Ty, any, arr, dict, none_more, null_ty, num, obj, opt, req, str, ◌&◌, ◌∪◌,
}
use codex_waiting_plgin.Protocol.Types.Approvals.{sandbox_policy, turn_environment_params}
use codex_waiting_plgin.Protocol.Types.Basics.{
  absolute_path_buf, additional_context_entry, cyber_access_program, multi_agent_mode, personality,
}
use codex_waiting_plgin.Protocol.Types.Config.{approvals_reviewer, ask_for_approval}
use codex_waiting_plgin.Protocol.Types.ItemsBase.{
  reasoning_effort, reasoning_summary, turn_items_view, turn_tool_output,
}
use codex_waiting_plgin.Protocol.Types.ThreadItems.{collaboration_mode, thread_item}
use codex_waiting_plgin.Protocol.Types.TurnInputs.{user_input}
use codex_waiting_plgin.Protocol.Types.Turns.{turn_error, turn_status}

-- v2/TurnStartParams.ts
abbrev pub turn_start_params : Ty
turn_start_params = obj (
    req "threadId" str
    & opt "clientUserMessageId" (str ∪ null_ty)
    & req "input" (arr user_input)
    & opt "turnTrigger" (str ∪ null_ty)
    & opt "toolOutput" (turn_tool_output ∪ null_ty)
    & opt "responsesapiClientMetadata" (dict str ∪ null_ty)
    & opt "additionalContext" (dict additional_context_entry ∪ null_ty)
    & opt "environments" (arr turn_environment_params ∪ null_ty)
    & opt "cwd" (str ∪ null_ty)
    & opt "runtimeWorkspaceRoots" (arr absolute_path_buf ∪ null_ty)
    & opt "approvalPolicy" (ask_for_approval ∪ null_ty)
    & opt "approvalsReviewer" (approvals_reviewer ∪ null_ty)
    & opt "sandboxPolicy" (sandbox_policy ∪ null_ty)
    & opt "permissions" (str ∪ null_ty)
    & opt "model" (str ∪ null_ty)
    & opt "serviceTier" (str ∪ null_ty ∪ null_ty)
    & opt "serviceTierForTurn" (str ∪ null_ty)
    & opt "effort" (reasoning_effort ∪ null_ty)
    & opt "summary" (reasoning_summary ∪ null_ty)
    & opt "personality" (personality ∪ null_ty)
    & opt "outputSchema" (any ∪ null_ty)
    & opt "collaborationMode" (collaboration_mode ∪ null_ty)
    & opt "multiAgentMode" (multi_agent_mode ∪ null_ty)
    & opt "cyberAccessProgram" (cyber_access_program ∪ null_ty)
    & none_more)

-- v2/Turn.ts
abbrev pub turn : Ty
turn = obj (
    req "id" str
    & req "items" (arr thread_item)
    & req "itemsView" turn_items_view
    & req "status" turn_status
    & req "error" (turn_error ∪ null_ty)
    & req "startedAt" (num ∪ null_ty)
    & req "completedAt" (num ∪ null_ty)
    & req "durationMs" (num ∪ null_ty)
    & none_more)

-- v2/TurnsPage.ts
abbrev pub turns_page : Ty
turns_page = obj (
    req "data" (arr turn)
    & req "nextCursor" (str ∪ null_ty)
    & req "backwardsCursor" (str ∪ null_ty)
    & none_more)

-- v2/TurnStartResponse.ts
abbrev pub turn_start_response : Ty
turn_start_response = obj (req "turn" turn & none_more)

-- v2/TurnCompletedNotification.ts
abbrev pub turn_completed_notification : Ty
turn_completed_notification = obj (req "threadId" str & req "turn" turn & none_more)

-- v2/TurnStartedNotification.ts
abbrev pub turn_started_notification : Ty
turn_started_notification = obj (req "threadId" str & req "turn" turn & none_more)
