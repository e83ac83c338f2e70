-- ===== src/Protocol/Types/TurnsRequests.antt =====
-- probes/app-server-ts: turns requests, one definition for each file.
use codex_waiting_plgin.Protocol.Schema.{
  Ty, arr, dict, none_more, null_ty, num, obj, opt, req, str, ◌&◌, ◌∪◌,
}
use codex_waiting_plgin.Protocol.Types.Basics.{additional_context_entry, sort_direction}
use codex_waiting_plgin.Protocol.Types.Config.{approvals_reviewer}
use codex_waiting_plgin.Protocol.Types.ItemsBase.{
  reasoning_effort, reasoning_summary, turn_items_view,
}
use codex_waiting_plgin.Protocol.Types.TurnInputs.{user_input}

-- v2/ThreadTurnsListParams.ts
abbrev pub thread_turns_list_params : Ty
thread_turns_list_params = obj (
    req "threadId" str
    & opt "cursor" (str ∪ null_ty)
    & opt "limit" (num ∪ null_ty)
    & opt "sortDirection" (sort_direction ∪ null_ty)
    & opt "itemsView" (turn_items_view ∪ null_ty)
    & none_more)

-- v2/TurnSettingsUpdateParams.ts
abbrev pub turn_settings_update_params : Ty
turn_settings_update_params = obj (
    req "threadId" str
    & req "turnId" str
    & opt "approvalsReviewer" (approvals_reviewer ∪ null_ty)
    & opt "model" (str ∪ null_ty)
    & opt "effort" (reasoning_effort ∪ null_ty)
    & opt "summary" (reasoning_summary ∪ null_ty)
    & opt "serviceTier" (str ∪ null_ty ∪ null_ty)
    & none_more)

-- v2/TurnSteerParams.ts
abbrev pub turn_steer_params : Ty
turn_steer_params = obj (
    req "threadId" str
    & opt "clientUserMessageId" (str ∪ null_ty)
    & req "input" (arr user_input)
    & opt "responsesapiClientMetadata" (dict str ∪ null_ty)
    & opt "additionalContext" (dict additional_context_entry ∪ null_ty)
    & req "expectedTurnId" str
    & none_more)
