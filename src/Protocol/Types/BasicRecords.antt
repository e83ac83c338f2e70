-- ===== src/Protocol/Types/BasicRecords.antt =====
-- probes/app-server-ts: basic records, one definition for each file.
use codex_waiting_plgin.Protocol.Schema.{Ty, lit, none_more, null_ty, num, obj, req, str, ◌&◌, ◌∪◌}
use codex_waiting_plgin.Protocol.Types.Account.{token_usage_breakdown}
use codex_waiting_plgin.Protocol.Types.Basics.{agent_path, response_usage_metadata}
use codex_waiting_plgin.Protocol.Types.ItemsBase.{reasoning_effort}
use codex_waiting_plgin.Protocol.Types.Threads.{thread_id}

-- Settings.ts
abbrev pub settings : Ty
settings = obj (
    req "model" str
    & req "reasoning_effort" (reasoning_effort ∪ null_ty)
    & req "developer_instructions" (str ∪ null_ty)
    & none_more)

-- SubAgentSource.ts
abbrev pub sub_agent_source : Ty
sub_agent_source =
    lit "review"
    ∪ lit "compact"
    ∪ obj (
        req "thread_spawn" (
          obj (
            req "parent_thread_id" thread_id
            & req "depth" num
            & req "agent_path" (agent_path ∪ null_ty)
            & req "agent_nickname" (str ∪ null_ty)
            & req "agent_role" (str ∪ null_ty)
            & none_more))
        & none_more)
    ∪ lit "memory_consolidation"
    ∪ obj (req "other" str & none_more)

-- v2/RawResponseCompletedNotification.ts
abbrev pub raw_response_completed_notification : Ty
raw_response_completed_notification = obj (
    req "threadId" str
    & req "turnId" str
    & req "responseId" str
    & req "usage" (token_usage_breakdown ∪ null_ty)
    & req "usageMetadata" (response_usage_metadata ∪ null_ty)
    & none_more)
