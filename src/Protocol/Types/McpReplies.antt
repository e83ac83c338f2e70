-- ===== src/Protocol/Types/McpReplies.antt =====
-- probes/app-server-ts: mcp replies, one definition for each file.
use codex_waiting_plgin.Protocol.Schema.{
  Ty, any, arr, bool, none_more, null_ty, num, obj, opt, req, str, ◌&◌, ◌∪◌,
}
use codex_waiting_plgin.Protocol.Types.Composites.{mcp_server_status}
use codex_waiting_plgin.Protocol.Types.ItemsData.{resource_content}
use codex_waiting_plgin.Protocol.Types.McpData.{mcp_server_elicitation_action}

-- v2/ListMcpServerStatusResponse.ts
abbrev pub list_mcp_server_status_response : Ty
list_mcp_server_status_response =
    obj (req "data" (arr mcp_server_status) & req "nextCursor" (str ∪ null_ty) & none_more)

-- v2/McpResourceReadResponse.ts
abbrev pub mcp_resource_read_response : Ty
mcp_resource_read_response =
    obj (req "contents" (arr resource_content) & req "originCallId" (str ∪ null_ty) & none_more)

-- v2/McpServerElicitationRequestResponse.ts
abbrev pub mcp_server_elicitation_request_response : Ty
mcp_server_elicitation_request_response = obj (
    req "action" mcp_server_elicitation_action
    & req "content" (any ∪ null_ty)
    & req "_meta" (any ∪ null_ty)
    & none_more)

-- v2/McpServerEventStreamStartResponse.ts
abbrev pub mcp_server_event_stream_start_response : Ty
mcp_server_event_stream_start_response = obj (none_more)

-- v2/McpServerEventStreamStopResponse.ts
abbrev pub mcp_server_event_stream_stop_response : Ty
mcp_server_event_stream_stop_response = obj (none_more)

-- v2/McpServerOauthLoginResponse.ts
abbrev pub mcp_server_oauth_login_response : Ty
mcp_server_oauth_login_response = obj (req "authorizationUrl" str & none_more)

-- v2/McpServerRefreshResponse.ts
abbrev pub mcp_server_refresh_response : Ty
mcp_server_refresh_response = obj (none_more)

-- v2/McpServerToolCallResponse.ts
abbrev pub mcp_server_tool_call_response : Ty
mcp_server_tool_call_response = obj (
    req "content" (arr any)
    & opt "structuredContent" any
    & opt "isError" bool
    & opt "_meta" any
    & none_more)

-- v2/ThreadDecrementElicitationResponse.ts
abbrev pub thread_decrement_elicitation_response : Ty
thread_decrement_elicitation_response = obj (req "count" num & req "paused" bool & none_more)

-- v2/ThreadIncrementElicitationResponse.ts
abbrev pub thread_increment_elicitation_response : Ty
thread_increment_elicitation_response = obj (req "count" num & req "paused" bool & none_more)
