-- ===== src/Protocol/Types/McpRequests.antt =====
-- probes/app-server-ts: mcp requests, one definition for each file.
use codex_waiting_plgin.Protocol.Schema.{
  Ty, any, arr, none_more, null_ty, num, obj, opt, req, str, ◌&◌, ◌∪◌,
}
use codex_waiting_plgin.Protocol.Types.McpData.{
  mcp_server_oauth_client_registration, mcp_server_status_detail,
}

-- v2/ListMcpServerStatusParams.ts
abbrev pub list_mcp_server_status_params : Ty
list_mcp_server_status_params = obj (
    opt "cursor" (str ∪ null_ty)
    & opt "limit" (num ∪ null_ty)
    & opt "detail" (mcp_server_status_detail ∪ null_ty)
    & opt "threadId" (str ∪ null_ty)
    & none_more)

-- v2/McpResourceReadParams.ts
abbrev pub mcp_resource_read_params : Ty
mcp_resource_read_params = obj (
    opt "threadId" (str ∪ null_ty)
    & opt "originCallId" (str ∪ null_ty)
    & req "server" str
    & req "uri" str
    & opt "connectorId" (str ∪ null_ty)
    & none_more)

-- v2/McpServerEventStreamStartParams.ts
abbrev pub mcp_server_event_stream_start_params : Ty
mcp_server_event_stream_start_params = obj (
    req "threadId" str
    & req "server" str
    & req "subscriptionId" str
    & req "name" str
    & req "arguments" any
    & opt "_meta" (any ∪ null_ty)
    & none_more)

-- v2/McpServerEventStreamStopParams.ts
abbrev pub mcp_server_event_stream_stop_params : Ty
mcp_server_event_stream_stop_params = obj (req "subscriptionId" str & none_more)

-- v2/McpServerOauthLoginParams.ts
abbrev pub mcp_server_oauth_login_params : Ty
mcp_server_oauth_login_params = obj (
    req "name" str
    & opt "threadId" (str ∪ null_ty)
    & opt "clientRegistration" (mcp_server_oauth_client_registration ∪ null_ty)
    & opt "scopes" (arr str ∪ null_ty)
    & opt "timeoutSecs" (num ∪ null_ty)
    & none_more)

-- v2/McpServerToolCallParams.ts
abbrev pub mcp_server_tool_call_params : Ty
mcp_server_tool_call_params = obj (
    req "threadId" str
    & req "server" str
    & req "tool" str
    & opt "arguments" any
    & opt "_meta" any
    & none_more)

-- v2/ThreadDecrementElicitationParams.ts
abbrev pub thread_decrement_elicitation_params : Ty
thread_decrement_elicitation_params = obj (req "threadId" str & none_more)

-- v2/ThreadIncrementElicitationParams.ts
abbrev pub thread_increment_elicitation_params : Ty
thread_increment_elicitation_params = obj (req "threadId" str & none_more)
