-- ===== src/Protocol/Types/McpData.antt =====
-- probes/app-server-ts: mcp data, one definition for each file.
use codex_waiting_plgin.Protocol.Schema.{
  Ty, any, arr, lit, none_more, null_ty, obj, req, str, ◌&◌, ◌∪◌,
}

-- v2/McpServerMigration.ts
abbrev pub mcp_server_migration : Ty
mcp_server_migration = obj (req "name" str & none_more)

-- v2/McpServerStatusDetail.ts
abbrev pub mcp_server_status_detail : Ty
mcp_server_status_detail = lit "full" ∪ lit "toolsAndAuthOnly"

-- v2/McpServerOauthClientRegistration.ts
abbrev pub mcp_server_oauth_client_registration : Ty
mcp_server_oauth_client_registration = lit "auto" ∪ lit "cimd" ∪ lit "dcr"

-- McpServerInfo.ts
abbrev pub mcp_server_info : Ty
mcp_server_info = obj (
    req "name" str
    & req "title" (str ∪ null_ty)
    & req "version" str
    & req "description" (str ∪ null_ty)
    & req "icons" (arr any ∪ null_ty)
    & req "websiteUrl" (str ∪ null_ty)
    & none_more)

-- v2/McpAuthStatus.ts
abbrev pub mcp_auth_status : Ty
mcp_auth_status =
    lit "unknown" ∪ lit "unsupported" ∪ lit "notLoggedIn" ∪ lit "bearerToken" ∪ lit "oAuth"

-- v2/McpServerConnectionStatus.ts
abbrev pub mcp_server_connection_status : Ty
mcp_server_connection_status =
    lit "notStarted"
    ∪ lit "starting"
    ∪ lit "connected"
    ∪ lit "authenticationRequired"
    ∪ lit "failed"
    ∪ lit "cancelled"
    ∪ lit "disabled"

-- v2/McpServerElicitationAction.ts
abbrev pub mcp_server_elicitation_action : Ty
mcp_server_elicitation_action = lit "accept" ∪ lit "decline" ∪ lit "cancel"
