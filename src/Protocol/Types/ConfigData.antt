-- ===== src/Protocol/Types/ConfigData.antt =====
-- probes/app-server-ts: config data, one definition for each file.
use codex_waiting_plgin.Protocol.Schema.{
  Ty, any, arr, bool, dict, lit, none_more, null_ty, num, obj, opt, req, str, ◌&◌, ◌∩◌, ◌∪◌,
}
use codex_waiting_plgin.Protocol.Types.Approvals.{additional_file_system_permissions}
use codex_waiting_plgin.Protocol.Types.Basics.{absolute_path_buf}
use codex_waiting_plgin.Protocol.Types.Config.{
  additional_network_permissions, approvals_reviewer,
  external_agent_config_import_item_type_failure, external_agent_config_import_item_type_success,
}

-- ExecPolicyAmendment.ts
abbrev pub exec_policy_amendment_root : Ty
exec_policy_amendment_root = arr str

-- NetworkPolicyRuleAction.ts
abbrev pub network_policy_rule_action_root : Ty
network_policy_rule_action_root = lit "allow" ∪ lit "deny"

-- NetworkPolicyAmendment.ts
abbrev pub network_policy_amendment_root : Ty
network_policy_amendment_root =
    obj (req "host" str & req "action" network_policy_rule_action_root & none_more)

-- v2/AnalyticsConfig.ts
abbrev pub analytics_config : Ty
analytics_config =
    obj (req "enabled" (bool ∪ null_ty) & none_more)
    ∩ dict (num ∪ str ∪ bool ∪ arr any ∪ dict any ∪ null_ty)

-- v2/AppToolApproval.ts
abbrev pub app_tool_approval : Ty
app_tool_approval = lit "auto" ∪ lit "prompt" ∪ lit "writes" ∪ lit "approve"

-- v2/AppLinksConfig.ts
abbrev pub app_links_config : Ty
app_links_config = dict (
    obj (
      req "approvals_reviewer" (approvals_reviewer ∪ null_ty)
      & req "default_tools_approval_mode" (app_tool_approval ∪ null_ty)
      & none_more))

-- v2/AppToolsConfig.ts
abbrev pub app_tools_config : Ty
app_tools_config = dict (
    obj (
      req "enabled" (bool ∪ null_ty)
      & req "approval_mode" (app_tool_approval ∪ null_ty)
      & none_more))

-- v2/AppsDefaultConfig.ts
abbrev pub apps_default_config : Ty
apps_default_config = obj (
    req "enabled" bool
    & req "approvals_reviewer" (approvals_reviewer ∪ null_ty)
    & req "destructive_enabled" bool
    & req "open_world_enabled" bool
    & req "default_tools_approval_mode" (app_tool_approval ∪ null_ty)
    & none_more)

-- v2/AppsConfig.ts
abbrev pub apps_config : Ty
apps_config =
    obj (req "_default" (apps_default_config ∪ null_ty) & none_more)
    ∩ dict (
        obj (
          req "enabled" bool
          & req "approvals_reviewer" (approvals_reviewer ∪ null_ty)
          & req "destructive_enabled" (bool ∪ null_ty)
          & req "open_world_enabled" (bool ∪ null_ty)
          & req "default_tools_approval_mode" (app_tool_approval ∪ null_ty)
          & req "default_tools_enabled" (bool ∪ null_ty)
          & req "tools" (app_tools_config ∪ null_ty)
          & req "links" (app_links_config ∪ null_ty)
          & none_more))

-- v2/BrowserUseAccessApprovalLifetime.ts
abbrev pub browser_use_access_approval_lifetime : Ty
browser_use_access_approval_lifetime = lit "turn" ∪ lit "thread"

-- v2/ConfigLayerSource.ts
abbrev pub config_layer_source : Ty
config_layer_source =
    obj (req "type" (lit "packagedDefaults") & req "file" absolute_path_buf & none_more)
    ∪ obj (req "type" (lit "mdm") & req "domain" str & req "key" str & none_more)
    ∪ obj (req "type" (lit "system") & req "file" absolute_path_buf & none_more)
    ∪ obj (req "type" (lit "enterpriseManaged") & req "id" str & req "name" str & none_more)
    ∪ obj (
        req "type" (lit "user")
        & req "file" absolute_path_buf
        & req "profile" (str ∪ null_ty)
        & none_more)
    ∪ obj (req "type" (lit "project") & req "dotCodexFolder" absolute_path_buf & none_more)
    ∪ obj (req "type" (lit "sessionFlags") & none_more)
    ∪ obj (
        req "type" (lit "legacyManagedConfigTomlFromFile")
        & req "file" absolute_path_buf
        & none_more)
    ∪ obj (req "type" (lit "legacyManagedConfigTomlFromMdm") & none_more)

-- v2/ConfigLayer.ts
abbrev pub config_layer : Ty
config_layer = obj (
    req "name" config_layer_source
    & req "version" str
    & req "config" any
    & req "disabledReason" (str ∪ null_ty)
    & none_more)

-- v2/ConfigLayerMetadata.ts
abbrev pub config_layer_metadata : Ty
config_layer_metadata = obj (req "name" config_layer_source & req "version" str & none_more)

-- v2/ConfiguredHookHandler.ts
abbrev pub configured_hook_handler : Ty
configured_hook_handler =
    obj (
      req "type" (lit "command")
      & req "command" str
      & req "commandWindows" (str ∪ null_ty)
      & req "timeoutSec" (num ∪ null_ty)
      & req "async" bool
      & req "statusMessage" (str ∪ null_ty)
      & req "additionalContextLimit" (num ∪ null_ty)
      & none_more)
    ∪ obj (
        req "type" (lit "mcp_tool")
        & req "server" str
        & req "tool" str
        & req "input" (dict any)
        & req "timeoutSec" (num ∪ null_ty)
        & req "statusMessage" (str ∪ null_ty)
        & none_more)
    ∪ obj (req "type" (lit "prompt") & none_more)
    ∪ obj (req "type" (lit "agent") & none_more)

-- v2/ConfiguredHookMatcherGroup.ts
abbrev pub configured_hook_matcher_group : Ty
configured_hook_matcher_group =
    obj (req "matcher" (str ∪ null_ty) & req "hooks" (arr configured_hook_handler) & none_more)

-- v2/NetworkDomainPermission.ts
abbrev pub network_domain_permission : Ty
network_domain_permission = lit "allow" ∪ lit "deny"

-- v2/NetworkUnixSocketPermission.ts
abbrev pub network_unix_socket_permission : Ty
network_unix_socket_permission = lit "allow" ∪ lit "deny"

-- v2/NetworkRequirements.ts
abbrev pub network_requirements : Ty
network_requirements = obj (
    req "enabled" (bool ∪ null_ty)
    & req "httpPort" (num ∪ null_ty)
    & req "socksPort" (num ∪ null_ty)
    & req "allowUpstreamProxy" (bool ∪ null_ty)
    & req "dangerouslyAllowNonLoopbackProxy" (bool ∪ null_ty)
    & req "dangerouslyAllowAllUnixSockets" (bool ∪ null_ty)
    & req "domains" (dict network_domain_permission ∪ null_ty)
    & req "managedAllowedDomainsOnly" (bool ∪ null_ty)
    & req "allowedDomains" (arr str ∪ null_ty)
    & req "deniedDomains" (arr str ∪ null_ty)
    & req "unixSockets" (dict network_unix_socket_permission ∪ null_ty)
    & req "allowUnixSockets" (arr str ∪ null_ty)
    & req "allowLocalBinding" (bool ∪ null_ty)
    & none_more)

-- v2/EnvironmentShellInfo.ts
abbrev pub environment_shell_info : Ty
environment_shell_info = obj (req "name" str & req "path" str & none_more)

-- v2/EnvironmentStatusKind.ts
abbrev pub environment_status_kind : Ty
environment_status_kind = lit "ready" ∪ lit "pending" ∪ lit "disconnected" ∪ lit "unknown"

-- v2/ExternalAgentConfigImportHistory.ts
abbrev pub external_agent_config_import_history : Ty
external_agent_config_import_history = obj (
    req "importId" str
    & req "providerId" (str ∪ null_ty)
    & req "completedAtMs" num
    & req "successes" (arr external_agent_config_import_item_type_success)
    & req "failures" (arr external_agent_config_import_item_type_failure)
    & none_more)

-- v2/FileChangeApprovalDecision.ts
abbrev pub file_change_approval_decision : Ty
file_change_approval_decision = lit "accept" ∪ lit "acceptForSession" ∪ lit "decline" ∪ lit "cancel"

-- v2/GrantedPermissionProfile.ts
abbrev pub granted_permission_profile : Ty
granted_permission_profile = obj (
    opt "network" additional_network_permissions
    & opt "fileSystem" additional_file_system_permissions
    & none_more)

-- v2/PermissionGrantScope.ts
abbrev pub permission_grant_scope : Ty
permission_grant_scope = lit "turn" ∪ lit "session"

-- v2/PermissionProfileSummary.ts
abbrev pub permission_profile_summary : Ty
permission_profile_summary =
    obj (req "id" str & req "description" (str ∪ null_ty) & req "allowed" bool & none_more)

-- v2/PluginInstallPolicy.ts
abbrev pub plugin_install_policy : Ty
plugin_install_policy = lit "NOT_AVAILABLE" ∪ lit "AVAILABLE" ∪ lit "INSTALLED_BY_DEFAULT"

-- v2/PluginInstallPolicySource.ts
abbrev pub plugin_install_policy_source : Ty
plugin_install_policy_source = lit "WORKSPACE_SETTING" ∪ lit "IMPLICIT_CANONICAL_APP"

-- v2/WindowsSandboxReadiness.ts
abbrev pub windows_sandbox_readiness : Ty
windows_sandbox_readiness = lit "ready" ∪ lit "notConfigured" ∪ lit "updateRequired"
