-- ===== src/Protocol/Types/Composites.antt =====
-- probes/app-server-ts: composites, one definition for each file.
use codex_waiting_plgin.Protocol.Schema.{
  Ty, any, arr, bool, dict, none_more, null_ty, num, obj, opt, req, str, ◌&◌, ◌∪◌,
}
use codex_waiting_plgin.Protocol.Types.AccountData.{
  cli_auth_credentials_store_mode, plugin_auth_policy,
}
use codex_waiting_plgin.Protocol.Types.AppsData.{
  app_summary, app_template_summary, in_app_browser_requirements, plugin_availability,
  plugin_disabled_reason, plugin_interface, plugin_share_context, plugin_source, skill_interface,
  skill_scope, skill_summary,
}
use codex_waiting_plgin.Protocol.Types.Basics.{absolute_path_buf}
use codex_waiting_plgin.Protocol.Types.BasicsData.{
  auto_review_requirements, computer_use_requirements, feedback_requirements, marketplace_interface,
  multi_agent_version, residency_requirement, scheduled_task_summary,
}
use codex_waiting_plgin.Protocol.Types.BasicsDataBase.{path_uri, resource, resource_template}
use codex_waiting_plgin.Protocol.Types.CompositesBase.{browser_use_requirements}
use codex_waiting_plgin.Protocol.Types.Config.{
  approvals_reviewer, ask_for_approval, sandbox_mode, windows_sandbox_setup_mode,
}
use codex_waiting_plgin.Protocol.Types.ConfigData.{
  config_layer_metadata, configured_hook_matcher_group, network_requirements, plugin_install_policy,
  plugin_install_policy_source,
}
use codex_waiting_plgin.Protocol.Types.ItemsBase.{reasoning_effort}
use codex_waiting_plgin.Protocol.Types.ItemsData.{
  plugin_hook_summary, reasoning_effort_option, skill_tool_dependency, tool, web_search_mode,
}
use codex_waiting_plgin.Protocol.Types.McpData.{
  mcp_auth_status, mcp_server_connection_status, mcp_server_info,
}
use codex_waiting_plgin.Protocol.Types.ThreadsData.{
  model_availability_nux, model_service_tier, model_upgrade_info, models_requirements,
}
use codex_waiting_plgin.Protocol.Types.TurnsData.{
  input_modality, skill_error_info, thread_search_text_range,
}

-- v2/ManagedHooksRequirements.ts
abbrev pub managed_hooks_requirements : Ty
managed_hooks_requirements = obj (
    req "managedDir" (str ∪ null_ty)
    & req "windowsManagedDir" (str ∪ null_ty)
    & req "PreToolUse" (arr configured_hook_matcher_group)
    & req "PermissionRequest" (arr configured_hook_matcher_group)
    & req "PostToolUse" (arr configured_hook_matcher_group)
    & req "PreCompact" (arr configured_hook_matcher_group)
    & req "PostCompact" (arr configured_hook_matcher_group)
    & req "SessionStart" (arr configured_hook_matcher_group)
    & req "SessionEnd" (arr configured_hook_matcher_group)
    & req "UserPromptSubmit" (arr configured_hook_matcher_group)
    & req "SubagentStart" (arr configured_hook_matcher_group)
    & req "SubagentStop" (arr configured_hook_matcher_group)
    & req "Stop" (arr configured_hook_matcher_group)
    & req "Interrupt" (arr configured_hook_matcher_group)
    & none_more)

-- v2/ConfigRequirements.ts
abbrev pub config_requirements : Ty
config_requirements = obj (
    req "cliAuthCredentialsStore" (cli_auth_credentials_store_mode ∪ null_ty)
    & req "chatgptBaseUrl" (str ∪ null_ty)
    & req "additionalDeveloperInstructions" (str ∪ null_ty)
    & req "allowedApprovalPolicies" (arr ask_for_approval ∪ null_ty)
    & req "allowedApprovalsReviewers" (arr approvals_reviewer ∪ null_ty)
    & req "allowedSandboxModes" (arr sandbox_mode ∪ null_ty)
    & req "allowedWindowsSandboxImplementations" (arr windows_sandbox_setup_mode ∪ null_ty)
    & req "allowedPermissionProfiles" (dict bool ∪ null_ty)
    & req "defaultPermissions" (str ∪ null_ty)
    & req "allowedWebSearchModes" (arr web_search_mode ∪ null_ty)
    & req "allowManagedHooksOnly" (bool ∪ null_ty)
    & req "allowBrowserAndComputerUse" (bool ∪ null_ty)
    & req "allowAppshots" (bool ∪ null_ty)
    & req "allowRemoteControl" (bool ∪ null_ty)
    & req "computerUse" (computer_use_requirements ∪ null_ty)
    & req "browserUse" (browser_use_requirements ∪ null_ty)
    & req "inAppBrowser" (in_app_browser_requirements ∪ null_ty)
    & req "featureRequirements" (dict bool ∪ null_ty)
    & req "hooks" (managed_hooks_requirements ∪ null_ty)
    & req "enforceResidency" (residency_requirement ∪ null_ty)
    & req "network" (network_requirements ∪ null_ty)
    & req "autoReview" (auto_review_requirements ∪ null_ty)
    & req "models" (models_requirements ∪ null_ty)
    & req "sqliteHome" (path_uri ∪ null_ty)
    & req "logDir" (path_uri ∪ null_ty)
    & req "modelCatalogJson" (path_uri ∪ null_ty)
    & req "checkForUpdateOnStartup" (bool ∪ null_ty)
    & req "allowLoginShell" (bool ∪ null_ty)
    & req "feedback" (feedback_requirements ∪ null_ty)
    & req "windowsSandboxPrivateDesktop" (bool ∪ null_ty)
    & none_more)

-- v2/OverriddenMetadata.ts
abbrev pub overridden_metadata : Ty
overridden_metadata = obj (
    req "message" str
    & req "overridingLayer" config_layer_metadata
    & req "effectiveValue" any
    & none_more)

-- v2/McpServerStatus.ts
abbrev pub mcp_server_status : Ty
mcp_server_status = obj (
    req "name" str
    & req "runtimeStatus" (mcp_server_connection_status ∪ null_ty)
    & req "pluginId" (str ∪ null_ty)
    & req "serverInfo" (mcp_server_info ∪ null_ty)
    & req "tools" (dict tool)
    & req "resources" (arr resource)
    & req "resourceTemplates" (arr resource_template)
    & req "authStatus" mcp_auth_status
    & none_more)

-- v2/Model.ts
abbrev pub model : Ty
model = obj (
    req "id" str
    & req "model" str
    & req "upgrade" (str ∪ null_ty)
    & req "upgradeInfo" (model_upgrade_info ∪ null_ty)
    & req "availabilityNux" (model_availability_nux ∪ null_ty)
    & req "displayName" str
    & req "description" str
    & req "modelSpecialty" (str ∪ null_ty)
    & req "hidden" bool
    & req "supportedReasoningEfforts" (arr reasoning_effort_option)
    & req "defaultReasoningEffort" reasoning_effort
    & req "inputModalities" (arr input_modality)
    & req "supportsPersonality" bool
    & req "multiAgentVersion" (multi_agent_version ∪ null_ty)
    & req "additionalSpeedTiers" (arr str)
    & req "serviceTiers" (arr model_service_tier)
    & req "defaultServiceTier" (str ∪ null_ty)
    & req "isDefault" bool
    & none_more)

-- v2/PluginSummary.ts
abbrev pub plugin_summary : Ty
plugin_summary = obj (
    req "id" str
    & req "remotePluginId" (str ∪ null_ty)
    & req "version" (str ∪ null_ty)
    & req "localVersion" (str ∪ null_ty)
    & req "name" str
    & req "shareContext" (plugin_share_context ∪ null_ty)
    & req "source" plugin_source
    & req "installed" bool
    & req "installedAt" (num ∪ null_ty)
    & req "enabled" bool
    & req "installPolicy" plugin_install_policy
    & req "installPolicySource" (plugin_install_policy_source ∪ null_ty)
    & req "mustShowInstallationInterstitial" (bool ∪ null_ty)
    & req "authPolicy" plugin_auth_policy
    & req "availability" plugin_availability
    & req "disabledReason" (plugin_disabled_reason ∪ null_ty)
    & req "eligiblePlanTypes" (arr str ∪ null_ty)
    & req "interface" (plugin_interface ∪ null_ty)
    & req "keywords" (arr str)
    & none_more)

-- v2/PluginDetail.ts
abbrev pub plugin_detail : Ty
plugin_detail = obj (
    req "marketplaceName" str
    & req "marketplacePath" (absolute_path_buf ∪ null_ty)
    & req "summary" plugin_summary
    & req "shareUrl" (str ∪ null_ty)
    & req "description" (str ∪ null_ty)
    & req "skills" (arr skill_summary)
    & req "hooks" (arr plugin_hook_summary)
    & req "apps" (arr app_summary)
    & req "appTemplates" (arr app_template_summary)
    & req "mcpServers" (arr str)
    & req "scheduledTasks" (arr scheduled_task_summary ∪ null_ty)
    & none_more)

-- v2/PluginMarketplaceEntry.ts
abbrev pub plugin_marketplace_entry : Ty
plugin_marketplace_entry = obj (
    req "name" str
    & req "path" (absolute_path_buf ∪ null_ty)
    & req "interface" (marketplace_interface ∪ null_ty)
    & req "plugins" (arr plugin_summary)
    & none_more)

-- v2/PluginSearchResult.ts
abbrev pub plugin_search_result : Ty
plugin_search_result = obj (
    req "plugin" plugin_summary
    & req "marketplaceName" str
    & req "marketplacePath" (absolute_path_buf ∪ null_ty)
    & none_more)

-- v2/PluginShareListItem.ts
abbrev pub plugin_share_list_item : Ty
plugin_share_list_item =
    obj (
      req "plugin" plugin_summary & req "localPluginPath" (absolute_path_buf ∪ null_ty) & none_more)

-- v2/SkillDependencies.ts
abbrev pub skill_dependencies : Ty
skill_dependencies = obj (req "tools" (arr skill_tool_dependency) & none_more)

-- v2/SkillMetadata.ts
abbrev pub skill_metadata : Ty
skill_metadata = obj (
    req "name" str
    & req "description" str
    & opt "shortDescription" str
    & opt "interface" skill_interface
    & opt "dependencies" skill_dependencies
    & req "path" absolute_path_buf
    & req "scope" skill_scope
    & req "enabled" bool
    & req "pluginId" (str ∪ null_ty)
    & none_more)

-- v2/SkillsListEntry.ts
abbrev pub skills_list_entry : Ty
skills_list_entry = obj (
    req "cwd" str
    & req "skills" (arr skill_metadata)
    & req "errors" (arr skill_error_info)
    & none_more)

-- v2/ThreadSearchOccurrence.ts
abbrev pub thread_search_occurrence : Ty
thread_search_occurrence = obj (
    req "turnId" str
    & req "itemId" str
    & req "snippet" str
    & req "snippetMatchRange" thread_search_text_range
    & req "turnCursor" str
    & none_more)
