-- ===== src/Protocol/Types/CompositesBase.antt =====
-- probes/app-server-ts: composites base, one definition for each file.
use codex_waiting_plgin.Protocol.Schema.{
  Ty, any, arr, bool, dict, lit, none_more, null_ty, num, obj, opt, req, str, ◌&◌, ◌∩◌, ◌∪◌,
}
use codex_waiting_plgin.Protocol.Types.AccountData.{
  auto_compact_token_limit_scope, forced_chatgpt_workspace_ids, forced_login_method,
  sandbox_workspace_write,
}
use codex_waiting_plgin.Protocol.Types.AppsData.{plugins_migration, skill_migration}
use codex_waiting_plgin.Protocol.Types.BasicsData.{
  allow_deny_requirement, aws_credential_type, verbosity,
}
use codex_waiting_plgin.Protocol.Types.BasicsDataBase.{merge_strategy, subagent_migration}
use codex_waiting_plgin.Protocol.Types.Config.{
  approvals_reviewer, ask_for_approval, external_agent_config_migration_item_type, sandbox_mode,
}
use codex_waiting_plgin.Protocol.Types.ConfigData.{
  analytics_config, apps_config, browser_use_access_approval_lifetime, exec_policy_amendment_root,
  network_policy_amendment_root,
}
use codex_waiting_plgin.Protocol.Types.ItemsBase.{reasoning_effort, reasoning_summary}
use codex_waiting_plgin.Protocol.Types.ItemsData.{
  app_tool_summary, command_migration, hook_migration, web_search_context_size, web_search_location,
  web_search_mode,
}
use codex_waiting_plgin.Protocol.Types.McpData.{mcp_server_migration}
use codex_waiting_plgin.Protocol.Types.Threads.{thread_id}
use codex_waiting_plgin.Protocol.Types.ThreadsData.{
  conversation_git_info, session_migration, session_source_root,
}
use codex_waiting_plgin.Protocol.Types.TurnsData.{conversation_text_role}

-- ReviewDecision.ts
abbrev pub review_decision : Ty
review_decision =
    lit "approved"
    ∪ obj (
        req "approved_execpolicy_amendment"
          (obj (req "proposed_execpolicy_amendment" exec_policy_amendment_root & none_more))
        & none_more)
    ∪ lit "approved_for_session"
    ∪ lit "approved_mcp_policy_amendment"
    ∪ obj (
        req "network_policy_amendment"
          (obj (req "network_policy_amendment" network_policy_amendment_root & none_more))
        & none_more)
    ∪ obj (req "denied" (obj (req "rejection" str & none_more)) & none_more)
    ∪ lit "timed_out"
    ∪ lit "abort"

-- v2/ConfigEdit.ts
abbrev pub config_edit : Ty
config_edit =
    obj (req "keyPath" str & req "value" any & req "mergeStrategy" merge_strategy & none_more)

-- v2/MigrationDetails.ts
abbrev pub migration_details : Ty
migration_details = obj (
    req "plugins" (arr plugins_migration)
    & req "skills" (arr skill_migration)
    & req "sessions" (arr session_migration)
    & req "mcpServers" (arr mcp_server_migration)
    & req "hooks" (arr hook_migration)
    & req "subagents" (arr subagent_migration)
    & req "commands" (arr command_migration)
    & opt "memory" (arr str)
    & none_more)

-- v2/ExternalAgentConfigMigrationItem.ts
abbrev pub external_agent_config_migration_item : Ty
external_agent_config_migration_item = obj (
    req "itemType" external_agent_config_migration_item_type
    & req "description" str
    & req "cwd" (str ∪ null_ty)
    & req "details" (migration_details ∪ null_ty)
    & none_more)

-- v2/ThreadRealtimeInitialItem.ts
abbrev pub thread_realtime_initial_item : Ty
thread_realtime_initial_item = obj (req "role" conversation_text_role & req "text" str & none_more)

-- ConversationSummary.ts
abbrev pub conversation_summary : Ty
conversation_summary = obj (
    req "conversationId" thread_id
    & req "path" str
    & req "preview" str
    & req "timestamp" (str ∪ null_ty)
    & req "updatedAt" (str ∪ null_ty)
    & req "modelProvider" str
    & req "cwd" str
    & req "cliVersion" str
    & req "source" session_source_root
    & req "gitInfo" (conversation_git_info ∪ null_ty)
    & none_more)

-- WebSearchToolConfig.ts
abbrev pub web_search_tool_config : Ty
web_search_tool_config = obj (
    req "context_size" (web_search_context_size ∪ null_ty)
    & req "allowed_domains" (arr str ∪ null_ty)
    & req "location" (web_search_location ∪ null_ty)
    & none_more)

-- v2/ConnectorMetadata.ts
abbrev pub connector_metadata : Ty
connector_metadata = obj (
    req "id" str
    & req "name" str
    & req "description" (str ∪ null_ty)
    & req "iconUrl" (str ∪ null_ty)
    & req "iconUrlDark" (str ∪ null_ty)
    & req "distributionChannel" (str ∪ null_ty)
    & req "installUrl" (str ∪ null_ty)
    & req "pluginDisplayNames" (arr str)
    & req "toolSummaries" (arr app_tool_summary ∪ null_ty)
    & none_more)

-- v2/BedrockEnvironmentCredential.ts
abbrev pub bedrock_environment_credential : Ty
bedrock_environment_credential =
    obj (req "type" aws_credential_type & req "region" (str ∪ null_ty) & none_more)

-- v2/BrowserUseOriginPolicyConfig.ts
abbrev pub browser_use_origin_policy_config : Ty
browser_use_origin_policy_config = obj (
    req "access" (allow_deny_requirement ∪ null_ty)
    & req "downloads" (allow_deny_requirement ∪ null_ty)
    & req "uploads" (allow_deny_requirement ∪ null_ty)
    & req "full_cdp_access" (allow_deny_requirement ∪ null_ty)
    & none_more)

-- v2/BrowserUseConfig.ts
abbrev pub browser_use_config : Ty
browser_use_config = obj (
    req "allow_history_access" (bool ∪ null_ty)
    & req "default_origin_policy" (browser_use_origin_policy_config ∪ null_ty)
    & req "origins" (dict browser_use_origin_policy_config ∪ null_ty)
    & none_more)

-- v2/BrowserUseOriginPolicy.ts
abbrev pub browser_use_origin_policy : Ty
browser_use_origin_policy = obj (
    req "access" (allow_deny_requirement ∪ null_ty)
    & req "downloads" (allow_deny_requirement ∪ null_ty)
    & req "uploads" (allow_deny_requirement ∪ null_ty)
    & req "fullCdpAccess" (allow_deny_requirement ∪ null_ty)
    & req "autoReview" (allow_deny_requirement ∪ null_ty)
    & req "persistentApproval" (bool ∪ null_ty)
    & req "accessApprovalLifetime" (browser_use_access_approval_lifetime ∪ null_ty)
    & none_more)

-- v2/BrowserUseRequirements.ts
abbrev pub browser_use_requirements : Ty
browser_use_requirements = obj (
    req "allowHistoryAccess" (bool ∪ null_ty)
    & req "disableAutoReview" (bool ∪ null_ty)
    & req "allowGlobalPersistentApproval" (bool ∪ null_ty)
    & req "defaultOriginPolicy" (browser_use_origin_policy ∪ null_ty)
    & req "origins" (dict browser_use_origin_policy ∪ null_ty)
    & none_more)

-- v2/ComputerUseMacosConfig.ts
abbrev pub computer_use_macos_config : Ty
computer_use_macos_config =
    obj (req "bundle_ids" (dict allow_deny_requirement ∪ null_ty) & none_more)

-- v2/ComputerUseWindowsExeConfig.ts
abbrev pub computer_use_windows_exe_config : Ty
computer_use_windows_exe_config = obj (
    req "publisher_name" str
    & req "product_name" str
    & req "binary_name" (str ∪ null_ty)
    & req "access" allow_deny_requirement
    & none_more)

-- v2/ComputerUseWindowsConfig.ts
abbrev pub computer_use_windows_config : Ty
computer_use_windows_config = obj (
    req "aumids" (dict allow_deny_requirement ∪ null_ty)
    & req "exes" (arr computer_use_windows_exe_config ∪ null_ty)
    & none_more)

-- v2/ComputerUseConfig.ts
abbrev pub computer_use_config : Ty
computer_use_config = obj (
    req "default_app_access" (allow_deny_requirement ∪ null_ty)
    & req "macos" (computer_use_macos_config ∪ null_ty)
    & req "windows" (computer_use_windows_config ∪ null_ty)
    & none_more)

-- v2/ToolsV2.ts
abbrev pub tools_v2 : Ty
tools_v2 = obj (req "web_search" (web_search_tool_config ∪ null_ty) & none_more)

-- v2/Config.ts
abbrev pub config : Ty
config =
    obj (
      req "model" (str ∪ null_ty)
      & req "review_model" (str ∪ null_ty)
      & req "model_context_window" (num ∪ null_ty)
      & req "model_auto_compact_token_limit" (num ∪ null_ty)
      & req "model_auto_compact_token_limit_scope" (auto_compact_token_limit_scope ∪ null_ty)
      & req "model_provider" (str ∪ null_ty)
      & req "approval_policy" (ask_for_approval ∪ null_ty)
      & req "approvals_reviewer" (approvals_reviewer ∪ null_ty)
      & req "sandbox_mode" (sandbox_mode ∪ null_ty)
      & req "sandbox_workspace_write" (sandbox_workspace_write ∪ null_ty)
      & req "forced_chatgpt_workspace_id" (forced_chatgpt_workspace_ids ∪ null_ty)
      & req "forced_login_method" (forced_login_method ∪ null_ty)
      & req "web_search" (web_search_mode ∪ null_ty)
      & req "tools" (tools_v2 ∪ null_ty)
      & req "instructions" (str ∪ null_ty)
      & req "developer_instructions" (str ∪ null_ty)
      & req "compact_prompt" (str ∪ null_ty)
      & req "model_reasoning_effort" (reasoning_effort ∪ null_ty)
      & req "model_reasoning_summary" (reasoning_summary ∪ null_ty)
      & req "model_verbosity" (verbosity ∪ null_ty)
      & req "service_tier" (str ∪ null_ty)
      & req "analytics" (analytics_config ∪ null_ty)
      & req "apps" (apps_config ∪ null_ty)
      & req "browser_use" (browser_use_config ∪ null_ty)
      & req "computer_use" (computer_use_config ∪ null_ty)
      & req "desktop" (dict any ∪ null_ty)
      & none_more)
    ∩ dict (num ∪ str ∪ bool ∪ arr any ∪ dict any ∪ null_ty)
