-- ===== src/Protocol/Types/AppsData.antt =====
-- probes/app-server-ts: apps data, one definition for each file.
use codex_waiting_plgin.Protocol.Schema.{
  Ty, arr, bool, lit, none_more, null_ty, num, obj, opt, req, str, ◌&◌, ◌∪◌,
}
use codex_waiting_plgin.Protocol.Types.Basics.{absolute_path_buf}

-- v2/PluginsMigration.ts
abbrev pub plugins_migration : Ty
plugins_migration = obj (req "marketplaceName" str & req "pluginNames" (arr str) & none_more)

-- v2/SkillMigration.ts
abbrev pub skill_migration : Ty
skill_migration = obj (req "name" str & none_more)

-- v2/PluginListMarketplaceKind.ts
abbrev pub plugin_list_marketplace_kind : Ty
plugin_list_marketplace_kind =
    lit "local"
    ∪ lit "vertical"
    ∪ lit "workspace-directory"
    ∪ lit "shared-with-me"
    ∪ lit "created-by-me-remote"

-- v2/PluginSearchScope.ts
abbrev pub plugin_search_scope : Ty
plugin_search_scope = lit "global" ∪ lit "workspace" ∪ lit "personal"

-- v2/PluginShareDiscoverability.ts
abbrev pub plugin_share_discoverability : Ty
plugin_share_discoverability = lit "LISTED" ∪ lit "UNLISTED" ∪ lit "PRIVATE"

-- v2/PluginSharePrincipalType.ts
abbrev pub plugin_share_principal_type : Ty
plugin_share_principal_type = lit "user" ∪ lit "group" ∪ lit "workspace"

-- v2/PluginShareTargetRole.ts
abbrev pub plugin_share_target_role : Ty
plugin_share_target_role = lit "reader" ∪ lit "editor"

-- v2/PluginShareTarget.ts
abbrev pub plugin_share_target : Ty
plugin_share_target = obj (
    req "principalType" plugin_share_principal_type
    & req "principalId" str
    & req "role" plugin_share_target_role
    & none_more)

-- v2/PluginShareUpdateDiscoverability.ts
abbrev pub plugin_share_update_discoverability : Ty
plugin_share_update_discoverability = lit "UNLISTED" ∪ lit "PRIVATE" ∪ lit "LISTED"

-- v2/AppSummary.ts
abbrev pub app_summary : Ty
app_summary = obj (
    req "id" str
    & req "name" str
    & req "description" (str ∪ null_ty)
    & req "installUrl" (str ∪ null_ty)
    & req "category" (str ∪ null_ty)
    & none_more)

-- v2/AppTemplateUnavailableReason.ts
abbrev pub app_template_unavailable_reason : Ty
app_template_unavailable_reason = lit "NOT_CONFIGURED_FOR_WORKSPACE" ∪ lit "NO_ACTIVE_WORKSPACE"

-- v2/AppTemplateSummary.ts
abbrev pub app_template_summary : Ty
app_template_summary = obj (
    req "templateId" str
    & req "name" str
    & req "description" (str ∪ null_ty)
    & req "category" (str ∪ null_ty)
    & req "canonicalConnectorId" (str ∪ null_ty)
    & req "logoUrl" (str ∪ null_ty)
    & req "logoUrlDark" (str ∪ null_ty)
    & req "materializedAppIds" (arr str)
    & req "reason" (app_template_unavailable_reason ∪ null_ty)
    & none_more)

-- v2/InstalledApp.ts
abbrev pub installed_app : Ty
installed_app = obj (
    req "id" str
    & req "runtimeName" (str ∪ null_ty)
    & req "enabled" bool
    & req "callable" bool
    & none_more)

-- v2/InAppBrowserRequirements.ts
abbrev pub in_app_browser_requirements : Ty
in_app_browser_requirements =
    obj (req "allowExternalBrowserSettingsImport" (bool ∪ null_ty) & none_more)

-- v2/ExternalAgentDetectedConnectorSource.ts
abbrev pub external_agent_detected_connector_source : Ty
external_agent_detected_connector_source = lit "remoteMcpServersConfig" ∪ lit "sessionToolUse"

-- v2/ExternalAgentDetectedConnectorCandidate.ts
abbrev pub external_agent_detected_connector_candidate : Ty
external_agent_detected_connector_candidate = obj (
    req "name" str
    & req "sessionCount" num
    & req "source" external_agent_detected_connector_source
    & none_more)

-- v2/ExternalAgentImportedConnectorSource.ts
abbrev pub external_agent_imported_connector_source : Ty
external_agent_imported_connector_source = lit "remoteMcpServersConfig"

-- v2/ExternalAgentImportedConnectorCandidate.ts
abbrev pub external_agent_imported_connector_candidate : Ty
external_agent_imported_connector_candidate = obj (
    req "name" str
    & req "sessionCount" num
    & req "source" external_agent_imported_connector_source
    & none_more)

-- v2/PluginAvailability.ts
abbrev pub plugin_availability : Ty
plugin_availability = lit "AVAILABLE" ∪ lit "DISABLED_BY_ADMIN"

-- v2/PluginDisabledReason.ts
abbrev pub plugin_disabled_reason : Ty
plugin_disabled_reason =
    lit "disabled_by_admin"
    ∪ lit "plan_not_eligible"
    ∪ lit "required_app_unavailable"
    ∪ lit "unknown"

-- v2/PluginInterface.ts
abbrev pub plugin_interface : Ty
plugin_interface = obj (
    req "displayName" (str ∪ null_ty)
    & req "shortDescription" (str ∪ null_ty)
    & req "longDescription" (str ∪ null_ty)
    & req "developerName" (str ∪ null_ty)
    & req "category" (str ∪ null_ty)
    & req "capabilities" (arr str)
    & req "websiteUrl" (str ∪ null_ty)
    & req "privacyPolicyUrl" (str ∪ null_ty)
    & req "termsOfServiceUrl" (str ∪ null_ty)
    & req "defaultPrompt" (arr str ∪ null_ty)
    & req "brandColor" (str ∪ null_ty)
    & req "composerIcon" (absolute_path_buf ∪ null_ty)
    & req "composerIconUrl" (str ∪ null_ty)
    & req "logo" (absolute_path_buf ∪ null_ty)
    & req "logoDark" (absolute_path_buf ∪ null_ty)
    & req "logoUrl" (str ∪ null_ty)
    & req "logoUrlDark" (str ∪ null_ty)
    & req "screenshots" (arr absolute_path_buf)
    & req "screenshotUrls" (arr str)
    & none_more)

-- v2/PluginSharePrincipalRole.ts
abbrev pub plugin_share_principal_role : Ty
plugin_share_principal_role = lit "reader" ∪ lit "editor" ∪ lit "owner"

-- v2/PluginSharePrincipal.ts
abbrev pub plugin_share_principal : Ty
plugin_share_principal = obj (
    req "principalType" plugin_share_principal_type
    & req "principalId" str
    & req "role" plugin_share_principal_role
    & req "name" str
    & none_more)

-- v2/PluginShareContext.ts
abbrev pub plugin_share_context : Ty
plugin_share_context = obj (
    req "remotePluginId" str
    & req "remoteVersion" (str ∪ null_ty)
    & req "discoverability" (plugin_share_discoverability ∪ null_ty)
    & req "shareUrl" (str ∪ null_ty)
    & req "creatorAccountUserId" (str ∪ null_ty)
    & req "creatorName" (str ∪ null_ty)
    & req "sharePrincipals" (arr plugin_share_principal ∪ null_ty)
    & req "canPublishToWorkspace" (bool ∪ null_ty)
    & none_more)

-- v2/PluginSource.ts
abbrev pub plugin_source : Ty
plugin_source =
    obj (req "type" (lit "local") & req "path" absolute_path_buf & none_more)
    ∪ obj (
        req "type" (lit "git")
        & req "url" str
        & req "path" (str ∪ null_ty)
        & req "refName" (str ∪ null_ty)
        & req "sha" (str ∪ null_ty)
        & none_more)
    ∪ obj (
        req "type" (lit "npm")
        & req "package" str
        & req "version" (str ∪ null_ty)
        & req "registry" (str ∪ null_ty)
        & none_more)
    ∪ obj (req "type" (lit "remote") & none_more)

-- v2/SkillInterface.ts
abbrev pub skill_interface : Ty
skill_interface = obj (
    opt "displayName" str
    & opt "shortDescription" str
    & opt "iconSmall" absolute_path_buf
    & opt "iconLarge" absolute_path_buf
    & req "iconSmallUrl" (str ∪ null_ty)
    & req "iconLargeUrl" (str ∪ null_ty)
    & opt "brandColor" str
    & opt "defaultPrompt" str
    & none_more)

-- v2/SkillSummary.ts
abbrev pub skill_summary : Ty
skill_summary = obj (
    req "name" str
    & req "description" str
    & req "shortDescription" (str ∪ null_ty)
    & req "interface" (skill_interface ∪ null_ty)
    & req "path" (absolute_path_buf ∪ null_ty)
    & req "enabled" bool
    & none_more)

-- v2/PluginReconcileChangedPlugin.ts
abbrev pub plugin_reconcile_changed_plugin : Ty
plugin_reconcile_changed_plugin = obj (
    req "id" str
    & req "hasMcps" bool
    & req "hasApps" bool
    & req "hasHooks" bool
    & req "hasSkills" bool
    & none_more)

-- v2/SkillScope.ts
abbrev pub skill_scope : Ty
skill_scope = lit "user" ∪ lit "repo" ∪ lit "system" ∪ lit "admin"
