-- ===== src/Protocol/Types/AppsReplies.antt =====
-- probes/app-server-ts: apps replies, one definition for each file.
use codex_waiting_plgin.Protocol.Schema.{Ty, arr, bool, none_more, null_ty, obj, req, str, ◌&◌, ◌∪◌}
use codex_waiting_plgin.Protocol.Types.AccountData.{plugin_auth_policy}
use codex_waiting_plgin.Protocol.Types.Apps.{app_info}
use codex_waiting_plgin.Protocol.Types.AppsData.{
  app_summary, installed_app, plugin_reconcile_changed_plugin, plugin_share_discoverability,
  plugin_share_principal,
}
use codex_waiting_plgin.Protocol.Types.Basics.{absolute_path_buf}
use codex_waiting_plgin.Protocol.Types.Composites.{
  plugin_detail, plugin_marketplace_entry, plugin_search_result, plugin_share_list_item,
  skills_list_entry,
}
use codex_waiting_plgin.Protocol.Types.CompositesBase.{connector_metadata}
use codex_waiting_plgin.Protocol.Types.TurnsData.{marketplace_load_error_info}

-- v2/AppsInstalledResponse.ts
abbrev pub apps_installed_response : Ty
apps_installed_response = obj (req "apps" (arr installed_app) & none_more)

-- v2/AppsListResponse.ts
abbrev pub apps_list_response : Ty
apps_list_response = obj (req "data" (arr app_info) & req "nextCursor" (str ∪ null_ty) & none_more)

-- v2/AppsReadResponse.ts
abbrev pub apps_read_response : Ty
apps_read_response =
    obj (req "apps" (arr connector_metadata) & req "missingAppIds" (arr str) & none_more)

-- v2/PluginInstallResponse.ts
abbrev pub plugin_install_response : Ty
plugin_install_response =
    obj (req "authPolicy" plugin_auth_policy & req "appsNeedingAuth" (arr app_summary) & none_more)

-- v2/PluginInstalledResponse.ts
abbrev pub plugin_installed_response : Ty
plugin_installed_response = obj (
    req "marketplaces" (arr plugin_marketplace_entry)
    & req "marketplaceLoadErrors" (arr marketplace_load_error_info)
    & none_more)

-- v2/PluginListResponse.ts
abbrev pub plugin_list_response : Ty
plugin_list_response = obj (
    req "marketplaces" (arr plugin_marketplace_entry)
    & req "marketplaceLoadErrors" (arr marketplace_load_error_info)
    & req "featuredPluginIds" (arr str)
    & none_more)

-- v2/PluginReadResponse.ts
abbrev pub plugin_read_response : Ty
plugin_read_response = obj (req "plugin" plugin_detail & none_more)

-- v2/PluginReconcileResponse.ts
abbrev pub plugin_reconcile_response : Ty
plugin_reconcile_response = obj (
    req "changedPlugins" (arr plugin_reconcile_changed_plugin)
    & req "failedRemotePluginIds" (arr str)
    & req "failedMaterializationRemotePluginIds" (arr str)
    & none_more)

-- v2/PluginSearchResponse.ts
abbrev pub plugin_search_response : Ty
plugin_search_response =
    obj (req "data" (arr plugin_search_result) & req "nextCursor" (str ∪ null_ty) & none_more)

-- v2/PluginShareCheckoutResponse.ts
abbrev pub plugin_share_checkout_response : Ty
plugin_share_checkout_response = obj (
    req "remotePluginId" str
    & req "pluginId" str
    & req "pluginName" str
    & req "pluginPath" absolute_path_buf
    & req "marketplaceName" str
    & req "marketplacePath" absolute_path_buf
    & req "remoteVersion" (str ∪ null_ty)
    & none_more)

-- v2/PluginShareDeleteResponse.ts
abbrev pub plugin_share_delete_response : Ty
plugin_share_delete_response = obj (none_more)

-- v2/PluginShareListResponse.ts
abbrev pub plugin_share_list_response : Ty
plugin_share_list_response = obj (req "data" (arr plugin_share_list_item) & none_more)

-- v2/PluginShareSaveResponse.ts
abbrev pub plugin_share_save_response : Ty
plugin_share_save_response = obj (
    req "remotePluginId" str
    & req "shareUrl" str
    & req "canPublishToWorkspace" (bool ∪ null_ty)
    & none_more)

-- v2/PluginShareUpdateTargetsResponse.ts
abbrev pub plugin_share_update_targets_response : Ty
plugin_share_update_targets_response = obj (
    req "principals" (arr plugin_share_principal)
    & req "discoverability" plugin_share_discoverability
    & none_more)

-- v2/PluginSkillReadResponse.ts
abbrev pub plugin_skill_read_response : Ty
plugin_skill_read_response = obj (req "contents" (str ∪ null_ty) & none_more)

-- v2/PluginUninstallResponse.ts
abbrev pub plugin_uninstall_response : Ty
plugin_uninstall_response = obj (none_more)

-- v2/SkillsExtraRootsSetResponse.ts
abbrev pub skills_extra_roots_set_response : Ty
skills_extra_roots_set_response = obj (none_more)

-- v2/SkillsListResponse.ts
abbrev pub skills_list_response : Ty
skills_list_response = obj (req "data" (arr skills_list_entry) & none_more)
