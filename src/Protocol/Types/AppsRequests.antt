-- ===== src/Protocol/Types/AppsRequests.antt =====
-- probes/app-server-ts: apps requests, one definition for each file.
use codex_waiting_plgin.Protocol.Schema.{
  Ty, arr, bool, none_more, null_ty, num, obj, opt, req, str, ◌&◌, ◌∪◌,
}
use codex_waiting_plgin.Protocol.Types.AppsData.{
  plugin_list_marketplace_kind, plugin_search_scope, plugin_share_discoverability,
  plugin_share_target, plugin_share_update_discoverability,
}
use codex_waiting_plgin.Protocol.Types.Basics.{absolute_path_buf}

-- v2/AppsInstalledParams.ts
abbrev pub apps_installed_params : Ty
apps_installed_params = obj (opt "threadId" (str ∪ null_ty) & opt "forceRefresh" bool & none_more)

-- v2/AppsListParams.ts
abbrev pub apps_list_params : Ty
apps_list_params = obj (
    opt "cursor" (str ∪ null_ty)
    & opt "limit" (num ∪ null_ty)
    & opt "threadId" (str ∪ null_ty)
    & opt "forceRefetch" bool
    & none_more)

-- v2/AppsReadParams.ts
abbrev pub apps_read_params : Ty
apps_read_params =
    obj (
      req "appIds" (arr str) & opt "threadId" (str ∪ null_ty) & opt "includeTools" bool & none_more)

-- v2/PluginInstallParams.ts
abbrev pub plugin_install_params : Ty
plugin_install_params = obj (
    opt "marketplacePath" (absolute_path_buf ∪ null_ty)
    & opt "remoteMarketplaceName" (str ∪ null_ty)
    & opt "installAttemptId" (str ∪ null_ty)
    & req "pluginName" str
    & none_more)

-- v2/PluginInstalledParams.ts
abbrev pub plugin_installed_params : Ty
plugin_installed_params = obj (
    opt "cwds" (arr absolute_path_buf ∪ null_ty)
    & opt "installSuggestionPluginNames" (arr str ∪ null_ty)
    & none_more)

-- v2/PluginListParams.ts
abbrev pub plugin_list_params : Ty
plugin_list_params = obj (
    opt "cwds" (arr absolute_path_buf ∪ null_ty)
    & opt "marketplaceKinds" (arr plugin_list_marketplace_kind ∪ null_ty)
    & opt "forceRefetch" bool
    & none_more)

-- v2/PluginReadParams.ts
abbrev pub plugin_read_params : Ty
plugin_read_params = obj (
    opt "marketplacePath" (absolute_path_buf ∪ null_ty)
    & opt "remoteMarketplaceName" (str ∪ null_ty)
    & req "pluginName" str
    & none_more)

-- v2/PluginReconcileParams.ts
abbrev pub plugin_reconcile_params : Ty
plugin_reconcile_params = obj (opt "reason" (str ∪ null_ty) & none_more)

-- v2/PluginSearchParams.ts
abbrev pub plugin_search_params : Ty
plugin_search_params = obj (
    req "searchTerm" str
    & opt "scope" (plugin_search_scope ∪ null_ty)
    & opt "cwds" (arr absolute_path_buf ∪ null_ty)
    & opt "cursor" (str ∪ null_ty)
    & opt "limit" (num ∪ null_ty)
    & none_more)

-- v2/PluginShareCheckoutParams.ts
abbrev pub plugin_share_checkout_params : Ty
plugin_share_checkout_params = obj (req "remotePluginId" str & none_more)

-- v2/PluginShareDeleteParams.ts
abbrev pub plugin_share_delete_params : Ty
plugin_share_delete_params = obj (req "remotePluginId" str & none_more)

-- v2/PluginShareListParams.ts
abbrev pub plugin_share_list_params : Ty
plugin_share_list_params = obj (none_more)

-- v2/PluginShareSaveParams.ts
abbrev pub plugin_share_save_params : Ty
plugin_share_save_params = obj (
    req "pluginPath" absolute_path_buf
    & opt "remotePluginId" (str ∪ null_ty)
    & opt "discoverability" (plugin_share_discoverability ∪ null_ty)
    & opt "shareTargets" (arr plugin_share_target ∪ null_ty)
    & none_more)

-- v2/PluginShareUpdateTargetsParams.ts
abbrev pub plugin_share_update_targets_params : Ty
plugin_share_update_targets_params = obj (
    req "remotePluginId" str
    & req "discoverability" plugin_share_update_discoverability
    & req "shareTargets" (arr plugin_share_target)
    & none_more)

-- v2/PluginSkillReadParams.ts
abbrev pub plugin_skill_read_params : Ty
plugin_skill_read_params =
    obj
      (req "remoteMarketplaceName" str & req "remotePluginId" str & req "skillName" str & none_more)

-- v2/PluginUninstallParams.ts
abbrev pub plugin_uninstall_params : Ty
plugin_uninstall_params = obj (req "pluginId" str & none_more)

-- v2/SkillsExtraRootsSetParams.ts
abbrev pub skills_extra_roots_set_params : Ty
skills_extra_roots_set_params = obj (req "extraRoots" (arr absolute_path_buf) & none_more)

-- v2/SkillsListParams.ts
abbrev pub skills_list_params : Ty
skills_list_params = obj (opt "cwds" (arr str) & opt "forceReload" bool & none_more)
