-- ===== src/Protocol/Types/Apps.antt =====
-- probes/app-server-ts: apps, one definition for each file.
use codex_waiting_plgin.Protocol.Schema.{
  Ty, arr, bool, dict, none_more, null_ty, obj, req, str, ◌&◌, ◌∪◌,
}

-- LegacyAppPathString.ts
abbrev pub legacy_app_path_string : Ty
legacy_app_path_string = str

-- v2/AppBranding.ts
abbrev pub app_branding : Ty
app_branding = obj (
    req "category" (str ∪ null_ty)
    & req "developer" (str ∪ null_ty)
    & req "website" (str ∪ null_ty)
    & req "privacyPolicy" (str ∪ null_ty)
    & req "termsOfService" (str ∪ null_ty)
    & req "isDiscoverableApp" bool
    & none_more)

-- v2/AppReview.ts
abbrev pub app_review : Ty
app_review = obj (req "status" str & none_more)

-- v2/AppScreenshot.ts
abbrev pub app_screenshot : Ty
app_screenshot =
    obj
      (req "url" (str ∪ null_ty) & req "fileId" (str ∪ null_ty) & req "userPrompt" str & none_more)

-- v2/AppMetadata.ts
abbrev pub app_metadata : Ty
app_metadata = obj (
    req "review" (app_review ∪ null_ty)
    & req "categories" (arr str ∪ null_ty)
    & req "subCategories" (arr str ∪ null_ty)
    & req "seoDescription" (str ∪ null_ty)
    & req "screenshots" (arr app_screenshot ∪ null_ty)
    & req "developer" (str ∪ null_ty)
    & req "version" (str ∪ null_ty)
    & req "versionId" (str ∪ null_ty)
    & req "versionNotes" (str ∪ null_ty)
    & req "firstPartyRequiresInstall" (bool ∪ null_ty)
    & req "showInComposerWhenUnlinked" (bool ∪ null_ty)
    & none_more)

-- v2/AppInfo.ts
abbrev pub app_info : Ty
app_info = obj (
    req "id" str
    & req "name" str
    & req "description" (str ∪ null_ty)
    & req "logoUrl" (str ∪ null_ty)
    & req "logoUrlDark" (str ∪ null_ty)
    & req "iconAssets" (dict str ∪ null_ty)
    & req "iconDarkAssets" (dict str ∪ null_ty)
    & req "distributionChannel" (str ∪ null_ty)
    & req "branding" (app_branding ∪ null_ty)
    & req "appMetadata" (app_metadata ∪ null_ty)
    & req "labels" (dict str ∪ null_ty)
    & req "installUrl" (str ∪ null_ty)
    & req "isAccessible" bool
    & req "isEnabled" bool
    & req "pluginDisplayNames" (arr str)
    & none_more)

-- v2/AppListUpdatedNotification.ts
abbrev pub app_list_updated_notification : Ty
app_list_updated_notification = obj (req "data" (arr app_info) & none_more)

-- v2/SkillsChangedNotification.ts
abbrev pub skills_changed_notification : Ty
skills_changed_notification = obj (none_more)
