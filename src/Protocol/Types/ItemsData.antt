-- ===== src/Protocol/Types/ItemsData.antt =====
-- probes/app-server-ts: items data, one definition for each file.
use codex_waiting_plgin.Protocol.Schema.{
  Ty, any, arr, bool, lit, none_more, null_ty, num, obj, opt, req, str, ◌&◌, ◌∩◌, ◌∪◌,
}
use codex_waiting_plgin.Protocol.Types.Basics.{absolute_path_buf, mode_kind}
use codex_waiting_plgin.Protocol.Types.Items.{hook_event_name, hook_source}
use codex_waiting_plgin.Protocol.Types.ItemsBase.{reasoning_effort}
use codex_waiting_plgin.Protocol.Types.ThreadItems.{thread_item}

-- v2/CommandMigration.ts
abbrev pub command_migration : Ty
command_migration = obj (req "name" str & none_more)

-- v2/HookMigration.ts
abbrev pub hook_migration : Ty
hook_migration = obj (req "name" str & none_more)

-- ThreadMemoryMode.ts
abbrev pub thread_memory_mode : Ty
thread_memory_mode = lit "enabled" ∪ lit "disabled"

-- ResourceContent.ts
abbrev pub resource_content : Ty
resource_content =
    obj (req "uri" str & opt "mimeType" str & req "text" str & opt "_meta" any & none_more)
    ∪ obj (req "uri" str & opt "mimeType" str & req "blob" str & opt "_meta" any & none_more)

-- Tool.ts
abbrev pub tool : Ty
tool = obj (
    req "name" str
    & opt "title" str
    & opt "description" str
    & req "inputSchema" any
    & opt "outputSchema" any
    & opt "annotations" any
    & opt "icons" (arr any)
    & opt "_meta" any
    & none_more)

-- WebSearchContextSize.ts
abbrev pub web_search_context_size : Ty
web_search_context_size = lit "low" ∪ lit "medium" ∪ lit "high"

-- WebSearchLocation.ts
abbrev pub web_search_location : Ty
web_search_location = obj (
    req "country" (str ∪ null_ty)
    & req "region" (str ∪ null_ty)
    & req "city" (str ∪ null_ty)
    & req "timezone" (str ∪ null_ty)
    & none_more)

-- WebSearchMode.ts
abbrev pub web_search_mode : Ty
web_search_mode = lit "disabled" ∪ lit "cached" ∪ lit "indexed" ∪ lit "live"

-- v2/AppToolSummary.ts
abbrev pub app_tool_summary : Ty
app_tool_summary = obj (
    req "name" str
    & req "title" (str ∪ null_ty)
    & req "description" str
    & req "isEnabled" bool
    & req "disabledReason" (str ∪ null_ty)
    & req "isReadOnly" bool
    & none_more)

-- v2/CollaborationModeMask.ts
abbrev pub collaboration_mode_mask : Ty
collaboration_mode_mask = obj (
    req "name" str
    & req "mode" (mode_kind ∪ null_ty)
    & req "model" (str ∪ null_ty)
    & req "reasoning_effort" (reasoning_effort ∪ null_ty ∪ null_ty)
    & none_more)

-- v2/HookErrorInfo.ts
abbrev pub hook_error_info : Ty
hook_error_info = obj (req "path" str & req "message" str & none_more)

-- v2/HookTrustStatus.ts
abbrev pub hook_trust_status : Ty
hook_trust_status = lit "managed" ∪ lit "untrusted" ∪ lit "trusted" ∪ lit "modified"

-- v2/HookMetadata.ts
abbrev pub hook_metadata : Ty
hook_metadata =
    obj (
      req "key" str
      & req "eventName" hook_event_name
      & req "matcher" (str ∪ null_ty)
      & req "timeoutSec" num
      & req "statusMessage" (str ∪ null_ty)
      & req "additionalContextLimit" (num ∪ null_ty)
      & req "sourcePath" absolute_path_buf
      & req "source" hook_source
      & req "pluginId" (str ∪ null_ty)
      & req "displayOrder" num
      & req "enabled" bool
      & req "isManaged" bool
      & req "currentHash" str
      & req "trustStatus" hook_trust_status
      & none_more)
    ∩ (obj (req "handlerType" (lit "command") & req "command" str & req "async" bool & none_more)
        ∪ obj (req "handlerType" (lit "mcpTool") & req "server" str & req "tool" str & none_more)
        ∪ obj (req "handlerType" (lit "prompt") & none_more)
        ∪ obj (req "handlerType" (lit "agent") & none_more))

-- v2/HooksListEntry.ts
abbrev pub hooks_list_entry : Ty
hooks_list_entry = obj (
    req "cwd" str
    & req "hooks" (arr hook_metadata)
    & req "warnings" (arr str)
    & req "errors" (arr hook_error_info)
    & none_more)

-- v2/ReasoningEffortOption.ts
abbrev pub reasoning_effort_option : Ty
reasoning_effort_option =
    obj (req "reasoningEffort" reasoning_effort & req "description" str & none_more)

-- v2/PluginHookSummary.ts
abbrev pub plugin_hook_summary : Ty
plugin_hook_summary = obj (req "key" str & req "eventName" hook_event_name & none_more)

-- v2/ServerDiagnosticsProcess.ts
abbrev pub server_diagnostics_process : Ty
server_diagnostics_process = obj (
    req "id" num
    & req "residentMemoryBytes" (num ∪ null_ty)
    & req "physicalFootprintBytes" (num ∪ null_ty)
    & none_more)

-- v2/SkillToolDependency.ts
abbrev pub skill_tool_dependency : Ty
skill_tool_dependency = obj (
    req "type" str
    & req "value" str
    & opt "description" str
    & opt "transport" str
    & opt "command" str
    & opt "url" str
    & none_more)

-- v2/ThreadItemEntry.ts
abbrev pub thread_item_entry : Ty
thread_item_entry = obj (req "turnId" str & req "item" thread_item & none_more)

-- v2/ToolRequestUserInputAnswer.ts
abbrev pub tool_request_user_input_answer : Ty
tool_request_user_input_answer = obj (req "answers" (arr str) & none_more)
