-- ===== src/Protocol/Types/Items.antt =====
-- probes/app-server-ts: items, one definition for each file.
use codex_waiting_plgin.Protocol.Schema.{
  Ty, any, arr, bool, lit, none_more, null_ty, num, obj, req, str, ◌&◌, ◌∪◌,
}
use codex_waiting_plgin.Protocol.Types.ItemsBase.{
  dynamic_tool_call_output_content_item, patch_change_kind,
}

-- v2/FileUpdateChange.ts
abbrev pub file_update_change : Ty
file_update_change =
    obj (req "path" str & req "kind" patch_change_kind & req "diff" str & none_more)

-- v2/HookPromptFragment.ts
abbrev pub hook_prompt_fragment : Ty
hook_prompt_fragment = obj (req "text" str & req "hookRunId" str & none_more)

-- v2/MemoryCitationEntry.ts
abbrev pub memory_citation_entry : Ty
memory_citation_entry =
    obj (req "path" str & req "lineStart" num & req "lineEnd" num & req "note" str & none_more)

-- v2/MemoryCitation.ts
abbrev pub memory_citation : Ty
memory_citation =
    obj (req "entries" (arr memory_citation_entry) & req "threadIds" (arr str) & none_more)

-- v2/PatchApplyStatus.ts
abbrev pub patch_apply_status : Ty
patch_apply_status = lit "inProgress" ∪ lit "completed" ∪ lit "failed" ∪ lit "declined"

-- v2/CommandExecResponse.ts
abbrev pub command_exec_response : Ty
command_exec_response = obj (req "exitCode" num & req "stdout" str & req "stderr" str & none_more)

-- v2/ProcessSpawnResponse.ts
abbrev pub process_spawn_response : Ty
process_spawn_response = obj (none_more)

-- v2/ProcessKillResponse.ts
abbrev pub process_kill_response : Ty
process_kill_response = obj (none_more)

-- v2/DynamicToolCallResponse.ts
abbrev pub dynamic_tool_call_response : Ty
dynamic_tool_call_response = obj (
    req "contentItems" (arr dynamic_tool_call_output_content_item) & req "success" bool & none_more)

-- ParsedCommand.ts
abbrev pub parsed_command : Ty
parsed_command =
    obj (req "type" (lit "read") & req "cmd" str & req "name" str & req "path" str & none_more)
    ∪ obj (req "type" (lit "list_files") & req "cmd" str & req "path" (str ∪ null_ty) & none_more)
    ∪ obj (
        req "type" (lit "search")
        & req "cmd" str
        & req "query" (str ∪ null_ty)
        & req "path" (str ∪ null_ty)
        & none_more)
    ∪ obj (req "type" (lit "unknown") & req "cmd" str & none_more)

-- v2/DynamicToolCallParams.ts
abbrev pub dynamic_tool_call_params : Ty
dynamic_tool_call_params = obj (
    req "threadId" str
    & req "turnId" str
    & req "callId" str
    & req "namespace" (str ∪ null_ty)
    & req "tool" str
    & req "arguments" any
    & none_more)

-- v2/ToolRequestUserInputOption.ts
abbrev pub tool_request_user_input_option : Ty
tool_request_user_input_option = obj (req "label" str & req "description" str & none_more)

-- v2/ToolRequestUserInputQuestion.ts
abbrev pub tool_request_user_input_question : Ty
tool_request_user_input_question = obj (
    req "id" str
    & req "header" str
    & req "question" str
    & req "isOther" bool
    & req "isSecret" bool
    & req "options" (arr tool_request_user_input_option ∪ null_ty)
    & none_more)

-- v2/ToolRequestUserInputParams.ts
abbrev pub tool_request_user_input_params : Ty
tool_request_user_input_params = obj (
    req "threadId" str
    & req "turnId" str
    & req "itemId" str
    & req "questions" (arr tool_request_user_input_question)
    & req "isBlocking" bool
    & req "autoResolutionMs" (num ∪ null_ty)
    & none_more)

-- v2/AgentMessageDeltaNotification.ts
abbrev pub agent_message_delta_notification : Ty
agent_message_delta_notification =
    obj (req "threadId" str & req "turnId" str & req "itemId" str & req "delta" str & none_more)

-- v2/CommandExecOutputStream.ts
abbrev pub command_exec_output_stream : Ty
command_exec_output_stream = lit "stdout" ∪ lit "stderr"

-- v2/CommandExecOutputDeltaNotification.ts
abbrev pub command_exec_output_delta_notification : Ty
command_exec_output_delta_notification = obj (
    req "processId" str
    & req "stream" command_exec_output_stream
    & req "deltaBase64" str
    & req "capReached" bool
    & none_more)

-- v2/CommandExecutionOutputDeltaNotification.ts
abbrev pub command_execution_output_delta_notification : Ty
command_execution_output_delta_notification =
    obj (req "threadId" str & req "turnId" str & req "itemId" str & req "delta" str & none_more)

-- v2/FileChangeOutputDeltaNotification.ts
abbrev pub file_change_output_delta_notification : Ty
file_change_output_delta_notification =
    obj (req "threadId" str & req "turnId" str & req "itemId" str & req "delta" str & none_more)

-- v2/FileChangePatchUpdatedNotification.ts
abbrev pub file_change_patch_updated_notification : Ty
file_change_patch_updated_notification = obj (
    req "threadId" str
    & req "turnId" str
    & req "itemId" str
    & req "changes" (arr file_update_change)
    & none_more)

-- v2/HookEventName.ts
abbrev pub hook_event_name : Ty
hook_event_name =
    lit "preToolUse"
    ∪ lit "permissionRequest"
    ∪ lit "postToolUse"
    ∪ lit "preCompact"
    ∪ lit "postCompact"
    ∪ lit "sessionStart"
    ∪ lit "sessionEnd"
    ∪ lit "userPromptSubmit"
    ∪ lit "subagentStart"
    ∪ lit "subagentStop"
    ∪ lit "stop"
    ∪ lit "interrupt"

-- v2/HookExecutionMode.ts
abbrev pub hook_execution_mode : Ty
hook_execution_mode = lit "sync" ∪ lit "async"

-- v2/HookHandlerType.ts
abbrev pub hook_handler_type : Ty
hook_handler_type = lit "command" ∪ lit "mcpTool" ∪ lit "prompt" ∪ lit "agent"

-- v2/HookOutputEntryKind.ts
abbrev pub hook_output_entry_kind : Ty
hook_output_entry_kind = lit "warning" ∪ lit "stop" ∪ lit "feedback" ∪ lit "context" ∪ lit "error"

-- v2/HookOutputEntry.ts
abbrev pub hook_output_entry : Ty
hook_output_entry = obj (req "kind" hook_output_entry_kind & req "text" str & none_more)

-- v2/HookRunStatus.ts
abbrev pub hook_run_status : Ty
hook_run_status = lit "running" ∪ lit "completed" ∪ lit "failed" ∪ lit "blocked" ∪ lit "stopped"

-- v2/HookScope.ts
abbrev pub hook_scope : Ty
hook_scope = lit "thread" ∪ lit "turn"

-- v2/HookSource.ts
abbrev pub hook_source : Ty
hook_source =
    lit "system"
    ∪ lit "user"
    ∪ lit "project"
    ∪ lit "mdm"
    ∪ lit "sessionFlags"
    ∪ lit "plugin"
    ∪ lit "cloudRequirements"
    ∪ lit "cloudManagedConfig"
    ∪ lit "legacyManagedConfigFile"
    ∪ lit "legacyManagedConfigMdm"
    ∪ lit "unknown"

-- v2/ProcessExitedNotification.ts
abbrev pub process_exited_notification : Ty
process_exited_notification = obj (
    req "processHandle" str
    & req "exitCode" num
    & req "stdout" str
    & req "stdoutCapReached" bool
    & req "stderr" str
    & req "stderrCapReached" bool
    & none_more)

-- v2/ProcessOutputStream.ts
abbrev pub process_output_stream : Ty
process_output_stream = lit "stdout" ∪ lit "stderr"

-- v2/ProcessOutputDeltaNotification.ts
abbrev pub process_output_delta_notification : Ty
process_output_delta_notification = obj (
    req "processHandle" str
    & req "stream" process_output_stream
    & req "deltaBase64" str
    & req "capReached" bool
    & none_more)

-- v2/ReasoningSummaryPartAddedNotification.ts
abbrev pub reasoning_summary_part_added_notification : Ty
reasoning_summary_part_added_notification =
    obj (
      req "threadId" str & req "turnId" str & req "itemId" str & req "summaryIndex" num & none_more)

-- v2/ReasoningSummaryTextDeltaNotification.ts
abbrev pub reasoning_summary_text_delta_notification : Ty
reasoning_summary_text_delta_notification = obj (
    req "threadId" str
    & req "turnId" str
    & req "itemId" str
    & req "delta" str
    & req "summaryIndex" num
    & none_more)

-- v2/ReasoningTextDeltaNotification.ts
abbrev pub reasoning_text_delta_notification : Ty
reasoning_text_delta_notification = obj (
    req "threadId" str
    & req "turnId" str
    & req "itemId" str
    & req "delta" str
    & req "contentIndex" num
    & none_more)
