-- ===== src/Protocol/Types/ItemRecords.antt =====
-- probes/app-server-ts: item records, one definition for each file.
use codex_waiting_plgin.Protocol.Schema.{
  Ty, any, arr, bool, dict, lit, none_more, null_ty, num, obj, opt, req, str, ◌&◌, ◌∪◌,
}
use codex_waiting_plgin.Protocol.Types.Apps.{legacy_app_path_string}
use codex_waiting_plgin.Protocol.Types.Basics.{
  absolute_path_buf, local_shell_action, local_shell_status,
}
use codex_waiting_plgin.Protocol.Types.Items.{
  hook_event_name, hook_execution_mode, hook_handler_type, hook_output_entry, hook_run_status,
  hook_scope, hook_source,
}
use codex_waiting_plgin.Protocol.Types.ItemsBase.{
  agent_message_input_content, content_item, function_call_output_body, image_generation_failure,
  internal_chat_message_metadata_passthrough, message_phase, process_terminal_size,
  reasoning_item_content, reasoning_item_reasoning_summary, response_item_id,
  web_search_action_root,
}

-- ResponseItem.ts
abbrev pub response_item : Ty
response_item =
    obj (
      req "type" (lit "message")
      & opt "id" response_item_id
      & req "role" str
      & req "content" (arr content_item)
      & opt "phase" message_phase
      & opt "internal_chat_message_metadata_passthrough" internal_chat_message_metadata_passthrough
      & none_more)
    ∪ obj (
        req "type" (lit "agent_message")
        & opt "id" response_item_id
        & req "author" str
        & req "recipient" str
        & req "content" (arr agent_message_input_content)
        & opt "internal_chat_message_metadata_passthrough"
            internal_chat_message_metadata_passthrough
        & none_more)
    ∪ obj (
        req "type" (lit "reasoning")
        & opt "id" response_item_id
        & req "summary" (arr reasoning_item_reasoning_summary)
        & opt "content" (arr reasoning_item_content)
        & req "encrypted_content" (str ∪ null_ty)
        & opt "internal_chat_message_metadata_passthrough"
            internal_chat_message_metadata_passthrough
        & none_more)
    ∪ obj (
        req "type" (lit "local_shell_call")
        & opt "id" response_item_id
        & req "call_id" (str ∪ null_ty)
        & req "status" local_shell_status
        & req "action" local_shell_action
        & opt "internal_chat_message_metadata_passthrough"
            internal_chat_message_metadata_passthrough
        & none_more)
    ∪ obj (
        req "type" (lit "function_call")
        & opt "id" response_item_id
        & req "name" str
        & opt "namespace" str
        & req "arguments" str
        & opt "encrypted_function_args" (arr str)
        & req "call_id" str
        & opt "internal_chat_message_metadata_passthrough"
            internal_chat_message_metadata_passthrough
        & none_more)
    ∪ obj (
        req "type" (lit "tool_search_call")
        & opt "id" response_item_id
        & req "call_id" (str ∪ null_ty)
        & opt "status" str
        & req "execution" str
        & req "arguments" any
        & opt "internal_chat_message_metadata_passthrough"
            internal_chat_message_metadata_passthrough
        & none_more)
    ∪ obj (
        req "type" (lit "function_call_output")
        & opt "id" response_item_id
        & opt "call_id" str
        & opt "name" str
        & opt "namespace" str
        & req "output" function_call_output_body
        & opt "internal_chat_message_metadata_passthrough"
            internal_chat_message_metadata_passthrough
        & none_more)
    ∪ obj (
        req "type" (lit "custom_tool_call")
        & opt "id" response_item_id
        & opt "status" str
        & req "call_id" str
        & req "name" str
        & opt "namespace" str
        & req "input" str
        & opt "internal_chat_message_metadata_passthrough"
            internal_chat_message_metadata_passthrough
        & none_more)
    ∪ obj (
        req "type" (lit "custom_tool_call_output")
        & opt "id" response_item_id
        & req "call_id" str
        & opt "name" str
        & req "output" function_call_output_body
        & opt "internal_chat_message_metadata_passthrough"
            internal_chat_message_metadata_passthrough
        & none_more)
    ∪ obj (
        req "type" (lit "tool_search_output")
        & opt "id" response_item_id
        & req "call_id" (str ∪ null_ty)
        & req "status" str
        & req "execution" str
        & req "tools" (arr any)
        & opt "internal_chat_message_metadata_passthrough"
            internal_chat_message_metadata_passthrough
        & none_more)
    ∪ obj (
        req "type" (lit "web_search_call")
        & opt "id" response_item_id
        & opt "status" str
        & opt "action" web_search_action_root
        & opt "internal_chat_message_metadata_passthrough"
            internal_chat_message_metadata_passthrough
        & none_more)
    ∪ obj (
        req "type" (lit "image_generation_call")
        & opt "id" response_item_id
        & req "status" str
        & opt "revised_prompt" str
        & req "result" str
        & opt "internal_chat_message_metadata_passthrough"
            internal_chat_message_metadata_passthrough
        & none_more)
    ∪ obj (
        req "type" (lit "compaction")
        & opt "id" response_item_id
        & req "encrypted_content" str
        & opt "internal_chat_message_metadata_passthrough"
            internal_chat_message_metadata_passthrough
        & none_more)
    ∪ obj (req "type" (lit "compaction_trigger") & none_more)
    ∪ obj (
        req "type" (lit "context_compaction")
        & opt "id" response_item_id
        & opt "encrypted_content" str
        & opt "internal_chat_message_metadata_passthrough"
            internal_chat_message_metadata_passthrough
        & none_more)
    ∪ obj (req "type" (lit "other") & none_more)

-- v2/ProcessSpawnParams.ts
abbrev pub process_spawn_params : Ty
process_spawn_params = obj (
    req "command" (arr str)
    & req "processHandle" str
    & req "cwd" absolute_path_buf
    & opt "tty" bool
    & opt "streamStdin" bool
    & opt "streamStdoutStderr" bool
    & opt "outputBytesCap" (num ∪ null_ty)
    & opt "timeoutMs" (num ∪ null_ty)
    & opt "env" (dict (str ∪ null_ty) ∪ null_ty)
    & opt "size" (process_terminal_size ∪ null_ty)
    & none_more)

-- ImageGenerationItem.ts
abbrev pub image_generation_item : Ty
image_generation_item = obj (
    req "id" str
    & req "status" str
    & req "revisedPrompt" (str ∪ null_ty)
    & req "result" str
    & opt "transparentBackground" bool
    & req "failure" (image_generation_failure ∪ null_ty)
    & opt "savedPath" absolute_path_buf
    & none_more)

-- v2/CommandAction.ts
abbrev pub command_action : Ty
command_action =
    obj (
      req "type" (lit "read")
      & req "command" str
      & req "name" str
      & req "path" legacy_app_path_string
      & none_more)
    ∪ obj
        (req "type" (lit "listFiles") & req "command" str & req "path" (str ∪ null_ty) & none_more)
    ∪ obj (
        req "type" (lit "search")
        & req "command" str
        & req "query" (str ∪ null_ty)
        & req "path" (str ∪ null_ty)
        & none_more)
    ∪ obj (req "type" (lit "unknown") & req "command" str & none_more)

-- v2/HookRunSummary.ts
abbrev pub hook_run_summary : Ty
hook_run_summary = obj (
    req "id" str
    & req "eventName" hook_event_name
    & req "handlerType" hook_handler_type
    & req "executionMode" hook_execution_mode
    & req "scope" hook_scope
    & req "sourcePath" absolute_path_buf
    & req "source" hook_source
    & req "displayOrder" num
    & req "status" hook_run_status
    & req "statusMessage" (str ∪ null_ty)
    & req "startedAt" num
    & req "completedAt" (num ∪ null_ty)
    & req "durationMs" (num ∪ null_ty)
    & req "entries" (arr hook_output_entry)
    & none_more)

-- v2/HookCompletedNotification.ts
abbrev pub hook_completed_notification : Ty
hook_completed_notification =
    obj (req "threadId" str & req "turnId" (str ∪ null_ty) & req "run" hook_run_summary & none_more)

-- v2/HookStartedNotification.ts
abbrev pub hook_started_notification : Ty
hook_started_notification =
    obj (req "threadId" str & req "turnId" (str ∪ null_ty) & req "run" hook_run_summary & none_more)

-- v2/RawResponseItemCompletedNotification.ts
abbrev pub raw_response_item_completed_notification : Ty
raw_response_item_completed_notification =
    obj (req "threadId" str & req "turnId" str & req "item" response_item & none_more)
