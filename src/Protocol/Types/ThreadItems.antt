-- ===== src/Protocol/Types/ThreadItems.antt =====
-- probes/app-server-ts: thread items, one definition for each file.
use codex_waiting_plgin.Protocol.Schema.{
  Ty, any, arr, bool, dict, lit, none_more, null_ty, num, obj, opt, req, str, ◌&◌, ◌∩◌, ◌∪◌,
}
use codex_waiting_plgin.Protocol.Types.Approvals.{sandbox_policy}
use codex_waiting_plgin.Protocol.Types.Apps.{legacy_app_path_string}
use codex_waiting_plgin.Protocol.Types.BasicRecords.{settings}
use codex_waiting_plgin.Protocol.Types.Basics.{mode_kind, sub_agent_activity_kind}
use codex_waiting_plgin.Protocol.Types.ItemRecords.{command_action, image_generation_item}
use codex_waiting_plgin.Protocol.Types.Items.{
  file_update_change, hook_prompt_fragment, memory_citation, patch_apply_status,
}
use codex_waiting_plgin.Protocol.Types.ItemsBase.{
  agent_message_delivery, collab_agent_state, collab_agent_tool, collab_agent_tool_call_status,
  command_exec_terminal_size, command_execution_source, command_execution_status,
  dynamic_tool_call_output_content_item, dynamic_tool_call_status, function_call_output_body,
  message_phase, reasoning_effort, sleep_item, web_search_item,
}
use codex_waiting_plgin.Protocol.Types.Mcp.{
  mcp_tool_call_app_context, mcp_tool_call_error, mcp_tool_call_result, mcp_tool_call_status,
}
use codex_waiting_plgin.Protocol.Types.TurnInputs.{user_input}
use codex_waiting_plgin.Protocol.Types.Turns.{async_user_input_question}

-- CollaborationMode.ts
abbrev pub collaboration_mode : Ty
collaboration_mode = obj (req "mode" mode_kind & req "settings" settings & none_more)

-- v2/CommandExecParams.ts
abbrev pub command_exec_params : Ty
command_exec_params = obj (
    req "command" (arr str)
    & opt "processId" (str ∪ null_ty)
    & opt "tty" bool
    & opt "streamStdin" bool
    & opt "streamStdoutStderr" bool
    & opt "outputBytesCap" (num ∪ null_ty)
    & opt "disableOutputCap" bool
    & opt "disableTimeout" bool
    & opt "timeoutMs" (num ∪ null_ty)
    & opt "cwd" (str ∪ null_ty)
    & opt "env" (dict (str ∪ null_ty) ∪ null_ty)
    & opt "size" (command_exec_terminal_size ∪ null_ty)
    & opt "sandboxPolicy" (sandbox_policy ∪ null_ty)
    & opt "permissionProfile" (str ∪ null_ty)
    & none_more)

-- v2/ThreadItem.ts
abbrev pub thread_item : Ty
thread_item =
    obj (
      req "type" (lit "userMessage")
      & req "id" str
      & req "clientId" (str ∪ null_ty)
      & req "content" (arr user_input)
      & none_more)
    ∪ obj (
        req "type" (lit "hookPrompt")
        & req "id" str
        & req "fragments" (arr hook_prompt_fragment)
        & none_more)
    ∪ obj (
        req "type" (lit "agentMessage")
        & req "id" str
        & req "text" str
        & req "phase" (message_phase ∪ null_ty)
        & req "memoryCitation" (memory_citation ∪ null_ty)
        & req "delivery" (agent_message_delivery ∪ null_ty)
        & req "questions" (arr async_user_input_question ∪ null_ty)
        & none_more)
    ∪ obj (
        req "type" (lit "functionCallOutput")
        & req "id" str
        & req "name" str
        & req "namespace" (str ∪ null_ty)
        & req "output" function_call_output_body
        & none_more)
    ∪ obj (req "type" (lit "plan") & req "id" str & req "text" str & none_more)
    ∪ obj (
        req "type" (lit "reasoning")
        & req "id" str
        & req "summary" (arr str)
        & req "content" (arr str)
        & none_more)
    ∪ obj (
        req "type" (lit "commandExecution")
        & req "id" str
        & req "pluginId" (str ∪ null_ty)
        & req "scriptPath" (str ∪ null_ty)
        & req "command" str
        & req "cwd" legacy_app_path_string
        & req "processId" (str ∪ null_ty)
        & req "source" command_execution_source
        & req "status" command_execution_status
        & req "commandActions" (arr command_action)
        & req "aggregatedOutput" (str ∪ null_ty)
        & req "exitCode" (num ∪ null_ty)
        & req "durationMs" (num ∪ null_ty)
        & none_more)
    ∪ obj (
        req "type" (lit "fileChange")
        & req "id" str
        & req "changes" (arr file_update_change)
        & req "status" patch_apply_status
        & none_more)
    ∪ obj (
        req "type" (lit "mcpToolCall")
        & req "id" str
        & req "server" str
        & req "tool" str
        & req "status" mcp_tool_call_status
        & req "arguments" any
        & req "appContext" (mcp_tool_call_app_context ∪ null_ty)
        & opt "mcpAppResourceUri" str
        & req "pluginId" (str ∪ null_ty)
        & req "readOnlyHint" (bool ∪ null_ty)
        & req "result" (mcp_tool_call_result ∪ null_ty)
        & req "error" (mcp_tool_call_error ∪ null_ty)
        & req "durationMs" (num ∪ null_ty)
        & none_more)
    ∪ obj (
        req "type" (lit "dynamicToolCall")
        & req "id" str
        & req "namespace" (str ∪ null_ty)
        & req "tool" str
        & req "arguments" any
        & req "status" dynamic_tool_call_status
        & req "contentItems" (arr dynamic_tool_call_output_content_item ∪ null_ty)
        & req "success" (bool ∪ null_ty)
        & req "durationMs" (num ∪ null_ty)
        & none_more)
    ∪ obj (
        req "type" (lit "collabAgentToolCall")
        & req "id" str
        & req "tool" collab_agent_tool
        & req "status" collab_agent_tool_call_status
        & req "senderThreadId" str
        & req "receiverThreadIds" (arr str)
        & req "prompt" (str ∪ null_ty)
        & req "model" (str ∪ null_ty)
        & req "reasoningEffort" (reasoning_effort ∪ null_ty)
        & req "agentsStates" (dict collab_agent_state)
        & none_more)
    ∪ obj (
        req "type" (lit "subAgentActivity")
        & req "id" str
        & req "kind" sub_agent_activity_kind
        & req "agentThreadId" str
        & req "agentPath" str
        & none_more)
    ∪ (obj (req "type" (lit "webSearch") & none_more) ∩ web_search_item)
    ∪ obj (
        req "type" (lit "imageView") & req "id" str & req "path" legacy_app_path_string & none_more)
    ∪ (obj (req "type" (lit "sleep") & none_more) ∩ sleep_item)
    ∪ (obj (req "type" (lit "imageGeneration") & none_more) ∩ image_generation_item)
    ∪ obj (req "type" (lit "enteredReviewMode") & req "id" str & req "review" str & none_more)
    ∪ obj (req "type" (lit "exitedReviewMode") & req "id" str & req "review" str & none_more)
    ∪ obj (req "type" (lit "contextCompaction") & req "id" str & none_more)

-- v2/ItemCompletedNotification.ts
abbrev pub item_completed_notification : Ty
item_completed_notification = obj (
    req "item" thread_item
    & req "threadId" str
    & req "turnId" str
    & req "completedAtMs" num
    & none_more)

-- v2/ItemStartedNotification.ts
abbrev pub item_started_notification : Ty
item_started_notification = obj (
    req "item" thread_item
    & req "threadId" str
    & req "turnId" str
    & req "startedAtMs" num
    & none_more)
