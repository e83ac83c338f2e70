-- ===== src/Protocol/Types/ItemsBase.antt =====
-- probes/app-server-ts: items base, one definition for each file.
use codex_waiting_plgin.Protocol.Schema.{
  Ty, any, arr, bool, lit, none_more, null_ty, num, obj, opt, req, str, ◌&◌, ◌∩◌, ◌∪◌,
}

-- v2/DynamicToolFunctionSpec.ts
abbrev pub dynamic_tool_function_spec : Ty
dynamic_tool_function_spec = obj (
    req "name" str
    & req "description" str
    & req "inputSchema" any
    & opt "deferLoading" bool
    & none_more)

-- v2/DynamicToolNamespaceTool.ts
abbrev pub dynamic_tool_namespace_tool : Ty
dynamic_tool_namespace_tool =
    obj (req "type" (lit "function") & none_more) ∩ dynamic_tool_function_spec

-- v2/DynamicToolNamespaceSpec.ts
abbrev pub dynamic_tool_namespace_spec : Ty
dynamic_tool_namespace_spec = obj (
    req "name" str
    & req "description" str
    & req "tools" (arr dynamic_tool_namespace_tool)
    & none_more)

-- v2/DynamicToolSpec.ts
abbrev pub dynamic_tool_spec : Ty
dynamic_tool_spec =
    (obj (req "type" (lit "function") & none_more) ∩ dynamic_tool_function_spec)
    ∪ (obj (req "type" (lit "namespace") & none_more) ∩ dynamic_tool_namespace_spec)

-- AgentMessageInputContent.ts
abbrev pub agent_message_input_content : Ty
agent_message_input_content =
    obj (req "type" (lit "input_text") & req "text" str & none_more)
    ∪ obj (req "type" (lit "encrypted_content") & req "encrypted_content" str & none_more)

-- ImageDetail.ts
abbrev pub image_detail : Ty
image_detail = lit "auto" ∪ lit "low" ∪ lit "high" ∪ lit "original"

-- ContentItem.ts
abbrev pub content_item : Ty
content_item =
    obj (req "type" (lit "input_text") & req "text" str & none_more)
    ∪ obj (
        req "type" (lit "input_image")
        & req "image_url" str
        & opt "detail" image_detail
        & none_more)
    ∪ obj (req "type" (lit "input_audio") & req "audio_url" str & none_more)
    ∪ obj (req "type" (lit "output_text") & req "text" str & none_more)

-- FunctionCallOutputContentItem.ts
abbrev pub function_call_output_content_item : Ty
function_call_output_content_item =
    obj (req "type" (lit "input_text") & req "text" str & none_more)
    ∪ obj (
        req "type" (lit "input_image")
        & req "image_url" str
        & opt "detail" image_detail
        & none_more)
    ∪ obj (req "type" (lit "input_audio") & req "audio_url" str & none_more)
    ∪ obj (req "type" (lit "encrypted_content") & req "encrypted_content" str & none_more)

-- FunctionCallOutputBody.ts
abbrev pub function_call_output_body : Ty
function_call_output_body = str ∪ arr function_call_output_content_item

-- InternalChatMessageMetadataPassthrough.ts
abbrev pub internal_chat_message_metadata_passthrough : Ty
internal_chat_message_metadata_passthrough = obj (opt "turn_id" str & none_more)

-- MessagePhase.ts
abbrev pub message_phase : Ty
message_phase = lit "commentary" ∪ lit "final_answer"

-- ReasoningItemContent.ts
abbrev pub reasoning_item_content : Ty
reasoning_item_content =
    obj (req "type" (lit "reasoning_text") & req "text" str & none_more)
    ∪ obj (req "type" (lit "text") & req "text" str & none_more)

-- ReasoningItemReasoningSummary.ts
abbrev pub reasoning_item_reasoning_summary : Ty
reasoning_item_reasoning_summary =
    obj (req "type" (lit "summary_text") & req "text" str & none_more)

-- ResponseItemId.ts
abbrev pub response_item_id : Ty
response_item_id = str

-- WebSearchAction.ts
abbrev pub web_search_action_root : Ty
web_search_action_root =
    obj (req "type" (lit "search") & opt "query" str & opt "queries" (arr str) & none_more)
    ∪ obj (req "type" (lit "open_page") & opt "url" str & none_more)
    ∪ obj (req "type" (lit "find_in_page") & opt "url" str & opt "pattern" str & none_more)
    ∪ obj (req "type" (lit "other") & none_more)

-- v2/TurnItemsView.ts
abbrev pub turn_items_view : Ty
turn_items_view = lit "notLoaded" ∪ lit "summary" ∪ lit "full"

-- ReasoningEffort.ts
abbrev pub reasoning_effort : Ty
reasoning_effort = str

-- ReasoningSummary.ts
abbrev pub reasoning_summary : Ty
reasoning_summary = lit "auto" ∪ lit "concise" ∪ lit "detailed" ∪ lit "none"

-- v2/TurnToolOutput.ts
abbrev pub turn_tool_output : Ty
turn_tool_output = obj (
    req "name" str
    & req "namespace" (str ∪ null_ty)
    & req "output" function_call_output_body
    & none_more)

-- v2/CommandExecTerminalSize.ts
abbrev pub command_exec_terminal_size : Ty
command_exec_terminal_size = obj (req "rows" num & req "cols" num & none_more)

-- v2/ProcessTerminalSize.ts
abbrev pub process_terminal_size : Ty
process_terminal_size = obj (req "rows" num & req "cols" num & none_more)

-- v2/ProcessKillParams.ts
abbrev pub process_kill_params : Ty
process_kill_params = obj (req "processHandle" str & none_more)

-- ImageGenerationFailure.ts
abbrev pub image_generation_failure : Ty
image_generation_failure = obj (
    req "type" (lit "usageLimitExceeded")
    & req "limitId" str
    & req "resetsAt" (num ∪ null_ty)
    & none_more)

-- SleepItem.ts
abbrev pub sleep_item : Ty
sleep_item = obj (req "id" str & req "durationMs" num & none_more)

-- v2/WebSearchAction.ts
abbrev pub web_search_action : Ty
web_search_action =
    obj (
      req "type" (lit "search")
      & req "query" (str ∪ null_ty)
      & req "queries" (arr str ∪ null_ty)
      & none_more)
    ∪ obj (req "type" (lit "openPage") & req "url" (str ∪ null_ty) & none_more)
    ∪ obj (
        req "type" (lit "findInPage")
        & req "url" (str ∪ null_ty)
        & req "pattern" (str ∪ null_ty)
        & none_more)
    ∪ obj (req "type" (lit "other") & none_more)

-- WebSearchItem.ts
abbrev pub web_search_item : Ty
web_search_item = obj (
    req "id" str
    & req "query" str
    & req "action" (web_search_action ∪ null_ty)
    & req "results" (arr any ∪ null_ty)
    & none_more)

-- v2/AgentMessageDelivery.ts
abbrev pub agent_message_delivery : Ty
agent_message_delivery = lit "async"

-- v2/CollabAgentStatus.ts
abbrev pub collab_agent_status : Ty
collab_agent_status =
    lit "pendingInit"
    ∪ lit "running"
    ∪ lit "interrupted"
    ∪ lit "completed"
    ∪ lit "errored"
    ∪ lit "shutdown"
    ∪ lit "notFound"

-- v2/CollabAgentState.ts
abbrev pub collab_agent_state : Ty
collab_agent_state =
    obj (req "status" collab_agent_status & req "message" (str ∪ null_ty) & none_more)

-- v2/CollabAgentTool.ts
abbrev pub collab_agent_tool : Ty
collab_agent_tool =
    lit "spawnAgent"
    ∪ lit "sendInput"
    ∪ lit "resumeAgent"
    ∪ lit "wait"
    ∪ lit "closeAgent"
    ∪ lit "sendMessage"
    ∪ lit "followupTask"
    ∪ lit "interruptAgent"
    ∪ lit "listAgents"

-- v2/CollabAgentToolCallStatus.ts
abbrev pub collab_agent_tool_call_status : Ty
collab_agent_tool_call_status =
    lit "inProgress" ∪ lit "completed" ∪ lit "failed" ∪ lit "interrupted"

-- v2/CommandExecutionSource.ts
abbrev pub command_execution_source : Ty
command_execution_source =
    lit "agent" ∪ lit "userShell" ∪ lit "unifiedExecStartup" ∪ lit "unifiedExecInteraction"

-- v2/CommandExecutionStatus.ts
abbrev pub command_execution_status : Ty
command_execution_status = lit "inProgress" ∪ lit "completed" ∪ lit "failed" ∪ lit "declined"

-- v2/DynamicToolCallOutputContentItem.ts
abbrev pub dynamic_tool_call_output_content_item : Ty
dynamic_tool_call_output_content_item =
    obj (req "type" (lit "inputText") & req "text" str & none_more)
    ∪ obj (req "type" (lit "inputImage") & req "imageUrl" str & none_more)
    ∪ obj (req "type" (lit "inputAudio") & req "audioUrl" str & none_more)

-- v2/DynamicToolCallStatus.ts
abbrev pub dynamic_tool_call_status : Ty
dynamic_tool_call_status = lit "inProgress" ∪ lit "completed" ∪ lit "failed"

-- v2/PatchChangeKind.ts
abbrev pub patch_change_kind : Ty
patch_change_kind =
    obj (req "type" (lit "add") & none_more)
    ∪ obj (req "type" (lit "delete") & none_more)
    ∪ obj (req "type" (lit "update") & req "move_path" (str ∪ null_ty) & none_more)
