-- ===== src/Protocol/Types/ItemsReplies.antt =====
-- probes/app-server-ts: items replies, one definition for each file.
use codex_waiting_plgin.Protocol.Schema.{Ty, arr, dict, none_more, null_ty, obj, req, str, ◌&◌, ◌∪◌}
use codex_waiting_plgin.Protocol.Types.ItemsData.{
  collaboration_mode_mask, hooks_list_entry, thread_item_entry, tool_request_user_input_answer,
}

-- v2/CollaborationModeListResponse.ts
abbrev pub collaboration_mode_list_response : Ty
collaboration_mode_list_response = obj (req "data" (arr collaboration_mode_mask) & none_more)

-- v2/CommandExecResizeResponse.ts
abbrev pub command_exec_resize_response : Ty
command_exec_resize_response = obj (none_more)

-- v2/CommandExecTerminateResponse.ts
abbrev pub command_exec_terminate_response : Ty
command_exec_terminate_response = obj (none_more)

-- v2/CommandExecWriteResponse.ts
abbrev pub command_exec_write_response : Ty
command_exec_write_response = obj (none_more)

-- v2/HooksListResponse.ts
abbrev pub hooks_list_response : Ty
hooks_list_response = obj (req "data" (arr hooks_list_entry) & none_more)

-- v2/MemoryResetResponse.ts
abbrev pub memory_reset_response : Ty
memory_reset_response = obj (none_more)

-- v2/ProcessResizePtyResponse.ts
abbrev pub process_resize_pty_response : Ty
process_resize_pty_response = obj (none_more)

-- v2/ProcessWriteStdinResponse.ts
abbrev pub process_write_stdin_response : Ty
process_write_stdin_response = obj (none_more)

-- v2/ThreadInjectItemsResponse.ts
abbrev pub thread_inject_items_response : Ty
thread_inject_items_response = obj (none_more)

-- v2/ThreadItemsListResponse.ts
abbrev pub thread_items_list_response : Ty
thread_items_list_response = obj (
    req "data" (arr thread_item_entry)
    & req "nextCursor" (str ∪ null_ty)
    & req "backwardsCursor" (str ∪ null_ty)
    & none_more)

-- v2/ThreadMemoryModeSetResponse.ts
abbrev pub thread_memory_mode_set_response : Ty
thread_memory_mode_set_response = obj (none_more)

-- v2/ThreadShellCommandResponse.ts
abbrev pub thread_shell_command_response : Ty
thread_shell_command_response = obj (none_more)

-- v2/ToolRequestUserInputResponse.ts
abbrev pub tool_request_user_input_response : Ty
tool_request_user_input_response =
    obj (req "answers" (dict tool_request_user_input_answer) & none_more)
