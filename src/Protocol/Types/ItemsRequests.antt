-- ===== src/Protocol/Types/ItemsRequests.antt =====
-- probes/app-server-ts: items requests, one definition for each file.
use codex_waiting_plgin.Protocol.Schema.{
  Ty, any, arr, bool, none_more, null_ty, num, obj, opt, req, str, ◌&◌, ◌∪◌,
}
use codex_waiting_plgin.Protocol.Types.Basics.{sort_direction}
use codex_waiting_plgin.Protocol.Types.ItemsBase.{command_exec_terminal_size, process_terminal_size}
use codex_waiting_plgin.Protocol.Types.ItemsData.{thread_memory_mode}

-- v2/CollaborationModeListParams.ts
abbrev pub collaboration_mode_list_params : Ty
collaboration_mode_list_params = obj (none_more)

-- v2/CommandExecResizeParams.ts
abbrev pub command_exec_resize_params : Ty
command_exec_resize_params =
    obj (req "processId" str & req "size" command_exec_terminal_size & none_more)

-- v2/CommandExecTerminateParams.ts
abbrev pub command_exec_terminate_params : Ty
command_exec_terminate_params = obj (req "processId" str & none_more)

-- v2/CommandExecWriteParams.ts
abbrev pub command_exec_write_params : Ty
command_exec_write_params =
    obj
      (req "processId" str & opt "deltaBase64" (str ∪ null_ty) & opt "closeStdin" bool & none_more)

-- v2/HooksListParams.ts
abbrev pub hooks_list_params : Ty
hooks_list_params = obj (opt "cwds" (arr str) & none_more)

-- v2/ProcessResizePtyParams.ts
abbrev pub process_resize_pty_params : Ty
process_resize_pty_params =
    obj (req "processHandle" str & req "size" process_terminal_size & none_more)

-- v2/ProcessWriteStdinParams.ts
abbrev pub process_write_stdin_params : Ty
process_write_stdin_params = obj (
    req "processHandle" str & opt "deltaBase64" (str ∪ null_ty) & opt "closeStdin" bool & none_more)

-- v2/ThreadInjectItemsParams.ts
abbrev pub thread_inject_items_params : Ty
thread_inject_items_params = obj (req "threadId" str & req "items" (arr any) & none_more)

-- v2/ThreadItemsListParams.ts
abbrev pub thread_items_list_params : Ty
thread_items_list_params = obj (
    req "threadId" str
    & opt "turnId" (str ∪ null_ty)
    & opt "cursor" (str ∪ null_ty)
    & opt "limit" (num ∪ null_ty)
    & opt "sortDirection" (sort_direction ∪ null_ty)
    & none_more)

-- v2/ThreadMemoryModeSetParams.ts
abbrev pub thread_memory_mode_set_params : Ty
thread_memory_mode_set_params = obj (req "threadId" str & req "mode" thread_memory_mode & none_more)

-- v2/ThreadShellCommandParams.ts
abbrev pub thread_shell_command_params : Ty
thread_shell_command_params =
    obj (req "threadId" str & req "command" str & opt "timeoutMs" (num ∪ null_ty) & none_more)
