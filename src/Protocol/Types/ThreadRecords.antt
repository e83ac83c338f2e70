-- ===== src/Protocol/Types/ThreadRecords.antt =====
-- probes/app-server-ts: thread records, one definition for each file.
use codex_waiting_plgin.Protocol.Schema.{Ty, arr, none_more, null_ty, num, obj, req, str, ◌&◌, ◌∪◌}
use codex_waiting_plgin.Protocol.Types.Apps.{legacy_app_path_string}
use codex_waiting_plgin.Protocol.Types.Basics.{fuzzy_file_search_result}

-- v2/ThreadBackgroundTerminal.ts
abbrev pub thread_background_terminal : Ty
thread_background_terminal = obj (
    req "itemId" str
    & req "processId" str
    & req "command" str
    & req "cwd" legacy_app_path_string
    & req "osPid" (num ∪ null_ty)
    & req "cpuPercent" (num ∪ null_ty)
    & req "rssKb" (num ∪ null_ty)
    & none_more)

-- v2/ThreadBackgroundTerminalsListResponse.ts
abbrev pub thread_background_terminals_list_response : Ty
thread_background_terminals_list_response =
    obj (req "data" (arr thread_background_terminal) & req "nextCursor" (str ∪ null_ty) & none_more)

-- FuzzyFileSearchSessionUpdatedNotification.ts
abbrev pub fuzzy_file_search_session_updated_notification : Ty
fuzzy_file_search_session_updated_notification =
    obj (
      req "sessionId" str
      & req "query" str
      & req "files" (arr fuzzy_file_search_result)
      & none_more)
