-- ===== src/Protocol/Types/TurnsReplies.antt =====
-- probes/app-server-ts: turns replies, one definition for each file.
use codex_waiting_plgin.Protocol.Schema.{Ty, arr, none_more, null_ty, obj, req, str, ◌&◌, ◌∪◌}
use codex_waiting_plgin.Protocol.Types.TurnRecords.{turn}
use codex_waiting_plgin.Protocol.Types.TurnsData.{turn_settings_update_status}

-- v2/ThreadTurnsListResponse.ts
abbrev pub thread_turns_list_response : Ty
thread_turns_list_response = obj (
    req "data" (arr turn)
    & req "nextCursor" (str ∪ null_ty)
    & req "backwardsCursor" (str ∪ null_ty)
    & none_more)

-- v2/TurnSettingsUpdateResponse.ts
abbrev pub turn_settings_update_response : Ty
turn_settings_update_response = obj (req "status" turn_settings_update_status & none_more)

-- v2/TurnSteerResponse.ts
abbrev pub turn_steer_response : Ty
turn_steer_response = obj (req "turnId" str & none_more)
