-- ===== src/Protocol/Types/TurnsData.antt =====
-- probes/app-server-ts: turns data, one definition for each file.
use codex_waiting_plgin.Protocol.Schema.{Ty, lit, none_more, num, obj, req, str, ◌&◌, ◌∪◌}
use codex_waiting_plgin.Protocol.Types.Basics.{absolute_path_buf}

-- ConversationTextRole.ts
abbrev pub conversation_text_role : Ty
conversation_text_role = lit "user" ∪ lit "developer" ∪ lit "assistant"

-- InputModality.ts
abbrev pub input_modality : Ty
input_modality = lit "text" ∪ lit "image" ∪ lit "audio"

-- v2/MarketplaceLoadErrorInfo.ts
abbrev pub marketplace_load_error_info : Ty
marketplace_load_error_info =
    obj (req "marketplacePath" absolute_path_buf & req "message" str & none_more)

-- v2/MarketplaceUpgradeErrorInfo.ts
abbrev pub marketplace_upgrade_error_info : Ty
marketplace_upgrade_error_info = obj (req "marketplaceName" str & req "message" str & none_more)

-- v2/SkillErrorInfo.ts
abbrev pub skill_error_info : Ty
skill_error_info = obj (req "path" str & req "message" str & none_more)

-- v2/ThreadSearchTextRange.ts
abbrev pub thread_search_text_range : Ty
thread_search_text_range = obj (req "start" num & req "end" num & none_more)

-- v2/TurnSettingsUpdateStatus.ts
abbrev pub turn_settings_update_status : Ty
turn_settings_update_status = lit "applied" ∪ lit "targetUnavailable"
