-- ===== src/Protocol/Types/RealtimeData.antt =====
-- probes/app-server-ts: realtime data, one definition for each file.
use codex_waiting_plgin.Protocol.Schema.{Ty, arr, lit, none_more, obj, req, str, ◌&◌, ◌∪◌}

-- RealtimeOutputModality.ts
abbrev pub realtime_output_modality : Ty
realtime_output_modality = lit "text" ∪ lit "audio"

-- RealtimeVoice.ts
abbrev pub realtime_voice : Ty
realtime_voice =
    lit "alloy"
    ∪ lit "arbor"
    ∪ lit "ash"
    ∪ lit "ballad"
    ∪ lit "breeze"
    ∪ lit "cedar"
    ∪ lit "coral"
    ∪ lit "cove"
    ∪ lit "echo"
    ∪ lit "ember"
    ∪ lit "juniper"
    ∪ lit "maple"
    ∪ lit "marin"
    ∪ lit "sage"
    ∪ lit "shimmer"
    ∪ lit "sol"
    ∪ lit "spruce"
    ∪ lit "vale"
    ∪ lit "verse"

-- v2/ThreadRealtimeStartTransport.ts
abbrev pub thread_realtime_start_transport : Ty
thread_realtime_start_transport =
    obj (req "type" (lit "websocket") & none_more)
    ∪ obj (req "type" (lit "webrtc") & req "sdp" str & none_more)
    ∪ obj (req "type" (lit "existingCall") & req "callId" str & none_more)

-- RealtimeVoicesList.ts
abbrev pub realtime_voices_list : Ty
realtime_voices_list = obj (
    req "v1" (arr realtime_voice)
    & req "v2" (arr realtime_voice)
    & req "defaultV1" realtime_voice
    & req "defaultV2" realtime_voice
    & none_more)
