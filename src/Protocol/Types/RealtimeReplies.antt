-- ===== src/Protocol/Types/RealtimeReplies.antt =====
-- probes/app-server-ts: realtime replies, one definition for each file.
use codex_waiting_plgin.Protocol.Schema.{Ty, none_more, obj, req, ◌&◌}
use codex_waiting_plgin.Protocol.Types.RealtimeData.{realtime_voices_list}

-- v2/ThreadRealtimeAppendAudioResponse.ts
abbrev pub thread_realtime_append_audio_response : Ty
thread_realtime_append_audio_response = obj (none_more)

-- v2/ThreadRealtimeAppendSpeechResponse.ts
abbrev pub thread_realtime_append_speech_response : Ty
thread_realtime_append_speech_response = obj (none_more)

-- v2/ThreadRealtimeAppendTextResponse.ts
abbrev pub thread_realtime_append_text_response : Ty
thread_realtime_append_text_response = obj (none_more)

-- v2/ThreadRealtimeListVoicesResponse.ts
abbrev pub thread_realtime_list_voices_response : Ty
thread_realtime_list_voices_response = obj (req "voices" realtime_voices_list & none_more)

-- v2/ThreadRealtimeStartResponse.ts
abbrev pub thread_realtime_start_response : Ty
thread_realtime_start_response = obj (none_more)

-- v2/ThreadRealtimeStopResponse.ts
abbrev pub thread_realtime_stop_response : Ty
thread_realtime_stop_response = obj (none_more)
