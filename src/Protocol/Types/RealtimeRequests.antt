-- ===== src/Protocol/Types/RealtimeRequests.antt =====
-- probes/app-server-ts: realtime requests, one definition for each file.
use codex_waiting_plgin.Protocol.Schema.{
  Ty, arr, bool, dict, none_more, null_ty, obj, opt, req, str, ◌&◌, ◌∪◌,
}
use codex_waiting_plgin.Protocol.Types.BasicsDataBase.{codex_response_handoff_mode}
use codex_waiting_plgin.Protocol.Types.CompositesBase.{thread_realtime_initial_item}
use codex_waiting_plgin.Protocol.Types.Realtime.{
  realtime_conversation_version, thread_realtime_audio_chunk,
}
use codex_waiting_plgin.Protocol.Types.RealtimeData.{
  realtime_output_modality, realtime_voice, thread_realtime_start_transport,
}
use codex_waiting_plgin.Protocol.Types.TurnsData.{conversation_text_role}

-- v2/ThreadRealtimeAppendAudioParams.ts
abbrev pub thread_realtime_append_audio_params : Ty
thread_realtime_append_audio_params =
    obj (req "threadId" str & req "audio" thread_realtime_audio_chunk & none_more)

-- v2/ThreadRealtimeAppendSpeechParams.ts
abbrev pub thread_realtime_append_speech_params : Ty
thread_realtime_append_speech_params = obj (req "threadId" str & req "text" str & none_more)

-- v2/ThreadRealtimeAppendTextParams.ts
abbrev pub thread_realtime_append_text_params : Ty
thread_realtime_append_text_params =
    obj (req "threadId" str & req "text" str & req "role" conversation_text_role & none_more)

-- v2/ThreadRealtimeListVoicesParams.ts
abbrev pub thread_realtime_list_voices_params : Ty
thread_realtime_list_voices_params = obj (none_more)

-- v2/ThreadRealtimeStartParams.ts
abbrev pub thread_realtime_start_params : Ty
thread_realtime_start_params = obj (
    req "threadId" str
    & opt "clientManagedHandoffs" (bool ∪ null_ty)
    & opt "delegationAckFiller" (bool ∪ null_ty)
    & opt "flushTranscriptTailOnSessionEnd" (bool ∪ null_ty)
    & opt "codexResponsesAsItems" (bool ∪ null_ty)
    & opt "codexResponseItemPrefix" (str ∪ null_ty)
    & opt "codexResponseHandoffMode" (codex_response_handoff_mode ∪ null_ty)
    & opt "codexResponseHandoffChannelPrefixes" (dict (arr str) ∪ null_ty)
    & opt "model" (str ∪ null_ty)
    & req "outputModality" realtime_output_modality
    & opt "includeStartupContext" (bool ∪ null_ty)
    & opt "initialItems" (arr thread_realtime_initial_item ∪ null_ty)
    & opt "realtimeStartInstructions" (str ∪ null_ty)
    & opt "realtimeEndInstructions" (str ∪ null_ty)
    & opt "prompt" (str ∪ null_ty ∪ null_ty)
    & opt "realtimeSessionId" (str ∪ null_ty)
    & opt "transport" (thread_realtime_start_transport ∪ null_ty)
    & opt "version" (realtime_conversation_version ∪ null_ty)
    & opt "voice" (realtime_voice ∪ null_ty)
    & none_more)

-- v2/ThreadRealtimeStopParams.ts
abbrev pub thread_realtime_stop_params : Ty
thread_realtime_stop_params = obj (req "threadId" str & none_more)
