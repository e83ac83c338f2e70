-- ===== src/Protocol/Types/Realtime.antt =====
-- probes/app-server-ts: realtime, one definition for each file.
use codex_waiting_plgin.Protocol.Schema.{
  Ty, any, lit, none_more, null_ty, num, obj, req, str, ◌&◌, ◌∩◌, ◌∪◌,
}

-- v2/ThreadRealtimeClosedNotification.ts
abbrev pub thread_realtime_closed_notification : Ty
thread_realtime_closed_notification =
    obj (req "threadId" str & req "reason" (str ∪ null_ty) & none_more)

-- v2/ThreadRealtimeErrorNotification.ts
abbrev pub thread_realtime_error_notification : Ty
thread_realtime_error_notification = obj (req "threadId" str & req "message" str & none_more)

-- v2/ThreadRealtimeItemAddedNotification.ts
abbrev pub thread_realtime_item_added_notification : Ty
thread_realtime_item_added_notification = obj (req "threadId" str & req "item" any & none_more)

-- v2/ThreadRealtimeBemItemPresentation.ts
abbrev pub thread_realtime_bem_item_presentation : Ty
thread_realtime_bem_item_presentation =
    obj (req "type" (lit "wholeItem") & none_more)
    ∪ obj (req "type" (lit "inlineMarkdown") & none_more)
    ∪ obj (req "type" (lit "inlineVisualization") & req "index" num & none_more)

-- v2/ThreadRealtimeSessionOutcome.ts
abbrev pub thread_realtime_session_outcome : Ty
thread_realtime_session_outcome = lit "ended" ∪ lit "failed"

-- v2/ThreadRealtimeTranscriptRole.ts
abbrev pub thread_realtime_transcript_role : Ty
thread_realtime_transcript_role = lit "user" ∪ lit "assistant"

-- v2/ThreadRealtimeItem.ts
abbrev pub thread_realtime_item : Ty
thread_realtime_item =
    obj (req "id" str & req "realtimeSessionId" str & none_more)
    ∩ (obj (req "type" (lit "realtimeSessionStarted") & none_more)
        ∪ obj (
            req "type" (lit "transcriptSegment")
            & req "role" thread_realtime_transcript_role
            & req "text" str
            & none_more)
        ∪ obj (
            req "type" (lit "bemItemPromoted")
            & req "turnId" str
            & req "itemId" str
            & req "presentation" thread_realtime_bem_item_presentation
            & none_more)
        ∪ obj (
            req "type" (lit "realtimeSessionClosed")
            & req "outcome" thread_realtime_session_outcome
            & none_more))

-- v2/ThreadRealtimeItemCompletedNotification.ts
abbrev pub thread_realtime_item_completed_notification : Ty
thread_realtime_item_completed_notification =
    obj (req "threadId" str & req "item" thread_realtime_item & none_more)

-- v2/ThreadRealtimeItemStartedNotification.ts
abbrev pub thread_realtime_item_started_notification : Ty
thread_realtime_item_started_notification =
    obj (req "threadId" str & req "item" thread_realtime_item & none_more)

-- v2/ThreadRealtimeItemTranscriptDeltaNotification.ts
abbrev pub thread_realtime_item_transcript_delta_notification : Ty
thread_realtime_item_transcript_delta_notification =
    obj (req "threadId" str & req "itemId" str & req "delta" str & none_more)

-- v2/ThreadRealtimeAudioChunk.ts
abbrev pub thread_realtime_audio_chunk : Ty
thread_realtime_audio_chunk = obj (
    req "data" str
    & req "sampleRate" num
    & req "numChannels" num
    & req "samplesPerChannel" (num ∪ null_ty)
    & req "itemId" (str ∪ null_ty)
    & none_more)

-- v2/ThreadRealtimeOutputAudioDeltaNotification.ts
abbrev pub thread_realtime_output_audio_delta_notification : Ty
thread_realtime_output_audio_delta_notification =
    obj (req "threadId" str & req "audio" thread_realtime_audio_chunk & none_more)

-- v2/ThreadRealtimeSdpNotification.ts
abbrev pub thread_realtime_sdp_notification : Ty
thread_realtime_sdp_notification = obj (req "threadId" str & req "sdp" str & none_more)

-- RealtimeConversationVersion.ts
abbrev pub realtime_conversation_version : Ty
realtime_conversation_version = lit "v1" ∪ lit "v2" ∪ lit "v3"

-- v2/ThreadRealtimeStartedNotification.ts
abbrev pub thread_realtime_started_notification : Ty
thread_realtime_started_notification = obj (
    req "threadId" str
    & req "realtimeSessionId" (str ∪ null_ty)
    & req "version" realtime_conversation_version
    & none_more)

-- v2/ThreadRealtimeTranscriptDeltaNotification.ts
abbrev pub thread_realtime_transcript_delta_notification : Ty
thread_realtime_transcript_delta_notification =
    obj (req "threadId" str & req "role" str & req "delta" str & none_more)

-- v2/ThreadRealtimeTranscriptDoneNotification.ts
abbrev pub thread_realtime_transcript_done_notification : Ty
thread_realtime_transcript_done_notification =
    obj (req "threadId" str & req "role" str & req "text" str & none_more)
