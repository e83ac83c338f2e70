-- ===== src/Protocol/Types/ServerNotifications.antt =====
-- probes/app-server-ts: server notifications, one definition for each file.
use codex_waiting_plgin.Protocol.Schema.{Ty, ◌∪◌}
use codex_waiting_plgin.Protocol.Types.Account.{
  account_rate_limits_updated_notification, account_updated_notification,
  auth_recovery_notification, thread_token_usage_updated_notification,
}
use codex_waiting_plgin.Protocol.Types.AccountState.{account_login_completed_notification}
use codex_waiting_plgin.Protocol.Types.Approvals.{
  config_warning_notification, item_guardian_approval_review_completed_notification,
  item_guardian_approval_review_started_notification,
}
use codex_waiting_plgin.Protocol.Types.Apps.{
  app_list_updated_notification, skills_changed_notification,
}
use codex_waiting_plgin.Protocol.Types.BasicRecords.{raw_response_completed_notification}
use codex_waiting_plgin.Protocol.Types.Basics.{
  context_compacted_notification, deprecation_notice_notification, fs_changed_notification,
  plan_delta_notification, project_changed_notification, remote_control_status_changed_notification,
  server_request_resolved_notification, strict_review_required_notification,
  terminal_interaction_notification, warning_notification,
  windows_world_writable_warning_notification,
}
use codex_waiting_plgin.Protocol.Types.Config.{
  environment_connection_notification, external_agent_config_import_completed_notification,
  external_agent_config_import_progress_notification, guardian_warning_notification,
  windows_sandbox_setup_completed_notification,
}
use codex_waiting_plgin.Protocol.Types.ItemRecords.{
  hook_completed_notification, hook_started_notification, raw_response_item_completed_notification,
}
use codex_waiting_plgin.Protocol.Types.Items.{
  agent_message_delta_notification, command_exec_output_delta_notification,
  command_execution_output_delta_notification, file_change_output_delta_notification,
  file_change_patch_updated_notification, process_exited_notification,
  process_output_delta_notification, reasoning_summary_part_added_notification,
  reasoning_summary_text_delta_notification, reasoning_text_delta_notification,
}
use codex_waiting_plgin.Protocol.Types.Mcp.{
  mcp_server_event_stream_notification, mcp_server_oauth_login_completed_notification,
  mcp_server_status_updated_notification, mcp_tool_call_progress_notification,
}
use codex_waiting_plgin.Protocol.Types.Realtime.{
  thread_realtime_closed_notification, thread_realtime_error_notification,
  thread_realtime_item_added_notification, thread_realtime_item_completed_notification,
  thread_realtime_item_started_notification, thread_realtime_item_transcript_delta_notification,
  thread_realtime_output_audio_delta_notification, thread_realtime_sdp_notification,
  thread_realtime_started_notification, thread_realtime_transcript_delta_notification,
  thread_realtime_transcript_done_notification,
}
use codex_waiting_plgin.Protocol.Types.ThreadItems.{
  item_completed_notification, item_started_notification,
}
use codex_waiting_plgin.Protocol.Types.ThreadPages.{thread_settings_updated_notification}
use codex_waiting_plgin.Protocol.Types.ThreadRecords.{
  fuzzy_file_search_session_updated_notification,
}
use codex_waiting_plgin.Protocol.Types.ThreadResponses.{thread_started_notification}
use codex_waiting_plgin.Protocol.Types.Threads.{
  fuzzy_file_search_session_completed_notification, model_rerouted_notification,
  model_safety_buffering_updated_notification, model_verification_notification,
  thread_archived_notification, thread_closed_notification, thread_deleted_notification,
  thread_goal_cleared_notification, thread_goal_updated_notification,
  thread_name_updated_notification, thread_project_updated_notification,
  thread_queue_changed_notification, thread_reverted_notification,
  thread_status_changed_notification, thread_unarchived_notification,
}
use codex_waiting_plgin.Protocol.Types.TurnRecords.{
  turn_completed_notification, turn_started_notification,
}
use codex_waiting_plgin.Protocol.Types.Turns.{
  error_notification, turn_diff_updated_notification, turn_moderation_metadata_notification,
  turn_plan_updated_notification,
}
use codex_waiting_plgin.Protocol.Types.Envelopes.{notification_of}

-- ServerNotification.ts
abbrev pub server_notification : Ty
server_notification =
    notification_of "error" error_notification
    ∪ notification_of "thread/started" thread_started_notification
    ∪ notification_of "thread/status/changed" thread_status_changed_notification
    ∪ notification_of "thread/archived" thread_archived_notification
    ∪ notification_of "thread/deleted" thread_deleted_notification
    ∪ notification_of "thread/unarchived" thread_unarchived_notification
    ∪ notification_of "thread/closed" thread_closed_notification
    ∪ notification_of "thread/reverted" thread_reverted_notification
    ∪ notification_of "skills/changed" skills_changed_notification
    ∪ notification_of "thread/name/updated" thread_name_updated_notification
    ∪ notification_of "thread/goal/updated" thread_goal_updated_notification
    ∪ notification_of "thread/goal/cleared" thread_goal_cleared_notification
    ∪ notification_of "thread/queue/changed" thread_queue_changed_notification
    ∪ notification_of "project/changed" project_changed_notification
    ∪ notification_of "thread/project/updated" thread_project_updated_notification
    ∪ notification_of "thread/environment/connected" environment_connection_notification
    ∪ notification_of "thread/environment/disconnected" environment_connection_notification
    ∪ notification_of "thread/settings/updated" thread_settings_updated_notification
    ∪ notification_of "thread/tokenUsage/updated" thread_token_usage_updated_notification
    ∪ notification_of "turn/started" turn_started_notification
    ∪ notification_of "hook/started" hook_started_notification
    ∪ notification_of "turn/completed" turn_completed_notification
    ∪ notification_of "hook/completed" hook_completed_notification
    ∪ notification_of "turn/diff/updated" turn_diff_updated_notification
    ∪ notification_of "turn/plan/updated" turn_plan_updated_notification
    ∪ notification_of "item/started" item_started_notification
    ∪ notification_of "item/autoApprovalReview/started"
        item_guardian_approval_review_started_notification
    ∪ notification_of "item/autoApprovalReview/completed"
        item_guardian_approval_review_completed_notification
    ∪ notification_of "autoApprovalReview/strictReviewRequired" strict_review_required_notification
    ∪ notification_of "item/completed" item_completed_notification
    ∪ notification_of "rawResponseItem/completed" raw_response_item_completed_notification
    ∪ notification_of "rawResponse/completed" raw_response_completed_notification
    ∪ notification_of "item/agentMessage/delta" agent_message_delta_notification
    ∪ notification_of "item/plan/delta" plan_delta_notification
    ∪ notification_of "command/exec/outputDelta" command_exec_output_delta_notification
    ∪ notification_of "process/outputDelta" process_output_delta_notification
    ∪ notification_of "process/exited" process_exited_notification
    ∪ notification_of "item/commandExecution/outputDelta"
        command_execution_output_delta_notification
    ∪ notification_of "item/commandExecution/terminalInteraction" terminal_interaction_notification
    ∪ notification_of "item/fileChange/outputDelta" file_change_output_delta_notification
    ∪ notification_of "item/fileChange/patchUpdated" file_change_patch_updated_notification
    ∪ notification_of "serverRequest/resolved" server_request_resolved_notification
    ∪ notification_of "item/mcpToolCall/progress" mcp_tool_call_progress_notification
    ∪ notification_of "mcpServer/oauthLogin/completed" mcp_server_oauth_login_completed_notification
    ∪ notification_of "mcpServer/startupStatus/updated" mcp_server_status_updated_notification
    ∪ notification_of "mcpServer/event/stream/notification" mcp_server_event_stream_notification
    ∪ notification_of "account/updated" account_updated_notification
    ∪ notification_of "account/rateLimits/updated" account_rate_limits_updated_notification
    ∪ notification_of "app/list/updated" app_list_updated_notification
    ∪ notification_of "remoteControl/status/changed" remote_control_status_changed_notification
    ∪ notification_of "externalAgentConfig/import/progress"
        external_agent_config_import_progress_notification
    ∪ notification_of "externalAgentConfig/import/completed"
        external_agent_config_import_completed_notification
    ∪ notification_of "fs/changed" fs_changed_notification
    ∪ notification_of "item/reasoning/summaryTextDelta" reasoning_summary_text_delta_notification
    ∪ notification_of "item/reasoning/summaryPartAdded" reasoning_summary_part_added_notification
    ∪ notification_of "item/reasoning/textDelta" reasoning_text_delta_notification
    ∪ notification_of "thread/compacted" context_compacted_notification
    ∪ notification_of "model/rerouted" model_rerouted_notification
    ∪ notification_of "model/verification" model_verification_notification
    ∪ notification_of "modelProvider/authRecoveryStarted" auth_recovery_notification
    ∪ notification_of "modelProvider/authRecoveryCompleted" auth_recovery_notification
    ∪ notification_of "turn/moderationMetadata" turn_moderation_metadata_notification
    ∪ notification_of "model/safetyBuffering/updated" model_safety_buffering_updated_notification
    ∪ notification_of "warning" warning_notification
    ∪ notification_of "guardianWarning" guardian_warning_notification
    ∪ notification_of "deprecationNotice" deprecation_notice_notification
    ∪ notification_of "configWarning" config_warning_notification
    ∪ notification_of "fuzzyFileSearch/sessionUpdated"
        fuzzy_file_search_session_updated_notification
    ∪ notification_of "fuzzyFileSearch/sessionCompleted"
        fuzzy_file_search_session_completed_notification
    ∪ notification_of "thread/realtime/started" thread_realtime_started_notification
    ∪ notification_of "thread/realtime/itemAdded" thread_realtime_item_added_notification
    ∪ notification_of "thread/realtime/item/started" thread_realtime_item_started_notification
    ∪ notification_of "thread/realtime/item/transcript/delta"
        thread_realtime_item_transcript_delta_notification
    ∪ notification_of "thread/realtime/item/completed" thread_realtime_item_completed_notification
    ∪ notification_of "thread/realtime/transcript/delta"
        thread_realtime_transcript_delta_notification
    ∪ notification_of "thread/realtime/transcript/done" thread_realtime_transcript_done_notification
    ∪ notification_of "thread/realtime/outputAudio/delta"
        thread_realtime_output_audio_delta_notification
    ∪ notification_of "thread/realtime/sdp" thread_realtime_sdp_notification
    ∪ notification_of "thread/realtime/error" thread_realtime_error_notification
    ∪ notification_of "thread/realtime/closed" thread_realtime_closed_notification
    ∪ notification_of "windows/worldWritableWarning" windows_world_writable_warning_notification
    ∪ notification_of "windowsSandbox/setupCompleted" windows_sandbox_setup_completed_notification
    ∪ notification_of "account/login/completed" account_login_completed_notification
