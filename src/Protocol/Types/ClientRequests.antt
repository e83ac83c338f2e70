-- ===== src/Protocol/Types/ClientRequests.antt =====
-- probes/app-server-ts: client requests, one definition for each file.
use codex_waiting_plgin.Protocol.Schema.{
  Ty, lit, never, none_more, null_ty, obj, opt, req, ◌&◌, ◌∪◌,
}
use codex_waiting_plgin.Protocol.Types.AccountRequests.{
  bedrock_discover_params, bedrock_setup_params, cancel_login_account_params,
  consume_account_rate_limit_reset_credit_params, get_account_params,
  get_account_token_usage_params, get_auth_status_params, login_account_params,
  send_add_credits_nudge_email_params,
}
use codex_waiting_plgin.Protocol.Types.AppsRequests.{
  apps_installed_params, apps_list_params, apps_read_params, plugin_install_params,
  plugin_installed_params, plugin_list_params, plugin_read_params, plugin_reconcile_params,
  plugin_search_params, plugin_share_checkout_params, plugin_share_delete_params,
  plugin_share_list_params, plugin_share_save_params, plugin_share_update_targets_params,
  plugin_skill_read_params, plugin_uninstall_params, skills_extra_roots_set_params,
  skills_list_params,
}
use codex_waiting_plgin.Protocol.Types.Basics.{initialize_params, request_id}
use codex_waiting_plgin.Protocol.Types.BasicsRequests.{
  experimental_feature_enablement_set_params, experimental_feature_list_params,
  feedback_upload_params, fs_copy_params, fs_create_directory_params, fs_get_metadata_params,
  fs_read_directory_params, fs_read_file_params, fs_remove_params, fs_unwatch_params,
  fs_watch_params, fs_write_file_params, fuzzy_file_search_params, get_conversation_summary_params,
  marketplace_add_params, marketplace_remove_params, marketplace_upgrade_params,
  mock_experimental_method_params, project_create_params, project_delete_params,
  project_import_params, project_list_params, project_move_params, project_read_params,
  project_update_params, remote_control_clients_list_params, remote_control_clients_revoke_params,
  remote_control_disable_params, remote_control_enable_params, remote_control_pairing_start_params,
  remote_control_pairing_status_params, review_start_params, server_diagnostics_params,
}
use codex_waiting_plgin.Protocol.Types.ConfigRequests.{
  config_batch_write_params, config_read_params, config_value_write_params, environment_add_params,
  environment_info_params, environment_status_params, external_agent_config_detect_params,
  external_agent_config_import_history_record_params, external_agent_config_import_params,
  permission_profile_list_params, skills_config_write_params,
  thread_approve_guardian_denied_action_params, windows_sandbox_setup_start_params,
}
use codex_waiting_plgin.Protocol.Types.ItemRecords.{process_spawn_params}
use codex_waiting_plgin.Protocol.Types.ItemsBase.{process_kill_params}
use codex_waiting_plgin.Protocol.Types.ItemsRequests.{
  collaboration_mode_list_params, command_exec_resize_params, command_exec_terminate_params,
  command_exec_write_params, hooks_list_params, process_resize_pty_params,
  process_write_stdin_params, thread_inject_items_params, thread_items_list_params,
  thread_memory_mode_set_params, thread_shell_command_params,
}
use codex_waiting_plgin.Protocol.Types.McpRequests.{
  list_mcp_server_status_params, mcp_resource_read_params, mcp_server_event_stream_start_params,
  mcp_server_event_stream_stop_params, mcp_server_oauth_login_params, mcp_server_tool_call_params,
  thread_decrement_elicitation_params, thread_increment_elicitation_params,
}
use codex_waiting_plgin.Protocol.Types.RealtimeRequests.{
  thread_realtime_append_audio_params, thread_realtime_append_speech_params,
  thread_realtime_append_text_params, thread_realtime_list_voices_params,
  thread_realtime_start_params, thread_realtime_stop_params,
}
use codex_waiting_plgin.Protocol.Types.ThreadItems.{command_exec_params}
use codex_waiting_plgin.Protocol.Types.ThreadSettings.{thread_resume_params, thread_start_params}
use codex_waiting_plgin.Protocol.Types.Threads.{thread_background_terminals_list_params}
use codex_waiting_plgin.Protocol.Types.ThreadsRequests.{
  fuzzy_file_search_session_start_params, fuzzy_file_search_session_stop_params,
  fuzzy_file_search_session_update_params, git_diff_to_remote_params, model_list_params,
  model_provider_capabilities_read_params, thread_archive_params,
  thread_background_terminals_clean_params, thread_background_terminals_terminate_params,
  thread_compact_start_params, thread_delete_params, thread_fork_params, thread_goal_clear_params,
  thread_goal_get_params, thread_goal_set_params, thread_list_params, thread_loaded_list_params,
  thread_metadata_update_params, thread_queue_add_params, thread_queue_delete_params,
  thread_queue_list_params, thread_queue_reorder_params, thread_queue_start_params,
  thread_queue_update_params, thread_read_params, thread_revert_params, thread_rollback_params,
  thread_search_occurrences_params, thread_search_params, thread_section_create_params,
  thread_section_delete_params, thread_section_list_params, thread_section_move_params,
  thread_section_update_params, thread_set_name_params, thread_settings_update_params,
  thread_timeline_list_params, thread_unarchive_params, thread_unsubscribe_params,
}
use codex_waiting_plgin.Protocol.Types.TurnRecords.{turn_start_params}
use codex_waiting_plgin.Protocol.Types.Turns.{turn_interrupt_params}
use codex_waiting_plgin.Protocol.Types.TurnsRequests.{
  thread_turns_list_params, turn_settings_update_params, turn_steer_params,
}
use codex_waiting_plgin.Protocol.Types.Envelopes.{request_of, bare_request_of}

-- ClientNotification.ts
abbrev pub client_notification : Ty
client_notification = obj (req "method" (lit "initialized") & none_more)

-- ClientRequest.ts
abbrev pub client_request : Ty
client_request =
    request_of "initialize" initialize_params
    ∪ request_of "server/diagnostics" server_diagnostics_params
    ∪ request_of "thread/start" thread_start_params
    ∪ request_of "thread/resume" thread_resume_params
    ∪ request_of "thread/fork" thread_fork_params
    ∪ request_of "thread/archive" thread_archive_params
    ∪ request_of "thread/delete" thread_delete_params
    ∪ request_of "thread/unsubscribe" thread_unsubscribe_params
    ∪ request_of "thread/increment_elicitation" thread_increment_elicitation_params
    ∪ request_of "thread/decrement_elicitation" thread_decrement_elicitation_params
    ∪ request_of "thread/name/set" thread_set_name_params
    ∪ request_of "thread/goal/set" thread_goal_set_params
    ∪ request_of "thread/goal/get" thread_goal_get_params
    ∪ request_of "thread/goal/clear" thread_goal_clear_params
    ∪ request_of "thread/queue/add" thread_queue_add_params
    ∪ request_of "thread/queue/list" thread_queue_list_params
    ∪ request_of "thread/queue/update" thread_queue_update_params
    ∪ request_of "thread/queue/delete" thread_queue_delete_params
    ∪ request_of "thread/queue/reorder" thread_queue_reorder_params
    ∪ request_of "thread/queue/start" thread_queue_start_params
    ∪ request_of "thread/metadata/update" thread_metadata_update_params
    ∪ request_of "thread/section/move" thread_section_move_params
    ∪ request_of "thread/settings/update" thread_settings_update_params
    ∪ request_of "thread/memoryMode/set" thread_memory_mode_set_params
    ∪ bare_request_of "memory/reset"
    ∪ request_of "thread/unarchive" thread_unarchive_params
    ∪ request_of "thread/compact/start" thread_compact_start_params
    ∪ request_of "thread/shellCommand" thread_shell_command_params
    ∪ request_of "thread/approveGuardianDeniedAction" thread_approve_guardian_denied_action_params
    ∪ request_of "thread/backgroundTerminals/clean" thread_background_terminals_clean_params
    ∪ request_of "thread/backgroundTerminals/list" thread_background_terminals_list_params
    ∪ request_of "thread/backgroundTerminals/terminate" thread_background_terminals_terminate_params
    ∪ request_of "thread/rollback" thread_rollback_params
    ∪ request_of "thread/revert" thread_revert_params
    ∪ request_of "thread/list" thread_list_params
    ∪ request_of "project/list" project_list_params
    ∪ request_of "project/read" project_read_params
    ∪ request_of "project/create" project_create_params
    ∪ request_of "project/import" project_import_params
    ∪ request_of "project/update" project_update_params
    ∪ request_of "project/move" project_move_params
    ∪ request_of "project/delete" project_delete_params
    ∪ request_of "threadSection/list" thread_section_list_params
    ∪ request_of "threadSection/create" thread_section_create_params
    ∪ request_of "threadSection/update" thread_section_update_params
    ∪ request_of "threadSection/delete" thread_section_delete_params
    ∪ request_of "thread/search" thread_search_params
    ∪ request_of "thread/searchOccurrences" thread_search_occurrences_params
    ∪ request_of "thread/loaded/list" thread_loaded_list_params
    ∪ request_of "thread/read" thread_read_params
    ∪ request_of "thread/turns/list" thread_turns_list_params
    ∪ request_of "thread/items/list" thread_items_list_params
    ∪ request_of "thread/inject_items" thread_inject_items_params
    ∪ request_of "skills/list" skills_list_params
    ∪ request_of "skills/extraRoots/set" skills_extra_roots_set_params
    ∪ request_of "hooks/list" hooks_list_params
    ∪ request_of "marketplace/add" marketplace_add_params
    ∪ request_of "marketplace/remove" marketplace_remove_params
    ∪ request_of "marketplace/upgrade" marketplace_upgrade_params
    ∪ request_of "plugin/list" plugin_list_params
    ∪ request_of "plugin/search" plugin_search_params
    ∪ request_of "plugin/installed" plugin_installed_params
    ∪ request_of "plugin/reconcile" plugin_reconcile_params
    ∪ request_of "plugin/read" plugin_read_params
    ∪ request_of "plugin/skill/read" plugin_skill_read_params
    ∪ request_of "plugin/share/save" plugin_share_save_params
    ∪ request_of "plugin/share/updateTargets" plugin_share_update_targets_params
    ∪ request_of "plugin/share/list" plugin_share_list_params
    ∪ request_of "plugin/share/checkout" plugin_share_checkout_params
    ∪ request_of "plugin/share/delete" plugin_share_delete_params
    ∪ request_of "app/read" apps_read_params
    ∪ request_of "app/list" apps_list_params
    ∪ request_of "app/installed" apps_installed_params
    ∪ request_of "fs/readFile" fs_read_file_params
    ∪ request_of "fs/writeFile" fs_write_file_params
    ∪ request_of "fs/createDirectory" fs_create_directory_params
    ∪ request_of "fs/getMetadata" fs_get_metadata_params
    ∪ request_of "fs/readDirectory" fs_read_directory_params
    ∪ request_of "fs/remove" fs_remove_params
    ∪ request_of "fs/copy" fs_copy_params
    ∪ request_of "fs/watch" fs_watch_params
    ∪ request_of "fs/unwatch" fs_unwatch_params
    ∪ request_of "skills/config/write" skills_config_write_params
    ∪ request_of "plugin/install" plugin_install_params
    ∪ request_of "plugin/uninstall" plugin_uninstall_params
    ∪ request_of "turn/start" turn_start_params
    ∪ request_of "turn/settings/update" turn_settings_update_params
    ∪ request_of "turn/steer" turn_steer_params
    ∪ request_of "turn/interrupt" turn_interrupt_params
    ∪ request_of "thread/realtime/start" thread_realtime_start_params
    ∪ request_of "thread/realtime/appendAudio" thread_realtime_append_audio_params
    ∪ request_of "thread/realtime/appendText" thread_realtime_append_text_params
    ∪ request_of "thread/realtime/appendSpeech" thread_realtime_append_speech_params
    ∪ request_of "thread/realtime/stop" thread_realtime_stop_params
    ∪ request_of "thread/timeline/list" thread_timeline_list_params
    ∪ request_of "thread/realtime/listVoices" thread_realtime_list_voices_params
    ∪ request_of "review/start" review_start_params
    ∪ request_of "model/list" model_list_params
    ∪ request_of "modelProvider/capabilities/read" model_provider_capabilities_read_params
    ∪ request_of "experimentalFeature/list" experimental_feature_list_params
    ∪ request_of "permissionProfile/list" permission_profile_list_params
    ∪ request_of "experimentalFeature/enablement/set" experimental_feature_enablement_set_params
    ∪ obj (
        req "method" (lit "remoteControl/enable")
        & req "id" request_id
        & req "params" (remote_control_enable_params ∪ null_ty)
        & none_more)
    ∪ obj (
        req "method" (lit "remoteControl/disable")
        & req "id" request_id
        & req "params" (remote_control_disable_params ∪ null_ty)
        & none_more)
    ∪ bare_request_of "remoteControl/status/read"
    ∪ request_of "remoteControl/pairing/start" remote_control_pairing_start_params
    ∪ request_of "remoteControl/pairing/status" remote_control_pairing_status_params
    ∪ request_of "remoteControl/client/list" remote_control_clients_list_params
    ∪ request_of "remoteControl/client/revoke" remote_control_clients_revoke_params
    ∪ request_of "collaborationMode/list" collaboration_mode_list_params
    ∪ request_of "mock/experimentalMethod" mock_experimental_method_params
    ∪ request_of "environment/add" environment_add_params
    ∪ request_of "environment/info" environment_info_params
    ∪ request_of "environment/status" environment_status_params
    ∪ request_of "mcpServer/oauth/login" mcp_server_oauth_login_params
    ∪ bare_request_of "config/mcpServer/reload"
    ∪ request_of "mcpServerStatus/list" list_mcp_server_status_params
    ∪ request_of "mcpServer/resource/read" mcp_resource_read_params
    ∪ request_of "mcpServer/event/stream/start" mcp_server_event_stream_start_params
    ∪ request_of "mcpServer/event/stream/stop" mcp_server_event_stream_stop_params
    ∪ request_of "mcpServer/tool/call" mcp_server_tool_call_params
    ∪ request_of "windowsSandbox/setupStart" windows_sandbox_setup_start_params
    ∪ bare_request_of "windowsSandbox/readiness"
    ∪ request_of "account/login/start" login_account_params
    ∪ request_of "account/bedrock/discover" bedrock_discover_params
    ∪ request_of "account/bedrock/setup" bedrock_setup_params
    ∪ request_of "account/login/cancel" cancel_login_account_params
    ∪ bare_request_of "account/logout"
    ∪ bare_request_of "account/rateLimits/read"
    ∪ request_of "account/rateLimitResetCredit/consume"
        consume_account_rate_limit_reset_credit_params
    ∪ obj (
        req "method" (lit "account/usage/read")
        & req "id" request_id
        & opt "params" (get_account_token_usage_params ∪ never)
        & none_more)
    ∪ bare_request_of "account/workspaceMessages/read"
    ∪ request_of "account/sendAddCreditsNudgeEmail" send_add_credits_nudge_email_params
    ∪ request_of "feedback/upload" feedback_upload_params
    ∪ request_of "command/exec" command_exec_params
    ∪ request_of "command/exec/write" command_exec_write_params
    ∪ request_of "command/exec/terminate" command_exec_terminate_params
    ∪ request_of "command/exec/resize" command_exec_resize_params
    ∪ request_of "process/spawn" process_spawn_params
    ∪ request_of "process/writeStdin" process_write_stdin_params
    ∪ request_of "process/kill" process_kill_params
    ∪ request_of "process/resizePty" process_resize_pty_params
    ∪ request_of "config/read" config_read_params
    ∪ request_of "externalAgentConfig/detect" external_agent_config_detect_params
    ∪ request_of "externalAgentConfig/import" external_agent_config_import_params
    ∪ request_of "externalAgentConfig/import/recordHistory"
        external_agent_config_import_history_record_params
    ∪ bare_request_of "externalAgentConfig/import/readHistories"
    ∪ request_of "config/value/write" config_value_write_params
    ∪ request_of "config/batchWrite" config_batch_write_params
    ∪ bare_request_of "configRequirements/read"
    ∪ request_of "account/read" get_account_params
    ∪ request_of "getConversationSummary" get_conversation_summary_params
    ∪ request_of "gitDiffToRemote" git_diff_to_remote_params
    ∪ request_of "getAuthStatus" get_auth_status_params
    ∪ request_of "fuzzyFileSearch" fuzzy_file_search_params
    ∪ request_of "fuzzyFileSearch/sessionStart" fuzzy_file_search_session_start_params
    ∪ request_of "fuzzyFileSearch/sessionUpdate" fuzzy_file_search_session_update_params
    ∪ request_of "fuzzyFileSearch/sessionStop" fuzzy_file_search_session_stop_params
