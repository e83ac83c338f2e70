-- ===== src/Protocol/Types/ServerRequests.antt =====
-- probes/app-server-ts: server requests, one definition for each file.
use codex_waiting_plgin.Protocol.Schema.{Ty, ◌∪◌}
use codex_waiting_plgin.Protocol.Types.Account.{chatgpt_auth_tokens_refresh_params}
use codex_waiting_plgin.Protocol.Types.Approvals.{
  apply_patch_approval_params, exec_command_approval_params, permissions_request_approval_params,
}
use codex_waiting_plgin.Protocol.Types.Basics.{
  attestation_generate_params, current_time_read_params,
}
use codex_waiting_plgin.Protocol.Types.Config.{file_change_request_approval_params}
use codex_waiting_plgin.Protocol.Types.Items.{
  dynamic_tool_call_params, tool_request_user_input_params,
}
use codex_waiting_plgin.Protocol.Types.Mcp.{mcp_server_elicitation_request_params}
use codex_waiting_plgin.Protocol.Types.Permissions.{command_execution_request_approval_params}
use codex_waiting_plgin.Protocol.Types.Envelopes.{request_of}

-- ServerRequest.ts
abbrev pub server_request : Ty
server_request =
    request_of "item/commandExecution/requestApproval" command_execution_request_approval_params
    ∪ request_of "item/fileChange/requestApproval" file_change_request_approval_params
    ∪ request_of "item/tool/requestUserInput" tool_request_user_input_params
    ∪ request_of "mcpServer/elicitation/request" mcp_server_elicitation_request_params
    ∪ request_of "item/permissions/requestApproval" permissions_request_approval_params
    ∪ request_of "item/tool/call" dynamic_tool_call_params
    ∪ request_of "account/chatgptAuthTokens/refresh" chatgpt_auth_tokens_refresh_params
    ∪ request_of "attestation/generate" attestation_generate_params
    ∪ request_of "currentTime/read" current_time_read_params
    ∪ request_of "applyPatchApproval" apply_patch_approval_params
    ∪ request_of "execCommandApproval" exec_command_approval_params
