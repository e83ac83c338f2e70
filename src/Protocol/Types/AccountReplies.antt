-- ===== src/Protocol/Types/AccountReplies.antt =====
-- probes/app-server-ts: account replies, one definition for each file.
use codex_waiting_plgin.Protocol.Schema.{
  Ty, any, arr, bool, dict, lit, none_more, null_ty, obj, opt, req, str, ◌&◌, ◌∪◌,
}
use codex_waiting_plgin.Protocol.Types.Account.{auth_mode, rate_limit_snapshot}
use codex_waiting_plgin.Protocol.Types.AccountData.{
  account, account_token_usage_daily_bucket, account_token_usage_summary,
  add_credits_nudge_email_status, bedrock_aws_profile, cancel_login_account_status,
  consume_account_rate_limit_reset_credit_outcome, rate_limit_reset_credits_summary,
  workspace_message,
}
use codex_waiting_plgin.Protocol.Types.CompositesBase.{bedrock_environment_credential}
use codex_waiting_plgin.Protocol.Types.ThreadsData.{thread_usage}

-- GetAuthStatusResponse.ts
abbrev pub get_auth_status_response : Ty
get_auth_status_response = obj (
    req "authMethod" (auth_mode ∪ null_ty)
    & req "authToken" (str ∪ null_ty)
    & req "requiresOpenaiAuth" (bool ∪ null_ty)
    & none_more)

-- v2/BedrockDiscoverResponse.ts
abbrev pub bedrock_discover_response : Ty
bedrock_discover_response = obj (
    req "profiles" (arr bedrock_aws_profile)
    & req "environmentCredentials" (arr bedrock_environment_credential)
    & none_more)

-- v2/BedrockSetupResponse.ts
abbrev pub bedrock_setup_response : Ty
bedrock_setup_response = obj (none_more)

-- v2/CancelLoginAccountResponse.ts
abbrev pub cancel_login_account_response : Ty
cancel_login_account_response = obj (req "status" cancel_login_account_status & none_more)

-- v2/ChatgptAuthTokensRefreshResponse.ts
abbrev pub chatgpt_auth_tokens_refresh_response : Ty
chatgpt_auth_tokens_refresh_response = obj (
    req "accessToken" str
    & req "chatgptAccountId" str
    & req "chatgptPlanType" (str ∪ null_ty)
    & none_more)

-- v2/ConsumeAccountRateLimitResetCreditResponse.ts
abbrev pub consume_account_rate_limit_reset_credit_response : Ty
consume_account_rate_limit_reset_credit_response =
    obj (req "outcome" consume_account_rate_limit_reset_credit_outcome & none_more)

-- v2/GetAccountRateLimitsResponse.ts
abbrev pub get_account_rate_limits_response : Ty
get_account_rate_limits_response = obj (
    req "rateLimits" rate_limit_snapshot
    & req "rateLimitsByLimitId" (dict rate_limit_snapshot ∪ null_ty)
    & req "rateLimitResetCredits" (rate_limit_reset_credits_summary ∪ null_ty)
    & req "accountId" (str ∪ null_ty)
    & req "rateLimitUpsell" (any ∪ null_ty)
    & none_more)

-- v2/GetAccountResponse.ts
abbrev pub get_account_response : Ty
get_account_response =
    obj (req "account" (account ∪ null_ty) & req "requiresOpenaiAuth" bool & none_more)

-- v2/GetAccountTokenUsageResponse.ts
abbrev pub get_account_token_usage_response : Ty
get_account_token_usage_response = obj (
    req "summary" account_token_usage_summary
    & req "dailyUsageBuckets" (arr account_token_usage_daily_bucket ∪ null_ty)
    & opt "threadUsage" (thread_usage ∪ null_ty)
    & none_more)

-- v2/GetWorkspaceMessagesResponse.ts
abbrev pub get_workspace_messages_response : Ty
get_workspace_messages_response =
    obj (req "featureEnabled" bool & req "messages" (arr workspace_message) & none_more)

-- v2/LoginAccountResponse.ts
abbrev pub login_account_response : Ty
login_account_response =
    obj (req "type" (lit "apiKey") & none_more)
    ∪ obj (req "type" (lit "chatgpt") & req "loginId" str & req "authUrl" str & none_more)
    ∪ obj (
        req "type" (lit "chatgptDeviceCode")
        & req "loginId" str
        & req "verificationUrl" str
        & req "userCode" str
        & none_more)
    ∪ obj (req "type" (lit "chatgptAuthTokens") & none_more)
    ∪ obj (req "type" (lit "amazonBedrock") & none_more)

-- v2/LogoutAccountResponse.ts
abbrev pub logout_account_response : Ty
logout_account_response = obj (none_more)

-- v2/SendAddCreditsNudgeEmailResponse.ts
abbrev pub send_add_credits_nudge_email_response : Ty
send_add_credits_nudge_email_response =
    obj (req "status" add_credits_nudge_email_status & none_more)
