-- ===== src/Protocol/Types/AccountRequests.antt =====
-- probes/app-server-ts: account requests, one definition for each file.
use codex_waiting_plgin.Protocol.Schema.{
  Ty, bool, lit, none_more, null_ty, obj, opt, req, str, ◌&◌, ◌∪◌,
}
use codex_waiting_plgin.Protocol.Types.AccountData.{add_credits_nudge_credit_type, login_app_brand}

-- GetAuthStatusParams.ts
abbrev pub get_auth_status_params : Ty
get_auth_status_params =
    obj (req "includeToken" (bool ∪ null_ty) & req "refreshToken" (bool ∪ null_ty) & none_more)

-- v2/BedrockDiscoverParams.ts
abbrev pub bedrock_discover_params : Ty
bedrock_discover_params = obj (none_more)

-- v2/BedrockSetupParams.ts
abbrev pub bedrock_setup_params : Ty
bedrock_setup_params =
    obj (req "type" (lit "profile") & req "profile" str & req "region" str & none_more)
    ∪ obj (req "type" (lit "environment") & req "region" str & none_more)

-- v2/CancelLoginAccountParams.ts
abbrev pub cancel_login_account_params : Ty
cancel_login_account_params = obj (req "loginId" str & none_more)

-- v2/ConsumeAccountRateLimitResetCreditParams.ts
abbrev pub consume_account_rate_limit_reset_credit_params : Ty
consume_account_rate_limit_reset_credit_params =
    obj (req "idempotencyKey" str & opt "creditId" (str ∪ null_ty) & none_more)

-- v2/GetAccountParams.ts
abbrev pub get_account_params : Ty
get_account_params = obj (opt "refreshToken" bool & none_more)

-- v2/GetAccountTokenUsageParams.ts
abbrev pub get_account_token_usage_params : Ty
get_account_token_usage_params = obj (opt "threadId" (str ∪ null_ty) & none_more)

-- v2/LoginAccountParams.ts
abbrev pub login_account_params : Ty
login_account_params =
    obj (req "type" (lit "apiKey") & req "apiKey" str & none_more)
    ∪ obj (
        req "type" (lit "chatgpt")
        & opt "codexStreamlinedLogin" bool
        & opt "useHostedLoginSuccessPage" bool
        & opt "appBrand" (login_app_brand ∪ null_ty)
        & none_more)
    ∪ obj (req "type" (lit "chatgptDeviceCode") & none_more)
    ∪ obj (
        req "type" (lit "chatgptAuthTokens")
        & req "accessToken" str
        & req "chatgptAccountId" str
        & opt "chatgptPlanType" (str ∪ null_ty)
        & none_more)
    ∪ obj (req "type" (lit "amazonBedrock") & req "apiKey" str & req "region" str & none_more)
    ∪ obj (
        req "type" (lit "amazonBedrockAccessKeys")
        & req "accessKeyId" str
        & req "secretAccessKey" str
        & opt "sessionToken" (str ∪ null_ty)
        & req "region" str
        & none_more)

-- v2/SendAddCreditsNudgeEmailParams.ts
abbrev pub send_add_credits_nudge_email_params : Ty
send_add_credits_nudge_email_params =
    obj (req "creditType" add_credits_nudge_credit_type & none_more)
