-- ===== src/Protocol/Types/Account.antt =====
-- probes/app-server-ts: account, one definition for each file.
use codex_waiting_plgin.Protocol.Schema.{
  Ty, bool, lit, none_more, null_ty, num, obj, opt, req, str, ◌&◌, ◌∪◌,
}

-- v2/ChatgptAuthTokensRefreshReason.ts
abbrev pub chatgpt_auth_tokens_refresh_reason : Ty
chatgpt_auth_tokens_refresh_reason = lit "unauthorized"

-- v2/ChatgptAuthTokensRefreshParams.ts
abbrev pub chatgpt_auth_tokens_refresh_params : Ty
chatgpt_auth_tokens_refresh_params = obj (
    req "reason" chatgpt_auth_tokens_refresh_reason
    & opt "previousAccountId" (str ∪ null_ty)
    & none_more)

-- PlanType.ts
abbrev pub plan_type : Ty
plan_type =
    lit "free"
    ∪ lit "go"
    ∪ lit "plus"
    ∪ lit "pro"
    ∪ lit "prolite"
    ∪ lit "team"
    ∪ lit "self_serve_business_prolite"
    ∪ lit "self_serve_business_usage_based"
    ∪ lit "business"
    ∪ lit "ent26"
    ∪ lit "enterprise_cbp_automation"
    ∪ lit "enterprise_cbp_usage_based"
    ∪ lit "enterprise"
    ∪ lit "edu"
    ∪ lit "edu_plus"
    ∪ lit "edu_pro"
    ∪ lit "unknown"

-- v2/CreditsSnapshot.ts
abbrev pub credits_snapshot : Ty
credits_snapshot =
    obj (req "hasCredits" bool & req "unlimited" bool & req "balance" (str ∪ null_ty) & none_more)

-- v2/RateLimitReachedType.ts
abbrev pub rate_limit_reached_type : Ty
rate_limit_reached_type =
    lit "rate_limit_reached"
    ∪ lit "workspace_owner_credits_depleted"
    ∪ lit "workspace_member_credits_depleted"
    ∪ lit "workspace_owner_usage_limit_reached"
    ∪ lit "workspace_member_usage_limit_reached"

-- v2/RateLimitWindow.ts
abbrev pub rate_limit_window : Ty
rate_limit_window = obj (
    req "usedPercent" num
    & req "windowDurationMins" (num ∪ null_ty)
    & req "resetsAt" (num ∪ null_ty)
    & none_more)

-- v2/SpendControlLimitSnapshot.ts
abbrev pub spend_control_limit_snapshot : Ty
spend_control_limit_snapshot =
    obj (
      req "limit" str
      & req "used" str
      & req "remainingPercent" num
      & req "resetsAt" num
      & none_more)

-- v2/RateLimitSnapshot.ts
abbrev pub rate_limit_snapshot : Ty
rate_limit_snapshot = obj (
    req "limitId" (str ∪ null_ty)
    & req "limitName" (str ∪ null_ty)
    & req "primary" (rate_limit_window ∪ null_ty)
    & req "secondary" (rate_limit_window ∪ null_ty)
    & req "credits" (credits_snapshot ∪ null_ty)
    & req "individualLimit" (spend_control_limit_snapshot ∪ null_ty)
    & req "spendControlReached" (bool ∪ null_ty)
    & req "planType" (plan_type ∪ null_ty)
    & req "rateLimitReachedType" (rate_limit_reached_type ∪ null_ty)
    & none_more)

-- v2/AccountRateLimitsUpdatedNotification.ts
abbrev pub account_rate_limits_updated_notification : Ty
account_rate_limits_updated_notification = obj (req "rateLimits" rate_limit_snapshot & none_more)

-- AuthMode.ts
abbrev pub auth_mode : Ty
auth_mode =
    lit "apikey"
    ∪ lit "chatgpt"
    ∪ lit "chatgptAuthTokens"
    ∪ lit "headers"
    ∪ lit "agentIdentity"
    ∪ lit "personalAccessToken"
    ∪ lit "bedrockApiKey"
    ∪ lit "bedrockAccessKeys"

-- v2/AccountUpdatedNotification.ts
abbrev pub account_updated_notification : Ty
account_updated_notification =
    obj (req "authMode" (auth_mode ∪ null_ty) & req "planType" (plan_type ∪ null_ty) & none_more)

-- v2/AuthRecoveryNotification.ts
abbrev pub auth_recovery_notification : Ty
auth_recovery_notification =
    obj (req "threadId" str & req "turnId" str & req "provider" str & req "message" str & none_more)

-- v2/GuardianUserAuthorization.ts
abbrev pub guardian_user_authorization : Ty
guardian_user_authorization = lit "unknown" ∪ lit "low" ∪ lit "medium" ∪ lit "high"

-- v2/TokenUsageBreakdown.ts
abbrev pub token_usage_breakdown : Ty
token_usage_breakdown = obj (
    req "totalTokens" num
    & req "inputTokens" num
    & req "cachedInputTokens" num
    & req "cacheWriteInputTokens" num
    & req "outputTokens" num
    & req "reasoningOutputTokens" num
    & none_more)

-- v2/ThreadTokenUsage.ts
abbrev pub thread_token_usage : Ty
thread_token_usage = obj (
    req "total" token_usage_breakdown
    & req "last" token_usage_breakdown
    & req "modelContextWindow" (num ∪ null_ty)
    & none_more)

-- v2/ThreadTokenUsageUpdatedNotification.ts
abbrev pub thread_token_usage_updated_notification : Ty
thread_token_usage_updated_notification =
    obj (req "threadId" str & req "turnId" str & req "tokenUsage" thread_token_usage & none_more)
