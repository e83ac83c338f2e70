-- ===== src/Protocol/Types/AccountData.antt =====
-- probes/app-server-ts: account data, one definition for each file.
use codex_waiting_plgin.Protocol.Schema.{
  Ty, arr, bool, lit, none_more, null_ty, num, obj, req, str, ◌&◌, ◌∪◌,
}
use codex_waiting_plgin.Protocol.Types.Account.{plan_type}

-- AutoCompactTokenLimitScope.ts
abbrev pub auto_compact_token_limit_scope : Ty
auto_compact_token_limit_scope = lit "total" ∪ lit "body_after_prefix"

-- v2/LoginAppBrand.ts
abbrev pub login_app_brand : Ty
login_app_brand = lit "codex" ∪ lit "chatgpt"

-- v2/AddCreditsNudgeCreditType.ts
abbrev pub add_credits_nudge_credit_type : Ty
add_credits_nudge_credit_type = lit "credits" ∪ lit "usage_limit"

-- ForcedLoginMethod.ts
abbrev pub forced_login_method : Ty
forced_login_method = lit "chatgpt" ∪ lit "api"

-- v2/Account.ts
abbrev pub account : Ty
account =
    obj (req "type" (lit "apiKey") & none_more)
    ∪ obj (
        req "type" (lit "chatgpt")
        & req "email" (str ∪ null_ty)
        & req "planType" plan_type
        & none_more)
    ∪ obj (req "type" (lit "amazonBedrock") & req "usesCodexManagedCredentials" bool & none_more)

-- v2/AccountTokenUsageDailyBucket.ts
abbrev pub account_token_usage_daily_bucket : Ty
account_token_usage_daily_bucket = obj (req "startDate" str & req "tokens" num & none_more)

-- v2/AccountTokenUsageSummary.ts
abbrev pub account_token_usage_summary : Ty
account_token_usage_summary = obj (
    req "lifetimeTokens" (num ∪ null_ty)
    & req "peakDailyTokens" (num ∪ null_ty)
    & req "longestRunningTurnSec" (num ∪ null_ty)
    & req "currentStreakDays" (num ∪ null_ty)
    & req "longestStreakDays" (num ∪ null_ty)
    & none_more)

-- v2/AddCreditsNudgeEmailStatus.ts
abbrev pub add_credits_nudge_email_status : Ty
add_credits_nudge_email_status = lit "sent" ∪ lit "cooldown_active"

-- v2/BedrockAwsProfile.ts
abbrev pub bedrock_aws_profile : Ty
bedrock_aws_profile = obj (req "name" str & req "region" (str ∪ null_ty) & none_more)

-- v2/CancelLoginAccountStatus.ts
abbrev pub cancel_login_account_status : Ty
cancel_login_account_status = lit "canceled" ∪ lit "notFound"

-- v2/CliAuthCredentialsStoreMode.ts
abbrev pub cli_auth_credentials_store_mode : Ty
cli_auth_credentials_store_mode = lit "file" ∪ lit "keyring" ∪ lit "auto" ∪ lit "ephemeral"

-- v2/ForcedChatgptWorkspaceIds.ts
abbrev pub forced_chatgpt_workspace_ids : Ty
forced_chatgpt_workspace_ids = str ∪ arr str

-- v2/SandboxWorkspaceWrite.ts
abbrev pub sandbox_workspace_write : Ty
sandbox_workspace_write = obj (
    req "writable_roots" (arr str)
    & req "network_access" bool
    & req "exclude_tmpdir_env_var" bool
    & req "exclude_slash_tmp" bool
    & none_more)

-- v2/ConsumeAccountRateLimitResetCreditOutcome.ts
abbrev pub consume_account_rate_limit_reset_credit_outcome : Ty
consume_account_rate_limit_reset_credit_outcome =
    lit "reset" ∪ lit "nothingToReset" ∪ lit "noCredit" ∪ lit "alreadyRedeemed"

-- v2/RateLimitResetCreditStatus.ts
abbrev pub rate_limit_reset_credit_status : Ty
rate_limit_reset_credit_status = lit "available" ∪ lit "redeeming" ∪ lit "redeemed" ∪ lit "unknown"

-- v2/RateLimitResetType.ts
abbrev pub rate_limit_reset_type : Ty
rate_limit_reset_type = lit "codexRateLimits" ∪ lit "unknown"

-- v2/RateLimitResetCredit.ts
abbrev pub rate_limit_reset_credit : Ty
rate_limit_reset_credit = obj (
    req "id" str
    & req "resetType" rate_limit_reset_type
    & req "status" rate_limit_reset_credit_status
    & req "grantedAt" num
    & req "expiresAt" (num ∪ null_ty)
    & req "title" (str ∪ null_ty)
    & req "description" (str ∪ null_ty)
    & none_more)

-- v2/RateLimitResetCreditsSummary.ts
abbrev pub rate_limit_reset_credits_summary : Ty
rate_limit_reset_credits_summary =
    obj
      (req "availableCount" num & req "credits" (arr rate_limit_reset_credit ∪ null_ty) & none_more)

-- v2/WorkspaceMessageType.ts
abbrev pub workspace_message_type : Ty
workspace_message_type = lit "headline" ∪ lit "announcement" ∪ lit "unknown"

-- v2/WorkspaceMessage.ts
abbrev pub workspace_message : Ty
workspace_message = obj (
    req "messageId" str
    & req "messageType" workspace_message_type
    & req "messageBody" str
    & req "createdAt" (num ∪ null_ty)
    & req "archivedAt" (num ∪ null_ty)
    & none_more)

-- v2/PluginAuthPolicy.ts
abbrev pub plugin_auth_policy : Ty
plugin_auth_policy = lit "ON_INSTALL" ∪ lit "ON_USE"
