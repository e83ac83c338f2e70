-- ===== src/Protocol/Types/AccountState.antt =====
-- probes/app-server-ts: account state, one definition for each file.
use codex_waiting_plgin.Protocol.Schema.{Ty, bool, none_more, null_ty, obj, req, str, ◌&◌, ◌∪◌}
use codex_waiting_plgin.Protocol.Types.Basics.{desktop_onboarding_entrypoint}

-- v2/AccountLoginCompletedNotification.ts
abbrev pub account_login_completed_notification : Ty
account_login_completed_notification = obj (
    req "loginId" (str ∪ null_ty)
    & req "success" bool
    & req "error" (str ∪ null_ty)
    & req "onboardingEntrypoint" (desktop_onboarding_entrypoint ∪ null_ty)
    & none_more)
