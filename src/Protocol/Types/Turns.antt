-- ===== src/Protocol/Types/Turns.antt =====
-- probes/app-server-ts: turns, one definition for each file.
use codex_waiting_plgin.Protocol.Schema.{
  Ty, any, arr, bool, lit, none_more, null_ty, num, obj, req, str, ◌&◌, ◌∪◌,
}

-- v2/TurnInterruptParams.ts
abbrev pub turn_interrupt_params : Ty
turn_interrupt_params = obj (req "threadId" str & req "turnId" str & none_more)

-- v2/AsyncUserInputQuestion.ts
abbrev pub async_user_input_question : Ty
async_user_input_question = obj (req "title" str & req "options" (arr str ∪ null_ty) & none_more)

-- v2/NonSteerableTurnKind.ts
abbrev pub non_steerable_turn_kind : Ty
non_steerable_turn_kind = lit "review" ∪ lit "compact"

-- v2/CodexErrorInfo.ts
abbrev pub codex_error_info : Ty
codex_error_info =
    lit "contextWindowExceeded"
    ∪ lit "sessionBudgetExceeded"
    ∪ lit "usageLimitExceeded"
    ∪ lit "rateLimitExceeded"
    ∪ lit "serverOverloaded"
    ∪ lit "cyberPolicy"
    ∪ lit "misalignmentPolicyViolation"
    ∪ obj (
        req "httpConnectionFailed" (obj (req "httpStatusCode" (num ∪ null_ty) & none_more))
        & none_more)
    ∪ obj (
        req "responseStreamConnectionFailed"
          (obj (req "httpStatusCode" (num ∪ null_ty) & none_more))
        & none_more)
    ∪ lit "internalServerError"
    ∪ lit "unauthorized"
    ∪ lit "badRequest"
    ∪ lit "threadRollbackFailed"
    ∪ lit "sandboxError"
    ∪ obj (
        req "responseStreamDisconnected" (obj (req "httpStatusCode" (num ∪ null_ty) & none_more))
        & none_more)
    ∪ obj (
        req "responseTooManyFailedAttempts" (obj (req "httpStatusCode" (num ∪ null_ty) & none_more))
        & none_more)
    ∪ obj (
        req "activeTurnNotSteerable" (obj (req "turnKind" non_steerable_turn_kind & none_more))
        & none_more)
    ∪ lit "other"

-- v2/MisalignmentSteer.ts
abbrev pub misalignment_steer : Ty
misalignment_steer = obj (req "message" str & none_more)

-- v2/MisalignmentErrorDetails.ts
abbrev pub misalignment_error_details : Ty
misalignment_error_details = obj (
    req "errorType" (str ∪ null_ty)
    & req "detailedExplanation" (str ∪ null_ty)
    & req "steer" (misalignment_steer ∪ null_ty)
    & none_more)

-- v2/TurnError.ts
abbrev pub turn_error : Ty
turn_error = obj (
    req "message" str
    & req "codexErrorInfo" (codex_error_info ∪ null_ty)
    & req "additionalDetails" (str ∪ null_ty)
    & req "misalignment" (misalignment_error_details ∪ null_ty)
    & none_more)

-- v2/TurnStatus.ts
abbrev pub turn_status : Ty
turn_status = lit "completed" ∪ lit "interrupted" ∪ lit "failed" ∪ lit "inProgress"

-- v2/TurnInterruptResponse.ts
abbrev pub turn_interrupt_response : Ty
turn_interrupt_response = obj (none_more)

-- v2/TextPosition.ts
abbrev pub text_position : Ty
text_position = obj (req "line" num & req "column" num & none_more)

-- v2/TextRange.ts
abbrev pub text_range : Ty
text_range = obj (req "start" text_position & req "end" text_position & none_more)

-- v2/ErrorNotification.ts
abbrev pub error_notification : Ty
error_notification = obj (
    req "error" turn_error
    & req "willRetry" bool
    & req "threadId" str
    & req "turnId" str
    & none_more)

-- v2/TurnDiffUpdatedNotification.ts
abbrev pub turn_diff_updated_notification : Ty
turn_diff_updated_notification =
    obj (req "threadId" str & req "turnId" str & req "diff" str & none_more)

-- v2/TurnModerationMetadataNotification.ts
abbrev pub turn_moderation_metadata_notification : Ty
turn_moderation_metadata_notification =
    obj (req "threadId" str & req "turnId" str & req "metadata" any & none_more)

-- v2/TurnPlanStepStatus.ts
abbrev pub turn_plan_step_status : Ty
turn_plan_step_status = lit "pending" ∪ lit "inProgress" ∪ lit "completed"

-- v2/TurnPlanStep.ts
abbrev pub turn_plan_step : Ty
turn_plan_step = obj (req "step" str & req "status" turn_plan_step_status & none_more)

-- v2/TurnPlanUpdatedNotification.ts
abbrev pub turn_plan_updated_notification : Ty
turn_plan_updated_notification = obj (
    req "threadId" str
    & req "turnId" str
    & req "explanation" (str ∪ null_ty)
    & req "plan" (arr turn_plan_step)
    & none_more)
