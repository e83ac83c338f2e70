-- ===== src/Protocol/Types/Mcp.antt =====
-- probes/app-server-ts: mcp, one definition for each file.
use codex_waiting_plgin.Protocol.Schema.{
  Ty, any, arr, bool, dict, lit, none_more, null_ty, num, obj, opt, req, str, ◌&◌, ◌∩◌, ◌∪◌,
}

-- v2/McpToolCallAppContext.ts
abbrev pub mcp_tool_call_app_context : Ty
mcp_tool_call_app_context = obj (
    req "connectorId" str
    & req "linkId" (str ∪ null_ty)
    & req "resourceUri" (str ∪ null_ty)
    & req "appName" (str ∪ null_ty)
    & req "actionName" (str ∪ null_ty)
    & none_more)

-- v2/McpToolCallError.ts
abbrev pub mcp_tool_call_error : Ty
mcp_tool_call_error = obj (req "message" str & none_more)

-- v2/McpToolCallResult.ts
abbrev pub mcp_tool_call_result : Ty
mcp_tool_call_result = obj (
    req "content" (arr any)
    & req "structuredContent" (any ∪ null_ty)
    & req "_meta" (any ∪ null_ty)
    & none_more)

-- v2/McpToolCallStatus.ts
abbrev pub mcp_tool_call_status : Ty
mcp_tool_call_status = lit "inProgress" ∪ lit "completed" ∪ lit "failed"

-- v2/McpElicitationObjectType.ts
abbrev pub mcp_elicitation_object_type : Ty
mcp_elicitation_object_type = lit "object"

-- v2/McpElicitationBooleanType.ts
abbrev pub mcp_elicitation_boolean_type : Ty
mcp_elicitation_boolean_type = lit "boolean"

-- v2/McpElicitationBooleanSchema.ts
abbrev pub mcp_elicitation_boolean_schema : Ty
mcp_elicitation_boolean_schema = obj (
    req "type" mcp_elicitation_boolean_type
    & opt "title" str
    & opt "description" str
    & opt "default" bool
    & none_more)

-- v2/McpElicitationStringType.ts
abbrev pub mcp_elicitation_string_type : Ty
mcp_elicitation_string_type = lit "string"

-- v2/McpElicitationLegacyTitledEnumSchema.ts
abbrev pub mcp_elicitation_legacy_titled_enum_schema : Ty
mcp_elicitation_legacy_titled_enum_schema = obj (
    req "type" mcp_elicitation_string_type
    & opt "title" str
    & opt "description" str
    & req "enum" (arr str)
    & opt "enumNames" (arr str)
    & opt "default" str
    & none_more)

-- v2/McpElicitationArrayType.ts
abbrev pub mcp_elicitation_array_type : Ty
mcp_elicitation_array_type = lit "array"

-- v2/McpElicitationConstOption.ts
abbrev pub mcp_elicitation_const_option : Ty
mcp_elicitation_const_option = obj (req "const" str & req "title" str & none_more)

-- v2/McpElicitationTitledEnumItems.ts
abbrev pub mcp_elicitation_titled_enum_items : Ty
mcp_elicitation_titled_enum_items = obj (req "anyOf" (arr mcp_elicitation_const_option) & none_more)

-- v2/McpElicitationTitledMultiSelectEnumSchema.ts
abbrev pub mcp_elicitation_titled_multi_select_enum_schema : Ty
mcp_elicitation_titled_multi_select_enum_schema = obj (
    req "type" mcp_elicitation_array_type
    & opt "title" str
    & opt "description" str
    & opt "minItems" num
    & opt "maxItems" num
    & req "items" mcp_elicitation_titled_enum_items
    & opt "default" (arr str)
    & none_more)

-- v2/McpElicitationUntitledEnumItems.ts
abbrev pub mcp_elicitation_untitled_enum_items : Ty
mcp_elicitation_untitled_enum_items =
    obj (req "type" mcp_elicitation_string_type & req "enum" (arr str) & none_more)

-- v2/McpElicitationUntitledMultiSelectEnumSchema.ts
abbrev pub mcp_elicitation_untitled_multi_select_enum_schema : Ty
mcp_elicitation_untitled_multi_select_enum_schema = obj (
    req "type" mcp_elicitation_array_type
    & opt "title" str
    & opt "description" str
    & opt "minItems" num
    & opt "maxItems" num
    & req "items" mcp_elicitation_untitled_enum_items
    & opt "default" (arr str)
    & none_more)

-- v2/McpElicitationMultiSelectEnumSchema.ts
abbrev pub mcp_elicitation_multi_select_enum_schema : Ty
mcp_elicitation_multi_select_enum_schema =
    mcp_elicitation_untitled_multi_select_enum_schema
    ∪ mcp_elicitation_titled_multi_select_enum_schema

-- v2/McpElicitationTitledSingleSelectEnumSchema.ts
abbrev pub mcp_elicitation_titled_single_select_enum_schema : Ty
mcp_elicitation_titled_single_select_enum_schema = obj (
    req "type" mcp_elicitation_string_type
    & opt "title" str
    & opt "description" str
    & req "oneOf" (arr mcp_elicitation_const_option)
    & opt "default" str
    & none_more)

-- v2/McpElicitationUntitledSingleSelectEnumSchema.ts
abbrev pub mcp_elicitation_untitled_single_select_enum_schema : Ty
mcp_elicitation_untitled_single_select_enum_schema = obj (
    req "type" mcp_elicitation_string_type
    & opt "title" str
    & opt "description" str
    & req "enum" (arr str)
    & opt "default" str
    & none_more)

-- v2/McpElicitationSingleSelectEnumSchema.ts
abbrev pub mcp_elicitation_single_select_enum_schema : Ty
mcp_elicitation_single_select_enum_schema =
    mcp_elicitation_untitled_single_select_enum_schema
    ∪ mcp_elicitation_titled_single_select_enum_schema

-- v2/McpElicitationEnumSchema.ts
abbrev pub mcp_elicitation_enum_schema : Ty
mcp_elicitation_enum_schema =
    mcp_elicitation_single_select_enum_schema ∪ mcp_elicitation_multi_select_enum_schema
    ∪ mcp_elicitation_legacy_titled_enum_schema

-- v2/McpElicitationNumberType.ts
abbrev pub mcp_elicitation_number_type : Ty
mcp_elicitation_number_type = lit "number" ∪ lit "integer"

-- v2/McpElicitationNumberSchema.ts
abbrev pub mcp_elicitation_number_schema : Ty
mcp_elicitation_number_schema = obj (
    req "type" mcp_elicitation_number_type
    & opt "title" str
    & opt "description" str
    & opt "minimum" num
    & opt "maximum" num
    & opt "default" num
    & none_more)

-- v2/McpElicitationStringFormat.ts
abbrev pub mcp_elicitation_string_format : Ty
mcp_elicitation_string_format = lit "email" ∪ lit "uri" ∪ lit "date" ∪ lit "date-time"

-- v2/McpElicitationStringSchema.ts
abbrev pub mcp_elicitation_string_schema : Ty
mcp_elicitation_string_schema = obj (
    req "type" mcp_elicitation_string_type
    & opt "title" str
    & opt "description" str
    & opt "minLength" num
    & opt "maxLength" num
    & opt "format" mcp_elicitation_string_format
    & opt "default" str
    & none_more)

-- v2/McpElicitationPrimitiveSchema.ts
abbrev pub mcp_elicitation_primitive_schema : Ty
mcp_elicitation_primitive_schema =
    mcp_elicitation_enum_schema ∪ mcp_elicitation_string_schema ∪ mcp_elicitation_number_schema
    ∪ mcp_elicitation_boolean_schema

-- v2/McpElicitationSchema.ts
abbrev pub mcp_elicitation_schema : Ty
mcp_elicitation_schema = obj (
    opt "$schema" str
    & req "type" mcp_elicitation_object_type
    & req "properties" (dict mcp_elicitation_primitive_schema)
    & opt "required" (arr str)
    & none_more)

-- v2/McpServerElicitationRequestParams.ts
abbrev pub mcp_server_elicitation_request_params : Ty
mcp_server_elicitation_request_params =
    obj (req "threadId" str & req "turnId" (str ∪ null_ty) & req "serverName" str & none_more)
    ∩ (obj (
          req "mode" (lit "form")
          & req "_meta" (any ∪ null_ty)
          & req "message" str
          & req "requestedSchema" mcp_elicitation_schema
          & none_more)
        ∪ obj (
            req "mode" (lit "openai/form")
            & req "_meta" (any ∪ null_ty)
            & req "message" str
            & req "requestedSchema" any
            & none_more)
        ∪ obj (
            req "mode" (lit "openaiForm")
            & req "_meta" (any ∪ null_ty)
            & req "message" str
            & req "requestedSchema" any
            & none_more)
        ∪ obj (
            req "mode" (lit "url")
            & req "_meta" (any ∪ null_ty)
            & req "message" str
            & req "url" str
            & req "elicitationId" str
            & none_more))

-- v2/McpServerEventNotification.ts
abbrev pub mcp_server_event_notification : Ty
mcp_server_event_notification = obj (req "method" str & req "params" any & none_more)

-- v2/McpServerEventStreamNotification.ts
abbrev pub mcp_server_event_stream_notification : Ty
mcp_server_event_stream_notification =
    obj (req "subscriptionId" str & req "notification" mcp_server_event_notification & none_more)

-- v2/McpServerOauthLoginCompletedNotification.ts
abbrev pub mcp_server_oauth_login_completed_notification : Ty
mcp_server_oauth_login_completed_notification = obj (
    req "name" str
    & req "threadId" (str ∪ null_ty)
    & req "success" bool
    & opt "error" str
    & none_more)

-- v2/McpServerStartupFailureReason.ts
abbrev pub mcp_server_startup_failure_reason : Ty
mcp_server_startup_failure_reason = lit "reauthenticationRequired"

-- v2/McpServerStartupState.ts
abbrev pub mcp_server_startup_state : Ty
mcp_server_startup_state = lit "starting" ∪ lit "ready" ∪ lit "failed" ∪ lit "cancelled"

-- v2/McpServerStatusUpdatedNotification.ts
abbrev pub mcp_server_status_updated_notification : Ty
mcp_server_status_updated_notification = obj (
    req "threadId" (str ∪ null_ty)
    & req "name" str
    & req "status" mcp_server_startup_state
    & req "error" (str ∪ null_ty)
    & req "failureReason" (mcp_server_startup_failure_reason ∪ null_ty)
    & none_more)

-- v2/McpToolCallProgressNotification.ts
abbrev pub mcp_tool_call_progress_notification : Ty
mcp_tool_call_progress_notification =
    obj (req "threadId" str & req "turnId" str & req "itemId" str & req "message" str & none_more)
