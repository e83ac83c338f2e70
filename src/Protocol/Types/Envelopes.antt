-- ===== src/Protocol/Types/Envelopes.antt =====
-- probes/app-server-ts: the shapes that the members of the unions of messages share.
use codex_waiting_plgin.Protocol.Types.Basics.{request_id}
use codex_waiting_plgin.Prelude.{String}
use codex_waiting_plgin.Protocol.Schema.{Ty, obj, req, lit, ◌&◌, none_more, opt, never}

-- `{ "method": M, id: RequestId, params: P, }`
abbrev pub request_of : String → Ty → Ty
request_of m params =
    obj (req "method" (lit m) & req "id" request_id & req "params" params & none_more)

-- `{ "method": M, id: RequestId, params: undefined, }`
abbrev pub bare_request_of : String → Ty
bare_request_of m =
    obj (req "method" (lit m) & req "id" request_id & opt "params" never & none_more)

-- `{ "method": M, "params": P }`
abbrev pub notification_of : String → Ty → Ty
notification_of m params = obj (req "method" (lit m) & req "params" params & none_more)
