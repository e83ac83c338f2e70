-- ===== src/Protocol/Types/TurnInputs.antt =====
-- probes/app-server-ts: turn inputs, one definition for each file.
use codex_waiting_plgin.Protocol.Schema.{
  Ty, arr, lit, none_more, null_ty, num, obj, opt, req, str, ◌&◌, ◌∪◌,
}
use codex_waiting_plgin.Protocol.Types.Basics.{byte_range, sort_direction}
use codex_waiting_plgin.Protocol.Types.ItemsBase.{image_detail, turn_items_view}

-- v2/ThreadResumeInitialTurnsPageParams.ts
abbrev pub thread_resume_initial_turns_page_params : Ty
thread_resume_initial_turns_page_params = obj (
    opt "limit" (num ∪ null_ty)
    & opt "sortDirection" (sort_direction ∪ null_ty)
    & opt "itemsView" (turn_items_view ∪ null_ty)
    & none_more)

-- v2/TextElement.ts
abbrev pub text_element : Ty
text_element = obj (req "byteRange" byte_range & req "placeholder" (str ∪ null_ty) & none_more)

-- v2/UserInput.ts
abbrev pub user_input : Ty
user_input =
    obj (
      req "type" (lit "text") & req "text" str & req "text_elements" (arr text_element) & none_more)
    ∪ obj (req "type" (lit "image") & opt "detail" image_detail & req "url" str & none_more)
    ∪ obj (req "type" (lit "localImage") & opt "detail" image_detail & req "path" str & none_more)
    ∪ obj (req "type" (lit "audio") & req "url" str & none_more)
    ∪ obj (req "type" (lit "localAudio") & req "path" str & none_more)
    ∪ obj (req "type" (lit "skill") & req "name" str & req "path" str & none_more)
    ∪ obj (req "type" (lit "mention") & req "name" str & req "path" str & none_more)
