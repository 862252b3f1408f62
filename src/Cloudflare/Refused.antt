-- ===== src/Cloudflare/Refused.antt =====
-- cmd/servers/cloudflare: calls whose arguments are of the published types, and which are refused.
use custom_mcps.Prelude.{String, true, some, [], ◌≡◌, refl, ap, ◌∙◌, ◌<>◌, ok}
use custom_mcps.Prelude.Maps.{get}
use custom_mcps.Json.{Json, Raw, encoded}
use custom_mcps.Context.{Context}
use custom_mcps.World.{World}
use custom_mcps.Library.{GoLibrary}
use custom_mcps.Protocol.Errors.{code_internal_error}
use custom_mcps.Protocol.Payloads.{CallToolParams, decode_call_tool_params, encode_call_tool_result}
use custom_mcps.Registry.{GoRuntime, get_tool}
use custom_mcps.Registry.Typed.{wrapped}
use custom_mcps.Schema.Generate.{generate}
use custom_mcps.Schema.Validate.{allows}
use custom_mcps.Server.{Server}
use custom_mcps.Server.Dispatch.{finish, handle_tools_call}
use custom_mcps.Server.Dispatch.Branches.{called, failed, req}
use custom_mcps.Server.Dispatch.Replies.{error_object}
use custom_mcps.Server.Typed.{typed_reply, finish-after_decoding}
use custom_mcps.Cloudflare.Conforming.{
  IsUnreadable, page_of, page_of-allows, page_of-read_input, page_error,
}
use custom_mcps.Cloudflare.Inputs.{list_zones_input}
use custom_mcps.Cloudflare.Published.{ReadsNumerals}
use custom_mcps.Cloudflare.Served.{three_tools, list_zones_tool}
use custom_mcps.Cloudflare.Tools.{handle_list_zones}

module _ (lib : GoLibrary) where
  found_zones : get "list_zones" (three_tools lib).tools ≡ some (list_zones_tool lib)
  unfolding get
  found_zones = refl

  -- Where the numerals of the tags are read, on a server with the three DNS tools: a call of
  -- list_zones whose page is a whole number that is out of the range of an int64, or is written with
  -- a point or an exponent. Its arguments are of the types that the published input schema gives, and
  -- the answer is an error with code -32603 and the decoder's text.
  pub unreadable_page :
      (reads : ReadsNumerals lib) {T H : Type 0} (runtime : GoRuntime) (s : Server T H)
      (ctx : Context) (w : World) (id : Json) (version method : String) (params : Raw)
      (p : CallToolParams) (v : Json)
      → s.registry ≡ three_tools lib
      → decode_call_tool_params params ≡ ok p
      → p.name ≡ "list_zones"
      → p.arguments ≡ encoded (page_of v)
      → IsUnreadable v
      → (allows (generate lib.parse_float list_zones_input.type) (page_of v) ≡ true)
        × (handle_tools_call runtime s ctx (req runtime s ctx w id version method params) w
            ≡ failed id
                (error_object code_internal_error
                  (("invalid parameters for tool " <> lib.quote "list_zones" <> ": ")
                    <> page_error v)
                  [])
                w)
  unfolding get_tool wrapped
  unreadable_page reads runtime s ctx w id version method params p v tools decoded named given
        unreadable =
      let refused = page_of-read_input lib v unreadable in
      let found =
        ap (λ r. get p.name r.tools) tools
        ∙ ap (λ n. get n (three_tools lib).tools) named
        ∙ found_zones in
      (
        page_of-allows lib reads v unreadable,
        called runtime s ctx w id version method params p (list_zones_tool lib) decoded found
            ∙ ap
                (λ a.
                  finish (encoded id) encode_call_tool_result ((list_zones_tool lib).handler ctx a)
                    w)
                given
            ∙ finish-after_decoding lib list_zones_input "list_zones" (handle_list_zones lib) ctx id
                w _
            ∙ ap (typed_reply lib "list_zones" (handle_list_zones lib) ctx id w) refused,
      )
