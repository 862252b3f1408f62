-- ===== src/Cloudflare/Calls.antt =====
-- cmd/servers/cloudflare: what calls of the DNS tools are answered.
use custom_mcps.Prelude.{String, true, some, [], ◌∷◌, ok, ◌≡◌, refl, ap, ◌∙◌}
use custom_mcps.Prelude.Int.{pos}
use custom_mcps.Prelude.Maps.{get}
use custom_mcps.Json.{Json, Raw, encoded, array, to_items}
use custom_mcps.Context.{Context}
use custom_mcps.World.{World}
use custom_mcps.Library.{GoLibrary}
use custom_mcps.Protocol.Message.{encode_response, new_response}
use custom_mcps.Protocol.Payloads.{
  CallToolParams, decode_call_tool_params, encode_call_tool_result, encode_content, text_content,
}
use custom_mcps.Protocol.Payloads.Encoding.{fields}
use custom_mcps.Registry.{GoRuntime, ToolDefinition, get_tool}
use custom_mcps.Registry.Typed.{read_input, after_decoding, wrapped}
use custom_mcps.Schema.Generate.{generate}
use custom_mcps.Schema.Validate.{allows, is_plain}
use custom_mcps.Server.{Server}
use custom_mcps.Server.Dispatch.{finish, handle_tools_call, respond}
use custom_mcps.Server.Dispatch.Branches.{answered, called, req}
use custom_mcps.Cloudflare.Conforming.{
  DnsTool, list_zones, list_dns_records, create_dns_record, InputOf, input_of, argument_names,
  allows-read_input,
}
use custom_mcps.Cloudflare.Published.{ReadsNumerals}
use custom_mcps.Cloudflare.Served.{
  three_tools, list_zones_tool, list_dns_records_tool, create_dns_record_tool,
}
use custom_mcps.Cloudflare.Tools.{
  or_default, zones_document, records_document, filtered, dns_records, created_document,
  handle_list_zones, handle_list_dns_records, handle_create_dns_record, json_result,
}

abbrev pub tool_name : DnsTool → String
tool_name list_zones = "list_zones"
tool_name list_dns_records = "list_dns_records"
tool_name create_dns_record = "create_dns_record"

-- What a tool says to a decoded input.
abbrev pub document_of : (d : DnsTool) → InputOf d → Json
document_of list_zones i =
    zones_document (or_default (pos 1) i.page) (or_default (pos 20) i.per_page)
document_of list_dns_records i = records_document (filtered i (dns_records i.zone_id))
document_of create_dns_record i = created_document i

-- The result of a call with one text in it.
abbrev pub text_result : String → Json
text_result t = fields (("content", array (to_items (encode_content (text_content t) ∷ []))) ∷ [])

module _ (lib : GoLibrary) where
  definition_of : DnsTool → ToolDefinition
  definition_of list_zones = list_zones_tool lib
  definition_of list_dns_records = list_dns_records_tool lib
  definition_of create_dns_record = create_dns_record_tool lib

  found_of : (d : DnsTool) → get (tool_name d) (three_tools lib).tools ≡ some (definition_of d)
  unfolding get definition_of
  found_of list_zones = refl
  found_of list_dns_records = refl
  found_of create_dns_record = refl

  finished :
      (d : DnsTool) (ctx : Context) (w : World) (id v : Json) (x : InputOf d)
      → read_input lib (input_of d) (encoded v) ≡ ok x
      → finish (encoded id) encode_call_tool_result ((definition_of d).handler ctx (encoded v)) w
        ≡ answered id (text_result (lib.marshal_indent (document_of d x))) w
  unfolding definition_of wrapped finish respond new_response encode_response json_result
      handle_list_zones handle_list_dns_records handle_create_dns_record
  finished list_zones ctx w id v x e =
      ap
        (λ r.
          finish (encoded id) encode_call_tool_result
            (after_decoding lib (input_of list_zones) "list_zones" (handle_list_zones lib) ctx r) w)
        e
  finished list_dns_records ctx w id v x e =
      ap
        (λ r.
          finish (encoded id) encode_call_tool_result
            (after_decoding lib (input_of list_dns_records) "list_dns_records"
              (handle_list_dns_records lib) ctx r)
            w)
        e
  finished create_dns_record ctx w id v x e =
      ap
        (λ r.
          finish (encoded id) encode_call_tool_result
            (after_decoding lib (input_of create_dns_record) "create_dns_record"
              (handle_create_dns_record lib) ctx r)
            w)
        e

  -- Where the numerals of the tags are read, on a server with the three DNS tools: a call of one of
  -- them whose parameters decode, and whose arguments fit the input schema that the tool is published
  -- with, and are plain (a key that names a property up to case is spelled like it, and every number
  -- is an integer of 64 bits written without point and exponent), is answered with a result, never
  -- with an error. The arguments decode, and the result is the indented text of the
  -- document that the tool makes of them.
  pub conforming_call :
      (reads : ReadsNumerals lib) {T H : Type 0} (runtime : GoRuntime) (s : Server T H)
      (ctx : Context) (w : World) (id : Json) (version method : String) (params : Raw)
      (p : CallToolParams) (d : DnsTool) (v : Json)
      → s.registry ≡ three_tools lib
      → decode_call_tool_params params ≡ ok p
      → p.name ≡ tool_name d
      → p.arguments ≡ encoded v
      → allows (generate lib.parse_float (input_of d).type) v ≡ true
      → is_plain (argument_names d) v ≡ true
      → (x : InputOf d) × (read_input lib (input_of d) (encoded v) ≡ ok x)
        × (handle_tools_call runtime s ctx (req runtime s ctx w id version method params) w
            ≡ answered id (text_result (lib.marshal_indent (document_of d x))) w)
  unfolding get_tool
  conforming_call reads runtime s ctx w id version method params p d v tools decoded named given
        fits plain =
      let (x, e) = allows-read_input lib reads d v fits plain in
      let found =
        ap (λ r. get p.name r.tools) tools
        ∙ ap (λ n. get n (three_tools lib).tools) named
        ∙ found_of d in
      (
        x,
        e,
        called runtime s ctx w id version method params p (definition_of d) decoded found
            ∙ ap
                (λ a.
                  finish (encoded id) encode_call_tool_result ((definition_of d).handler ctx a) w)
                given
            ∙ finished d ctx w id v x e,
      )
