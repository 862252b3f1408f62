-- ===== src/Tests/Calls.antt =====
-- Calls of the tools of cmd/servers/cloudflare at concrete inputs.
use custom_mcps.Tests.Cloudflare.{in_order, nowhere, world, numerals, numerals-ReadsNumerals}
use custom_mcps.Prelude.{[], ◌∷◌, ok, ◌≡◌, refl, ◌<>◌, true, inr}
use custom_mcps.Prelude.Int.{pos, is_int64}
use custom_mcps.Prelude.Text.{split, trim_space}
use custom_mcps.Prelude.Maps.{put}
use custom_mcps.Json.{Json, integer, text, encoded, Raw, names_field, decimal}
use custom_mcps.Protocol.Payloads.Encoding.{fields}
use custom_mcps.Schema.Tags.{apply_json_schema_tag, set_keyword, parse_default}
use custom_mcps.Schema.Generate.{generate}
use custom_mcps.Protocol.Payloads.{decode_call_tool_params}
use custom_mcps.Server.{Server}
use custom_mcps.Server.Options.{default_server}
use custom_mcps.Server.Dispatch.{handle_tools_call}
use custom_mcps.Server.Dispatch.Branches.{req, answered, failed}
use custom_mcps.Registry.Typed.{read_input}
use custom_mcps.Schema.Validate.{allows, is_plain, type_allows}
use custom_mcps.Cloudflare.Served.{three_tools}
use custom_mcps.Cloudflare.Conforming.{list_zones, argument_names, page_of}
use custom_mcps.Cloudflare.Refused.{unreadable_page}
use custom_mcps.Json.Decode.{mismatch}
use custom_mcps.Json.Numerals.{is_whole}
use custom_mcps.Protocol.Errors.{code_internal_error}
use custom_mcps.Server.Dispatch.Replies.{error_object}
use custom_mcps.Cloudflare.Calls.{conforming_call, document_of, text_result}
use custom_mcps.Cloudflare.Inputs.{list_zones_input, ListZonesInput}

abbrev second_page : Json
second_page = fields (("page", integer (pos 2)) ∷ [])

abbrev list_call : Raw
list_call = encoded (fields (("name", text "list_zones") ∷ ("arguments", second_page) ∷ []))

list_call_decoded :
    decode_call_tool_params list_call
    ≡ ok (record { name = "list_zones"; arguments = encoded second_page })
unfolding decode_call_tool_params names_field
list_call_decoded = refl

abbrev dns_server : Server (Unit {0}) (Unit {0})
dns_server = record default_server { registry = three_tools numerals }

second_page_allowed :
    allows (generate numerals.parse_float list_zones_input.type) second_page ≡ true
unfolding allows generate put apply_json_schema_tag set_keyword split trim_space parse_default
    type_allows
second_page_allowed = refl

second_page-is_plain : is_plain (argument_names list_zones) second_page ≡ true
unfolding is_plain names_field is_int64
second_page-is_plain = refl

conforming_call_example :
    (x : ListZonesInput) × (read_input numerals list_zones_input (encoded second_page) ≡ ok x)
    × (handle_tools_call in_order dns_server nowhere
          (req in_order dns_server nowhere world (integer (pos 1)) "2.0" "tools/call" list_call)
          world
        ≡ answered
            (integer (pos 1))
            (text_result (numerals.marshal_indent (document_of list_zones x)))
            world)
conforming_call_example =
    conforming_call numerals numerals-ReadsNumerals in_order dns_server nowhere world
      (integer (pos 1)) "2.0" "tools/call" list_call
      (record { name = "list_zones"; arguments = encoded second_page }) list_zones second_page refl
      list_call_decoded refl refl second_page_allowed second_page-is_plain

-- A page of 1.0.
abbrev pointed_page : Raw
pointed_page =
    encoded (fields (("name", text "list_zones") ∷ ("arguments", page_of (decimal "1.0")) ∷ []))

pointed_page_decoded :
    decode_call_tool_params pointed_page
    ≡ ok (record { name = "list_zones"; arguments = encoded (page_of (decimal "1.0")) })
unfolding decode_call_tool_params names_field
pointed_page_decoded = refl

unreadable_page_example :
    (allows (generate numerals.parse_float list_zones_input.type) (page_of (decimal "1.0")) ≡ true)
    × (handle_tools_call in_order dns_server nowhere
          (req in_order dns_server nowhere world (integer (pos 1)) "2.0" "tools/call" pointed_page)
          world
        ≡ failed
            (integer (pos 1))
            (error_object code_internal_error
              ("invalid parameters for tool \"list_zones\": json: cannot unmarshal number 1.0 into "
                <> "Go struct field ListZonesInput.page of type int")
              [])
            world)
unfolding is_whole mismatch
unreadable_page_example =
    unreadable_page numerals numerals-ReadsNumerals in_order dns_server nowhere world
      (integer (pos 1)) "2.0" "tools/call" pointed_page
      (record { name = "list_zones"; arguments = encoded (page_of (decimal "1.0")) })
      (decimal "1.0") refl pointed_page_decoded refl refl (inr ("1.0", refl, refl))
