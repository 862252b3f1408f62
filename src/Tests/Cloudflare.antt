-- ===== src/Tests/Cloudflare.antt =====
-- cmd/servers/cloudflare and its typed tools: the theorems at concrete inputs.
use custom_mcps.Server.Run
use mathlib.Core.List.Perm
use custom_mcps.Prelude.{
  String, false, some, List, [], ◌∷◌, ok, returns, ◌≡◌, refl, length, if◌then◌else◌, ◌==◌, ◌<>◌,
  Option, none,
}
use custom_mcps.Prelude.Int.{pos, atoi, negsuc}
use custom_mcps.Prelude.Text.{split, trim_space}
use custom_mcps.Prelude.Maps.{get, put}
use custom_mcps.Json.{Json, integer, text, array, to_items, encoded, Raw, absent, names_field}
use custom_mcps.Library.{small_library, GoLibrary}
use custom_mcps.Tests.Print.{print}
use custom_mcps.Protocol.Payloads.Encoding.{fields}
use custom_mcps.Schema.{encode_schema, keywords}
use custom_mcps.Schema.Tags.{apply_json_schema_tag, set_keyword, parse_default}
use custom_mcps.Schema.Generate.{generate}
use custom_mcps.Context.{Context}
use custom_mcps.World.{World, MessageHandler}
use custom_mcps.Protocol.Payloads.{
  CallToolParams, decode_call_tool_params, text_content, encode_content,
}
use custom_mcps.Registry.{GoRuntime, list_tools}
use custom_mcps.Registry.Typed.{TypedHandler}
use custom_mcps.Server.{Server}
use custom_mcps.Server.Options.{default_server}
use custom_mcps.Server.Typed.{tool}
use custom_mcps.Server.Dispatch.{handle_tools_call}
use custom_mcps.Server.Dispatch.Branches.{req, answered}
use custom_mcps.Auth.{Env}
use custom_mcps.Protocol.Errors.{AnyValue, GoError}
use custom_mcps.Cloudflare.{Transport, build_server}
use custom_mcps.Cloudflare.Run.{run, server_run}
use custom_mcps.Cloudflare.Published.{ReadsNumerals}
use custom_mcps.Cloudflare.Served.{three_tools, published_tools, run-three_tools}
use custom_mcps.Cloudflare.Inputs.{
  ListZonesInput, ListDnsRecordsInput, CreateDnsRecordInput, create_dns_record_input,
}
use custom_mcps.Cloudflare.Tools.{handle_create_dns_record, filtered, dns_records}
use custom_mcps.Cloudflare.Tools.Laws.{create_dns_record_unchecked}
use mathlib.Core.List.{Perm}

-- Maps are gone over in the order of registration.
abbrev pub in_order : GoRuntime
in_order = record { read_any = λ v. ok v; order = λ V m. m; order_perm = λ V m. Perm.refl m }

abbrev pub nowhere : Context
nowhere = record { values = [] }

abbrev pub world : World
world = record { initialized = false; log = []; clock = λ n. n; reads = 0 }

abbrev described : (type description : String) → List (String × Json) → Json
described type description more =
    fields (("type", text type) ∷ ("description", text description) ∷ more)

abbrev create_schema : Json
create_schema = fields (
    ("type", text "object")
    ∷ (
      "properties",
      fields (
          ("content", described "string" "DNS record content (e.g. 192.168.1.1)" [])
          ∷ ("name", described "string" "DNS record name (e.g. example.com)" [])
          ∷ ("proxied", described "boolean" "Whether the record is proxied through Cloudflare" [])
          ∷ ("ttl", described "integer" "TTL in seconds (1 for auto)" (("default", text "1") ∷ []))
          ∷ (
            "type",
            described "string" "DNS record type" (
                (
                  "enum",
                  array (
                      to_items
                        (text "A" ∷ text "AAAA" ∷ text "CNAME" ∷ text "MX" ∷ text "TXT" ∷ [])),
                )
                ∷ []),
          )
          ∷ ("zoneId", described "string" "The Cloudflare zone ID" [])
          ∷ []),
    )
    ∷ (
      "required",
      array (to_items (text "zoneId" ∷ text "type" ∷ text "name" ∷ text "content" ∷ [])),
    )
    ∷ [])

create_schema_written :
    encode_schema (generate small_library.parse_float create_dns_record_input.type)
    ≡ ok create_schema
unfolding encode_schema generate put apply_json_schema_tag set_keyword split trim_space atoi
    parse_default
create_schema_written = refl

abbrev no_arguments : Raw
no_arguments = encoded (fields (("name", text "create_dns_record") ∷ []))

abbrev bare_call : CallToolParams
bare_call = record { name = "create_dns_record"; arguments = absent }

bare_call_decoded : decode_call_tool_params no_arguments ≡ ok bare_call
unfolding decode_call_tool_params names_field
bare_call_decoded = refl

-- The handler of create_dns_record, and a server with no tools.
abbrev creating : TypedHandler CreateDnsRecordInput
creating = handle_create_dns_record small_library

abbrev bare_server : Server (Unit {0}) (Unit {0})
bare_server = default_server

-- The same handler, with documents printed.
abbrev printing : GoLibrary
printing = record small_library { marshal_indent = print }

create_dns_record_unchecked_example :
    ((keywords (generate small_library.parse_float create_dns_record_input.type)).required
      ≡ "zoneId" ∷ "type" ∷ "name" ∷ "content" ∷ [])
    × (s' : Server (Unit {0}) (Unit {0})) × (tool printing create_dns_record_input bare_server
          "create_dns_record" ""
          (handle_create_dns_record printing)
        ≡ returns s')
    × (handle_tools_call in_order s' nowhere
          (req in_order s' nowhere world (integer (pos 1)) "2.0" "tools/call" no_arguments)
          world
        ≡ answered
            (integer (pos 1))
            (fields (
              (
                "content",
                array (
                    to_items (
                      encode_content (
                        text_content (
                          "{message:'DNS record   ->  created successfully',record:{content:'',"
                          <> "created:'2026-04-16T10:00:00Z',id:'f56a78b90c12d34e5f6a7b8c9d0e1f2a',"
                          <> "modified:'2026-04-16T10:00:00Z',name:'',proxied:false,ttl:1,type:'',"
                          <> "zoneId:'',zoneName:'example.com',},success:true,}"))
                      ∷ [])),
              )
              ∷ []))
            world)
unfolding print
create_dns_record_unchecked_example =
    create_dns_record_unchecked printing in_order bare_server nowhere world (integer (pos 1)) "2.0"
      "tools/call" no_arguments "" create_schema bare_call create_schema_written bare_call_decoded
      refl refl

abbrev low_page : ListZonesInput
low_page = record { page = negsuc 4; per_page = pos 3 }

abbrev mail : ListDnsRecordsInput
mail = record { zone_id = "z"; record_type = "MX"; name = "" }

one_mail_record : length (filtered mail (dns_records "z")) ≡ 1
unfolding filtered get
one_mail_record = refl

-- A library that reads the numerals of the tags.
abbrev numeral : String → Option AnyValue
numeral s =
    if s == "1"
    then some (ok (integer (pos 1)))
    else if s == "5"
    then some (ok (integer (pos 5)))
    else if s == "20"
    then some (ok (integer (pos 20)))
    else if s == "50"
    then some (ok (integer (pos 50)))
    else none

abbrev pub numerals : GoLibrary
numerals = record small_library { parse_float = numeral }

pub numerals-ReadsNumerals : ReadsNumerals numerals
numerals-ReadsNumerals = record { one = refl; five = refl; twenty = refl; fifty = refl }

abbrev http_env : Env
http_env name = if name == "CF_TRANSPORT" then "http" else "secret"

-- A transport that stops without an error.
abbrev stops : Option (Transport (Unit {0})) → MessageHandler → Option GoError
stops t handler = none

run-three_tools_example :
    (run numerals in_order stops http_env
      ≡ returns (
          server_run (
            Run.run in_order
              (record (build_server http_env) { registry = three_tools numerals })
              stops)))
    × Perm (list_tools in_order (three_tools numerals)) published_tools
run-three_tools_example = run-three_tools numerals numerals-ReadsNumerals in_order stops http_env
