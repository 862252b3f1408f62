-- ===== src/Cloudflare/Tools.antt =====
-- cmd/servers/cloudflare/tools.go: the tools and their registration.
pub mod Laws
use custom_mcps.Prelude.{
  ℕ, zero, suc, String, Bool, true, false, not, ◌&&◌, ◌||◌, Option, none, some, List, [], ◌∷◌,
  length, Result, ok, err, ◌>>=◌, result_map, Outcome, returns, panics, ◌<>◌, if◌then◌else◌, ◌==◌,
}
use custom_mcps.Prelude.Int.{ℤ, pos, negsuc}
use custom_mcps.Prelude.Maps.{get}
use custom_mcps.Prelude.Sort.{sort_keys}
use custom_mcps.Json.{
  Json, null, boolean, integer, decimal, text, array, object, to_items, Raw, names_field, kind,
}
use custom_mcps.Json.Decode.{unmarshal_struct, decode_text, decode_int, decode_bool, mismatch}
use custom_mcps.Library.{GoLibrary}
use custom_mcps.Context.{Context}
use custom_mcps.Protocol.Errors.{AnyValue, Call, value, error, wrap, plain}
use custom_mcps.Protocol.Payloads.{CallToolResult, text_content}
use custom_mcps.Protocol.Payloads.Encoding.{fields}
use custom_mcps.Schema.Tags.{
  StructField, GoType, basic, int, string, bool, pointer, struct, Fields, end, field,
}
use custom_mcps.Registry.Typed.{Input, TypedHandler}
use custom_mcps.Server.{Server}
use custom_mcps.Server.Typed.{tool}
use custom_mcps.Cloudflare.Inputs.{
  ListZonesInput, ListDnsRecordsInput, CreateDnsRecordInput, list_zones_input,
  list_dns_records_input, create_dns_record_input,
}

-- A `map[string]any`, as encoding/json writes it.
abbrev pub json_map : List (String × Json) → Json
json_map m = fields (sort_keys m)

-- A number below 1 gives way to the default.
abbrev pub or_default : ℤ → ℤ → ℤ
or_default fallback (pos zero) = fallback
or_default fallback (pos (suc n)) = pos (suc n)
or_default fallback (negsuc n) = fallback

abbrev zone : (id name server_1 server_2 : String) → Json
zone id name server_1 server_2 = json_map (
    ("id", text id)
    ∷ ("name", text name)
    ∷ ("status", text "active")
    ∷ ("paused", boolean false)
    ∷ ("type", text "full")
    ∷ ("nameServers", array (to_items (text server_1 ∷ text server_2 ∷ [])))
    ∷ [])

-- What list_zones shows for a page.
abbrev pub zones_document : (page per_page : ℤ) → Json
zones_document page per_page = json_map (
    (
      "zones",
      array (
          to_items (
            zone "a1b2c3d4e5f6a7b8c9d0e1f2a3b4c5d6" "example.com" "aria.ns.cloudflare.com"
              "kyle.ns.cloudflare.com"
            ∷ zone "f6e5d4c3b2a1f6e5d4c3b2a1f6e5d4c3" "myapp.dev" "beth.ns.cloudflare.com"
                "otto.ns.cloudflare.com"
            ∷ [])),
    )
    ∷ ("page", integer page)
    ∷ ("perPage", integer per_page)
    ∷ ("total", integer (pos 2))
    ∷ [])

-- A record of the list, as a `map[string]any`; some have a priority.
abbrev dns_record :
    (id type name content : String)
    → ℕ
    → Bool
    → List (String × Json)
    → String
    → List (String × Json)
dns_record id type name content ttl proxied more zone_id =
    ("id", text id)
    ∷ ("type", text type)
    ∷ ("name", text name)
    ∷ ("content", text content)
    ∷ ("ttl", integer (pos ttl))
    ∷ ("proxied", boolean proxied)
    ∷ ("zoneId", text zone_id)
    ∷ ("zoneName", text "example.com")
    ∷ more

abbrev pub dns_records : String → List (List (String × Json))
dns_records zone_id =
    dns_record "b12c34d56e78f90a1b2c3d4e5f6a7b8c" "A" "example.com" "203.0.113.50" 1 true [] zone_id
    ∷ dns_record "c23d45e67f89a01b2c3d4e5f6a7b8c9d" "CNAME" "www.example.com" "example.com" 3600
        true [] zone_id
    ∷ dns_record "d34e56f78a90b12c3d4e5f6a7b8c9d0e" "MX" "example.com" "mail.example.com" 3600 false
        (("priority", integer (pos 10)) ∷ []) zone_id
    ∷ dns_record "e45f67a89b01c23d4e5f6a7b8c9d0e1f" "TXT" "example.com"
        "v=spf1 include:_spf.google.com ~all" 1 false [] zone_id
    ∷ []

abbrev is_text : String → Option Json → Bool
is_text t (some (text u)) = u == t
is_text t _ = false

-- `r[key] == want`
abbrev pub entry_is : String → String → List (String × Json) → Bool
entry_is key want r = is_text want (get key r)

-- The loop that applies the filters.
unfoldable pub filtered :
    ListDnsRecordsInput → List (List (String × Json)) → List (List (String × Json))
filtered i [] = []
filtered i (r ∷ rs) =
    let rest = filtered i rs in
    if not (i.record_type == "") && not (entry_is "type" i.record_type r)
    then rest
    else if not (i.name == "") && not (entry_is "name" i.name r)
    then rest
    else r ∷ rest

abbrev map_documents : List (List (String × Json)) → List Json
map_documents [] = []
map_documents (r ∷ rs) = json_map r ∷ map_documents rs

abbrev pub records_document : List (List (String × Json)) → Json
records_document rs =
    json_map
      (("records", array (to_items (map_documents rs))) ∷ ("total", integer (pos (length rs))) ∷ [])

abbrev proxied_or_false : Option Bool → Bool
proxied_or_false none = false
proxied_or_false (some b) = b

abbrev pub created_document : CreateDnsRecordInput → Json
created_document i = json_map (
    ("success", boolean true)
    ∷ (
      "record",
      json_map (
          ("id", text "f56a78b90c12d34e5f6a7b8c9d0e1f2a")
          ∷ ("type", text i.type)
          ∷ ("name", text i.name)
          ∷ ("content", text i.content)
          ∷ ("ttl", integer (or_default (pos 1) i.ttl))
          ∷ ("proxied", boolean (proxied_or_false i.proxied))
          ∷ ("zoneId", text i.zone_id)
          ∷ ("zoneName", text "example.com")
          ∷ ("created", text "2026-04-16T10:00:00Z")
          ∷ ("modified", text "2026-04-16T10:00:00Z")
          ∷ []),
    )
    ∷ (
      "message",
      text (
          "DNS record " <> i.type <> " " <> i.name <> " -> " <> i.content
          <> " created successfully"),
    )
    ∷ [])

module _ (lib : GoLibrary) where
  unfoldable pub json_result : AnyValue → Outcome (Call (Option CallToolResult))
  json_result (err e) = returns (error (wrap "failed to marshal result: " (plain e)))
  json_result (ok v) = returns (
      value (
        some
          (record { content = some (text_content (lib.marshal_indent v) ∷ []); is_error = false })))

  unfoldable pub handle_list_zones : TypedHandler ListZonesInput
  handle_list_zones ctx i =
      json_result (ok (zones_document (or_default (pos 1) i.page) (or_default (pos 20) i.per_page)))

  unfoldable pub handle_list_dns_records : TypedHandler ListDnsRecordsInput
  handle_list_dns_records ctx i =
      json_result (ok (records_document (filtered i (dns_records i.zone_id))))

  unfoldable pub handle_create_dns_record : TypedHandler CreateDnsRecordInput
  handle_create_dns_record ctx i = json_result (ok (created_document i))

  abbrev then_ {ℓ} : {S : Type ℓ} → Outcome S → (S → Outcome S) → Outcome S
  then_ (returns s) next = next s
  then_ (panics p) next = panics p

  unfoldable pub register_tools : {T H : Type 0} → Server T H → Outcome (Server T H)
  unfolding tool handle_list_zones handle_list_dns_records handle_create_dns_record
  register_tools s =
      then_
        (then_
          (tool lib list_zones_input s "list_zones"
            "List Cloudflare DNS zones accessible by the configured API token" handle_list_zones)
          (λ s.
            tool lib list_dns_records_input s "list_dns_records"
              "List DNS records for a specific Cloudflare zone" handle_list_dns_records))
        (λ s.
          tool lib create_dns_record_input s "create_dns_record"
            "Create a new DNS record in a Cloudflare zone" handle_create_dns_record)
