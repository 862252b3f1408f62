-- ===== src/Cloudflare/Inputs.antt =====
-- cmd/servers/cloudflare/tools.go: the input structs of the tools, with their tags, and how
-- encoding/json decodes them.
use custom_mcps.Prelude.{
  String, Bool, true, false, Option, none, some, List, [], ◌∷◌, Result, ok, result_map,
  if◌then◌else◌,
}
use custom_mcps.Prelude.Int.{ℤ, pos}
use custom_mcps.Json.{Json, null, names_field}
use custom_mcps.Json.Decode.{unmarshal_struct, decode_text, decode_int, decode_bool}
use custom_mcps.Schema.Tags.{StructField, basic, int, string, bool, pointer, struct, end, field}
use custom_mcps.Registry.Typed.{Input}

pub record ListZonesInput : Type 0 where
  pub page : ℤ
  pub per_page : ℤ

pub record ListDnsRecordsInput : Type 0 where
  pub zone_id : String
  pub record_type : String
  pub name : String

-- `proxied` is a pointer.
pub record CreateDnsRecordInput : Type 0 where
  pub zone_id : String
  pub type : String
  pub name : String
  pub content : String
  pub ttl : ℤ
  pub proxied : Option Bool

abbrev exported_field : String → List (String × String) → StructField
exported_field name tags = record {
  name = name;
  is_exported = true;
  anonymous = false;
  tags = tags;
}

abbrev required_field : (name key description : String) → StructField
required_field name key description =
    exported_field name (("json", key) ∷ ("mcp", "required") ∷ ("jsonschema", description) ∷ [])

abbrev optional_field : (name key description : String) → StructField
optional_field name key description =
    exported_field name (("json", key) ∷ ("jsonschema", description) ∷ [])

abbrev pub list_zones_step : ListZonesInput → String → Json → Result ListZonesInput
list_zones_step i key v =
    if names_field "page" key
    then result_map (λ n. record i { page = n })
        (decode_int "struct field ListZonesInput.page" i.page v)
    else if names_field "perPage" key
    then result_map (λ n. record i { per_page = n })
        (decode_int "struct field ListZonesInput.perPage" i.per_page v)
    else ok i

abbrev pub list_zones_zero : ListZonesInput
list_zones_zero = record { page = pos 0; per_page = pos 0 }

abbrev pub list_zones_input : Input ListZonesInput
list_zones_input = record {
  type = struct (
      field (optional_field "Page" "page" "description=Page number,minimum=1,default=1") (basic int)
        (field
          (optional_field "PerPage" "perPage"
            "description=Results per page,minimum=5,maximum=50,default=20")
          (basic int) end));
  zero = list_zones_zero;
  unmarshal = unmarshal_struct "main.ListZonesInput" list_zones_step list_zones_zero;
}

abbrev pub list_dns_records_step : ListDnsRecordsInput → String → Json → Result ListDnsRecordsInput
list_dns_records_step i key v =
    if names_field "zoneId" key
    then result_map (λ t. record i { zone_id = t })
        (decode_text "struct field ListDNSRecordsInput.zoneId" i.zone_id v)
    else if names_field "recordType" key
    then result_map (λ t. record i { record_type = t })
        (decode_text "struct field ListDNSRecordsInput.recordType" i.record_type v)
    else if names_field "name" key
    then result_map (λ t. record i { name = t })
        (decode_text "struct field ListDNSRecordsInput.name" i.name v)
    else ok i

abbrev pub list_dns_records_zero : ListDnsRecordsInput
list_dns_records_zero = record { zone_id = ""; record_type = ""; name = "" }

abbrev pub list_dns_records_input : Input ListDnsRecordsInput
list_dns_records_input = record {
  type = struct (
      field (required_field "ZoneID" "zoneId" "description=The Cloudflare zone ID") (basic string) (
        field
          (optional_field "RecordType" "recordType"
            "description=Filter by record type,enum=A|AAAA|CNAME|MX|TXT|NS|SRV")
          (basic string)
          (field (optional_field "Name" "name" "description=Filter by record name") (basic string)
            end)));
  zero = list_dns_records_zero;
  unmarshal =
      unmarshal_struct "main.ListDNSRecordsInput" list_dns_records_step list_dns_records_zero;
}

-- A `*bool`, which null sets to nil.
abbrev decode_bool_pointer : String → Json → Result (Option Bool)
decode_bool_pointer place null = ok none
decode_bool_pointer place v = result_map some (decode_bool place false v)

abbrev pub create_dns_record_step :
    CreateDnsRecordInput → String → Json → Result CreateDnsRecordInput
create_dns_record_step i key v =
    if names_field "zoneId" key
    then result_map (λ t. record i { zone_id = t })
        (decode_text "struct field CreateDNSRecordInput.zoneId" i.zone_id v)
    else if names_field "type" key
    then result_map (λ t. record i { type = t })
        (decode_text "struct field CreateDNSRecordInput.type" i.type v)
    else if names_field "name" key
    then result_map (λ t. record i { name = t })
        (decode_text "struct field CreateDNSRecordInput.name" i.name v)
    else if names_field "content" key
    then result_map (λ t. record i { content = t })
        (decode_text "struct field CreateDNSRecordInput.content" i.content v)
    else if names_field "ttl" key
    then result_map (λ n. record i { ttl = n })
        (decode_int "struct field CreateDNSRecordInput.ttl" i.ttl v)
    else if names_field "proxied" key
    then result_map (λ b. record i { proxied = b })
        (decode_bool_pointer "struct field CreateDNSRecordInput.proxied" v)
    else ok i

abbrev pub create_dns_record_zero : CreateDnsRecordInput
create_dns_record_zero = record {
  zone_id = "";
  type = "";
  name = "";
  content = "";
  ttl = pos 0;
  proxied = none;
}

abbrev pub create_dns_record_input : Input CreateDnsRecordInput
create_dns_record_input = record {
  type = struct (
      field (required_field "ZoneID" "zoneId" "description=The Cloudflare zone ID") (basic string) (
        field (required_field "Type" "type" "description=DNS record type,enum=A|AAAA|CNAME|MX|TXT")
          (basic string)
          (field (required_field "Name" "name" "description=DNS record name (e.g. example.com)")
            (basic string)
            (field
              (required_field "Content" "content"
                "description=DNS record content (e.g. 192.168.1.1)")
              (basic string)
              (field
                (optional_field "TTL" "ttl"
                  "description=TTL in seconds (1 for auto),minimum=1,default=1")
                (basic int)
                (field
                  (optional_field "Proxied" "proxied"
                    "description=Whether the record is proxied through Cloudflare")
                  (pointer (basic bool)) end))))));
  zero = create_dns_record_zero;
  unmarshal =
      unmarshal_struct "main.CreateDNSRecordInput" create_dns_record_step create_dns_record_zero;
}
