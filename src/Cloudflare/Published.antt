-- ===== src/Cloudflare/Published.antt =====
-- cmd/servers/cloudflare/tools.go: the input schemas that the DNS tools are published with.
use custom_mcps.Prelude.{String, some, List, [], ◌∷◌, map, ok, ◌≡◌, refl}
use custom_mcps.Prelude.Int.{pos}
use custom_mcps.Prelude.Maps.{put}
use custom_mcps.Prelude.Text.{split, trim_space}
use custom_mcps.Json.{Json, integer, text, array, to_items}
use custom_mcps.Library.{GoLibrary}
use custom_mcps.Protocol.Payloads.Encoding.{fields}
use custom_mcps.Schema.{encode_schema}
use custom_mcps.Schema.Tags.{apply_json_schema_tag, set_keyword, parse_default}
use custom_mcps.Schema.Generate.{generate}
use custom_mcps.Cloudflare.Inputs.{
  list_zones_input, list_dns_records_input, create_dns_record_input,
}

-- `strconv.ParseFloat` reads the numerals that stand in the tags.
pub record ReadsNumerals (lib : GoLibrary) : Type 0 where
  pub one : lib.parse_float "1" ≡ some (ok (integer (pos 1)))
  pub five : lib.parse_float "5" ≡ some (ok (integer (pos 5)))
  pub twenty : lib.parse_float "20" ≡ some (ok (integer (pos 20)))
  pub fifty : lib.parse_float "50" ≡ some (ok (integer (pos 50)))

abbrev property_of : (type description : String) → List (String × Json) → Json
property_of type description more =
    fields (("type", text type) ∷ ("description", text description) ∷ more)

abbrev texts : List String → Json
texts ts = array (to_items (map text ts))

abbrev pub list_zones_schema : Json
list_zones_schema = fields (
    ("type", text "object")
    ∷ (
      "properties",
      fields (
          (
            "page",
            property_of "integer" "Page number"
                (("default", integer (pos 1)) ∷ ("minimum", integer (pos 1)) ∷ []),
          )
          ∷ (
            "perPage",
            property_of "integer" "Results per page" (
                ("default", integer (pos 20))
                ∷ ("minimum", integer (pos 5))
                ∷ ("maximum", integer (pos 50))
                ∷ []),
          )
          ∷ []),
    )
    ∷ [])

abbrev pub list_dns_records_schema : Json
list_dns_records_schema = fields (
    ("type", text "object")
    ∷ (
      "properties",
      fields (
          ("name", property_of "string" "Filter by record name" [])
          ∷ (
            "recordType",
            property_of "string" "Filter by record type"
                (("enum", texts ("A" ∷ "AAAA" ∷ "CNAME" ∷ "MX" ∷ "TXT" ∷ "NS" ∷ "SRV" ∷ [])) ∷ []),
          )
          ∷ ("zoneId", property_of "string" "The Cloudflare zone ID" [])
          ∷ []),
    )
    ∷ ("required", texts ("zoneId" ∷ []))
    ∷ [])

abbrev pub create_dns_record_schema : Json
create_dns_record_schema = fields (
    ("type", text "object")
    ∷ (
      "properties",
      fields (
          ("content", property_of "string" "DNS record content (e.g. 192.168.1.1)" [])
          ∷ ("name", property_of "string" "DNS record name (e.g. example.com)" [])
          ∷ ("proxied", property_of "boolean" "Whether the record is proxied through Cloudflare" [])
          ∷ (
            "ttl",
            property_of "integer" "TTL in seconds (1 for auto)"
                (("default", integer (pos 1)) ∷ ("minimum", integer (pos 1)) ∷ []),
          )
          ∷ (
            "type",
            property_of "string" "DNS record type"
                (("enum", texts ("A" ∷ "AAAA" ∷ "CNAME" ∷ "MX" ∷ "TXT" ∷ [])) ∷ []),
          )
          ∷ ("zoneId", property_of "string" "The Cloudflare zone ID" [])
          ∷ []),
    )
    ∷ ("required", texts ("zoneId" ∷ "type" ∷ "name" ∷ "content" ∷ []))
    ∷ [])

module _ (lib : GoLibrary) (reads : ReadsNumerals lib) where
  pub list_zones_published :
      encode_schema (generate lib.parse_float list_zones_input.type) ≡ ok list_zones_schema
  unfolding encode_schema generate put apply_json_schema_tag set_keyword split trim_space
      parse_default
  list_zones_published = rw (reads.one, reads.five, reads.twenty, reads.fifty) refl

  pub list_dns_records_published :
      encode_schema (generate lib.parse_float list_dns_records_input.type)
      ≡ ok list_dns_records_schema
  unfolding encode_schema generate put apply_json_schema_tag set_keyword split trim_space
      parse_default
  list_dns_records_published = refl

  pub create_dns_record_published :
      encode_schema (generate lib.parse_float create_dns_record_input.type)
      ≡ ok create_dns_record_schema
  unfolding encode_schema generate put apply_json_schema_tag set_keyword split trim_space
      parse_default
  create_dns_record_published = rw reads.one refl
