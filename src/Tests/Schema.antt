-- ===== src/Tests/Schema.antt =====
-- framework/schema and the typed tools: their theorems at concrete inputs.
use custom_mcps.Prelude.{String, true, false, [], ◌∷◌, ok, ◌≡◌, refl}
use custom_mcps.Prelude.Int.{pos, atoi}
use custom_mcps.Prelude.Text.{split, trim_space}
use custom_mcps.Prelude.Maps.{put}
use custom_mcps.Json.{integer, text, array, to_items}
use custom_mcps.Library.{small_library}
use custom_mcps.Protocol.Payloads.Encoding.{fields}
use custom_mcps.Schema.{encode_schema}
use custom_mcps.Schema.Tags.{
  StructField, GoType, basic, int, string, pointer, slice, struct, Fields, end, field,
  apply_json_schema_tag, set_keyword,
}
use custom_mcps.Schema.Generate.{generate}
use custom_mcps.Schema.Generate.Laws.{IsSound, generate-IsSound}
use custom_mcps.Schema.Generate.Flatten.{append_fields, generate-embedded}

abbrev tagged : (name json more : String) → StructField
tagged name json more = record {
  name = name;
  is_exported = true;
  anonymous = false;
  tags = ("json", json) ∷ ("mcp", "required") ∷ ("jsonschema", more) ∷ [];
}

-- An embedded struct that a json tag takes out for encoding/json.
abbrev base : StructField
base = record { name = "Base"; is_exported = true; anonymous = true; tags = ("json", "-") ∷ [] }

abbrev inner : Fields
inner = field (tagged "Id" "id,omitempty" "minLength=3, maxLength = x") (basic string) end

abbrev sample : GoType
sample = struct (
    field (tagged "Tags" "tags" "description=some, of them") (slice (basic int))
      (field base (pointer (struct inner)) end))

-- The second part of a description with a comma is lost, and the embedded field is there.
sample_schema :
    encode_schema (generate small_library.parse_float sample)
    ≡ ok (
        fields (
          ("type", text "object")
          ∷ (
            "properties",
            fields (
                ("id", fields (("type", text "string") ∷ ("minLength", integer (pos 3)) ∷ []))
                ∷ (
                  "tags",
                  fields (
                      ("type", text "array")
                      ∷ ("description", text "some")
                      ∷ ("items", fields (("type", text "integer") ∷ []))
                      ∷ []),
                )
                ∷ []),
          )
          ∷ ("required", array (to_items (text "tags" ∷ text "id" ∷ [])))
          ∷ []))
unfolding encode_schema generate put apply_json_schema_tag set_keyword split trim_space atoi
sample_schema = refl

generate-IsSound_example : IsSound (generate small_library.parse_float sample)
generate-IsSound_example = generate-IsSound small_library.parse_float sample

generate-embedded_example :
    generate small_library.parse_float (struct (append_fields end (field base (struct inner) end)))
    ≡ generate small_library.parse_float (struct (append_fields end (append_fields inner end)))
generate-embedded_example =
    generate-embedded small_library.parse_float base (struct inner) inner end end refl refl
