-- ===== src/Schema/Generate.antt =====
-- framework/schema/generate.go: the schema of a Go type (Generate, processStructFields,
-- schemaFromType, schemaType).
pub mod Laws
pub mod Flatten
use custom_mcps.Prelude.{
  String, Bool, true, false, Option, none, some, List, [], ◌∷◌, ◌++◌, if◌then◌else◌, ◌==◌,
}
use custom_mcps.Prelude.Maps.{get, put}
use custom_mcps.Prelude.Text.{before}
use custom_mcps.Protocol.Errors.{AnyValue}
use custom_mcps.Schema.{
  Keywords, typed, JsonSchema, json_schema, SubSchema, missing, sub, Properties, no_properties,
  to_properties, keywords, with_keywords, plain_schema,
}
use custom_mcps.Schema.Tags.{
  Basic, string, int, uint, float, bool, other, StructField, GoType, basic, time, raw_message,
  pointer, slice, map_of, struct, Fields, end, field, apply_json_schema_tag,
}

-- The root schema while the fields are gone over: the names that are required, and the properties.
pub record Root : Type 0 where
  pub required : List String
  pub properties : List (String × JsonSchema)

abbrev pub empty_root : Root
empty_root = record { required = []; properties = [] }

abbrev pub object_schema : Root → JsonSchema
object_schema root =
    json_schema (record (typed "object") { required = root.required })
      (to_properties root.properties) missing missing

unfoldable pub schema_type : GoType → String
schema_type (pointer t) = schema_type t
schema_type (basic int) = "integer"
schema_type (basic uint) = "integer"
schema_type (basic float) = "number"
schema_type (basic bool) = "boolean"
schema_type _ = "string"

-- `field.Tag.Get`
abbrev pub tag_or_empty : Option String → String
tag_or_empty (some t) = t
tag_or_empty none = ""

-- What the json tag makes of a field's name: `none` where it takes the field out.
abbrev pub json_name : String → Option String → Option String
json_name name none = some name
json_name name (some tag) =
    if before b',' tag == "-"
    then none
    else some (if before b',' tag == "" then name else before b',' tag)

unfoldable pub property_name : StructField → Option String
unfolding get before
property_name f = json_name f.name (get "json" f.tags)

unfoldable pub add_required : Bool → String → List String → List String
add_required true name names = names ++ (name ∷ [])
add_required false name names = names

module _ (parse_float : String → Option AnyValue) where
  -- The jsonschema tag changes the schema that the type gave.
  unfoldable pub with_tag : StructField → GoType → JsonSchema → JsonSchema
  with_tag f t s =
      if tag_or_empty (get "jsonschema" f.tags) == ""
      then s
      else with_keywords
          (apply_json_schema_tag parse_float (tag_or_empty (get "jsonschema" f.tags)) t
            (keywords s))
          s

  -- A field that has a name of its own, whose type has the schema `s`.
  unfoldable pub named_field : StructField → GoType → JsonSchema → Root → Root
  unfolding property_name add_required with_tag
  named_field f t s root = elim (property_name f) [
    | none ↦ root
    | some name ↦ record {
      required = add_required (tag_or_empty (get "mcp" f.tags) == "required") name root.required;
      properties = put name (with_tag f t s) root.properties;
    }
  ]

  -- An anonymous field is flattened if it is a struct: `inlined` is then the root with its fields.
  unfoldable pub process_field :
      StructField → GoType → JsonSchema → (inlined : Option Root) → Root → Root
  unfolding named_field
  process_field f t s inlined root = elim f.is_exported [
    | false ↦ root
    | true ↦ elim f.anonymous [
      | false ↦ named_field f t s root
      | true ↦ elim inlined [ some flat ↦ flat | none ↦ named_field f t s root ]
    ]
  ]

  unfoldable mutual
    unfolding process_field schema_type

    pub schema_from_type : GoType → JsonSchema
    schema_from_type (pointer t) = schema_from_type t
    schema_from_type time =
        json_schema (record (typed "string") { format = "date-time" }) no_properties missing missing
    schema_from_type raw_message = plain_schema ""
    schema_from_type (slice t) =
        json_schema (typed "array") no_properties (sub (schema_from_type t)) missing
    schema_from_type (map_of t) =
        json_schema (typed "object") no_properties missing (sub (schema_from_type t))
    schema_from_type (struct fs) = object_schema (process_struct_fields fs empty_root)
    schema_from_type (basic k) = plain_schema (schema_type (basic k))

    pub process_struct_fields : Fields → Root → Root
    process_struct_fields end root = root
    process_struct_fields (field f t fs) root =
        process_struct_fields fs
          (process_field f t (schema_from_type t) (process_embedded t root) root)

    -- The root with the fields of a struct behind any pointers; `none` for other types. The fields
    -- of time.Time are not exported.
    pub process_embedded : GoType → Root → Option Root
    process_embedded (pointer t) root = process_embedded t root
    process_embedded (struct fs) root = some (process_struct_fields fs root)
    process_embedded time root = some root
    process_embedded (basic k) root = none
    process_embedded raw_message root = none
    process_embedded (slice t) root = none
    process_embedded (map_of t) root = none

  unfoldable pub generate : GoType → JsonSchema
  unfolding process_struct_fields schema_type
  generate (pointer t) = generate t
  generate (struct fs) = object_schema (process_struct_fields fs empty_root)
  generate time = object_schema empty_root
  generate t = plain_schema (schema_type t)
