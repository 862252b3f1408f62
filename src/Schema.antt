-- ===== src/Schema.antt =====
-- framework/schema/types.go: JSON Schema documents, and how encoding/json writes them.
pub mod Tags
pub mod Generate
pub mod Validate
use custom_mcps.Prelude.{
  String, Option, none, some, List, [], ◌∷◌, ◌++◌, map, Result, ok, err, ◌>>=◌, if◌then◌else◌, ◌==◌,
}
use custom_mcps.Prelude.Int.{ℤ}
use custom_mcps.Prelude.Sort.{sort_keys}
use custom_mcps.Json.{Json, integer, text, array, to_items}
use custom_mcps.Protocol.Errors.{AnyValue}
use custom_mcps.Protocol.Payloads.Encoding.{text_unless_empty, unless_nil, fields, encode_each}

-- The fields of a `JSONSchema` that hold no schema. A `float64` is known, as a value of type `any`
-- is, by what encoding/json writes for it: an error for a NaN or an infinity.
pub record Keywords : Type 0 where
  pub type : String
  pub required : List String
  pub description : String
  pub enum : List AnyValue
  pub default : Option AnyValue
  pub minimum : Option AnyValue
  pub maximum : Option AnyValue
  pub min_length : Option ℤ
  pub max_length : Option ℤ
  pub pattern : String
  pub format : String

-- `&JSONSchema{Type: t}`
abbrev pub typed : String → Keywords
typed t = record {
  type = t;
  required = [];
  description = "";
  enum = [];
  default = none;
  minimum = none;
  maximum = none;
  min_length = none;
  max_length = none;
  pattern = "";
  format = "";
}

-- A `*JSONSchema` field is `missing` where it is nil.
mutual
  pub data JsonSchema : Type 0 where
    json_schema :
        Keywords
        → (properties : Properties) → (items additional_properties : SubSchema) → JsonSchema

  pub data SubSchema : Type 0 where
    missing : SubSchema
    sub : JsonSchema → SubSchema

  pub data Properties : Type 0 where
    no_properties : Properties
    property : String → JsonSchema → Properties → Properties

abbrev pub keywords : JsonSchema → Keywords
keywords (json_schema k ps i a) = k

abbrev pub properties_of : JsonSchema → Properties
properties_of (json_schema k ps i a) = ps

abbrev pub with_keywords : Keywords → JsonSchema → JsonSchema
with_keywords k (json_schema _ ps i a) = json_schema k ps i a

abbrev pub to_properties : List (String × JsonSchema) → Properties
to_properties [] = no_properties
to_properties ((name, s) ∷ ps) = property name s (to_properties ps)

abbrev pub properties : Properties → List (String × JsonSchema)
properties no_properties = []
properties (property name s ps) = (name, s) ∷ properties ps

-- `&JSONSchema{Type: t}`, with no schema inside.
abbrev pub plain_schema : String → JsonSchema
plain_schema t = json_schema (typed t) no_properties missing missing

-- An `omitempty` list or value.
abbrev list_unless_empty : String → List Json → List (String × Json)
list_unless_empty key [] = []
list_unless_empty key (v ∷ vs) = (key, array (to_items (v ∷ vs))) ∷ []

abbrev any_unless_nil : String → Option AnyValue → Result (List (String × Json))
any_unless_nil key none = ok []
any_unless_nil key (some a) = a >>= λ v. ok ((key, v) ∷ [])

abbrev object_unless_empty : String → List (String × Json) → List (String × Json)
object_unless_empty key [] = []
object_unless_empty key (m ∷ ms) = (key, fields (m ∷ ms)) ∷ []

-- The properties in the order of their sorted keys; the first error ends the encoding.
abbrev in_sequence : List (String × Result Json) → Result (List (String × Json))
in_sequence [] = ok []
in_sequence ((k, r) ∷ rest) = r >>= λ v. in_sequence rest >>= λ vs. ok ((k, v) ∷ vs)

-- The members of a schema, in the order of the struct's fields; what is empty is left out, but not
-- the type.
unfoldable pub assemble :
    Keywords
    → List (String × Result Json)
    → (items additional : Result (List (String × Json))) → Result Json
unfolding sort_keys
assemble k props items additional = do
  ps ← in_sequence (sort_keys props)
  enums ← encode_each (λ a. a) k.enum
  default ← any_unless_nil "default" k.default
  minimum ← any_unless_nil "minimum" k.minimum
  maximum ← any_unless_nil "maximum" k.maximum
  is ← items
  as_ ← additional
  ok (
      fields (
        ("type", text k.type)
        ∷ (object_unless_empty "properties" ps
            ++ list_unless_empty "required" (map text k.required)
            ++ text_unless_empty "description" k.description
            ++ list_unless_empty "enum" enums
            ++ default
            ++ minimum
            ++ maximum
            ++ unless_nil "minLength" integer k.min_length
            ++ unless_nil "maxLength" integer k.max_length
            ++ text_unless_empty "pattern" k.pattern
            ++ text_unless_empty "format" k.format
            ++ is
            ++ as_)))

abbrev as_member : String → Result Json → Result (List (String × Json))
as_member key r = r >>= λ v. ok ((key, v) ∷ [])

-- `json.Marshal` of a schema.
unfoldable mutual
  unfolding assemble

  pub encode_schema : JsonSchema → Result Json
  encode_schema (json_schema k ps items additional) =
      assemble k (encode_properties ps) (encode_sub "items" items)
        (encode_sub "additionalProperties" additional)

  encode_properties : Properties → List (String × Result Json)
  encode_properties no_properties = []
  encode_properties (property name s ps) = (name, encode_schema s) ∷ encode_properties ps

  encode_sub : String → SubSchema → Result (List (String × Json))
  encode_sub key missing = ok []
  encode_sub key (sub s) = as_member key (encode_schema s)
