-- ===== src/Schema/Validate.antt =====
-- What a JSON Schema document says of a JSON document, for the keywords that speak of the shape of
-- values: `type`, `properties`, `items` and `additionalProperties`. It describes the schemas of
-- framework/schema from the side of their reader.
pub mod Shape
use custom_mcps.Prelude.{
  String, Bool, true, false, not, ◌&&◌, ◌||◌, List, [], ◌∷◌, ◌==◌, if◌then◌else◌,
}
use custom_mcps.Prelude.Int.{is_int64}
use custom_mcps.Json.{
  Json, null, boolean, integer, decimal, text, array, object, items, members, names_field,
}
use custom_mcps.Json.Numerals.{is_whole}
use custom_mcps.Schema.{
  JsonSchema, json_schema, SubSchema, missing, sub, Properties, no_properties, property,
}

abbrev pub is_integer : Json → Bool
is_integer (integer n) = true
is_integer (decimal t) = is_whole t
is_integer v = false

abbrev pub is_number : Json → Bool
is_number (integer n) = true
is_number (decimal t) = true
is_number v = false

abbrev pub is_text : Json → Bool
is_text (text t) = true
is_text v = false

abbrev pub is_boolean : Json → Bool
is_boolean (boolean b) = true
is_boolean v = false

abbrev pub is_array : Json → Bool
is_array (array vs) = true
is_array v = false

abbrev pub is_object : Json → Bool
is_object (object ms) = true
is_object v = false

-- A number without fraction is an integer, however it is written. An unknown type says nothing.
unfoldable pub type_allows : String → Json → Bool
type_allows t v =
    if t == "object"
    then is_object v
    else if t == "array"
    then is_array v
    else if t == "string"
    then is_text v
    else if t == "integer"
    then is_integer v
    else if t == "number"
    then is_number v
    else if t == "boolean"
    then is_boolean v
    else true

abbrev pub all_items : (Json → Bool) → List Json → Bool
all_items p [] = true
all_items p (v ∷ vs) = p v && all_items p vs

abbrev pub all_members : (String → Json → Bool) → List (String × Json) → Bool
all_members p [] = true
all_members p ((k, v) ∷ ms) = p k v && all_members p ms

abbrev pub in_object : (String → Json → Bool) → Json → Bool
in_object p (object ms) = all_members p (members ms)
in_object p v = true

abbrev pub in_array : (Json → Bool) → Json → Bool
in_array p (array vs) = all_items p (items vs)
in_array p v = true

abbrev is_property : Properties → String → Bool
is_property no_properties key = false
is_property (property name s ps) key = name == key || is_property ps key

unfoldable mutual
  unfolding type_allows

  pub allows : JsonSchema → Json → Bool
  allows (json_schema k ps of_items additional) v =
      type_allows k.type v
      && in_object (λ key w. member_allowed ps key w) v
      && in_object (λ key w. is_property ps key || sub_allows additional w) v
      && in_array (λ w. sub_allows of_items w) v

  pub member_allowed : Properties → String → Json → Bool
  member_allowed no_properties key w = true
  member_allowed (property name s ps) key w =
      (if name == key then allows s w else true) && member_allowed ps key w

  sub_allows : SubSchema → Json → Bool
  sub_allows missing w = true
  sub_allows (sub s) w = allows s w

-- A key that names a struct field up to case is spelled like it.
abbrev pub exact_key : List String → String → Bool
exact_key [] key = true
exact_key (name ∷ names) key = (not (names_field name key) || name == key) && exact_key names key

-- A number is in the range of int64, and written without point and exponent.
abbrev pub fits : Json → Bool
fits (integer n) = is_int64 n
fits (decimal t) = false
fits v = true

-- What a schema says nothing of and encoding/json cares for: the spelling of the keys of these
-- fields, and the range and the notation of integers.
unfoldable pub is_plain : List String → Json → Bool
is_plain names v = in_object (λ key w. exact_key names key && fits w) v
