-- ===== src/Schema/Tags.antt =====
-- framework/schema/generate.go: what the jsonschema tag of a struct field does to its schema
-- (applyJSONSchemaTag, parseDefault), and the description of Go types that reflection gives.
pub mod Laws
use custom_mcps.Prelude.{
  String, Bool, Option, none, some, List, [], ◌∷◌, map, ok, if◌then◌else◌, ◌==◌, ◌||◌,
}
use custom_mcps.Prelude.Int.{atoi}
use custom_mcps.Prelude.Text.{split, cut, trim_space}
use custom_mcps.Json.{boolean, text}
use custom_mcps.Protocol.Errors.{AnyValue}
use custom_mcps.Schema.{Keywords}

-- The kinds of `reflect.Kind` that the generator tells apart; the sizes of numbers it does not.
pub data Basic : Type 0 where
  string int uint float bool other : Basic

-- A struct field's name, whether it is exported or anonymous, and its tags by key.
pub record StructField : Type 0 where
  pub name : String
  pub is_exported : Bool
  pub anonymous : Bool
  pub tags : List (String × String)

-- Go types, by a finite description: none that refers to itself. `time` and `raw_message` are
-- time.Time and json.RawMessage; a map is given by the type of its values.
mutual
  pub data GoType : Type 0 where
    basic : Basic → GoType
    time : GoType
    raw_message : GoType
    pointer : GoType → GoType
    slice : GoType → GoType
    map_of : GoType → GoType
    struct : Fields → GoType

  pub data Fields : Type 0 where
    end : Fields
    field : StructField → GoType → Fields → Fields

-- `strconv.ParseBool`, whose value is false on an error.
unfoldable pub parse_bool : String → Bool
parse_bool s = s == "1" || s == "t" || s == "T" || s == "true" || s == "TRUE" || s == "True"

abbrev number_or_text : String → Option AnyValue → AnyValue
number_or_text value (some v) = v
number_or_text value none = ok (text value)

-- `set` is done where the text could be read.
abbrev pub if_read {ℓ} : {A : Type ℓ} → Keywords → Option A → (A → Keywords) → Keywords
if_read k none set = k
if_read k (some a) set = set a

-- `parse_float` is `strconv.ParseFloat`, with the number as encoding/json writes it; `none` for an
-- error.
module _ (parse_float : String → Option AnyValue) where
  unfoldable pub parse_default : String → GoType → AnyValue
  unfolding parse_bool
  parse_default value (pointer t) = parse_default value t
  parse_default value (basic bool) = ok (boolean (parse_bool value))
  parse_default value (basic int) = number_or_text value (parse_float value)
  parse_default value (basic uint) = number_or_text value (parse_float value)
  parse_default value (basic float) = number_or_text value (parse_float value)
  parse_default value _ = ok (text value)

  -- The switch on the key.
  unfoldable pub set_keyword : (key value : String) → GoType → Keywords → Keywords
  set_keyword key value t k =
      if key == "description"
      then record k { description = value }
      else if key == "enum"
      then record k { enum = map (λ p. ok (text p)) (split b'|' value) }
      else if key == "default"
      then record k { default = some (parse_default value t) }
      else if key == "minimum"
      then if_read k (parse_float value) (λ v. record k { minimum = some v })
      else if key == "maximum"
      then if_read k (parse_float value) (λ v. record k { maximum = some v })
      else if key == "minLength"
      then if_read k (atoi value) (λ v. record k { min_length = some v })
      else if key == "maxLength"
      then if_read k (atoi value) (λ v. record k { max_length = some v })
      else if key == "pattern"
      then record k { pattern = value }
      else if key == "format"
      then record k { format = value }
      else k

  -- A pair without "=" is skipped.
  abbrev pub apply_pair : GoType → Option (String × String) → Keywords → Keywords
  apply_pair t none k = k
  apply_pair t (some (key, value)) k = set_keyword (trim_space key) (trim_space value) t k

  unfoldable pub apply_pairs : GoType → List String → Keywords → Keywords
  apply_pairs t [] k = k
  apply_pairs t (pair ∷ pairs) k = apply_pairs t pairs (apply_pair t (cut b'=' pair) k)

  unfoldable pub apply_json_schema_tag : String → GoType → Keywords → Keywords
  unfolding apply_pairs
  apply_json_schema_tag tag t k = apply_pairs t (split b',' tag) k
