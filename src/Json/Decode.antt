-- ===== src/Json/Decode.antt =====
-- `json.Unmarshal` into the kinds of Go values that the framework decodes. A struct is decoded
-- member by member, a later member over an earlier one; a null leaves strings, numbers and
-- Booleans as they are. An error ends with the first error text, since no caller reads a value that
-- came with an error.
use custom_mcps.Prelude.{String, Bool, List, [], ◌∷◌, Result, ok, err, ◌>>=◌, ◌<>◌, if◌then◌else◌}
use custom_mcps.Prelude.Int.{ℤ, is_int64, itoa}
use custom_mcps.Prelude.Maps.{put}
use custom_mcps.Json.{
  Json, null, boolean, integer, decimal, text, object, members, Raw, absent, malformed, encoded,
  kind,
}

-- What reading a document other than null into an `any` gives, known by what `json.Marshal` makes of
-- it: numbers go through float64, and the keys of objects are sorted, each once.
abbrev pub AnyReader : Type 0
AnyReader = Json → Result Json

abbrev pub end_of_input : String
end_of_input = "unexpected end of JSON input"

-- The text of an `UnmarshalTypeError`; `place` says where the value should have gone.
unfoldable pub mismatch : String → String → String
mismatch value place = "json: cannot unmarshal " <> value <> " into Go " <> place

-- The document that `json.Unmarshal` reads, or its syntax error.
abbrev pub document : Raw → Result Json
document absent = err end_of_input
document (malformed e) = err e
document (encoded v) = ok v

-- A struct's members, in the order of the document.
abbrev pub decode_members {ℓ} :
    {S : Type ℓ} → (S → String → Json → Result S) → S → List (String × Json) → Result S
decode_members step s [] = ok s
decode_members step s ((k, v) ∷ ms) = step s k v >>= λ t. decode_members step t ms

abbrev pub decode_struct {ℓ} :
    {S : Type ℓ} → String → (S → String → Json → Result S) → S → Json → Result S
decode_struct name step s null = ok s
decode_struct name step s (object ms) = decode_members step s (members ms)
decode_struct name step s v = err (mismatch (kind v) ("value of type " <> name))

abbrev pub unmarshal_struct {ℓ} :
    {S : Type ℓ} → String → (S → String → Json → Result S) → S → Raw → Result S
unmarshal_struct name step s raw = document raw >>= decode_struct name step s

abbrev pub decode_text : String → String → Json → Result String
decode_text place old (text t) = ok t
decode_text place old null = ok old
decode_text place old v = err (mismatch (kind v) (place <> " of type string"))

abbrev pub decode_bool : String → Bool → Json → Result Bool
decode_bool place old (boolean b) = ok b
decode_bool place old null = ok old
decode_bool place old v = err (mismatch (kind v) (place <> " of type bool"))

abbrev pub decode_int : String → ℤ → Json → Result ℤ
decode_int place old (integer n) =
    if is_int64 n then ok n else err (mismatch ("number " <> itoa n) (place <> " of type int"))
decode_int place old (decimal t) = err (mismatch ("number " <> t) (place <> " of type int"))
decode_int place old null = ok old
decode_int place old v = err (mismatch (kind v) (place <> " of type int"))

-- A `map[string]json.RawMessage`: keys are taken as they stand, and a later one wins.
abbrev pub decode_raw_map : List (String × Json) → List (String × Json) → List (String × Json)
decode_raw_map m [] = m
decode_raw_map m ((k, v) ∷ ms) = decode_raw_map (put k v m) ms

-- A `map[string]string`; a null value is the empty string.
abbrev pub decode_text_map :
    String → List (String × String) → List (String × Json) → Result (List (String × String))
decode_text_map place m [] = ok m
decode_text_map place m ((k, v) ∷ ms) =
    decode_text place "" v >>= λ t. decode_text_map place (put k t m) ms
