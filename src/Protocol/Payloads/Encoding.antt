-- ===== src/Protocol/Payloads/Encoding.antt =====
-- What the JSON encodings of the payloads share: `omitempty` fields, lists and slices.
use custom_mcps.Prelude.{
  String, Bool, true, false, Option, none, some, List, [], ◌∷◌, Result, ok, ◌>>=◌, if◌then◌else◌,
  ◌==◌,
}
use custom_mcps.Json.{Json, null, boolean, text, array, object, to_members, to_items}

-- An `omitempty` string, Boolean or pointer field.
abbrev pub text_unless_empty : String → String → List (String × Json)
text_unless_empty key t = if t == "" then [] else (key, text t) ∷ []

abbrev pub bool_if_set : String → Bool → List (String × Json)
bool_if_set key true = (key, boolean true) ∷ []
bool_if_set key false = []

abbrev pub unless_nil {ℓ} : {A : Type ℓ} → String → (A → Json) → Option A → List (String × Json)
unless_nil key f none = []
unless_nil key f (some a) = (key, f a) ∷ []

abbrev pub fields : List (String × Json) → Json
fields ms = object (to_members ms)

-- A list whose items may fail to marshal.
abbrev pub encode_each {ℓ} : {A : Type ℓ} → (A → Result Json) → List A → Result (List Json)
encode_each f [] = ok []
encode_each f (a ∷ rest) = f a >>= λ v. encode_each f rest >>= λ vs. ok (v ∷ vs)

abbrev pub map_json {ℓ} : {A : Type ℓ} → (A → Json) → List A → List Json
map_json f [] = []
map_json f (a ∷ rest) = f a ∷ map_json f rest

-- A slice that user code made; a nil one, `none`, is written as null.
abbrev pub Slice {ℓ} : Type ℓ → Type ℓ
Slice A = Option (List A)

abbrev pub encode_slice {ℓ} : {A : Type ℓ} → (A → Json) → Slice A → Json
encode_slice f none = null
encode_slice f (some xs) = array (to_items (map_json f xs))
