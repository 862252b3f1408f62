-- ===== src/Json.antt =====
-- The values of encoding/json as the framework meets them: a parsed document, and the raw bytes of
-- a `json.RawMessage` seen through what a parser makes of them.
pub mod Decode
pub mod Numerals
use custom_mcps.Prelude.{
  ℕ, String, Char, code, Bool, true, false, ◌&&◌, List, [], ◌∷◌, leb, nat_eq, if◌then◌else◌, ◌-◌,
}
use custom_mcps.Prelude.Int.{ℤ}

mutual
  -- A number literal is an integer, or another literal that stands for no Go integer.
  pub data Json : Type 0 where
    null : Json
    boolean : Bool → Json
    integer : ℤ → Json
    decimal : String → Json
    text : String → Json
    array : Items → Json
    object : Members → Json

  pub data Items : Type 0 where
    nil : Items
    cons : Json → Items → Items

  pub data Members : Type 0 where
    end : Members
    member : String → Json → Members → Members

abbrev pub members : Members → List (String × Json)
members end = []
members (member k v ms) = (k, v) ∷ members ms

abbrev pub to_members : List (String × Json) → Members
to_members [] = end
to_members ((k, v) ∷ ms) = member k v (to_members ms)

-- The empty struct.
abbrev pub fields_of_nothing : Json
fields_of_nothing = object end

abbrev pub to_items : List Json → Items
to_items [] = nil
to_items (v ∷ vs) = cons v (to_items vs)

abbrev pub items : Items → List Json
items nil = []
items (cons v vs) = v ∷ items vs

-- A `json.RawMessage`: nil, bytes that are no JSON document with the parser's complaint, or the
-- bytes of a document.
pub data Raw : Type 0 where
  absent : Raw
  malformed : String → Raw
  encoded : Json → Raw

-- Field names are matched up to case folding. Over the ASCII names of the framework's structs two
-- other code points fold onto letters: U+017F onto S and U+212A onto K.
abbrev pub fold_code : ℕ → ℕ
fold_code c =
    if leb b'a' c && leb c b'z'
    then c - 32
    else if nat_eq c 0x17f
    then b'S'
    else if nat_eq c 0x212a
    then b'K'
    else c

abbrev pub fold_name : String → List ℕ
fold_name String.[] = []
fold_name (String.◌∷◌ c s) = fold_code (code c) ∷ fold_name s

abbrev pub same_codes : List ℕ → List ℕ → Bool
same_codes [] [] = true
same_codes (a ∷ s) (b ∷ t) = nat_eq a b && same_codes s t
same_codes _ _ = false

-- Whether a member's key names the struct field.
unfoldable pub names_field : String → String → Bool
names_field field key = same_codes (fold_name field) (fold_name key)

-- How an `UnmarshalTypeError` names the value that it met.
abbrev pub kind : Json → String
kind null = "null"
kind (boolean b) = "bool"
kind (integer n) = "number"
kind (decimal t) = "number"
kind (text t) = "string"
kind (array vs) = "array"
kind (object ms) = "object"
