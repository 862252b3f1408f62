-- ===== src/Protocol/Payloads/Prompts.antt =====
-- framework/protocol/prompts.go: the payloads of the prompt methods.
use custom_mcps.Prelude.{
  String, Bool, Option, none, some, List, [], ◌∷◌, ◌++◌, Result, ok, err, if◌then◌else◌, result_map,
}
use custom_mcps.Json.{Json, null, text, array, object, members, to_items, Raw, kind, names_field}
use custom_mcps.Json.Decode.{mismatch, unmarshal_struct, decode_text, decode_text_map}
use custom_mcps.Protocol.Errors.{AnyValue}
use custom_mcps.Protocol.Payloads.Encoding.{
  text_unless_empty, bool_if_set, fields, map_json, Slice, encode_slice,
}
use custom_mcps.Protocol.Payloads.Tools.{Content, encode_content}

pub record PromptArgument : Type 0 where
  pub name : String
  pub description : String
  pub required : Bool

pub record PromptInfo : Type 0 where
  pub name : String
  pub description : String
  pub arguments : List PromptArgument

pub record GetPromptParams : Type 0 where
  pub name : String
  pub arguments : List (String × String)

pub record PromptMessage : Type 0 where
  pub role : String
  pub content : Content

pub record GetPromptResult : Type 0 where
  pub description : String
  pub messages : Slice PromptMessage

abbrev pub encode_prompt_argument : PromptArgument → Json
encode_prompt_argument a = fields (
    ("name", text a.name)
    ∷ (text_unless_empty "description" a.description ++ bool_if_set "required" a.required))

-- `omitempty` on a slice leaves an empty one out.
abbrev pub encode_prompt_arguments : List PromptArgument → List (String × Json)
encode_prompt_arguments [] = []
encode_prompt_arguments given =
    ("arguments", array (to_items (map_json encode_prompt_argument given))) ∷ []

abbrev pub encode_prompt_info : PromptInfo → Json
encode_prompt_info p = fields (
    ("name", text p.name)
    ∷ (text_unless_empty "description" p.description ++ encode_prompt_arguments p.arguments))

abbrev pub encode_prompt_list : List PromptInfo → AnyValue
encode_prompt_list ps =
    ok (fields (("prompts", array (to_items (map_json encode_prompt_info ps))) ∷ []))

abbrev pub encode_prompt_message : PromptMessage → Json
encode_prompt_message m =
    fields (("role", text m.role) ∷ ("content", encode_content m.content) ∷ [])

abbrev pub encode_get_prompt_result : Option GetPromptResult → AnyValue
encode_get_prompt_result none = ok null
encode_get_prompt_result (some r) = ok (
    fields (
      text_unless_empty "description" r.description
      ++ (("messages", encode_slice encode_prompt_message r.messages) ∷ [])))

abbrev decode_prompt_arguments : List (String × String) → Json → Result (List (String × String))
decode_prompt_arguments old null = ok []
decode_prompt_arguments old (object ms) =
    decode_text_map "struct field GetPromptParams.arguments" old (members ms)
decode_prompt_arguments old v =
    err (mismatch (kind v) "struct field GetPromptParams.arguments of type map[string]string")

abbrev get_prompt_step : GetPromptParams → String → Json → Result GetPromptParams
get_prompt_step p key v =
    if names_field "name" key
    then result_map (λ t. record p { name = t })
        (decode_text "struct field GetPromptParams.name" p.name v)
    else if names_field "arguments" key
    then result_map (λ m. record p { arguments = m }) (decode_prompt_arguments p.arguments v)
    else ok p

unfoldable pub decode_get_prompt_params : Raw → Result GetPromptParams
decode_get_prompt_params =
    unmarshal_struct "protocol.GetPromptParams" get_prompt_step
      (record { name = ""; arguments = [] })
