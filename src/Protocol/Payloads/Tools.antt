-- ===== src/Protocol/Payloads/Tools.antt =====
-- framework/protocol/tools.go: the payloads of the tool methods.
use custom_mcps.Prelude.{
  String, Bool, Option, none, some, List, [], ◌∷◌, ◌++◌, Result, ok, ◌>>=◌, if◌then◌else◌,
  result_map,
}
use custom_mcps.Json.{Json, null, text, array, to_items, Raw, absent, encoded, names_field}
use custom_mcps.Json.Decode.{unmarshal_struct, decode_text}
use custom_mcps.Protocol.Errors.{AnyValue}
use custom_mcps.Protocol.Message.{encode_raw}
use custom_mcps.Protocol.Payloads.Encoding.{
  text_unless_empty, bool_if_set, fields, encode_each, Slice, encode_slice,
}

pub record ToolInfo : Type 0 where
  pub name : String
  pub description : String
  pub input_schema : Raw

pub record Content : Type 0 where
  pub type : String
  pub text : String
  pub mime_type : String
  pub base64 : String
  pub uri : String

pub record CallToolParams : Type 0 where
  pub name : String
  pub arguments : Raw

pub record CallToolResult : Type 0 where
  pub content : Slice Content
  pub is_error : Bool

abbrev pub text_content : String → Content
text_content t = record { type = "text"; text = t; mime_type = ""; base64 = ""; uri = "" }

abbrev pub image_content : String → String → Content
image_content mime_type base64_data = record {
  type = "image";
  text = "";
  mime_type = mime_type;
  base64 = base64_data;
  uri = "";
}

abbrev pub embedded_resource_content : String → String → String → Content
embedded_resource_content uri mime_type t = record {
  type = "resource";
  text = t;
  mime_type = mime_type;
  base64 = "";
  uri = uri;
}

abbrev pub encode_content : Content → Json
encode_content c = fields (
    ("type", text c.type)
    ∷ (text_unless_empty "text" c.text
        ++ text_unless_empty "mimeType" c.mime_type
        ++ text_unless_empty "data" c.base64
        ++ text_unless_empty "uri" c.uri))

abbrev pub encode_tool_info : ToolInfo → Result Json
encode_tool_info t = encode_raw t.input_schema >>= λ schema. ok (
    fields (
      ("name", text t.name)
      ∷ (text_unless_empty "description" t.description ++ (("inputSchema", schema) ∷ []))))

-- The result of tools/list; the cursor is always empty.
abbrev pub encode_tool_list : List ToolInfo → AnyValue
encode_tool_list ts =
    encode_each encode_tool_info ts >>= λ vs. ok (fields (("tools", array (to_items vs)) ∷ []))

-- A handler may return a nil result, which is written as null.
abbrev pub encode_call_tool_result : Option CallToolResult → AnyValue
encode_call_tool_result none = ok null
encode_call_tool_result (some r) =
    ok (
      fields
        (("content", encode_slice encode_content r.content) ∷ bool_if_set "isError" r.is_error))

abbrev call_tool_step : CallToolParams → String → Json → Result CallToolParams
call_tool_step p key v =
    if names_field "name" key
    then result_map (λ t. record p { name = t })
        (decode_text "struct field CallToolParams.name" p.name v)
    else if names_field "arguments" key
    then ok (record p { arguments = encoded v })
    else ok p

unfoldable pub decode_call_tool_params : Raw → Result CallToolParams
decode_call_tool_params =
    unmarshal_struct "protocol.CallToolParams" call_tool_step
      (record { name = ""; arguments = absent })
