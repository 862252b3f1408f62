-- ===== src/Protocol/Payloads/Resources.antt =====
-- framework/protocol/resources.go: the payloads of the resource methods.
use custom_mcps.Prelude.{
  String, Option, none, some, List, [], ◌∷◌, ◌++◌, Result, ok, if◌then◌else◌, result_map,
}
use custom_mcps.Json.{Json, null, text, array, to_items, Raw, names_field}
use custom_mcps.Json.Decode.{unmarshal_struct, decode_text}
use custom_mcps.Protocol.Errors.{AnyValue}
use custom_mcps.Protocol.Payloads.Encoding.{
  text_unless_empty, fields, map_json, Slice, encode_slice,
}

pub record ResourceInfo : Type 0 where
  pub uri : String
  pub name : String
  pub description : String
  pub mime_type : String

-- A template of URIs, which the server has no method for.
pub record ResourceTemplate : Type 0 where
  pub uri_template : String
  pub name : String
  pub description : String
  pub mime_type : String

pub record ResourceTemplateListResult : Type 0 where
  pub resource_templates : Slice ResourceTemplate
  pub next_cursor : String

pub record ResourceContent : Type 0 where
  pub uri : String
  pub mime_type : String
  pub text : String
  pub blob : String

pub record ReadResourceParams : Type 0 where
  pub uri : String

pub record ReadResourceResult : Type 0 where
  pub contents : Slice ResourceContent

abbrev pub encode_resource_info : ResourceInfo → Json
encode_resource_info r = fields (
    ("uri", text r.uri)
    ∷ ("name", text r.name)
    ∷ (text_unless_empty "description" r.description ++ text_unless_empty "mimeType" r.mime_type))

abbrev pub encode_resource_list : List ResourceInfo → AnyValue
encode_resource_list rs =
    ok (fields (("resources", array (to_items (map_json encode_resource_info rs))) ∷ []))

abbrev pub encode_resource_template : ResourceTemplate → Json
encode_resource_template t = fields (
    ("uriTemplate", text t.uri_template)
    ∷ ("name", text t.name)
    ∷ (text_unless_empty "description" t.description ++ text_unless_empty "mimeType" t.mime_type))

abbrev pub encode_resource_template_list : ResourceTemplateListResult → AnyValue
encode_resource_template_list r = ok (
    fields (
      ("resourceTemplates", encode_slice encode_resource_template r.resource_templates)
      ∷ text_unless_empty "nextCursor" r.next_cursor))

abbrev pub encode_resource_content : ResourceContent → Json
encode_resource_content c = fields (
    ("uri", text c.uri)
    ∷ (text_unless_empty "mimeType" c.mime_type
        ++ text_unless_empty "text" c.text
        ++ text_unless_empty "blob" c.blob))

abbrev pub encode_read_resource_result : Option ReadResourceResult → AnyValue
encode_read_resource_result none = ok null
encode_read_resource_result (some r) =
    ok (fields (("contents", encode_slice encode_resource_content r.contents) ∷ []))

abbrev read_resource_step : ReadResourceParams → String → Json → Result ReadResourceParams
read_resource_step p key v =
    if names_field "uri" key
    then result_map (λ t. record { uri = t })
        (decode_text "struct field ReadResourceParams.uri" p.uri v)
    else ok p

unfoldable pub decode_read_resource_params : Raw → Result ReadResourceParams
decode_read_resource_params =
    unmarshal_struct "protocol.ReadResourceParams" read_resource_step (record { uri = "" })
