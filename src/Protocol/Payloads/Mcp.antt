-- ===== src/Protocol/Payloads/Mcp.antt =====
-- framework/protocol/mcp.go: the payloads of `initialize`.
use custom_mcps.Prelude.{
  String, Bool, true, false, Option, none, some, [], ◌∷◌, ◌++◌, Result, ok, if◌then◌else◌,
  result_map,
}
use custom_mcps.Json.{Json, null, text, Raw, names_field}
use custom_mcps.Json.Decode.{decode_struct, unmarshal_struct, decode_text, decode_bool}
use custom_mcps.Protocol.Payloads.Encoding.{text_unless_empty, bool_if_set, unless_nil, fields}

abbrev pub protocol_version : String
protocol_version = "2025-03-26"

pub record Implementation : Type 0 where
  pub name : String
  pub version : String

pub record ToolCapability : Type 0 where
  pub list_changed : Bool

pub record ResourceCapability : Type 0 where
  pub subscribe : Bool
  pub list_changed : Bool

pub record PromptCapability : Type 0 where
  pub list_changed : Bool

-- `Logging` is a pointer to the empty struct: present or not.
pub record ServerCapabilities : Type 0 where
  pub tools : Option ToolCapability
  pub resources : Option ResourceCapability
  pub prompts : Option PromptCapability
  pub logging : Bool

pub record InitializeResult : Type 0 where
  pub version : String
  pub capabilities : ServerCapabilities
  pub server_info : Implementation
  pub instructions : String

abbrev pub encode_implementation : Implementation → Json
encode_implementation i = fields (("name", text i.name) ∷ ("version", text i.version) ∷ [])

abbrev pub encode_capabilities : ServerCapabilities → Json
encode_capabilities c = fields (
    unless_nil "tools" (λ t. fields (bool_if_set "listChanged" t.list_changed)) c.tools
    ++ unless_nil "resources"
        (λ r.
          fields (bool_if_set "subscribe" r.subscribe ++ bool_if_set "listChanged" r.list_changed))
        c.resources
    ++ unless_nil "prompts" (λ p. fields (bool_if_set "listChanged" p.list_changed)) c.prompts
    ++ (if c.logging then ("logging", fields []) ∷ [] else []))

abbrev pub encode_initialize_result : InitializeResult → Json
encode_initialize_result r = fields (
    ("protocolVersion", text r.version)
    ∷ ("capabilities", encode_capabilities r.capabilities)
    ∷ ("serverInfo", encode_implementation r.server_info)
    ∷ text_unless_empty "instructions" r.instructions)

-- What the client sends.

pub record RootCapability : Type 0 where
  pub list_changed : Bool

pub record ClientCapabilities : Type 0 where
  pub roots : Option RootCapability
  pub sampling : Bool

pub record InitializeParams : Type 0 where
  pub version : String
  pub capabilities : ClientCapabilities
  pub client_info : Implementation

abbrev root_step : RootCapability → String → Json → Result RootCapability
root_step r key v =
    if names_field "listChanged" key
    then result_map (λ b. record { list_changed = b })
        (decode_bool "struct field RootCapability.listChanged" r.list_changed v)
    else ok r

abbrev pointed_root : Option RootCapability → RootCapability
pointed_root none = record { list_changed = false }
pointed_root (some r) = r

abbrev decode_roots : Option RootCapability → Json → Result (Option RootCapability)
decode_roots old null = ok none
decode_roots old v =
    result_map some (decode_struct "protocol.RootCapability" root_step (pointed_root old) v)

-- A pointer to the empty struct.
abbrev decode_sampling : Json → Result Bool
decode_sampling null = ok false
decode_sampling v =
    result_map (λ s. true) (decode_struct {S = Unit {0}} "struct {}" (λ s key v. ok s) tt v)

abbrev client_capabilities_step : ClientCapabilities → String → Json → Result ClientCapabilities
client_capabilities_step c key v =
    if names_field "roots" key
    then result_map (λ r. record c { roots = r }) (decode_roots c.roots v)
    else if names_field "sampling" key
    then result_map (λ b. record c { sampling = b }) (decode_sampling v)
    else ok c

abbrev implementation_step : Implementation → String → Json → Result Implementation
implementation_step i key v =
    if names_field "name" key
    then result_map (λ t. record i { name = t })
        (decode_text "struct field Implementation.clientInfo.name" i.name v)
    else if names_field "version" key
    then result_map (λ t. record i { version = t })
        (decode_text "struct field Implementation.clientInfo.version" i.version v)
    else ok i

abbrev initialize_step : InitializeParams → String → Json → Result InitializeParams
initialize_step p key v =
    if names_field "protocolVersion" key
    then result_map (λ t. record p { version = t })
        (decode_text "struct field InitializeParams.protocolVersion" p.version v)
    else if names_field "capabilities" key
    then result_map (λ c. record p { capabilities = c })
        (decode_struct "protocol.ClientCapabilities" client_capabilities_step p.capabilities v)
    else if names_field "clientInfo" key
    then result_map (λ i. record p { client_info = i })
        (decode_struct "protocol.Implementation" implementation_step p.client_info v)
    else ok p

abbrev pub empty_initialize_params : InitializeParams
empty_initialize_params = record {
  version = "";
  capabilities = record { roots = none; sampling = false };
  client_info = record { name = ""; version = "" };
}

unfoldable pub decode_initialize_params : Raw → Result InitializeParams
decode_initialize_params =
    unmarshal_struct "protocol.InitializeParams" initialize_step empty_initialize_params
