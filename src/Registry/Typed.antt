-- ===== src/Registry/Typed.antt =====
-- framework/registry/tool.go: the registration of a typed tool (RegisterTool), whose input schema
-- is generated from its input struct and whose handler gets a decoded value.
use custom_mcps.Prelude.{
  String, Option, some, ok, err, Result, Outcome, returns, panics, ◌<>◌, ◌≡◌, refl, if◌then◌else◌,
  ◌==◌,
}
use custom_mcps.Prelude.Maps.{put, get-put}
use custom_mcps.Json.{Json, Raw, absent, encoded}
use custom_mcps.Library.{GoLibrary}
use custom_mcps.Context.{Context}
use custom_mcps.Protocol.Errors.{Call, error, wrap, plain}
use custom_mcps.Protocol.Payloads.{CallToolResult}
use custom_mcps.Schema.{encode_schema}
use custom_mcps.Schema.Tags.{GoType}
use custom_mcps.Schema.Generate.{generate}
use custom_mcps.Registry.{Registry, ToolHandler, ToolDefinition, get_tool}

-- An input struct: what reflection says of it, its zero value, and `json.Unmarshal` into it.
pub record Input (T : Type 0) : Type 0 where
  pub type : GoType
  pub zero : T
  pub unmarshal : Raw → Result T

abbrev pub TypedHandler : Type 0 → Type 0
TypedHandler T = Context → T → Outcome (Call (Option CallToolResult))

module _ (lib : GoLibrary) {T : Type 0} (input : Input T) where
  -- Empty parameters leave the zero value.
  abbrev pub read_input : Raw → Result T
  read_input absent = ok input.zero
  read_input params = input.unmarshal params

  abbrev pub after_decoding :
      String → TypedHandler T → Context → Result T → Outcome (Call (Option CallToolResult))
  after_decoding name handler ctx (ok x) = handler ctx x
  after_decoding name handler ctx (err e) =
      returns (error (wrap ("invalid parameters for tool " <> lib.quote name <> ": ") (plain e)))

  -- The handler that is registered.
  unfoldable pub wrapped : String → TypedHandler T → ToolHandler
  wrapped name handler ctx params = after_decoding name handler ctx (read_input params)

  abbrev pub typed_definition : (name description : String) → TypedHandler T → Json → ToolDefinition
  typed_definition name description handler schema = record {
    info = record { name = name; description = description; input_schema = encoded schema };
    handler = wrapped name handler;
  }

  abbrev pub with_schema :
      (name description : String) → TypedHandler T → Registry → Result Json → Outcome Registry
  with_schema name description handler r (err e) =
      panics ("registry: failed to marshal schema for tool " <> lib.quote name <> ": " <> e)
  with_schema name description handler r (ok schema) =
      returns
        (record r { tools = put name (typed_definition name description handler schema) r.tools })

  unfoldable pub register_tool :
      (name description : String) → TypedHandler T → Registry → Outcome Registry
  register_tool name description handler r =
      with_schema name description handler r (encode_schema (generate lib.parse_float input.type))

  -- If the schema can be written, the registration returns, and the tool is found under its name
  -- with that schema; every other name gives what it gave.
  pub get_tool-register_tool :
      (name description other : String) (handler : TypedHandler T) (r : Registry) (schema : Json)
      → encode_schema (generate lib.parse_float input.type) ≡ ok schema
      → (r' : Registry) × (register_tool name description handler r ≡ returns r')
        × (get_tool other r' ≡ (
            if name == other
            then some (typed_definition name description handler schema)
            else get_tool other r))
        × (r'.resources ≡ r.resources)
        × (r'.prompts ≡ r.prompts)
  unfolding register_tool get_tool
  get_tool-register_tool name description other handler r schema e =
      rw e (_, refl, get-put name other _ r.tools, refl, refl)
