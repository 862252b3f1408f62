-- ===== src/Registry.antt =====
-- framework/registry: the tools, resources and prompts of a server (registry.go, tool.go,
-- resource.go, prompt.go). Handlers are user code: functions of the context and the parameters.
pub mod Laws
pub mod Trace
pub mod Typed
use custom_mcps.Prelude.{String, Option, List, [], ◌∷◌, map, Outcome}
use custom_mcps.Prelude.Maps.{get, put}
use custom_mcps.Json.{Raw}
use custom_mcps.Json.Decode.{AnyReader}
use custom_mcps.Context.{Context}
use custom_mcps.Protocol.Errors.{Call}
use custom_mcps.Protocol.Payloads.{
  ToolInfo, CallToolResult, ResourceInfo, ReadResourceResult, PromptInfo, GetPromptResult,
}
use mathlib.Core.List.{Perm}

abbrev pub ToolHandler : Type 0
ToolHandler = Context → Raw → Outcome (Call (Option CallToolResult))

abbrev pub ResourceHandler : Type 0
ResourceHandler = Context → String → Outcome (Call (Option ReadResourceResult))

abbrev pub PromptHandler : Type 0
PromptHandler = Context → List (String × String) → Outcome (Call (Option GetPromptResult))

pub record ToolDefinition : Type 0 where
  pub info : ToolInfo
  pub handler : ToolHandler

pub record ResourceDefinition : Type 0 where
  pub info : ResourceInfo
  pub handler : ResourceHandler

pub record PromptDefinition : Type 0 where
  pub info : PromptInfo
  pub handler : PromptHandler

pub record Registry : Type 0 where
  pub tools : List (String × ToolDefinition)
  pub resources : List (String × ResourceDefinition)
  pub prompts : List (String × PromptDefinition)

-- What Go leaves to its runtime and its library: the order in which `range` goes over a map, some
-- permutation of its entries, and what encoding/json reads into an `any`.
pub record GoRuntime : Type 1 where
  pub read_any : AnyReader
  pub order : (V : Type 0) → List (String × V) → List (String × V)
  pub order_perm : (V : Type 0) (m : List (String × V)) → Perm (order V m) m

-- `New`
abbrev pub empty_registry : Registry
empty_registry = record { tools = []; resources = []; prompts = [] }

unfoldable pub register_tool_raw : ToolDefinition → Registry → Registry
register_tool_raw d r = record r { tools = put d.info.name d r.tools }

unfoldable pub register_resource : ResourceDefinition → Registry → Registry
register_resource d r = record r { resources = put d.info.uri d r.resources }

unfoldable pub register_prompt : PromptDefinition → Registry → Registry
register_prompt d r = record r { prompts = put d.info.name d r.prompts }

unfoldable pub list_tools : GoRuntime → Registry → List ToolInfo
list_tools runtime r = map (λ e. e.1.info) (runtime.order ToolDefinition r.tools)

unfoldable pub get_tool : String → Registry → Option ToolDefinition
get_tool name r = get name r.tools

unfoldable pub list_resources : GoRuntime → Registry → List ResourceInfo
list_resources runtime r = map (λ e. e.1.info) (runtime.order ResourceDefinition r.resources)

unfoldable pub get_resource : String → Registry → Option ResourceDefinition
get_resource uri r = get uri r.resources

unfoldable pub list_prompts : GoRuntime → Registry → List PromptInfo
list_prompts runtime r = map (λ e. e.1.info) (runtime.order PromptDefinition r.prompts)

unfoldable pub get_prompt : String → Registry → Option PromptDefinition
get_prompt name r = get name r.prompts
