-- ===== src/Registry/Trace.antt =====
-- The registry as three maps, over any sequence of registrations.
use custom_mcps.Prelude.{
  String, Option, none, some, List, [], ◌∷◌, ◌≡◌, refl, ap, ◌∙◌, ◌==◌, if◌then◌else◌,
}
use custom_mcps.Prelude.Maps.{get, get-put}
use custom_mcps.Registry.{
  Registry, ToolDefinition, ResourceDefinition, PromptDefinition, register_tool_raw,
  register_resource, register_prompt, get_tool, get_resource, get_prompt, empty_registry,
}
use custom_mcps.Registry.Laws.{
  IsConsistent, register_tool_raw-IsConsistent, register_resource-IsConsistent,
  register_prompt-IsConsistent,
}

pub data Registration : Type 0 where
  tool : ToolDefinition → Registration
  resource : ResourceDefinition → Registration
  prompt : PromptDefinition → Registration

abbrev pub register : Registration → Registry → Registry
register (tool d) r = register_tool_raw d r
register (resource d) r = register_resource d r
register (prompt d) r = register_prompt d r

abbrev pub register_all : List Registration → Registry → Registry
register_all [] r = r
register_all (x ∷ xs) r = register_all xs (register x r)

-- The last definition of a name, or the one from before.
abbrev pub last_tool : String → List Registration → Option ToolDefinition → Option ToolDefinition
last_tool name [] old = old
last_tool name (tool d ∷ xs) old = last_tool name xs (if d.info.name == name then some d else old)
last_tool name (resource d ∷ xs) old = last_tool name xs old
last_tool name (prompt d ∷ xs) old = last_tool name xs old

abbrev pub last_resource :
    String → List Registration → Option ResourceDefinition → Option ResourceDefinition
last_resource uri [] old = old
last_resource uri (tool d ∷ xs) old = last_resource uri xs old
last_resource uri (resource d ∷ xs) old =
    last_resource uri xs (if d.info.uri == uri then some d else old)
last_resource uri (prompt d ∷ xs) old = last_resource uri xs old

abbrev pub last_prompt :
    String → List Registration → Option PromptDefinition → Option PromptDefinition
last_prompt name [] old = old
last_prompt name (tool d ∷ xs) old = last_prompt name xs old
last_prompt name (resource d ∷ xs) old = last_prompt name xs old
last_prompt name (prompt d ∷ xs) old =
    last_prompt name xs (if d.info.name == name then some d else old)

get_tool-register_all :
    (name : String) (xs : List Registration) (r : Registry)
    → get_tool name (register_all xs r) ≡ last_tool name xs (get_tool name r)
unfolding get_tool register_tool_raw register_resource register_prompt
get_tool-register_all name [] r = refl
get_tool-register_all name (tool d ∷ xs) r =
    get_tool-register_all name xs (register_tool_raw d r)
    ∙ ap (last_tool name xs) (get-put d.info.name name d r.tools)
get_tool-register_all name (resource d ∷ xs) r =
    get_tool-register_all name xs (register_resource d r)
get_tool-register_all name (prompt d ∷ xs) r = get_tool-register_all name xs (register_prompt d r)

get_resource-register_all :
    (uri : String) (xs : List Registration) (r : Registry)
    → get_resource uri (register_all xs r) ≡ last_resource uri xs (get_resource uri r)
unfolding get_resource register_tool_raw register_resource register_prompt
get_resource-register_all uri [] r = refl
get_resource-register_all uri (tool d ∷ xs) r =
    get_resource-register_all uri xs (register_tool_raw d r)
get_resource-register_all uri (resource d ∷ xs) r =
    get_resource-register_all uri xs (register_resource d r)
    ∙ ap (last_resource uri xs) (get-put d.info.uri uri d r.resources)
get_resource-register_all uri (prompt d ∷ xs) r =
    get_resource-register_all uri xs (register_prompt d r)

get_prompt-register_all :
    (name : String) (xs : List Registration) (r : Registry)
    → get_prompt name (register_all xs r) ≡ last_prompt name xs (get_prompt name r)
unfolding get_prompt register_tool_raw register_resource register_prompt
get_prompt-register_all name [] r = refl
get_prompt-register_all name (tool d ∷ xs) r =
    get_prompt-register_all name xs (register_tool_raw d r)
get_prompt-register_all name (resource d ∷ xs) r =
    get_prompt-register_all name xs (register_resource d r)
get_prompt-register_all name (prompt d ∷ xs) r =
    get_prompt-register_all name xs (register_prompt d r)
    ∙ ap (last_prompt name xs) (get-put d.info.name name d r.prompts)

register_all-IsConsistent :
    (xs : List Registration) (r : Registry) → IsConsistent r → IsConsistent (register_all xs r)
register_all-IsConsistent [] r c = c
register_all-IsConsistent (tool d ∷ xs) r c =
    register_all-IsConsistent xs (register_tool_raw d r) (register_tool_raw-IsConsistent r d c)
register_all-IsConsistent (resource d ∷ xs) r c =
    register_all-IsConsistent xs (register_resource d r) (register_resource-IsConsistent r d c)
register_all-IsConsistent (prompt d ∷ xs) r c =
    register_all-IsConsistent xs (register_prompt d r) (register_prompt-IsConsistent r d c)

-- After any sequence of registrations on an empty registry, each lookup gives the last definition
-- that was registered under the name, in its own kind, and nothing where there was none; and every
-- name stands once, and under the name of its definition.
pub register_all_lem :
    (xs : List Registration) (name : String)
    → let r = register_all xs empty_registry in
      (get_tool name r ≡ last_tool name xs none)
      × (get_resource name r ≡ last_resource name xs none)
      × (get_prompt name r ≡ last_prompt name xs none)
      × IsConsistent r
unfolding get_tool get_resource get_prompt get
register_all_lem xs name = (
  get_tool-register_all name xs empty_registry,
  get_resource-register_all name xs empty_registry,
  get_prompt-register_all name xs empty_registry,
  register_all-IsConsistent xs empty_registry (record {
    tools_once = tt;
    tools_filed = tt;
    resources_once = tt;
    resources_filed = tt;
    prompts_once = tt;
    prompts_filed = tt;
  }),
)
