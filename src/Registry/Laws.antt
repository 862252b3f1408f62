-- ===== src/Registry/Laws.antt =====
-- Registering and looking up: the last registration of a name counts, others stay, and a listing
-- holds exactly the registered definitions, each once, whatever the order of the map.
use custom_mcps.Prelude.{
  String, none, some, List, [], ◌∷◌, map, ◌++◌, append-nil, ◌≡◌, refl, ◌==◌, if◌then◌else◌, arith,
}
use custom_mcps.Prelude.Maps.{get, put, get-put, IsMap, put-IsMap}
use custom_mcps.Registry.{
  Registry, GoRuntime, ToolDefinition, ResourceDefinition, PromptDefinition, register_tool_raw,
  register_resource, register_prompt, list_tools, get_tool, get_resource, get_prompt,
}
use mathlib.Core.List.{Perm, perm_middle}
use mathlib.Core.List.Perm

-- Each name is registered once, under the name in its definition.
abbrev pub Filed {ℓ} : {D : Type ℓ} → (D → String) → List (String × D) → Type 0
Filed key [] = Unit
Filed key ((k, d) ∷ m) = (k ≡ key d) × Filed key m

pub record IsConsistent (r : Registry) : Type 0 where
  pub tools_once : IsMap r.tools
  pub tools_filed : Filed (λ (d : ToolDefinition). d.info.name) r.tools
  pub resources_once : IsMap r.resources
  pub resources_filed : Filed (λ (d : ResourceDefinition). d.info.uri) r.resources
  pub prompts_once : IsMap r.prompts
  pub prompts_filed : Filed (λ (d : PromptDefinition). d.info.name) r.prompts

put-Filed {ℓ} :
    {D : Type ℓ} (key : D → String) (d : D) (m : List (String × D))
    → Filed key m
    → Filed key (put (key d) d m)
unfolding put
put-Filed key d [] h = (refl, tt)
put-Filed key d ((k, e) ∷ m) h = ground (arith, put-Filed key d m h.1)

pub register_tool_raw-IsConsistent :
    (r : Registry) (t : ToolDefinition) → IsConsistent r → IsConsistent (register_tool_raw t r)
unfolding register_tool_raw
register_tool_raw-IsConsistent r t c = record {
  tools_once = put-IsMap t.info.name t r.tools c.tools_once;
  tools_filed = put-Filed (λ (d : ToolDefinition). d.info.name) t r.tools c.tools_filed;
  resources_once = c.resources_once;
  resources_filed = c.resources_filed;
  prompts_once = c.prompts_once;
  prompts_filed = c.prompts_filed;
}

pub register_resource-IsConsistent :
    (r : Registry) (s : ResourceDefinition) → IsConsistent r → IsConsistent (register_resource s r)
unfolding register_resource
register_resource-IsConsistent r s c = record {
  tools_once = c.tools_once;
  tools_filed = c.tools_filed;
  resources_once = put-IsMap s.info.uri s r.resources c.resources_once;
  resources_filed =
      put-Filed (λ (d : ResourceDefinition). d.info.uri) s r.resources c.resources_filed;
  prompts_once = c.prompts_once;
  prompts_filed = c.prompts_filed;
}

pub register_prompt-IsConsistent :
    (r : Registry) (p : PromptDefinition) → IsConsistent r → IsConsistent (register_prompt p r)
unfolding register_prompt
register_prompt-IsConsistent r p c = record {
  tools_once = c.tools_once;
  tools_filed = c.tools_filed;
  resources_once = c.resources_once;
  resources_filed = c.resources_filed;
  prompts_once = put-IsMap p.info.name p r.prompts c.prompts_once;
  prompts_filed = put-Filed (λ (d : PromptDefinition). d.info.name) p r.prompts c.prompts_filed;
}

-- Every registration keeps the registry consistent, whatever is registered.
pub register-IsConsistent :
    (r : Registry) (t : ToolDefinition) (s : ResourceDefinition) (p : PromptDefinition)
    → IsConsistent r
    → IsConsistent (register_tool_raw t r)
      × IsConsistent (register_resource s r)
      × IsConsistent (register_prompt p r)
register-IsConsistent r t s p c = (
  register_tool_raw-IsConsistent r t c,
  register_resource-IsConsistent r s c,
  register_prompt-IsConsistent r p c,
)

-- Looking up a tool after a registration gives the new definition at its name and what was there
-- at every other name; resources and prompts are as before.
pub get_tool-register_tool_raw :
    (r : Registry) (d : ToolDefinition) (name uri : String)
    → (get_tool name (register_tool_raw d r)
        ≡ (if d.info.name == name then some d else get_tool name r))
      × (get_resource uri (register_tool_raw d r) ≡ get_resource uri r)
      × (get_prompt name (register_tool_raw d r) ≡ get_prompt name r)
unfolding get_tool get_resource get_prompt register_tool_raw
get_tool-register_tool_raw r d name uri = (get-put d.info.name name d r.tools, refl, refl)

put_new {ℓ} :
    {V : Type ℓ} (k : String) (v : V) (m : List (String × V))
    → get k m ≡ none
    → put k v m ≡ m ++ ((k, v) ∷ [])
unfolding get put
put_new k v [] h = refl
put_new k v ((j, w) ∷ m) h = ground (arith, put_new k v m)

pub list_tools-perm :
    (runtime : GoRuntime) (r : Registry) → Perm (list_tools runtime r) (map (λ e. e.1.info) r.tools)
unfolding list_tools
list_tools-perm runtime r = Perm.map _ (runtime.order_perm ToolDefinition r.tools)

-- Registering a tool under a new name adds its information to the listing, once, and keeps the
-- rest, in whatever order the two listings come.
pub list_tools-register_tool_raw :
    (runtime : GoRuntime) (r : Registry) (d : ToolDefinition)
    → get_tool d.info.name r ≡ none
    → Perm (list_tools runtime (register_tool_raw d r)) (d.info ∷ list_tools runtime r)
unfolding get_tool register_tool_raw
list_tools-register_tool_raw runtime r d h =
    Perm.trans (list_tools-perm runtime (register_tool_raw d r))
      (Perm.trans (Perm.map _ entries) (Perm.cons d.info (Perm.symm (list_tools-perm runtime r))))
  where
    entries : Perm (put d.info.name d r.tools) ((d.info.name, d) ∷ r.tools)
    entries =
        rw (put_new d.info.name d r.tools h)
          (rw append-nil at (perm_middle {a = (d.info.name, d)} r.tools []))
