-- ===== src/Cloudflare/Served.antt =====
-- cmd/servers/cloudflare/main.go: the server that `run` hands to `Run`, with its three tools.
use custom_mcps.Prelude.{Option, List, [], ◌∷◌, returns, ◌≡◌, refl, ap, Bool-cases, inl, inr, ◌==◌}
use custom_mcps.Prelude.Maps.{put}
use custom_mcps.Auth.{Env}
use custom_mcps.Json.{encoded}
use custom_mcps.Protocol.Payloads.{ToolInfo}
use custom_mcps.Library.{GoLibrary}
use custom_mcps.World.{MessageHandler}
use custom_mcps.Protocol.Errors.{GoError}
use custom_mcps.Registry.{Registry, GoRuntime, ToolDefinition, empty_registry, list_tools}
use custom_mcps.Registry.Laws.{list_tools-perm}
use custom_mcps.Registry.Typed.{typed_definition, register_tool}
use custom_mcps.Server.{Server}
use custom_mcps.Server.Options.{new_server}
use custom_mcps.Server.Run
use custom_mcps.Server.Typed.{tool}
use custom_mcps.Cloudflare.{Transport, build_server, server_options, load_config}
use custom_mcps.Cloudflare.Inputs.{
  list_zones_input, list_dns_records_input, create_dns_record_input,
}
use custom_mcps.Cloudflare.Published.{
  ReadsNumerals, list_zones_schema, list_dns_records_schema, create_dns_record_schema,
  list_zones_published, list_dns_records_published, create_dns_record_published,
}
use custom_mcps.Cloudflare.Run.{run, server_run, run_server}
use custom_mcps.Cloudflare.Tools.{
  register_tools, handle_list_zones, handle_list_dns_records, handle_create_dns_record,
}
use mathlib.Core.List.{Perm}

built_bare : (H : Type 0) (env : Env) → (build_server {H = H} env).registry ≡ empty_registry
unfolding build_server new_server server_options load_config
built_bare H env = elim (Bool-cases (env "CF_MCP_TOKEN" == "")) [
  | inl no_token ↦ rw no_token refl
  | inr token ↦ rw token refl
]

-- What a client reads of the three tools.
abbrev pub published_tools : List ToolInfo
published_tools =
    record {
      name = "list_zones";
      description = "List Cloudflare DNS zones accessible by the configured API token";
      input_schema = encoded list_zones_schema;
    }
    ∷ record {
      name = "list_dns_records";
      description = "List DNS records for a specific Cloudflare zone";
      input_schema = encoded list_dns_records_schema;
    }
    ∷ record {
      name = "create_dns_record";
      description = "Create a new DNS record in a Cloudflare zone";
      input_schema = encoded create_dns_record_schema;
    }
    ∷ []

module _ (lib : GoLibrary) where
  abbrev pub list_zones_tool : ToolDefinition
  list_zones_tool =
      typed_definition lib list_zones_input "list_zones"
        "List Cloudflare DNS zones accessible by the configured API token" (handle_list_zones lib)
        list_zones_schema

  abbrev pub list_dns_records_tool : ToolDefinition
  list_dns_records_tool =
      typed_definition lib list_dns_records_input "list_dns_records"
        "List DNS records for a specific Cloudflare zone" (handle_list_dns_records lib)
        list_dns_records_schema

  abbrev pub create_dns_record_tool : ToolDefinition
  create_dns_record_tool =
      typed_definition lib create_dns_record_input "create_dns_record"
        "Create a new DNS record in a Cloudflare zone" (handle_create_dns_record lib)
        create_dns_record_schema

  abbrev pub three_tools : Registry
  three_tools = record {
    tools =
        ("list_zones", list_zones_tool)
        ∷ ("list_dns_records", list_dns_records_tool)
        ∷ ("create_dns_record", create_dns_record_tool)
        ∷ [];
    resources = [];
    prompts = [];
  }

  module _ (reads : ReadsNumerals lib) {T H : Type 0} where
    register_tools-empty :
        (s : Server T H)
        → s.registry ≡ empty_registry
        → register_tools lib s ≡ returns (record s { registry = three_tools })
    unfolding register_tools register_tool put tool
    register_tools-empty s bare =
        rw
          (
            list_zones_published lib reads,
            list_dns_records_published lib reads,
            create_dns_record_published lib reads,
            bare,
          )
          refl

  module _ (reads : ReadsNumerals lib) {H : Type 0} where
    -- Where the numerals of the tags are read, `run` never panics, whatever the environment: it runs
    -- the server that the environment describes, whose registry is the three tools, and wraps what
    -- `Run` returns. In any order of the map, the listing is the three tools, each with its name, its
    -- description and its input schema, a JSON document that is written out.
    pub run-three_tools :
        (runtime : GoRuntime) (start : Option (Transport H) → MessageHandler → Option GoError)
        (env : Env)
        → let s : Server (Transport H) H = record (build_server env) { registry = three_tools } in
          (run lib runtime start env ≡ returns (server_run (Run.run runtime s start)))
          × Perm (list_tools runtime s.registry) published_tools
    unfolding run
    run-three_tools runtime start env = (
      ap (run_server lib runtime start)
          (register_tools-empty reads (build_server env) (built_bare H env)),
      list_tools-perm runtime three_tools,
    )
