-- ===== src/Context.antt =====
-- `context.Context` as far as the program reads it: the values that it carries.
use custom_mcps.Prelude.{String, Option, List}
use custom_mcps.Prelude.Maps.{get, put}

pub record Context : Type 0 where
  pub values : List (String × String)

-- `context.WithValue`
unfoldable pub with_value : Context → String → String → Context
with_value ctx key v = record { values = put key v ctx.values }

-- `ctx.Value`
unfoldable pub value_of : Context → String → Option String
value_of ctx key = get key ctx.values
