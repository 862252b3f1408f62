-- ===== src/Tests/Print.antt =====
-- A printer of documents, for the theorems about the texts that tools answer with.
use custom_mcps.Prelude.{String, true, false, ◌<>◌}
use custom_mcps.Prelude.Int.{itoa}
use custom_mcps.Json.{
  Json, null, boolean, integer, decimal, text, array, object, Items, nil, cons, Members, end,
  member,
}

-- Without spaces, and with texts as they are.
unfoldable mutual
  unfolding itoa

  pub print : Json → String
  print null = "null"
  print (boolean true) = "true"
  print (boolean false) = "false"
  print (integer n) = itoa n
  print (decimal t) = t
  print (text t) = "'" <> t <> "'"
  print (array vs) = "[" <> print_items vs <> "]"
  print (object ms) = "{" <> print_members ms <> "}"

  pub print_items : Items → String
  print_items nil = ""
  print_items (cons v vs) = print v <> "," <> print_items vs

  pub print_members : Members → String
  print_members end = ""
  print_members (member k v ms) = k <> ":" <> print v <> "," <> print_members ms
