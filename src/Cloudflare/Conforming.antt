-- ===== src/Cloudflare/Conforming.antt =====
-- cmd/servers/cloudflare/tools.go: arguments that fit the published schema of a tool decode.
use custom_mcps.Prelude.{
  String, true, false, List, [], ◌∷◌, ok, err, ◌≡◌, refl, sym, ◌∙◌, arith, ◌⊎◌, inl, inr, ◌<>◌,
}
use custom_mcps.Prelude.Int.{ℤ, is_int64, itoa}
use custom_mcps.Json.Decode.{mismatch}
use custom_mcps.Prelude.Maps.{put}
use custom_mcps.Prelude.Text.{split, trim_space}
use custom_mcps.Json.{Json, integer, decimal, object, member, end, encoded, names_field}
use custom_mcps.Json.Numerals.{is_whole}
use custom_mcps.Library.{GoLibrary}
use custom_mcps.Registry.Typed.{Input, read_input}
use custom_mcps.Schema.Tags.{apply_json_schema_tag, set_keyword, parse_default}
use custom_mcps.Schema.Generate.{generate}
use custom_mcps.Schema.Validate.{allows, is_plain, type_allows}
use custom_mcps.Schema.Validate.Shape.{IsOk, shape, good_member, names_of, shape-unmarshal_struct}
use custom_mcps.Cloudflare.Inputs.{
  ListZonesInput, ListDnsRecordsInput, CreateDnsRecordInput, list_zones_input,
  list_dns_records_input, create_dns_record_input, list_zones_step, list_zones_zero,
  list_dns_records_step, create_dns_record_step, list_dns_records_zero, create_dns_record_zero,
}
use custom_mcps.Cloudflare.Published.{ReadsNumerals}

abbrev zones_types : List (String × String)
zones_types = ("page", "integer") ∷ ("perPage", "integer") ∷ []

abbrev records_types : List (String × String)
records_types = ("zoneId", "string") ∷ ("recordType", "string") ∷ ("name", "string") ∷ []

abbrev create_types : List (String × String)
create_types =
    ("zoneId", "string")
    ∷ ("type", "string")
    ∷ ("name", "string")
    ∷ ("content", "string")
    ∷ ("ttl", "integer")
    ∷ ("proxied", "boolean")
    ∷ []

zones_step-IsOk :
    (i : ListZonesInput) (k : String) (v : Json)
    → good_member zones_types k v ≡ true
    → IsOk (list_zones_step i k v)
unfolding type_allows
zones_step-IsOk i k v h = ground arith

records_step-IsOk :
    (i : ListDnsRecordsInput) (k : String) (v : Json)
    → good_member records_types k v ≡ true
    → IsOk (list_dns_records_step i k v)
unfolding type_allows
records_step-IsOk i k v h = ground arith

create_step-IsOk :
    (i : CreateDnsRecordInput) (k : String) (v : Json)
    → good_member create_types k v ≡ true
    → IsOk (create_dns_record_step i k v)
unfolding type_allows
create_step-IsOk i k v h = ground arith

module _ (lib : GoLibrary) (reads : ReadsNumerals lib) where
  zones_shape :
      (v : Json)
      → allows (generate lib.parse_float list_zones_input.type) v ≡ allows (shape zones_types) v
  unfolding allows generate put apply_json_schema_tag set_keyword split trim_space parse_default
  zones_shape v = rw (reads.one, reads.five, reads.fifty) refl

  records_shape :
      (v : Json)
      → allows (generate lib.parse_float list_dns_records_input.type) v
        ≡ allows (shape records_types) v
  unfolding allows generate put apply_json_schema_tag set_keyword split trim_space parse_default
  records_shape v = refl

  create_shape :
      (v : Json)
      → allows (generate lib.parse_float create_dns_record_input.type) v
        ≡ allows (shape create_types) v
  unfolding allows generate put apply_json_schema_tag set_keyword split trim_space parse_default
  create_shape v = rw reads.one refl

-- An object with a page in it.
abbrev pub page_of : Json → Json
page_of v = object (member "page" v end)

-- A whole number that an `int` is not read from: one out of its range, or one that is written with a
-- point or an exponent.
abbrev pub IsUnreadable : Json → Type 0
IsUnreadable v =
    ((n : ℤ) × (is_int64 n ≡ false) × (v ≡ integer n))
    ⊎ ((t : String) × (is_whole t ≡ true) × (v ≡ decimal t))

abbrev literal : Json → String
literal (integer n) = itoa n
literal (decimal t) = t
literal v = ""

-- The decoder's text for a page that is no `int`.
abbrev pub page_error : Json → String
page_error v = mismatch ("number " <> literal v) "struct field ListZonesInput.page of type int"

unreadable-allows : (v : Json) → IsUnreadable v → allows (shape zones_types) (page_of v) ≡ true
unfolding allows type_allows
unreadable-allows v (inl (n, _, e)) = rw e refl
unreadable-allows v (inr (t, whole, e)) = rw (e, whole) refl

module _ (lib : GoLibrary) where
  pub page_of-allows :
      (reads : ReadsNumerals lib) (v : Json)
      → IsUnreadable v
      → allows (generate lib.parse_float list_zones_input.type) (page_of v) ≡ true
  page_of-allows reads v h = zones_shape lib reads (page_of v) ∙ unreadable-allows v h

  pub page_of-read_input :
      (v : Json)
      → IsUnreadable v
      → read_input lib list_zones_input (encoded (page_of v)) ≡ err (page_error v)
  unfolding names_field
  page_of-read_input v (inl (n, out, e)) = rw (e, out) refl
  page_of-read_input v (inr (t, whole, e)) = rw e refl

-- The tools of the server.
pub data DnsTool : Type 0 where
  list_zones : DnsTool
  list_dns_records : DnsTool
  create_dns_record : DnsTool

abbrev pub InputOf : DnsTool → Type 0
InputOf list_zones = ListZonesInput
InputOf list_dns_records = ListDnsRecordsInput
InputOf create_dns_record = CreateDnsRecordInput

abbrev pub input_of : (d : DnsTool) → Input (InputOf d)
input_of list_zones = list_zones_input
input_of list_dns_records = list_dns_records_input
input_of create_dns_record = create_dns_record_input

abbrev types_of : DnsTool → List (String × String)
types_of list_zones = zones_types
types_of list_dns_records = records_types
types_of create_dns_record = create_types

-- The names that the published schema has.
abbrev pub argument_names : DnsTool → List String
argument_names d = names_of (types_of d)

module _ (lib : GoLibrary) (reads : ReadsNumerals lib) where
  -- Arguments that fit the input schema of a tool, in the spelling of its properties and with
  -- integers of 64 bits, without point and exponent, decode into its input struct.
  pub allows-read_input :
      (d : DnsTool) (v : Json)
      → allows (generate lib.parse_float (input_of d).type) v ≡ true
      → is_plain (argument_names d) v ≡ true
      → (x : InputOf d) × (read_input lib (input_of d) (encoded v) ≡ ok x)
  allows-read_input list_zones v h plain =
      shape-unmarshal_struct "main.ListZonesInput" list_zones_step list_zones_zero zones_types v
        zones_step-IsOk (sym (zones_shape lib reads v) ∙ h) plain
  allows-read_input list_dns_records v h plain =
      shape-unmarshal_struct "main.ListDNSRecordsInput" list_dns_records_step list_dns_records_zero
        records_types v records_step-IsOk (sym (records_shape lib reads v) ∙ h) plain
  allows-read_input create_dns_record v h plain =
      shape-unmarshal_struct "main.CreateDNSRecordInput" create_dns_record_step
        create_dns_record_zero create_types v create_step-IsOk (sym (create_shape lib reads v) ∙ h)
        plain
