-- ===== src/Schema/Generate/Flatten.antt =====
-- Embedded structs are flattened into the struct around them.
use custom_mcps.Prelude.{
  String, Bool, true, false, Option, none, some, ◌≡◌, refl, ap, ◌∙◌, sym, Bool-cases, inl, inr,
  if◌then◌else◌,
}
use custom_mcps.Protocol.Errors.{AnyValue}
use custom_mcps.Schema.Tags.{
  StructField, GoType, pointer, struct, basic, time, raw_message, slice, map_of, Fields, end, field,
}
use custom_mcps.Schema.Generate.{
  Root, empty_root, object_schema, process_field, process_struct_fields, process_embedded, generate,
  schema_from_type,
}

-- The fields of a struct behind any pointers.
abbrev pub behind : GoType → Option Fields
behind (pointer t) = behind t
behind (struct fs) = some fs
behind _ = none

abbrev pub append_fields : Fields → Fields → Fields
append_fields end gs = gs
append_fields (field f t fs) gs = field f t (append_fields fs gs)

module _ (parse_float : String → Option AnyValue) where
  process_struct_fields-append :
      (fs gs : Fields) (root : Root)
      → process_struct_fields parse_float (append_fields fs gs) root
        ≡ process_struct_fields parse_float gs (process_struct_fields parse_float fs root)
  unfolding process_struct_fields
  process_struct_fields-append end gs root = refl
  process_struct_fields-append (field f t fs) gs root = process_struct_fields-append fs gs (
      process_field parse_float f t (schema_from_type parse_float t)
        (process_embedded parse_float t root) root)

  process_embedded_lem :
      (t : GoType) (fs : Fields) (root : Root)
      → behind t ≡ some fs
      → process_embedded parse_float t root ≡ some (process_struct_fields parse_float fs root)
  unfolding process_struct_fields
  process_embedded_lem (pointer t) fs root h = process_embedded_lem t fs root h
  process_embedded_lem (struct gs) fs root h = cc
  process_embedded_lem time fs root h = cc
  process_embedded_lem (basic k) fs root h = cc
  process_embedded_lem raw_message fs root h = cc
  process_embedded_lem (slice t) fs root h = cc
  process_embedded_lem (map_of t) fs root h = cc

  -- An anonymous field whose type is a struct, behind pointers or not, gives the schema that the
  -- fields of the struct would give in its place if the field is exported, and none of them if it is
  -- not. Its tags do not count, a json tag that names it or takes it out included.
  pub generate-embedded :
      (f : StructField) (t : GoType) (inner fs before : Fields)
      → f.anonymous ≡ true
      → behind t ≡ some inner
      → generate parse_float (struct (append_fields before (field f t fs)))
        ≡ generate parse_float
            (struct (append_fields before (if f.is_exported then append_fields inner fs else fs)))
  unfolding generate process_struct_fields
  generate-embedded f t inner fs before anonymous struct_ =
      let root = process_struct_fields parse_float before empty_root in
      ap object_schema (
        process_struct_fields-append before (field f t fs) empty_root
        ∙ ap (process_struct_fields parse_float fs) (embedded root)
        ∙ in_place f.is_exported root
        ∙ sym (
            process_struct_fields-append before
              (if f.is_exported then append_fields inner fs else fs) empty_root))
    where
      embedded :
          (root : Root)
          → process_field parse_float f t
              (schema_from_type parse_float t)
              (process_embedded parse_float t root)
              root
            ≡ (if f.is_exported then process_struct_fields parse_float inner root else root)
      embedded root = elim (Bool-cases f.is_exported) [
        | inl exported ↦
            rw (exported, anonymous, process_embedded_lem t inner root struct_, process_field)
        | inr hidden ↦ rw (hidden, process_field)
      ]

      in_place :
          (b : Bool) (root : Root)
          → process_struct_fields parse_float fs
              (if b then process_struct_fields parse_float inner root else root)
            ≡ process_struct_fields parse_float (if b then append_fields inner fs else fs) root
      in_place true root = sym (process_struct_fields-append inner fs root)
      in_place false root = refl
