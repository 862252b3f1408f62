-- ===== src/Schema/Generate/Laws.antt =====
-- Every schema that is generated is consistent, at every depth.
use custom_mcps.Prelude.{
  String, true, false, Option, none, some, List, [], ◌∷◌, ◌≡◌, refl, subst, sym, All, Bool,
  All-append, ◌==◌, ap, ◌∙◌, ◌⊎◌, inl, inr, text_cases, Bool-cases, Option-cases,
}
use custom_mcps.Prelude.Maps.{get, put, IsMap, put-IsMap, get-put}
use custom_mcps.Protocol.Errors.{AnyValue}
use custom_mcps.Schema.{
  JsonSchema, json_schema, SubSchema, missing, sub, Properties, no_properties, property, properties,
  to_properties, keywords, with_keywords,
}
use custom_mcps.Schema.Tags.{
  StructField, GoType, pointer, struct, basic, time, raw_message, slice, map_of, Fields, end, field,
  apply_json_schema_tag,
}
use custom_mcps.Schema.Tags.Laws.{apply_json_schema_tag-SameFrame}
use custom_mcps.Schema.Generate.{
  Root, empty_root, object_schema, process_field, process_struct_fields, process_embedded, generate,
  schema_from_type, named_field, with_tag, add_required, property_name, tag_or_empty,
}

-- A property of this name.
abbrev pub Has : String → List (String × JsonSchema) → Type 0
Has name ps = (s : JsonSchema) × (get name ps ≡ some s)

-- The required names are properties, no property stands twice, and so it is in every schema inside.
abbrev mutual
  pub IsSound : JsonSchema → Type 0
  IsSound (json_schema k ps i a) =
      All (λ n. Has n (properties ps)) k.required
      × IsMap (properties ps)
      × AllSound ps
      × SubSound i
      × SubSound a

  pub SubSound : SubSchema → Type 0
  SubSound missing = Unit
  SubSound (sub s) = IsSound s

  pub AllSound : Properties → Type 0
  AllSound no_properties = Unit
  AllSound (property name s ps) = IsSound s × AllSound ps

-- The same, of a schema that is being filled.
pub record IsFilled (root : Root) : Type 0 where
  pub covered : All (λ n. Has n root.properties) root.required
  pub once : IsMap root.properties
  pub sound : AllSound (to_properties root.properties)

Has-put :
    (k n : String) (s : JsonSchema) (ps : List (String × JsonSchema))
    → (k ≡ n) ⊎ Has n ps
    → Has n (put k s ps)
Has-put k n s ps h = elim (text_cases k n) [
  | inl (same, yes_) ↦ (s, get-put k n s ps ∙ (rw yes_))
  | inr (differ, no_) ↦ elim h [
    | inl same ↦ absurd (differ same)
    | inr (old, e) ↦ (old, get-put k n s ps ∙ (rw no_ e))
  ]
]

All-Has-put :
    (names : List String) (k : String) (s : JsonSchema) (ps : List (String × JsonSchema))
    → All (λ n. Has n ps) names
    → All (λ n. Has n (put k s ps)) names
All-Has-put [] k s ps h = tt
All-Has-put (n ∷ names) k s ps h = (Has-put k n s ps (inr h.0), All-Has-put names k s ps h.1)

put-AllSound :
    (k : String) (s : JsonSchema) (ps : List (String × JsonSchema))
    → IsSound s
    → AllSound (to_properties ps)
    → AllSound (to_properties (put k s ps))
unfolding put
put-AllSound k s [] h hs = (h, tt)
put-AllSound k s ((j, old) ∷ ps) h hs = elim (Bool-cases (j == k)) [
  | inl same ↦ rw same (h, hs.1)
  | inr differ ↦ rw differ (hs.0, put-AllSound k s ps h hs.1)
]

properties-to_properties : (ps : List (String × JsonSchema)) → properties (to_properties ps) ≡ ps
properties-to_properties [] = refl
properties-to_properties ((k, s) ∷ ps) = ap (λ qs. (k, s) ∷ qs) (properties-to_properties ps)

object_schema-IsSound : (root : Root) → IsFilled root → IsSound (object_schema root)
object_schema-IsSound root h =
    let back = sym (properties-to_properties root.properties) in
    (
      subst (λ ps. All (λ n. Has n ps) root.required) back h.covered,
      subst IsMap back h.once,
      h.sound,
      tt,
      tt,
    )

add_required-All :
    (P : String → Type 0) (b : Bool) (name : String) (names : List String)
    → P name
    → All P names
    → All P (add_required b name names)
unfolding add_required
add_required-All P true name names p ps = All-append P names (name ∷ []) ps (p, tt)
add_required-All P false name names p ps = ps

module _ (parse_float : String → Option AnyValue) where
  tagged-IsSound :
      (tag : String) (t : GoType) (s : JsonSchema)
      → IsSound s
      → IsSound (with_keywords (apply_json_schema_tag parse_float tag t (keywords s)) s)
  tagged-IsSound tag t (json_schema k ps i a) h = (
    subst (All (λ n. Has n (properties ps)))
        (sym (apply_json_schema_tag-SameFrame parse_float t tag k).1) h.0,
    h.1,
    h.2,
    h.3,
    h.4,
  )

  with_tag-IsSound :
      (f : StructField) (t : GoType) (s : JsonSchema)
      → IsSound s
      → IsSound (with_tag parse_float f t s)
  unfolding with_tag
  with_tag-IsSound f t s h = elim (Bool-cases (tag_or_empty (get "jsonschema" f.tags) == "")) [
    | inl none_ ↦ rw none_ h
    | inr given ↦ rw given (tagged-IsSound (tag_or_empty (get "jsonschema" f.tags)) t s h)
  ]

  named_field-IsFilled :
      (f : StructField) (t : GoType) (s : JsonSchema) (root : Root)
      → IsSound s
      → IsFilled root
      → IsFilled (named_field parse_float f t s root)
  unfolding named_field
  named_field-IsFilled f t s root h filled = elim (Option-cases (property_name f)) [
    | inl out ↦ rw (out, named_field) filled
    | inr (name, e) ↦
        rw (e, named_field)
          (record {
            covered =
                add_required-All
                  (λ n. Has n (put name (with_tag parse_float f t s) root.properties))
                  (tag_or_empty (get "mcp" f.tags) == "required") name root.required
                  (Has-put name name (with_tag parse_float f t s) root.properties (inl refl))
                  (All-Has-put root.required name (with_tag parse_float f t s) root.properties
                    filled.covered);
            once = put-IsMap name (with_tag parse_float f t s) root.properties filled.once;
            sound =
                put-AllSound name (with_tag parse_float f t s) root.properties
                  (with_tag-IsSound f t s h) filled.sound;
          })
  ]

  -- The flattened root, if there is one.
  abbrev SomeFilled : Option Root → Type 0
  SomeFilled none = Unit
  SomeFilled (some root) = IsFilled root

  choose_inlined :
      (named : Root) (inlined : Option Root)
      → IsFilled named
      → SomeFilled inlined
      → IsFilled (elim inlined [ some flat ↦ flat | none ↦ named ])
  choose_inlined named none h flat = h
  choose_inlined named (some root) h flat = flat

  process_field-IsFilled :
      (f : StructField) (t : GoType) (s : JsonSchema) (inlined : Option Root) (root : Root)
      → IsSound s
      → SomeFilled inlined
      → IsFilled root
      → IsFilled (process_field parse_float f t s inlined root)
  unfolding process_field
  process_field-IsFilled f t s inlined root h flat filled = elim (Bool-cases f.is_exported) [
    | inr hidden ↦ rw (hidden, process_field) filled
    | inl exported ↦ elim (Bool-cases f.anonymous) [
      | inr own ↦ rw (exported, own, process_field) (named_field-IsFilled f t s root h filled)
      | inl anonymous ↦
          rw (exported, anonymous, process_field)
            (choose_inlined _ inlined (named_field-IsFilled f t s root h filled) flat)
    ]
  ]

  mutual
    unfolding process_struct_fields

    schema_from_type-IsSound : (t : GoType) → IsSound (schema_from_type parse_float t)
    schema_from_type-IsSound (pointer t) = schema_from_type-IsSound t
    schema_from_type-IsSound time = (tt, tt, tt, tt, tt)
    schema_from_type-IsSound raw_message = (tt, tt, tt, tt, tt)
    schema_from_type-IsSound (slice t) = (tt, tt, tt, schema_from_type-IsSound t, tt)
    schema_from_type-IsSound (map_of t) = (tt, tt, tt, tt, schema_from_type-IsSound t)
    schema_from_type-IsSound (struct fs) =
        object_schema-IsSound (process_struct_fields parse_float fs empty_root)
          (process-IsFilled fs empty_root (record { covered = tt; once = tt; sound = tt }))
    schema_from_type-IsSound (basic k) = (tt, tt, tt, tt, tt)

    process-IsFilled :
        (fs : Fields) (root : Root)
        → IsFilled root
        → IsFilled (process_struct_fields parse_float fs root)
    process-IsFilled end root h = h
    process-IsFilled (field f t fs) root h =
        process-IsFilled fs
          (process_field parse_float f t (schema_from_type parse_float t)
            (process_embedded parse_float t root) root)
          (process_field-IsFilled f t (schema_from_type parse_float t)
            (process_embedded parse_float t root) root (schema_from_type-IsSound t)
            (process_embedded-IsFilled t root h) h)

    process_embedded-IsFilled :
        (t : GoType) (root : Root)
        → IsFilled root
        → SomeFilled (process_embedded parse_float t root)
    process_embedded-IsFilled (pointer t) root h = process_embedded-IsFilled t root h
    process_embedded-IsFilled (struct fs) root h = process-IsFilled fs root h
    process_embedded-IsFilled time root h = h
    process_embedded-IsFilled (basic k) root h = tt
    process_embedded-IsFilled raw_message root h = tt
    process_embedded-IsFilled (slice t) root h = tt
    process_embedded-IsFilled (map_of t) root h = tt

  -- Whatever the type and the tags of its fields, the required names of the schema, and of every
  -- schema inside it, are names of its properties, and no property stands twice.
  pub generate-IsSound : (t : GoType) → IsSound (generate parse_float t)
  unfolding generate
  generate-IsSound (pointer t) = generate-IsSound t
  generate-IsSound (struct fs) = schema_from_type-IsSound (struct fs)
  generate-IsSound time = (tt, tt, tt, tt, tt)
  generate-IsSound (basic k) = (tt, tt, tt, tt, tt)
  generate-IsSound raw_message = (tt, tt, tt, tt, tt)
  generate-IsSound (slice t) = (tt, tt, tt, tt, tt)
  generate-IsSound (map_of t) = (tt, tt, tt, tt, tt)
