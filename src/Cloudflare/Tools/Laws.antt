-- ===== src/Cloudflare/Tools/Laws.antt =====
-- What the DNS tools answer.
use custom_mcps.Prelude.{
  ℕ, zero, suc, String, Bool, true, false, not, ◌&&◌, List, [], ◌∷◌, returns, ok, ◌≡◌, refl, ◌⊎◌,
  inl, inr, ◌↔◌, In, ◌==◌, arith, ap, ◌∙◌, sym, subst, text_cases,
}
use custom_mcps.Prelude.Int.{ℤ, pos, negsuc}
use custom_mcps.Json.{Json, Raw, absent, array, to_items, text, boolean, integer}
use custom_mcps.Prelude.Sort.{sort_keys}
use custom_mcps.World.{World}
use custom_mcps.Protocol.Payloads.{CallToolParams, decode_call_tool_params, text_content}
use custom_mcps.Protocol.Payloads.Encoding.{fields}
use custom_mcps.Protocol.Payloads.{encode_content}
use custom_mcps.Schema.{encode_schema, keywords}
use custom_mcps.Schema.Generate.{generate, process_struct_fields}
use custom_mcps.Registry.{GoRuntime}
use custom_mcps.Server.{Server}
use custom_mcps.Server.Typed.{tool, tools_call-tool, typed_reply}
use custom_mcps.Registry.Typed.{read_input}
use custom_mcps.Protocol.Message.{encode_response, new_response}
use custom_mcps.Server.Dispatch.{handle_tools_call, finish, respond}
use custom_mcps.Server.Dispatch.Branches.{answered, req}
use custom_mcps.Library.{GoLibrary}
use custom_mcps.Context.{Context}
use custom_mcps.Cloudflare.Inputs.{
  ListZonesInput, ListDnsRecordsInput, create_dns_record_zero, create_dns_record_input,
}
use custom_mcps.Cloudflare.Tools.{
  or_default, zones_document, entry_is, filtered, json_result, handle_list_zones,
  handle_create_dns_record, created_document,
}

-- The number that stands for `z`: itself where it is at least 1, and the fallback elsewhere.
abbrev pub Stands : ℤ → ℕ → ℕ → Type 0
Stands z n fallback = (z ≡ pos (suc n)) ⊎ ((suc n ≡ fallback) × ((m : ℕ) → z ≡ pos (suc m) → ⊥))

stands : (z : ℤ) (d : ℕ) → (n : ℕ) × (or_default (pos (suc d)) z ≡ pos (suc n)) × Stands z n (suc d)
stands (pos zero) d = (d, refl, inr (refl, λ m h. cc))
stands (pos (suc n)) d = (n, refl, inl refl)
stands (negsuc n) d = (d, refl, inr (refl, λ m h. cc))

-- Whatever the input, list_zones shows a page and a page size of at least 1: those of the input
-- where they are at least 1, and 1 and 20 elsewhere.
pub list_zones_bounds :
    (lib : GoLibrary) (ctx : Context) (i : ListZonesInput)
    → (p q : ℕ) × (handle_list_zones lib ctx i
        ≡ json_result lib (ok (zones_document (pos (suc p)) (pos (suc q)))))
      × Stands i.page p 1
      × Stands i.per_page q 20
unfolding handle_list_zones
list_zones_bounds lib ctx i =
    let (p, e, hp) = stands i.page 0 in
    let (q, f, hq) = stands i.per_page 19 in (p, q, rw (e, f), hp, hq)

-- A record that both filters let through; an empty filter lets everything through.
abbrev pub Wanted : ListDnsRecordsInput → List (String × Json) → Type 0
Wanted i r =
    ((i.record_type ≡ "") ⊎ (entry_is "type" i.record_type r ≡ true))
    × ((i.name ≡ "") ⊎ (entry_is "name" i.name r ≡ true))

-- The test of one filter, and what it means.
one_filter :
    (want : String) (hit : Bool)
    → (((not (want == "") && not hit) ≡ false) × ((want ≡ "") ⊎ (hit ≡ true)))
      ⊎ (((not (want == "") && not hit) ≡ true) × (((want ≡ "") ⊎ (hit ≡ true)) → ⊥))
one_filter want true = inl (ground arith, inr refl)
one_filter want false = elim (text_cases want "") [
  | inl (e, same) ↦ inl (rw same, inl e)
  | inr (differ, other) ↦ inr (rw other, λ h. elim h [ inl e ↦ differ e | inr no_hit ↦ cc ])
]

module _ (i : ListDnsRecordsInput) (r s : List (String × Json))
    (rs kept : List (List (String × Json))) (ih : In r kept ↔ (In r rs × Wanted i r)) where
  keep : Wanted i s → In r (s ∷ kept) ↔ (In r (s ∷ rs) × Wanted i r)
  keep w = (
    λ m. elim m [
      | inl e ↦ (inl e, subst (Wanted i) e w)
      | inr later ↦ (inr (ih.0 later).0, (ih.0 later).1)
    ],
    λ m. elim m.0 [ inl e ↦ inl e | inr later ↦ inr (ih.1 (later, m.1)) ],
  )

  drop_ : (Wanted i s → ⊥) → In r kept ↔ (In r (s ∷ rs) × Wanted i r)
  drop_ out = (
    λ m. (inr (ih.0 m).0, (ih.0 m).1),
    λ m. elim m.0 [
      | inl e ↦ absurd (out (subst (Wanted i) (sym e) m.1))
      | inr later ↦ ih.1 (later, m.1)
    ],
  )

-- The filters keep the records that both let through, and no others.
pub filtered-In :
    (i : ListDnsRecordsInput) (r : List (String × Json)) (rs : List (List (String × Json)))
    → In r (filtered i rs) ↔ (In r rs × Wanted i r)
unfolding filtered
filtered-In i r [] = (λ m. absurd m, λ m. m.0)
filtered-In i r (s ∷ rs) =
    let ih = filtered-In i r rs in
    elim (one_filter i.record_type (entry_is "type" i.record_type s)) [
      | inr (hit, no_) ↦ rw hit (drop_ i r s rs (filtered i rs) ih (λ w. no_ w.0))
      | inl (pass, yes_) ↦ elim (one_filter i.name (entry_is "name" i.name s)) [
        | inr (hit, no_) ↦ rw (pass, hit) (drop_ i r s rs (filtered i rs) ih (λ w. no_ w.1))
        | inl (pass', yes') ↦ rw (pass, pass') (keep i r s rs (filtered i rs) ih (yes_, yes'))
      ]
    ]

-- The success that create_dns_record reports of a record with no type, name, content and zone.
abbrev pub empty_record_created : Json
empty_record_created = fields (
    ("message", text "DNS record   ->  created successfully")
    ∷ (
      "record",
      fields (
          ("content", text "")
          ∷ ("created", text "2026-04-16T10:00:00Z")
          ∷ ("id", text "f56a78b90c12d34e5f6a7b8c9d0e1f2a")
          ∷ ("modified", text "2026-04-16T10:00:00Z")
          ∷ ("name", text "")
          ∷ ("proxied", boolean false)
          ∷ ("ttl", integer (pos 1))
          ∷ ("type", text "")
          ∷ ("zoneId", text "")
          ∷ ("zoneName", text "example.com")
          ∷ []),
    )
    ∷ ("success", boolean true)
    ∷ [])

created_document-zero : created_document create_dns_record_zero ≡ empty_record_created
unfolding sort_keys
created_document-zero = refl

-- A typed call of create_dns_record without arguments, on any server: its schema requires four
-- properties, and yet the call is answered with a result, the text of a document whose member
-- "success" is true and whose record is empty.
pub create_dns_record_unchecked :
    (lib : GoLibrary) {T H : Type 0} (runtime : GoRuntime) (s : Server T H) (ctx : Context)
    (w : World) (id : Json) (version method : String) (params : Raw) (description : String)
    (schema : Json) (p : CallToolParams)
    → encode_schema (generate lib.parse_float create_dns_record_input.type) ≡ ok schema
    → decode_call_tool_params params ≡ ok p
    → p.name ≡ "create_dns_record"
    → p.arguments ≡ absent
    → ((keywords (generate lib.parse_float create_dns_record_input.type)).required
        ≡ "zoneId" ∷ "type" ∷ "name" ∷ "content" ∷ [])
      × (s' : Server T H) × (tool lib create_dns_record_input s "create_dns_record" description
            (handle_create_dns_record lib)
          ≡ returns s')
      × (handle_tools_call runtime s' ctx (req runtime s' ctx w id version method params) w
          ≡ answered id
              (fields (
                (
                  "content",
                  array (
                      to_items (
                        encode_content (text_content (lib.marshal_indent empty_record_created))
                        ∷ [])),
                )
                ∷ []))
              w)
unfolding generate process_struct_fields handle_create_dns_record json_result finish respond
    new_response encode_response
create_dns_record_unchecked lib runtime s ctx w id version method params description schema p e
      decoded named none_ =
    let (s', made, answer) =
      tools_call-tool lib create_dns_record_input runtime s ctx w id version method params
        "create_dns_record" description (handle_create_dns_record lib) schema p e decoded named in
    (
      refl,
      s',
      made,
      answer
          ∙ ap
              (λ a.
                typed_reply lib "create_dns_record" (handle_create_dns_record lib) ctx id w
                  (read_input lib create_dns_record_input a))
              none_
          ∙ ap
              (λ d.
                answered id
                  (fields (
                    (
                      "content",
                      array (to_items (encode_content (text_content (lib.marshal_indent d)) ∷ [])),
                    )
                    ∷ []))
                  w)
              created_document-zero,
    )
