-- ===== src/Schema/Tags/Laws.antt =====
-- What a jsonschema tag leaves alone, and how the pairs of a tag follow one another.
use custom_mcps.Prelude.{
  String, Char, code, Bool, true, false, ◌==◌, Option, none, some, List, [], ◌∷◌, ◌++◌, ◌≡◌, refl,
  ap, ◌∙◌, ◌<>◌, nat_eq, Bool-cases, inl, inr, if◌then◌else◌,
}
use custom_mcps.Prelude.Int.{atoi}
use custom_mcps.Prelude.Text.{split, extend_first, cut, trim_space}
use text.Mathlib.TextLemmas.{nil-append, cons-append}
use custom_mcps.Protocol.Errors.{AnyValue}
use custom_mcps.Schema.{Keywords}
use custom_mcps.Schema.Tags.{
  GoType, if_read, set_keyword, apply_pair, apply_pairs, apply_json_schema_tag,
}

-- The keywords that come from the Go type and the fields, and from no tag.
abbrev pub SameFrame : Keywords → Keywords → Type 0
SameFrame k k' = (k'.type ≡ k.type) × (k'.required ≡ k.required)

choose :
    (k : Keywords) (b : Bool) (x y : Keywords)
    → SameFrame k x
    → SameFrame k y
    → SameFrame k (if b then x else y)
choose k false x y p q = q
choose k true x y p q = p

if_read-SameFrame {ℓ} :
    {A : Type ℓ} (k : Keywords) (a : Option A) (set : A → Keywords)
    → ((v : A) → SameFrame k (set v))
    → SameFrame k (if_read k a set)
if_read-SameFrame k none set h = (refl, refl)
if_read-SameFrame k (some v) set h = h v

-- There is always a first part.
split_cons : (s : String) → (first : String) × (rest : List String) × (split b',' s ≡ first ∷ rest)
unfolding split
split_cons String.[] = ("", [], refl)
split_cons (String.◌∷◌ c s) = elim (Bool-cases (nat_eq (code c) b',')) [
  | inl comma ↦ rw comma ("", split b',' s, refl)
  | inr letter ↦ let (first, rest, e) = split_cons s in rw (letter, e) (_, rest, refl)
]

extend_first-append :
    (c : Char) (s : String) (ys : List String)
    → extend_first c (split b',' s ++ ys) ≡ extend_first c (split b',' s) ++ ys
extend_first-append c s ys = let (first, rest, e) = split_cons s in rw e

split-append : (p q : String) → split b',' (p <> ("," <> q)) ≡ split b',' p ++ split b',' q
unfolding split
split-append String.[] q = rw nil-append (rw (cons-append _ String.[] q) (rw (nil-append q)))
split-append (String.◌∷◌ c p) q =
    rw (cons-append c p ("," <> q)) (elim (Bool-cases (nat_eq (code c) b',')) [
      | inl comma ↦ rw comma (ap (λ ps. "" ∷ ps) (split-append p q))
      | inr letter ↦
          rw letter
            (ap (extend_first c) (split-append p q) ∙ extend_first-append c p (split b',' q))
    ])

module _ (parse_float : String → Option AnyValue) (t : GoType) where
  set_keyword-SameFrame :
      (key value : String) (k : Keywords) → SameFrame k (set_keyword parse_float key value t k)
  unfolding set_keyword
  set_keyword-SameFrame key value k =
      choose k (key == "description") _ _ (refl, refl)
        (choose k (key == "enum") _ _ (refl, refl)
          (choose k (key == "default") _ _ (refl, refl)
            (choose k (key == "minimum") _ _
              (if_read-SameFrame k (parse_float value) _ λ v. (refl, refl))
              (choose k (key == "maximum") _ _
                (if_read-SameFrame k (parse_float value) _ λ v. (refl, refl))
                (choose k (key == "minLength") _ _
                  (if_read-SameFrame k (atoi value) _ λ v. (refl, refl))
                  (choose k (key == "maxLength") _ _
                    (if_read-SameFrame k (atoi value) _ λ v. (refl, refl))
                    (choose k (key == "pattern") _ _ (refl, refl)
                      (choose k (key == "format") _ _ (refl, refl) (refl, refl)))))))))

  apply_pair-SameFrame :
      (p : Option (String × String)) (k : Keywords) → SameFrame k (apply_pair parse_float t p k)
  apply_pair-SameFrame none k = (refl, refl)
  apply_pair-SameFrame (some (key, value)) k =
      set_keyword-SameFrame (trim_space key) (trim_space value) k

  apply_pairs-SameFrame :
      (pairs : List String) (k : Keywords) → SameFrame k (apply_pairs parse_float t pairs k)
  unfolding apply_pairs
  apply_pairs-SameFrame [] k = (refl, refl)
  apply_pairs-SameFrame (p ∷ ps) k =
      let one = apply_pair-SameFrame (cut b'=' p) k in
      let rest = apply_pairs-SameFrame ps (apply_pair parse_float t (cut b'=' p) k) in
      (rest.0 ∙ one.0, rest.1 ∙ one.1)

  apply_pairs-append :
      (ps qs : List String) (k : Keywords)
      → apply_pairs parse_float t (ps ++ qs) k
        ≡ apply_pairs parse_float t qs (apply_pairs parse_float t ps k)
  unfolding apply_pairs
  apply_pairs-append [] qs k = refl
  apply_pairs-append (p ∷ ps) qs k =
      apply_pairs-append ps qs (apply_pair parse_float t (cut b'=' p) k)

  -- Two tags joined by a comma do what the first does and then what the second does.
  pub apply_json_schema_tag-append :
      (p q : String) (k : Keywords)
      → apply_json_schema_tag parse_float (p <> ("," <> q)) t k
        ≡ apply_json_schema_tag parse_float q t (apply_json_schema_tag parse_float p t k)
  unfolding apply_json_schema_tag
  apply_json_schema_tag-append p q k =
      ap (λ ps. apply_pairs parse_float t ps k) (split-append p q)
      ∙ apply_pairs-append (split b',' p) (split b',' q) k

  -- Whatever a tag says, the type and the required names of the schema stay.
  pub apply_json_schema_tag-SameFrame :
      (tag : String) (k : Keywords) → SameFrame k (apply_json_schema_tag parse_float tag t k)
  unfolding apply_json_schema_tag
  apply_json_schema_tag-SameFrame tag k = apply_pairs-SameFrame (split b',' tag) k
