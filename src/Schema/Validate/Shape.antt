-- ===== src/Schema/Validate/Shape.antt =====
-- Decoding of documents that fit a schema of an object with properties of basic types.
use custom_mcps.Prelude.{
  String, Bool, true, false, ◌&&◌, List, [], ◌∷◌, Result, ok, err, ◌≡◌, refl, ap, subst, ◌∙◌, arith,
  if◌then◌else◌, ◌==◌, ◌>>=◌,
}
use custom_mcps.Json.{
  Json, Members, null, boolean, integer, decimal, text, array, object, members, encoded,
}
use custom_mcps.Json.Decode.{decode_members, unmarshal_struct}
use custom_mcps.Schema.{
  JsonSchema, json_schema, Properties, property, no_properties, missing, plain_schema, typed,
}
use custom_mcps.Schema.Validate.{
  allows, all_members, in_object, exact_key, fits, is_plain, type_allows, member_allowed,
}

abbrev pub IsOk : {A : Type 0} → Result A → Type 0
IsOk (ok a) = Unit {0}
IsOk (err e) = ⊥

decoded : {A : Type 0} (r : Result A) → IsOk r → (a : A) × (r ≡ ok a)
decoded (ok a) h = (a, refl)
decoded (err e) h = elim h [ ]

-- If every member is decoded, the struct is.
decode_members-IsOk :
    {S : Type 0} (step : S → String → Json → Result S) (p : String → Json → Bool)
    → ((s : S) (k : String) (v : Json) → p k v ≡ true → IsOk (step s k v))
    → (s : S) (ms : List (String × Json)) → all_members p ms ≡ true
    → IsOk (decode_members step s ms)
decode_members-IsOk step p each s [] h = tt
decode_members-IsOk {S} step p each s ((k, v) ∷ ms) h =
    go (step s k v) (each s k v (ground arith))
      λ t. decode_members-IsOk step p each t ms (ground arith)
  where
    go :
        (r : Result S)
        → IsOk r
        → ((t : S) → IsOk (decode_members step t ms))
        → IsOk (r >>= λ t. decode_members step t ms)
    go (ok t) e rest = rest t
    go (err x) e rest = elim e [ ]

-- A schema of an object with these properties, each of a type, and nothing else.
abbrev pub shapes : List (String × String) → Properties
shapes [] = no_properties
shapes ((name, t) ∷ ps) = property name (plain_schema t) (shapes ps)

abbrev pub shape : List (String × String) → JsonSchema
shape ps = json_schema (typed "object") (shapes ps) missing missing

abbrev pub member_fits : List (String × String) → String → Json → Bool
member_fits [] key v = true
member_fits ((name, t) ∷ ps) key v =
    (if name == key then type_allows t v else true) && member_fits ps key v

allows-type_allows :
    (t : String) (v : Json) → allows (plain_schema t) v ≡ true → type_allows t v ≡ true
unfolding allows
allows-type_allows t v h = ground arith

both :
    (a b : Bool) {c d : Bool}
    → (a ≡ true → c ≡ true)
    → (b ≡ true → d ≡ true)
    → (a && b) ≡ true
    → (c && d) ≡ true
both true true f g h = rw (f refl, g refl)
both true false f g h = cc
both false b f g h = cc

under_test :
    (t : Bool) {a c : Bool}
    → (a ≡ true → c ≡ true)
    → (if t then a else true) ≡ true
    → (if t then c else true) ≡ true
under_test true f h = f h
under_test false f h = refl

member_allowed-member_fits :
    (ps : List (String × String)) (key : String) (v : Json)
    → member_allowed (shapes ps) key v ≡ true
    → member_fits ps key v ≡ true
unfolding allows
member_allowed-member_fits [] key v h = refl
member_allowed-member_fits ((name, t) ∷ ps) key v h =
    both (if name == key then allows (plain_schema t) v else true)
      (member_allowed (shapes ps) key v) (under_test (name == key) (allows-type_allows t v))
      (member_allowed-member_fits ps key v) h

all_members-weaken :
    (p q : String → Json → Bool) (ms : List (String × Json))
    → ((k : String) (v : Json) → p k v ≡ true → q k v ≡ true)
    → all_members p ms ≡ true
    → all_members q ms ≡ true
all_members-weaken p q [] each h = refl
all_members-weaken p q ((k, v) ∷ ms) each h =
    ground (arith, each k v, all_members-weaken p q ms each)

-- A document that fits the shape is an object, and each of its members fits.
abbrev FittingObject : List (String × String) → Json → Type 0
FittingObject ps v =
    (ms : Members) × (v ≡ object ms) × (all_members (member_fits ps) (members ms) ≡ true)

shape-FittingObject :
    (ps : List (String × String)) (v : Json) → allows (shape ps) v ≡ true → FittingObject ps v
unfolding allows type_allows
shape-FittingObject ps (object ms) h = (
  ms,
  refl,
  all_members-weaken (λ k v. member_allowed (shapes ps) k v) (member_fits ps) (members ms)
      (member_allowed-member_fits ps) (ground arith),
)
shape-FittingObject ps null h = cc
shape-FittingObject ps (boolean b) h = cc
shape-FittingObject ps (integer n) h = cc
shape-FittingObject ps (decimal t) h = cc
shape-FittingObject ps (text t) h = cc
shape-FittingObject ps (array vs) h = cc

-- A member that fits, is spelled like the field that it names, and is in range.
abbrev pub names_of : List (String × String) → List String
names_of [] = []
names_of ((name, t) ∷ ps) = name ∷ names_of ps

abbrev pub good_member : List (String × String) → String → Json → Bool
good_member ps key v = member_fits ps key v && (exact_key (names_of ps) key && fits v)

all_members-both :
    (p q : String → Json → Bool) (ms : List (String × Json))
    → all_members p ms ≡ true
    → all_members q ms ≡ true
    → all_members (λ k v. p k v && q k v) ms ≡ true
all_members-both p q [] h g = refl
all_members-both p q ((k, v) ∷ ms) h g = ground (arith, all_members-both p q ms)

-- If the members that fit are decoded, a plain document that fits the shape is.
pub shape-unmarshal_struct :
    {S : Type 0} (name : String) (step : S → String → Json → Result S) (start : S)
    (ps : List (String × String)) (v : Json)
    → ((s : S) (k : String) (w : Json) → good_member ps k w ≡ true → IsOk (step s k w))
    → allows (shape ps) v ≡ true
    → is_plain (names_of ps) v ≡ true
    → (s : S) × (unmarshal_struct name step start (encoded v) ≡ ok s)
unfolding is_plain
shape-unmarshal_struct name step start ps v each fits_ plain =
    let (ms, same, good) = shape-FittingObject ps v fits_ in
    let named =
      subst (λ x. in_object (λ k w. exact_key (names_of ps) k && fits w) x ≡ true) same plain in
    let (s, e) = decoded (decode_members step start (members ms)) (
      decode_members-IsOk step (good_member ps) each start (members ms) (
        all_members-both (member_fits ps) (λ k w. exact_key (names_of ps) k && fits w) (members ms)
          good named)) in
    (s, ap (λ x. unmarshal_struct name step start (encoded x)) same ∙ e)
