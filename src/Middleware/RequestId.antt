-- ===== src/Middleware/RequestId.antt =====
-- The id that recovery.go reads from a message is the id that the parser gives the request, and the
-- method that logging.go reads is its method.
use custom_mcps.Prelude.{
  ℕ, String, Bool, true, false, List, [], ◌∷◌, Result, ok, err, ◌≡◌, refl, sym, ◌⊎◌, inl, inr,
  arith, if◌then◌else◌, Bool-cases, ◌==◌, text_cases, nat_eq, >>=-eq-ok, ◌≢◌, ◌∙◌, ap,
}
use custom_mcps.Prelude.Maps.{get, put, get-put}
use custom_mcps.Json.{
  Json, object, members, Raw, absent, encoded, names_field, same_codes, fold_name,
}
use custom_mcps.Json.Decode.{AnyReader, decode_members, decode_raw_map}
use custom_mcps.Protocol.Errors.{value}
use custom_mcps.Protocol.Message.{
  Request, request, request_step, empty_request, top_level, has_key, parse_as, parse_message,
  parsed,
}
use mathlib.Core.Bool.{false≢true}
use custom_mcps.Protocol.Parse.{parse_as-kind}
use custom_mcps.Middleware.{last_id, extract_id, last_method, extract_method}

heads_differ :
    (a b : ℕ) (x y l : List ℕ)
    → nat_eq a b ≡ false
    → same_codes (a ∷ x) l ≡ true
    → same_codes (b ∷ y) l ≡ false
heads_differ a b x y [] n h = refl
heads_differ a b x y (c ∷ l) n h = ground arith

jsonrpc_not_id : (k : String) → names_field "jsonrpc" k ≡ true → names_field "id" k ≡ false
unfolding names_field
jsonrpc_not_id k h = heads_differ 74 73 (fold_name "sonrpc") (fold_name "d") (fold_name k) refl h

id_names_id : names_field "id" "id" ≡ true
unfolding names_field
id_names_id = refl

abbrev IsEncoded : Raw → Type 0
IsEncoded raw = (v : Json) × (raw ≡ encoded v)

request_step-id :
    (r s : Request) (k : String) (v : Json)
    → request_step r k v ≡ ok s
    → s.id ≡ (if names_field "id" k then encoded v else r.id)
request_step-id r s k v h = ground (arith, jsonrpc_not_id k)

-- Decoding the members of a request leaves the last "id" among them.
decode_members-id :
    (r s : Request) (ms : List (String × Json))
    → decode_members request_step r ms ≡ ok s
    → s.id ≡ last_id r.id ms
unfolding last_id
decode_members-id r s [] h = ground arith
decode_members-id r s ((k, v) ∷ ms) h =
    let (t, rest, first) =
      >>=-eq-ok (λ t. decode_members request_step t ms) (request_step r k v) h in
    decode_members-id t s ms rest ∙ ap (λ i. last_id i ms) (request_step-id r t k v first)

has_key-put :
    (k : String) (v : Json) (m : List (String × Json))
    → (k == "id") ≡ false
    → has_key "id" (put k v m) ≡ has_key "id" m
has_key-put k v m e = ground (arith, get-put k "id" v m)

-- A map with the exact key "id" leaves an id.
has_id-last_id :
    (m ms : List (String × Json)) (old : Raw)
    → has_key "id" (decode_raw_map m ms) ≡ true
    → (has_key "id" m ≡ true → IsEncoded old)
    → IsEncoded (last_id old ms)
unfolding last_id
has_id-last_id m [] old h start = start h
has_id-last_id m ((k, v) ∷ ms) old h start =
    has_id-last_id (put k v m) ms _ h λ found. keep (text_cases k "id") found
  where
    keep :
        ((k ≡ "id") × ((k == "id") ≡ true)) ⊎ ((k ≢ "id") × ((k == "id") ≡ false))
        → has_key "id" (put k v m) ≡ true
        → IsEncoded (if names_field "id" k then encoded v else old)
    keep (inl (same, _)) found = rw (same, id_names_id) (v, refl)
    keep (inr (_, e)) found = elim (Bool-cases (names_field "id" k)) [
      | inl y ↦ (v, rw y)
      | inr n ↦ rw n (start (sym (has_key-put k v m e) ∙ found))
    ]

members_of_object : Raw → List (String × Json)
members_of_object (encoded (object ms)) = members ms
members_of_object raw = []

no_id : ¬ (has_key "id" [] ≡ true)
unfolding get
no_id h = cc

extract_id-last_id : (raw : Raw) → extract_id raw ≡ last_id absent (members_of_object raw)
unfolding extract_id members_of_object last_id
extract_id-last_id absent = refl
extract_id-last_id (encoded (object ms)) = refl
extract_id-last_id _ = refl

parsed-request-eq :
    (t : Result Request) (r : Request) → parsed request t ≡ value (request r) → t ≡ ok r
parsed-request-eq (ok a) r h = cc
parsed-request-eq (err e) r h = cc

-- The bytes of a request are an object, decoded as a request, with the exact key "id".
request_members :
    (read_any : AnyReader) (raw : Raw) (r : Request)
    → parse_message read_any raw ≡ value (request r)
    → (decode_members request_step empty_request (members_of_object raw) ≡ ok r)
      × (has_key "id" (decode_raw_map [] (members_of_object raw)) ≡ true)
unfolding parse_message top_level members_of_object parse_as get
request_members read_any (encoded (object ms)) r h =
    by_keys _ (has_key "method" (decode_raw_map [] (members ms))) refl h
  where
    by_keys :
        (i m : Bool)
        → has_key "id" (decode_raw_map [] (members ms)) ≡ i
        → parse_as read_any i m (encoded (object ms)) ≡ value (request r)
        → (decode_members request_step empty_request (members ms) ≡ ok r)
          × (has_key "id" (decode_raw_map [] (members ms)) ≡ true)
    by_keys true true e p = (parsed-request-eq _ r p, e)
    by_keys true false e p =
        absurd
          (false≢true (parse_as-kind read_any true false (encoded (object ms)) (request r) p).1)
    by_keys false m e p =
        absurd (false≢true (parse_as-kind read_any false m (encoded (object ms)) (request r) p).0)
request_members read_any raw r h = cc

-- A parsed request carries the bytes of an id, and these are what the panic handler reads from the
-- same message.
pub extract_id-request :
    (read_any : AnyReader) (raw : Raw) (r : Request)
    → parse_message read_any raw ≡ value (request r)
    → (v : Json) × (r.id ≡ encoded v) × (extract_id raw ≡ encoded v)
extract_id-request read_any raw r h =
    let (decoded, has_id) = request_members read_any raw r h in
    let ms = members_of_object raw in
    let (v, last) = has_id-last_id [] ms absent has_id (λ p. absurd (no_id p)) in
    (v, decode_members-id empty_request r ms decoded ∙ last, extract_id-last_id raw ∙ last)

jsonrpc_not_method : (k : String) → names_field "jsonrpc" k ≡ true → names_field "method" k ≡ false
unfolding names_field
jsonrpc_not_method k h =
    heads_differ 74 77 (fold_name "sonrpc") (fold_name "ethod") (fold_name k) refl h

id_not_method : (k : String) → names_field "id" k ≡ true → names_field "method" k ≡ false
unfolding names_field
id_not_method k h = heads_differ 73 77 (fold_name "d") (fold_name "ethod") (fold_name k) refl h

-- Decoding a member of a request takes the method that the log reads from it.
request_step-method :
    (r s : Request) (k : String) (v : Json) (ms : List (String × Json))
    → request_step r k v ≡ ok s
    → last_method s.method ms ≡ last_method r.method ((k, v) ∷ ms)
unfolding last_method
request_step-method r s k v ms h = ground (arith, jsonrpc_not_method k, id_not_method k)

decode_members-method :
    (r s : Request) (ms : List (String × Json))
    → decode_members request_step r ms ≡ ok s
    → s.method ≡ last_method r.method ms
unfolding last_method
decode_members-method r s [] h = ground arith
decode_members-method r s ((k, v) ∷ ms) h =
    let (t, rest, first) =
      >>=-eq-ok (λ t. decode_members request_step t ms) (request_step r k v) h in
    decode_members-method t s ms rest ∙ request_step-method r t k v ms first

extract_method-last_method :
    (raw : Raw) → extract_method raw ≡ last_method "" (members_of_object raw)
unfolding extract_method members_of_object last_method
extract_method-last_method (encoded (object ms)) = refl
extract_method-last_method _ = refl

-- The method that the log gets of a request is the method that the server handles.
pub extract_method-request :
    (read_any : AnyReader) (raw : Raw) (r : Request)
    → parse_message read_any raw ≡ value (request r)
    → extract_method raw ≡ r.method
extract_method-request read_any raw r h =
    extract_method-last_method raw
    ∙ sym (
        decode_members-method empty_request r (members_of_object raw)
          (request_members read_any raw r h).0)
