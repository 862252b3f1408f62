-- ===== src/Protocol/Parse.antt =====
-- What `ParseMessage` tells apart, which id a request gets, and the round trip of responses.
use custom_mcps.Prelude.{
  String, Bool, true, false, Option, none, some, List, Result, ok, err, ◌≡◌, ◌≢◌, refl, sym, subst,
  ◌⊎◌, inl, inr,
}
use custom_mcps.Prelude.Int.{ℤ, is_int64}
use custom_mcps.Prelude.Maps.{get, put}
use custom_mcps.Json.{Json, null, Raw, encoded, names_field}
use custom_mcps.Json.Decode.{AnyReader}
use custom_mcps.Protocol.Errors.{RpcError, GoError, rpc, plain, value, error, new_parse_error, Call}
use custom_mcps.Protocol.Message.{
  Message, request, notification, response, Response, top_level, has_key, parse_as, parse_message,
  parsed, encode_response, new_response, new_error_response,
}

-- Whether a message of this kind has a member "id", or "method".
abbrev pub carries_id : Message → Bool
carries_id (request r) = true
carries_id (notification n) = false
carries_id (response r) = true

abbrev pub carries_method : Message → Bool
carries_method (request r) = true
carries_method (notification n) = true
carries_method (response r) = false

parsed-eq-value {ℓ} :
    {A : Type ℓ} (f : A → Message) (r : Result A) (m : Message)
    → parsed f r ≡ value m
    → (a : A) × (r ≡ ok a) × (f a ≡ m)
parsed-eq-value f (ok a) m h = (a, refl, cc)
parsed-eq-value f (err e) m h = cc

-- The branch that was taken, from the kind of the message.
pub parse_as-kind :
    (read_any : AnyReader) (has_id has_method : Bool) (raw : Raw) (m : Message)
    → parse_as read_any has_id has_method raw ≡ value m
    → (has_id ≡ carries_id m) × (has_method ≡ carries_method m)
unfolding parse_as
parse_as-kind read_any true true raw m h =
    let (a, _, e) = parsed-eq-value request _ m h in (rw (← e), rw (← e))
parse_as-kind read_any false true raw m h =
    let (a, _, e) = parsed-eq-value notification _ m h in (rw (← e), rw (← e))
parse_as-kind read_any true false raw m h =
    let (a, _, e) = parsed-eq-value response _ m h in (rw (← e), rw (← e))
parse_as-kind read_any false false raw m h = cc

-- The kind of a parsed message is that of its top-level keys, matched exactly: a request has "id"
-- and "method", a notification "method" alone, and a response "id" alone.
pub parse_message-kind :
    (read_any : AnyReader) (raw : Raw) (m : Message)
    → parse_message read_any raw ≡ value m
    → (fields : List (String × Json)) × (top_level raw ≡ ok fields)
      × (has_key "id" fields ≡ carries_id m)
      × (has_key "method" fields ≡ carries_method m)
unfolding parse_message
parse_message-kind read_any raw m h = go (top_level raw) refl
  where
    go :
        (t : Result (List (String × Json)))
        → top_level raw ≡ t
        → (fields : List (String × Json)) × (top_level raw ≡ ok fields)
          × (has_key "id" fields ≡ carries_id m)
          × (has_key "method" fields ≡ carries_method m)
    go (err e) p = cc (rw (p, parse_message) at h)
    go (ok fields) p =
        let (a, b) = parse_as-kind read_any _ _ raw m (rw (p, parse_message) at h) in
        (fields, p, a, b)

-- A parse that fails gives a parse error, code -32700.
pub parse_message-error :
    (read_any : AnyReader) (raw : Raw) (g : GoError)
    → parse_message read_any raw ≡ error g
    → (t : String) × (g ≡ rpc (new_parse_error t))
unfolding parse_message parse_as
parse_message-error read_any raw g h = go (top_level raw) refl
  where
    from :
        {A : Type 0} (f : A → Message) (r : Result A)
        → parsed f r ≡ error g
        → (t : String) × (g ≡ rpc (new_parse_error t))
    from f (ok a) e = cc
    from f (err t) e = (t, cc)

    by_kind :
        (i m : Bool)
        → parse_as read_any i m raw ≡ error g
        → (t : String) × (g ≡ rpc (new_parse_error t))
    by_kind true true e = from request _ e
    by_kind false true e = from notification _ e
    by_kind true false e = from response _ e
    by_kind false false e = ("message must contain either 'id' or 'method'", cc)

    go :
        (t : Result (List (String × Json)))
        → top_level raw ≡ t
        → (t : String) × (g ≡ rpc (new_parse_error t))
    go (err e) p = (e, cc (rw (p, parse_message) at h))
    go (ok fields) p = by_kind _ _ (rw (p, parse_message) at h)

-- Marshalling a response and parsing the bytes.
abbrev pub reparse : AnyReader → Response → Call Message
reparse read_any r = elim (encode_response r) [
  | ok j ↦ parse_message read_any (encoded j)
  | err e ↦ error (plain e)
]

-- No data, or data that reading into an `any` keeps.
abbrev pub KeepsDetails : AnyReader → Option (Result Json) → Type 0
KeepsDetails read_any details =
    (details ≡ none) ⊎ ((d : Json) × (d ≢ null) × (read_any d ≡ ok d) × (details ≡ some (ok d)))

some_ok-injective :
    {d d' : Json} → ◌≡◌ {A = Option (Result Json)} (some (ok d)) (some (ok d')) → d ≡ d'
some_ok-injective h = cc

null_not_kept : (read_any : AnyReader) → ¬ KeepsDetails read_any (some (ok null))
null_not_kept read_any (inl h) = cc
null_not_kept read_any (inr (d, n, _, h)) = n (sym (some_ok-injective h))

err_not_kept : (read_any : AnyReader) {t : String} → ¬ KeepsDetails read_any (some (err t))
err_not_kept read_any (inl h) = cc
err_not_kept read_any (inr (d, n, _, h)) = cc

kept : (read_any : AnyReader) (d : Json) → KeepsDetails read_any (some (ok d)) → read_any d ≡ ok d
kept read_any d (inl h) = cc
kept read_any d (inr (e, n, same, h)) =
    subst (λ x. read_any x ≡ ok x) (sym (some_ok-injective h)) same

error_back :
    (read_any : AnyReader) (id : Json) (code : ℤ) (message : String)
    (details : Option (Result Json))
    → is_int64 code ≡ true
    → KeepsDetails read_any details
    → let r =
        new_error_response
          (encoded id)
          (record { code = code; message = message; details = details }) in
      reparse read_any r ≡ value (response r)
unfolding encode_response parse_message top_level parse_as names_field get put
error_back read_any id code message none n h = rw n
error_back read_any id code message (some (ok null)) n h = absurd (null_not_kept read_any h)
error_back read_any id code message (some (ok d)) n h = rw (n, kept read_any d h)
error_back read_any id code message (some (err t)) n h = absurd (err_not_kept read_any h)

-- A response is read back by the package's own parser as it was built: one with a result, and one
-- with an error whose code is an `int` and which has no data, or data other than null that
-- encoding/json reads into an `any` as it is, as it does a text.
pub reparse-response :
    (read_any : AnyReader) (id v : Json) (e : RpcError)
    → is_int64 e.code ≡ true
    → (e.details ≡ none)
      ⊎ ((d : Json) × (d ≢ null) × (read_any d ≡ ok d) × (e.details ≡ some (ok d)))
    → ((r : Response) × (new_response (encoded id) (ok v) ≡ value r)
        × (reparse read_any r ≡ value (response r)))
      × (reparse read_any (new_error_response (encoded id) e)
          ≡ value (response (new_error_response (encoded id) e)))
unfolding new_response encode_response parse_message top_level parse_as names_field get put
reparse-response read_any id v e n h = (
  (record { jsonrpc = "2.0"; id = encoded id; result = encoded v; failure = none }, refl, refl),
  error_back read_any id e.code e.message e.details n h,
)
