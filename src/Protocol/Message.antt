-- ===== src/Protocol/Message.antt =====
-- framework/protocol/message.go: requests, responses, notifications, and the parser that tells
-- them apart.
use custom_mcps.Prelude.{
  String, Bool, true, false, Option, none, some, List, [], ◌∷◌, ◌++◌, Result, ok, err, ◌>>=◌, ◌<>◌,
  if◌then◌else◌, result_map,
}
use custom_mcps.Prelude.Int.{pos}
use custom_mcps.Prelude.Maps.{get}
use custom_mcps.Json.{
  Json, null, text, object, members, to_members, Raw, absent, malformed, encoded, kind, names_field,
}
use custom_mcps.Json.Decode.{
  AnyReader, mismatch, document, unmarshal_struct, decode_struct, decode_text, decode_int,
  decode_raw_map,
}
use custom_mcps.Protocol.Errors.{
  AnyValue, RpcError, rpc, plain, wrap, Call, value, error, new_parse_error, encode_error,
}

abbrev pub jsonrpc_version : String
jsonrpc_version = "2.0"

pub record Request : Type 0 where
  pub jsonrpc : String
  pub id : Raw
  pub method : String
  pub params : Raw

pub record Response : Type 0 where
  pub jsonrpc : String
  pub id : Raw
  pub result : Raw
  pub failure : Option RpcError

pub record Notification : Type 0 where
  pub jsonrpc : String
  pub method : String
  pub params : Raw

pub data Message : Type 0 where
  request : Request → Message
  notification : Notification → Message
  response : Response → Message

-- The error's text comes from `json.Marshal`.
unfoldable pub new_response : Raw → AnyValue → Call Response
new_response id (ok v) =
    value (record { jsonrpc = jsonrpc_version; id = id; result = encoded v; failure = none })
new_response id (err e) = error (wrap "marshaling response: " (plain e))

abbrev pub new_error_response : Raw → RpcError → Response
new_error_response id e = record {
  jsonrpc = jsonrpc_version;
  id = id;
  result = absent;
  failure = some e;
}

-- `json.Marshal` of a `json.RawMessage`: nil is written as null.
abbrev pub encode_raw : Raw → Result Json
encode_raw absent = ok null
encode_raw (malformed e) = err ("json: error calling MarshalJSON for type json.RawMessage: " <> e)
encode_raw (encoded v) = ok v

-- The member of an `omitempty` field of raw JSON.
abbrev pub encode_result : Raw → Result (List (String × Json))
encode_result absent = ok []
encode_result raw = encode_raw raw >>= λ v. ok (("result", v) ∷ [])

abbrev pub encode_failure : Option RpcError → Result (List (String × Json))
encode_failure none = ok []
encode_failure (some e) = encode_error e >>= λ v. ok (("error", v) ∷ [])

-- `json.Marshal` of a response.
unfoldable pub encode_response : Response → Result Json
encode_response r = encode_raw r.id >>= λ id. encode_result r.result >>= λ result.
    encode_failure r.failure >>= λ failure.
    ok (object (to_members (("jsonrpc", text r.jsonrpc) ∷ ("id", id) ∷ (result ++ failure))))

abbrev pub request_step : Request → String → Json → Result Request
request_step r key v =
    if names_field "jsonrpc" key
    then result_map (λ t. record r { jsonrpc = t })
        (decode_text "struct field Request.jsonrpc" r.jsonrpc v)
    else if names_field "id" key
    then ok (record r { id = encoded v })
    else if names_field "method" key
    then result_map (λ t. record r { method = t })
        (decode_text "struct field Request.method" r.method v)
    else if names_field "params" key
    then ok (record r { params = encoded v })
    else ok r

abbrev pub empty_request : Request
empty_request = record { jsonrpc = ""; id = absent; method = ""; params = absent }

abbrev pub notification_step : Notification → String → Json → Result Notification
notification_step n key v =
    if names_field "jsonrpc" key
    then result_map (λ t. record n { jsonrpc = t })
        (decode_text "struct field Notification.jsonrpc" n.jsonrpc v)
    else if names_field "method" key
    then result_map (λ t. record n { method = t })
        (decode_text "struct field Notification.method" n.method v)
    else if names_field "params" key
    then ok (record n { params = encoded v })
    else ok n

abbrev pub empty_notification : Notification
empty_notification = record { jsonrpc = ""; method = ""; params = absent }

-- Null leaves an `any` nil.
abbrev decode_any : AnyReader → Json → Result (Option AnyValue)
decode_any read_any null = ok none
decode_any read_any v = result_map (λ j. some (ok j)) (read_any v)

abbrev pub error_step : AnyReader → RpcError → String → Json → Result RpcError
error_step read_any e key v =
    if names_field "code" key
    then result_map (λ n. record e { code = n }) (decode_int "struct field RPCError.code" e.code v)
    else if names_field "message" key
    then result_map (λ t. record e { message = t })
        (decode_text "struct field RPCError.message" e.message v)
    else if names_field "data" key
    then result_map (λ d. record e { details = d }) (decode_any read_any v)
    else ok e

-- A pointer field: null makes it nil, and an object is decoded into what it points to, or into a
-- new error object.
abbrev pointed_error : Option RpcError → RpcError
pointed_error none = record { code = pos 0; message = ""; details = none }
pointed_error (some e) = e

abbrev pub decode_error : AnyReader → Option RpcError → Json → Result (Option RpcError)
decode_error read_any old null = ok none
decode_error read_any old v =
    result_map some (decode_struct "protocol.RPCError" (error_step read_any) (pointed_error old) v)

abbrev pub response_step : AnyReader → Response → String → Json → Result Response
response_step read_any r key v =
    if names_field "jsonrpc" key
    then result_map (λ t. record r { jsonrpc = t })
        (decode_text "struct field Response.jsonrpc" r.jsonrpc v)
    else if names_field "id" key
    then ok (record r { id = encoded v })
    else if names_field "result" key
    then ok (record r { result = encoded v })
    else if names_field "error" key
    then result_map (λ e. record r { failure = e }) (decode_error read_any r.failure v)
    else ok r

abbrev pub empty_response : Response
empty_response = record { jsonrpc = ""; id = absent; result = absent; failure = none }

-- The first pass, into a `map[string]json.RawMessage`.
unfoldable pub top_level : Raw → Result (List (String × Json))
top_level raw = document raw >>= λ v. elim v [
  | null ↦ ok []
  | object ms ↦ ok (decode_raw_map [] (members ms))
  | v ↦ err (mismatch (kind v) "value of type map[string]json.RawMessage")
]

abbrev pub has_key : String → List (String × Json) → Bool
has_key k m = elim (get k m) [ some v ↦ true | none ↦ false ]

-- A parse error, or the decoded message.
abbrev pub parsed {ℓ} : {A : Type ℓ} → (A → Message) → Result A → Call Message
parsed f (ok a) = value (f a)
parsed f (err e) = error (rpc (new_parse_error e))

-- The switch of `ParseMessage`, over the presence of "method" and "id".
unfoldable pub parse_as : AnyReader → (has_id has_method : Bool) → Raw → Call Message
parse_as read_any true true raw =
    parsed request (unmarshal_struct "protocol.Request" request_step empty_request raw)
parse_as read_any false true raw =
    parsed notification
      (unmarshal_struct "protocol.Notification" notification_step empty_notification raw)
parse_as read_any true false raw =
    parsed response
      (unmarshal_struct "protocol.Response" (response_step read_any) empty_response raw)
parse_as read_any false false raw =
    error (rpc (new_parse_error "message must contain either 'id' or 'method'"))

unfoldable pub parse_message : AnyReader → Raw → Call Message
parse_message read_any raw = elim (top_level raw) [
  | err e ↦ error (rpc (new_parse_error e))
  | ok m ↦ parse_as read_any (has_key "id" m) (has_key "method" m) raw
]
