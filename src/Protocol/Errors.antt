-- ===== src/Protocol/Errors.antt =====
-- framework/protocol/errors.go: error codes, the error object and its constructors; and the Go
-- errors of the handlers, as far as `errors.As` and `Error` tell them apart.
use custom_mcps.Prelude.{String, Option, none, some, List, [], ◌∷◌, Result, ok, ◌>>=◌, ◌<>◌}
use custom_mcps.Prelude.Int.{ℤ, negsuc, itoa}
use custom_mcps.Json.{Json, integer, text, object, to_members}

abbrev pub code_parse_error : ℤ
code_parse_error = negsuc 32699

abbrev pub code_invalid_request : ℤ
code_invalid_request = negsuc 32599

abbrev pub code_method_not_found : ℤ
code_method_not_found = negsuc 32600

abbrev pub code_invalid_params : ℤ
code_invalid_params = negsuc 32601

abbrev pub code_internal_error : ℤ
code_internal_error = negsuc 32602

-- A Go value of type `any` is known by what `json.Marshal` makes of it.
abbrev pub AnyValue : Type 0
AnyValue = Result Json

-- `message` is the Go field Message, `details` the field Data.
pub record RpcError : Type 0 where
  pub code : ℤ
  pub message : String
  pub details : Option AnyValue

-- `Error`; `print` is fmt's `%v`.
pub rpc_error_text : (print : AnyValue → String) → RpcError → String
rpc_error_text print e = elim e.details [
  | some d ↦ "rpc error " <> itoa e.code <> ": " <> e.message <> " (" <> print d <> ")"
  | none ↦ "rpc error " <> itoa e.code <> ": " <> e.message
]

abbrev pub new_parse_error : String → RpcError
new_parse_error msg = record { code = code_parse_error; message = msg; details = none }

abbrev pub new_method_not_found : String → RpcError
new_method_not_found method = record {
  code = code_method_not_found;
  message = "method not found: " <> method;
  details = none;
}

abbrev pub new_invalid_params : String → RpcError
new_invalid_params msg = record { code = code_invalid_params; message = msg; details = none }

-- The argument is the text of the Go error.
abbrev pub new_internal_error : String → RpcError
new_internal_error msg = record { code = code_internal_error; message = msg; details = none }

-- A Go error: an `*RPCError`, one that wraps no `*RPCError` given by its text, or one that
-- `fmt.Errorf("prefix%w", …)` makes.
pub data GoError : Type 0 where
  rpc : RpcError → GoError
  plain : String → GoError
  wrap : String → GoError → GoError

pub data Cause : Type 0 where
  protocol_error : RpcError → Cause
  other : String → Cause

abbrev pub under_prefix : String → Cause → Cause
under_prefix p (protocol_error e) = protocol_error e
under_prefix p (other t) = other (p <> t)

-- `errors.As(err, &rpcErr)`: the `*RPCError` in the chain of errors, or the text of an error that
-- holds none.
unfoldable pub cause : GoError → Cause
cause (rpc e) = protocol_error e
cause (plain t) = other t
cause (wrap p g) = under_prefix p (cause g)

-- A Go call that returns a value or an error.
pub data Call {ℓ} (A : Type ℓ) : Type ℓ where
  value : A → Call A
  error : GoError → Call A

abbrev pub encode_details : Option AnyValue → Result (List (String × Json))
encode_details none = ok []
encode_details (some d) = d >>= λ v. ok (("data", v) ∷ [])

-- `json.Marshal` of an error object; a nil `data` is left out.
abbrev pub encode_error : RpcError → Result Json
encode_error e = encode_details e.details >>= λ ds.
    ok (object (to_members (("code", integer e.code) ∷ ("message", text e.message) ∷ ds)))
