-- ===== src/Server/Dispatch/Messages.antt =====
-- What the router answers to each kind of message.
use custom_mcps.Prelude.{
  String, Bool, List, [], ◌∷◌, ◌++◌, returns, ◌≡◌, ◌==◌, ◌||◌, if◌then◌else◌, arith, append-nil,
}
use custom_mcps.Json.{Json, null, Raw, absent, encoded}
use custom_mcps.Context.{Context}
use custom_mcps.World.{World, LogEntry, request_canceled, unknown_notification}
use custom_mcps.Protocol.Errors.{GoError, value, error, code_parse_error, cause}
use custom_mcps.Protocol.Message.{
  Request, Notification, request, notification, parse_message, encode_response,
}
use custom_mcps.Protocol.Parse.{parse_message-error}
use custom_mcps.Middleware.RequestId.{extract_id-request}
use custom_mcps.Registry.{GoRuntime}
use custom_mcps.Server.{Server}
use custom_mcps.Server.Dispatch.{
  Reply, dispatch, handle_request, handle_notification, fail, fail_with,
}
use custom_mcps.Server.Dispatch.Replies.{AnswersOrPanics, error_document, error_object}
use custom_mcps.Server.Dispatch.Requests.{handle_request_answers}

-- What a notification adds to the log.
abbrev pub notification_log : String → List LogEntry
notification_log method =
    if method == "notifications/initialized"
    then []
    else if method == "notifications/cancelled"
    then request_canceled ∷ []
    else unknown_notification method ∷ []

-- A reply that answers nothing.
pub record Silent (w : World) (flag : Bool) (entries : List LogEntry) (r : Reply) : Type 0 where
  pub no_answer : r.1 ≡ returns absent
  pub flag_now : r.0.initialized ≡ flag
  pub log_now : r.0.log ≡ w.log ++ entries

module _ (runtime : GoRuntime) {T H : Type 0} (s : Server T H) (ctx : Context) (raw : Raw)
    (w : World) where
  -- A message that parses as a request is answered under the bytes of its id, or user code or the
  -- marshaller panics.
  pub dispatch_request :
      (r : Request)
      → parse_message runtime.read_any raw ≡ value (request r)
      → (id : Json) × (r.id ≡ encoded id) × AnswersOrPanics id (dispatch runtime s ctx raw w).1
  unfolding dispatch
  dispatch_request r h =
      let (id, same, _) = extract_id-request runtime.read_any raw r h in
      (id, same, rw (h, dispatch) (answered id same))
    where
      answered :
          (id : Json) → r.id ≡ encoded id → AnswersOrPanics id (handle_request runtime s ctx r w).1
      answered id same =
          rw same (handle_request_answers runtime s ctx w id r.jsonrpc r.method r.params)

  -- A notification is never answered. It sets the flag `initialized` or leaves it, and adds at most
  -- one entry to the log.
  pub dispatch_notification :
      (n : Notification)
      → parse_message runtime.read_any raw ≡ value (notification n)
      → Silent w
          ((n.method == "notifications/initialized") || w.initialized)
          (notification_log n.method)
          (dispatch runtime s ctx raw w)
  unfolding dispatch handle_notification
  dispatch_notification n h = rw (h, dispatch) (ground (arith, append-nil w.log))

  -- A message that does not parse gets an error response with a null id and code -32700, and leaves
  -- the world as it was.
  pub dispatch_parse_error :
      (g : GoError)
      → parse_message runtime.read_any raw ≡ error g
      → (t : String) × (dispatch runtime s ctx raw w
          ≡ (w, returns (encoded (error_document null (error_object code_parse_error t [])))))
  unfolding dispatch fail_with fail cause encode_response
  dispatch_parse_error g h =
      let (t, e) = parse_message-error runtime.read_any raw g h in (t, rw (h, dispatch, e))
