-- ===== src/Http.antt =====
-- src/transport/http.rs: `HttpTransport`, the messages of one HTTP request, and the answers of
-- `HttpServer`. What serde prints of a message, and the JSON of an error, are parameters.
pub mod Answers
pub mod Sessions
pub mod Gate
pub mod Process
pub mod Serving
mod Tests
use sml_mcps.Prelude.{
  ℕ, Bool, true, false, not, ◌&&◌, ◌||◌, Option, none, some, List, [], ◌∷◌, ◌++◌, if◌then◌else◌,
  is_some,
}
use sml_mcps.Prelude.Text.{Text, text}
use sml_mcps.Rpc.{JsonRpcMessage, request, notification, response}
use sml_mcps.Rpc.Json.{Json}
use sml_mcps.Rpc.Classify.{parse}
use sml_mcps.Error.{McpError, Result, ok, err, transport_closed}

-- `messages`; each is kept as the text that serde prints of it.
pub record HttpTransport : Type 0 where
  pub request_body : Option Text
  pub notifications : List Text
  pub answer : Option Text

unfoldable pub new_transport : Text → HttpTransport
new_transport body = record { request_body = some body; notifications = []; answer = none }

-- one event of the stream
abbrev pub event : Text → Text
event message = text "data: " ++ (message ++ text "\n\n")

unfoldable pub events : List Text → Text
events [] = []
events (m ∷ ms) = event m ++ events ms

abbrev pub listed : Option Text → List Text
listed none = []
listed (some t) = t ∷ []

unfoldable pub take_sse_response : HttpTransport → Text
unfolding events
take_sse_response t = events (t.notifications ++ listed t.answer)

unfoldable pub take_response : HttpTransport → Option Text
take_response t = t.answer

unfoldable pub has_notifications : HttpTransport → Bool
has_notifications t = elim t.notifications [ [] ↦ false | m ∷ ms ↦ true ]

module _ {V : Type 0} (j : Json V) where
  abbrev pub read_taken : HttpTransport → Option Text → Result V (JsonRpcMessage V) × HttpTransport
  read_taken t none = (err transport_closed, t)
  read_taken t (some body) = (parse j body, record t { request_body = none })

  -- `Transport::read`: the body, once
  unfoldable pub read : HttpTransport → Result V (JsonRpcMessage V) × HttpTransport
  read t = read_taken t t.request_body

module _ {V : Type 0} where
  abbrev pub buffered : Text → JsonRpcMessage V → HttpTransport → HttpTransport
  buffered json (response r) t = record t { answer = some json }
  buffered json (request r) t = record t { notifications = t.notifications ++ json ∷ [] }
  buffered json (notification n) t = record t { notifications = t.notifications ++ json ∷ [] }

  -- `Transport::write`, with the text that serde prints of the message
  unfoldable pub write :
      Text → JsonRpcMessage V → HttpTransport → Result V (Unit {0}) × HttpTransport
  write json m t =
      if is_some t.answer then (err transport_closed, t) else (ok tt, buffered json m t)

-- What a processed request produced.
pub data Processed : Type 0 where
  body : Text → Text → Processed
  accepted : Processed

abbrev answered : HttpTransport → Option Text → Processed
answered t none = accepted
answered t (some json) =
    if has_notifications t
    then body (take_sse_response t) (text "text/event-stream")
    else body json (text "application/json")

unfoldable pub answer_from : HttpTransport → Processed
unfolding take_response has_notifications take_sse_response
answer_from t = answered t (take_response t)
