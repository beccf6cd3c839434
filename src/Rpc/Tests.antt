-- ===== src/Rpc/Tests.antt =====
-- The theorems on src/types/jsonrpc.rs and src/types/error.rs at small inputs.
use sml_mcps.Prelude.{◌≡◌, refl, true, Option, none, some, [], ◌++◌, is_some, if◌then◌else◌}
use sml_mcps.Prelude.Text.{Text, text, text_eq}
use sml_mcps.Rpc.{RequestId, string, JsonRpcRequest, request}
use sml_mcps.Rpc.Json.{Json, Shape, Decoded}
use sml_mcps.Error.{McpError, ok, err, invalid_request_with}
use sml_mcps.Rpc.Classify.{from_value}

-- A few values: an object has a method or none, and a text for an id or none.
data Tiny : Type 0 where
  nil : Tiny
  word : Text → Tiny
  call : Option Text → Option Text → Tiny

abbrev worded : Option Text → Option Tiny
worded none = none
worded (some t) = some (word t)

abbrev tiny_shape : Tiny → Shape
tiny_shape nil = Shape.null
tiny_shape (word t) = Shape.string
tiny_shape (call m i) = Shape.object

abbrev tiny_field : Text → Tiny → Option Tiny
tiny_field k (call m i) =
    if text_eq k (text "method") then worded m else if text_eq k (text "id") then worded i else none
tiny_field k _ = none

abbrev tiny_id : Tiny → Option RequestId
tiny_id (word t) = some (string t)
tiny_id _ = none

-- A request whose method is empty does not decode.
abbrev tiny_request : Tiny → Decoded (JsonRpcRequest Tiny)
tiny_request (call (some []) (some i)) = Decoded.err (text "no method")
tiny_request (call (some m) (some i)) =
    Decoded.ok (record { id = string i; method = m; params = none })
tiny_request _ = Decoded.err (text "no request")

abbrev tiny : Json Tiny
tiny = record {
  shape = tiny_shape;
  field = tiny_field;
  singleton = λ k t. word t;
  from_str = λ t. Decoded.ok (word t);
  decode_id = tiny_id;
  decode_request = tiny_request;
  decode_notification = λ v. Decoded.err (text "no notification");
  decode_response = λ v. Decoded.err (text "no response");
}

abbrev ping : Tiny
ping = call (some (text "ping")) (some (text "7"))

abbrev broken : Tiny
broken = call (some []) (some (text "7"))

abbrev ping_request : JsonRpcRequest Tiny
ping_request = record { id = string (text "7"); method = text "ping"; params = none }

ping_parses : from_value tiny ping ≡ ok (request ping_request)
unfolding from_value text text_eq
ping_parses = refl

abbrev refusal : McpError Tiny
refusal = invalid_request_with (string (text "7")) (text "invalid request: " ++ text "no method")

broken_fails : from_value tiny broken ≡ err refusal
unfolding from_value text text_eq
broken_fails = refl

has_method : is_some (tiny.field (text "method") broken) ≡ true
unfolding text text_eq
has_method = refl

has_id : tiny.field (text "id") broken ≡ some (word (text "7"))
unfolding text text_eq
has_id = refl
