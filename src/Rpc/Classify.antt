-- ===== src/Rpc/Classify.antt =====
-- src/types/jsonrpc.rs: `JsonRpcMessage::parse`, `JsonRpcMessage::from_value`, `type_name_of`.
pub mod Shapes
use sml_mcps.Prelude.{
  ◌≡◌, refl, ℕ, zero, suc, Bool, true, false, ◌&&◌, ◌||◌, not, Option, none, some, [], ◌∷◌, ◌++◌,
  leb, ◌==◌, if◌then◌else◌, is_some,
}
use sml_mcps.Prelude.Text.{Text, text, strip_prefix}
use sml_mcps.Rpc.{
  RequestId, JsonRpcRequest, JsonRpcResponse, JsonRpcNotification, JsonRpcMessage, request,
  notification, response,
}
use sml_mcps.Rpc.Json.{Json, Shape, Decoded, ok, err}
use sml_mcps.Error.{McpError, Result, invalid_message, invalid_request_with, json}

-- The number of bytes of the white space character (`char::is_whitespace`) at the front, or 0.
unfoldable pub whitespace_len : Text → ℕ
whitespace_len [] = 0
whitespace_len (a ∷ []) = if leb 9 a && leb a 13 || a == 32 then 1 else 0
whitespace_len (a ∷ b ∷ []) =
    if leb 9 a && leb a 13 || a == 32
    then 1
    else if a == 0xc2 && (b == 0x85 || b == 0xa0)
    then 2
    else 0
whitespace_len (a ∷ b ∷ c ∷ s) =
    if leb 9 a && leb a 13 || a == 32
    then 1
    else if a == 0xc2 && (b == 0x85 || b == 0xa0)
    then 2
    else if a == 0xe1 && b == 0x9a && c == 0x80
        || a == 0xe2
          && b == 0x80
          && (leb 0x80 c && leb c 0x8a || c == 0xa8 || c == 0xa9 || c == 0xaf)
        || a == 0xe2 && b == 0x81 && c == 0x9f
        || a == 0xe3 && b == 0x80 && c == 0x80
    then 3
    else 0

-- The number counts the bytes of a white space character that are still to be skipped.
trim_from : ℕ → Text → Text
trim_from n [] = []
trim_from (suc k) (c ∷ s) = trim_from k s
trim_from zero (c ∷ s) = elim (whitespace_len (c ∷ s)) [ zero ↦ c ∷ s | suc k ↦ trim_from k s ]

-- `str::trim_start`
unfoldable pub trim_start : Text → Text
unfolding trim_from whitespace_len
trim_start = trim_from 0

pub trim_start-keep : (c : ℕ) (s : Text) → whitespace_len (c ∷ s) ≡ 0 → trim_start (c ∷ s) ≡ c ∷ s
unfolding trim_start
trim_start-keep c s h = rw (trim_from, h) refl

unfoldable pub starts_with_bracket : Text → Bool
starts_with_bracket [] = false
starts_with_bracket (c ∷ s) = c == b'['

unfoldable pub type_name : Shape → Text
type_name Shape.null = text "null"
type_name Shape.bool = text "a boolean"
type_name Shape.number = text "a number"
type_name Shape.string = text "a string"
type_name Shape.array = text "an array"
type_name Shape.object = text "an object"

abbrev pub is_null : Shape → Bool
is_null Shape.null = true
is_null _ = false

abbrev pub is_object : Shape → Bool
is_object Shape.object = true
is_object _ = false

module _ {V : Type 0} where
  -- `.map(JsonRpcMessage::Request).map_err(…)` and its two siblings
  as_request : RequestId → Decoded (JsonRpcRequest V) → Result V (JsonRpcMessage V)
  as_request id (ok r) = Result.ok (request r)
  as_request id (err e) = Result.err (invalid_request_with id (text "invalid request: " ++ e))

  as_notification : Decoded (JsonRpcNotification V) → Result V (JsonRpcMessage V)
  as_notification (ok n) = Result.ok (notification n)
  as_notification (err e) = Result.err (invalid_message (text "invalid notification: " ++ e))

  as_response : Decoded (JsonRpcResponse V) → Result V (JsonRpcMessage V)
  as_response (ok r) = Result.ok (response r)
  as_response (err e) = Result.err (invalid_message (text "invalid response: " ++ e))

module _ {V : Type 0} (j : Json V) where
  with_id : V → Option RequestId → Result V (JsonRpcMessage V)
  with_id v none = Result.err (invalid_message (text "request id must be a string or an integer"))
  with_id v (some id) = as_request id (j.decode_request v)

  -- the `match (has_method, id)`
  discriminate : V → Bool → Option V → Result V (JsonRpcMessage V)
  discriminate v true (some id) =
      if is_null (j.shape id)
      then Result.err (invalid_message (text "request id must not be null"))
      else with_id v (j.decode_id id)
  discriminate v true none = as_notification (j.decode_notification v)
  discriminate v false (some id) = as_response (j.decode_response v)
  discriminate v false none = Result.err (
      invalid_message
        (text "a JSON-RPC message needs either `method` (request/notification) or `id` (response)"))

  unfoldable pub from_value : V → Result V (JsonRpcMessage V)
  unfolding discriminate with_id as_request as_notification as_response
  from_value v =
      if is_object (j.shape v)
      then discriminate v (is_some (j.field (text "method") v)) (j.field (text "id") v)
      else Result.err (
          invalid_message
            (text "a JSON-RPC message must be a JSON object, got " ++ type_name (j.shape v)))

  from_decoded : Decoded V → Result V (JsonRpcMessage V)
  from_decoded (err e) = Result.err (json e)
  from_decoded (ok v) = from_value v

  unfoldable pub parse : Text → Result V (JsonRpcMessage V)
  unfolding from_decoded
  parse t =
      if starts_with_bracket (trim_start t)
      then Result.err (
          invalid_message (
            text
              "JSON-RPC batching is not supported; send a single request, notification, or response per message"))
      else from_decoded (j.from_str t)
