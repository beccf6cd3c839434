-- ===== src/Server.antt =====
-- src/server.rs: how a thread waits for a client's answer, and what becomes of the other
-- messages that it reads.
pub mod Sorted
pub mod Await
pub mod Session
pub mod Logging
mod Tests
use sml_mcps.Prelude.{
  ℕ, ◌≡◌, Bool, true, false, not, Option, none, some, List, [], ◌∷◌, ◌++◌, if◌then◌else◌,
}
use sml_mcps.Prelude.Text.{Text, text, text_eq}
use sml_mcps.Rpc.{
  RequestId, id_eq, JsonRpcError, JsonRpcRequest, JsonRpcResponse, JsonRpcNotification,
  JsonRpcMessage, request, notification, response, error_response, with_data, internal_error,
}
use sml_mcps.Rpc.Json.{Json}
use sml_mcps.Error.{McpError, Result, err, timeout, internal}
use sml_mcps.Broker.{Broker, take_parked, into_result, deliver, abandon, defer}

-- The broker, and what has been written to the client.
pub record Env (V : Type 0) : Type 0 where
  pub broker : Broker V
  pub written : List (JsonRpcMessage V)

unfoldable pub overloaded_reason : Text
overloaded_reason = text "overloaded"

abbrev overload_text : Text → Text
overload_text method =
    text "`"
    ++ (method ++ text "` was refused: too many requests are already queued behind a blocking call")

module _ {V : Type 0} (j : Json V) where
  unfoldable pub overloaded_response : JsonRpcMessage V → Option (JsonRpcMessage V)
  overloaded_response (request r) = some (
      error_response r.id (
        with_data (j.singleton (text "reason") overloaded_reason)
          (internal_error (overload_text r.method))))
  overloaded_response (notification n) = none
  overloaded_response (response r) = none

  abbrev decode_field : Option V → Option RequestId
  decode_field none = none
  decode_field (some v) = j.decode_id v

  abbrev requested_id : Option V → Option RequestId
  requested_id none = none
  requested_id (some p) = decode_field (j.field (text "requestId") p)

  unfoldable pub cancelled_request_id : JsonRpcNotification V → Option RequestId
  cancelled_request_id n =
      if text_eq n.method (text "notifications/cancelled") then requested_id n.params else none

  abbrev names : RequestId → Option RequestId → Bool
  names id none = false
  names id (some k) = id_eq k id

  unfoldable pub cancelled_here : JsonRpcMessage V → RequestId → Bool
  cancelled_here (notification n) id = names id (cancelled_request_id n)
  cancelled_here (request r) id = false
  cancelled_here (response r) id = false

  abbrev pub answer_refused : Option (JsonRpcMessage V) → List (JsonRpcMessage V)
  answer_refused none = []
  answer_refused (some m) = elim (overloaded_response m) [ none ↦ [] | some a ↦ a ∷ [] ]

  -- `ToolEnv::shed_or_defer`, with a transport to write to
  unfoldable pub shed_or_defer : JsonRpcMessage V → Env V → Env V
  shed_or_defer m s =
      let (refused, b) = defer m s.broker in
      record { broker = b; written = s.written ++ answer_refused refused }

-- What one round of the wait meets after it has looked for a parked answer: the deadline has
-- passed, the transport fails, or a message has been read.
pub data Turn (V : Type 0) : Type 0 where
  expired : Turn V
  failed : McpError V → Turn V
  arrived : JsonRpcMessage V → Turn V

-- How the wait ends, what it has not met, and the state it leaves. Without an outcome, it is
-- still waiting.
pub record Waited (V : Type 0) : Type 0 where
  pub outcome : Option (Result V V)
  pub rest : List (Turn V)
  pub env : Env V

module _ {V : Type 0} where
  abbrev pub ended : Result V V → List (Turn V) → Env V → Waited V
  ended result rest s = record { outcome = some result; rest = rest; env = s }

  -- a cancellation gives the request up
  unfoldable pub given_up : RequestId → JsonRpcMessage V → Env V → Env V
  given_up id (response r) s = s
  given_up id m s = record s { broker = abandon id s.broker }

  -- the state after `take_parked`
  abbrev pub looked : RequestId → Env V → Env V
  looked id s = record s { broker = (take_parked id s.broker).1 }

module _ {V : Type 0} (j : Json V) where
  -- the arms of the `match` that do not end the wait
  unfoldable pub place : JsonRpcMessage V → Env V → Env V
  place (response r) s = record s { broker = deliver r s.broker }
  place m s = shed_or_defer j m s

  abbrev pub place_turn : Turn V → Env V → Env V
  place_turn (arrived m) s = place m s
  place_turn _ s = s

module _ {V : Type 0} (j : Json V) (show_code : JsonRpcError V → Text)
    (debug_id : RequestId → Text) where
  unfoldable pub no_response : RequestId → McpError V
  no_response id = timeout (text "no response to request " ++ debug_id id)

  unfoldable pub client_cancelled : RequestId → McpError V
  client_cancelled id = internal (text "the client cancelled request " ++ debug_id id)

  -- whether a message ends the wait, and how
  unfoldable pub ends_wait : RequestId → JsonRpcMessage V → Option (Result V V)
  ends_wait id (response r) = if id_eq r.id id then some (into_result show_code r) else none
  ends_wait id m = if cancelled_here j m id then some (err (client_cancelled id)) else none

  abbrev pub on_message :
      Option (Result V V)
      → RequestId
      → JsonRpcMessage V
      → List (Turn V)
      → Env V
      → Waited V
      → Waited V
  on_message (some result) id m ts s onward = ended result ts (given_up id m s)
  on_message none id m ts s onward = onward

  abbrev pub on_turn : RequestId → Turn V → List (Turn V) → Env V → Waited V → Waited V
  on_turn id expired ts s onward = ended (err (no_response id)) ts s
  on_turn id (failed e) ts s onward = ended (err e) ts s
  on_turn id (arrived m) ts s onward = on_message (ends_wait id m) id m ts s onward

  -- the answer that is already there, or what the turn brings
  abbrev pub or_turn :
      Option (JsonRpcResponse V) → RequestId → Turn V → List (Turn V) → Env V → Waited V → Waited V
  or_turn (some r) id t ts s onward = ended (into_result show_code r) (t ∷ ts) s
  or_turn none id t ts s onward = on_turn id t ts s onward

  abbrev pub or_wait : Option (JsonRpcResponse V) → Env V → Waited V
  or_wait (some r) s = ended (into_result show_code r) [] s
  or_wait none s = record { outcome = none; rest = []; env = s }

  -- `ToolEnv::await_response`, over what the clock and the transport yield in turn
  unfoldable pub await_response : RequestId → List (Turn V) → Env V → Waited V
  await_response id [] s = or_wait (take_parked id s.broker).0 (looked id s)
  await_response id (t ∷ ts) s =
      let onward = await_response id ts (place_turn j t (looked id s)) in
      or_turn (take_parked id s.broker).0 id t ts (looked id s) onward
