-- ===== src/Error.antt =====
-- src/types/error.rs: the errors of the server, and the JSON-RPC error each is answered with.
pub mod Codes
use sml_mcps.Prelude.{Bool, true, false, ◌++◌}
use sml_mcps.Prelude.Int.{neg}
use sml_mcps.Prelude.Text.{Text, text}
use sml_mcps.Rpc.{
  RequestId, JsonRpcError, new_error, with_data, parse_error, invalid_request, method_not_found,
  invalid_params, internal_error,
}
use sml_mcps.Rpc.Json.{Json}

-- `std::io::ErrorKind`, the kinds that the code tells apart
pub data IoKind : Type 0 where
  interrupted would_block timed_out unexpected_eof : IoKind
  connection_reset connection_aborted broken_pipe other : IoKind

pub data McpError (V : Type 0) : Type 0 where
  io : IoKind → Text → McpError V
  json : Text → McpError V
  transport_closed : McpError V
  timeout invalid_message : Text → McpError V
  invalid_request_with : RequestId → Text → McpError V
  method_not_found_of invalid_params_of internal tool_error : Text → McpError V
  resource_not_found prompt_not_found : Text → McpError V
  passthrough : JsonRpcError V → McpError V
  auth : Text → McpError V

-- `Result<T>`
pub data Result (V : Type 0) (A : Type 0) : Type 0 where
  ok : A → Result V A
  err : McpError V → Result V A

infixl 5 ◌>>=◌
abbrev pub ◌>>=◌ : {V A B : Type 0} → Result V A → (A → Result V B) → Result V B
ok a >>= f = f a
err e >>= f = err e

module _ {V : Type 0} (j : Json V) where
  -- `McpError::to_jsonrpc_error`
  unfoldable pub to_jsonrpc_error : McpError V → JsonRpcError V
  to_jsonrpc_error (json e) = parse_error e
  to_jsonrpc_error (invalid_message m) = invalid_request m
  to_jsonrpc_error (invalid_request_with id m) = invalid_request m
  to_jsonrpc_error (method_not_found_of m) = method_not_found (text "Method not found: " ++ m)
  to_jsonrpc_error (invalid_params_of m) = invalid_params m
  to_jsonrpc_error (internal m) = internal_error m
  to_jsonrpc_error (tool_error m) = new_error (neg 32000) m
  to_jsonrpc_error (resource_not_found uri) =
      with_data (j.singleton (text "uri") uri)
        (new_error (neg 32002) (text "Resource not found: " ++ uri))
  to_jsonrpc_error (prompt_not_found name) =
      with_data (j.singleton (text "name") name)
        (invalid_params (text "Prompt not found: " ++ name))
  to_jsonrpc_error (passthrough e) = e
  to_jsonrpc_error (io kind m) = internal_error m
  to_jsonrpc_error transport_closed = internal_error (text "Transport closed")
  to_jsonrpc_error (timeout m) =
      with_data (j.singleton (text "reason") (text "timeout"))
        (internal_error (text "Timed out: " ++ m))
  to_jsonrpc_error (auth m) = new_error (neg 32003) (text "Auth error: " ++ m)

-- src/server.rs
module _ {V : Type 0} where
  unfoldable pub is_malformed : McpError V → Bool
  is_malformed (json e) = true
  is_malformed (invalid_message m) = true
  is_malformed (invalid_request_with id m) = true
  is_malformed _ = false

  unfoldable pub error_id : McpError V → RequestId
  error_id (invalid_request_with id m) = id
  error_id _ = RequestId.null
