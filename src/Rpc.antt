-- ===== src/Rpc.antt =====
-- src/types/jsonrpc.rs: ids, errors and messages of JSON-RPC 2.0.
-- `V` is `serde_json::Value`; what the code asks of it is the interface `Rpc.Json`.
pub mod Json
pub mod Classify
mod Tests
use sml_mcps.Prelude.{ℕ, ◌≡◌, ◌↔◌, Bool, true, false, Option, none, some, arith}
use sml_mcps.Prelude.Eq.{Eq}
use sml_mcps.Prelude.Int.{ℤ, neg, int_eq, int_eq_iff}
use sml_mcps.Prelude.Text.{Text, text_eq, text_eq_iff}

pub data RequestId : Type 0 where
  number : ℤ → RequestId
  string : Text → RequestId
  null : RequestId

-- The derived `PartialEq`.
unfoldable pub id_eq : RequestId → RequestId → Bool
id_eq (number a) (number b) = int_eq a b
id_eq (string a) (string b) = text_eq a b
id_eq null null = true
id_eq _ _ = false

pub id_eq_iff : (a b : RequestId) → (id_eq a b ≡ true) ↔ (a ≡ b)
unfolding id_eq
id_eq_iff (number a) (number b) = ground (arith, int_eq_iff a b)
id_eq_iff (string a) (string b) = ground (arith, text_eq_iff a b)
id_eq_iff _ _ = ground arith

instance abbrev pub id_has_eq : Eq RequestId
id_has_eq = record { beq = id_eq; beq_iff = id_eq_iff }

-- The version field is "2.0" in every message there is, so it is left out of the records.
pub record JsonRpcError (V : Type 0) : Type 0 where
  pub code : ℤ
  pub message : Text
  pub error_data : Option V

pub record JsonRpcRequest (V : Type 0) : Type 0 where
  pub id : RequestId
  pub method : Text
  pub params : Option V

pub record JsonRpcResponse (V : Type 0) : Type 0 where
  pub id : RequestId
  pub result : Option V
  pub error : Option (JsonRpcError V)

pub record JsonRpcNotification (V : Type 0) : Type 0 where
  pub method : Text
  pub params : Option V

pub data JsonRpcMessage (V : Type 0) : Type 0 where
  request : JsonRpcRequest V → JsonRpcMessage V
  notification : JsonRpcNotification V → JsonRpcMessage V
  response : JsonRpcResponse V → JsonRpcMessage V

module _ {V : Type 0} where
  -- `JsonRpcError::new`
  abbrev pub new_error : ℤ → Text → JsonRpcError V
  new_error code message = record { code = code; message = message; error_data = none }

  -- `JsonRpcError::with_data`
  abbrev pub with_data : V → JsonRpcError V → JsonRpcError V
  with_data d e = record e { error_data = some d }

  abbrev pub parse_error : Text → JsonRpcError V
  parse_error = new_error (neg 32700)

  abbrev pub invalid_request : Text → JsonRpcError V
  invalid_request = new_error (neg 32600)

  abbrev pub method_not_found : Text → JsonRpcError V
  method_not_found = new_error (neg 32601)

  abbrev pub invalid_params : Text → JsonRpcError V
  invalid_params = new_error (neg 32602)

  abbrev pub internal_error : Text → JsonRpcError V
  internal_error = new_error (neg 32603)

  -- `JsonRpcMessage::response`
  abbrev pub success_response : RequestId → V → JsonRpcMessage V
  success_response id v = response (record { id = id; result = some v; error = none })

  -- `JsonRpcMessage::error`
  abbrev pub error_response : RequestId → JsonRpcError V → JsonRpcMessage V
  error_response id e = response (record { id = id; result = none; error = some e })
