-- ===== src/Rpc/Json.antt =====
-- What the code relies on of serde_json and of the `Deserialize` impls that serde derives.
-- The laws are the documented behaviour of `Value` and of derived deserialization.
use sml_mcps.Prelude.{Option}
use sml_mcps.Prelude.Text.{Text}
use sml_mcps.Rpc.{RequestId, JsonRpcRequest, JsonRpcResponse, JsonRpcNotification}

-- The six variants of `serde_json::Value`.
pub data Shape : Type 0 where
  null bool number string array object : Shape

-- A decoder yields the value, or the text of serde's error.
pub data Decoded (A : Type 0) : Type 0 where
  ok : A → Decoded A
  err : Text → Decoded A

pub record Json (V : Type 0) : Type 0 where
  pub shape : V → Shape
  -- `object.get(key)`; nothing on a value that is no object
  pub field : Text → V → Option V
  -- `json!({ key: text })` with one key
  pub singleton : Text → Text → V
  -- `serde_json::from_str`
  pub from_str : Text → Decoded V
  pub decode_id : V → Option RequestId
  pub decode_request : V → Decoded (JsonRpcRequest V)
  pub decode_notification : V → Decoded (JsonRpcNotification V)
  pub decode_response : V → Decoded (JsonRpcResponse V)
