-- ===== src/Rpc/Classify/Shapes.antt =====
-- Which id a JSON value that cannot be read as a message is answered with.
use sml_mcps.Prelude.{◌≡◌, ◌⊎◌, true, false, some, arith, is_some}
use sml_mcps.Prelude.Text.{text}
use sml_mcps.Rpc.{RequestId}
use sml_mcps.Rpc.Json.{Json, Shape}
use sml_mcps.Error.{McpError, err, is_malformed, error_id}
use sml_mcps.Rpc.Classify.{is_null, from_value}

module _ {V : Type 0} (j : Json V) where
  -- Every refusal is a malformed message, which the server answers and reads on. Its answer has
  -- the id null, or it has the id that the object carries beside a `method`.
  pub from_value-error_id :
      (v : V) (e : McpError V)
      → from_value j v ≡ err e
      → (is_malformed e ≡ true)
        × ((error_id e ≡ RequestId.null)
            ⊎ ((w : V) × (is_some (j.field (text "method") v) ≡ true)
                × (j.field (text "id") v ≡ some w)
                × (j.decode_id w ≡ some (error_id e))))
  unfolding from_value is_malformed error_id
  from_value-error_id v e h = ground arith

  -- An object with a `method` and an `id` that is not null and reads as a JSON-RPC id, where it is
  -- refused all the same, is refused with that id.
  pub from_value_correlated :
      (v w : V) (i : RequestId) (e : McpError V)
      → j.shape v ≡ Shape.object
      → is_some (j.field (text "method") v) ≡ true
      → j.field (text "id") v ≡ some w
      → is_null (j.shape w) ≡ false
      → j.decode_id w ≡ some i
      → from_value j v ≡ err e
      → error_id e ≡ i
  unfolding from_value error_id
  from_value_correlated v w i e s m f n d h = ground arith
