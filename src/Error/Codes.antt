-- ===== src/Error/Codes.antt =====
-- Which JSON-RPC codes the errors of src/types/error.rs are answered with.
use sml_mcps.Prelude.{◌≡◌, ◌⊎◌, ◌↔◌, Bool, true, false, arith}
use sml_mcps.Prelude.Int.{neg}
use sml_mcps.Rpc.Json.{Json}
use sml_mcps.Error.{McpError, resource_not_found, passthrough, to_jsonrpc_error, is_malformed}

abbrev pub is_passthrough : {V : Type 0} → McpError V → Bool
is_passthrough (passthrough e) = true
is_passthrough _ = false

abbrev pub is_resource : {V : Type 0} → McpError V → Bool
is_resource (resource_not_found uri) = true
is_resource _ = false

module _ {V : Type 0} (j : Json V) where
  -- Of the errors that are not passed on from elsewhere: the ones that the server takes for a
  -- malformed message are exactly those with the codes -32700 and -32600, and only a missing
  -- resource has the code -32002.
  pub to_jsonrpc_error_codes :
      (e : McpError V)
      → is_passthrough e ≡ false
      → ((is_malformed e ≡ true)
          ↔ (((to_jsonrpc_error j e).code ≡ neg 32700) ⊎ ((to_jsonrpc_error j e).code ≡ neg 32600)))
        × ((is_resource e ≡ true) ↔ ((to_jsonrpc_error j e).code ≡ neg 32002))
  unfolding to_jsonrpc_error is_malformed
  to_jsonrpc_error_codes _ h = ground arith
