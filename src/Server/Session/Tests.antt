-- ===== src/Server/Session/Tests.antt =====
-- The handshake of src/server.rs on a short session, and its theorems there.
use sml_mcps.Prelude.{◌≡◌, refl, true, false, Option, none, some, List, [], ◌∷◌, length}
use sml_mcps.Prelude.Text.{Text, text, text_eq}
use sml_mcps.Rpc.{RequestId, JsonRpcRequest}
use sml_mcps.Rpc.Json
use sml_mcps.Rpc.Json.{Decoded}
use sml_mcps.Server.Session.{
  Session, InitializeParams, refused, agreed_on, runs, ping, list_tools, serve, too_early,
  already_initialized, dispatch_request, check_initialized, route, other_route, handle_initialize,
  negotiate, find_version,
}
use sml_mcps.Server.Session.Gate.{IsGated, serve-IsGated}

abbrev strict : Session Text
strict = record {
  require_initialization = true;
  supported_versions = text "2025-11-25" ∷ text "2025-03-26" ∷ [];
  initialized = false;
  negotiated_version = none;
  client_capabilities = [];
}

-- The parameters are the version.
abbrev read_params : Text → Decoded (InitializeParams Text)
read_params t = Json.Decoded.ok (record { protocol_version = t; capabilities = [] })

abbrev no_params : InitializeParams Text
no_params = record { protocol_version = []; capabilities = [] }

abbrev call : Text → Option Text → JsonRpcRequest Text
call m p = record { id = RequestId.null; method = m; params = p }

abbrev requests : List (JsonRpcRequest Text)
requests =
    call (text "tools/list") none
    ∷ call (text "ping") none
    ∷ call (text "initialize") (some (text "2025-03-26"))
    ∷ call (text "tools/list") none
    ∷ call (text "initialize") none
    ∷ []

served :
    serve read_params no_params requests strict
    ≡ refused (too_early (text "tools/list"))
      ∷ runs ping
      ∷ agreed_on (text "2025-03-26")
      ∷ runs list_tools
      ∷ refused already_initialized
      ∷ []
unfolding serve dispatch_request check_initialized route other_route handle_initialize negotiate
    find_version text text_eq
served = refl

serve-IsGated_example : IsGated false (serve read_params no_params requests strict)
serve-IsGated_example = serve-IsGated read_params no_params requests strict refl

ten_long : (length (text "2025-11-25") ≡ 10) × (length (text "2025-03-26") ≡ 10)
unfolding text
ten_long = (refl, refl)

abbrev IsTenLong : Text → Type 0
IsTenLong t = length t ≡ 10
