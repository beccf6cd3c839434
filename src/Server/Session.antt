-- ===== src/Server/Session.antt =====
-- src/server.rs: the handshake, and which handler a request reaches.
pub mod Gate
mod Tests
use sml_mcps.Prelude.{
  ◌≡◌, Bool, true, false, not, Option, none, some, List, [], ◌∷◌, ◌++◌, if◌then◌else◌,
}
use sml_mcps.Prelude.Text.{Text, text, text_eq}
use sml_mcps.Rpc.{JsonRpcRequest}
use sml_mcps.Rpc.Json.{Decoded}
use sml_mcps.Rpc.Json
use sml_mcps.Error.{
  McpError, Result, ok, err, invalid_message, invalid_params_of, method_not_found_of,
}

-- The fields of `Server` and of its `ServerConfig` that the handshake reads and writes.
pub record Session (V : Type 0) : Type 0 where
  pub require_initialization : Bool
  pub supported_versions : List Text
  pub initialized : Bool
  pub negotiated_version : Option Text
  pub client_capabilities : V

pub record InitializeParams (V : Type 0) : Type 0 where
  pub protocol_version : Text
  pub capabilities : V

-- The handlers of `dispatch_request`, by the methods that they answer.
pub data Method : Type 0 where
  initialize ping list_tools call_tool list_resources list_resource_templates : Method
  read_resource list_prompts get_prompt set_level : Method
  task_get task_result task_list task_cancel : Method

abbrev pub latest_version : Text
latest_version = text "2025-11-25"

unfoldable pub other_route : Text → Option Method
other_route m =
    if text_eq m (text "ping")
    then some ping
    else if text_eq m (text "tools/list")
    then some list_tools
    else if text_eq m (text "tools/call")
    then some call_tool
    else if text_eq m (text "resources/list")
    then some list_resources
    else if text_eq m (text "resources/templates/list")
    then some list_resource_templates
    else if text_eq m (text "resources/read")
    then some read_resource
    else if text_eq m (text "prompts/list")
    then some list_prompts
    else if text_eq m (text "prompts/get")
    then some get_prompt
    else if text_eq m (text "logging/setLevel")
    then some set_level
    else if text_eq m (text "tasks/get")
    then some task_get
    else if text_eq m (text "tasks/result")
    then some task_result
    else if text_eq m (text "tasks/list")
    then some task_list
    else if text_eq m (text "tasks/cancel")
    then some task_cancel
    else none

unfoldable pub route : Text → Option Method
route m = if text_eq m (text "initialize") then some initialize else other_route m

-- `find` of the version that is asked for
unfoldable pub find_version : Text → List Text → Option Text
find_version asked [] = none
find_version asked (v ∷ vs) = if text_eq v asked then some v else find_version asked vs

abbrev first_or : Text → List Text → Text
first_or d [] = d
first_or d (v ∷ vs) = v

abbrev agreed : Option Text → List Text → Text
agreed none vs = first_or latest_version vs
agreed (some v) vs = v

unfoldable pub negotiate : Text → List Text → Text
negotiate asked vs = agreed (find_version asked vs) vs

module _ {V : Type 0} where
  abbrev pub already_initialized : McpError V
  already_initialized =
      invalid_message (text "already initialized; the handshake happens once per session")

  abbrev pub too_early : Text → McpError V
  too_early m = invalid_message (text "`" ++ (m ++ text "` before `initialize`"))

  unfoldable pub check_initialized : Text → Session V → Result V Unit
  check_initialized m s =
      if not s.require_initialization
      then ok tt
      else if text_eq m (text "ping")
      then ok tt
      else if text_eq m (text "initialize")
      then (if s.initialized then err already_initialized else ok tt)
      else if not s.initialized
      then err (too_early m)
      else ok tt

-- What a request comes to: an error of the gate or of an unknown method, a handshake that was
-- made or that failed, or a handler that runs.
pub data Step (V : Type 0) : Type 0 where
  refused : McpError V → Step V
  agreed_on : Text → Step V
  bad_handshake : McpError V → Step V
  runs : Method → Step V

-- `decode` reads the parameters, and `default` is what stands for absent ones.
module _ {V : Type 0} (decode : V → Decoded (InitializeParams V))
    (default : InitializeParams V) where
  abbrev params_of : Option V → Decoded (InitializeParams V)
  params_of none = Json.Decoded.ok default
  params_of (some p) = decode p

  abbrev shake : Decoded (InitializeParams V) → Session V → Step V × Session V
  shake (Json.Decoded.err e) s =
      (bad_handshake (invalid_params_of (text "Invalid initialize params: " ++ e)), s)
  shake (Json.Decoded.ok p) s =
      let version = negotiate p.protocol_version s.supported_versions in
      (
        agreed_on version,
        record s {
          client_capabilities = p.capabilities;
          initialized = true;
          negotiated_version = some version;
        },
      )

  unfoldable pub handle_initialize : JsonRpcRequest V → Session V → Step V × Session V
  handle_initialize r s = shake (params_of r.params) s

  abbrev pub to_handler : Option Method → JsonRpcRequest V → Session V → Step V × Session V
  to_handler none r s = (refused (method_not_found_of r.method), s)
  to_handler (some initialize) r s = handle_initialize r s
  to_handler (some m) r s = (runs m, s)

  abbrev pub if_open : Result V Unit → JsonRpcRequest V → Session V → Step V × Session V
  if_open (err e) r s = (refused e, s)
  if_open (ok u) r s = to_handler (route r.method) r s

  unfoldable pub dispatch_request : JsonRpcRequest V → Session V → Step V × Session V
  dispatch_request r s = if_open (check_initialized r.method s) r s

  -- what the requests of a session come to, one after the other
  unfoldable pub serve : List (JsonRpcRequest V) → Session V → List (Step V)
  serve [] s = []
  serve (r ∷ rs) s =
      let (step, s') = dispatch_request r s in let later = serve rs s' in step ∷ later
