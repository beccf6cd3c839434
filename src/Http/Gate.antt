-- ===== src/Http/Gate.antt =====
-- src/transport/http.rs: `HttpServer`, the answers that stand before a message is read. Parameters:
-- what serde prints of an error object, what `Display` prints of an error, what serde prints of the
-- published metadata, and `std`'s reading of an IP address.
pub mod Checks
pub mod Discovery
pub mod Challenged
use sml_mcps.Prelude.{
  ℕ, ◌≤◌, max, Bool, true, false, not, ◌&&◌, ◌||◌, Option, none, some, List, [], ◌∷◌, ◌++◌, ◌==◌,
  if◌then◌else◌,
}
use sml_mcps.Prelude.Text.{Text, text, text_eq}
use sml_mcps.Prelude.Int.{ℤ, neg}
use sml_mcps.Prelude.Decimal.{show}
use sml_mcps.Line.{Bytes}
use sml_mcps.Error.{McpError, json, invalid_message, invalid_request_with}
use sml_mcps.Error
use sml_mcps.Http1.{
  Method, get, head, post, delete, other, Headers, Head, BodyError, too_large, malformed,
  incomplete, timed_out, Outcome, ok, err, Limits, default_limits,
}
use sml_mcps.Http1.Response.{Response, new_response, with_header, with_body, closing}
use sml_mcps.Http1.ReadHead.{header_of}
use sml_mcps.Origin.{OriginPolicy, loopback, is_allowed, is_listed, split_once}
use sml_mcps.Auth.Resource.{
  ProtectedResourceMetadata, resource_uri, metadata_path, metadata_url, unauthorized_challenge,
  insufficient_scope_challenge, split_at_slash, join,
}
use sml_mcps.Http.{Processed, body, accepted}
use sml_mcps.Http.Sessions.{Sessions, terminate}

abbrev pub assumed_protocol_version : Text
assumed_protocol_version = text "2025-03-26"

abbrev pub session_header : Text
session_header = text "Mcp-Session-Id"

-- the text in front of the first `?` or `#`
unfoldable pub before_query : Text → Text
before_query [] = []
before_query (b ∷ bs) = if b == b'?' || b == b'#' then [] else b ∷ before_query bs

abbrev pub starts_with_slash : Text → Bool
starts_with_slash [] = false
starts_with_slash (b ∷ bs) = b == b'/'

abbrev pub slash_or : Text → Text
slash_or [] = text "/"
slash_or (b ∷ bs) = b ∷ bs

abbrev pub behind_authority : Text → Option (Text × Text) → Text
behind_authority target none = target
behind_authority target (some (scheme, rest)) = slash_or (split_at_slash rest).1

unfoldable pub path_of : Text → Text
unfolding before_query split_once split_at_slash
path_of target = before_query (
    if starts_with_slash target
    then target
    else behind_authority target (split_once (text "://") target))

-- The parts of `config` that are read here stand beside the others.
pub record HttpServer : Type 0 where
  pub supported_versions : List Text
  pub max_message_bytes : ℕ
  pub endpoint : Text
  pub policy : OriginPolicy
  pub published : Option ProtectedResourceMetadata
  pub required_scopes : List Text
  pub limits : Limits

unfoldable pub new_server : List Text → ℕ → HttpServer
new_server versions max_bytes = record {
  supported_versions = versions;
  max_message_bytes = max_bytes;
  endpoint = text "/mcp";
  policy = loopback;
  published = none;
  required_scopes = [];
  limits = record default_limits { max_body_bytes = max_bytes };
}

unfoldable pub max_connections : ℕ → HttpServer → HttpServer
max_connections n s = record s { limits = record s.limits { max_connections = max n 1 } }

-- `MIN_TIMEOUT` is a millisecond.
unfoldable pub read_timeout : ℕ → HttpServer → HttpServer
read_timeout t s = record s { limits = record s.limits { read_timeout = max t 1 } }

unfoldable pub idle_timeout : ℕ → HttpServer → HttpServer
idle_timeout t s = record s { limits = record s.limits { idle_timeout = max t 1 } }

-- A request: its method, target and headers, and what `Request::read_body` gives under a limit.
pub record Request : Type 0 where
  pub method : Method
  pub target : Text
  pub headers : Headers
  pub incoming : ℕ → Outcome BodyError Bytes

unfoldable pub header_value : Request → Text → Option Text
unfolding header_of
header_value r name = header_of r.headers name

unfoldable pub body_response : Text → Text → Response
unfolding new_response with_body
body_response content_type t = with_body content_type t (new_response 200)

unfoldable pub empty_response : ℕ → Response
unfolding new_response
empty_response status = new_response status

unfoldable pub status_and_code : {V : Type 0} → McpError V → ℕ × ℕ
status_and_code (json m) = (400, 32700)
status_and_code (invalid_message m) = (400, 32600)
status_and_code (invalid_request_with id m) = (400, 32600)
status_and_code _ = (500, 32603)

module _ (error_json : ℤ → Text → Text) where
  unfoldable pub error_response : ℕ → ℕ → Text → Response
  unfolding new_response with_body
  error_response status code message =
      with_body (text "application/json") (error_json (neg code) message) (new_response status)

  unfoldable pub method_not_allowed : Text → Response
  unfolding error_response with_header
  method_not_allowed allow =
      with_header (text "Allow") allow (error_response 405 32600 (text "Method Not Allowed"))

  unfoldable pub overloaded : Response
  unfolding error_response
  overloaded =
      error_response 503 32603 (text "Service Unavailable: too many connections; retry shortly")

  unfoldable pub too_large_answer : ℕ → Response
  unfolding error_response closing
  too_large_answer limit = closing (
      error_response 413 32600
        (text "Payload Too Large: the body exceeds the " ++ (show limit ++ text " byte limit")))

  abbrev pub body_rejection : ℕ → BodyError → Response
  body_rejection limit too_large = too_large_answer limit
  body_rejection limit malformed =
      closing (error_response 400 32700 (text "Bad Request: unreadable body"))
  body_rejection limit incomplete =
      closing (error_response 400 32700 (text "Bad Request: the body ended early"))
  body_rejection limit timed_out =
      closing (error_response 408 32600 (text "Request Timeout: the body did not arrive in time"))

  abbrev pub or_rejected : ℕ → Outcome BodyError Bytes → Outcome Response Text
  or_rejected limit (ok bs) = ok bs
  or_rejected limit (err e) = err (body_rejection limit e)

  -- `HttpServer::read_body`
  unfoldable pub read_body : HttpServer → Request → Outcome Response Text
  unfolding too_large_answer closing error_response
  read_body s r = or_rejected s.max_message_bytes (r.incoming s.max_message_bytes)

  -- The challenge goes out where metadata is published.
  abbrev pub challenge_from :
      (Text → ProtectedResourceMetadata → Text)
      → ProtectedResourceMetadata
      → Outcome Text Text
      → Option Text
  challenge_from build m (err why) = none
  challenge_from build m (ok uri) = some (build (metadata_url uri) m)

  abbrev pub challenge_of :
      (Text → ProtectedResourceMetadata → Text) → Option ProtectedResourceMetadata → Option Text
  challenge_of build none = none
  challenge_of build (some m) = challenge_from build m (resource_uri m)

  abbrev pub challenged : Response → Option Text → Response
  challenged r none = r
  challenged r (some challenge) = with_header (text "WWW-Authenticate") challenge r

  unfoldable pub challenge : HttpServer → Option Text
  unfolding resource_uri metadata_url unauthorized_challenge
  challenge s = challenge_of (λ url m. unauthorized_challenge url m.scopes_supported) s.published

  unfoldable pub unauthorized : HttpServer → Text → Response
  unfolding error_response with_header challenge
  unauthorized s message = challenged (error_response 401 32600 message) (challenge s)

  -- the challenge that `forbidden` builds
  unfoldable pub scope_challenge : HttpServer → Option Text
  unfolding resource_uri metadata_url insufficient_scope_challenge
  scope_challenge s =
      challenge_of
        (λ url m.
          insufficient_scope_challenge url s.required_scopes
            (some (text "the token does not carry the scopes this request needs")))
        s.published

  abbrev pub missing_text : List Text → Text
  missing_text missing = text "Forbidden: missing scope(s): " ++ join (text " ") missing

  unfoldable pub forbidden : HttpServer → List Text → Response
  unfolding error_response with_header scope_challenge join
  forbidden s missing =
      challenged (error_response 403 32600 (missing_text missing)) (scope_challenge s)

  abbrev pub ended : Bool × Sessions → Response × Sessions
  ended (true, sessions) = (empty_response 204, sessions)
  ended (false, sessions) = (error_response 404 32600 (text "Not Found: no such session"), sessions)

  abbrev pub end_named : Option Text → Sessions → Option Text → Response × Sessions
  end_named owner sessions (some id) = ended (terminate owner id sessions)
  end_named owner sessions none = (
    error_response 400 32600
        (text "Bad Request: DELETE needs an `" ++ (session_header ++ text "` header")),
    sessions,
  )

  unfoldable pub end_session_for : Request → Option Text → Sessions → Response × Sessions
  unfolding header_value terminate empty_response error_response
  end_session_for r owner sessions = end_named owner sessions (header_value r session_header)

  module _ {V : Type 0} (show_error : McpError V → Text) where
    abbrev pub failed_with : ℕ × ℕ → McpError V → Response
    failed_with (status, code) e = error_response status code (show_error e)

    abbrev pub finished : Error.Result V Processed → Response
    finished (Error.ok (body t content_type)) = body_response content_type t
    finished (Error.ok accepted) = empty_response 202
    finished (Error.err e) = failed_with (status_and_code e) e

    unfoldable pub finish : Error.Result V Processed → Response
    unfolding body_response empty_response error_response status_and_code
    finish outcome = finished outcome
