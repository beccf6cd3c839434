-- ===== src/Http/Serving.antt =====
-- src/transport/http.rs: a message answered in its session, with authentication and without. The
-- user's context is a parameter that may panic.
pub mod Admission
use sml_mcps.Prelude.{
  ℕ, Bool, true, false, not, ◌&&◌, ◌||◌, Option, none, some, List, [], ◌∷◌, ◌++◌, if◌then◌else◌,
}
use sml_mcps.Prelude.Text.{Text, text}
use sml_mcps.Prelude.Int.{ℤ}
use sml_mcps.Error.{McpError, internal}
use sml_mcps.Error
use sml_mcps.Server.Logging.{LogLevel, severity}
use sml_mcps.Http1.{Method, get, head, post, delete, other, Outcome, ok, err}
use sml_mcps.Http1.Response.{Response, with_header}
use sml_mcps.Auth.{
  Claims, JwtError, JwtValidator, validate_header, missing_scopes, user_id, tenant_id,
  binds_audience,
}
use sml_mcps.Auth.Resource.{ProtectedResourceMetadata}
use sml_mcps.Http.{HttpTransport, new_transport, Processed, answer_from}
use sml_mcps.Http.Sessions.{
  ClientCapabilities, Session, Sessions, ServerState, restore, absorb, owner_of, put, checkout,
  check_in,
}
use sml_mcps.Http.Gate.{
  HttpServer, Request, header_value, session_header, error_response, read_body, unauthorized,
  forbidden, end_session_for, finish,
}
use sml_mcps.Http.Gate.Checks.{precheck}
use sml_mcps.Http.Process.{Caught, Processing, Outcomes, guarded}

module _ {V Ctx : Type 0} (default_level : LogLevel)
    (setup : ServerState → Caught (Error.Result V ServerState))
    (process_one : Ctx → Option Text → ServerState → HttpTransport → Caught (Processing V)) where
  module _ (error_json : ℤ → Text → Text) (show_error : McpError V → Text)
      (is_empty : ℕ → Option Bool) where
    abbrev pub advertised : Response → Option Text × Sessions → Response × Sessions
    advertised r (none, sessions) = (r, sessions)
    advertised r (some id, sessions) = (with_header session_header id r, sessions)

    abbrev pub checked_in : ℕ → Option Text → Text → ℕ → Sessions → Outcomes V → Response × Sessions
    checked_in now owner id cell sessions (outcome, s) =
        advertised (finish error_json show_error outcome) (
          check_in is_empty now owner id cell
            (record sessions { cells = put sessions.cells cell s }))

    abbrev pub with_text :
        ℕ
        → Option Text
        → Caught Ctx
        → Text
        → ℕ
        → Sessions
        → Outcome Response Text
        → Response × Sessions
    with_text now owner ctx id cell sessions (err rejection) = (rejection, sessions)
    with_text now owner ctx id cell sessions (ok body) =
        checked_in now owner id cell sessions
          (guarded default_level setup process_one ctx owner body (sessions.cells cell))

    abbrev pub in_session :
        HttpServer
        → Request
        → ℕ
        → Option Text
        → Caught Ctx
        → Option (Text × ℕ) × Sessions
        → Response × Sessions
    in_session server r now owner ctx (none, sessions) = (
      error_response error_json 404 32600 (text "Not Found: unknown or terminated session"),
      sessions,
    )
    in_session server r now owner ctx (some (id, cell), sessions) =
        with_text now owner ctx id cell sessions (read_body error_json server r)

    -- The two times are those of the table's lock before and behind the message.
    unfoldable pub respond :
        HttpServer
        → Request
        → ℕ
        → ℕ
        → Text
        → Option Text
        → Caught Ctx
        → Sessions
        → Response × Sessions
    unfolding checkout header_value read_body guarded check_in finish with_header error_response
    respond server r now later fresh owner ctx sessions =
        in_session server r later owner ctx
          (checkout now fresh owner (header_value r session_header) sessions)

    module _ (metadata_json : ProtectedResourceMetadata → Option Text)
        (parse_ip : Text → Option Bool) where
      abbrev pub is_delete : Method → Bool
      is_delete delete = true
      is_delete post = false
      is_delete get = false
      is_delete head = false
      is_delete (other t) = false

      abbrev pub answered :
          HttpServer
          → Request
          → ℕ
          → ℕ
          → Text
          → Option Text
          → Caught Ctx
          → Sessions
          → Response × Sessions
      answered server r now later fresh owner ctx sessions =
          if is_delete r.method
          then end_session_for error_json r owner sessions
          else respond server r now later fresh owner ctx sessions

      -- the handler of `serve_on`
      unfoldable pub plain_response :
          HttpServer → Request → ℕ → ℕ → Text → Caught Ctx → Sessions → Response × Sessions
      unfolding precheck end_session_for respond
      plain_response server r now later fresh ctx sessions =
          elim (precheck error_json metadata_json parse_ip server r) [
            | some rejection ↦ (rejection, sessions)
            | none ↦ answered server r now later fresh none ctx sessions
          ]

      module _ (decode : Text → Outcome JwtError Claims) (show_jwt_error : JwtError → Text) where
        abbrev pub authorized :
            (Claims → Caught Ctx)
            → HttpServer
            → Request
            → ℕ
            → ℕ
            → Text
            → Sessions
            → Claims
            → List Text
            → Response × Sessions
        authorized context_factory server r now later fresh sessions claims [] =
            answered server r now later fresh (some (owner_of (user_id claims) (tenant_id claims)))
              (context_factory claims) sessions
        authorized context_factory server r now later fresh sessions claims (m ∷ ms) =
            (forbidden error_json server (m ∷ ms), sessions)

        abbrev pub authenticated :
            (Claims → Caught Ctx)
            → HttpServer
            → Request
            → ℕ
            → ℕ
            → Text
            → Sessions
            → Outcome JwtError Claims
            → Response × Sessions
        authenticated context_factory server r now later fresh sessions (err e) =
            (unauthorized error_json server (text "Unauthorized: " ++ show_jwt_error e), sessions)
        authenticated context_factory server r now later fresh sessions (ok claims) =
            authorized context_factory server r now later fresh sessions claims
              (missing_scopes claims server.required_scopes)

        abbrev pub with_credentials :
            (Claims → Caught Ctx)
            → JwtValidator
            → HttpServer
            → Request
            → ℕ
            → ℕ
            → Text
            → Sessions
            → Option Text
            → Response × Sessions
        with_credentials context_factory v server r now later fresh sessions none = (
          unauthorized error_json server (text "Unauthorized: Missing Authorization header"),
          sessions,
        )
        with_credentials context_factory v server r now later fresh sessions (some header) =
            authenticated context_factory server r now later fresh sessions
              (validate_header decode v header)

        abbrev pub prechecked :
            (Claims → Caught Ctx)
            → JwtValidator
            → HttpServer
            → Request
            → ℕ
            → ℕ
            → Text
            → Sessions
            → Option Response
            → Response × Sessions
        prechecked context_factory v server r now later fresh sessions (some rejection) =
            (rejection, sessions)
        prechecked context_factory v server r now later fresh sessions none =
            with_credentials context_factory v server r now later fresh sessions
              (header_value r (text "Authorization"))

        unfoldable pub authenticated_response :
            (Claims → Caught Ctx)
            → JwtValidator
            → HttpServer
            → Request
            → ℕ
            → ℕ
            → Text
            → Sessions
            → Response × Sessions
        unfolding precheck header_value validate_header missing_scopes unauthorized forbidden
            owner_of user_id tenant_id end_session_for respond
        authenticated_response context_factory v server r now later fresh sessions =
            prechecked context_factory v server r now later fresh sessions
              (precheck error_json metadata_json parse_ip server r)
