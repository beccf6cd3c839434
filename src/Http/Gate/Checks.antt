-- ===== src/Http/Gate/Checks.antt =====
-- src/transport/http.rs: `precheck`, the checks that each request passes whoever sends it.
use sml_mcps.Prelude.{Bool, true, false, not, Option, none, some, ◌++◌, if◌then◌else◌}
use sml_mcps.Prelude.Text.{Text, text, text_eq}
use sml_mcps.Prelude.Int.{ℤ}
use sml_mcps.Http1.{Method, get, head, post, delete, other, Outcome, ok, err}
use sml_mcps.Http1.Response.{Response}
use sml_mcps.Origin.{is_allowed, is_listed}
use sml_mcps.Auth.Resource.{ProtectedResourceMetadata, resource_uri, metadata_path, join}
use sml_mcps.Http.Gate.{
  HttpServer, Request, header_value, path_of, assumed_protocol_version, error_response,
  method_not_allowed, body_response,
}

abbrev pub is_get_or_head : Method → Bool
is_get_or_head get = true
is_get_or_head head = true
is_get_or_head post = false
is_get_or_head delete = false
is_get_or_head (other t) = false

abbrev pub is_post_or_delete : Method → Bool
is_post_or_delete post = true
is_post_or_delete delete = true
is_post_or_delete get = false
is_post_or_delete head = false
is_post_or_delete (other t) = false

abbrev pub version_or_assumed : Option Text → Text
version_or_assumed none = assumed_protocol_version
version_or_assumed (some v) = v

module _ (error_json : ℤ → Text → Text) where
  module _ (metadata_json : ProtectedResourceMetadata → Option Text) where
    abbrev pub document_for :
        Request → ProtectedResourceMetadata → Outcome Text Text → Option Response
    document_for r m (err why) = none
    document_for r m (ok uri) =
        if not (text_eq (path_of r.target) (metadata_path uri))
        then none
        else if not (is_get_or_head r.method)
        then some (method_not_allowed error_json (text "GET, HEAD"))
        else elim (metadata_json m) [
          | none ↦ none
          | some t ↦ some (body_response (text "application/json") t)
        ]

    abbrev pub document_of : Request → Option ProtectedResourceMetadata → Option Response
    document_of r none = none
    document_of r (some m) = document_for r m (resource_uri m)

    unfoldable pub protected_resource_response : HttpServer → Request → Option Response
    unfolding path_of metadata_path method_not_allowed body_response resource_uri
    protected_resource_response s r = document_of r s.published

    module _ (parse_ip : Text → Option Bool) where
      abbrev pub origin_rejection : HttpServer → Option Text → Option Response
      origin_rejection s none = none
      origin_rejection s (some origin) =
          if not (is_allowed parse_ip s.policy origin)
          then some (
              error_response error_json 403 32600
                (text "Forbidden: disallowed Origin `" ++ (origin ++ text "`")))
          else none

      abbrev pub unsupported : HttpServer → Text → Response
      unsupported s version = error_response error_json 400 32600 (
          text "Unsupported MCP-Protocol-Version `"
          ++ (version
              ++ (text "`; this server supports: " ++ join (text ", ") s.supported_versions)))

      abbrev pub endpoint_check : HttpServer → Request → Option Response
      endpoint_check s r =
          let version = version_or_assumed (header_value r (text "MCP-Protocol-Version")) in
          if not (text_eq (path_of r.target) s.endpoint)
          then some (error_response error_json 404 32600 (text "Not Found"))
          else if not (is_post_or_delete r.method)
          then some (method_not_allowed error_json (text "POST, DELETE"))
          else if not (is_listed s.supported_versions version)
          then some (unsupported s version)
          else origin_rejection s (header_value r (text "Origin"))

      abbrev pub first_of : Option Response → Option Response → Option Response
      first_of (some a) b = some a
      first_of none b = b

      unfoldable pub precheck : HttpServer → Request → Option Response
      unfolding protected_resource_response path_of error_response method_not_allowed is_listed
          header_value is_allowed join
      precheck s r = first_of (protected_resource_response s r) (endpoint_check s r)
