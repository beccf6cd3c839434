-- ===== src/Http/Serving/Admission.antt =====
-- src/transport/http.rs: which requests `authenticated_response` lets through.
use sml_mcps.Prelude.{
  ℕ, ◌≡◌, refl, ◌∙◌, Bool, true, false, Option, none, some, List, [], ◌∷◌, inl, inr, ◌⊎◌,
  if◌then◌else◌, ◌&&◌, ◌++◌,
}
use sml_mcps.Prelude.Text.{Text, text}
use sml_mcps.Prelude.Int.{ℤ, neg}
use sml_mcps.Error.{McpError}
use sml_mcps.Error
use sml_mcps.Server.Logging.{LogLevel}
use sml_mcps.Http1.{Outcome, ok, err}
use sml_mcps.Http1.Response.{
  Response, with_header, with_body, new_response, is_field_value, is_token,
}
use sml_mcps.Auth.{
  Claims, JwtError, JwtValidator, validate_header, validate_token, extract_token, missing_scopes,
  user_id, tenant_id,
}
use sml_mcps.Auth.Sound.{IsUsable, validate-IsUsable}
use sml_mcps.Auth.Resource.{ProtectedResourceMetadata}
use sml_mcps.Http.{HttpTransport}
use sml_mcps.Http.Sessions.{Sessions, ServerState, owner_of}
use sml_mcps.Http.Gate.{
  HttpServer, Request, header_value, error_response, challenged, challenge, scope_challenge,
  missing_text, unauthorized, forbidden,
}
use sml_mcps.Http.Gate.Checks.{precheck}
use sml_mcps.Http.Process.{Caught, Processing}
use sml_mcps.Http.Serving.{
  answered, authorized, authenticated, with_credentials, prechecked, authenticated_response,
}

kept_status :
    (b : Bool) (r s : Response) → r.status ≡ s.status → (if b then r else s).status ≡ s.status
kept_status true r s h = h
kept_status false r s h = refl

with_header-status :
    (name value : Text) (r : Response) → (with_header name value r).status ≡ r.status
unfolding with_header
with_header-status name value r =
    kept_status (is_field_value value && is_token name)
      (record r { headers = r.headers ++ (name, value) ∷ [] }) r refl

with_body-status :
    (content_type : Text) (body : Text) (r : Response)
    → (with_body content_type body r).status ≡ r.status
unfolding with_body
with_body-status content_type body r =
    with_header-status (text "Content-Type") content_type (record r { body = body })

error_response-status :
    (error_json : ℤ → Text → Text) (status code : ℕ) (message : Text)
    → (error_response error_json status code message).status ≡ status
unfolding error_response new_response
error_response-status error_json status code message =
    with_body-status (text "application/json") (error_json (neg code) message) (new_response status)

challenged-status :
    (error_json : ℤ → Text → Text) (r : Response) (c : Option Text)
    → (challenged error_json r c).status ≡ r.status
challenged-status error_json r none = refl
challenged-status error_json r (some c) = with_header-status (text "WWW-Authenticate") c r

unauthorized-status :
    (error_json : ℤ → Text → Text) (s : HttpServer) (message : Text)
    → (unauthorized error_json s message).status ≡ 401
unfolding unauthorized
unauthorized-status error_json s message =
    challenged-status error_json (error_response error_json 401 32600 message)
      (challenge error_json s)
    ∙ error_response-status error_json 401 32600 message

forbidden-status :
    (error_json : ℤ → Text → Text) (s : HttpServer) (missing : List Text)
    → (forbidden error_json s missing).status ≡ 403
unfolding forbidden
forbidden-status error_json s missing =
    challenged-status error_json
      (error_response error_json 403 32600 (missing_text error_json missing))
      (scope_challenge error_json s)
    ∙ error_response-status error_json 403 32600 (missing_text error_json missing)

validate_token-IsUsable :
    (decode : Text → Outcome JwtError Claims) (v : JwtValidator) (o : Outcome JwtError Text)
    (c : Claims)
    → validate_token decode v o ≡ ok c
    → IsUsable v c
validate_token-IsUsable decode v (err e) c h = cc
validate_token-IsUsable decode v (ok token) c h = (validate-IsUsable decode v token c h).1

validate_header-IsUsable :
    (decode : Text → Outcome JwtError Claims) (v : JwtValidator) (header : Text) (c : Claims)
    → validate_header decode v header ≡ ok c
    → IsUsable v c
unfolding validate_header
validate_header-IsUsable decode v header c h =
    validate_token-IsUsable decode v (extract_token header) c h

module _ {V Ctx : Type 0} (default_level : LogLevel)
    (setup : ServerState → Caught (Error.Result V ServerState))
    (process_one : Ctx → Option Text → ServerState → HttpTransport → Caught (Processing V))
    (error_json : ℤ → Text → Text) (show_error : McpError V → Text) (is_empty : ℕ → Option Bool)
    (metadata_json : ProtectedResourceMetadata → Option Text) (parse_ip : Text → Option Bool)
    (decode : Text → Outcome JwtError Claims) (show_jwt_error : JwtError → Text)
    (context_factory : Claims → Caught Ctx) (v : JwtValidator) (server : HttpServer) (r : Request)
    (now later : ℕ) (fresh : Text) (sessions : Sessions) where
  -- The request passed the checks and carries a token that the validator accepts with these
  -- claims and that lacks no scope; its identity is usable as the owner of a session.
  abbrev pub IsAuthorized : Claims → Type 0
  IsAuthorized claims =
      (precheck error_json metadata_json parse_ip server r ≡ none)
      × ((header : Text) × (header_value r (text "Authorization") ≡ some header)
          × (validate_header decode v header ≡ ok claims))
      × (missing_scopes claims server.required_scopes ≡ [])
      × IsUsable v claims

  -- The answer is that of the checks, or 401, or 403; no session is touched.
  abbrev pub IsRefused : Response × Sessions → Type 0
  IsRefused (answer, left) =
      ((precheck error_json metadata_json parse_ip server r ≡ some answer)
        ⊎ ((answer.status ≡ 401) ⊎ (answer.status ≡ 403)))
      × (left ≡ sessions)

  abbrev pub answer_for : Claims → Response × Sessions
  answer_for claims =
      answered default_level setup process_one error_json show_error is_empty metadata_json parse_ip
        server r now later fresh (some (owner_of (user_id claims) (tenant_id claims)))
        (context_factory claims) sessions

  abbrev pub IsAdmission : Response × Sessions → Type 0
  IsAdmission a = ((claims : Claims) × IsAuthorized claims × (a ≡ answer_for claims)) ⊎ IsRefused a

  authorized-IsAdmission :
      (claims : Claims) (missing : List Text)
      → (missing ≡ [] → IsAuthorized claims)
      → IsAdmission (
          authorized default_level setup process_one error_json show_error is_empty metadata_json
            parse_ip decode show_jwt_error context_factory server r now later fresh sessions claims
            missing)
  authorized-IsAdmission claims [] h = inl (claims, h refl, refl)
  authorized-IsAdmission claims (m ∷ ms) h =
      inr (inr (inr (forbidden-status error_json server (m ∷ ms))), refl)

  authenticated-IsAdmission :
      (o : Outcome JwtError Claims)
      → ((claims : Claims)
          → o ≡ ok claims
          → missing_scopes claims server.required_scopes ≡ []
          → IsAuthorized claims)
      → IsAdmission (
          authenticated default_level setup process_one error_json show_error is_empty metadata_json
            parse_ip decode show_jwt_error context_factory server r now later fresh sessions o)
  authenticated-IsAdmission (err e) h = inr (
    inr (inl (unauthorized-status error_json server (text "Unauthorized: " ++ show_jwt_error e))),
    refl,
  )
  authenticated-IsAdmission (ok claims) h =
      authorized-IsAdmission claims (missing_scopes claims server.required_scopes) (h claims refl)

  with_credentials-IsAdmission :
      (o : Option Text)
      → header_value r (text "Authorization") ≡ o
      → precheck error_json metadata_json parse_ip server r ≡ none
      → IsAdmission (
          with_credentials default_level setup process_one error_json show_error is_empty
            metadata_json parse_ip decode show_jwt_error context_factory v server r now later fresh
            sessions o)
  with_credentials-IsAdmission none e p = inr (
    inr (
        inl (
          unauthorized-status error_json server
            (text "Unauthorized: Missing Authorization header"))),
    refl,
  )
  with_credentials-IsAdmission (some header) e p =
      authenticated-IsAdmission (validate_header decode v header) (λ claims valid scoped.
        (p, (header, e, valid), scoped, validate_header-IsUsable decode v header claims valid))

  prechecked-IsAdmission :
      (o : Option Response)
      → precheck error_json metadata_json parse_ip server r ≡ o
      → IsAdmission (
          prechecked default_level setup process_one error_json show_error is_empty metadata_json
            parse_ip decode show_jwt_error context_factory v server r now later fresh sessions o)
  prechecked-IsAdmission (some rejection) e = inr (inl e, refl)
  prechecked-IsAdmission none e =
      with_credentials-IsAdmission (header_value r (text "Authorization")) refl e

  -- Under authentication a request is either answered in the sessions of the identity of its
  -- token, where it passed the checks, the validator accepts the token, and no required scope is
  -- missing; or it is refused by the checks, with 401 or with 403, and no session is touched.
  pub authenticated_response-IsAdmission : IsAdmission (
      authenticated_response default_level setup process_one error_json show_error is_empty
        metadata_json parse_ip decode show_jwt_error context_factory v server r now later fresh
        sessions)
  unfolding authenticated_response
  authenticated_response-IsAdmission =
      prechecked-IsAdmission (precheck error_json metadata_json parse_ip server r) refl
