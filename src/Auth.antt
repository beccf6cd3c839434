-- ===== src/Auth.antt =====
-- src/auth/jwt.rs: the claims of a token and their validation. `jsonwebtoken::decode`, with the
-- key and the checks it was set up for (signature, expiry, issuer), is a parameter.
pub mod Resource
pub mod Sound
pub mod Quoted
mod Tests
use sml_mcps.Prelude.{
  ℕ, zero, suc, Bool, true, false, not, ◌&&◌, ◌||◌, Option, none, some, List, [], ◌∷◌, ◌++◌,
  if◌then◌else◌, filter,
}
use sml_mcps.Prelude.Text.{Text, text, text_eq}
use sml_mcps.Rpc.Classify.{whitespace_len, trim_start}
use sml_mcps.Http1.{Outcome, ok, err}
use sml_mcps.Http1.Response.{contains, is_empty}
use sml_mcps.Http1.FramingOf.{eq_ignore_ascii_case}
use sml_mcps.Http1.ReadHead.{cons_part}
use sml_mcps.Origin.{split_once, is_listed}
use sml_mcps.Http.Sessions.{identity_separator}

-- `jsonwebtoken::errors::ErrorKind`, the kinds that the code tells apart
pub data ErrorKind : Type 0 where
  invalid_token invalid_signature expired_signature immature_signature : ErrorKind
  wrong_issuer wrong_audience invalid_subject missing_required_claim : ErrorKind
  invalid_algorithm invalid_algorithm_name base64 utf8 json other_kind : ErrorKind

pub data JwtError : Type 0 where
  missing_header invalid_format expired invalid_issuer invalid_audience : JwtError
  malformed_claim : JwtError
  validation_failed : ErrorKind → JwtError

unfoldable pub kind_summary : ErrorKind → Text
kind_summary invalid_token = text "malformed token"
kind_summary invalid_signature = text "invalid signature"
kind_summary expired_signature = text "expired"
kind_summary immature_signature = text "not valid yet"
kind_summary wrong_issuer = text "bad issuer"
kind_summary wrong_audience = text "bad audience"
kind_summary invalid_subject = text "bad subject"
kind_summary missing_required_claim = text "a required claim is missing"
kind_summary invalid_algorithm = text "unacceptable algorithm"
kind_summary invalid_algorithm_name = text "unacceptable algorithm"
kind_summary base64 = text "malformed token"
kind_summary utf8 = text "malformed token"
kind_summary json = text "malformed token"
kind_summary other_kind = text "the validator could not run"

unfoldable pub summary : JwtError → Text
unfolding kind_summary
summary missing_header = text "missing header"
summary invalid_format = text "malformed header"
summary expired = text "expired"
summary invalid_issuer = text "bad issuer"
summary invalid_audience = text "bad audience"
summary malformed_claim = text "a claim this server cannot use"
summary (validation_failed kind) = kind_summary kind

pub data Audience : Type 0 where
  one : Text → Audience
  many : List Text → Audience

unfoldable pub values : Audience → List Text
values (one value) = value ∷ []
values (many vs) = vs

-- `Audience::contains`
unfoldable pub names : Audience → Text → Bool
unfolding values is_listed
names a resource = is_listed (values a) resource

pub record Claims : Type 0 where
  pub sub : Text
  pub exp : ℕ
  pub iat : ℕ
  pub iss : Option Text
  pub aud : Option Audience
  pub tenant : Option Text
  pub scope : Option Text

unfoldable pub audiences_of : Claims → List Text
unfolding values
audiences_of c = elim c.aud [ none ↦ [] | some a ↦ values a ]

-- `str::split_whitespace`: the number counts the bytes of a white space character to be skipped.
unfoldable pub split_at_space : ℕ → Text → List Text
unfolding whitespace_len
split_at_space n [] = [] ∷ []
split_at_space (suc k) (b ∷ bs) = split_at_space k bs
split_at_space zero (b ∷ bs) = elim (whitespace_len (b ∷ bs)) [
  | zero ↦ cons_part b (split_at_space zero bs)
  | suc k ↦ [] ∷ split_at_space k bs
]

unfoldable pub split_whitespace : Text → List Text
unfolding split_at_space is_empty
split_whitespace t = filter (λ p. not (is_empty p)) (split_at_space 0 t)

unfoldable pub scopes : Claims → List Text
unfolding split_whitespace
scopes c = elim c.scope [ none ↦ [] | some s ↦ split_whitespace s ]

abbrev pub scope_in : Option Text → Text → Bool
scope_in none wanted = false
scope_in (some s) wanted = is_listed (split_whitespace s) wanted

unfoldable pub has_scope : Claims → Text → Bool
unfolding is_listed split_whitespace
has_scope c wanted = scope_in c.scope wanted

unfoldable pub missing_scopes : Claims → List Text → List Text
unfolding has_scope
missing_scopes c required = filter (λ s. not (has_scope c s)) required

unfoldable pub user_id : Claims → Text
user_id c = c.sub

abbrev pub or_sub : Text → Option Text → Text
or_sub sub none = sub
or_sub sub (some t) = t

unfoldable pub tenant_id : Claims → Text
tenant_id c = or_sub c.sub c.tenant

-- What of a validator is not the key and the checks of `decode`.
pub record JwtValidator : Type 0 where
  pub resource : Option Text
  pub audiences : List Text

abbrev pub new_validator : JwtValidator
new_validator = record { resource = none; audiences = [] }

unfoldable pub with_audience : Text → JwtValidator → JwtValidator
with_audience audience v = record v { audiences = v.audiences ++ audience ∷ [] }

unfoldable pub for_resource : Text → JwtValidator → JwtValidator
for_resource r v = record { resource = some r; audiences = v.audiences ++ r ∷ [] }

abbrev pub is_nil : List Text → Bool
is_nil [] = true
is_nil (x ∷ xs) = false

unfoldable pub binds_audience : JwtValidator → Bool
binds_audience v = not (is_nil v.audiences)

abbrev pub token_of : Option (Text × Text) → Outcome JwtError Text
token_of none = err invalid_format
token_of (some (scheme, rest)) =
    if not (eq_ignore_ascii_case scheme (text "bearer"))
    then err invalid_format
    else if is_empty (trim_start rest)
    then err invalid_format
    else ok (trim_start rest)

unfoldable pub extract_token : Text → Outcome JwtError Text
unfolding split_once eq_ignore_ascii_case trim_start is_empty
extract_token auth_header = token_of (split_once (text " ") auth_header)

abbrev pub separated : Option Text → Bool
separated none = false
separated (some t) = contains t identity_separator

-- `any` over the audiences of the validator
unfoldable pub any_named : List Text → Audience → Bool
unfolding names
any_named [] a = false
any_named (want ∷ ws) a = names a want || any_named ws a

abbrev pub named_by : List Text → Option Audience → Bool
named_by ws none = false
named_by ws (some a) = any_named ws a

abbrev pub checked : JwtValidator → Outcome JwtError Claims → Outcome JwtError Claims
checked v (err e) = err e
checked v (ok c) =
    if contains c.sub identity_separator || separated c.tenant
    then err malformed_claim
    else if not (is_nil v.audiences) && not (named_by v.audiences c.aud)
    then err invalid_audience
    else ok c

module _ (decode : Text → Outcome JwtError Claims) where
  unfoldable pub validate : JwtValidator → Text → Outcome JwtError Claims
  unfolding contains any_named
  validate v token = checked v (decode token)

  abbrev pub validate_token : JwtValidator → Outcome JwtError Text → Outcome JwtError Claims
  validate_token v (err e) = err e
  validate_token v (ok token) = validate v token

  unfoldable pub validate_header : JwtValidator → Text → Outcome JwtError Claims
  unfolding extract_token validate
  validate_header v auth_header = validate_token v (extract_token auth_header)
