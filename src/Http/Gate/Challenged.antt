-- ===== src/Http/Gate/Challenged.antt =====
-- src/transport/http.rs: a client that reads a challenge finds the metadata.
use sml_mcps.Prelude.{
  ◌≡◌, refl, sym, ◌∙◌, ap, Bool, true, false, Option, none, some, List, [], ◌∷◌, ◌++◌, append_assoc,
  if◌then◌else◌, subst,
}
use sml_mcps.Prelude.Text.{Text, text}
use sml_mcps.Prelude.Int.{ℤ}
use sml_mcps.Http1.{Outcome, ok, err}
use sml_mcps.Auth.Quoted.{read_quoted, read_quoted-escape}
use sml_mcps.Auth.Resource.Marks.{Lacks}
use sml_mcps.Auth.Resource.Urls.{IsPath}
use sml_mcps.Auth.Resource.Paths.{metadata_url-path}
use sml_mcps.Auth.Resource.{
  ProtectedResourceMetadata, resource_uri, metadata_url, unauthorized_challenge, escape, quoted,
  no_scopes, join,
}
use sml_mcps.Http.Gate.{
  HttpServer, Request, challenge, challenge_from, challenge_of, before_query, body_response,
}
use sml_mcps.Http.Gate.Checks.{is_get_or_head, precheck}
use sml_mcps.Http.Gate.Discovery.{precheck-metadata_path, resource_uri_parsed}

append_cancel : (p x y : Text) → p ++ x ≡ p ++ y → x ≡ y
append_cancel [] x y e = e
append_cancel (b ∷ p) x y e = append_cancel p x y cc

-- What a client reads of the first quoted value of a challenge.
challenge_url :
    (url tail named rest : Text) (scopes : List Text)
    → unauthorized_challenge url scopes ≡ text "Bearer resource_metadata=" ++ (b'"' ∷ tail)
    → read_quoted false tail ≡ some (named, rest)
    → url ≡ named
unfolding unauthorized_challenge
challenge_url url tail named rest scopes e q =
    let more : Text =
      if no_scopes scopes then [] else text ", scope=" ++ quoted (join (text " ") scopes) in
    let inner =
      append_cancel (text "Bearer resource_metadata=") (quoted url ++ more) (b'"' ∷ tail) e in
    let behind : (escape url ++ b'"' ∷ []) ++ more ≡ tail = cc in
    let whole : read_quoted false tail ≡ some (url, more) =
      ap (read_quoted false) (sym behind ∙ append_assoc (escape url) (b'"' ∷ []) more)
      ∙ read_quoted-escape url more in
    let same : ◌≡◌ {A = Option (Text × Text)} (some (url, more)) (some (named, rest)) =
      sym whole ∙ q in
    cc

-- A challenge is built from the canonical URI of what is published.
abbrev MadeFrom :
    (Text → ProtectedResourceMetadata → Text) → Text → ProtectedResourceMetadata → Type 0
MadeFrom build c m = (uri : Text) × (resource_uri m ≡ ok uri) × (build (metadata_url uri) m ≡ c)

made_from :
    (error_json : ℤ → Text → Text) (build : Text → ProtectedResourceMetadata → Text)
    (m : ProtectedResourceMetadata) (o : Outcome Text Text) (c : Text)
    → resource_uri m ≡ o
    → challenge_from error_json build m o ≡ some c
    → MadeFrom build c m
made_from error_json build m (err why) c e h = cc
made_from error_json build m (ok uri) c e h = (uri, e, cc)

challenge_made :
    (error_json : ℤ → Text → Text) (build : Text → ProtectedResourceMetadata → Text)
    (o : Option ProtectedResourceMetadata) (m : ProtectedResourceMetadata) (c : Text)
    → o ≡ some m
    → challenge_of error_json build o ≡ some c
    → MadeFrom build c m
challenge_made error_json build none m c e h = cc
challenge_made error_json build (some n) m c e h =
    let same : n ≡ m = cc in
    subst (MadeFrom build c) same (made_from error_json build n (resource_uri n) c refl h)

-- Let metadata be published that can be printed, and let a client take the URL out of the challenge
-- of a 401, and the path out of that URL. Its GET or HEAD of that path, with any query or fragment
-- behind it, is answered with the metadata: before the checks of the endpoint, and before a token
-- is asked for.
pub precheck-challenge :
    (error_json : ℤ → Text → Text) (metadata_json : ProtectedResourceMetadata → Option Text)
    (parse_ip : Text → Option Bool) (s : HttpServer) (r : Request) (m : ProtectedResourceMetadata)
    (document tail url rest scheme authority path query : Text)
    → s.published ≡ some m
    → metadata_json m ≡ some document
    → challenge error_json s ≡ some (text "Bearer resource_metadata=" ++ (b'"' ∷ tail))
    → read_quoted false tail ≡ some (url, rest)
    → url ≡ scheme ++ (text "://" ++ (authority ++ path))
    → Lacks b':' scheme
    → Lacks b'/' authority
    → IsPath path
    → is_get_or_head r.method ≡ true
    → before_query query ≡ []
    → r.target ≡ path ++ query
    → precheck error_json metadata_json parse_ip s r
      ≡ some (body_response (text "application/json") document)
unfolding challenge
precheck-challenge error_json metadata_json parse_ip s r m document tail url rest scheme authority
      path query published printed challenged named url_parts hs ha hp g q t =
    let (uri, canonical, made) =
      challenge_made error_json (λ u n. unauthorized_challenge u n.scopes_supported) s.published m
        (text "Bearer resource_metadata=" ++ (b'"' ∷ tail)) published challenged in
    let same = challenge_url (metadata_url uri) tail url rest m.scopes_supported made named in
    let found =
      metadata_url-path m.resource uri scheme authority path (resource_uri_parsed m uri canonical)
        hs ha hp (same ∙ url_parts) in
    precheck-metadata_path error_json metadata_json parse_ip s r m uri query document published
      canonical printed g q (t ∙ ap (λ (p : Text). p ++ query) found)
