-- ===== src/Http/Gate/Discovery.antt =====
-- src/transport/http.rs and src/auth/resource.rs: the published metadata is found where the
-- challenges say it is.
use sml_mcps.Prelude.{
  ◌≡◌, refl, ◌∙◌, ap, Bool, true, false, ◌||◌, Option, none, some, [], ◌∷◌, ◌++◌, ◌==◌, arith,
  append-nil, ℕ, ◌⊎◌, inl, inr,
}
use sml_mcps.Prelude.Text.{Text, text, text_eq, text_eq_iff}
use sml_mcps.Prelude.Int.{ℤ}
use sml_mcps.Rpc.Classify.{trim_start}
use sml_mcps.Http1.{Outcome, ok}
use sml_mcps.Http1.ReadHead.{trim_end}
use sml_mcps.Http1.Response.{Response, contains}
use sml_mcps.Auth.Resource.Marks.{Lacks, Lacks-parse_trimmed, Lacks-metadata_path}
use sml_mcps.Auth.Resource.{
  ProtectedResourceMetadata, resource_uri, metadata_path, parse_uri, well_known,
}
use sml_mcps.Http.Gate.{
  HttpServer, Request, path_of, before_query, starts_with_slash, body_response,
}
use sml_mcps.Http.Gate.Checks.{
  protected_resource_response, is_get_or_head, document_for, document_of, precheck, first_of,
  endpoint_check,
}

before_query-append :
    (t rest : Text)
    → Lacks b'#' t
    → Lacks b'?' t
    → before_query (t ++ rest) ≡ t ++ before_query rest
unfolding before_query contains
before_query-append [] rest h q = refl
before_query-append (b ∷ bs) rest h q =
    let later = before_query-append bs rest (ground (arith, h)) (ground (arith, q)) in
    let mark : (b == b'?' || b == b'#') ≡ false = ground (arith, h, q) in
    rw mark (ap (λ (u : Text). b ∷ u) later)

path_of-slash : (t : Text) → starts_with_slash t ≡ true → path_of t ≡ before_query t
unfolding path_of
path_of-slash t h = rw h refl

metadata_path-slash : (r rest : Text) → starts_with_slash (metadata_path r ++ rest) ≡ true
unfolding metadata_path text
metadata_path-slash r rest = refl

well_known-Lacks : (c : ℕ) → (c ≡ b'#') ⊎ (c ≡ b'?') → Lacks c well_known
unfolding contains text
well_known-Lacks c (inl e) = rw e refl
well_known-Lacks c (inr e) = rw e refl

-- The path of a request for the metadata, whatever query or fragment stands behind it.
path_of-metadata_path :
    (uri r query : Text)
    → parse_uri uri ≡ ok r
    → before_query query ≡ []
    → path_of (metadata_path r ++ query) ≡ metadata_path r
unfolding parse_uri
path_of-metadata_path uri r query e q =
    let lacking = Lacks-parse_trimmed (trim_end (trim_start uri)) r e in
    let hash = Lacks-metadata_path b'#' r (well_known-Lacks b'#' (inl refl)) lacking.0 in
    let mark = Lacks-metadata_path b'?' r (well_known-Lacks b'?' (inr refl)) lacking.1 in
    path_of-slash (metadata_path r ++ query) (metadata_path-slash r query)
    ∙ (before_query-append (metadata_path r) query hash mark
        ∙ (ap (λ (t : Text). metadata_path r ++ t) q ∙ append-nil (metadata_path r)))

text_eq_same : (a b : Text) → a ≡ b → text_eq a b ≡ true
text_eq_same a b e = (text_eq_iff a b).1 e

document_found :
    (error_json : ℤ → Text → Text) (metadata_json : ProtectedResourceMetadata → Option Text)
    (r : Request) (m : ProtectedResourceMetadata) (o : Outcome Text Text) (uri document : Text)
    → o ≡ ok uri
    → text_eq (path_of r.target) (metadata_path uri) ≡ true
    → is_get_or_head r.method ≡ true
    → metadata_json m ≡ some document
    → document_for error_json metadata_json r m o
      ≡ some (body_response (text "application/json") document)
document_found error_json metadata_json r m o uri document e p g d = rw (e, p, g, d) refl

pub resource_uri_parsed :
    (m : ProtectedResourceMetadata) (uri : Text)
    → resource_uri m ≡ ok uri
    → parse_uri m.resource ≡ ok uri
unfolding resource_uri
resource_uri_parsed m uri e = e

found_in :
    (error_json : ℤ → Text → Text) (metadata_json : ProtectedResourceMetadata → Option Text)
    (r : Request) (o : Option ProtectedResourceMetadata) (m : ProtectedResourceMetadata)
    (answer : Response)
    → o ≡ some m
    → document_for error_json metadata_json r m (resource_uri m) ≡ some answer
    → document_of error_json metadata_json r o ≡ some answer
found_in error_json metadata_json r none m answer e found = cc
found_in error_json metadata_json r (some other) m answer e found =
    let same : other ≡ m = cc in rw same found

first_found :
    (error_json : ℤ → Text → Text) (metadata_json : ProtectedResourceMetadata → Option Text)
    (parse_ip : Text → Option Bool) (a b : Option Response) (answer : Response)
    → a ≡ some answer
    → first_of error_json metadata_json parse_ip a b ≡ some answer
first_found error_json metadata_json parse_ip none b answer e = cc
first_found error_json metadata_json parse_ip (some x) b answer e = e

-- A GET or HEAD of the path of the metadata, with any query or fragment behind it, is answered
-- with the document.
pub precheck-metadata_path :
    (error_json : ℤ → Text → Text) (metadata_json : ProtectedResourceMetadata → Option Text)
    (parse_ip : Text → Option Bool) (s : HttpServer) (r : Request) (m : ProtectedResourceMetadata)
    (uri query document : Text)
    → s.published ≡ some m
    → resource_uri m ≡ ok uri
    → metadata_json m ≡ some document
    → is_get_or_head r.method ≡ true
    → before_query query ≡ []
    → r.target ≡ metadata_path uri ++ query
    → precheck error_json metadata_json parse_ip s r
      ≡ some (body_response (text "application/json") document)
unfolding precheck protected_resource_response
precheck-metadata_path error_json metadata_json parse_ip s r m uri query document published u d g q
      t =
    let path : path_of r.target ≡ metadata_path uri =
      ap path_of t ∙ path_of-metadata_path m.resource uri query (resource_uri_parsed m uri u) q in
    let found =
      document_found error_json metadata_json r m (resource_uri m) uri document u
        (text_eq_same (path_of r.target) (metadata_path uri) path) g d in
    first_found error_json metadata_json parse_ip
      (protected_resource_response error_json metadata_json s r)
      (endpoint_check error_json metadata_json parse_ip s r)
      (body_response (text "application/json") document)
      (found_in error_json metadata_json r s.published m
        (body_response (text "application/json") document) published found)
