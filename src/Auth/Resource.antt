-- ===== src/Auth/Resource.antt =====
-- src/auth/resource.rs: the canonical URI of a server, its metadata, and the challenges. A
-- `ResourceUri` is its text.
pub mod Marks
pub mod Urls
pub mod Paths
use sml_mcps.Prelude.{
  ℕ, Bool, true, false, not, ◌||◌, Option, none, some, List, [], ◌∷◌, ◌++◌, ◌==◌, if◌then◌else◌,
}
use sml_mcps.Prelude.Text.{Text, text, text_eq}
use sml_mcps.Rpc.Classify.{trim_start}
use sml_mcps.Server.Logging.{to_ascii_lowercase}
use sml_mcps.Http1.{Outcome, ok, err}
use sml_mcps.Http1.Response.{contains, is_empty}
use sml_mcps.Http1.ReadHead.{trim_end}
use sml_mcps.Origin.{split_once, starts_with_letter, without_slash}

-- `find('/')` and what stands before it and from it on
abbrev pub grown : ℕ → Text × Text → Text × Text
grown b (front, rest) = (b ∷ front, rest)

unfoldable pub split_at_slash : Text → Text × Text
split_at_slash [] = ([], [])
split_at_slash (b ∷ bs) =
    let later = split_at_slash bs in if b == b'/' then ([], b ∷ bs) else grown b later

unfoldable pub canonical : Text → Text × Text → Outcome Text Text
unfolding to_ascii_lowercase without_slash is_empty
canonical scheme (authority, path) =
    if is_empty authority
    then err (text "resource URI has no host: ")
    else ok (
        to_ascii_lowercase scheme
        ++ (text "://" ++ (to_ascii_lowercase authority ++ without_slash path)))

abbrev pub parsed_parts : Option (Text × Text) → Outcome Text Text
parsed_parts none = err (text "resource URI must include a scheme: ")
parsed_parts (some (scheme, rest)) =
    if not (starts_with_letter scheme)
    then err (text "resource URI has an invalid scheme: ")
    else if is_empty rest
    then err (text "resource URI has no host: ")
    else canonical scheme (split_at_slash rest)

abbrev pub quoting : Text → Outcome Text Text → Outcome Text Text
quoting uri (ok r) = ok r
quoting uri (err why) = err (why ++ uri)

unfoldable pub parse_trimmed : Text → Outcome Text Text
unfolding contains is_empty split_once starts_with_letter split_at_slash canonical
parse_trimmed uri =
    if is_empty uri
    then err (text "resource URI must not be empty")
    else if contains uri b'#'
    then err (text "resource URI must not contain a fragment: " ++ uri)
    else if contains uri b'?'
    then err (
        text
          "resource URI must not contain a query string, which would leave its metadata document unreachable: "
        ++ uri)
    else quoting uri (parsed_parts (split_once (text "://") uri))

-- `ResourceUri::parse`
unfoldable pub parse_uri : Text → Outcome Text Text
unfolding parse_trimmed trim_start trim_end
parse_uri uri = parse_trimmed (trim_end (trim_start uri))

abbrev pub prefixed : Text → Text × Text → Text × Text
prefixed scheme (authority, path) = (scheme ++ (text "://" ++ authority), path)

abbrev pub behind : Text → Option (Text × Text) → Text × Text
behind whole none = split_at_slash whole
behind whole (some (scheme, rest)) = prefixed scheme (split_at_slash rest)

-- `origin` and `path`
unfoldable pub origin_and_path : Text → Text × Text
unfolding split_once split_at_slash
origin_and_path uri = behind uri (split_once (text "://") uri)

abbrev pub well_known : Text
well_known = text "/.well-known/oauth-protected-resource"

unfoldable pub metadata_url : Text → Text
unfolding origin_and_path
metadata_url uri = (origin_and_path uri).0 ++ (well_known ++ (origin_and_path uri).1)

unfoldable pub metadata_path : Text → Text
unfolding origin_and_path
metadata_path uri = well_known ++ (origin_and_path uri).1

pub record ProtectedResourceMetadata : Type 0 where
  pub resource : Text
  pub authorization_servers : List Text
  pub scopes_supported : List Text
  pub bearer_methods_supported : List Text
  pub resource_name : Option Text
  pub resource_documentation : Option Text

unfoldable pub new_metadata : Text → List Text → ProtectedResourceMetadata
new_metadata uri servers = record {
  resource = uri;
  authorization_servers = servers;
  scopes_supported = [];
  bearer_methods_supported = text "header" ∷ [];
  resource_name = none;
  resource_documentation = none;
}

unfoldable pub resource_uri : ProtectedResourceMetadata → Outcome Text Text
unfolding parse_uri
resource_uri m = parse_uri m.resource

-- `str::replace` of one byte
unfoldable pub replace : ℕ → Text → Text → Text
replace b by [] = []
replace b by (c ∷ cs) = let rest = replace b by cs in if c == b then by ++ rest else c ∷ rest

unfoldable pub escape : Text → Text
unfolding replace
escape value = replace b'"' (b'\\' ∷ b'"' ∷ []) (replace b'\\' (b'\\' ∷ b'\\' ∷ []) value)

-- `[String]::join`
unfoldable pub join : Text → List Text → Text
join separator [] = []
join separator (t ∷ []) = t
join separator (t ∷ u ∷ us) = t ++ (separator ++ join separator (u ∷ us))

abbrev pub quoted : Text → Text
quoted value = b'"' ∷ (escape value ++ b'"' ∷ [])

abbrev pub no_scopes : List Text → Bool
no_scopes [] = true
no_scopes (s ∷ ss) = false

unfoldable pub unauthorized_challenge : Text → List Text → Text
unfolding escape join
unauthorized_challenge url scopes =
    text "Bearer resource_metadata="
    ++ (quoted url
        ++ (if no_scopes scopes then [] else text ", scope=" ++ quoted (join (text " ") scopes)))

abbrev pub described : Option Text → Text
described none = []
described (some d) = text ", error_description=" ++ quoted d

unfoldable pub insufficient_scope_challenge : Text → List Text → Option Text → Text
unfolding escape join
insufficient_scope_challenge url required description =
    text "Bearer error=\"insufficient_scope\", scope="
    ++ (quoted (join (text " ") required)
        ++ (text ", resource_metadata=" ++ (quoted url ++ described description)))
