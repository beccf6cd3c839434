-- ===== src/Origin.antt =====
-- src/transport/origin.rs: which `Origin` headers the HTTP server accepts. `IpAddr`'s parser is a
-- parameter: whether a host is an address, and then whether it is a loopback address.
pub mod Parts
pub mod Hosts
pub mod Brackets
mod Tests
use sml_mcps.Prelude.{
  ℕ, Bool, true, false, not, ◌&&◌, ◌||◌, Option, none, some, List, [], ◌∷◌, ◌++◌, leb, ◌==◌,
  if◌then◌else◌, is_some, map,
}
use sml_mcps.Prelude.Text.{Text, text, text_eq, strip_prefix}
use sml_mcps.Prelude.Decimal.{parse_uint}
use sml_mcps.Server.Logging.{to_ascii_lowercase}
use sml_mcps.Rpc.Classify.{trim_start}
use sml_mcps.Http1.Response.{is_alphanumeric, contains, all_bytes, is_empty}
use sml_mcps.Http1.FramingOf.{eq_ignore_ascii_case, is_digit}
use sml_mcps.Http1.ReadHead.{trim_end}

pub data OriginPolicy : Type 0 where
  loopback : OriginPolicy
  allowlist_of : List Text → OriginPolicy
  any : OriginPolicy

-- `str::split_once` with a text
abbrev pub before_cut : ℕ → Option (Text × Text) → Option (Text × Text)
before_cut b none = none
before_cut b (some (front, rest)) = some (b ∷ front, rest)

abbrev pub cut_here : Option Text → Option (Text × Text) → Option (Text × Text)
cut_here (some rest) later = some ([], rest)
cut_here none later = later

unfoldable pub split_once : Text → Text → Option (Text × Text)
unfolding strip_prefix
split_once separator [] = cut_here (strip_prefix separator []) none
split_once separator (b ∷ bs) =
    let later = before_cut b (split_once separator bs) in
    cut_here (strip_prefix separator (b ∷ bs)) later

-- `rfind(']')` with the two sides of `split_at` behind it
abbrev pub behind_bracket : ℕ → Text → Option (Text × Text) → Option (Text × Text)
behind_bracket b bs (some (front, rest)) = some (b ∷ front, rest)
behind_bracket b bs none = if b == b']' then some (b ∷ [], bs) else none

unfoldable pub split_at_bracket : Text → Option (Text × Text)
split_at_bracket [] = none
split_at_bracket (b ∷ bs) = behind_bracket b bs (split_at_bracket bs)

unfoldable pub starts_with : ℕ → Text → Bool
starts_with c [] = false
starts_with c (b ∷ bs) = b == c

unfoldable pub is_letter : ℕ → Bool
is_letter b = leb b'a' b && leb b b'z' || leb b'A' b && leb b b'Z'

unfoldable pub starts_with_letter : Text → Bool
unfolding is_letter
starts_with_letter [] = false
starts_with_letter (b ∷ bs) = is_letter b

unfoldable pub scheme_byte : ℕ → Bool
unfolding is_alphanumeric
scheme_byte b = is_alphanumeric b || (b == b'+' || (b == b'-' || b == b'.'))

unfoldable pub is_scheme : Text → Bool
unfolding starts_with_letter all_bytes scheme_byte
is_scheme t = starts_with_letter t && all_bytes scheme_byte t

-- `strip_suffix('/')`, or the text itself
unfoldable pub without_slash : Text → Text
without_slash [] = []
without_slash (b ∷ []) = if b == b'/' then [] else b ∷ []
without_slash (b ∷ c ∷ cs) = b ∷ without_slash (c ∷ cs)

unfoldable pub is_authority : Text → Bool
unfolding is_empty contains
is_authority t =
    not
      (is_empty t || (contains t b'/' || (contains t b'?' || (contains t b'#' || contains t b'@'))))

abbrev pub tail_port : Text → Text → Option (Text × Option Text)
tail_port host [] = some (host, none)
tail_port host (b ∷ p) = if b == b':' then some (host, some p) else none

abbrev pub plain_port : Text → Option (Text × Text) → Option (Text × Option Text)
plain_port authority (some (h, p)) = some (h, some p)
plain_port authority none = some (authority, none)

abbrev pub bracketed : Text → Option (Text × Text) → Option (Text × Option Text)
bracketed authority none = plain_port authority (split_once (text ":") authority)
bracketed authority (some (host, tail)) =
    if starts_with b'[' authority then tail_port host tail else none

-- The host and the port, with the brackets of an IPv6 literal.
unfoldable pub host_and_port : Text → Option (Text × Option Text)
unfolding split_once split_at_bracket starts_with
host_and_port authority = bracketed authority (split_at_bracket authority)

unfoldable pub is_port : Option Text → Bool
unfolding is_empty all_bytes
is_port none = true
is_port (some p) = not (is_empty p) && (all_bytes is_digit p && is_some (parse_uint 65536 p))

abbrev pub port_text : Option Text → Text
port_text none = []
port_text (some p) = b':' ∷ p

unfoldable pub normalized : Text → Text → Option Text → Text
normalized scheme host port =
    to_ascii_lowercase scheme ++ (text "://" ++ (to_ascii_lowercase host ++ port_text port))

abbrev pub with_host : Text → Option (Text × Option Text) → Option (Text × Text × Option Text)
with_host scheme none = none
with_host scheme (some (host, port)) =
    if not (is_empty host) && is_port port then some (scheme, host, port) else none

abbrev pub with_scheme : Option (Text × Text) → Option (Text × Text × Option Text)
with_scheme none = none
with_scheme (some (scheme, rest)) =
    if is_scheme scheme && is_authority (without_slash rest)
    then with_host scheme (host_and_port (without_slash rest))
    else none

-- What `normalize_origin` finds in an origin before it puts the text together.
unfoldable pub origin_parts : Text → Option (Text × Text × Option Text)
unfolding is_empty eq_ignore_ascii_case split_once is_scheme is_authority without_slash
    host_and_port is_port
origin_parts t =
    if is_empty t || eq_ignore_ascii_case t (text "null")
    then none
    else with_scheme (split_once (text "://") t)

abbrev pub joined : Option (Text × Text × Option Text) → Option Text
joined none = none
joined (some (scheme, host, port)) = some (normalized scheme host port)

unfoldable pub normalize_origin : Text → Option Text
unfolding trim_start trim_end origin_parts normalized
normalize_origin origin = joined (origin_parts (trim_end (trim_start origin)))

abbrev pub before_bracket : Option (Text × Text) → Option Text
before_bracket none = none
before_bracket (some (lit, rest)) = some lit

abbrev pub before_colon : Text → Option (Text × Text) → Text
before_colon rest none = rest
before_colon rest (some (h, p)) = h

-- The branches on the first byte behind the scheme.
abbrev pub host_in : Text → Option Text
host_in [] = some (before_colon [] (split_once (text ":") []))
host_in (b ∷ bs) =
    if b == b'['
    then before_bracket (split_once (text "]") bs)
    else some (before_colon (b ∷ bs) (split_once (text ":") (b ∷ bs)))

abbrev pub behind_scheme : Option (Text × Text) → Option Text
behind_scheme none = none
behind_scheme (some (scheme, rest)) = host_in rest

unfoldable pub host_of : Text → Option Text
unfolding split_once
host_of t = behind_scheme (split_once (text "://") t)

-- `ends_with`
unfoldable pub ends_with : Text → Text → Bool
unfolding text_eq
ends_with suffix [] = text_eq [] suffix
ends_with suffix (b ∷ bs) = text_eq (b ∷ bs) suffix || ends_with suffix bs

unfoldable pub allowlist : List Text → OriginPolicy
unfolding normalize_origin
allowlist origins =
    allowlist_of (map (λ o. elim (normalize_origin o) [ none ↦ o | some n ↦ n ]) origins)

unfoldable pub is_listed : List Text → Text → Bool
unfolding text_eq
is_listed [] t = false
is_listed (u ∷ us) t = text_eq u t || is_listed us t

module _ (parse_ip : Text → Option Bool) where
  unfoldable pub is_loopback_host : Text → Bool
  unfolding ends_with
  is_loopback_host host =
      if text_eq host (text "localhost") || ends_with (text ".localhost") host
      then true
      else elim (parse_ip host) [ none ↦ false | some is_loopback ↦ is_loopback ]

  abbrev pub loopback_in : Option Text → Bool
  loopback_in none = false
  loopback_in (some host) = is_loopback_host host

  abbrev pub allowed_by : OriginPolicy → Option Text → Bool
  allowed_by any n = true
  allowed_by loopback none = false
  allowed_by (allowlist_of us) none = false
  allowed_by loopback (some n) = loopback_in (host_of n)
  allowed_by (allowlist_of us) (some n) = is_listed us n

  unfoldable pub is_allowed : OriginPolicy → Text → Bool
  unfolding normalize_origin host_of is_listed is_loopback_host
  is_allowed policy origin = allowed_by policy (normalize_origin origin)
