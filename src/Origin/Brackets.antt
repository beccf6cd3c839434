-- ===== src/Origin/Brackets.antt =====
-- src/transport/origin.rs: an origin with two closing brackets. `normalize_origin` cuts the host
-- at the last one and `host_of` at the first.
use sml_mcps.Prelude.{
  ℕ, ◌≡◌, refl, ◌∙◌, ap, Bool, true, false, ◌&&◌, ◌||◌, Option, none, some, [], ◌∷◌, ◌++◌, arith,
  ◌==◌, leb, Bool-cases, inl, inr,
}
use sml_mcps.Prelude.Text.{Text, text, text_eq}
use sml_mcps.Server.Logging.{to_ascii_lowercase, lower_byte}
use sml_mcps.Rpc.Classify.{trim_start, whitespace_len, trim_start-keep}
use sml_mcps.Http1.Response.{contains, all_bytes}
use sml_mcps.Http1.FramingOf.{eq_ignore_ascii_case}
use sml_mcps.Http1.ReadHead.{trim_end}
use sml_mcps.Origin.{
  loopback, split_once, split_at_bracket, is_authority, without_slash, host_and_port, origin_parts,
  normalized, normalize_origin, host_of, is_loopback_host, is_allowed, joined, allowed_by,
  loopback_in,
}

-- What a host name is made of, here: small letters and dots.
unfoldable pub name_byte : ℕ → Bool
name_byte b = leb b'a' b && leb b b'z' || b == b'.'

abbrev pub IsName : Text → Type 0
IsName t = all_bytes name_byte t ≡ true

-- The bytes of the origins below.
plain_byte : ℕ → Bool
unfolding name_byte
plain_byte b = name_byte b || (b == b'[' || (b == b']' || (b == b':' || (b == b'/' || b == b'1'))))

abbrev authority : Text → Text
authority t = text "[::1]" ++ (t ++ b']' ∷ [])

abbrev pub bracketed_origin : Text → Text
bracketed_origin t = text "http://" ++ authority t

whitespace_len_plain : (b : ℕ) (s : Text) → plain_byte b ≡ true → whitespace_len (b ∷ s) ≡ 0
unfolding whitespace_len plain_byte
whitespace_len_plain b [] h = ground arith
whitespace_len_plain b (c ∷ []) h = ground arith
whitespace_len_plain b (c ∷ d ∷ []) h = ground arith
whitespace_len_plain b (c ∷ d ∷ e ∷ s) h = ground arith

trim_start_plain : (b : ℕ) (s : Text) → plain_byte b ≡ true → trim_start (b ∷ s) ≡ b ∷ s
trim_start_plain b s h = trim_start-keep b s (whitespace_len_plain b s h)

trim_end_plain : (s : Text) → all_bytes plain_byte s ≡ true → trim_end s ≡ s
unfolding trim_end all_bytes
trim_end_plain [] h = refl
trim_end_plain (b ∷ s) h =
    let front : plain_byte b ≡ true = ground arith in
    let back : all_bytes plain_byte s ≡ true = ground arith in
    rw (trim_end, trim_start_plain b s front) (ap (λ (u : Text). b ∷ u) (trim_end_plain s back))

all_plain : (t : Text) → IsName t → all_bytes plain_byte (t ++ b']' ∷ []) ≡ true
unfolding all_bytes plain_byte
all_plain [] h = refl
all_plain (b ∷ t) h = ground (arith, all_plain t)

origin_plain : (t : Text) → IsName t → all_bytes plain_byte (bracketed_origin t) ≡ true
unfolding all_bytes plain_byte text
origin_plain t h = all_plain t h

without_slash-append : (x : Text) → without_slash (x ++ b']' ∷ []) ≡ x ++ b']' ∷ []
unfolding without_slash
without_slash-append [] = refl
without_slash-append (b ∷ []) = refl
without_slash-append (b ∷ c ∷ x) = ap (λ (u : Text). b ∷ u) (without_slash-append (c ∷ x))

split_at_bracket-append : (x : Text) → split_at_bracket (x ++ b']' ∷ []) ≡ some (x ++ b']' ∷ [], [])
unfolding split_at_bracket
split_at_bracket-append [] = refl
split_at_bracket-append (b ∷ x) = rw (split_at_bracket-append x) refl

name_free :
    (c : ℕ) (t : Text)
    → name_byte c ≡ false
    → (b']' == c) ≡ false
    → IsName t
    → contains (t ++ b']' ∷ []) c ≡ false
unfolding contains all_bytes
name_free c [] nc bc h = ground arith
name_free c (b ∷ t) nc bc h = ground (arith, name_free c t nc bc, differs)
  where
    differs : name_byte b ≡ true → (b == c) ≡ false
    differs e = elim (Bool-cases (b == c)) [
      | inl same ↦ let eq : b ≡ c = ground (arith, same) in cc
      | inr other ↦ other
    ]

is_authority_brackets : (t : Text) → IsName t → is_authority (authority t) ≡ true
unfolding is_authority text name_byte
is_authority_brackets t h = rw (name_free b'/' t refl refl h) (
    rw (name_free b'?' t refl refl h)
      (rw (name_free b'#' t refl refl h) (rw (name_free b'@' t refl refl h) refl)))

authority_host : (t : Text) → host_and_port (authority t) ≡ some (authority t, none)
unfolding host_and_port text
authority_host t = rw (split_at_bracket-append (text "[::1]" ++ t)) refl

no_slash : (t : Text) → without_slash (b']' ∷ (t ++ b']' ∷ [])) ≡ b']' ∷ (t ++ b']' ∷ [])
no_slash t = without_slash-append (b']' ∷ t)

-- The parts that are found: all of the brackets are the host.
brackets_parts :
    (t : Text)
    → IsName t
    → origin_parts (bracketed_origin t) ≡ some (text "http", authority t, none)
unfolding origin_parts eq_ignore_ascii_case to_ascii_lowercase lower_byte text
brackets_parts t h = rw (no_slash t) (rw (is_authority_brackets t h) (rw (authority_host t) refl))

trimmed : (t : Text) → IsName t → trim_end (trim_start (bracketed_origin t)) ≡ bracketed_origin t
unfolding text plain_byte
trimmed t h =
    ap trim_end (trim_start_plain b'h' (text "ttp://" ++ authority t) first)
    ∙ trim_end_plain (bracketed_origin t) (origin_plain t h)
  where
    first : plain_byte b'h' ≡ true
    first = refl

normalize_brackets :
    (t : Text)
    → IsName t
    → normalize_origin (bracketed_origin t) ≡ some (normalized (text "http") (authority t) none)
unfolding normalize_origin
normalize_brackets t h =
    ap (λ (u : Text). joined (origin_parts u)) (trimmed t h) ∙ ap joined (brackets_parts t h)

-- `host_of` stops at the first closing bracket.
brackets_host :
    (t : Text) → host_of (normalized (text "http") (authority t) none) ≡ some (text "::1")
unfolding host_of normalized to_ascii_lowercase lower_byte text split_once
brackets_host t = refl

module _ (parse_ip : Text → Option Bool) where
  loopback_literal :
      parse_ip (text "::1") ≡ some true → is_loopback_host parse_ip (text "::1") ≡ true
  unfolding is_loopback_host text_eq text
  loopback_literal ip = rw ip refl

  -- The default policy, for loopback, allows the origin `http://[::1]<name>]` for every name of
  -- small letters and dots, although its host is no address: `normalize_origin` takes it for
  -- well formed, and `host_of` looks only at what stands before the first closing bracket.
  pub is_allowed_brackets :
      (t : Text)
      → IsName t
      → parse_ip (text "::1") ≡ some true
      → is_allowed parse_ip loopback (bracketed_origin t) ≡ true
  unfolding is_allowed
  is_allowed_brackets t h ip =
      ap (allowed_by parse_ip loopback) (normalize_brackets t h)
      ∙ (ap (loopback_in parse_ip) (brackets_host t) ∙ loopback_literal ip)
