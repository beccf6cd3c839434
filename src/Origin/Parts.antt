-- ===== src/Origin/Parts.antt =====
-- src/transport/origin.rs: how the text of an origin is cut, and put together again.
use sml_mcps.Prelude.{
  ℕ, ◌≡◌, refl, sym, ◌∙◌, ap, Bool, true, false, not, ◌&&◌, ◌||◌, Option, none, some, [], ◌∷◌, ◌++◌,
  arith, ◌==◌, Bool-cases, inl, inr,
}
use sml_mcps.Prelude.Text.{Text, text, strip_prefix, strip_prefix-append}
use sml_mcps.Server.Logging.{to_ascii_lowercase, lower_byte}
use sml_mcps.Http1.Response.{is_alphanumeric, contains, all_bytes, is_empty}
use sml_mcps.Http1.FramingOf.{eq_ignore_ascii_case}
use sml_mcps.Origin.{
  split_once, scheme_byte, is_scheme, is_authority, without_slash, host_and_port, is_port,
  with_host, with_scheme, origin_parts,
}

-- The byte stands nowhere in the text.
abbrev pub IsFree : ℕ → Text → Type 0
IsFree c t = contains t c ≡ false

strip_prefix_differs :
    (c b : ℕ) (p bs : Text) → (b == c) ≡ false → strip_prefix (c ∷ p) (b ∷ bs) ≡ none
unfolding strip_prefix
strip_prefix_differs c b p bs h = ground arith

pub split_once-append :
    (c : ℕ) (p s rest : Text)
    → IsFree c s
    → split_once (c ∷ p) (s ++ ((c ∷ p) ++ rest)) ≡ some (s, rest)
unfolding split_once contains
split_once-append c p [] rest h = ground (arith, strip_prefix-append p rest)
split_once-append c p (b ∷ s) rest h = ground (arith, split_once-append c p s rest)

pub split_once_free : (c : ℕ) (p s : Text) → IsFree c s → split_once (c ∷ p) s ≡ none
unfolding split_once contains strip_prefix
split_once_free c p [] h = refl
split_once_free c p (b ∷ s) h = ground (arith, split_once_free c p s)

scheme_byte_lower : (b : ℕ) → scheme_byte b ≡ true → (lower_byte b == b':') ≡ false
unfolding scheme_byte lower_byte is_alphanumeric
scheme_byte_lower b h = ground arith

lower_scheme-IsFree :
    (s : Text) → all_bytes scheme_byte s ≡ true → IsFree b':' (to_ascii_lowercase s)
unfolding all_bytes to_ascii_lowercase contains
lower_scheme-IsFree [] h = refl
lower_scheme-IsFree (b ∷ bs) h = ground (arith, scheme_byte_lower b, lower_scheme-IsFree bs)

pub is_scheme-IsFree : (s : Text) → is_scheme s ≡ true → IsFree b':' (to_ascii_lowercase s)
unfolding is_scheme
is_scheme-IsFree s h = ground (arith, lower_scheme-IsFree s)

lower_byte_bracket : (b : ℕ) → (lower_byte b == b'[') ≡ (b == b'[')
unfolding lower_byte
lower_byte_bracket b = ground arith

lower_byte_colon : (b : ℕ) → (lower_byte b == b':') ≡ (b == b':')
unfolding lower_byte
lower_byte_colon b = ground arith

pub lower-IsFree_colon : (t : Text) → IsFree b':' t → IsFree b':' (to_ascii_lowercase t)
unfolding to_ascii_lowercase contains
lower-IsFree_colon [] h = refl
lower-IsFree_colon (b ∷ bs) h = ground (arith, lower_byte_colon b, lower-IsFree_colon bs)

pub lower-IsFree_bracket : (t : Text) → IsFree b'[' t → IsFree b'[' (to_ascii_lowercase t)
unfolding to_ascii_lowercase contains
lower-IsFree_bracket [] h = refl
lower-IsFree_bracket (b ∷ bs) h = ground (arith, lower_byte_bracket b, lower-IsFree_bracket bs)

abbrev AreParts : Text → Text → Option Text → Type 0
AreParts scheme host port =
    (is_scheme scheme ≡ true) × (is_empty host ≡ false) × (is_port port ≡ true)

with_host-eq :
    (s : Text) (found : Option (Text × Option Text)) (scheme host : Text) (port : Option Text)
    → is_scheme s ≡ true
    → with_host s found ≡ some (scheme, host, port)
    → AreParts scheme host port
with_host-eq s none scheme host port v h = cc
with_host-eq s (some (g, q)) scheme host port v h =
    elim (Bool-cases (not (is_empty g) && is_port q)) [
      | inl e ↦
          let same : ◌≡◌ {A = Option (Text × Text × Option Text)} (some (s, g, q))
              (some (scheme, host, port)) =
            rw e at h in
          let scheme-eq : s ≡ scheme = cc in
          let host-eq : g ≡ host = cc in
          let port-eq : q ≡ port = cc in
          (
            ap is_scheme (sym scheme-eq) ∙ v,
            ap is_empty (sym host-eq) ∙ not_empty (is_empty g) (is_port q) e,
            ap is_port (sym port-eq) ∙ second_of (is_empty g) (is_port q) e,
          )
      | inr e ↦ absurd (ground (arith, e))
    ]
  where
    not_empty : (a b : Bool) → (not a && b) ≡ true → a ≡ false
    not_empty true b e = cc
    not_empty false b e = refl

    second_of : (a b : Bool) → (not a && b) ≡ true → b ≡ true
    second_of true b e = cc
    second_of false b e = e

with_scheme-eq :
    (cut : Option (Text × Text)) (scheme host : Text) (port : Option Text)
    → with_scheme cut ≡ some (scheme, host, port)
    → AreParts scheme host port
with_scheme-eq none scheme host port h = cc
with_scheme-eq (some (s, rest)) scheme host port h =
    elim (Bool-cases (is_scheme s && is_authority (without_slash rest))) [
      | inl e ↦
          with_host-eq s (host_and_port (without_slash rest)) scheme host port
            (first_of (is_scheme s) (is_authority (without_slash rest)) e) (rw e at h)
      | inr e ↦ absurd (ground (arith, e))
    ]
  where
    first_of : (a b : Bool) → (a && b) ≡ true → a ≡ true
    first_of true b e = refl
    first_of false b e = cc

-- What the parts of an origin satisfy.
pub origin_parts-eq :
    (t scheme host : Text) (port : Option Text)
    → origin_parts t ≡ some (scheme, host, port)
    → (is_scheme scheme ≡ true) × (is_empty host ≡ false) × (is_port port ≡ true)
unfolding origin_parts
origin_parts-eq t scheme host port h =
    elim (Bool-cases (is_empty t || eq_ignore_ascii_case t (text "null"))) [
      | inl e ↦ absurd (ground (arith, e))
      | inr e ↦ with_scheme-eq (split_once (text "://") t) scheme host port (rw e at h)
    ]
