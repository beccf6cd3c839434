-- ===== src/Auth/Quoted.antt =====
-- src/auth/resource.rs: what a client reads of a quoted value in a challenge.
use sml_mcps.Prelude.{
  ℕ, ◌≡◌, ◌∙◌, refl, ap, Bool, true, false, Option, none, some, [], ◌∷◌, ◌++◌, arith, ◌==◌, ◌||◌,
  if◌then◌else◌, Bool-cases, inl, inr, append_assoc,
}
use sml_mcps.Prelude.Text.{Text}
use sml_mcps.Auth.Resource.{replace, escape}

-- RFC 9110, `quoted-string`, behind its first quote: the value, and what is behind it. A backslash
-- makes the next byte part of the value.
abbrev pub with_byte : ℕ → Option (Text × Text) → Option (Text × Text)
with_byte b none = none
with_byte b (some (value, rest)) = some (b ∷ value, rest)

unfoldable pub read_quoted : Bool → Text → Option (Text × Text)
read_quoted escaped [] = none
read_quoted true (b ∷ bs) = with_byte b (read_quoted false bs)
read_quoted false (b ∷ bs) =
    let plain = with_byte b (read_quoted false bs) in
    let pair = read_quoted true bs in
    if b == b'"' then some ([], bs) else if b == b'\\' then pair else plain

abbrev escaped_byte : ℕ → Text
escaped_byte b = if b == b'"' || b == b'\\' then b'\\' ∷ b ∷ [] else b ∷ []

escape_step : (b : ℕ) (bs : Text) → escape (b ∷ bs) ≡ escaped_byte b ++ escape bs
unfolding escape replace
escape_step b bs = elim (Bool-cases (b == b'"')) [
  | inl q ↦
      let other : (b == b'\\') ≡ false = ground (arith, q) in
      let same : b'"' ≡ b = ground (arith, q) in
      rw (q, other) (rw (replace, q) (ap (λ (c : ℕ). b'\\' ∷ c ∷ escape bs) same))
  | inr p ↦ elim (Bool-cases (b == b'\\')) [
    | inl s ↦
        let same : b'\\' ≡ b = ground (arith, s) in
        rw (p, s) (ap (λ (c : ℕ). b'\\' ∷ c ∷ escape bs) same)
    | inr o ↦ rw (p, o) (rw (replace, p) refl)
  ]
]

read_step :
    (b : ℕ) (t : Text) → read_quoted false (escaped_byte b ++ t) ≡ with_byte b (read_quoted false t)
unfolding read_quoted
read_step b t = elim (Bool-cases (b == b'"')) [
  | inl q ↦ rw q refl
  | inr p ↦ elim (Bool-cases (b == b'\\')) [
    | inl s ↦ rw (p, s) refl
    | inr o ↦ rw (p, o) (rw (read_quoted, p, o) refl)
  ]
]

-- A client reads the value that a challenge was given, whatever is in it, and what is behind the
-- closing quote is left: no value closes its quotes.
pub read_quoted-escape :
    (value rest : Text) → read_quoted false (escape value ++ b'"' ∷ rest) ≡ some (value, rest)
unfolding escape replace read_quoted
read_quoted-escape [] rest = refl
read_quoted-escape (b ∷ bs) rest =
    ap (λ (t : Text). read_quoted false (t ++ b'"' ∷ rest)) (escape_step b bs)
    ∙ (ap (read_quoted false) (append_assoc (escaped_byte b) (escape bs) (b'"' ∷ rest))
        ∙ (read_step b (escape bs ++ b'"' ∷ rest) ∙ ap (with_byte b) (read_quoted-escape bs rest)))
