-- ===== src/Auth/Resource/Urls.antt =====
-- src/auth/resource.rs: the path in the URL of the metadata, for whoever takes that URL apart.
use sml_mcps.Prelude.{
  ℕ, ◌≡◌, subst, refl, sym, ◌∙◌, ap, true, not, Option, none, some, [], ◌∷◌, ◌++◌, arith, inl, inr,
  Bool-cases, Option-cases, ◌==◌, is_some,
}
use sml_mcps.Prelude.Text.{Text, text, strip_prefix}
use sml_mcps.Server.Logging.{to_ascii_lowercase}
use sml_mcps.Rpc.Classify.{trim_start}
use sml_mcps.Http1.{ok}
use sml_mcps.Http1.ReadHead.{trim_end}
use sml_mcps.Http1.Response.{contains, is_empty}
use sml_mcps.Origin.{split_once, cut_here, before_cut, without_slash, starts_with_letter}
use sml_mcps.Auth.Resource.Marks.{Lacks, before_cut_parts, ok_else, ok_same, quoting_ok}
use sml_mcps.Auth.Resource.{parse_uri, parse_trimmed, parsed_parts, canonical, split_at_slash}

abbrev pub sep : Text
sep = b':' ∷ b'/' ∷ b'/' ∷ []

strip_prefix_parts : (p t b : Text) → strip_prefix p t ≡ some b → t ≡ p ++ b
unfolding strip_prefix
strip_prefix_parts [] t b e = cc
strip_prefix_parts (c ∷ p) [] b e = cc
strip_prefix_parts (c ∷ p) (d ∷ t) b e = elim (Bool-cases (c == d)) [
  | inl s ↦
      let later : t ≡ p ++ b = strip_prefix_parts p t b (ground (arith, e, s)) in
      let same : d ≡ c = ground (arith, s) in cc
  | inr o ↦ ground (arith, e, o)
]

-- The separator begins at a byte or not, whatever stands behind the first one.
strip_prefix-sep :
    (d : ℕ) (front b b' : Text)
    → strip_prefix sep (d ∷ (front ++ (sep ++ b))) ≡ none
    → strip_prefix sep (d ∷ (front ++ (sep ++ b'))) ≡ none
unfolding strip_prefix
strip_prefix-sep d [] b b' h = ground (arith, h)
strip_prefix-sep d (c ∷ []) b b' h = ground (arith, h)
strip_prefix-sep d (c ∷ e ∷ front) b b' h = ground (arith, h)

split_once_here : (b : Text) → split_once sep (sep ++ b) ≡ some ([], b)
unfolding split_once strip_prefix
split_once_here b = refl

-- Where the first separator stands in a text, it stands whatever is put behind it.
abbrev pub IsCut : Text → Text → Text → Type 0
IsCut t a b =
    (t ≡ a ++ (sep ++ b)) × ((b' : Text) → split_once sep (a ++ (sep ++ b')) ≡ some (a, b'))

pub pair_parts :
    (a b c d : Text)
    → ◌≡◌ {A = Option (Text × Text)} (some (a, b)) (some (c, d))
    → (a ≡ c) × (b ≡ d)
pair_parts a b c d e = (cc, cc)

IsCut-here :
    (t rest a b : Text)
    → strip_prefix sep t ≡ some rest
    → ◌≡◌ {A = Option (Text × Text)} (some ([], rest)) (some (a, b))
    → IsCut t a b
IsCut-here t rest a b e h =
    let (front, back) = pair_parts [] rest a b h in
    subst (λ (x : Text). IsCut t x b) front
      (strip_prefix_parts sep t b (e ∙ ap (λ (x : Text). some x) back), split_once_here)

cut_here-none :
    (o : Option Text) (later : Option (Text × Text)) → o ≡ none → cut_here o later ≡ later
cut_here-none none later e = refl
cut_here-none (some rest) later e = cc

-- No separator begins at this byte: the cut is that of the rest.
split_once_later :
    (d : ℕ) (t : Text)
    → strip_prefix sep (d ∷ t) ≡ none
    → split_once sep (d ∷ t) ≡ before_cut d (split_once sep t)
unfolding split_once
split_once_later d t e = cut_here-none (strip_prefix sep (d ∷ t)) _ e

split_once_now :
    (d : ℕ) (t rest : Text)
    → strip_prefix sep (d ∷ t) ≡ some rest
    → split_once sep (d ∷ t) ≡ some ([], rest)
unfolding split_once
split_once_now d t rest e = rw e refl

IsCut-later :
    (d : ℕ) (ds front b : Text)
    → strip_prefix sep (d ∷ ds) ≡ none
    → IsCut ds front b
    → IsCut (d ∷ ds) (d ∷ front) b
IsCut-later d ds front b e (parts, again) =
    let open_ : strip_prefix sep (d ∷ (front ++ (sep ++ b))) ≡ none =
      ap (λ (t : Text). strip_prefix sep (d ∷ t)) (sym parts) ∙ e in
    (
      ap (λ (t : Text). d ∷ t) parts,
      λ b'.
          split_once_later d (front ++ (sep ++ b')) (strip_prefix-sep d front b b' open_)
          ∙ ap (before_cut d) (again b'),
    )

pub split_once-IsCut : (t a b : Text) → split_once sep t ≡ some (a, b) → IsCut t a b
unfolding split_once
split_once-IsCut [] a b h = absurd (nothing a b h)
  where
    nothing : (a b : Text) → split_once sep [] ≡ some (a, b) → ⊥
    nothing a b h = let e : ◌≡◌ {A = Option (Text × Text)} none (some (a, b)) = h in cc
split_once-IsCut (d ∷ ds) a b h = elim (Option-cases (strip_prefix sep (d ∷ ds))) [
  | inr (rest, e) ↦ IsCut-here (d ∷ ds) rest a b e (sym (split_once_now d ds rest e) ∙ h)
  | inl e ↦
      let (front, inner, grows) =
        before_cut_parts d (split_once sep ds) a b (sym (split_once_later d ds e) ∙ h) in
      subst (λ (x : Text). IsCut (d ∷ ds) x b) (sym grows)
        (IsCut-later d ds front b e (split_once-IsCut ds front b inner))
]

before_cut-some :
    (d : ℕ) (o : Option (Text × Text)) → is_some o ≡ true → is_some (before_cut d o) ≡ true
before_cut-some d none h = cc
before_cut-some d (some (a, b)) h = refl

-- A text with the separator in it has a cut.
pub split_once_some : (a b : Text) → is_some (split_once sep (a ++ (sep ++ b))) ≡ true
split_once_some [] b = ap is_some (split_once_here b)
split_once_some (d ∷ a) b = elim (Option-cases (strip_prefix sep (d ∷ (a ++ (sep ++ b))))) [
  | inr (rest, e) ↦ ap is_some (split_once_now d (a ++ (sep ++ b)) rest e)
  | inl e ↦
      ap is_some (split_once_later d (a ++ (sep ++ b)) e)
      ∙ before_cut-some d (split_once sep (a ++ (sep ++ b))) (split_once_some a b)
]

-- A canonical URI has the separator in it.
canonical_parts :
    (scheme : Text) (parts : Text × Text) (r : Text)
    → canonical scheme parts ≡ ok r
    → (a : Text) × (b : Text) × (r ≡ a ++ (sep ++ b))
unfolding canonical text
canonical_parts scheme (authority, path) r e =
    let passed = ok_else (is_empty authority) _ _ r e in
    (
      to_ascii_lowercase scheme,
      to_ascii_lowercase authority ++ without_slash path,
      sym (ok_same _ r passed.1),
    )

parsed_parts_cut :
    (o : Option (Text × Text)) (r : Text)
    → parsed_parts o ≡ ok r
    → (a : Text) × (b : Text) × (r ≡ a ++ (sep ++ b))
parsed_parts_cut none r e = cc
parsed_parts_cut (some (scheme, rest)) r e =
    let lettered = ok_else (not (starts_with_letter scheme)) _ _ r e in
    let hosted = ok_else (is_empty rest) _ _ r lettered.1 in
    canonical_parts scheme (split_at_slash rest) r hosted.1

pub parse_uri_cut :
    (uri r : Text) → parse_uri uri ≡ ok r → (a : Text) × (b : Text) × (r ≡ a ++ (sep ++ b))
unfolding parse_uri parse_trimmed
parse_uri_cut uri r e =
    let trimmed = trim_end (trim_start uri) in
    let given = ok_else (is_empty trimmed) _ _ r e in
    let plain = ok_else (contains trimmed b'#') _ _ r given.1 in
    let unqueried = ok_else (contains trimmed b'?') _ _ r plain.1 in
    let parts = split_once (text "://") trimmed in
    parsed_parts_cut parts r (quoting_ok trimmed (parsed_parts parts) r unqueried.1)

abbrev pub IsPath : Text → Type 0
IsPath [] = ⊥
IsPath (b ∷ bs) = b ≡ b'/'

-- Two texts without a slash, each with a path behind it.
pub slash_cut :
    (a b x y : Text) → Lacks b'/' a → Lacks b'/' b → IsPath x → IsPath y → a ++ x ≡ b ++ y → x ≡ y
unfolding contains
slash_cut [] [] x y ha hb hx hy e = e
slash_cut a b [] y ha hb hx hy e = absurd hx
slash_cut a b x [] ha hb hx hy e = absurd hy
slash_cut [] (c ∷ b) (d ∷ x) y ha hb hx hy e = let same : d ≡ c = cc in ground (arith, hb, same, hx)
slash_cut (c ∷ a) [] x (d ∷ y) ha hb hx hy e = let same : c ≡ d = cc in ground (arith, ha, same, hy)
slash_cut (c ∷ a) (d ∷ b) (p ∷ x) (q ∷ y) ha hb hx hy e =
    let rest : a ++ p ∷ x ≡ b ++ q ∷ y = cc in
    slash_cut a b (p ∷ x) (q ∷ y) (ground (arith, ha)) (ground (arith, hb)) hx hy rest
