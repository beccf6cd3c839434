-- ===== src/Auth/Resource/Marks.antt =====
-- src/auth/resource.rs: a canonical URI has no `?` and no `#` in it, nor has its metadata path.
use sml_mcps.Prelude.{
  ℕ, ◌≡◌, ◌<◌, ◌⊎◌, subst, refl, Bool, true, false, not, Option, none, some, [], ◌∷◌, ◌++◌,
  if◌then◌else◌, arith, inl, inr, Bool-cases, ◌==◌,
}
use sml_mcps.Prelude.Text.{Text, text, strip_prefix}
use sml_mcps.Server.Logging.{to_ascii_lowercase, lower_byte}
use sml_mcps.Http1.{Outcome, ok, err}
use sml_mcps.Http1.Response.{contains, is_empty}
use sml_mcps.Origin.{split_once, cut_here, before_cut, without_slash, starts_with_letter}
use sml_mcps.Auth.Resource.{
  metadata_path, parse_trimmed, quoting, parsed_parts, canonical, split_at_slash, origin_and_path,
  behind, well_known,
}

abbrev pub Lacks : ℕ → Text → Type 0
Lacks c t = contains t c ≡ false

Lacks-append : (c : ℕ) (s t : Text) → Lacks c s → Lacks c t → Lacks c (s ++ t)
unfolding contains
Lacks-append c [] t hs ht = ht
Lacks-append c (b ∷ bs) t hs ht = ground (arith, hs, Lacks-append c bs t (ground (arith, hs)) ht)

pub Lacks-split_at_slash :
    (c : ℕ) (t : Text) → Lacks c t → Lacks c (split_at_slash t).0 × Lacks c (split_at_slash t).1
unfolding split_at_slash contains
Lacks-split_at_slash c [] h = (refl, refl)
Lacks-split_at_slash c (b ∷ bs) h =
    let r = Lacks-split_at_slash c bs (ground (arith, h)) in
    elim (Bool-cases (b == b'/')) [
      | inl e ↦ rw e (refl, h)
      | inr e ↦ rw e (ground (arith, h, r.0), r.1)
    ]

Lacks-strip_prefix :
    (c : ℕ) (p t rest : Text) → Lacks c t → strip_prefix p t ≡ some rest → Lacks c rest
unfolding strip_prefix contains
Lacks-strip_prefix c [] t rest h e =
    let same : t ≡ rest = cc in subst (λ (u : Text). Lacks c u) same h
Lacks-strip_prefix c (q ∷ p) [] rest h e = cc
Lacks-strip_prefix c (q ∷ p) (b ∷ bs) rest h e = elim (Bool-cases (q == b)) [
  | inl s ↦
      let inner : strip_prefix p bs ≡ some rest = ground (arith, e, s) in
      Lacks-strip_prefix c p bs rest (ground (arith, h)) inner
  | inr o ↦ ground (arith, e, o)
]

cut_here_parts :
    (o : Option Text) (later : Option (Text × Text)) (a b : Text)
    → cut_here o later ≡ some (a, b)
    → ((o ≡ some b) × (a ≡ [])) ⊎ (later ≡ some (a, b))
cut_here_parts (some rest) later a b e = inl (cc, cc)
cut_here_parts none later a b e = inr e

pub before_cut_parts :
    (c : ℕ) (o : Option (Text × Text)) (a b : Text)
    → before_cut c o ≡ some (a, b)
    → (front : Text) × (o ≡ some (front, b)) × (a ≡ c ∷ front)
before_cut_parts c none a b e = cc
before_cut_parts c (some (front, rest)) a b e = (front, cc, cc)

Lacks-split_once :
    (c : ℕ) (p t a b : Text) → Lacks c t → split_once p t ≡ some (a, b) → Lacks c a × Lacks c b
unfolding split_once contains
Lacks-split_once c p [] a b h e = elim (cut_here_parts (strip_prefix p []) none a b e) [
  | inl (found, front) ↦ (rw front refl, Lacks-strip_prefix c p [] b h found)
  | inr none_left ↦ cc
]
Lacks-split_once c p (d ∷ ds) a b h e =
    elim (cut_here_parts (strip_prefix p (d ∷ ds)) (before_cut d (split_once p ds)) a b e) [
      | inl (found, front) ↦ (rw front refl, Lacks-strip_prefix c p (d ∷ ds) b h found)
      | inr later ↦
          let (front, inner, grows) = before_cut_parts d (split_once p ds) a b later in
          let r = Lacks-split_once c p ds front b (ground (arith, h)) inner in
          (rw grows (ground (arith, h, r.0)), r.1)
    ]

Lacks-lower : (c : ℕ) (t : Text) → c < b'A' → Lacks c t → Lacks c (to_ascii_lowercase t)
unfolding to_ascii_lowercase lower_byte contains
Lacks-lower c [] low h = refl
Lacks-lower c (b ∷ bs) low h = ground (arith, low, h, Lacks-lower c bs low (ground (arith, h)))

Lacks-without_slash : (c : ℕ) (t : Text) → Lacks c t → Lacks c (without_slash t)
unfolding without_slash contains
Lacks-without_slash c [] h = refl
Lacks-without_slash c (b ∷ []) h = ground (arith, h)
Lacks-without_slash c (b ∷ d ∷ ds) h =
    ground (arith, h, Lacks-without_slash c (d ∷ ds) (ground (arith, h)))

-- What passed a guard whose other branch is an error.
pub ok_else :
    (b : Bool) (x : Text) (q : Outcome Text Text) (r : Text)
    → (if b then err x else q) ≡ ok r
    → (b ≡ false) × (q ≡ ok r)
ok_else true x q r e = cc
ok_else false x q r e = (refl, e)

pub ok_same : (a b : Text) → ◌≡◌ {A = Outcome Text Text} (ok a) (ok b) → a ≡ b
ok_same a b e = cc

Lacks-canonical :
    (c : ℕ) (scheme : Text) (parts : Text × Text) (r : Text)
    → c < b'A'
    → Lacks c (text "://")
    → Lacks c scheme
    → Lacks c parts.0 × Lacks c parts.1
    → canonical scheme parts ≡ ok r
    → Lacks c r
unfolding canonical
Lacks-canonical c scheme (authority, path) r low sep hs (ha, hp) e =
    let passed = ok_else (is_empty authority) _ _ r e in
    let same = ok_same _ r passed.1 in
    subst (λ (u : Text). Lacks c u) same
      (Lacks-append c (to_ascii_lowercase scheme)
        (text "://" ++ (to_ascii_lowercase authority ++ without_slash path))
        (Lacks-lower c scheme low hs)
        (Lacks-append c (text "://") (to_ascii_lowercase authority ++ without_slash path) sep (
          Lacks-append c (to_ascii_lowercase authority) (without_slash path)
            (Lacks-lower c authority low ha) (Lacks-without_slash c path hp))))

Lacks-parsed_parts :
    (c : ℕ) (o : Option (Text × Text)) (r : Text)
    → c < b'A'
    → Lacks c (text "://")
    → ((a b : Text) → o ≡ some (a, b) → Lacks c a × Lacks c b)
    → parsed_parts o ≡ ok r
    → Lacks c r
Lacks-parsed_parts c none r low sep parts e = cc
Lacks-parsed_parts c (some (scheme, rest)) r low sep parts e =
    let lettered = ok_else (not (starts_with_letter scheme)) _ _ r e in
    let hosted = ok_else (is_empty rest) _ _ r lettered.1 in
    let lacking = parts scheme rest refl in
    Lacks-canonical c scheme (split_at_slash rest) r low sep lacking.0
      (Lacks-split_at_slash c rest lacking.1) hosted.1

pub quoting_ok : (uri : Text) (o : Outcome Text Text) (r : Text) → quoting uri o ≡ ok r → o ≡ ok r
quoting_ok uri (ok a) r e = e
quoting_ok uri (err a) r e = cc

pub Lacks-parse_trimmed : (uri r : Text) → parse_trimmed uri ≡ ok r → Lacks b'#' r × Lacks b'?' r
unfolding parse_trimmed text contains
Lacks-parse_trimmed uri r e =
    let given = ok_else (is_empty uri) _ _ r e in
    let plain = ok_else (contains uri b'#') _ _ r given.1 in
    let unqueried = ok_else (contains uri b'?') _ _ r plain.1 in
    let parts = split_once (text "://") uri in
    let parsed = quoting_ok uri (parsed_parts parts) r unqueried.1 in
    (
      Lacks-parsed_parts b'#' parts r (omega arith) refl
          (λ a b f. Lacks-split_once b'#' (text "://") uri a b plain.0 f) parsed,
      Lacks-parsed_parts b'?' parts r (omega arith) refl
          (λ a b f. Lacks-split_once b'?' (text "://") uri a b unqueried.0 f) parsed,
    )

Lacks-behind :
    (c : ℕ) (whole : Text) (o : Option (Text × Text))
    → Lacks c whole
    → ((a b : Text) → o ≡ some (a, b) → Lacks c a × Lacks c b)
    → Lacks c (behind whole o).1
Lacks-behind c whole none h parts = (Lacks-split_at_slash c whole h).1
Lacks-behind c whole (some (scheme, rest)) h parts =
    (Lacks-split_at_slash c rest (parts scheme rest refl).1).1

pub Lacks-metadata_path :
    (c : ℕ) (r : Text) → Lacks c well_known → Lacks c r → Lacks c (metadata_path r)
unfolding metadata_path origin_and_path
Lacks-metadata_path c r known h = Lacks-append c well_known (origin_and_path r).1 known (
    Lacks-behind c r (split_once (text "://") r) h
      (λ a b f. Lacks-split_once c (text "://") r a b h f))
