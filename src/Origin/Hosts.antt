-- ===== src/Origin/Hosts.antt =====
-- src/transport/origin.rs: the policy for loopback goes by the host that the origin names.
use sml_mcps.Prelude.{
  ℕ, ◌≡◌, refl, ap, Bool, true, false, Option, none, some, [], ◌∷◌, ◌++◌, arith, ◌==◌, append-nil,
  ◌⊎◌, inl, inr, ◌↔◌, Bool-cases, ◌||◌, if◌then◌else◌,
}
use sml_mcps.Prelude.Text.{Text, text, text_eq, text_eq_iff}
use sml_mcps.Server.Logging.{to_ascii_lowercase}
use sml_mcps.Rpc.Classify.{trim_start}
use sml_mcps.Http1.Response.{contains, is_empty}
use sml_mcps.Http1.ReadHead.{trim_end}
use sml_mcps.Origin.{
  loopback, split_once, is_scheme, port_text, origin_parts, normalized, normalize_origin, host_of,
  host_in, before_colon, is_loopback_host, is_allowed, ends_with,
}
use sml_mcps.Origin.Parts.{
  IsFree, split_once-append, split_once_free, is_scheme-IsFree, lower-IsFree_colon,
  lower-IsFree_bracket, origin_parts-eq,
}

first_not_bracket : (b : ℕ) (bs : Text) → IsFree b'[' (b ∷ bs) → (b == b'[') ≡ false
unfolding contains
first_not_bracket b bs f = ground arith

before_colon_plain :
    (host : Text) (port : Option Text)
    → IsFree b':' host
    → before_colon (host ++ port_text port) (split_once (text ":") (host ++ port_text port)) ≡ host
unfolding text
before_colon_plain host none g = rw (append-nil host) (rw (split_once_free b':' [] host g) refl)
before_colon_plain host (some p) g = rw (split_once-append b':' [] host p g) refl

host_in_plain :
    (host : Text) (port : Option Text)
    → is_empty host ≡ false
    → IsFree b'[' host
    → IsFree b':' host
    → host_in (host ++ port_text port) ≡ some host
unfolding is_empty
host_in_plain [] port e f g = cc
host_in_plain (b ∷ bs) port e f g =
    rw (first_not_bracket b bs f) (ap (λ (h : Text). some h) (before_colon_plain (b ∷ bs) port g))

lower-is_empty : (t : Text) → is_empty t ≡ false → is_empty (to_ascii_lowercase t) ≡ false
unfolding is_empty to_ascii_lowercase
lower-is_empty [] h = h
lower-is_empty (b ∷ bs) h = refl

-- Taken apart again, a normalized origin yields the host that it was made with.
host_of-normalized :
    (scheme host : Text) (port : Option Text)
    → is_scheme scheme ≡ true
    → is_empty host ≡ false
    → IsFree b'[' host
    → IsFree b':' host
    → host_of (normalized scheme host port) ≡ some (to_ascii_lowercase host)
unfolding host_of normalized text
host_of-normalized scheme host port s e f g =
    rw
      (split_once-append b':' (b'/' ∷ b'/' ∷ []) (to_ascii_lowercase scheme)
        (to_ascii_lowercase host ++ port_text port) (is_scheme-IsFree scheme s))
      (host_in_plain (to_ascii_lowercase host) port (lower-is_empty host e)
        (lower-IsFree_bracket host f) (lower-IsFree_colon host g))

-- A text ends in a suffix exactly when the suffix stands behind some front.
ends_with-append : (suffix front : Text) → ends_with suffix (front ++ suffix) ≡ true
unfolding ends_with
ends_with-append [] [] = refl
ends_with-append (b ∷ bs) [] = rw ((text_eq_iff (b ∷ bs) (b ∷ bs)).1 refl) refl
ends_with-append suffix (b ∷ front) = ground (arith, ends_with-append suffix front)

ends_with_front :
    (suffix t : Text) → ends_with suffix t ≡ true → (front : Text) × (t ≡ front ++ suffix)
unfolding ends_with
ends_with_front suffix [] h = ([], (text_eq_iff [] suffix).0 h)
ends_with_front suffix (b ∷ bs) h = elim (Bool-cases (text_eq (b ∷ bs) suffix)) [
  | inl e ↦ ([], (text_eq_iff (b ∷ bs) suffix).0 e)
  | inr e ↦
      let (front, cut) = ends_with_front suffix bs (ground (arith, e, h)) in
      (b ∷ front, ap (λ (t : Text). b ∷ t) cut)
]

module _ (parse_ip : Text → Option Bool) where
  -- `localhost`, a name below it, or the address of a loopback interface
  abbrev pub IsLoopbackName : Text → Type 0
  IsLoopbackName host =
      (host ≡ text "localhost")
      ⊎ (((front : Text) × (host ≡ front ++ text ".localhost")) ⊎ (parse_ip host ≡ some true))

  address_only :
      (o : Option Bool)
      → elim o [ none ↦ false | some is_loopback ↦ is_loopback ] ≡ true
      → o ≡ some true
  address_only none h = cc
  address_only (some true) h = refl
  address_only (some false) h = cc

  one_holds :
      (a b : Bool) (o : Option Bool)
      → (a ≡ true) ⊎ ((b ≡ true) ⊎ (o ≡ some true))
      → (if a || b then true else elim o [ none ↦ false | some is_loopback ↦ is_loopback ]) ≡ true
  one_holds true b o h = refl
  one_holds false true o h = refl
  one_holds false false o (inl h) = cc
  one_holds false false o (inr (inl h)) = cc
  one_holds false false o (inr (inr h)) = rw h refl

  is_loopback_host-IsLoopbackName :
      (host : Text) → (is_loopback_host parse_ip host ≡ true) ↔ IsLoopbackName host
  unfolding is_loopback_host
  is_loopback_host-IsLoopbackName host = (
    λ h. elim (Bool-cases (text_eq host (text "localhost"))) [
      | inl e ↦ inl ((text_eq_iff host (text "localhost")).0 e)
      | inr e ↦ elim (Bool-cases (ends_with (text ".localhost") host)) [
        | inl d ↦ inr (inl (ends_with_front (text ".localhost") host d))
        | inr d ↦ inr (inr (address_only (parse_ip host) (rw (e, d) at h)))
      ]
    ],
    λ n.
        one_holds (text_eq host (text "localhost")) (ends_with (text ".localhost") host)
          (parse_ip host)
          (elim n [
            | inl e ↦ inl ((text_eq_iff host (text "localhost")).1 e)
            | inr (inl (front, e)) ↦ inr (inl (rw e (ends_with-append (text ".localhost") front)))
            | inr (inr e) ↦ inr (inr e)
          ]),
  )

  -- With the policy for loopback, an origin whose host is no bracketed literal is allowed
  -- exactly when that host, in lower case, is `localhost`, ends in `.localhost`, or is a
  -- loopback address, whatever its scheme and port.
  pub is_allowed_host :
      (origin scheme host : Text) (port : Option Text)
      → origin_parts (trim_end (trim_start origin)) ≡ some (scheme, host, port)
      → IsFree b'[' host
      → IsFree b':' host
      → (is_allowed parse_ip loopback origin ≡ true) ↔ IsLoopbackName (to_ascii_lowercase host)
  unfolding is_allowed normalize_origin
  is_allowed_host origin scheme host port h f g =
      let (s, e, _) = origin_parts-eq (trim_end (trim_start origin)) scheme host port h in
      rw h (
        rw (host_of-normalized scheme host port s e f g)
          (is_loopback_host-IsLoopbackName (to_ascii_lowercase host)))
