-- ===== src/Auth/Resource/Paths.antt =====
-- src/auth/resource.rs: the path of the URL of the metadata is the one that is answered.
use sml_mcps.Prelude.{
  ◌≡◌, refl, sym, ◌∙◌, ap, true, false, Option, some, [], ◌∷◌, ◌++◌, arith, inl, inr, Bool-cases,
  Option-cases, ◌==◌, append_assoc, is_some,
}
use sml_mcps.Prelude.Text.{Text, text}
use sml_mcps.Http1.{ok}
use sml_mcps.Http1.Response.{contains}
use sml_mcps.Origin.{split_once}
use sml_mcps.Origin.Parts.{split_once-append}
use sml_mcps.Auth.Resource.Marks.{Lacks}
use sml_mcps.Auth.Resource.Urls.{
  sep, split_once-IsCut, split_once_some, parse_uri_cut, pair_parts, IsPath, slash_cut,
}
use sml_mcps.Auth.Resource.{
  metadata_path, metadata_url, parse_uri, split_at_slash, origin_and_path, well_known,
}

Lacks-front : (t : Text) → Lacks b'/' (split_at_slash t).0
unfolding split_at_slash contains
Lacks-front [] = refl
Lacks-front (b ∷ bs) = elim (Bool-cases (b == b'/')) [
  | inl e ↦ rw e refl
  | inr e ↦ rw e (ground (arith, Lacks-front bs, e))
]

-- The URL, by where the separator stands in the URI.
metadata_url_parts :
    (r s rest : Text)
    → split_once (text "://") r ≡ some (s, rest)
    → metadata_url r
      ≡ s ++ (text "://" ++ ((split_at_slash rest).0 ++ (well_known ++ (split_at_slash rest).1)))
unfolding metadata_url origin_and_path
metadata_url_parts r s rest e =
    let (front, back) = split_at_slash rest in
    rw e (
      append_assoc s (text "://" ++ front) (well_known ++ back)
      ∙ ap (λ (t : Text). s ++ t) (append_assoc (text "://") front (well_known ++ back)))

metadata_path_parts :
    (r s rest : Text)
    → split_once (text "://") r ≡ some (s, rest)
    → metadata_path r ≡ well_known ++ (split_at_slash rest).1
unfolding metadata_path origin_and_path
metadata_path_parts r s rest e = rw e refl

well_known-IsPath : (t : Text) → IsPath (well_known ++ t)
unfolding text
well_known-IsPath t = refl

cut_path :
    (r scheme authority path s rest : Text)
    → split_once (text "://") r ≡ some (s, rest)
    → Lacks b':' scheme
    → Lacks b'/' authority
    → IsPath path
    → metadata_url r ≡ scheme ++ (text "://" ++ (authority ++ path))
    → path ≡ metadata_path r
unfolding text
cut_path r scheme authority path s rest e hs ha hp url =
    let front : Text = (split_at_slash rest).0 in
    let back : Text = (split_at_slash rest).1 in
    let mine = (split_once-IsCut r s rest e).1 (front ++ (well_known ++ back)) in
    let theirs = split_once-append b':' (b'/' ∷ b'/' ∷ []) scheme (authority ++ path) hs in
    let same : ◌≡◌ {A = Option (Text × Text)} (some (s, front ++ (well_known ++ back)))
        (some (scheme, authority ++ path)) =
      sym mine ∙ (ap (split_once sep) (sym (metadata_url_parts r s rest e) ∙ url) ∙ theirs) in
    let tails = (pair_parts s (front ++ (well_known ++ back)) scheme (authority ++ path) same).1 in
    sym (
      slash_cut front authority (well_known ++ back) path (Lacks-front rest) ha
        (well_known-IsPath back) hp tails)
    ∙ sym (metadata_path_parts r s rest e)

-- Whoever takes the URL of a canonical URI's metadata apart finds the path of the metadata.
pub metadata_url-path :
    (uri r scheme authority path : Text)
    → parse_uri uri ≡ ok r
    → Lacks b':' scheme
    → Lacks b'/' authority
    → IsPath path
    → metadata_url r ≡ scheme ++ (text "://" ++ (authority ++ path))
    → path ≡ metadata_path r
unfolding text
metadata_url-path uri r scheme authority path p hs ha hp url =
    let (a, b, parts) = parse_uri_cut uri r p in
    elim (Option-cases (split_once (text "://") r)) [
      | inr ((s, rest), e) ↦ cut_path r scheme authority path s rest e hs ha hp url
      | inl e ↦ absurd (
          no_cut (
            sym (split_once_some a b)
            ∙ (ap (λ (t : Text). is_some (split_once sep t)) (sym parts) ∙ ap is_some e)))
    ]
  where
    no_cut : true ≡ false → ⊥
    no_cut e = cc
