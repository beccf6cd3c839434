-- ===== src/Http/Sessions/Owners.antt =====
-- src/transport/http.rs: no identity reaches the sessions of another.
use sml_mcps.Prelude.{◌≡◌, refl, sym, ◌∙◌, false, some, [], ◌∷◌, ◌++◌, arith, append_assoc}
use sml_mcps.Prelude.Text.{Text, text_has_eq}
use sml_mcps.Http1.Response.{contains}
use sml_mcps.Http.Sessions.{key, owner_of, identity_separator}

-- The validator of tokens refuses a subject or a tenant with the separator in it.
abbrev pub IsHalf : Text → Type 0
IsHalf t = contains t identity_separator ≡ false

cut_eq :
    (a b x y : Text)
    → IsHalf a
    → IsHalf b
    → a ++ identity_separator ∷ x ≡ b ++ identity_separator ∷ y
    → (a ≡ b) × (x ≡ y)
unfolding contains
cut_eq [] [] x y ha hb e = (refl, cc)
cut_eq [] (c ∷ b) x y ha hb e = let same : identity_separator ≡ c = cc in ground (arith, hb, same)
cut_eq (c ∷ a) [] x y ha hb e = let same : c ≡ identity_separator = cc in ground (arith, ha, same)
cut_eq (c ∷ a) (d ∷ b) x y ha hb e =
    let rest : a ++ identity_separator ∷ x ≡ b ++ identity_separator ∷ y = cc in
    let r = cut_eq a b x y (ground (arith, ha)) (ground (arith, hb)) rest in
    let same : c ≡ d = cc in (let tails : a ≡ b = r.0 in cc, r.1)

key-parts :
    (u t i : Text)
    → key (some (owner_of u t)) i ≡ u ++ identity_separator ∷ (t ++ identity_separator ∷ i)
unfolding key owner_of
key-parts u t i = append_assoc u (identity_separator ∷ t) (identity_separator ∷ i)

-- Two keys of authenticated identities are the same only if user, tenant and session id are:
-- whatever the client chooses for an id.
pub key-owner_of :
    (u t u' t' i i' : Text)
    → IsHalf u
    → IsHalf t
    → IsHalf u'
    → IsHalf t'
    → key (some (owner_of u t)) i ≡ key (some (owner_of u' t')) i'
    → (u ≡ u') × (t ≡ t') × (i ≡ i')
unfolding key owner_of
key-owner_of u t u' t' i i' hu ht hu' ht' e =
    let outer : u ++ identity_separator ∷ (t ++ identity_separator ∷ i)
        ≡ u' ++ identity_separator ∷ (t' ++ identity_separator ∷ i') =
      sym (key-parts u t i) ∙ (e ∙ key-parts u' t' i') in
    let users = cut_eq u u' _ _ hu hu' outer in
    let rest = cut_eq t t' i i' ht ht' users.1 in (users.0, rest.0, rest.1)
