-- ===== src/Auth/Sound.antt =====
-- src/auth/jwt.rs: what a token that passed the validation is.
use sml_mcps.Prelude.{
  ◌≡◌, refl, Bool, true, false, Option, none, some, arith, ◌&&◌, not, if◌then◌else◌, subst,
}
use sml_mcps.Prelude.Text.{Text}
use sml_mcps.Http1.{Outcome, ok, err}
use sml_mcps.Http.Sessions.Owners.{IsHalf}
use sml_mcps.Auth.{
  Claims, JwtError, malformed_claim, invalid_audience, JwtValidator, validate, checked, separated,
  named_by, user_id, tenant_id, or_sub, binds_audience,
}

abbrev pub IsUsable : JwtValidator → Claims → Type 0
IsUsable v c =
    IsHalf (user_id c)
    × IsHalf (tenant_id c)
    × ((binds_audience v ≡ true) → named_by v.audiences c.aud ≡ true)

IsHalf-or_sub :
    (sub : Text) (t : Option Text) → IsHalf sub → separated t ≡ false → IsHalf (or_sub sub t)
IsHalf-or_sub sub none h s = h
IsHalf-or_sub sub (some t) h s = s

checked_guards :
    (separator nil named : Bool) (c d : Claims)
    → (if separator
        then Outcome.err malformed_claim
        else if not nil && not named
        then Outcome.err invalid_audience
        else ok c)
      ≡ ok d
    → (c ≡ d) × (separator ≡ false) × ((not nil ≡ true) → named ≡ true)
checked_guards true nil named c d e = cc
checked_guards false true named c d e = (cc, refl, λ h. cc)
checked_guards false false true c d e = (cc, refl, λ h. refl)
checked_guards false false false c d e = cc

checked-IsUsable :
    (v : JwtValidator) (o : Outcome JwtError Claims) (c : Claims)
    → checked v o ≡ ok c
    → (o ≡ ok c) × IsUsable v c
unfolding user_id tenant_id binds_audience
checked-IsUsable v (err e) c h = cc
checked-IsUsable v (ok d) c h =
    let (same, clean, named) = checked_guards _ _ _ d c h in
    subst (λ (e : Claims). (◌≡◌ {A = Outcome JwtError Claims} (ok d) (ok e)) × IsUsable v e) same
      (
        refl,
        (
          ground (arith, clean),
          IsHalf-or_sub d.sub d.tenant (ground (arith, clean)) (ground (arith, clean)),
          named,
        ),
      )

-- A token that is accepted was decoded to the claims that it is accepted with. Its user and its
-- tenant are without the separator of identities, and where the validator is bound to audiences,
-- its `aud` names one of them.
pub validate-IsUsable :
    (decode : Text → Outcome JwtError Claims) (v : JwtValidator) (token : Text) (c : Claims)
    → validate decode v token ≡ ok c
    → (decode token ≡ ok c) × IsUsable v c
unfolding validate
validate-IsUsable decode v token c h = checked-IsUsable v (decode token) c h
