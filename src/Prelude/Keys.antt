-- ===== src/Prelude/Keys.antt =====
-- Association lists whose keys are distinct, which `insert`, `remove` and a filter keep so.
use mathlib.Core.Path.{◌≡◌, refl}
use mathlib.Core.Bool.{Bool}
use mathlib.Core.Logic.{◌⊎◌, inl, inr}
use mathlib.Core.Option.{Option, none, some}
use mathlib.Core.List.{[], ◌∷◌}
use native.Mathlib.Omega.{arith}
use sml_mcps.Prelude.Tests.{if◌then◌else◌, Bool-cases}
use sml_mcps.Prelude.Lists.{filter}
use sml_mcps.Prelude.Eq.{Eq, eqb, eqb_refl}
use sml_mcps.Prelude.Assoc.{Assoc, lookup, insert, remove, lookup-remove}

module _ {K V : Type 0} ⦃e : Eq K⦄ where
  abbrev pub IsDistinct : Assoc K V → Type 0
  IsDistinct [] = Unit
  IsDistinct ((k, v) ∷ m) = (lookup k m ≡ none) × IsDistinct m

  abbrev pub kept : (K × V → Bool) → K → Option V → Option V
  kept p k none = none
  kept p k (some v) = if p (k, v) then some v else none

  pub lookup-filter :
      (p : K × V → Bool) (k : K) (m : Assoc K V)
      → IsDistinct m
      → lookup k (filter p m) ≡ kept p k (lookup k m)
  unfolding lookup
  lookup-filter p k [] u = refl
  lookup-filter p k ((j, v) ∷ m) u =
      ground (arith, lookup-filter p k m u.1, lookup-filter p j m u.1, e.beq_iff j k, u.0)

  pub IsDistinct-remove : (k : K) (m : Assoc K V) → IsDistinct m → IsDistinct (remove k m)
  unfolding remove
  IsDistinct-remove k [] u = tt
  IsDistinct-remove k ((j, v) ∷ m) u = elim (Bool-cases (eqb j k)) [
    | inl same ↦ rw same (IsDistinct-remove k m u.1)
    | inr other ↦ rw other (ground (arith, lookup-remove k j m), IsDistinct-remove k m u.1)
  ]

  pub IsDistinct-insert : (k : K) (v : V) (m : Assoc K V) → IsDistinct m → IsDistinct (insert k v m)
  unfolding insert
  IsDistinct-insert k v m u =
      (ground (arith, lookup-remove k k m, eqb_refl k), IsDistinct-remove k m u)

  pub IsDistinct-filter :
      (p : K × V → Bool) (m : Assoc K V) → IsDistinct m → IsDistinct (filter p m)
  IsDistinct-filter p [] u = tt
  IsDistinct-filter p ((j, v) ∷ m) u = elim (Bool-cases (p (j, v))) [
    | inl keep ↦ rw keep (ground (arith, lookup-filter p j m u.1), IsDistinct-filter p m u.1)
    | inr drop ↦ rw drop (IsDistinct-filter p m u.1)
  ]

  -- What a filter leaves of an entry: the entry, or nothing.
  pub lookup-filter-or :
      (p : K × V → Bool) (k : K) (m : Assoc K V)
      → IsDistinct m
      → (lookup k (filter p m) ≡ none) ⊎ (lookup k (filter p m) ≡ lookup k m)
  lookup-filter-or p k m u = ground (arith, lookup-filter p k m u)
