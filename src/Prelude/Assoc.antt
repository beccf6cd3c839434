-- ===== src/Prelude/Assoc.antt =====
-- A `HashMap` as an association list with at most one entry for each key. Its order shows
-- nowhere: what the code reads out of a map as a whole, it sorts or counts.
use Prim.Native.Nat.{◌≤◌, ◌<◌}
use mathlib.Core.Path.{◌≡◌}
use mathlib.Core.Bool.{Bool, true, false}
use mathlib.Core.Logic.{inl, inr}
use mathlib.Core.Option.{Option, none, some}
use mathlib.Core.List.{List, [], ◌∷◌}
use native.Mathlib.Omega.{arith}
use sml_mcps.Prelude.Tests.{if◌then◌else◌, is_some, Bool-cases}
use sml_mcps.Prelude.Lists.{length, All}
use sml_mcps.Prelude.Eq.{Eq, eqb}

abbrev pub Assoc {ℓ κ} : Type ℓ → Type κ → Type (ℓ ⊔ κ)
Assoc K V = List (K × V)

module _ {ℓ κ} {K : Type ℓ} {V : Type κ} ⦃e : Eq K⦄ where
  unfoldable pub lookup : K → Assoc K V → Option V
  lookup k [] = none
  lookup k ((j, v) ∷ m) = if eqb j k then some v else lookup k m

  unfoldable pub remove : K → Assoc K V → Assoc K V
  remove k [] = []
  remove k ((j, v) ∷ m) = let rest = remove k m in if eqb j k then rest else (j, v) ∷ rest

  unfoldable pub insert : K → V → Assoc K V → Assoc K V
  unfolding remove
  insert k v m = (k, v) ∷ remove k m

  pub lookup-remove :
      (k j : K) (m : Assoc K V) → lookup j (remove k m) ≡ (if eqb k j then none else lookup j m)
  unfolding lookup remove
  lookup-remove k j [] = ground arith
  lookup-remove k j ((i, v) ∷ m) =
      ground (arith, lookup-remove k j m, e.beq_iff i k, e.beq_iff i j, e.beq_iff k j)

  pub lookup-insert :
      (k j : K) (v : V) (m : Assoc K V)
      → lookup j (insert k v m) ≡ (if eqb k j then some v else lookup j m)
  unfolding insert lookup
  lookup-insert k j v m = ground (arith, lookup-remove k j m)

  pub All-remove {μ} : (P : K × V → Type μ) (k : K) (m : Assoc K V) → All P m → All P (remove k m)
  unfolding remove
  All-remove P k [] h = tt
  All-remove P k ((j, v) ∷ m) h = keep (eqb j k) (All-remove P k m h.1)
    where
      keep : (b : Bool) → All P (remove k m) → All P (if b then remove k m else (j, v) ∷ remove k m)
      keep true rest = rest
      keep false rest = (h.0, rest)

  pub length-remove-le : (k : K) (m : Assoc K V) → length (remove k m) ≤ length m
  unfolding remove
  length-remove-le k [] = omega arith
  length-remove-le k ((j, v) ∷ m) = ground (arith, length-remove-le k m)

  pub length-remove_found :
      (k : K) (m : Assoc K V) → is_some (lookup k m) ≡ true → length (remove k m) < length m
  unfolding lookup remove
  length-remove_found k [] h = cc
  length-remove_found k ((j, v) ∷ m) h = elim (Bool-cases (eqb j k)) [
    | inl e ↦ ground (arith, e, length-remove-le k m)
    | inr e ↦
        let later : is_some (lookup k m) ≡ true = ground (arith, e, h) in
        ground (arith, e, length-remove_found k m later)
  ]
