-- ===== src/Tasks/Oldest.antt =====
-- The record that `make_room` of src/tasks.rs evicts is the oldest of the finished ones.
use sml_mcps.Prelude.{
  ◌≡◌, refl, sym, Bool, true, false, ◌⊎◌, inl, inr, Bool-cases, Option-cases, none, some, [], ◌∷◌,
  arith, All, All-mono, subst,
}
use sml_mcps.Prelude.Text.{Text, text_lt_connex, text_lt_asym}
use sml_mcps.Prelude.Text.{text_has_eq}
use sml_mcps.Prelude.Assoc.{lookup}
use sml_mcps.Prelude.Keys.{IsDistinct}
use sml_mcps.Tasks.Room.{oldest_terminal-none, oldest_terminal_found}
use sml_mcps.Tasks.{TaskRecord, terminal}
use sml_mcps.Tasks.Records.{Records, older, oldest_of, oldest_terminal}

true_not_false : {b : Bool} → b ≡ false → b ≡ true → ⊥
true_not_false e f = cc

module _ {V : Type 0} where
  -- `older` is a strict order, and its complement is transitive.
  older_asym : (p q : Text × TaskRecord V) → older p q ≡ true → older q p ≡ false
  unfolding older
  older_asym (i, r) (k, s) h = ground (arith, text_lt_asym i k)

  older_connex :
      (p q r : Text × TaskRecord V) → older p q ≡ false → older q r ≡ false → older p r ≡ false
  unfolding older
  older_connex (i, a) (k, b) (l, c) h g = ground (arith, text_lt_connex i k l)

  -- No finished record is older than this one.
  abbrev pub IsOldest : Text × TaskRecord V → Records V → Type 0
  IsOldest p = All (λ (q : Text × TaskRecord V). terminal q.1 ≡ true → older q p ≡ false)

  older_irrefl : (p : Text × TaskRecord V) → older p p ≡ false
  older_irrefl p = elim (Bool-cases (older p p)) [
    | inl before ↦ older_asym p p before
    | inr same ↦ same
  ]

  IsOldest-head :
      (p : Text × TaskRecord V) (m : Records V)
      → All (λ (q : Text × TaskRecord V). terminal q.1 ≡ true → older q p ≡ false) m
      → IsOldest p (p ∷ m)
  IsOldest-head p m h = ((λ _. older_irrefl p), h)

  vacuous :
      (p : Text × TaskRecord V) (m : Records V)
      → All (λ (q : Text × TaskRecord V). terminal q.1 ≡ false) m
      → IsOldest p m
  vacuous p m h = All-mono (λ q none_here t. absurd cc) m h

  some_injective : {p q : Text × TaskRecord V} → some p ≡ some q → p ≡ q
  some_injective e = cc

  none_not_some : {p : Text × TaskRecord V} → none ≡ some p → ⊥
  none_not_some e = cc

  -- What the step of the search picks, from a head that is finished and the oldest of the rest.
  oldest_of-IsOldest :
      (p q : Text × TaskRecord V) (m : Records V)
      → IsOldest q m
      → IsOldest (oldest_of p (some q)) (p ∷ m)
  oldest_of-IsOldest p q m h = elim (Bool-cases (older q p)) [
    | inl rest_older ↦
        subst (λ x. IsOldest x (p ∷ m)) (sym (picks_rest rest_older))
          ((λ _. older_asym q p rest_older), h)
    | inr head_oldest ↦
        subst (λ x. IsOldest x (p ∷ m)) (sym (picks_head head_oldest))
          (IsOldest-head p m (All-mono (λ x later t. older_connex x q p (later t) head_oldest) m h))
  ]
    where
      picks_rest : older q p ≡ true → oldest_of p (some q) ≡ q
      picks_rest e = rw e refl

      picks_head : older q p ≡ false → oldest_of p (some q) ≡ p
      picks_head e = rw e refl

  least : (m : Records V) (p : Text × TaskRecord V) → oldest_terminal m ≡ some p → IsOldest p m
  unfolding oldest_terminal
  least [] p h = tt
  least ((id, r) ∷ m) p h = elim (Option-cases (oldest_terminal m)) [
    | inl e ↦ elim (Bool-cases (terminal r)) [
      | inl over ↦
          subst (λ x. IsOldest x ((id, r) ∷ m)) (some_injective (rw (e, over) at h))
            (IsOldest-head (id, r) m (vacuous (id, r) m (oldest_terminal-none m e)))
      | inr runs ↦ absurd (none_not_some (rw (e, runs) at h))
    ]
    | inr (q, e) ↦ elim (Bool-cases (terminal r)) [
      | inl over ↦
          subst (λ x. IsOldest x ((id, r) ∷ m)) (some_injective (rw (e, over) at h))
            (oldest_of-IsOldest (id, r) q m (least m q e))
      | inr runs ↦
          subst (λ x. IsOldest x ((id, r) ∷ m)) (some_injective (rw (e, runs) at h))
            ((λ t. absurd (true_not_false runs t)), least m q e)
    ]
  ]

  -- In a map with distinct ids, the record that a round of `make_room` evicts is in the map, is
  -- finished, and no finished record of the map is older, by time of creation and then by id.
  -- Where it finds none, no record is finished.
  pub oldest_terminal-IsOldest :
      (m : Records V)
      → IsDistinct m
      → ((oldest_terminal m ≡ none) × All (λ (q : Text × TaskRecord V). terminal q.1 ≡ false) m)
        ⊎ ((p : Text × TaskRecord V) × (oldest_terminal m ≡ some p)
            × (lookup p.0 m ≡ some p.1)
            × (terminal p.1 ≡ true)
            × IsOldest p m)
  oldest_terminal-IsOldest m u = elim (Option-cases (oldest_terminal m)) [
    | inl e ↦ inl (e, oldest_terminal-none m e)
    | inr (p, e) ↦
        let found = oldest_terminal_found m p u e in inr (p, e, found.0, found.1, least m p e)
  ]
