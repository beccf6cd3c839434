-- ===== src/Http/Sessions/Evicted.antt =====
-- src/transport/http.rs: which entry `evict_oldest` takes out of a table that is too full.
use sml_mcps.Prelude.{
  ℕ, zero, suc, ◌≤◌, ◌<◌, ◌≡◌, refl, sym, ◌∙◌, ap, Bool, true, false, Option, none, some, [], ◌∷◌,
  ltb, length, All, Bool-cases, Option-cases, inl, inr, ◌⊎◌, arith, subst, if◌then◌else◌,
}
use sml_mcps.Prelude.Text.{Text, text_eq, text_eq_iff, text_has_eq}
use sml_mcps.Prelude.Assoc.{Assoc, lookup, remove, lookup-remove, All-remove, length-remove-le}
use sml_mcps.Prelude.Keys.{IsDistinct, IsDistinct-remove}
use sml_mcps.Http.Sessions.Bounds.{older_of-or}
use sml_mcps.Http.Sessions.{SessionEntry, used_before, older_of, oldest, evict_loop, max_sessions}

-- No entry was used before this time.
abbrev pub IsNoYounger : ℕ → Assoc Text SessionEntry → Type 0
IsNoYounger time m = All (λ (p : Text × SessionEntry). time ≤ p.1.last_used) m

used_before-le :
    (q p : Text × SessionEntry) → used_before q p ≡ true → q.1.last_used ≤ p.1.last_used
unfolding used_before
used_before-le q p h = ground (arith, h)

not_used_before-le :
    (q p : Text × SessionEntry) → used_before q p ≡ false → p.1.last_used ≤ q.1.last_used
unfolding used_before
not_used_before-le q p h = ground (arith, h)

IsNoYounger-le : (a b : ℕ) (m : Assoc Text SessionEntry) → a ≤ b → IsNoYounger b m → IsNoYounger a m
IsNoYounger-le a b [] h all = tt
IsNoYounger-le a b (p ∷ m) h all = (omega (arith, all.0), IsNoYounger-le a b m h all.1)

either_way :
    (x q : Text × SessionEntry) (m : Assoc Text SessionEntry)
    → IsNoYounger q.1.last_used m
    → (b : Bool) → used_before q x ≡ b
    → IsNoYounger (if b then q else x).1.last_used (x ∷ m)
either_way x q m all true h = (used_before-le q x h, all)
either_way x q m all false h =
    (omega arith, IsNoYounger-le x.1.last_used q.1.last_used m (not_used_before-le q x h) all)

older_of-IsNoYounger :
    (x : Text × SessionEntry) (m : Assoc Text SessionEntry) (o : Option (Text × SessionEntry))
    → oldest m ≡ o
    → ((q : Text × SessionEntry) → o ≡ some q → IsNoYounger q.1.last_used m)
    → IsNoYounger (older_of x o).1.last_used (x ∷ m)
unfolding oldest
older_of-IsNoYounger x [] none e all = (omega arith, tt)
older_of-IsNoYounger x (p ∷ m) none e all = cc
older_of-IsNoYounger x m (some q) e all = either_way x q m (all q refl) (used_before q x) refl

oldest-IsNoYounger :
    (m : Assoc Text SessionEntry) (p : Text × SessionEntry)
    → oldest m ≡ some p
    → IsNoYounger p.1.last_used m
unfolding oldest
oldest-IsNoYounger [] p e = tt
oldest-IsNoYounger (x ∷ m) p e =
    let same : older_of x (oldest m) ≡ p = cc in
    subst (λ (q : Text × SessionEntry). IsNoYounger q.1.last_used (x ∷ m)) same
      (older_of-IsNoYounger x m (oldest m) refl (λ q f. oldest-IsNoYounger m q f))

-- The victim is the entry of its key.
lookup-victim :
    (m : Assoc Text SessionEntry) (p : Text × SessionEntry)
    → IsDistinct m
    → oldest m ≡ some p
    → lookup p.0 m ≡ some p.1
unfolding oldest lookup
lookup-victim [] p u e = cc
lookup-victim ((j, v) ∷ m) p u e =
    let same : older_of (j, v) (oldest m) ≡ p = cc in
    elim (older_of-or (j, v) (oldest m)) [
      | inl f ↦
          subst (λ (q : Text × SessionEntry). lookup q.0 ((j, v) ∷ m) ≡ some q.1) (sym f ∙ same)
            (rw ((text_eq_iff j j).1 refl) refl)
      | inr f ↦
          let found = lookup-victim m p u.1 (f ∙ ap (λ (q : Text × SessionEntry). some q) same) in
          elim (Bool-cases (text_eq j p.0)) [
            | inr other ↦ rw other found
            | inl equal ↦
                let key : j ≡ p.0 = (text_eq_iff j p.0).0 equal in
                let gone : lookup p.0 m ≡ none = subst (λ (k : Text). lookup k m ≡ none) key u.0 in
                absurd (let clash : none ≡ some p.1 = sym gone ∙ found in cc)
          ]
    ]

All-evict_loop :
    (P : Text × SessionEntry → Type 0) (fuel : ℕ) (m : Assoc Text SessionEntry)
    → All P m
    → All P (evict_loop fuel m)
unfolding evict_loop
All-evict_loop P zero m h = h
All-evict_loop P (suc fuel) m h = elim (Bool-cases (ltb max_sessions (length m))) [
  | inr under ↦ rw under h
  | inl over ↦ elim (Option-cases (oldest m)) [
    | inl e ↦ rw (over, e) h
    | inr (p, e) ↦ rw (over, e) (All-evict_loop P fuel (remove p.0 m) (All-remove P p.0 m h))
  ]
]

pub evict_loop-IsDistinct :
    (fuel : ℕ) (m : Assoc Text SessionEntry) → IsDistinct m → IsDistinct (evict_loop fuel m)
unfolding evict_loop
evict_loop-IsDistinct zero m u = u
evict_loop-IsDistinct (suc fuel) m u = elim (Bool-cases (ltb max_sessions (length m))) [
  | inr under ↦ rw under u
  | inl over ↦ elim (Option-cases (oldest m)) [
    | inl e ↦ rw (over, e) u
    | inr (p, e) ↦
        rw (over, e) (evict_loop-IsDistinct fuel (remove p.0 m) (IsDistinct-remove p.0 m u))
  ]
]

pub lookup-evict_loop-none :
    (fuel : ℕ) (k : Text) (m : Assoc Text SessionEntry)
    → lookup k m ≡ none
    → lookup k (evict_loop fuel m) ≡ none
unfolding evict_loop
lookup-evict_loop-none zero k m h = h
lookup-evict_loop-none (suc fuel) k m h = elim (Bool-cases (ltb max_sessions (length m))) [
  | inr under ↦ rw under h
  | inl over ↦ elim (Option-cases (oldest m)) [
    | inl e ↦ rw (over, e) h
    | inr (p, e) ↦
        rw (over, e)
          (lookup-evict_loop-none fuel k (remove p.0 m) (ground (arith, lookup-remove p.0 k m, h)))
  ]
]

-- The table was too full, and no entry that is left was used before this one.
abbrev pub IsEvicted : SessionEntry → Assoc Text SessionEntry → Assoc Text SessionEntry → Type 0
IsEvicted e m left = (max_sessions < length m) × IsNoYounger e.last_used left

victim_entry :
    (k : Text) (e : SessionEntry) (m : Assoc Text SessionEntry) (p : Text × SessionEntry)
    → IsDistinct m
    → lookup k m ≡ some e
    → oldest m ≡ some p
    → text_eq p.0 k ≡ true
    → p.1 ≡ e
victim_entry k e m p u h found same =
    let key : p.0 ≡ k = (text_eq_iff p.0 k).0 same in
    let both : some p.1 ≡ some e =
      sym (lookup-victim m p u found) ∙ (ap (λ (j : Text). lookup j m) key ∙ h) in
    cc

IsEvicted-later :
    (e : SessionEntry) (k : Text) (m rest left : Assoc Text SessionEntry)
    → length rest ≤ length m
    → (lookup k left ≡ some e) ⊎ ((lookup k left ≡ none) × IsEvicted e rest left)
    → (lookup k left ≡ some e) ⊎ ((lookup k left ≡ none) × IsEvicted e m left)
IsEvicted-later e k m rest left h (inl stays) = inl stays
IsEvicted-later e k m rest left h (inr (gone, (over, old))) = inr (gone, (omega arith, old))

-- An entry stays, or is evicted.
pub lookup-evict_loop :
    (fuel : ℕ) (k : Text) (e : SessionEntry) (m : Assoc Text SessionEntry)
    → IsDistinct m
    → lookup k m ≡ some e
    → (lookup k (evict_loop fuel m) ≡ some e)
      ⊎ ((lookup k (evict_loop fuel m) ≡ none) × IsEvicted e m (evict_loop fuel m))
unfolding evict_loop
lookup-evict_loop zero k e m u h = inl h
lookup-evict_loop (suc fuel) k e m u h = elim (Bool-cases (ltb max_sessions (length m))) [
  | inr under ↦ rw under (inl h)
  | inl over ↦ elim (Option-cases (oldest m)) [
    | inl gone ↦ rw (over, gone) (inl h)
    | inr (p, found) ↦
        let rest : Assoc Text SessionEntry = remove p.0 m in
        elim (Bool-cases (text_eq p.0 k)) [
          | inl same ↦
              let entry = victim_entry k e m p u h found same in
              rw (over, found)
                (inr (
                  lookup-evict_loop-none fuel k rest (lookup-remove p.0 k m ∙ rw same refl),
                  (
                    ground (arith, over),
                    All-evict_loop _ fuel rest (
                        All-remove _ p.0 m (
                          subst (λ (q : SessionEntry). IsNoYounger q.last_used m) entry
                            (oldest-IsNoYounger m p found))),
                  ),
                ))
          | inr other ↦
              rw (over, found)
                (IsEvicted-later e k m rest (evict_loop fuel rest) (length-remove-le p.0 m) (
                  lookup-evict_loop fuel k e rest (IsDistinct-remove p.0 m u)
                    (lookup-remove p.0 k m ∙ rw other h)))
        ]
  ]
]
