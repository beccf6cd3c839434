-- ===== src/Http/Sessions/Isolation.antt =====
-- src/transport/http.rs: what the calls of others leave of an identity's sessions.
use sml_mcps.Prelude.{
  ℕ, ◌≡◌, refl, sym, ◌∙◌, ap, Bool, Option, none, some, List, [], ◌∷◌, ◌++◌, All, inl, inr, ◌⊎◌,
  subst,
}
use sml_mcps.Prelude.Text.{Text, text_has_eq}
use sml_mcps.Prelude.Assoc.{lookup}
use sml_mcps.Http.Sessions.Calls.{Call, caller, step, run_calls}
use sml_mcps.Http.Sessions.Owners.{IsHalf, key-owner_of}
use sml_mcps.Http.Sessions.{SessionEntry, Sessions, key, owner_of}
use sml_mcps.Http.Sessions.Leaves.{HoldsOnce, Misses, Drops, Leaves, step-Leaves}

module _ (is_empty : ℕ → Option Bool) where
  -- One of the calls dropped the entry, which was still as it had been, for a reason it may have.
  abbrev pub WasDropped : Text → SessionEntry → List Call → Sessions → Type 0
  WasDropped k e cs s =
      (before : List Call) × (c : Call) × (after : List Call) × (cs ≡ before ++ c ∷ after)
      × (lookup k (run_calls is_empty before s).live ≡ some e)
      × Drops is_empty e c (run_calls is_empty before s)

  -- What calls leave of the entry of a key, by what it was.
  abbrev pub IsKept : Text → List Call → Sessions → Option SessionEntry → Type 0
  IsKept k cs s none = lookup k (run_calls is_empty cs s).live ≡ none
  IsKept k cs s (some e) =
      (lookup k (run_calls is_empty cs s).live ≡ some e)
      ⊎ ((lookup k (run_calls is_empty cs s).live ≡ none) × WasDropped k e cs s)

  IsKept-behind :
      (k : Text) (c : Call) (cs : List Call) (s : Sessions) (o : Option SessionEntry)
      → lookup k s.live ≡ o
      → Leaves is_empty k c s o
      → ((o' : Option SessionEntry)
          → lookup k (step is_empty c s).live ≡ o'
          → IsKept k cs (step is_empty c s) o')
      → IsKept k (c ∷ cs) s o
  unfolding run_calls
  IsKept-behind k c cs s none h l later = later none l
  IsKept-behind k c cs s (some e) h (inr (gone, why)) later =
      inr (later none gone, ([], c, cs, refl, h, why))
  IsKept-behind k c cs s (some e) h (inl stays) later = elim (later (some e) stays) [
    | inl kept_on ↦ inl kept_on
    | inr (gone, (before, d, after, cut, here, why)) ↦
        inr (gone, (c ∷ before, d, after, ap (λ (ds : List Call). c ∷ ds) cut, here, why))
  ]

  run_calls_by_others :
      (k : Text) (cs : List Call) (s : Sessions) (o : Option SessionEntry)
      → All (Misses k) cs
      → HoldsOnce s
      → lookup k s.live ≡ o
      → IsKept k cs s o
  unfolding run_calls
  run_calls_by_others k [] s none m u h = h
  run_calls_by_others k [] s (some e) m u h = inl h
  run_calls_by_others k (c ∷ cs) s o m u h =
      let (once, left) = step-Leaves is_empty k c s m.0 u in
      IsKept-behind k c cs s o h
        (subst (λ (x : Option SessionEntry). Leaves is_empty k c s x) h left)
        (λ o' h'. run_calls_by_others k cs (step is_empty c s) o' m.1 once h')

-- The call is made for a validated identity that is not this user of this tenant.
abbrev IsByAnother : Text → Text → Call → Type 0
IsByAnother u t c =
    (u' : Text) × (t' : Text) × (caller c ≡ some (owner_of u' t'))
    × IsHalf u'
    × IsHalf t'
    × ((u ≡ u') × (t ≡ t') → ⊥)

IsByAnother-Misses :
    (u t i : Text) (c : Call)
    → IsHalf u
    → IsHalf t
    → IsByAnother u t c
    → Misses (key (some (owner_of u t)) i) c
IsByAnother-Misses u t i c hu ht (u', t', by, hu', ht', ne) id e =
    let same : key (some (owner_of u t)) i ≡ key (some (owner_of u' t')) id =
      sym e ∙ ap (λ (o : Option Text). key o id) by in
    let r = key-owner_of u t u' t' i id hu ht hu' ht' same in ne (r.0, r.1)

All-IsByAnother :
    (u t i : Text) (cs : List Call)
    → IsHalf u
    → IsHalf t
    → All (IsByAnother u t) cs
    → All (Misses (key (some (owner_of u t)) i)) cs
All-IsByAnother u t i [] hu ht h = tt
All-IsByAnother u t i (c ∷ cs) hu ht h =
    (IsByAnother-Misses u t i c hu ht h.0, All-IsByAnother u t i cs hu ht h.1)

-- Let a user and a tenant be without the separator, and the keys of a table be distinct. After any
-- calls that other validated identities make, whatever session ids they name, a session id of that
-- user and tenant that had no entry has none, and an entry is what it was, or one of the calls
-- dropped it: a `checkout` found it idle for the timeout or longer, or a `check_in` met a full
-- table, of which no entry that it left was used before this one. To end a session of others, or to
-- replace it, is none of the ways.
pub run_calls-IsKept :
    (is_empty : ℕ → Option Bool) (u t i : Text) (cs : List Call) (s : Sessions)
    → IsHalf u
    → IsHalf t
    → All (IsByAnother u t) cs
    → HoldsOnce s
    → IsKept is_empty
        (key (some (owner_of u t)) i)
        cs
        s
        (lookup (key (some (owner_of u t)) i) s.live)
run_calls-IsKept is_empty u t i cs s hu ht h once =
    run_calls_by_others is_empty (key (some (owner_of u t)) i) cs s
      (lookup (key (some (owner_of u t)) i) s.live) (All-IsByAnother u t i cs hu ht h) once refl
