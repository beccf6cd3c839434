-- ===== src/Http/Sessions/Bounds.antt =====
-- src/transport/http.rs: the table of sessions stays within its ceiling.
use sml_mcps.Prelude.{
  ℕ, zero, suc, ◌+◌, ◌≤◌, ◌<◌, ◌≡◌, refl, sym, ap, Bool, true, Option, none, some, List, [], ◌∷◌,
  arith, ltb, length, length-filter-le, Bool-cases, Option-cases, inl, inr, is_some, ◌⊎◌, ◌≢◌, ◌∙◌,
}
use sml_mcps.Prelude.Text.{Text, text_eq_iff, text_has_eq}
use sml_mcps.Prelude.Assoc.{Assoc, lookup, insert, remove, length-remove-le, length-remove_found}
use sml_mcps.Http.Sessions.Calls.{Call, check_out, check_back, end_session, step, run_calls}
use sml_mcps.Http.Sessions.{
  SessionEntry, Sessions, max_sessions, sweep, key, found, checkout, used_before, older_of, oldest,
  evict_loop, evict_oldest, worth_keeping, check_in, terminate,
}

pub older_of-or :
    (p : Text × SessionEntry) (o : Option (Text × SessionEntry))
    → (older_of p o ≡ p) ⊎ (o ≡ some (older_of p o))
older_of-or p none = inl refl
older_of-or p (some q) = elim (Bool-cases (used_before q p)) [
  | inl e ↦ inr (rw e refl)
  | inr e ↦ inl (rw e refl)
]

lookup-tail :
    (k j : Text) (v : SessionEntry) (m : Assoc Text SessionEntry)
    → is_some (lookup k m) ≡ true
    → is_some (lookup k ((j, v) ∷ m)) ≡ true
unfolding lookup
lookup-tail k j v m h = ground (arith, h)

lookup-head :
    (k j : Text) (v : SessionEntry) (m : Assoc Text SessionEntry)
    → j ≡ k
    → is_some (lookup k ((j, v) ∷ m)) ≡ true
unfolding lookup
lookup-head k j v m h = rw ((text_eq_iff j k).1 h) refl

-- The victim is an entry of the table.
lookup-oldest :
    (m : Assoc Text SessionEntry) (p : Text × SessionEntry)
    → oldest m ≡ some p
    → is_some (lookup p.0 m) ≡ true
unfolding oldest
lookup-oldest [] p h = cc
lookup-oldest ((j, v) ∷ m) p h =
    let same : older_of (j, v) (oldest m) ≡ p = cc in
    elim (older_of-or (j, v) (oldest m)) [
      | inl e ↦ lookup-head p.0 j v m (ap (λ (q : Text × SessionEntry). q.0) (sym e ∙ same))
      | inr e ↦
          lookup-tail p.0 j v m
            (lookup-oldest m p (e ∙ ap (λ (q : Text × SessionEntry). some q) same))
    ]

oldest-some : (m : Assoc Text SessionEntry) → 0 < length m → oldest m ≢ none
unfolding oldest
oldest-some [] h = omega arith
oldest-some (p ∷ m) h = λ e. cc

evict_loop-le :
    (fuel : ℕ) (m : Assoc Text SessionEntry)
    → length m ≤ fuel + max_sessions
    → length (evict_loop fuel m) ≤ max_sessions
unfolding evict_loop
evict_loop-le zero m h = omega arith
evict_loop-le (suc fuel) m h = elim (Bool-cases (ltb max_sessions (length m))) [
  | inr under ↦ rw under (ground (arith, under))
  | inl over ↦ elim (Option-cases (oldest m)) [
    | inl e ↦ absurd (oldest-some m (ground (arith, over)) e)
    | inr (p, e) ↦
        rw (over, e)
          (evict_loop-le fuel (remove p.0 m)
            (omega (arith, length-remove_found p.0 m (lookup-oldest m p e))))
  ]
]

-- The fuel, the number of entries, is enough.
pub evict_oldest-le : (m : Assoc Text SessionEntry) → length (evict_oldest m) ≤ max_sessions
unfolding evict_oldest
evict_oldest-le m = evict_loop-le (length m) m (omega arith)

abbrev pub IsWithin : Sessions → Type 0
IsWithin s = length s.live ≤ max_sessions

found-IsWithin :
    (id : Text) (now : ℕ) (owner : Option Text) (s : Sessions) (o : Option SessionEntry)
    → lookup (key owner id) s.live ≡ o
    → IsWithin s
    → IsWithin (found id now owner s o).1
unfolding insert
found-IsWithin id now owner s none e h = h
found-IsWithin id now owner s (some entry) e h =
    let there : is_some (lookup (key owner id) s.live) ≡ true = rw e refl in
    omega (arith, length-remove_found (key owner id) s.live there)

sweep-le : (now : ℕ) (m : Assoc Text SessionEntry) → length (sweep now m) ≤ length m
unfolding sweep
sweep-le now m = length-filter-le _ m

checkout-IsWithin :
    (now : ℕ) (fresh : Text) (owner id : Option Text) (s : Sessions)
    → IsWithin s
    → IsWithin (checkout now fresh owner id s).1
unfolding checkout
checkout-IsWithin now fresh owner none s h = omega (arith, sweep-le now s.live)
checkout-IsWithin now fresh owner (some id) s h =
    found-IsWithin id now owner (record s { live = sweep now s.live })
      (lookup (key owner id) (sweep now s.live)) refl (omega (arith, sweep-le now s.live))

check_in-IsWithin :
    (is_empty : ℕ → Option Bool) (now : ℕ) (owner : Option Text) (id : Text) (cell : ℕ)
    (s : Sessions)
    → IsWithin s
    → IsWithin (check_in is_empty now owner id cell s).1
unfolding check_in
check_in-IsWithin is_empty now owner id cell s h =
    elim (Bool-cases (worth_keeping is_empty (s.cells cell))) [
      | inl keep ↦
          rw keep (
            evict_oldest-le
              (insert (key owner id) (record { cell = cell; last_used = now }) s.live))
      | inr drop ↦ rw drop (omega (arith, length-remove-le (key owner id) s.live))
    ]

step-IsWithin :
    (is_empty : ℕ → Option Bool) (c : Call) (s : Sessions)
    → IsWithin s
    → IsWithin (step is_empty c s)
unfolding step terminate
step-IsWithin is_empty (check_out now fresh owner id) s h = checkout-IsWithin now fresh owner id s h
step-IsWithin is_empty (check_back now owner id cell) s h =
    check_in-IsWithin is_empty now owner id cell s h
step-IsWithin is_empty (end_session owner id) s h =
    omega (arith, length-remove-le (key owner id) s.live)

-- Whatever calls are made of a table that holds at most `max_sessions` entries, it holds at most
-- that many afterwards.
pub run_calls-IsWithin :
    (is_empty : ℕ → Option Bool) (cs : List Call) (s : Sessions)
    → IsWithin s
    → IsWithin (run_calls is_empty cs s)
unfolding run_calls
run_calls-IsWithin is_empty [] s h = h
run_calls-IsWithin is_empty (c ∷ cs) s h =
    run_calls-IsWithin is_empty cs (step is_empty c s) (step-IsWithin is_empty c s h)
