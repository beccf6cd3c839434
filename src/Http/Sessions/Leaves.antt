-- ===== src/Http/Sessions/Leaves.antt =====
-- src/transport/http.rs: what one call that misses a key leaves of the entry of that key.
use sml_mcps.Prelude.{
  ℕ, suc, ◌-◌, ◌≤◌, ◌≡◌, ◌≢◌, refl, sym, ◌∙◌, ap, Bool, true, false, Option, none, some, ltb,
  length, Bool-cases, inl, inr, ◌⊎◌, arith, subst,
}
use sml_mcps.Prelude.Text.{Text, text_eq, text_eq_iff, text_has_eq}
use sml_mcps.Prelude.Assoc.{
  Assoc, lookup, insert, remove, lookup-remove, lookup-insert, length-remove-le,
}
use sml_mcps.Prelude.Keys.{
  IsDistinct, IsDistinct-remove, IsDistinct-insert, IsDistinct-filter, lookup-filter, kept,
}
use sml_mcps.Http.Sessions.Calls.{Call, check_out, check_back, end_session, caller, step}
use sml_mcps.Http.Sessions.Evicted.{
  IsNoYounger, evict_loop-IsDistinct, lookup-evict_loop-none, lookup-evict_loop,
}
use sml_mcps.Http.Sessions.{
  SessionEntry, Sessions, sweep, key, found, checkout, evict_loop, evict_oldest, worth_keeping,
  check_in, terminate, max_sessions, session_idle_timeout,
}

abbrev pub HoldsOnce : Sessions → Type 0
HoldsOnce s = IsDistinct s.live

insert-kept :
    (j k : Text) (v : SessionEntry) (m : Assoc Text SessionEntry)
    → j ≢ k
    → lookup k (insert j v m) ≡ lookup k m
insert-kept j k v m ne = elim (Bool-cases (text_eq j k)) [
  | inl same ↦ absurd (ne ((text_eq_iff j k).0 same))
  | inr other ↦ lookup-insert j k v m ∙ rw other refl
]

remove-kept :
    (j k : Text) (m : Assoc Text SessionEntry) → j ≢ k → lookup k (remove j m) ≡ lookup k m
remove-kept j k m ne = elim (Bool-cases (text_eq j k)) [
  | inl same ↦ absurd (ne ((text_eq_iff j k).0 same))
  | inr other ↦ lookup-remove j k m ∙ rw other refl
]

-- The call is made for a key that is not `k`, whatever id it names.
abbrev pub Misses : Text → Call → Type 0
Misses k c = (id : Text) → key (caller c) id ≢ k

module _ (is_empty : ℕ → Option Bool) where
  -- Why a call may drop an entry: at a `checkout` its idle time was up, or a `check_in` met a full
  -- table, in which no entry that is left was used before it.
  abbrev pub Drops : SessionEntry → Call → Sessions → Type 0
  Drops e (check_out now fresh owner id) s = session_idle_timeout ≤ now - e.last_used
  Drops e (check_back now owner id cell) s =
      (max_sessions ≤ length s.live)
      × IsNoYounger e.last_used (step is_empty (check_back now owner id cell) s).live
  Drops e (end_session owner id) s = ⊥

  -- What a call leaves of an entry.
  abbrev pub Leaves : Text → Call → Sessions → Option SessionEntry → Type 0
  Leaves k c s none = lookup k (step is_empty c s).live ≡ none
  Leaves k c s (some e) =
      (lookup k (step is_empty c s).live ≡ some e)
      ⊎ ((lookup k (step is_empty c s).live ≡ none) × Drops e c s)

  same-Leaves :
      (k : Text) (c : Call) (s : Sessions) (o : Option SessionEntry)
      → lookup k (step is_empty c s).live ≡ o
      → Leaves k c s o
  same-Leaves k c s none h = h
  same-Leaves k c s (some e) h = inl h

  found-kept :
      (k id : Text) (now : ℕ) (owner : Option Text) (s : Sessions) (o : Option SessionEntry)
      → key owner id ≢ k
      → HoldsOnce s
      → HoldsOnce (found id now owner s o).1
        × (lookup k (found id now owner s o).1.live ≡ lookup k s.live)
  found-kept k id now owner s none ne u = (u, refl)
  found-kept k id now owner s (some entry) ne u = (
    IsDistinct-insert (key owner id) (record entry { last_used = now }) s.live u,
    insert-kept (key owner id) k (record entry { last_used = now }) s.live ne,
  )

  -- A `checkout` drops what is idle and touches nothing else that is not its own.
  checkout-kept :
      (k : Text) (now : ℕ) (fresh : Text) (owner id : Option Text) (s : Sessions)
      → Misses k (check_out now fresh owner id)
      → HoldsOnce s
      → HoldsOnce (checkout now fresh owner id s).1
        × (lookup k (checkout now fresh owner id s).1.live ≡ lookup k (sweep now s.live))
  unfolding checkout sweep
  checkout-kept k now fresh owner none s m u = (IsDistinct-filter _ s.live u, refl)
  checkout-kept k now fresh owner (some id) s m u =
      let swept : Sessions = record s { live = sweep now s.live } in
      found-kept k id now owner swept (lookup (key owner id) swept.live) (m id)
        (IsDistinct-filter _ s.live u)

  swept-Leaves :
      (k : Text) (now : ℕ) (fresh : Text) (owner id : Option Text) (s : Sessions)
      (o : Option SessionEntry)
      → lookup k (step is_empty (check_out now fresh owner id) s).live
        ≡ kept (λ p. ltb (now - p.1.last_used) session_idle_timeout) k o
      → Leaves k (check_out now fresh owner id) s o
  swept-Leaves k now fresh owner id s none h = h
  swept-Leaves k now fresh owner id s (some e) h =
      elim (Bool-cases (ltb (now - e.last_used) session_idle_timeout)) [
        | inl young ↦ inl (h ∙ rw young refl)
        | inr idle ↦ inr (h ∙ rw idle refl, ground (arith, idle))
      ]

  check_out-Leaves :
      (k : Text) (now : ℕ) (fresh : Text) (owner id : Option Text) (s : Sessions)
      → Misses k (check_out now fresh owner id)
      → HoldsOnce s
      → HoldsOnce (step is_empty (check_out now fresh owner id) s)
        × Leaves k (check_out now fresh owner id) s (lookup k s.live)
  unfolding step sweep
  check_out-Leaves k now fresh owner id s m u =
      let r = checkout-kept k now fresh owner id s m u in
      (
        r.0,
        swept-Leaves k now fresh owner id s (lookup k s.live) (r.1 ∙ lookup-filter _ k s.live u),
      )

  evicted-Leaves :
      (k : Text) (now : ℕ) (owner : Option Text) (id : Text) (cell : ℕ) (s : Sessions)
      (table : Assoc Text SessionEntry) (o : Option SessionEntry)
      → IsDistinct table
      → lookup k table ≡ o
      → length table ≤ suc (length s.live)
      → (step is_empty (check_back now owner id cell) s).live ≡ evict_loop (length table) table
      → Leaves k (check_back now owner id cell) s o
  evicted-Leaves k now owner id cell s table none u h le e =
      rw e (lookup-evict_loop-none (length table) k table h)
  evicted-Leaves k now owner id cell s table (some entry) u h le e =
      elim (lookup-evict_loop (length table) k entry table u h) [
        | inl stays ↦ inl (ap (lookup k) e ∙ stays)
        | inr (gone, (over, old)) ↦
            inr (
              ap (lookup k) e ∙ gone,
              (omega arith, subst (IsNoYounger entry.last_used) (sym e) old),
            )
      ]

  abbrev table_with : ℕ → Option Text → Text → ℕ → Sessions → Assoc Text SessionEntry
  table_with now owner id cell s =
      insert (key owner id) (record { cell = cell; last_used = now }) s.live

  live-kept :
      (now : ℕ) (owner : Option Text) (id : Text) (cell : ℕ) (s : Sessions)
      → worth_keeping is_empty (s.cells cell) ≡ true
      → (step is_empty (check_back now owner id cell) s).live
        ≡ evict_loop (length (table_with now owner id cell s)) (table_with now owner id cell s)
  unfolding step check_in evict_oldest
  live-kept now owner id cell s worth = rw (step, worth) refl

  live-dropped :
      (now : ℕ) (owner : Option Text) (id : Text) (cell : ℕ) (s : Sessions)
      → worth_keeping is_empty (s.cells cell) ≡ false
      → (step is_empty (check_back now owner id cell) s).live ≡ remove (key owner id) s.live
  unfolding step check_in
  live-dropped now owner id cell s worth = rw (step, worth) refl

  length-table_with :
      (now : ℕ) (owner : Option Text) (id : Text) (cell : ℕ) (s : Sessions)
      → length (table_with now owner id cell s) ≤ suc (length s.live)
  unfolding insert
  length-table_with now owner id cell s = omega (arith, length-remove-le (key owner id) s.live)

  check_back-Leaves :
      (k : Text) (now : ℕ) (owner : Option Text) (id : Text) (cell : ℕ) (s : Sessions)
      → key owner id ≢ k
      → HoldsOnce s
      → HoldsOnce (step is_empty (check_back now owner id cell) s)
        × Leaves k (check_back now owner id cell) s (lookup k s.live)
  check_back-Leaves k now owner id cell s ne u =
      let entry : SessionEntry = record { cell = cell; last_used = now } in
      let table : Assoc Text SessionEntry = table_with now owner id cell s in
      let once : IsDistinct table = IsDistinct-insert (key owner id) entry s.live u in
      elim (Bool-cases (worth_keeping is_empty (s.cells cell))) [
        | inl worth ↦
            let e = live-kept now owner id cell s worth in
            (
              subst (λ (m : Assoc Text SessionEntry). IsDistinct m) (sym e)
                  (evict_loop-IsDistinct (length table) table once),
              evicted-Leaves k now owner id cell s table (lookup k s.live) once
                  (insert-kept (key owner id) k entry s.live ne)
                  (length-table_with now owner id cell s) e,
            )
        | inr not_worth ↦
            let e = live-dropped now owner id cell s not_worth in
            (
              subst (λ (m : Assoc Text SessionEntry). IsDistinct m) (sym e)
                  (IsDistinct-remove (key owner id) s.live u),
              same-Leaves k (check_back now owner id cell) s (lookup k s.live) (
                  ap (λ (m : Assoc Text SessionEntry). lookup k m) e
                  ∙ remove-kept (key owner id) k s.live ne),
            )
      ]

  end_session-Leaves :
      (k : Text) (owner : Option Text) (id : Text) (s : Sessions)
      → key owner id ≢ k
      → HoldsOnce s
      → HoldsOnce (step is_empty (end_session owner id) s)
        × Leaves k (end_session owner id) s (lookup k s.live)
  unfolding step terminate
  end_session-Leaves k owner id s ne u = (
    IsDistinct-remove (key owner id) s.live u,
    same-Leaves k (end_session owner id) s (lookup k s.live)
        (remove-kept (key owner id) k s.live ne),
  )

  pub step-Leaves :
      (k : Text) (c : Call) (s : Sessions)
      → Misses k c
      → HoldsOnce s
      → HoldsOnce (step is_empty c s) × Leaves k c s (lookup k s.live)
  step-Leaves k (check_out now fresh owner id) s m u = check_out-Leaves k now fresh owner id s m u
  step-Leaves k (check_back now owner id cell) s m u =
      check_back-Leaves k now owner id cell s (m id) u
  step-Leaves k (end_session owner id) s m u = end_session-Leaves k owner id s (m id) u
