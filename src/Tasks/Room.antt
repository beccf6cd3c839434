-- ===== src/Tasks/Room.antt =====
-- `make_room` of src/tasks.rs: it evicts finished records, oldest first, and no others.
use sml_mcps.Prelude.{
  ℕ, zero, suc, ◌≤◌, ◌<◌, ◌≡◌, refl, max, Bool, true, false, ◌⊎◌, inl, inr, Bool-cases,
  Option-cases, Option, none, some, [], ◌∷◌, arith, leb, length, All,
}
use sml_mcps.Prelude.Text.{Text, text_has_eq, text_eq, text_eq_iff}
use sml_mcps.Prelude.Assoc.{lookup, remove, lookup-remove, length-remove-le}
use sml_mcps.Prelude.Keys.{IsDistinct, IsDistinct-remove}
use sml_mcps.Tasks.{TaskRecord, terminal}
use sml_mcps.Tasks.Records.{Records, oldest_terminal, make_room_from, make_room}

module _ {V : Type 0} where
  -- What `oldest_terminal` finds is in the map, and is finished.
  pub oldest_terminal_found :
      (m : Records V) (p : Text × TaskRecord V)
      → IsDistinct m
      → oldest_terminal m ≡ some p
      → (lookup p.0 m ≡ some p.1) × (terminal p.1 ≡ true)
  unfolding oldest_terminal lookup
  oldest_terminal_found [] p u h = absurd cc
  oldest_terminal_found ((id, r) ∷ m) p u h = elim (Option-cases (oldest_terminal m)) [
    | inl e ↦ ground (arith, e, text_eq_iff id p.0)
    | inr (q, e) ↦ ground (
      arith,
      e,
      oldest_terminal_found m q u.1 e,
      oldest_terminal_found m p u.1,
      text_eq_iff id p.0,
      u.0,
    )
  ]

  -- Where it finds none, none is finished.
  pub oldest_terminal-none :
      (m : Records V)
      → oldest_terminal m ≡ none
      → All (λ (p : Text × TaskRecord V). terminal p.1 ≡ false) m
  unfolding oldest_terminal
  oldest_terminal-none [] h = tt
  oldest_terminal-none ((id, r) ∷ m) h = (ground arith, oldest_terminal-none m (ground arith))

  pub length-remove-lt :
      (k : Text) (m : Records V) (r : TaskRecord V)
      → lookup k m ≡ some r
      → length (remove k m) < length m
  unfolding lookup remove
  length-remove-lt k [] r h = absurd cc
  length-remove-lt k ((j, s) ∷ m) r h = ground (arith, length-remove-lt k m r, length-remove-le k m)

  -- Of each record that was there, the record itself or, if it was finished, nothing is left.
  abbrev pub Evicted : Option (TaskRecord V) → Option (TaskRecord V) → Type 0
  Evicted none o = o ≡ none
  Evicted (some r) o = (o ≡ some r) ⊎ ((o ≡ none) × (terminal r ≡ true))

  Evicted-refl : (o : Option (TaskRecord V)) → Evicted o o
  Evicted-refl none = refl
  Evicted-refl (some r) = inl refl

  pub lookup_same :
      (k id : Text) (m : Records V) (r : TaskRecord V)
      → k ≡ id
      → lookup k m ≡ some r
      → lookup id m ≡ some r
  lookup_same k id m r e l = rw (← e) l

  Evicted-remove :
      (k id : Text) (r : TaskRecord V) (m : Records V) (o : Option (TaskRecord V))
      → lookup k m ≡ some r
      → terminal r ≡ true
      → Evicted (lookup id (remove k m)) o
      → Evicted (lookup id m) o
  Evicted-remove k id r m o l t h = elim (Bool-cases (text_eq k id)) [
    | inl same ↦
        rw (lookup_same k id m r ((text_eq_iff k id).0 same) l)
          (inr ((rw (lookup-remove k id m, same) at h), t))
    | inr other ↦ rw (lookup-remove k id m, other) at h
  ]

  pub record MakesRoom (most : ℕ) (m : Records V) (done : Bool) (m' : Records V) : Type 0 where
    pub evicts : (id : Text) → Evicted (lookup id m) (lookup id m')
    pub has_room : done ≡ true → length m' < max most 1
    pub all_running :
        done ≡ false
        → (max most 1 ≤ length m') × All (λ (p : Text × TaskRecord V). terminal p.1 ≡ false) m'
    pub distinct : IsDistinct m'

  make_room_from-MakesRoom :
      (fuel most : ℕ) (m : Records V)
      → length m < fuel
      → IsDistinct m
      → MakesRoom most m (make_room_from fuel most m).0 (make_room_from fuel most m).1
  unfolding make_room_from
  make_room_from-MakesRoom zero most m h u = elim h [ ]
  make_room_from-MakesRoom (suc fuel) most m h u = elim (Bool-cases (leb (max most 1) (length m))) [
    | inr free ↦ rw free (record {
      evicts = λ id. Evicted-refl (lookup id m);
      has_room = λ _. ground arith;
      all_running = λ e. absurd cc;
      distinct = u;
    })
    | inl full ↦ rw full (elim (Option-cases (oldest_terminal m)) [
      | inl e ↦ rw e (record {
        evicts = λ id. Evicted-refl (lookup id m);
        has_room = λ x. absurd cc;
        all_running = λ _. (ground arith, oldest_terminal-none m e);
        distinct = u;
      })
      | inr (p, e) ↦ rw e (
          let found = oldest_terminal_found m p u e in
          let ih =
            make_room_from-MakesRoom fuel most (remove p.0 m)
              (omega (arith, length-remove-lt p.0 m p.1 found.0)) (IsDistinct-remove p.0 m u) in
          record {
            evicts = λ id. Evicted-remove p.0 id p.1 m _ found.0 found.1 (ih.evicts id);
            has_room = ih.has_room;
            all_running = ih.all_running;
            distinct = ih.distinct;
          })
    ])
  ]

  -- In a map with distinct ids, `make_room` evicts finished records only. It succeeds with room for one more record, or it
  -- fails with the store full of records that are all still running.
  pub make_room-MakesRoom :
      (most : ℕ) (m : Records V)
      → IsDistinct m
      → MakesRoom most m (make_room most m).0 (make_room most m).1
  unfolding make_room
  make_room-MakesRoom most m u = make_room_from-MakesRoom (suc (length m)) most m (omega arith) u
