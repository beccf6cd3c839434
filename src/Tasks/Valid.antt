-- ===== src/Tasks/Valid.antt =====
-- The invariant of the store of src/tasks.rs, for its map of records.
pub mod Perform
use sml_mcps.Prelude.{
  ℕ, zero, suc, ◌+◌, ◌≤◌, ◌<◌, ◌≡◌, refl, max, Bool, true, false, ◌⊎◌, inl, inr, Bool-cases,
  Option-cases, not, ◌&&◌, Option, none, some, List, [], ◌∷◌, arith, leb, if◌then◌else◌, length,
  filter, length-filter-le, All, All-filter,
}
use sml_mcps.Prelude.Text.{Text, text_has_eq, text_eq, text_eq_iff}
use sml_mcps.Prelude.Assoc.{
  Assoc, lookup, insert, remove, lookup-remove, length-remove-le, All-remove,
}
use sml_mcps.Prelude.Keys.{IsDistinct, IsDistinct-filter, IsDistinct-insert, IsDistinct-remove}
use sml_mcps.Tasks.{Task, TaskConfig, TaskOutcome, TaskRecord, Requestor, terminal, belongs_to}
use sml_mcps.Tasks.Records.{Records, sweep, oldest_terminal, make_room_from, make_room, running_of}
use sml_mcps.Tasks.Room.{length-remove-lt}

abbrev pub has_outcome {ℓ} : {A : Type ℓ} → Option A → Bool
has_outcome none = false
has_outcome (some a) = true

module _ {V : Type 0} where
  -- A record is stored under the id of its task, and has an outcome once it is finished.
  abbrev pub IsSound : Text × TaskRecord V → Type 0
  IsSound p = (p.1.task.task_id ≡ p.0) × (terminal p.1 ≡ has_outcome p.1.outcome)

  abbrev pub counts : Requestor → TaskRecord V → ℕ
  counts who r = if not (terminal r) && belongs_to who r then 1 else 0

  pub record IsValid (c : TaskConfig) (m : Records V) : Type 0 where
    pub distinct : IsDistinct m
    pub sound : All IsSound m
    pub bounded : length m ≤ max c.max_records 1
    pub fair : (who : Requestor) → running_of who m ≤ c.max_concurrent

  pub IsSound-at :
      (k : Text) (m : Records V) (r : TaskRecord V)
      → All IsSound m
      → lookup k m ≡ some r
      → IsSound (k, r)
  unfolding lookup
  IsSound-at k [] r h l = absurd cc
  IsSound-at k ((j, x) ∷ m) r h l = elim (Bool-cases (text_eq j k)) [
    | inl same ↦ ground (arith, text_eq_iff j k, same, h.0)
    | inr other ↦ IsSound-at k m r h.1 (rw other at l)
  ]

  running_of-filter :
      (who : Requestor) (p : Text × TaskRecord V → Bool) (m : Records V)
      → running_of who (filter p m) ≤ running_of who m
  unfolding running_of
  running_of-filter who p [] = omega arith
  running_of-filter who p ((j, x) ∷ m) = elim (Bool-cases (p (j, x))) [
    | inl keep ↦ rw keep (omega (arith, running_of-filter who p m))
    | inr drop ↦ rw drop (omega (arith, running_of-filter who p m))
  ]

  running_of-remove :
      (who : Requestor) (k : Text) (m : Records V) → running_of who (remove k m) ≤ running_of who m
  unfolding running_of remove
  running_of-remove who k [] = omega arith
  running_of-remove who k ((j, x) ∷ m) = elim (Bool-cases (text_eq j k)) [
    | inl same ↦ rw same (omega (arith, running_of-remove who k m))
    | inr other ↦ rw other (omega (arith, running_of-remove who k m))
  ]

  running_of-remove_there :
      (who : Requestor) (k : Text) (m : Records V) (r : TaskRecord V)
      → lookup k m ≡ some r
      → counts who r + running_of who (remove k m) ≤ running_of who m
  unfolding running_of remove lookup
  running_of-remove_there who k [] r l = absurd cc
  running_of-remove_there who k ((j, x) ∷ m) r l = elim (Bool-cases (text_eq j k)) [
    | inl same ↦ ground (arith, same, running_of-remove who k m)
    | inr other ↦ rw other (omega (arith, running_of-remove_there who k m r (rw other at l)))
  ]

  pub IsValid-filter :
      (c : TaskConfig) (p : Text × TaskRecord V → Bool) (m : Records V)
      → IsValid c m
      → IsValid c (filter p m)
  IsValid-filter c p m v = record {
    distinct = IsDistinct-filter p m v.distinct;
    sound = All-filter IsSound p m v.sound;
    bounded = omega (arith, v.bounded, length-filter-le p m);
    fair = λ who. omega (arith, v.fair who, running_of-filter who p m);
  }

  IsValid-remove :
      (c : TaskConfig) (k : Text) (m : Records V) → IsValid c m → IsValid c (remove k m)
  IsValid-remove c k m v = record {
    distinct = IsDistinct-remove k m v.distinct;
    sound = All-remove IsSound k m v.sound;
    bounded = omega (arith, v.bounded, length-remove-le k m);
    fair = λ who. omega (arith, v.fair who, running_of-remove who k m);
  }

  -- A record takes the place of another, and counts for nobody that the other did not count for.
  pub IsValid-replace :
      (c : TaskConfig) (k : Text) (m : Records V) (r r' : TaskRecord V)
      → IsValid c m
      → lookup k m ≡ some r
      → IsSound (k, r')
      → ((who : Requestor) → counts who r' ≤ counts who r)
      → IsValid c (insert k r' m)
  unfolding insert running_of
  IsValid-replace c k m r r' v l h n = record {
    distinct = IsDistinct-insert k r' m v.distinct;
    sound = (h, All-remove IsSound k m v.sound);
    bounded = omega (arith, v.bounded, length-remove-lt k m r l);
    fair = λ who. omega (arith, v.fair who, n who, running_of-remove_there who k m r l);
  }

  -- A new record, where there is room for it.
  pub IsValid-add :
      (c : TaskConfig) (k : Text) (m : Records V) (r : TaskRecord V)
      → IsValid c m
      → length m < max c.max_records 1
      → IsSound (k, r)
      → ((who : Requestor) → counts who r + running_of who m ≤ c.max_concurrent)
      → IsValid c (insert k r m)
  unfolding insert running_of
  IsValid-add c k m r v l h n = record {
    distinct = IsDistinct-insert k r m v.distinct;
    sound = (h, All-remove IsSound k m v.sound);
    bounded = omega (arith, l, length-remove-le k m);
    fair = λ who. omega (arith, n who, running_of-remove who k m);
  }

  pub make_room_from-IsValid :
      (c : TaskConfig) (fuel most : ℕ) (m : Records V)
      → IsValid c m
      → IsValid c (make_room_from fuel most m).1
  unfolding make_room_from
  make_room_from-IsValid c zero most m v = v
  make_room_from-IsValid c (suc fuel) most m v = elim (Bool-cases (leb (max most 1) (length m))) [
    | inr free ↦ rw free v
    | inl full ↦ rw full (elim (Option-cases (oldest_terminal m)) [
      | inl e ↦ rw e v
      | inr (p, e) ↦
          rw e (make_room_from-IsValid c fuel most (remove p.0 m) (IsValid-remove c p.0 m v))
    ])
  ]

  pub running_of-make_room_from :
      (who : Requestor) (fuel most : ℕ) (m : Records V)
      → running_of who (make_room_from fuel most m).1 ≤ running_of who m
  unfolding make_room_from
  running_of-make_room_from who zero most m = omega arith
  running_of-make_room_from who (suc fuel) most m =
      elim (Bool-cases (leb (max most 1) (length m))) [
        | inr free ↦ rw free (omega arith)
        | inl full ↦ rw full (elim (Option-cases (oldest_terminal m)) [
          | inl e ↦ rw e (omega arith)
          | inr (p, e) ↦ rw e (
              omega (
                arith,
                running_of-make_room_from who fuel most (remove p.0 m),
                running_of-remove who p.0 m,
              ))
        ])
      ]
