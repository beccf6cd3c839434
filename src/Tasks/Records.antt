-- ===== src/Tasks/Records.antt =====
-- The map of records of src/tasks.rs: sweeping, eviction, counting, and the order of `list`.
use sml_mcps.Prelude.{
  ℕ, zero, suc, ◌+◌, max, Bool, true, false, ◌&&◌, not, Option, none, some, List, [], ◌∷◌, leb, ltb,
  ◌==◌, if◌then◌else◌, length, filter,
}
use sml_mcps.Prelude.Text.{Text, text_has_eq, text_lt}
use sml_mcps.Prelude.Assoc.{Assoc, remove}
use sml_mcps.Tasks.{Task, Requestor, TaskRecord, belongs_to, expired, terminal}

abbrev pub Records : Type 0 → Type 0
Records V = Assoc Text (TaskRecord V)

-- A stable sort, as `sort_by` is; `before` is the strict order.
module _ {A : Type 0} (before : A → A → Bool) where
  insert_sorted : A → List A → List A
  insert_sorted x [] = x ∷ []
  insert_sorted x (y ∷ ys) =
      let later = insert_sorted x ys in if before y x then y ∷ later else x ∷ y ∷ ys

  unfoldable pub sort_by : List A → List A
  unfolding insert_sorted
  sort_by [] = []
  sort_by (x ∷ xs) = insert_sorted x (sort_by xs)

unfoldable pub newer_first : Task → Task → Bool
newer_first a b =
    if text_lt b.created_at a.created_at
    then true
    else if text_lt a.created_at b.created_at
    then false
    else text_lt a.task_id b.task_id

module _ {V : Type 0} where
  unfoldable pub sweep : ℕ → Records V → Records V
  sweep now = filter (λ p. not (expired now p.1))

  -- the order of the keys `(created, id)`
  unfoldable pub older : Text × TaskRecord V → Text × TaskRecord V → Bool
  older (i, r) (k, s) =
      if ltb r.created s.created
      then true
      else if r.created == s.created
      then text_lt i k
      else false

  abbrev pub oldest_of : Text × TaskRecord V → Option (Text × TaskRecord V) → Text × TaskRecord V
  oldest_of p none = p
  oldest_of p (some q) = if older q p then q else p

  -- `filter(is_terminal).min_by_key(…)`, which takes the first of equals
  unfoldable pub oldest_terminal : Records V → Option (Text × TaskRecord V)
  oldest_terminal [] = none
  oldest_terminal ((id, r) ∷ m) =
      let rest = oldest_terminal m in if terminal r then some (oldest_of (id, r) rest) else rest

  -- The flag is false for the error. The fuel is the number of records and one more.
  unfoldable pub make_room_from : ℕ → ℕ → Records V → Bool × Records V
  make_room_from zero most m = (false, m)
  make_room_from (suc fuel) most m =
      let next = oldest_terminal m in
      if leb (max most 1) (length m)
      then elim next [ none ↦ (false, m) | some p ↦ make_room_from fuel most (remove p.0 m) ]
      else (true, m)

  unfoldable pub make_room : ℕ → Records V → Bool × Records V
  make_room most m = make_room_from (suc (length m)) most m

  unfoldable pub running_of : Requestor → Records V → ℕ
  running_of who [] = 0
  running_of who ((id, r) ∷ m) =
      (if not (terminal r) && belongs_to who r then 1 else 0) + running_of who m
