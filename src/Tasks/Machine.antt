-- ===== src/Tasks/Machine.antt =====
-- Each task of src/tasks.rs moves through the state machine of its status, and a finished task
-- never changes: one entry of the map at a time.
pub mod Perform
use sml_mcps.Prelude.{
  ℕ, ◌≡◌, refl, sym, ◌∙◌, Bool, true, false, ◌⊎◌, inl, inr, Bool-cases, Option-cases, not, Option,
  none, some, List, [], ◌∷◌, arith, leb, if◌then◌else◌,
}
use sml_mcps.Prelude.Text.{Text, text_has_eq, text_eq, text_eq_iff}
use sml_mcps.Prelude.Assoc.{Assoc, lookup, insert, lookup-insert}
use sml_mcps.Prelude.Keys.{IsDistinct, IsDistinct-filter, lookup-filter-or}
use sml_mcps.Tasks.Status.{TaskStatus, working, cancelled, is_terminal, can_transition_to}
use sml_mcps.Tasks.{Task, TaskOutcome, TaskRecord, Requestor, terminal, expired, belongs_to}
use sml_mcps.Tasks.Records.{Records, sweep, make_room, running_of}
use sml_mcps.Tasks.Room.{Evicted, MakesRoom, make_room-MakesRoom, lookup_same}
use sml_mcps.Tasks.Store.{
  TaskStore, create, create_in, new_task, new_record, get, list, running, is_empty, finish,
  finish_found, finished, set_status, move_found, moved, set_status_message, note_found, noted,
  cancel, cancel_found, cancelled_record, try_result, find, if_owned,
}
use sml_mcps.Tasks.Calls.{
  Call, create_task, get_task, cancel_task, ask_result, list_tasks, count_running, ask_empty,
  finish_task, move_task, note_task, perform, IsLegal,
}

module _ {V : Type 0} where
  -- What a record may become.
  pub record Follows (r r' : TaskRecord V) : Type 0 where
    pub frozen : terminal r ≡ true → r' ≡ r
    pub moves :
        (r'.task.status ≡ r.task.status) ⊎ (can_transition_to r.task.status r'.task.status ≡ true)
    pub same_owner : r'.owner ≡ r.owner
    pub same_creation : r'.created ≡ r.created
    pub same_id : r'.task.task_id ≡ r.task.task_id

  -- What an entry of the map may become: a record appears in `working`, changes as it may, or is
  -- dropped.
  abbrev pub Progress : Option (TaskRecord V) → Option (TaskRecord V) → Type 0
  Progress none none = Unit
  Progress none (some r) = r.task.status ≡ working
  Progress (some r) none = Unit
  Progress (some r) (some r') = Follows r r'

  Follows-refl : (r : TaskRecord V) → Follows r r
  Follows-refl r = record {
    frozen = λ _. refl;
    moves = inl refl;
    same_owner = refl;
    same_creation = refl;
    same_id = refl;
  }

  Progress-refl : (o : Option (TaskRecord V)) → Progress o o
  Progress-refl none = tt
  Progress-refl (some r) = Follows-refl r

  abbrev pub Swept : Option (TaskRecord V) → Option (TaskRecord V) → Type 0
  Swept o o' = (o' ≡ none) ⊎ (o' ≡ o)

  Progress-none : (o : Option (TaskRecord V)) → Progress o none
  Progress-none none = tt
  Progress-none (some r) = tt

  pub Swept-Progress : (o o' : Option (TaskRecord V)) → Swept o o' → Progress o o'
  Swept-Progress o o' (inl e) = rw e (Progress-none o)
  Swept-Progress o o' (inr e) = rw e (Progress-refl o)

  pub sweep-Swept :
      (now : ℕ) (m : Records V) (id : Text)
      → IsDistinct m
      → Swept (lookup id m) (lookup id (sweep now m))
  unfolding sweep
  sweep-Swept now m id u = lookup-filter-or (λ p. not (expired now p.1)) id m u

  unswept :
      (k : Text) (m swept : Records V) (r : TaskRecord V)
      → Swept (lookup k m) (lookup k swept)
      → lookup k swept ≡ some r
      → lookup k m ≡ some r
  unswept k m swept r (inl gone) l = absurd cc
  unswept k m swept r (inr same) l = sym same ∙ l

  -- An entry that a record replaces, in a map that has been swept.
  replaced-Progress :
      (m swept : Records V) (k id : Text) (r r' : TaskRecord V)
      → ((i : Text) → Swept (lookup i m) (lookup i swept))
      → lookup k swept ≡ some r
      → Follows r r'
      → Progress (lookup id m) (lookup id (insert k r' swept))
  replaced-Progress m swept k id r r' s l f = elim (Bool-cases (text_eq k id)) [
    | inl same ↦
        rw (lookup-insert k id r' swept, same)
          (rw (lookup_same k id m r ((text_eq_iff k id).0 same) (unswept k m swept r (s k) l)) f)
    | inr other ↦ rw (lookup-insert k id r' swept, other) (Swept-Progress _ _ (s id))
  ]

can_transition_to-terminal :
    (a b : TaskStatus) → is_terminal a ≡ false → is_terminal b ≡ true → can_transition_to a b ≡ true
unfolding is_terminal can_transition_to
can_transition_to-terminal working b h k = ground arith
can_transition_to-terminal _ b h k = ground arith

can_transition_to-running :
    (a b : TaskStatus) → can_transition_to a b ≡ true → is_terminal a ≡ false
unfolding is_terminal can_transition_to
can_transition_to-running working b h = refl
can_transition_to-running _ b h = ground arith

terminal_cancelled : is_terminal cancelled ≡ true
unfolding is_terminal
terminal_cancelled = refl

module _ {V : Type 0} where
  running_Follows :
      (r r' : TaskRecord V)
      → terminal r ≡ false
      → can_transition_to r.task.status r'.task.status ≡ true
      → r'.owner ≡ r.owner
      → r'.created ≡ r.created
      → r'.task.task_id ≡ r.task.task_id
      → Follows r r'
  running_Follows r r' t c o k i = record {
    frozen = λ e. absurd cc;
    moves = inr c;
    same_owner = o;
    same_creation = k;
    same_id = i;
  }

  module _ (m : Records V) (s : Records V) (id : Text)
      (swept : (i : Text) → Swept (lookup i m) (lookup i s)) where
    pub finish-Progress :
        (now : ℕ) (k : Text) (status : TaskStatus) (outcome : TaskOutcome V)
        → is_terminal status ≡ true
        → Progress (lookup id m) (lookup id (finish_found now k status outcome (lookup k s) s))
    finish-Progress now k status outcome t = elim (Option-cases (lookup k s)) [
      | inl gone ↦ rw gone (Swept-Progress _ _ (swept id))
      | inr (r, there) ↦ rw there (elim (Bool-cases (terminal r)) [
        | inl over ↦ rw over (Swept-Progress _ _ (swept id))
        | inr runs ↦ rw runs (
            replaced-Progress m s k id r (finished now status outcome r) swept there (
              running_Follows r _ runs (can_transition_to-terminal r.task.status status runs t) refl
                refl refl))
      ])
    ]

    pub move-Progress :
        (now : ℕ) (k : Text) (status : TaskStatus)
        → Progress (lookup id m) (lookup id (move_found now k status (lookup k s) s).1)
    move-Progress now k status = elim (Option-cases (lookup k s)) [
      | inl gone ↦ rw gone (Swept-Progress _ _ (swept id))
      | inr (r, there) ↦ rw there (elim (Bool-cases (can_transition_to r.task.status status)) [
        | inl legal ↦ rw legal (
            replaced-Progress m s k id r (moved now status r) swept there
              (running_Follows r _ (can_transition_to-running _ _ legal) legal refl refl refl))
        | inr illegal ↦ rw illegal (Swept-Progress _ _ (swept id))
      ])
    ]

    pub note-Progress :
        (now : ℕ) (k message : Text)
        → Progress (lookup id m) (lookup id (note_found now k message (lookup k s) s))
    note-Progress now k message = elim (Option-cases (lookup k s)) [
      | inl gone ↦ rw gone (Swept-Progress _ _ (swept id))
      | inr (r, there) ↦ rw there (elim (Bool-cases (terminal r)) [
        | inl over ↦ rw over (Swept-Progress _ _ (swept id))
        | inr runs ↦ rw runs (
            replaced-Progress m s k id r (noted now message r) swept there (record {
              frozen = λ e. absurd cc;
              moves = inl refl;
              same_owner = refl;
              same_creation = refl;
              same_id = refl;
            }))
      ])
    ]

    pub cancel-Progress :
        (now : ℕ) (k : Text) (who : Requestor)
        → Progress (lookup id m) (lookup id (cancel_found now k (find k who s) s).1)
    unfolding find
    cancel-Progress now k who = elim (Option-cases (lookup k s)) [
      | inl gone ↦ rw gone (Swept-Progress _ _ (swept id))
      | inr (r, there) ↦ rw there (elim (Bool-cases (belongs_to who r)) [
        | inr foreign ↦ rw foreign (Swept-Progress _ _ (swept id))
        | inl own ↦ rw own (elim (Bool-cases (terminal r)) [
          | inl over ↦ rw over (Swept-Progress _ _ (swept id))
          | inr runs ↦ rw runs (
              replaced-Progress m s k id r (cancelled_record now r) swept there (
                running_Follows r _ runs
                  (can_transition_to-terminal r.task.status cancelled runs terminal_cancelled) refl
                  refl refl))
        ])
      ])
    ]
