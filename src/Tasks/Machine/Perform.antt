-- ===== src/Tasks/Machine/Perform.antt =====
-- The state machine of src/tasks.rs over every call of the store.
use sml_mcps.Prelude.{
  ℕ, ◌≡◌, refl, ◌∙◌, Bool, true, false, inl, inr, Bool-cases, not, Option, none, some, leb,
}
use sml_mcps.Prelude.Text.{Text, text_has_eq, text_eq, text_eq_iff}
use sml_mcps.Prelude.Assoc.{lookup, lookup-insert}
use sml_mcps.Prelude.Keys.{IsDistinct, IsDistinct-filter}
use sml_mcps.Tasks.Status.{TaskStatus, is_terminal}
use sml_mcps.Tasks.{Task, TaskRecord, Requestor, expired}
use sml_mcps.Tasks.Records.{Records, sweep, make_room, running_of}
use sml_mcps.Tasks.Room.{Evicted, make_room-MakesRoom}
use sml_mcps.Tasks.Store.{
  TaskStore, create, create_in, new_task, new_record, get, list, running, is_empty, finish,
  set_status, set_status_message, cancel, try_result,
}
use sml_mcps.Tasks.Calls.{
  Call, create_task, get_task, cancel_task, ask_result, list_tasks, count_running, ask_empty,
  finish_task, move_task, note_task, perform, IsLegal,
}
use sml_mcps.Tasks.Machine.{
  Progress, Swept, Swept-Progress, sweep-Swept, finish-Progress, move-Progress, note-Progress,
  cancel-Progress,
}

module _ {V : Type 0} where
  Swept-trans : (o p q : Option (TaskRecord V)) → Swept o p → Swept p q → Swept o q
  Swept-trans o p q h (inl e) = inl e
  Swept-trans o p q (inl h) (inr e) = inl (e ∙ h)
  Swept-trans o p q (inr h) (inr e) = inr (e ∙ h)

  Evicted-Swept : (o p : Option (TaskRecord V)) → Evicted o p → Swept o p
  Evicted-Swept none p h = inl h
  Evicted-Swept (some r) p (inl h) = inr h
  Evicted-Swept (some r) p (inr h) = inl h.0

  pub sweep-IsDistinct : (now : ℕ) (m : Records V) → IsDistinct m → IsDistinct (sweep now m)
  unfolding sweep
  sweep-IsDistinct now m u = IsDistinct-filter (λ p. not (expired now p.1)) m u

  created-Progress :
      (now : ℕ) (k : Text) (task : Task) (owner : Requestor) (most : ℕ) (done : Bool)
      (m swept : Records V) (id : Text)
      → ((i : Text) → Swept (lookup i m) (lookup i swept))
      → lookup k m ≡ none
      → task.status ≡ TaskStatus.working
      → Progress (lookup id m) (lookup id (create_in now k task owner most (done, swept)).1)
  created-Progress now k task owner most false m swept id s new w = Swept-Progress _ _ (s id)
  created-Progress now k task owner most true m swept id s new w =
      elim (Bool-cases (text_eq k id)) [
        | inl same ↦
            rw (lookup-insert k id (new_record now task owner) swept, same)
              (rw (absent k id m ((text_eq_iff k id).0 same) new) w)
        | inr other ↦
            rw (lookup-insert k id (new_record now task owner) swept, other)
              (Swept-Progress _ _ (s id))
      ]
    where
      absent :
          (k' id' : Text) (m' : Records V) → k' ≡ id' → lookup k' m' ≡ none → lookup id' m' ≡ none
      absent k' id' m' e l = rw (← e) l

  create-Progress :
      (now : ℕ) (k : Text) (ttl : Option ℕ) (owner : Requestor) (s : TaskStore V) (id : Text)
      → IsDistinct s.records
      → lookup k s.records ≡ none
      → Progress (lookup id s.records) (lookup id (create now k ttl owner s).1.records)
  unfolding create
  create-Progress now k ttl owner s id u new =
      let m = sweep now s.records in
      let swept = λ (i : Text). sweep-Swept now s.records i u in
      let room = make_room-MakesRoom s.config.max_records m (sweep-IsDistinct now s.records u) in
      elim (Bool-cases (leb s.config.max_concurrent (running_of owner m))) [
        | inl busy ↦ rw busy (Swept-Progress _ _ (swept id))
        | inr free ↦ rw free (
            created-Progress now k (new_task now k ttl s.config) owner s.config.max_records
              (make_room s.config.max_records m).0 s.records (make_room s.config.max_records m).1 id
              (λ i. Swept-trans _ _ _ (swept i) (Evicted-Swept _ _ (room.evicts i))) new refl)
      ]

  set_status-Progress :
      (now : ℕ) (k : Text) (status : TaskStatus) (s : TaskStore V) (id : Text)
      → Progress (lookup id s.records) (lookup id (set_status now k status s).1.records)
  unfolding set_status
  set_status-Progress now k status s id = elim (Bool-cases (is_terminal status)) [
    | inl wrong ↦ rw wrong (Swept-Progress _ _ (inr refl))
    | inr right ↦ rw right (move-Progress s.records s.records id (λ i. inr refl) now k status)
  ]

  -- Whatever call is made on a store with distinct ids, each entry makes at most a legal move: a task appears in
  -- `working`; a task that is there is dropped, or keeps its owner, its id and its time of
  -- creation while its status stays or moves as the state machine allows; and a task in a
  -- terminal status is not changed at all. A task must be created under a new id, and
  -- finished with a terminal status.
  pub perform-Progress :
      (c : Call V) (s : TaskStore V) (id : Text)
      → IsDistinct s.records
      → IsLegal c s
      → Progress (lookup id s.records) (lookup id (perform c s).records)
  unfolding perform get list running is_empty try_result finish set_status_message cancel
  perform-Progress (create_task now k ttl owner) s id u h = create-Progress now k ttl owner s id u h
  perform-Progress (cancel_task now k who) s id u h =
      cancel-Progress s.records (sweep now s.records) id (λ i. sweep-Swept now s.records i u) now k
        who
  perform-Progress (finish_task now k status outcome) s id u h =
      finish-Progress s.records s.records id (λ i. inr refl) now k status outcome h
  perform-Progress (move_task now k status) s id u h = set_status-Progress now k status s id
  perform-Progress (note_task now k message) s id u h =
      note-Progress s.records s.records id (λ i. inr refl) now k message
  perform-Progress (get_task now k who) s id u h =
      Swept-Progress _ _ (sweep-Swept now s.records id u)
  perform-Progress (ask_result now k who) s id u h =
      Swept-Progress _ _ (sweep-Swept now s.records id u)
  perform-Progress (list_tasks now who) s id u h =
      Swept-Progress _ _ (sweep-Swept now s.records id u)
  perform-Progress (count_running now) s id u h =
      Swept-Progress _ _ (sweep-Swept now s.records id u)
  perform-Progress (ask_empty now) s id u h = Swept-Progress _ _ (sweep-Swept now s.records id u)
