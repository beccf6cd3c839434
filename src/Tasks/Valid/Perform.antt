-- ===== src/Tasks/Valid/Perform.antt =====
-- Each call on the store of src/tasks.rs keeps the invariant.
use sml_mcps.Prelude.{
  ℕ, suc, ◌+◌, ◌≤◌, ◌≡◌, refl, Bool, true, false, inl, inr, Bool-cases, Option-cases, not, Option,
  none, some, arith, leb, length, max, ◌<◌,
}
use sml_mcps.Prelude.Text.{Text, text_has_eq}
use sml_mcps.Prelude.Assoc.{lookup}
use sml_mcps.Prelude.Keys.{IsDistinct}
use sml_mcps.Tasks.Status.{TaskStatus, working, cancelled, is_terminal, can_transition_to}
use sml_mcps.Tasks.{
  Task, TaskConfig, TaskOutcome, TaskRecord, Requestor, expired, terminal, belongs_to, not_found,
  requestor_eq, requestor_eq_iff,
}
use sml_mcps.Tasks.Records.{Records, sweep, make_room, make_room_from, running_of}
use sml_mcps.Tasks.Room.{make_room-MakesRoom}
use sml_mcps.Tasks.Store.{
  TaskStore, create, create_in, new_task, new_record, get, list, running, is_empty, finish,
  finish_found, finished, set_status, move_found, moved, set_status_message, note_found, noted,
  cancel, cancel_found, cancelled_record, try_result, find, result_of,
}
use sml_mcps.Error.{Result, ok, err}
use sml_mcps.Tasks.Calls.{
  Call, create_task, get_task, cancel_task, ask_result, list_tasks, count_running, ask_empty,
  finish_task, move_task, note_task, perform, IsLegal,
}
use sml_mcps.Tasks.Valid.{
  IsValid, counts, has_outcome, IsSound-at, IsValid-filter, IsValid-replace, IsValid-add,
  make_room_from-IsValid, running_of-make_room_from,
}

can_transition_to-running_both :
    (a b : TaskStatus)
    → can_transition_to a b ≡ true
    → is_terminal b ≡ false
    → is_terminal a ≡ false
unfolding is_terminal can_transition_to
can_transition_to-running_both working b h k = refl
can_transition_to-running_both _ b h k = ground arith

terminal_cancelled : is_terminal cancelled ≡ true
unfolding is_terminal
terminal_cancelled = refl

terminal_working : is_terminal working ≡ false
unfolding is_terminal
terminal_working = refl

module _ {V : Type 0} where
  pub sweep-IsValid :
      (c : TaskConfig) (now : ℕ) (m : Records V) → IsValid c m → IsValid c (sweep now m)
  unfolding sweep
  sweep-IsValid c now m v = IsValid-filter c (λ p. not (expired now p.1)) m v

  module _ (c : TaskConfig) (m : Records V) (v : IsValid c m) where
    finish_found-IsValid :
        (now : ℕ) (k : Text) (status : TaskStatus) (outcome : TaskOutcome V)
        → is_terminal status ≡ true
        → IsValid c (finish_found now k status outcome (lookup k m) m)
    finish_found-IsValid now k status outcome t = elim (Option-cases (lookup k m)) [
      | inl gone ↦ rw gone v
      | inr (r, there) ↦ rw there (elim (Bool-cases (terminal r)) [
        | inl over ↦ rw over v
        | inr runs ↦ rw runs (
            IsValid-replace c k m r (finished now status outcome r) v there
              ((IsSound-at k m r v.sound there).0, t) (λ who. rw t (omega arith)))
      ])
    ]

    move_found-IsValid :
        (now : ℕ) (k : Text) (status : TaskStatus)
        → is_terminal status ≡ false
        → IsValid c (move_found now k status (lookup k m) m).1
    unfolding belongs_to
    move_found-IsValid now k status t = elim (Option-cases (lookup k m)) [
      | inl gone ↦ rw gone v
      | inr (r, there) ↦ rw there (elim (Bool-cases (can_transition_to r.task.status status)) [
        | inr illegal ↦ rw illegal v
        | inl legal ↦ rw legal (
            let sound = IsSound-at k m r v.sound there in
            let runs = can_transition_to-running_both _ _ legal t in
            IsValid-replace c k m r (moved now status r) v there
              (sound.0, rw t (rw runs at sound.1)) (λ who. rw (t, runs) (omega arith)))
      ])
    ]

    note_found-IsValid :
        (now : ℕ) (k message : Text) → IsValid c (note_found now k message (lookup k m) m)
    unfolding belongs_to
    note_found-IsValid now k message = elim (Option-cases (lookup k m)) [
      | inl gone ↦ rw gone v
      | inr (r, there) ↦ rw there (elim (Bool-cases (terminal r)) [
        | inl over ↦ rw over v
        | inr runs ↦ rw runs (
            IsValid-replace c k m r (noted now message r) v there (IsSound-at k m r v.sound there)
              (λ who. omega arith))
      ])
    ]

    cancel_found-IsValid :
        (now : ℕ) (k : Text) (who : Requestor) → IsValid c (cancel_found now k (find k who m) m).1
    unfolding find
    cancel_found-IsValid now k who = elim (Option-cases (lookup k m)) [
      | inl gone ↦ rw gone v
      | inr (r, there) ↦ rw there (elim (Bool-cases (belongs_to who r)) [
        | inr foreign ↦ rw foreign v
        | inl own ↦ rw own (elim (Bool-cases (terminal r)) [
          | inl over ↦ rw over v
          | inr runs ↦ rw runs (
              IsValid-replace c k m r (cancelled_record now r) v there
                ((IsSound-at k m r v.sound there).0, terminal_cancelled)
                (λ i. rw terminal_cancelled (omega arith)))
        ])
      ])
    ]

module _ {V : Type 0} where
  -- A new record counts for its owner, who has fewer than the limit running.
  new_record-counts :
      (now : ℕ) (task : Task) (owner who : Requestor) (most : ℕ) (m : Records V)
      → task.status ≡ working
      → running_of owner m < most
      → running_of who m ≤ most
      → counts {V = V} who (new_record now task owner) + running_of who m ≤ most
  unfolding belongs_to
  new_record-counts now task owner who most m w h k = elim (Bool-cases (requestor_eq owner who)) [
    | inr other ↦ rw (w, terminal_working, other) (omega arith)
    | inl same ↦
        rw (w, terminal_working, same)
          (let h' = (rw (requestor_eq_iff owner who same) at h) in omega (arith, h'))
  ]

  create_in-IsValid :
      (c : TaskConfig) (now : ℕ) (k : Text) (task : Task) (owner : Requestor) (done : Bool)
      (m : Records V)
      → IsValid c m
      → (done ≡ true → length m < max c.max_records 1)
      → running_of owner m < c.max_concurrent
      → task.status ≡ working
      → task.task_id ≡ k
      → IsValid c (create_in now k task owner c.max_records (done, m)).1
  create_in-IsValid c now k task owner false m v l h w i = v
  create_in-IsValid c now k task owner true m v l h w i =
      IsValid-add c k m (new_record now task owner) v (l refl) (i, rw w terminal_working)
        (λ who. new_record-counts now task owner who c.max_concurrent m w h (v.fair who))

  create-IsValid :
      (now : ℕ) (k : Text) (ttl : Option ℕ) (owner : Requestor) (s : TaskStore V)
      → IsValid s.config s.records
      → IsValid s.config (create now k ttl owner s).1.records
  unfolding create make_room
  create-IsValid now k ttl owner s v =
      let c = s.config in
      let m = sweep now s.records in
      let swept = sweep-IsValid c now s.records v in
      elim (Bool-cases (leb c.max_concurrent (running_of owner m))) [
        | inl busy ↦ rw busy swept
        | inr free ↦ rw free (
            create_in-IsValid c now k (new_task now k ttl c) owner
              (make_room_from (suc (length m)) c.max_records m).0
              (make_room_from (suc (length m)) c.max_records m).1
              (make_room_from-IsValid c (suc (length m)) c.max_records m swept)
              (room c.max_records m swept.distinct)
              (omega (
                arith,
                leb_false _ _ free,
                running_of-make_room_from owner (suc (length m)) c.max_records m,
              ))
              refl refl)
      ]
    where
      room :
          (most : ℕ) (m : Records V)
          → IsDistinct m
          → (make_room_from (suc (length m)) most m).0 ≡ true
          → length (make_room_from (suc (length m)) most m).1 < max most 1
      room most m u = (make_room-MakesRoom most m u).has_room

      leb_false : (a b : ℕ) → leb a b ≡ false → b < a
      leb_false a b h = ground arith

  set_status-IsValid :
      (now : ℕ) (k : Text) (status : TaskStatus) (s : TaskStore V)
      → IsValid s.config s.records
      → IsValid s.config (set_status now k status s).1.records
  unfolding set_status
  set_status-IsValid now k status s v = elim (Bool-cases (is_terminal status)) [
    | inl wrong ↦ rw wrong v
    | inr right ↦ rw right (move_found-IsValid s.config s.records v now k status right)
  ]

  -- The invariant of the store is kept by every call: ids are distinct, each record is stored
  -- under its task's id and has an outcome exactly when its status is terminal, there are at most
  -- `max_records` records (one where the limit is 0), and nobody has more than `max_concurrent`
  -- tasks running. A task is created under a new id, and finished with a terminal status.
  pub perform-IsValid :
      (c : Call V) (s : TaskStore V)
      → IsValid s.config s.records
      → IsLegal c s
      → IsValid s.config (perform c s).records
  unfolding perform get list running is_empty try_result finish set_status_message cancel
  perform-IsValid (create_task now k ttl owner) s v h = create-IsValid now k ttl owner s v
  perform-IsValid (cancel_task now k who) s v h =
      cancel_found-IsValid s.config (sweep now s.records) (sweep-IsValid _ now _ v) now k who
  perform-IsValid (finish_task now k status outcome) s v h =
      finish_found-IsValid s.config s.records v now k status outcome h
  perform-IsValid (move_task now k status) s v h = set_status-IsValid now k status s v
  perform-IsValid (note_task now k message) s v h =
      note_found-IsValid s.config s.records v now k message
  perform-IsValid (get_task now k who) s v h = sweep-IsValid _ now _ v
  perform-IsValid (ask_result now k who) s v h = sweep-IsValid _ now _ v
  perform-IsValid (list_tasks now who) s v h = sweep-IsValid _ now _ v
  perform-IsValid (count_running now) s v h = sweep-IsValid _ now _ v
  perform-IsValid (ask_empty now) s v h = sweep-IsValid _ now _ v

  -- What `try_result` is to say of what `find` yields.
  abbrev pub answer : Text → Option (TaskRecord V) → Result V (Option (TaskOutcome V))
  answer id none = err (not_found id)
  answer id (some r) = ok r.outcome

  -- On a store that keeps the invariant, `try_result` gives the outcome that the record holds,
  -- `none` while the task runs, and the error of a missing task where the requestor has none of
  -- that id: never the internal error that a finished task has no result.
  pub try_result-answer :
      (now : ℕ) (id : Text) (who : Requestor) (s : TaskStore V)
      → IsValid s.config s.records
      → (try_result now id who s).0 ≡ answer id (find id who (sweep now s.records))
  unfolding try_result find
  try_result-answer now id who s v =
      let m = sweep now s.records in
      elim (Option-cases (lookup id m)) [
        | inl gone ↦ rw gone refl
        | inr (r, there) ↦ rw there (elim (Bool-cases (belongs_to who r)) [
          | inr foreign ↦ rw foreign refl
          | inl own ↦
              rw own
                (known r (IsSound-at id m r (sweep-IsValid s.config now s.records v).sound there).1)
        ])
      ]
    where
      known :
          (r : TaskRecord V)
          → terminal r ≡ has_outcome r.outcome
          → result_of id (some r) ≡ answer id (some r)
      known r h = elim (Option-cases r.outcome) [
        | inl e ↦ ground (arith, h, e)
        | inr (o, e) ↦ ground (arith, h, e)
      ]

  create-config :
      (now : ℕ) (k : Text) (ttl : Option ℕ) (owner : Requestor) (s : TaskStore V)
      → (create now k ttl owner s).1.config ≡ s.config
  unfolding create
  create-config now k ttl owner s =
      ground (arith, leb s.config.max_concurrent (running_of owner (sweep now s.records)))

  -- No call changes the configuration, so the invariant of a store lasts from call to call.
  pub perform-config : (c : Call V) (s : TaskStore V) → (perform c s).config ≡ s.config
  unfolding perform get list running is_empty try_result finish set_status_message cancel set_status
  perform-config (create_task now k ttl owner) s = create-config now k ttl owner s
  perform-config (move_task now k status) s = ground (arith, is_terminal status)
  perform-config _ s = refl
