-- ===== src/Tasks/Store.antt =====
-- `TaskStore` of src/tasks.rs: its operations on the map of records.
use sml_mcps.Prelude.{
  ℕ, min, Bool, true, false, not, Option, none, some, List, ◌++◌, map, leb, ◌==◌, if◌then◌else◌,
  length, filter,
}
use sml_mcps.Prelude.Text.{Text, text, text_has_eq}
use sml_mcps.Prelude.Decimal.{show}
use sml_mcps.Prelude.Assoc.{lookup, insert}
use sml_mcps.Rpc.{internal_error}
use sml_mcps.Error.{McpError, Result, ok, err, internal, invalid_params_of}
use sml_mcps.Tasks.Status.{
  TaskStatus, working, cancelled, is_terminal, can_transition_to, status_name,
}
use sml_mcps.Tasks.Time.{iso8601}
use sml_mcps.Tasks.{
  Task, TaskConfig, TaskOutcome, value, error, Requestor, TaskRecord, belongs_to, terminal,
  not_found,
}
use sml_mcps.Tasks.Records.{Records, sort_by, newer_first, sweep, make_room, running_of}

pub record TaskStore (V : Type 0) : Type 0 where
  pub records : Records V
  pub config : TaskConfig

abbrev asked_ttl : Option ℕ → ℕ → ℕ
asked_ttl none d = d
asked_ttl (some t) d = t

abbrev pub new_task : ℕ → Text → Option ℕ → TaskConfig → Task
new_task now id requested_ttl c = record {
  task_id = id;
  status = working;
  status_message = none;
  created_at = iso8601 now;
  last_updated_at = iso8601 now;
  ttl = some (min (asked_ttl requested_ttl c.default_ttl_ms) c.max_ttl_ms);
  poll_interval = some c.poll_interval_ms;
}

module _ {V : Type 0} where
  -- `running`, for all requestors together
  unfoldable pub running : ℕ → TaskStore V → Result V ℕ × TaskStore V
  running now s =
      let m = sweep now s.records in
      (ok (length (filter (λ p. not (terminal p.1)) m)), record s { records = m })

  unfoldable pub is_empty : ℕ → TaskStore V → Result V Bool × TaskStore V
  is_empty now s = let m = sweep now s.records in (ok (length m == 0), record s { records = m })

  abbrev pub new_record : ℕ → Task → Requestor → TaskRecord V
  new_record now task owner = record {
    task = task;
    outcome = none;
    created = now;
    cancelled = false;
    owner = owner;
  }

  unfoldable pub too_many : ℕ → ℕ → McpError V
  too_many n most =
      internal
        (text "too many tasks in flight (" ++ (show n ++ (text "/" ++ (show most ++ text ")"))))

  unfoldable pub store_full : ℕ → McpError V
  store_full most = internal (text "the task store is full (" ++ (show most ++ text " records)"))

  abbrev pub create_in :
      ℕ → Text → Task → Requestor → ℕ → Bool × Records V → Result V Task × Records V
  create_in now id task owner most (false, m) = (err (store_full most), m)
  create_in now id task owner most (true, m) = (ok task, insert id (new_record now task owner) m)

  -- `id` is what `new_task_id` yields.
  unfoldable pub create :
      ℕ → Text → Option ℕ → Requestor → TaskStore V → Result V Task × TaskStore V
  create now id requested_ttl owner s =
      let m = sweep now s.records in
      let n = running_of owner m in
      if leb s.config.max_concurrent n
      then (err (too_many n s.config.max_concurrent), record s { records = m })
      else let (result, m') =
          create_in now id (new_task now id requested_ttl s.config) owner s.config.max_records
            (make_room s.config.max_records m) in
        (result, record s { records = m' })

  -- `tasks.get(id).filter(|record| record.belongs_to(requestor))`
  abbrev pub if_owned : Requestor → Option (TaskRecord V) → Option (TaskRecord V)
  if_owned who none = none
  if_owned who (some r) = if belongs_to who r then some r else none

  unfoldable pub find : Text → Requestor → Records V → Option (TaskRecord V)
  find id who m = if_owned who (lookup id m)

  abbrev pub task_or : Text → Option (TaskRecord V) → Result V Task
  task_or id none = err (not_found id)
  task_or id (some r) = ok r.task

  unfoldable pub get : ℕ → Text → Requestor → TaskStore V → Result V Task × TaskStore V
  get now id who s =
      let m = sweep now s.records in (task_or id (find id who m), record s { records = m })

  unfoldable pub list : ℕ → Requestor → TaskStore V → Result V (List Task) × TaskStore V
  list now who s =
      let m = sweep now s.records in
      (
        ok (sort_by newer_first (map (λ p. p.1.task) (filter (λ p. belongs_to who p.1) m))),
        record s { records = m },
      )

  abbrev pub error_message : Option Text → TaskOutcome V → Option Text
  error_message old (value v) = old
  error_message old (error e) = some e.message

  abbrev pub finished : ℕ → TaskStatus → TaskOutcome V → TaskRecord V → TaskRecord V
  finished now status outcome r = record r {
    task = record r.task {
      status = status;
      last_updated_at = iso8601 now;
      status_message = error_message r.task.status_message outcome;
    };
    outcome = some outcome;
  }

  abbrev pub finish_found :
      ℕ → Text → TaskStatus → TaskOutcome V → Option (TaskRecord V) → Records V → Records V
  finish_found now id status outcome none m = m
  finish_found now id status outcome (some r) m =
      if terminal r then m else insert id (finished now status outcome r) m

  unfoldable pub finish : ℕ → Text → TaskStatus → TaskOutcome V → TaskStore V → TaskStore V
  finish now id status outcome s = record s {
    records = finish_found now id status outcome (lookup id s.records) s.records;
  }

  abbrev pub moved : ℕ → TaskStatus → TaskRecord V → TaskRecord V
  moved now status r = record r {
    task = record r.task { status = status; last_updated_at = iso8601 now };
  }

  abbrev pub move_found :
      ℕ → Text → TaskStatus → Option (TaskRecord V) → Records V → Bool × Records V
  move_found now id status none m = (false, m)
  move_found now id status (some r) m =
      if not (can_transition_to r.task.status status)
      then (false, m)
      else (true, insert id (moved now status r) m)

  unfoldable pub set_status : ℕ → Text → TaskStatus → TaskStore V → Result V Bool × TaskStore V
  set_status now id status s =
      if is_terminal status
      then (
        err (internal (text "use finish() to move task " ++ (id ++ text " to a terminal status"))),
        s,
      )
      else let (done, m) = move_found now id status (lookup id s.records) s.records in
        (ok done, record s { records = m })

  abbrev pub noted : ℕ → Text → TaskRecord V → TaskRecord V
  noted now message r = record r {
    task = record r.task { status_message = some message; last_updated_at = iso8601 now };
  }

  abbrev pub note_found : ℕ → Text → Text → Option (TaskRecord V) → Records V → Records V
  note_found now id message none m = m
  note_found now id message (some r) m = if terminal r then m else insert id (noted now message r) m

  unfoldable pub set_status_message : ℕ → Text → Text → TaskStore V → TaskStore V
  set_status_message now id message s = record s {
    records = note_found now id message (lookup id s.records) s.records;
  }

  abbrev pub cancelled_record : ℕ → TaskRecord V → TaskRecord V
  cancelled_record now r = record r {
    cancelled = true;
    task = record r.task {
      status = cancelled;
      status_message = some (text "The task was cancelled by request.");
      last_updated_at = iso8601 now;
    };
    outcome = some (error (internal_error (text "Task was cancelled")));
  }

  unfoldable pub already_terminal : TaskStatus → McpError V
  already_terminal status =
      invalid_params_of (
        text "Cannot cancel task: already in terminal status '" ++ (status_name status ++ text "'"))

  abbrev pub cancel_found : ℕ → Text → Option (TaskRecord V) → Records V → Result V Task × Records V
  cancel_found now id none m = (err (not_found id), m)
  cancel_found now id (some r) m =
      if terminal r
      then (err (already_terminal r.task.status), m)
      else (ok (cancelled_record now r).task, insert id (cancelled_record now r) m)

  unfoldable pub cancel : ℕ → Text → Requestor → TaskStore V → Result V Task × TaskStore V
  cancel now id who s =
      let m = sweep now s.records in
      let (result, m') = cancel_found now id (find id who m) m in
      (result, record s { records = m' })

  unfoldable pub no_result : Text → McpError V
  no_result id = internal (text "task " ++ (id ++ text " is terminal but has no result"))

  abbrev pub outcome_or : Text → Option (TaskOutcome V) → Result V (Option (TaskOutcome V))
  outcome_or id none = err (no_result id)
  outcome_or id (some o) = ok (some o)

  abbrev pub result_of : Text → Option (TaskRecord V) → Result V (Option (TaskOutcome V))
  result_of id none = err (not_found id)
  result_of id (some r) = if not (terminal r) then ok none else outcome_or id r.outcome

  unfoldable pub try_result :
      ℕ → Text → Requestor → TaskStore V → Result V (Option (TaskOutcome V)) × TaskStore V
  try_result now id who s =
      let m = sweep now s.records in (result_of id (find id who m), record s { records = m })
