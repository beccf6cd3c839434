-- ===== src/Tasks/Calls.antt =====
-- The calls of the `TaskStore` of src/tasks.rs, each with the time at which it runs.
use sml_mcps.Prelude.{ℕ, ◌≡◌, true, Option, none}
use sml_mcps.Prelude.Text.{Text, text_has_eq}
use sml_mcps.Prelude.Assoc.{lookup}
use sml_mcps.Tasks.Status.{TaskStatus, is_terminal}
use sml_mcps.Tasks.{TaskOutcome, Requestor}
use sml_mcps.Tasks.Store.{
  TaskStore, create, get, list, running, is_empty, finish, set_status, set_status_message, cancel,
  try_result,
}

pub data Call (V : Type 0) : Type 0 where
  create_task : ℕ → Text → Option ℕ → Requestor → Call V
  get_task cancel_task ask_result : ℕ → Text → Requestor → Call V
  list_tasks : ℕ → Requestor → Call V
  count_running ask_empty : ℕ → Call V
  finish_task : ℕ → Text → TaskStatus → TaskOutcome V → Call V
  move_task : ℕ → Text → TaskStatus → Call V
  note_task : ℕ → Text → Text → Call V

module _ {V : Type 0} where
  unfoldable pub perform : Call V → TaskStore V → TaskStore V
  perform (create_task now id ttl owner) s = (create now id ttl owner s).1
  perform (get_task now id who) s = (get now id who s).1
  perform (cancel_task now id who) s = (cancel now id who s).1
  perform (ask_result now id who) s = (try_result now id who s).1
  perform (list_tasks now who) s = (list now who s).1
  perform (count_running now) s = (running now s).1
  perform (ask_empty now) s = (is_empty now s).1
  perform (finish_task now id status outcome) s = finish now id status outcome s
  perform (move_task now id status) s = (set_status now id status s).1
  perform (note_task now id message) s = set_status_message now id message s

  -- How the server calls: a task is created under an id that is not in use, and finished with a
  -- terminal status.
  abbrev pub IsLegal : Call V → TaskStore V → Type 0
  IsLegal (create_task now id ttl owner) s = lookup id s.records ≡ none
  IsLegal (finish_task now id status outcome) s = is_terminal status ≡ true
  IsLegal _ s = Unit
