-- ===== src/Tasks/Tests.antt =====
-- Runs of src/tasks.rs on small stores, and its theorems at inputs that meet their conditions.
use sml_mcps.Prelude.{
  is_some, ℕ, ◌≤◌, ◌≡◌, refl, List, true, false, none, some, [], ◌∷◌, arith, Bool-cases, inl, inr,
}
use sml_mcps.Prelude.Text.{text, Text, text_has_eq, text_eq}
use sml_mcps.Prelude.Assoc.{lookup, insert, remove}
use sml_mcps.Prelude.Keys.{IsDistinct}
use sml_mcps.Rpc.{internal_error}
use sml_mcps.Error.{ok}
use sml_mcps.Tasks.Status.{working, cancelled, completed, is_terminal}
use sml_mcps.Tasks.{
  Task, TaskConfig, TaskRecord, Requestor, error, value, requestor_eq, belongs_to, expired,
}
use sml_mcps.Tasks.Records.{Records, sweep, make_room, make_room_from, oldest_terminal, running_of}
use sml_mcps.Tasks.Room.{MakesRoom, make_room-MakesRoom}
use sml_mcps.Tasks.Store.{TaskStore, find, cancel, finish}
use sml_mcps.Tasks.Calls.{create_task, cancel_task, finish_task, perform}
use sml_mcps.Tasks.Machine.{Progress}
use sml_mcps.Tasks.Machine.Perform.{perform-Progress}
use sml_mcps.Tasks.Valid.{IsValid}
use sml_mcps.Tasks.Valid.Perform.{perform-IsValid}
use sml_mcps.Tasks.Await.{
  Round, perform_all, await_result, EndsIn, await_result-EndsIn, await_result_ends,
}
use sml_mcps.Tasks.Owner.{visible, IsPrivate, answers-IsPrivate, cancel-visible}

abbrev small : TaskConfig
small = record {
  default_ttl_ms = 5000;
  max_ttl_ms = 60000;
  poll_interval_ms = 1000;
  max_concurrent = 2;
  max_records = 2;
}

abbrev task_named : Text → Task
task_named id = record {
  task_id = id;
  status = working;
  status_message = none;
  created_at = text "1970-01-01T00:00:00Z";
  last_updated_at = text "1970-01-01T00:00:00Z";
  ttl = some 5000;
  poll_interval = some 1000;
}

abbrev alice : Requestor
alice = some (text "alice")

abbrev bob : Requestor
bob = some (text "bob")

abbrev busy_record : TaskRecord ℕ
busy_record = record {
  task = task_named (text "t1");
  outcome = none;
  created = 1;
  cancelled = false;
  owner = alice;
}

abbrev old_record : TaskRecord ℕ
old_record = record {
  task = record (task_named (text "t0")) { status = cancelled };
  outcome = some (error (internal_error (text "Task was cancelled")));
  created = 0;
  cancelled = true;
  owner = bob;
}

abbrev full : Records ℕ
full = (text "t1", busy_record) ∷ (text "t0", old_record) ∷ []

abbrev store : TaskStore ℕ
store = record { records = full; config = small }

abbrev alone : TaskStore ℕ
alone = record { records = (text "t1", busy_record) ∷ []; config = small }

full-IsDistinct : IsDistinct full
unfolding lookup text text_eq
full-IsDistinct = (refl, (refl, tt))

alone-IsDistinct : IsDistinct alone.records
unfolding lookup text text_eq
alone-IsDistinct = (refl, tt)

full_new : lookup (text "t2") full ≡ none
unfolding lookup text text_eq
full_new = refl

-- The finished record makes room for a new one.
full_makes_room : make_room 2 full ≡ (true, (text "t1", busy_record) ∷ [])
unfolding make_room make_room_from oldest_terminal is_terminal remove text text_eq
full_makes_room = refl

one_each : (who : Requestor) → running_of who full ≤ 2
unfolding running_of is_terminal belongs_to
one_each who = elim (Bool-cases (requestor_eq alice who)) [
  | inl own ↦ rw own (omega arith)
  | inr other ↦ rw other (omega arith)
]

full-IsValid : IsValid small full
unfolding is_terminal text
full-IsValid = record {
  distinct = full-IsDistinct;
  sound = ((refl, refl), ((refl, refl), tt));
  bounded = omega arith;
  fair = one_each;
}

same_for_alice : visible alice full ≡ visible alice alone.records
unfolding belongs_to text text_eq
same_for_alice = refl

apart : requestor_eq bob alice ≡ false
unfolding text text_eq
apart = refl

make_room-MakesRoom_example : MakesRoom 2 full (make_room 2 full).0 (make_room 2 full).1
make_room-MakesRoom_example = make_room-MakesRoom 2 full full-IsDistinct

perform-Progress_example :
    Progress
      (lookup (text "t1") full)
      (lookup (text "t1") (perform (cancel_task 7 (text "t1") alice) store).records)
perform-Progress_example =
    perform-Progress (cancel_task 7 (text "t1") alice) store (text "t1") full-IsDistinct tt

perform-IsValid_example :
    IsValid small (perform (create_task 7 (text "t2") none alice) store).records
perform-IsValid_example =
    perform-IsValid (create_task 7 (text "t2") none alice) store full-IsValid full_new

answers-IsPrivate_example : IsPrivate 7 (text "t0") alice store alone
answers-IsPrivate_example =
    answers-IsPrivate 7 (text "t0") alice store alone full-IsDistinct alone-IsDistinct
      same_for_alice

cancel-visible_example :
    visible alice (cancel 7 (text "t1") bob store).1.records ≡ sweep 7 (visible alice full)
cancel-visible_example = cancel-visible 7 (text "t1") bob alice store full-IsDistinct apart

-- The worker finishes the task while its owner waits.
abbrev rounds : List (Round ℕ)
rounds =
    record { others = []; now = 7; overdue = false }
    ∷ record {
      others = finish_task 8 (text "t1") completed (value 42) ∷ [];
      now = 9;
      overdue = true;
    }
    ∷ []

rounds_settle : (await_result (text "t1") alice rounds store).0 ≡ some (ok (value 42))
unfolding await_result perform_all perform finish find sweep expired belongs_to is_terminal lookup
    insert remove text text_eq
rounds_settle = refl

completed_terminal : is_terminal completed ≡ true
unfolding is_terminal
completed_terminal = refl

await_result_ends_example : is_some (await_result (text "t1") alice rounds store).0 ≡ true
await_result_ends_example = await_result_ends (text "t1") alice rounds store (inr (inl refl))

await_result-EndsIn_example :
    EndsIn
      (text "t1")
      alice
      rounds
      (ok (value 42))
      store
      (await_result (text "t1") alice rounds store).1
await_result-EndsIn_example =
    await_result-EndsIn (text "t1") alice rounds store (ok (value 42)) full-IsValid
      (tt, ((completed_terminal, tt), tt)) rounds_settle
