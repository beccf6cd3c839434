-- ===== src/Tasks.antt =====
-- src/tasks.rs: the task store. A `SystemTime` is the number of nanoseconds since the Unix
-- epoch, and each operation is given the time that it reads. The mutex is not modelled: an
-- operation runs while it holds it. The `cancelled` flag that a worker shares with its record is
-- the record's field, since only `cancel` writes it.
pub mod Status
pub mod Time
pub mod Records
pub mod Store
pub mod Calls
pub mod Machine
pub mod Valid
pub mod Room
pub mod Owner
pub mod Oldest
pub mod Await
mod Tests
use sml_mcps.Prelude.{
  ℕ, ◌*◌, ◌-◌, ◌≡◌, refl, Bool, true, false, ◌&&◌, not, Option, none, some, ◌++◌, leb,
  if◌then◌else◌,
}
use sml_mcps.Prelude.Text.{Text, text, text_eq, text_eq_iff}
use sml_mcps.Prelude.Assoc.{Assoc}
use sml_mcps.Rpc.{JsonRpcError}
use sml_mcps.Error.{McpError, invalid_params_of}
use sml_mcps.Tasks.Status.{TaskStatus, is_terminal}

pub record Task : Type 0 where
  pub task_id : Text
  pub status : TaskStatus
  pub status_message : Option Text
  pub created_at : Text
  pub last_updated_at : Text
  pub ttl : Option ℕ
  pub poll_interval : Option ℕ

pub record TaskConfig : Type 0 where
  pub default_ttl_ms : ℕ
  pub max_ttl_ms : ℕ
  pub poll_interval_ms : ℕ
  pub max_concurrent : ℕ
  pub max_records : ℕ

abbrev pub default_config : TaskConfig
default_config = record {
  default_ttl_ms = 300000;
  max_ttl_ms = 3600000;
  poll_interval_ms = 1000;
  max_concurrent = 16;
  max_records = 1024;
}

pub data TaskOutcome (V : Type 0) : Type 0 where
  value : V → TaskOutcome V
  error : JsonRpcError V → TaskOutcome V

abbrev pub Requestor : Type 0
Requestor = Option Text

pub record TaskRecord (V : Type 0) : Type 0 where
  pub task : Task
  pub outcome : Option (TaskOutcome V)
  pub created : ℕ
  pub cancelled : Bool
  pub owner : Requestor

abbrev pub requestor_eq : Requestor → Requestor → Bool
requestor_eq none none = true
requestor_eq (some a) (some b) = text_eq a b
requestor_eq _ _ = false

pub requestor_eq_iff : (a b : Requestor) → requestor_eq a b ≡ true → a ≡ b
requestor_eq_iff none none h = refl
requestor_eq_iff none (some b) h = absurd cc
requestor_eq_iff (some a) none h = absurd cc
requestor_eq_iff (some a) (some b) h = rw ((text_eq_iff a b).0 h)

abbrev elapsed : ℕ → ℕ → ℕ → Bool
elapsed created now ttl = leb created now && leb (ttl * 1000000) (now - created)

abbrev expired_after : Option ℕ → ℕ → ℕ → Bool
expired_after none created now = false
expired_after (some ttl) created now = elapsed created now ttl

module _ {V : Type 0} where
  unfoldable pub belongs_to : Requestor → TaskRecord V → Bool
  belongs_to who r = requestor_eq r.owner who

  -- A clock that went back counts as nothing elapsed.
  unfoldable pub expired : ℕ → TaskRecord V → Bool
  expired now r = expired_after r.task.ttl r.created now

  abbrev pub terminal : TaskRecord V → Bool
  terminal r = is_terminal r.task.status

  unfoldable pub not_found : Text → McpError V
  not_found id = invalid_params_of (text "Failed to retrieve task: Task not found: " ++ id)
