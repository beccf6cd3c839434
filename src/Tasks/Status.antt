-- ===== src/Tasks/Status.antt =====
-- `TaskStatus` of src/tasks.rs.
use sml_mcps.Prelude.{Bool, true, false, not}
use sml_mcps.Prelude.Text.{Text, text}

pub data TaskStatus : Type 0 where
  working input_required completed failed cancelled : TaskStatus

unfoldable pub is_terminal : TaskStatus → Bool
is_terminal completed = true
is_terminal failed = true
is_terminal cancelled = true
is_terminal _ = false

abbrev pub status_eq : TaskStatus → TaskStatus → Bool
status_eq working working = true
status_eq input_required input_required = true
status_eq completed completed = true
status_eq failed failed = true
status_eq cancelled cancelled = true
status_eq _ _ = false

unfoldable pub can_transition_to : TaskStatus → TaskStatus → Bool
can_transition_to working next = not (status_eq next working)
can_transition_to input_required next = not (status_eq next input_required)
can_transition_to _ next = false

unfoldable pub status_name : TaskStatus → Text
status_name working = text "working"
status_name input_required = text "input_required"
status_name completed = text "completed"
status_name failed = text "failed"
status_name cancelled = text "cancelled"
