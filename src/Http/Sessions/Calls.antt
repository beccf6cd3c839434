-- ===== src/Http/Sessions/Calls.antt =====
-- src/transport/http.rs: the calls that requests make of the table, in the order of its lock.
use sml_mcps.Prelude.{ℕ, Bool, Option, List, [], ◌∷◌}
use sml_mcps.Prelude.Text.{Text}
use sml_mcps.Http.Sessions.{Sessions, checkout, check_in, terminate}

-- Of `check_out`: the time, an unused id, the owner, and the id that the request names, if any.
pub data Call : Type 0 where
  check_out : ℕ → Text → Option Text → Option Text → Call
  check_back : ℕ → Option Text → Text → ℕ → Call
  end_session : Option Text → Text → Call

abbrev pub caller : Call → Option Text
caller (check_out now fresh owner id) = owner
caller (check_back now owner id cell) = owner
caller (end_session owner id) = owner

module _ (is_empty : ℕ → Option Bool) where
  unfoldable pub step : Call → Sessions → Sessions
  unfolding checkout check_in terminate
  step (check_out now fresh owner id) s = (checkout now fresh owner id s).1
  step (check_back now owner id cell) s = (check_in is_empty now owner id cell s).1
  step (end_session owner id) s = (terminate owner id s).1

  unfoldable pub run_calls : List Call → Sessions → Sessions
  unfolding step
  run_calls [] s = s
  run_calls (c ∷ cs) s = run_calls cs (step c s)
