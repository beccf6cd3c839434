-- ===== src/Http/Process.antt =====
-- src/transport/http.rs: `process_request` and `guarded`, one message in a server of its own. The
-- server's `process_one` with the tools is a parameter, and so is the user's setup; both may panic.
use sml_mcps.Prelude.{false, Option, none, ◌++◌}
use sml_mcps.Prelude.Text.{Text, text}
use sml_mcps.Error.{McpError, internal}
use sml_mcps.Error
use sml_mcps.Server.Logging.{LogLevel}
use sml_mcps.Http1.{Outcome, ok, err}
use sml_mcps.Http.{HttpTransport, new_transport, Processed, answer_from}
use sml_mcps.Http.Sessions.{ClientCapabilities, Session, ServerState, restore, absorb}

-- Code that may panic gives `err` with the message of the panic.
abbrev pub Caught : Type 0 → Type 0
Caught A = Outcome Text A

abbrev pub no_capabilities : ClientCapabilities
no_capabilities = record { experimental = 0; sampling = false; elicitation = false; roots = false }

-- `Server::new`
abbrev pub fresh_server : LogLevel → ServerState
fresh_server level = record {
  level = level;
  capabilities = no_capabilities;
  version = none;
  is_initialized = false;
  task_store = none;
}

-- What `process_one` leaves of the transport and of the server, with its result.
abbrev pub Processing : Type 0 → Type 0
Processing V = Error.Result V (Unit {0}) × HttpTransport × ServerState

-- The outcome, and the session as it stands then.
abbrev pub Outcomes : Type 0 → Type 0
Outcomes V = Error.Result V Processed × Session

module _ {V Ctx : Type 0} (default_level : LogLevel)
    (setup : ServerState → Caught (Error.Result V ServerState))
    (process_one : Ctx → Option Text → ServerState → HttpTransport → Caught (Processing V)) where
  abbrev pub panicked : Session → Text → Outcomes V
  panicked s why = (Error.err (internal (text "request handler panicked: " ++ why)), s)

  abbrev pub outcome_of : Error.Result V (Unit {0}) → HttpTransport → Error.Result V Processed
  outcome_of (Error.err e) t = Error.err e
  outcome_of (Error.ok u) t = Error.ok (answer_from t)

  abbrev pub absorbed : Session → Caught (Processing V) → Outcomes V
  absorbed s (err why) = panicked s why
  absorbed s (ok (result, t, v)) = (outcome_of result t, absorb s v default_level)

  abbrev pub dispatched : Ctx → Option Text → Text → Session × ServerState → Outcomes V
  dispatched ctx owner body (s, v) = absorbed s (process_one ctx owner v (new_transport body))

  abbrev pub set_up :
      Ctx → Option Text → Text → Session → Caught (Error.Result V ServerState) → Outcomes V
  set_up ctx owner body s (err why) = panicked s why
  set_up ctx owner body s (ok (Error.err e)) = (Error.err e, s)
  set_up ctx owner body s (ok (Error.ok v)) = dispatched ctx owner body (restore s v)

  -- `process_request`, the owner being what the task context holds
  unfoldable pub process_request : Ctx → Option Text → Text → Session → Outcomes V
  unfolding restore absorb answer_from new_transport
  process_request ctx owner body s = set_up ctx owner body s (setup (fresh_server default_level))

  unfoldable pub guarded : Caught Ctx → Option Text → Text → Session → Outcomes V
  unfolding process_request
  guarded (err why) owner body s = panicked s why
  guarded (ok ctx) owner body s = process_request ctx owner body s
