-- ===== src/Http/Sessions.antt =====
-- src/transport/http.rs: `Session` and `Sessions`, the table of what clients established. Times
-- are milliseconds. A session is shared by its entry and the requests in it, so the table holds
-- the place of a session and `cells` what stands there.
pub mod Calls
pub mod Bounds
pub mod Owners
pub mod Evicted
pub mod Leaves
pub mod Isolation
pub mod Visits
use sml_mcps.Prelude.{
  ℕ, zero, suc, ◌+◌, ◌-◌, ◌*◌, Bool, true, false, not, ◌&&◌, ◌||◌, Option, none, some, List, [],
  ◌∷◌, ◌++◌, ltb, ◌==◌, if◌then◌else◌, is_some, length, filter,
}
use sml_mcps.Prelude.Text.{Text, text, text_lt, text_has_eq}
use sml_mcps.Prelude.Assoc.{Assoc, lookup, insert, remove}
use sml_mcps.Server.Logging.{LogLevel, severity}

abbrev pub identity_separator : ℕ
identity_separator = 1

abbrev pub max_sessions : ℕ
max_sessions = 256

abbrev pub session_idle_timeout : ℕ
session_idle_timeout = 30 * 60 * 1000

-- `ClientCapabilities`: how many experimental ones, and which of the others are there.
pub record ClientCapabilities : Type 0 where
  pub experimental : ℕ
  pub sampling : Bool
  pub elicitation : Bool
  pub roots : Bool

-- `tasks` is the place of a task store.
pub record Session : Type 0 where
  pub log_level : Option LogLevel
  pub client_capabilities : ClientCapabilities
  pub negotiated_version : Option Text
  pub initialized : Bool
  pub tasks : Option ℕ

abbrev pub default_session : Session
default_session = record {
  log_level = none;
  client_capabilities = record {
    experimental = 0;
    sampling = false;
    elicitation = false;
    roots = false;
  };
  negotiated_version = none;
  initialized = false;
  tasks = none;
}

-- What a `Server` holds of the session while it answers one request.
pub record ServerState : Type 0 where
  pub level : LogLevel
  pub capabilities : ClientCapabilities
  pub version : Option Text
  pub is_initialized : Bool
  pub task_store : Option ℕ

unfoldable pub declares_something : ClientCapabilities → Bool
declares_something c = not (c.experimental == 0) || (c.sampling || (c.elicitation || c.roots))

abbrev pub or_else : {A : Type 0} → Option A → Option A → Option A
or_else none b = b
or_else (some a) b = some a

abbrev pub level_or : LogLevel → Option LogLevel → LogLevel
level_or level none = level
level_or level (some l) = l

-- The session and the server that it is given to; the first store that a request enables stays.
unfoldable pub restore : Session → ServerState → Session × ServerState
restore s v = (
  record s { tasks = or_else s.tasks v.task_store },
  record {
    level = level_or v.level s.log_level;
    capabilities = s.client_capabilities;
    version = or_else s.negotiated_version v.version;
    is_initialized = s.initialized;
    task_store = or_else s.tasks v.task_store;
  },
)

unfoldable pub absorb : Session → ServerState → LogLevel → Session
unfolding declares_something
absorb s v default_level = record {
  log_level =
      if not (severity v.level == severity default_level) then some v.level else s.log_level;
  client_capabilities =
      if declares_something v.capabilities then v.capabilities else s.client_capabilities;
  negotiated_version = or_else v.version s.negotiated_version;
  initialized = s.initialized || v.is_initialized;
  tasks = s.tasks;
}

pub record SessionEntry : Type 0 where
  pub cell : ℕ
  pub last_used : ℕ

pub record Sessions : Type 0 where
  pub live : Assoc Text SessionEntry
  pub cells : ℕ → Session
  pub next_cell : ℕ

-- `owner_of`, from the subject and the tenant of a token
unfoldable pub owner_of : Text → Text → Text
owner_of user tenant = user ++ identity_separator ∷ tenant

unfoldable pub key : Option Text → Text → Text
key none id = id
key (some owner) id = owner ++ identity_separator ∷ id

unfoldable pub sweep : ℕ → Assoc Text SessionEntry → Assoc Text SessionEntry
sweep now table = filter (λ p. ltb (now - p.1.last_used) session_idle_timeout) table

abbrev pub put : (ℕ → Session) → ℕ → Session → ℕ → Session
put cells k s i = if i == k then s else cells i

abbrev pub found :
    Text → ℕ → Option Text → Sessions → Option SessionEntry → Option (Text × ℕ) × Sessions
found id now owner s none = (none, s)
found id now owner s (some entry) = (
  some (id, entry.cell),
  record s { live = insert (key owner id) (record entry { last_used = now }) s.live },
)

-- `none` is `UnknownSession`; else the id and the place of the session. The time, and the random
-- id for a request that names none, are arguments.
unfoldable pub checkout :
    ℕ → Text → Option Text → Option Text → Sessions → Option (Text × ℕ) × Sessions
unfolding sweep key lookup insert
checkout now fresh owner (some id) s =
    let table = sweep now s.live in
    found id now owner (record s { live = table }) (lookup (key owner id) table)
checkout now fresh owner none s = (
  some (fresh, s.next_cell),
  record s {
    live = sweep now s.live;
    cells = put s.cells s.next_cell default_session;
    next_cell = suc s.next_cell;
  },
)

-- the order of the pairs (last used, key)
unfoldable pub used_before : Text × SessionEntry → Text × SessionEntry → Bool
unfolding text_lt
used_before (i, p) (k, q) =
    if ltb p.last_used q.last_used
    then true
    else if p.last_used == q.last_used
    then text_lt i k
    else false

abbrev pub older_of : Text × SessionEntry → Option (Text × SessionEntry) → Text × SessionEntry
older_of p none = p
older_of p (some q) = if used_before q p then q else p

unfoldable pub oldest : Assoc Text SessionEntry → Option (Text × SessionEntry)
unfolding used_before
oldest [] = none
oldest (p ∷ m) = some (older_of p (oldest m))

-- The fuel is the number of entries.
unfoldable pub evict_loop : ℕ → Assoc Text SessionEntry → Assoc Text SessionEntry
unfolding oldest remove
evict_loop zero table = table
evict_loop (suc fuel) table =
    let victim = oldest table in
    if ltb max_sessions (length table)
    then elim victim [ none ↦ table | some p ↦ evict_loop fuel (remove p.0 table) ]
    else table

unfoldable pub evict_oldest : Assoc Text SessionEntry → Assoc Text SessionEntry
unfolding evict_loop
evict_oldest table = evict_loop (length table) table

-- The parameter says whether the task store at a place is empty, where that is known.
module _ (is_empty : ℕ → Option Bool) where
  abbrev pub holds_tasks : Option ℕ → Bool
  holds_tasks none = false
  holds_tasks (some store) = elim (is_empty store) [ none ↦ false | some empty ↦ not empty ]

  unfoldable pub worth_keeping : Session → Bool
  worth_keeping s =
      s.initialized
      || (is_some s.log_level || (is_some s.negotiated_version || holds_tasks s.tasks))

  unfoldable pub check_in : ℕ → Option Text → Text → ℕ → Sessions → Option Text × Sessions
  unfolding worth_keeping key evict_oldest insert remove
  check_in now owner id cell s =
      if worth_keeping (s.cells cell)
      then (
        some id,
        record s {
          live =
              evict_oldest (insert (key owner id) (record { cell = cell; last_used = now }) s.live);
        },
      )
      else (none, record s { live = remove (key owner id) s.live })

unfoldable pub terminate : Option Text → Text → Sessions → Bool × Sessions
unfolding key lookup remove
terminate owner id s =
    (is_some (lookup (key owner id) s.live), record s { live = remove (key owner id) s.live })
