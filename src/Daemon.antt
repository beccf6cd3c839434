-- ===== src/Daemon.antt =====
-- src/transport/daemon_state.rs: the count of connections, and the thread that stops an idle
-- daemon. What a thread does while it holds the lock is one event. No lock is poisoned, and the
-- listeners that `request_shutdown` wakes are not modelled.
pub mod Counts
pub mod Idle
mod Tests
use sml_mcps.Prelude.{
  ℕ, ◌+◌, ◌-◌, ◌%◌, Bool, true, false, ◌&&◌, ◌||◌, not, List, [], ◌∷◌, leb, ltb, ◌==◌,
  if◌then◌else◌,
}
use sml_mcps.Prelude.Decimal.{u64_mod}

pub record ConnState : Type 0 where
  pub active : ℕ
  pub generation : ℕ
  pub shutdown : Bool

abbrev pub default_conn : ConnState
default_conn = record { active = 0; generation = 0; shutdown = false }

pub data Admission : Type 0 where
  admitted full shutting_down : Admission

-- `ConnState::admit`. `active` stays below `max`, a `usize`; `generation` wraps around.
unfoldable pub admit : ℕ → ConnState → Admission × ConnState
admit max c =
    if c.shutdown
    then (shutting_down, c)
    else if leb max c.active
    then (full, c)
    else (admitted, record c { active = c.active + 1; generation = (c.generation + 1) % u64_mod })

-- `release`, and the drop of an `ActiveGuard`
unfoldable pub release : ConnState → ConnState
release c = record c { active = c.active - 1 }

-- `request_shutdown`
unfoldable pub request_shutdown : ConnState → ConnState
request_shutdown c = record c { shutdown = true }

-- Where the idle watcher is: before its loop, asleep until something changes, in the window of
-- the timeout, waiting for the application's answer, about to stop the daemon, or at its end. The
-- number is `gen_at_idle`.
pub data Phase : Type 0 where
  starting waiting : Phase
  in_window asking : ℕ → Phase
  stopping finished : Phase

pub record Daemon : Type 0 where
  pub conn : ConnState
  pub phase : Phase

-- The loop from its top to the point where it waits.
unfoldable pub from_top : ConnState → Phase
from_top c =
    if ltb 0 c.active && not c.shutdown
    then waiting
    else if c.shutdown
    then finished
    else in_window c.generation

-- When `wait_timeout` returns.
unfoldable pub after_window : Bool → Bool → ℕ → ConnState → Phase
after_window has_busy timed_out gen_at_idle c =
    if c.shutdown
    then finished
    else if not (timed_out && c.active == 0 && c.generation == gen_at_idle)
    then from_top c
    else if has_busy
    then asking gen_at_idle
    else stopping

-- When the application has answered.
unfoldable pub after_check : Bool → ℕ → ConnState → Phase
after_check busy_now gen_at_idle c =
    if c.shutdown
    then finished
    else if busy_now || not (c.active == 0) || not (c.generation == gen_at_idle)
    then from_top c
    else stopping

-- What happens under the lock: a connection is accepted, with the ceiling `max`, a connection
-- ends, someone asks for a shutdown; and of the watcher, that it looks, that its window ends, that
-- the application answers, and that it stops the daemon.
pub data Event : Type 0 where
  arrives : ℕ → Event
  leaves asks : Event
  looks : Event
  window_ends answers : Bool → Event
  stops : Event

-- A step of the watcher; one that is not due does nothing.
unfoldable pub watcher : Bool → Event → Phase → ConnState → Daemon
watcher has_busy looks starting c = record { conn = c; phase = from_top c }
watcher has_busy looks waiting c = record { conn = c; phase = from_top c }
watcher has_busy (window_ends timed_out) (in_window g) c = record {
  conn = c;
  phase = after_window has_busy timed_out g c;
}
watcher has_busy (answers busy_now) (asking g) c = record {
  conn = c;
  phase = after_check busy_now g c;
}
watcher has_busy stops stopping c = record { conn = request_shutdown c; phase = finished }
watcher has_busy e p c = record { conn = c; phase = p }

unfoldable pub step : Bool → Event → Daemon → Daemon
step has_busy (arrives max) d = record d { conn = (admit max d.conn).1 }
step has_busy leaves d = record d { conn = release d.conn }
step has_busy asks d = record d { conn = request_shutdown d.conn }
step has_busy e d = watcher has_busy e d.phase d.conn

unfoldable pub run : Bool → List Event → Daemon → Daemon
run has_busy [] d = d
run has_busy (e ∷ es) d = run has_busy es (step has_busy e d)
