-- ===== src/Daemon/Tests.antt =====
-- The theorems on src/transport/daemon_state.rs at small inputs.
use sml_mcps.Prelude.{◌<◌, ◌≡◌, refl, true, false, [], ◌∷◌, arith}
use sml_mcps.Prelude.Decimal.{u64_mod}
use sml_mcps.Daemon.{
  default_conn, starting, in_window, finished, stopping, Daemon, arrives, leaves, looks,
  window_ends, answers, admit, release, request_shutdown, after_window, after_check, from_top,
  watcher, step, run,
}
use sml_mcps.Daemon.Counts.{admissions, RunCounted, run-RunCounted}
use sml_mcps.Daemon.Idle.{StaysInWindow, IsIdle, run-IsIdle, quiet, run_idle_stops}

abbrev fresh : Daemon
fresh = record { conn = default_conn; phase = starting }

abbrev idle : Daemon
idle = record { conn = default_conn; phase = in_window 0 }

none_admitted : admissions true (window_ends true ∷ []) idle ≡ 0
unfolding admissions
none_admitted = refl

-- A client that comes and goes in the window keeps the daemon up.
visited : (run true (arrives 4 ∷ leaves ∷ window_ends true ∷ []) idle).phase ≡ in_window 1
unfolding run step watcher admit release after_window from_top
visited = refl

stays : StaysInWindow true 0 (window_ends true ∷ []) idle
unfolding step watcher after_window
stays = (refl, refl)

decides : (step true (answers false) (run true (window_ends true ∷ []) idle)).phase ≡ stopping
unfolding run step watcher after_window after_check
decides = refl

few : admissions true (window_ends true ∷ []) idle < u64_mod
few = omega (arith, none_admitted)

run-RunCounted_example :
    RunCounted 4
      (admissions true (looks ∷ arrives 4 ∷ leaves ∷ []) fresh)
      fresh
      (run true (looks ∷ arrives 4 ∷ leaves ∷ []) fresh)
run-RunCounted_example = run-RunCounted 4 true (looks ∷ arrives 4 ∷ leaves ∷ []) fresh (refl, tt)

run-IsIdle_example :
    (admissions true (window_ends true ∷ []) idle ≡ 0)
    × IsIdle true 0 (answers false) (run true (window_ends true ∷ []) idle).conn
run-IsIdle_example =
    run-IsIdle 4 true (window_ends true ∷ []) (answers false) idle tt (omega arith) few stays
      decides

run_idle_stops_example :
    run true (quiet true) fresh ≡ record { conn = request_shutdown default_conn; phase = finished }
run_idle_stops_example = run_idle_stops true default_conn refl refl
