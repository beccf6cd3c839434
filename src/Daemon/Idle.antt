-- ===== src/Daemon/Idle.antt =====
-- When the idle watcher of src/transport/daemon_state.rs stops the daemon.
use sml_mcps.Prelude.{ℕ, ◌<◌, ◌≡◌, refl, sym, ◌∙◌, ap, Bool, true, false, List, [], ◌∷◌, arith}
use sml_mcps.Prelude.Decimal.{u64_mod}
use sml_mcps.Daemon.{
  ConnState, request_shutdown, Phase, starting, in_window, asking, stopping, finished, Daemon,
  Event, arrives, leaves, asks, looks, window_ends, answers, stops, watcher, after_window,
  after_check, from_top, step, run,
}
use sml_mcps.Daemon.Counts.{admissions, RespectsCeiling, run-RunCounted}

-- The watcher is in the window that it opened at this generation.
abbrev pub IsInWindow : ℕ → Phase → Type 0
IsInWindow g (in_window k) = k ≡ g
IsInWindow g (asking k) = k ≡ g
IsInWindow g _ = ⊥

-- It stays there at each point of the run.
abbrev pub StaysInWindow : Bool → ℕ → List Event → Daemon → Type 0
StaysInWindow has_busy g [] d = IsInWindow g d.phase
StaysInWindow has_busy g (e ∷ es) d =
    IsInWindow g d.phase × StaysInWindow has_busy g es (step has_busy e d)

pub record IsIdle (has_busy : Bool) (g : ℕ) (e : Event) (c : ConnState) : Type 0 where
  pub nobody : c.active ≡ 0
  pub not_shut : c.shutdown ≡ false
  pub nobody_came : c.generation ≡ g
  pub not_busy : has_busy ≡ true → e ≡ answers false

from_top-not_stopping : (c : ConnState) → from_top c ≡ stopping → ⊥
unfolding from_top
from_top-not_stopping c h = ground arith

after_window-IsIdle :
    (has_busy timed_out : Bool) (g : ℕ) (c : ConnState)
    → after_window has_busy timed_out g c ≡ stopping
    → IsIdle has_busy g (window_ends timed_out) c
unfolding after_window
after_window-IsIdle has_busy timed_out g c h =
    let no = from_top-not_stopping c in
    record {
      nobody = ground (arith, no);
      not_shut = ground (arith, no);
      nobody_came = ground (arith, no);
      not_busy = ground (arith, no);
    }

after_check-IsIdle :
    (has_busy busy_now : Bool) (g : ℕ) (c : ConnState)
    → after_check busy_now g c ≡ stopping
    → IsIdle has_busy g (answers busy_now) c
unfolding after_check
after_check-IsIdle has_busy busy_now g c h =
    let no = from_top-not_stopping c in
    record {
      nobody = ground (arith, no);
      not_shut = ground (arith, no);
      nobody_came = ground (arith, no);
      not_busy = λ _. ap answers (ground (arith, no));
    }

IsInWindow-not_stopping : (g : ℕ) (p : Phase) → IsInWindow g p → p ≡ stopping → ⊥
IsInWindow-not_stopping g (in_window k) w h = cc
IsInWindow-not_stopping g (asking k) w h = cc
IsInWindow-not_stopping g _ w h = w

watcher-IsIdle :
    (has_busy : Bool) (e : Event) (g : ℕ) (p : Phase) (c : ConnState)
    → IsInWindow g p
    → (watcher has_busy e p c).phase ≡ stopping
    → IsIdle has_busy g e c
unfolding watcher
watcher-IsIdle has_busy (window_ends t) g (in_window k) c w h =
    after_window-IsIdle has_busy t g c (ap (λ x. after_window has_busy t x c) (sym w) ∙ h)
watcher-IsIdle has_busy _ g (in_window k) c w h =
    absurd (IsInWindow-not_stopping g (in_window k) w h)
watcher-IsIdle has_busy (answers b) g (asking k) c w h =
    after_check-IsIdle has_busy b g c (ap (λ x. after_check b x c) (sym w) ∙ h)
watcher-IsIdle has_busy _ g (asking k) c w h = absurd (IsInWindow-not_stopping g (asking k) w h)
watcher-IsIdle has_busy e g _ c w h = absurd w

step-IsIdle :
    (has_busy : Bool) (e : Event) (g : ℕ) (d : Daemon)
    → IsInWindow g d.phase
    → (step has_busy e d).phase ≡ stopping
    → IsIdle has_busy g e d.conn
unfolding step
step-IsIdle has_busy (arrives max) g d w h = absurd (IsInWindow-not_stopping g d.phase w h)
step-IsIdle has_busy leaves g d w h = absurd (IsInWindow-not_stopping g d.phase w h)
step-IsIdle has_busy asks g d w h = absurd (IsInWindow-not_stopping g d.phase w h)
step-IsIdle has_busy looks g d w h = watcher-IsIdle has_busy looks g d.phase d.conn w h
step-IsIdle has_busy (window_ends t) g d w h =
    watcher-IsIdle has_busy (window_ends t) g d.phase d.conn w h
step-IsIdle has_busy (answers b) g d w h = watcher-IsIdle has_busy (answers b) g d.phase d.conn w h
step-IsIdle has_busy stops g d w h = watcher-IsIdle has_busy stops g d.phase d.conn w h

StaysInWindow-run :
    (has_busy : Bool) (g : ℕ) (es : List Event) (d : Daemon)
    → StaysInWindow has_busy g es d
    → IsInWindow g (run has_busy es d).phase
unfolding run
StaysInWindow-run has_busy g [] d h = h
StaysInWindow-run has_busy g (e ∷ es) d h = StaysInWindow-run has_busy g es (step has_busy e d) h.1

-- The watcher decides to stop the daemon only where, from the opening of its window on, no
-- connection was admitted, none is live, no shutdown was asked for, and, with a busy check, the
-- application has just answered that it is not busy: for any run of events that the watcher
-- spends in one window, with fewer than 2 ^ 64 connections admitted.
pub run-IsIdle :
    (most : ℕ) (has_busy : Bool) (es : List Event) (e : Event) (d : Daemon)
    → RespectsCeiling most es
    → d.conn.generation < u64_mod
    → admissions has_busy es d < u64_mod
    → StaysInWindow has_busy d.conn.generation es d
    → (step has_busy e (run has_busy es d)).phase ≡ stopping
    → (admissions has_busy es d ≡ 0) × IsIdle has_busy d.conn.generation e (run has_busy es d).conn
run-IsIdle most has_busy es e d ceiling small few stays h =
    let g = d.conn.generation in
    let last = run has_busy es d in
    let idle = step-IsIdle has_busy e g last (StaysInWindow-run has_busy g es d stays) h in
    let counted = run-RunCounted most has_busy es d ceiling in
    (omega (arith, counted.numbered, idle.nobody_came, small, few), idle)

watcher_due :
    (has_busy : Bool) (c : ConnState)
    → c.active ≡ 0
    → c.shutdown ≡ false
    → (from_top c ≡ in_window c.generation)
      × (after_window true true c.generation c ≡ asking c.generation)
      × (after_window false true c.generation c ≡ stopping)
      × (after_check false c.generation c ≡ stopping)
unfolding from_top after_window after_check
watcher_due has_busy c n s = (ground arith, ground arith, ground arith, ground arith)

-- The events of one idle window, without and with a busy check.
abbrev pub quiet : Bool → List Event
quiet false = looks ∷ window_ends true ∷ stops ∷ []
quiet true = looks ∷ window_ends true ∷ answers false ∷ stops ∷ []

-- A daemon that nobody is connected to or has asked to shut down does stop: one window of the watcher passes, the
-- application, where it is asked, answers that it is not busy, and the shutdown is requested.
pub run_idle_stops :
    (has_busy : Bool) (c : ConnState)
    → c.active ≡ 0
    → c.shutdown ≡ false
    → run has_busy (quiet has_busy) (record { conn = c; phase = starting })
      ≡ record { conn = request_shutdown c; phase = finished }
unfolding run step watcher
run_idle_stops false c n s = let due = watcher_due false c n s in rw (due.0, due.2) refl
run_idle_stops true c n s = let due = watcher_due true c n s in rw (due.0, due.1, due.3) refl
