-- ===== src/Daemon/Counts.antt =====
-- The count of connections of src/transport/daemon_state.rs, over any run of the daemon.
use sml_mcps.Prelude.{ℕ, ◌+◌, ◌%◌, ◌≤◌, ◌≡◌, refl, Bool, true, List, [], ◌∷◌, arith}
use sml_mcps.Prelude.Decimal.{u64_mod}
use sml_mcps.Daemon.{
  ConnState, Admission, admitted, admit, release, request_shutdown, Phase, Daemon, Event, arrives,
  leaves, asks, looks, window_ends, answers, stops, starting, waiting, in_window, asking, stopping,
  watcher, step, run,
}

-- 1 for an event that takes a slot.
abbrev pub slots : Admission → ℕ
slots admitted = 1
slots _ = 0

abbrev pub admissions_at : Event → Daemon → ℕ
admissions_at (arrives max) d = slots (admit max d.conn).0
admissions_at _ d = 0

-- How many connections a run admits.
unfoldable pub admissions : Bool → List Event → Daemon → ℕ
admissions has_busy [] d = 0
admissions has_busy (e ∷ es) d = admissions_at e d + admissions has_busy es (step has_busy e d)

-- The ceiling of each connection that arrives.
abbrev pub RespectsCeiling : ℕ → List Event → Type 0
RespectsCeiling most [] = Unit
RespectsCeiling most (arrives max ∷ es) = (max ≡ most) × RespectsCeiling most es
RespectsCeiling most (_ ∷ es) = RespectsCeiling most es

-- The watcher leaves the counts alone, and at most asks for the shutdown.
watcher_counts :
    (has_busy : Bool) (e : Event) (p : Phase) (c : ConnState)
    → ((watcher has_busy e p c).conn.active ≡ c.active)
      × ((watcher has_busy e p c).conn.generation ≡ c.generation)
      × (c.shutdown ≡ true → (watcher has_busy e p c).conn.shutdown ≡ true)
unfolding watcher request_shutdown
watcher_counts has_busy stops stopping c = (refl, refl, λ h. refl)
watcher_counts has_busy stops _ c = (refl, refl, λ h. h)
watcher_counts has_busy looks starting c = (refl, refl, λ h. h)
watcher_counts has_busy looks waiting c = (refl, refl, λ h. h)
watcher_counts has_busy looks _ c = (refl, refl, λ h. h)
watcher_counts has_busy (window_ends t) (in_window g) c = (refl, refl, λ h. h)
watcher_counts has_busy (window_ends t) _ c = (refl, refl, λ h. h)
watcher_counts has_busy (answers b) (asking g) c = (refl, refl, λ h. h)
watcher_counts has_busy (answers b) _ c = (refl, refl, λ h. h)
watcher_counts has_busy _ _ c = (refl, refl, λ h. h)

-- What one event does to the counts.
pub record Counted (most : ℕ) (e : Event) (d d' : Daemon) : Type 0 where
  pub at_most : d.conn.active ≤ most → d'.conn.active ≤ most
  pub shut : d.conn.shutdown ≡ true → (d'.conn.shutdown ≡ true) × (admissions_at e d ≡ 0)
  pub numbered : d'.conn.generation % u64_mod ≡ (d.conn.generation + admissions_at e d) % u64_mod

watcher-Counted :
    (most : ℕ) (has_busy : Bool) (e : Event) (d : Daemon)
    → admissions_at e d ≡ 0
    → Counted most e d (watcher has_busy e d.phase d.conn)
watcher-Counted most has_busy e d h =
    let counts = watcher_counts has_busy e d.phase d.conn in
    record {
      at_most = λ k. omega (arith, counts.0, k);
      shut = λ k. (counts.2 k, h);
      numbered = ground (arith, counts.1, h);
    }

step-Counted :
    (most : ℕ) (has_busy : Bool) (e : Event) (d : Daemon)
    → RespectsCeiling most (e ∷ [])
    → Counted most e d (step has_busy e d)
unfolding step admit release request_shutdown
step-Counted most has_busy (arrives max) d h = record {
  at_most = ground (arith, h.0);
  shut = ground arith;
  numbered = ground arith;
}
step-Counted most has_busy leaves d h = record {
  at_most = λ k. omega (arith, k);
  shut = λ k. (k, refl);
  numbered = omega arith;
}
step-Counted most has_busy asks d h = record {
  at_most = λ k. k;
  shut = λ k. (refl, refl);
  numbered = omega arith;
}
step-Counted most has_busy looks d h = watcher-Counted most has_busy looks d refl
step-Counted most has_busy (window_ends t) d h =
    watcher-Counted most has_busy (window_ends t) d refl
step-Counted most has_busy (answers b) d h = watcher-Counted most has_busy (answers b) d refl
step-Counted most has_busy stops d h = watcher-Counted most has_busy stops d refl

RespectsCeiling-cons :
    (most : ℕ) (e : Event) (es : List Event)
    → RespectsCeiling most (e ∷ es)
    → RespectsCeiling most (e ∷ []) × RespectsCeiling most es
RespectsCeiling-cons most (arrives max) es h = ((h.0, tt), h.1)
RespectsCeiling-cons most _ es h = (tt, h)

-- What a run does to them.
pub record RunCounted (most : ℕ) (n : ℕ) (d d' : Daemon) : Type 0 where
  pub at_most : d.conn.active ≤ most → d'.conn.active ≤ most
  pub shut : d.conn.shutdown ≡ true → (d'.conn.shutdown ≡ true) × (n ≡ 0)
  pub numbered : d'.conn.generation % u64_mod ≡ (d.conn.generation + n) % u64_mod

-- Over any run, whatever the events and their order, the connections stay at or below the
-- ceiling that every arrival is given, a shutdown that was asked for stays, with no connection
-- admitted after it, and the generation grows by the number of connections admitted, modulo
-- 2 ^ 64.
pub run-RunCounted :
    (most : ℕ) (has_busy : Bool) (es : List Event) (d : Daemon)
    → RespectsCeiling most es
    → RunCounted most (admissions has_busy es d) d (run has_busy es d)
unfolding run admissions
run-RunCounted most has_busy [] d h = record {
  at_most = λ k. k;
  shut = λ k. (k, refl);
  numbered = omega arith;
}
run-RunCounted most has_busy (e ∷ es) d h =
    let split = RespectsCeiling-cons most e es h in
    let first = step-Counted most has_busy e d split.0 in
    let rest = run-RunCounted most has_busy es (step has_busy e d) split.1 in
    record {
      at_most = λ k. rest.at_most (first.at_most k);
      shut = λ k. (
        (rest.shut (first.shut k).0).0,
        omega (arith, (first.shut k).1, (rest.shut (first.shut k).0).1),
      );
      numbered = omega (arith, first.numbered, rest.numbered);
    }
