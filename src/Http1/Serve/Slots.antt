-- ===== src/Http1/Serve/Slots.antt =====
-- src/transport/http1.rs: `Slot`, the ceiling on live connections. Threads interleave at each
-- atomic operation on the counter, and a weak exchange may fail for no reason.
use sml_mcps.Prelude.{
  ℕ, zero, suc, ◌+◌, ◌-◌, ◌≤◌, ◌≡◌, Bool, not, ◌&&◌, List, [], ◌∷◌, arith, leb, ◌==◌, if◌then◌else◌,
}

-- Where a thread is: before the `load`, in the loop with the count it saw, with the slot, or
-- turned away. Dropping the slot ends it.
pub data Phase : Type 0 where
  before : Phase
  seen : ℕ → Phase
  claimed : Phase
  turned_away : Phase
  dropped : Phase

-- One atomic operation of a thread on the counter, with `spurious` saying whether an exchange
-- fails although it need not.
unfoldable pub slot_step : ℕ → Bool → Phase → ℕ → Phase × ℕ
slot_step max spurious before live = (seen live, live)
slot_step max spurious (seen count) live =
    if leb max count
    then (turned_away, live)
    else if count == live && not spurious
    then (claimed, live + 1)
    else (seen live, live)
slot_step max spurious claimed live = (dropped, live - 1)
slot_step max spurious turned_away live = (turned_away, live)
slot_step max spurious dropped live = (dropped, live)

pub record Slots : Type 0 where
  pub live : ℕ
  pub threads : List Phase

abbrev pub moved : Phase × ℕ → List Phase → Slots
moved (phase, live) ps = record { live = live; threads = phase ∷ ps }

abbrev pub beside : Phase → Slots → Slots
beside p s = record { live = s.live; threads = p ∷ s.threads }

-- The thread at a place makes its step; a place that is not there changes nothing.
unfoldable pub threads_step : ℕ → Bool → ℕ → ℕ → List Phase → Slots
unfolding slot_step
threads_step max spurious live i [] = record { live = live; threads = [] }
threads_step max spurious live zero (p ∷ ps) = moved (slot_step max spurious p live) ps
threads_step max spurious live (suc i) (p ∷ ps) = beside p (threads_step max spurious live i ps)

unfoldable pub run_steps : ℕ → List (ℕ × Bool) → Slots → Slots
unfolding threads_step
run_steps max [] s = s
run_steps max ((i, spurious) ∷ steps) s =
    run_steps max steps (threads_step max spurious s.live i s.threads)

abbrev pub holds : Phase → ℕ
holds claimed = 1
holds before = 0
holds (seen count) = 0
holds turned_away = 0
holds dropped = 0

-- How many threads have a slot.
abbrev pub holders : List Phase → ℕ
holders [] = 0
holders (p ∷ ps) = holds p + holders ps

abbrev pub IsCounted : ℕ → Slots → Type 0
IsCounted max s = (holders s.threads ≡ s.live) × (s.live ≤ max)

slot_step-counts :
    (max live : ℕ) (spurious : Bool) (p : Phase)
    → holds p ≤ live
    → live ≤ max
    → (holds (slot_step max spurious p live).0 + live ≡ holds p + (slot_step max spurious p live).1)
      × ((slot_step max spurious p live).1 ≤ max)
unfolding slot_step
slot_step-counts max live spurious before h le = omega arith
slot_step-counts max live spurious (seen count) h le = ground arith
slot_step-counts max live spurious claimed h le = omega arith
slot_step-counts max live spurious turned_away h le = omega arith
slot_step-counts max live spurious dropped h le = omega arith

threads_step-counts :
    (max live i : ℕ) (spurious : Bool) (ps : List Phase)
    → holders ps ≤ live
    → live ≤ max
    → (holders (threads_step max spurious live i ps).threads + live
        ≡ holders ps + (threads_step max spurious live i ps).live)
      × ((threads_step max spurious live i ps).live ≤ max)
unfolding threads_step
threads_step-counts max live i spurious [] h le = omega arith
threads_step-counts max live zero spurious (p ∷ ps) h le =
    omega (arith, slot_step-counts max live spurious p (omega arith) le)
threads_step-counts max live (suc i) spurious (p ∷ ps) h le =
    omega (arith, threads_step-counts max live i spurious ps (omega arith) le)

-- However the threads' operations on the counter interleave, and whichever weak exchanges fail
-- for no reason: if at first the counter is the number of slots that are held, and no more than
-- the ceiling, then so it is at every later time.
pub run_steps-IsCounted :
    (max : ℕ) (steps : List (ℕ × Bool)) (s : Slots)
    → IsCounted max s
    → IsCounted max (run_steps max steps s)
unfolding run_steps
run_steps-IsCounted max [] s c = c
run_steps-IsCounted max ((i, spurious) ∷ steps) s c =
    run_steps-IsCounted max steps (threads_step max spurious s.live i s.threads)
      (omega (arith, threads_step-counts max s.live i spurious s.threads (omega arith) c.1))
