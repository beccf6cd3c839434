-- ===== src/Line/Bounds.antt =====
-- `read_message` of src/transport/line.rs never holds more of a message than the limit.
use sml_mcps.Prelude.{ℕ, zero, suc, ◌≤◌, ◌≡◌, Option, none, some, arith, length}
use sml_mcps.Prelude.Text.{Text}
use sml_mcps.Rpc.{JsonRpcMessage}
use sml_mcps.Rpc.Json.{Json}
use sml_mcps.Error.{Result}
use sml_mcps.Line.Source.{DeadlineRead}
use sml_mcps.Line.{LineReader, Formats, with_limit, Pass, done, again, pass, start}

pub record IsBounded (r : LineReader) : Type 0 where
  pub held : length r.partial ≤ r.max_bytes
  pub accepts_a_byte : 1 ≤ r.max_bytes

pub IsBounded-with_limit : (n : ℕ) → IsBounded (with_limit n)
unfolding with_limit
IsBounded-with_limit n = ground arith

module _ {V : Type 0} (j : Json V) (f : Formats) where
  module _ {S : Type 0} (src : DeadlineRead S) where
    abbrev onward :
        Pass (Result V (JsonRpcMessage V)) → LineReader × S → LineReader × S → LineReader × S
    onward (done result) here later = here
    onward again here later = later

    -- The reader after that many passes, or after the pass that returned.
    unfoldable pub after_passes : ℕ → Option ℕ → Option ℕ → LineReader → S → LineReader × S
    unfolding pass
    after_passes zero limit deadline r s = (r, s)
    after_passes (suc n) limit deadline r s =
        let (p, r', s') = pass j f src limit deadline r s in
        onward p (r', s') (after_passes n limit deadline r' s')

    -- What the loop returns, if it does, leaves the reader in this state.
    abbrev pub LeavesAt :
        Option (Result V (JsonRpcMessage V) × LineReader × S) → LineReader × S → Type 0
    LeavesAt none at = Unit
    LeavesAt (some (result, r, s)) at = (r, s) ≡ at

    -- the reader when `read_message` has made that many passes, or has returned
    abbrev pub message_passes : ℕ → Option ℕ → LineReader → S → LineReader × S
    message_passes n limit r s =
        let (deadline, s') = start j f src limit s in after_passes n limit deadline r s'
