-- ===== src/Line/Framing.antt =====
-- What the stream of bytes says, however it is cut into reads: the reference for `read_message`
-- of src/transport/line.rs.
use sml_mcps.Prelude.{
  ℕ, ◌<◌, ◌≡◌, Bool, true, false, Option, none, some, [], ◌∷◌, ◌++◌, arith, ltb, if◌then◌else◌,
  length, length-append, inl, inr, Option-cases, Bool-cases, ◌==◌,
}
use sml_mcps.Rpc.{JsonRpcMessage}
use sml_mcps.Rpc.Json.{Json}
use sml_mcps.Error.{Result}
use sml_mcps.Line.{Bytes, LineReader, Formats, split_line, decode_line, too_long}

-- The stream as a reader has still to frame it, and whether the front of it is the rest of a
-- message that is already refused.
pub record Pending : Type 0 where
  pub skipping : Bool
  pub unread : Bytes

-- what a reader and the bytes behind its buffer amount to
abbrev pub pending : LineReader → Bytes → Pending
pending r later = record {
  skipping = r.overflowed;
  unread = (if r.overflowed then [] else r.partial) ++ (r.buffer ++ later);
}

module _ {V : Type 0} (j : Json V) (f : Formats) (max_bytes : ℕ) where
  abbrev pub verdict_on :
      Bool → Option (Bytes × Bytes) → Option (Result V (JsonRpcMessage V) × Bytes)
  verdict_on skipping none = none
  verdict_on true (some (line, rest)) = some (too_long j f max_bytes, rest)
  verdict_on false (some (line, rest)) =
      some
        (if ltb max_bytes (length line) then too_long j f max_bytes else decode_line j f line, rest)

  -- The answer to the first message of the stream, and the stream behind it; nothing while its
  -- newline has not arrived.
  unfoldable pub verdict : Pending → Option (Result V (JsonRpcMessage V) × Bytes)
  verdict p = verdict_on p.skipping (split_line p.unread)

-- No newline stands in `bs`.
abbrev pub IsOpen : Bytes → Type 0
IsOpen bs = split_line bs ≡ none

pub split_line-append :
    (bs cs : Bytes)
    → IsOpen bs
    → split_line (bs ++ cs)
      ≡ elim (split_line cs) [ none ↦ none | some (line, rest) ↦ some (bs ++ line, rest) ]
unfolding split_line
split_line-append [] cs h = ground arith
split_line-append (b ∷ bs) cs h = ground (arith, split_line-append bs cs)

pub split_line_newline :
    (x e : Bytes) → IsOpen x → split_line (x ++ b'\n' ∷ e) ≡ some (x ++ b'\n' ∷ [], e)
unfolding split_line
split_line_newline x e o = split_line-append x (b'\n' ∷ e) o

-- Bytes behind the first newline do not matter for the line.
pub split_line_extend :
    (bs cs line rest : Bytes)
    → split_line bs ≡ some (line, rest)
    → split_line (bs ++ cs) ≡ some (line, rest ++ cs)
unfolding split_line
split_line_extend [] cs line rest h = cc
split_line_extend (b ∷ bs) cs line rest h = elim (Option-cases (split_line bs)) [
  | inl e ↦ ground (arith, e)
  | inr (p, e) ↦ ground (arith, e, split_line_extend bs cs p.0 p.1 e)
]

-- A line is the front of the bytes, it is not empty, and its last byte alone is a newline.
pub append-split_line :
    (bs line rest : Bytes) → split_line bs ≡ some (line, rest) → bs ≡ line ++ rest
unfolding split_line
append-split_line [] line rest h = cc
append-split_line (b ∷ bs) line rest h = elim (Option-cases (split_line bs)) [
  | inl e ↦ ground (arith, e)
  | inr (p, e) ↦ ground (arith, e, append-split_line bs p.0 p.1 e)
]

-- The line that `split_line` finds ends in a newline.
pub split_line_ends :
    (bs line rest : Bytes)
    → split_line bs ≡ some (line, rest)
    → (x : Bytes) × (line ≡ x ++ b'\n' ∷ [])
unfolding split_line
split_line_ends [] line rest h = cc
split_line_ends (b ∷ bs) line rest h = elim (Bool-cases (b == b'\n')) [
  | inl e ↦ ([], ground (arith, e))
  | inr e ↦ elim (Option-cases (split_line bs)) [
    | inl shut ↦ absurd (ground (arith, e, shut))
    | inr (p, more) ↦
        let (x, hx) = split_line_ends bs p.0 p.1 more in (b ∷ x, ground (arith, e, more, hx))
  ]
]

module _ {V : Type 0} (j : Json V) (f : Formats) (max_bytes : ℕ) where
  -- A message whose bytes so far are over the limit is refused, whatever follows.
  pub verdict_overflow :
      (bs cs : Bytes)
      → IsOpen bs
      → max_bytes < length bs
      → verdict j f max_bytes (record { skipping = false; unread = bs ++ cs })
        ≡ verdict j f max_bytes (record { skipping = true; unread = cs })
  unfolding verdict
  verdict_overflow bs cs o h = elim (Option-cases (split_line cs)) [
    | inl e ↦ rw (split_line-append bs cs o) (rw e)
    | inr (p, e) ↦ rw (split_line-append bs cs o) (rw e (ground (arith, length-append bs p.0)))
  ]

  -- While a message is skipped, bytes with no newline are dropped.
  pub verdict_skip :
      (bs cs : Bytes)
      → IsOpen bs
      → verdict j f max_bytes (record { skipping = true; unread = bs ++ cs })
        ≡ verdict j f max_bytes (record { skipping = true; unread = cs })
  unfolding verdict
  verdict_skip bs cs o = elim (Option-cases (split_line cs)) [
    | inl e ↦ rw (split_line-append bs cs o) (rw e)
    | inr (p, e) ↦ rw (split_line-append bs cs o) (rw e)
  ]
