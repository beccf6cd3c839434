-- ===== src/Http1/Wire.antt =====
-- src/transport/http1.rs: `read_exactly` and `read_line`, over what the socket and the clock do.
--
-- A reader is the list of what the passes of the reading loops meet in turn. `late` stands where
-- the request's deadline has passed; a piece of bytes is what `fill_buf` yields, or a part of it
-- where the deadline passes between two uses of one buffer. An empty piece, and the end of the
-- list, are the peer's hangup.
pub mod Stream
pub mod Sound
pub mod Complete
use sml_mcps.Prelude.{
  ℕ, zero, suc, ◌-◌, min, Bool, true, false, ◌&&◌, ◌||◌, Option, none, some, List, [], ◌∷◌, ◌++◌,
  leb, ltb, ◌==◌, if◌then◌else◌, length, take, drop,
}
use sml_mcps.Prelude.Text.{Text}
use sml_mcps.Error.{IoKind}
use sml_mcps.Line.{Bytes, split_line, is_interrupt}
use sml_mcps.Line.Utf8.{utf8_valid}
use sml_mcps.Http1.{BodyError, Outcome, ok, err, is_timeout}

pub data Turn : Type 0 where
  late : Turn
  failed : IoKind → Turn
  bytes : Bytes → Turn

abbrev pub Reader : Type 0
Reader = List Turn

-- what a `consume` leaves of the piece at hand, before the rest
abbrev pub unread : Bytes → Reader → Reader
unread [] w = w
unread (b ∷ bs) w = bytes (b ∷ bs) ∷ w

-- A piece longer than what is outstanding ends the loop, and its rest stays in the buffer.
unfoldable pub read_exactly : ℕ → Bytes → Reader → Outcome BodyError Bytes × Reader
read_exactly zero into w = (ok into, w)
read_exactly (suc n) into [] = (err BodyError.incomplete, [])
read_exactly (suc n) into (late ∷ w) = (err BodyError.timed_out, late ∷ w)
read_exactly (suc n) into (failed kind ∷ w) =
    if is_interrupt kind
    then read_exactly (suc n) into w
    else (err (if is_timeout kind then BodyError.timed_out else BodyError.incomplete), w)
read_exactly (suc n) into (bytes [] ∷ w) = (err BodyError.incomplete, bytes [] ∷ w)
read_exactly (suc n) into (bytes (b ∷ bs) ∷ w) =
    if leb (length (b ∷ bs)) (suc n)
    then read_exactly (suc n - length (b ∷ bs)) (into ++ b ∷ bs) w
    else (ok (into ++ take (suc n) (b ∷ bs)), unread (drop (suc n) (b ∷ bs)) w)

pub data Line : Type 0 where
  text : Text → Bool → Line
  eof too_long invalid : Line

-- How the loop of `read_line` ends: by an error, or with the raw line and whether its newline
-- was met.
pub data Raw : Type 0 where
  broken : IoKind → Raw
  stopped : Bytes → Bool → Raw

-- The branches on the newline's position among the bytes that the budget allows; without one,
-- either the budget is spent or the whole piece is taken.
abbrev pub taken_line :
    ℕ → Bytes → Bytes → Reader → Option (Bytes × Bytes) → Raw × Reader → Raw × Reader
taken_line budget raw piece w (some (line, _)) later =
    (stopped (raw ++ line) true, unread (drop (length line) piece) w)
taken_line budget raw piece w none later =
    let room = min (length piece) budget in
    if budget - room == 0
    then (stopped (raw ++ take room piece) false, unread (drop room piece) w)
    else later

unfoldable pub line_loop : ℕ → Bytes → Reader → Raw × Reader
line_loop budget raw [] = (stopped raw false, [])
line_loop budget raw (late ∷ w) = (broken IoKind.timed_out, late ∷ w)
line_loop budget raw (failed kind ∷ w) =
    let later = line_loop budget raw w in if is_interrupt kind then later else (broken kind, w)
line_loop budget raw (bytes [] ∷ w) = (stopped raw false, bytes [] ∷ w)
line_loop budget raw (bytes (b ∷ bs) ∷ w) =
    let later = line_loop (budget - length (b ∷ bs)) (raw ++ b ∷ bs) w in
    taken_line budget raw (b ∷ bs) w (split_line (take (min (length (b ∷ bs)) budget) (b ∷ bs)))
      later

-- `Vec::pop`, and `Vec::last`
unfoldable pub pop : Bytes → Bytes
pop [] = []
pop (b ∷ []) = []
pop (b ∷ c ∷ cs) = b ∷ pop (c ∷ cs)

unfoldable pub last : Bytes → Option ℕ
last [] = none
last (b ∷ []) = some b
last (b ∷ c ∷ cs) = last (c ∷ cs)

unfoldable pub ends_in_return : Bytes → Bool
unfolding last
ends_in_return raw = elim (last raw) [ none ↦ false | some b ↦ b == b'\r' ]

unfoldable pub line_byte : ℕ → Bool
line_byte b = b == b'\t' || (leb 0x20 b && ltb b 0x7f || leb 0x80 b)

unfoldable pub is_line_text : Bytes → Bool
unfolding line_byte
is_line_text [] = true
is_line_text (b ∷ bs) = line_byte b && is_line_text bs

unfoldable pub text_or_invalid : Bytes → Bool → Line
text_or_invalid raw crlf = if utf8_valid raw && is_line_text raw then text raw crlf else invalid

unfoldable pub without_return : Bytes → Line
unfolding pop ends_in_return text_or_invalid
without_return raw =
    if ends_in_return raw then text_or_invalid (pop raw) true else text_or_invalid raw false

unfoldable pub finish_line : Bytes → Bool → Line
unfolding pop without_return
finish_line [] terminated = eof
finish_line (b ∷ bs) false = too_long
finish_line (b ∷ bs) true = without_return (pop (b ∷ bs))

abbrev pub line_of : Raw × Reader → Outcome IoKind Line × Reader
line_of (broken kind, w) = (err kind, w)
line_of (stopped raw terminated, w) = (ok (finish_line raw terminated), w)

unfoldable pub read_line : ℕ → Reader → Outcome IoKind Line × Reader
unfolding line_loop finish_line
read_line zero w = (ok too_long, w)
read_line (suc budget) w = line_of (line_loop (suc budget) [] w)
