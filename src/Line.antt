-- ===== src/Line.antt =====
-- src/transport/line.rs: newline-delimited messages with an optional deadline.
-- Bytes are numbers below 256, an `Instant` is a number, and a `usize` never overflows here
-- since it counts bytes held in memory. The source of bytes is the interface `Line.Source`.
pub mod Source
pub mod Utf8
pub mod Framing
pub mod Refines
pub mod Ends
pub mod Bounds
mod Tests
use sml_mcps.Prelude.{
  ℕ, zero, suc, ◌+◌, ◌*◌, max, Bool, true, false, ◌||◌, Option, none, some, List, [], ◌∷◌, ◌++◌,
  leb, ltb, ◌==◌, if◌then◌else◌, length,
}
use sml_mcps.Prelude.Text.{Text, text}
use sml_mcps.Prelude.Decimal.{show}
use sml_mcps.Rpc.{JsonRpcMessage}
use sml_mcps.Rpc.Json.{Json}
use sml_mcps.Rpc.Classify.{parse}
use sml_mcps.Error.{
  McpError, Result, ok, err, io, transport_closed, timeout, invalid_message, IoKind, interrupted,
  would_block, timed_out, unexpected_eof, connection_reset, connection_aborted, broken_pipe,
}
use sml_mcps.Line.Source.{DeadlineRead, Filled, bytes, failed}
use sml_mcps.Line.Utf8.{utf8_valid}

abbrev pub Bytes : Type 0
Bytes = List ℕ

abbrev pub max_message_bytes : ℕ
max_message_bytes = 8 * 1024 * 1024

-- `buffer` is what `BufReader` holds and has not handed on.
pub record LineReader : Type 0 where
  pub buffer : Bytes
  pub partial : Bytes
  pub max_bytes : ℕ
  pub overflowed : Bool
  pub armed : Bool

-- What the standard library prints, which only stands in messages.
pub record Formats : Type 0 where
  pub debug_duration : ℕ → Text
  pub utf8_error : Bytes → Text

unfoldable pub with_limit : ℕ → LineReader
with_limit max_bytes = record {
  buffer = [];
  partial = [];
  max_bytes = max max_bytes 1;
  overflowed = false;
  armed = false;
}

unfoldable pub new_reader : LineReader
unfolding with_limit
new_reader = with_limit max_message_bytes

unfoldable pub set_limit : ℕ → LineReader → LineReader
set_limit max_bytes r = record r { max_bytes = max max_bytes 1 }

unfoldable pub is_timeout : IoKind → Bool
is_timeout would_block = true
is_timeout timed_out = true
is_timeout _ = false

unfoldable pub is_interrupt : IoKind → Bool
is_interrupt interrupted = true
is_interrupt _ = false

unfoldable pub is_disconnect : IoKind → Bool
is_disconnect unexpected_eof = true
is_disconnect connection_reset = true
is_disconnect connection_aborted = true
is_disconnect broken_pipe = true
is_disconnect _ = false

-- The bytes up to and with the first newline, and the bytes behind it, if there is one:
-- `available.iter().position(|&byte| byte == b'\n')` with the two slices taken at it.
abbrev prepend : ℕ → Option (Bytes × Bytes) → Option (Bytes × Bytes)
prepend c none = none
prepend c (some (line, rest)) = some (c ∷ line, rest)

unfoldable pub split_line : Bytes → Option (Bytes × Bytes)
split_line [] = none
split_line (c ∷ cs) =
    let later = split_line cs in if c == b'\n' then some (c ∷ [], cs) else prepend c later

-- The branches of the `match` on the position, with the `consume` behind it. The flag says
-- whether the line ended.
abbrev pub keep : LineReader → Bytes → LineReader
keep r line =
    if r.overflowed
    then r
    else if ltb r.max_bytes (length r.partial + length line)
    then record r { overflowed = true; partial = [] }
    else record r { partial = r.partial ++ line }

abbrev absorb_split : LineReader → Bytes → Option (Bytes × Bytes) → Bool × LineReader
absorb_split r available none = let r' = keep r available in (false, record r' { buffer = [] })
absorb_split r available (some (line, rest)) =
    let r' = keep r line in (true, record r' { buffer = rest })

unfoldable pub absorb : LineReader → Bytes → Bool × LineReader
absorb r available = absorb_split r available (split_line available)

-- How one pass of the loop ends.
pub data Pass (A : Type 0) : Type 0 where
  done : A → Pass A
  again : Pass A

module _ {V : Type 0} (j : Json V) (f : Formats) where
  unfoldable pub timed_out_error : Option ℕ → McpError V
  timed_out_error none = timeout (text "no message")
  timed_out_error (some t) = timeout (text "no message within " ++ f.debug_duration t)

  unfoldable pub decode_line : Bytes → Result V (JsonRpcMessage V)
  decode_line line =
      if utf8_valid line
      then parse j line
      else err (invalid_message (text "message is not UTF-8: " ++ f.utf8_error line))

  unfoldable pub too_long : ℕ → Result V (JsonRpcMessage V)
  too_long max_bytes =
      err (invalid_message (text "message exceeds the " ++ (show max_bytes ++ text " byte limit")))

  -- `if line_ended`
  abbrev pub finish : LineReader → Result V (JsonRpcMessage V) × LineReader
  finish r =
      if r.overflowed
      then (too_long r.max_bytes, record r { overflowed = false; partial = [] })
      else (decode_line r.partial, record r { partial = [] })

  abbrev pub after_absorb : Bool × LineReader → Pass (Result V (JsonRpcMessage V)) × LineReader
  after_absorb (true, r) = let (result, r') = finish r in (done result, r')
  after_absorb (false, r) = (again, r)

  -- what `fill_buf` yields, once the buffer is not empty or a read has been made
  unfoldable pub take_bytes : LineReader → Bytes → Pass (Result V (JsonRpcMessage V)) × LineReader
  take_bytes r [] = (done (err transport_closed), r)
  take_bytes r (c ∷ cs) = after_absorb (absorb r (c ∷ cs))

  unfoldable pub take_failure : Option ℕ → IoKind → Text → Pass (Result V (JsonRpcMessage V))
  unfolding is_timeout is_interrupt is_disconnect
  take_failure limit kind e =
      if is_timeout kind
      then done (err (timed_out_error limit))
      else if is_interrupt kind
      then again
      else if is_disconnect kind
      then done (err transport_closed)
      else done (err (io kind e))

  module _ {S : Type 0} (src : DeadlineRead S) where
    abbrev pub armed_by :
        LineReader → Option (IoKind × Text) × S → Option (McpError V) × LineReader × S
    armed_by r (none, s) = (none, record r { armed = true }, s)
    armed_by r (some (kind, e), s) = (some (io kind e), r, s)

    -- `arm`, with the error of `set_deadline` if the call fails with it
    unfoldable pub arm : Option ℕ → LineReader → S → Option (McpError V) × LineReader × S
    arm (some d) r s = armed_by r (src.set_deadline (some d) s)
    arm none r s =
        if r.armed
        then (none, record r { armed = false }, (src.set_deadline none s).1)
        else (none, r, s)

    abbrev pub take_filled :
        Option ℕ → LineReader → Filled × S → Pass (Result V (JsonRpcMessage V)) × LineReader × S
    take_filled limit r (bytes bs, s) =
        let (p, r') = take_bytes (record r { buffer = bs }) bs in (p, r', s)
    take_filled limit r (failed kind e, s) = (take_failure limit kind e, r, s)

    -- `BufReader::fill_buf` reads only when its buffer is empty.
    abbrev pub fill :
        Option ℕ → LineReader → Bytes → S → Pass (Result V (JsonRpcMessage V)) × LineReader × S
    fill limit r [] s = take_filled limit r (src.read s)
    fill limit r (c ∷ cs) s = let (p, r') = take_bytes r (c ∷ cs) in (p, r', s)

    abbrev pub fill_unless :
        Option ℕ
        → Option (McpError V) × LineReader × S
        → Pass (Result V (JsonRpcMessage V)) × LineReader × S
    fill_unless limit (some e, r, s) = (done (err e), r, s)
    fill_unless limit (none, r, s) = fill limit r r.buffer s

    abbrev pub expired : Option ℕ → S → Bool × S
    expired none s = (false, s)
    expired (some d) s = let (n, s') = src.now s in (leb d n, s')

    -- One pass of the loop of `read_message`.
    unfoldable pub pass :
        Option ℕ → Option ℕ → LineReader → S → Pass (Result V (JsonRpcMessage V)) × LineReader × S
    pass limit deadline r s =
        let (late, s') = expired deadline s in
        if late
        then (done (err (timed_out_error limit)), r, s')
        else fill_unless limit (arm deadline r s')

    -- `none` means that the fuel ran out.
    unfoldable pub read_loop :
        ℕ
        → Option ℕ
        → Option ℕ
        → LineReader
        → S
        → Option (Result V (JsonRpcMessage V) × LineReader × S)
    read_loop zero limit deadline r s = none
    read_loop (suc fuel) limit deadline r s =
        let (p, r', s') = pass limit deadline r s in
        let rest = read_loop fuel limit deadline r' s' in
        elim p [ done result ↦ some (result, r', s') | again ↦ rest ]

    abbrev pub start : Option ℕ → S → Option ℕ × S
    start none s = (none, s)
    start (some t) s = let (n, s') = src.now s in (some (n + t), s')

    unfoldable pub read_message :
        ℕ → Option ℕ → LineReader → S → Option (Result V (JsonRpcMessage V) × LineReader × S)
    read_message fuel limit r s =
        let (deadline, s') = start limit s in read_loop fuel limit deadline r s'
