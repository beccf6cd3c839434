-- ===== src/Http1/Body.antt =====
-- src/transport/http1.rs: `Body`, the request body, read on demand and once. The socket is what
-- is still to be read, what was written, and whether the writes to come succeed.
pub mod Steps
pub mod Sound
pub mod Bounds
pub mod Answers
use sml_mcps.Prelude.{
  ℕ, suc, ◌+◌, Bool, true, false, not, ◌||◌, Option, none, some, List, [], ◌∷◌, ◌++◌, ltb,
  if◌then◌else◌,
}
use sml_mcps.Prelude
use sml_mcps.Prelude.Text.{Text, text}
use sml_mcps.Line.{Bytes}
use sml_mcps.Line.Utf8.{utf8_valid}
use sml_mcps.Http1.{
  Framing, empty, length, chunked, BodyError, too_large, malformed, incomplete, Outcome, ok, err,
}
use sml_mcps.Http1.Wire.{Reader, read_exactly}
use sml_mcps.Http1.Wire.Stream.{flat}
use sml_mcps.Http1.Chunked.{read_chunked_loop, Decoded}

-- One entry of `writes` for each write with its flush: whether it succeeds. Past the end none
-- does.
pub record Socket : Type 0 where
  pub reader : Reader
  pub written : Bytes
  pub writes : List Bool

abbrev pub written_by : Bytes → Socket → List Bool → Bool × Socket
written_by bs s [] = (false, s)
written_by bs s (true ∷ more) = (true, record s { written = s.written ++ bs; writes = more })
written_by bs s (false ∷ more) = (false, record s { writes = more })

-- `write_all` with the `flush` behind it
unfoldable pub write_all : Bytes → Socket → Bool × Socket
write_all bs s = written_by bs s s.writes

pub record Body : Type 0 where
  pub framing : Framing
  pub must_send_continue : Bool
  pub finished : Bool
  pub started : Bool

abbrev pub continue_line : Bytes
continue_line = text "HTTP/1.1 100 Continue" ++ b'\r' ∷ b'\n' ∷ b'\r' ∷ b'\n' ∷ []

abbrev pub BodyRead : Type 0
BodyRead = Outcome BodyError Bytes × Body × Socket

abbrev pub continued : Body → Bool × Socket → Option BodyError × Body × Socket
continued body (true, s) = (none, body, s)
continued body (false, s) = (some incomplete, body, s)

unfoldable pub send_continue : Body → Socket → Option BodyError × Body × Socket
unfolding write_all
send_continue body s =
    if not body.must_send_continue
    then (none, body, s)
    else continued (record body { must_send_continue = false }) (write_all continue_line s)

-- `String::from_utf8`
unfoldable pub text_of : Bytes → Outcome BodyError Bytes
text_of bs = if utf8_valid bs then ok bs else err malformed

abbrev pub taken_whole : Body → Socket → Outcome BodyError Bytes × Reader → BodyRead
taken_whole body s (ok bs, w) =
    (text_of bs, record body { finished = true }, record s { reader = w })
taken_whole body s (err e, w) = (err e, body, record s { reader = w })

-- `none`, where the fuel runs out, is never met: see `Http1.Chunked.Sound`.
abbrev pub taken_chunks : Body → Socket → Decoded → BodyRead
taken_chunks body s none = (err incomplete, body, s)
taken_chunks body s (some result) = taken_whole body s result

-- `BufReader` holds no more than what the peer sent: that many rounds and one are enough fuel.
abbrev pub fuel_for : Reader → ℕ
fuel_for w = suc (Prelude.length (flat w))

-- behind `send_continue`
abbrev pub read_declared : ℕ → Option BodyError × Body × Socket → BodyRead
read_declared declared (some e, body, s) = (err e, body, s)
read_declared declared (none, body, s) = taken_whole body s (read_exactly declared [] s.reader)

module _ (chunk_size : Bytes → Option ℕ) where
  abbrev pub read_chunks : ℕ → Option BodyError × Body × Socket → BodyRead
  read_chunks limit (some e, body, s) = (err e, body, s)
  read_chunks limit (none, body, s) =
      taken_chunks body s (read_chunked_loop chunk_size (fuel_for s.reader) limit [] s.reader)

  abbrev pub read_by : ℕ → Framing → Body → Socket → BodyRead
  read_by limit empty body s = (ok [], record body { finished = true }, s)
  read_by limit (length declared) body s =
      if ltb limit declared
      then (err too_large, body, s)
      else read_declared declared (send_continue body s)
  read_by limit chunked body s = read_chunks limit (send_continue body s)

  unfoldable pub read : ℕ → Body → Socket → BodyRead
  unfolding send_continue text_of
  read limit body s =
      if body.started
      then (err malformed, body, s)
      else read_by limit body.framing (record body { started = true }) s

abbrev pub drained : Body → Socket → Outcome BodyError Bytes × Reader → Body × Socket
drained body s (ok sink, w) = (record body { finished = true }, record s { reader = w })
drained body s (err e, w) = (body, record s { reader = w })

abbrev pub drain_by : ℕ → Framing → Body → Socket → Body × Socket
drain_by limit empty body s = (body, s)
drain_by limit chunked body s = (body, s)
drain_by limit (length declared) body s =
    if ltb limit declared
    then (body, s)
    else drained (record body { started = true }) s (read_exactly declared [] s.reader)

unfoldable pub drain_if_cheap : ℕ → Body → Socket → Body × Socket
drain_if_cheap limit body s =
    if body.started || body.finished
    then (body, s)
    else if body.must_send_continue
    then (body, s)
    else drain_by limit body.framing body s
