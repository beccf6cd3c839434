-- ===== src/Http1/Chunked.antt =====
-- src/transport/http1.rs: the decoder of chunked bodies, `Body::read_chunked`. The parameter is
-- `httparse::parse_chunk_size`: the size where it answers `Complete`, nothing where it answers
-- `Partial` or refuses. A `u64` fits a `usize` of 64 bits.
pub mod Encoding
pub mod Passes
pub mod Sound
pub mod Complete
use sml_mcps.Prelude.{
  ℕ, zero, suc, ◌-◌, Bool, true, false, ◌&&◌, ◌||◌, Option, none, some, List, [], ◌∷◌, ◌++◌, leb,
  ltb, if◌then◌else◌, length,
}
use sml_mcps.Prelude.Text.{Text}
use sml_mcps.Error.{IoKind}
use sml_mcps.Line.{Bytes}
use sml_mcps.Http1.{
  BodyError, too_large, malformed, incomplete, timed_out, Outcome, ok, err, is_timeout,
  chunk_line_bytes, max_trailers,
}
use sml_mcps.Http1.Wire.{Reader, Line, text, eof, too_long, invalid, read_exactly, read_line}

unfoldable pub is_hex_digit : ℕ → Bool
is_hex_digit b = leb b'0' b && leb b b'9' || (leb b'a' b && leb b b'f' || leb b'A' b && leb b b'F')

unfoldable pub starts_with_hex_digit : Text → Bool
unfolding is_hex_digit
starts_with_hex_digit [] = false
starts_with_hex_digit (b ∷ bs) = is_hex_digit b

-- The line that `read_line` found, if it ends as framing must.
unfoldable pub framed : Outcome IoKind Line → Outcome BodyError Text
unfolding is_timeout
framed (ok (text t true)) = ok t
framed (ok (text t false)) = err malformed
framed (ok eof) = err incomplete
framed (ok too_long) = err malformed
framed (ok invalid) = err malformed
framed (err kind) = err (if is_timeout kind then timed_out else incomplete)

-- The loop of `read_trailers`, over the rounds left.
abbrev trailer :
    Outcome BodyError Text × Reader
    → Outcome BodyError (Unit {0}) × Reader
    → Outcome BodyError (Unit {0}) × Reader
trailer (ok [], w) later = (ok tt, w)
trailer (ok (b ∷ bs), w) later = later
trailer (err e, w) later = (err e, w)

unfoldable pub trailers_loop : ℕ → Reader → Outcome BodyError (Unit {0}) × Reader
unfolding framed
trailers_loop zero w = (err malformed, w)
trailers_loop (suc rounds) w =
    let (line, w') = read_line chunk_line_bytes w in
    let later = trailers_loop rounds w' in trailer (framed line, w') later

unfoldable pub read_trailers : Reader → Outcome BodyError (Unit {0}) × Reader
unfolding trailers_loop
read_trailers = trailers_loop (suc max_trailers)

-- How one pass of the loop of `read_chunked` ends.
pub data Pass : Type 0 where
  done : Outcome BodyError Bytes → Pass
  next : Bytes → Pass

abbrev pub ended : Bytes → Outcome BodyError (Unit {0}) × Reader → Pass × Reader
ended body (ok _, w) = (done (ok body), w)
ended body (err e, w) = (done (err e), w)

abbrev pub closed : Bytes → Outcome BodyError Text × Reader → Pass × Reader
closed body (ok [], w) = (next body, w)
closed body (ok (b ∷ bs), w) = (done (err malformed), w)
closed body (err e, w) = (done (err e), w)

-- the line behind the bytes of a chunk
abbrev pub close : Outcome BodyError Bytes × Reader → Pass × Reader
close (err e, w) = (done (err e), w)
close (ok body, w) = let (line, w') = read_line 2 w in closed body (framed line, w')

abbrev pub with_size : ℕ → Bytes → Option ℕ → Reader → Pass × Reader
with_size limit body none w = (done (err malformed), w)
with_size limit body (some zero) w = ended body (read_trailers w)
with_size limit body (some (suc n)) w =
    if ltb (limit - length body) (suc n)
    then (done (err too_large), w)
    else close (read_exactly (suc n) body w)

-- `none` means that the fuel ran out.
abbrev pub Decoded : Type 0
Decoded = Option (Outcome BodyError Bytes × Reader)

abbrev pub after_pass : (Bytes → Reader → Decoded) → Pass × Reader → Decoded
after_pass again (done result, w) = some (result, w)
after_pass again (next body, w) = again body w

module _ (chunk_size : Bytes → Option ℕ) where
  unfoldable pub parse_chunk_size : Text → Option ℕ
  unfolding starts_with_hex_digit
  parse_chunk_size line =
      if starts_with_hex_digit line then chunk_size (line ++ b'\r' ∷ b'\n' ∷ []) else none

  abbrev pub sized : ℕ → Bytes → Outcome BodyError Text × Reader → Pass × Reader
  sized limit body (err e, w) = (done (err e), w)
  sized limit body (ok line, w) = with_size limit body (parse_chunk_size line) w

  unfoldable pub chunk_pass : ℕ → Bytes → Reader → Pass × Reader
  unfolding framed
  chunk_pass limit body w =
      let (line, w') = read_line chunk_line_bytes w in sized limit body (framed line, w')

  unfoldable pub read_chunked_loop : ℕ → ℕ → Bytes → Reader → Decoded
  read_chunked_loop zero limit body w = none
  read_chunked_loop (suc fuel) limit body w =
      after_pass (read_chunked_loop fuel limit) (chunk_pass limit body w)
