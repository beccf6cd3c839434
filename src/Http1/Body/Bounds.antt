-- ===== src/Http1/Body/Bounds.antt =====
-- src/transport/http1.rs: the answers of `Body::read`: their size, and what they leave alone.
use sml_mcps.Prelude.{
  ℕ, suc, ◌≤◌, ◌<◌, ◌≡◌, refl, sym, ◌∙◌, ap, Bool, true, false, not, Option, none, some, List, [],
  ◌∷◌, ◌++◌, arith, ltb, if◌then◌else◌, append_assoc, Bool-cases, Option-cases, inl, inr,
  length-append,
}
use sml_mcps.Prelude
use sml_mcps.Line.{Bytes}
use sml_mcps.Line.Utf8.{utf8_valid}
use sml_mcps.Http1.{Framing, empty, length, chunked, BodyError, Outcome, ok, err}
use sml_mcps.Http1.Wire.{Reader, read_exactly}
use sml_mcps.Http1.Wire.Sound.{read_exactly-Taken}
use sml_mcps.Http1.Chunked.{read_chunked_loop, Decoded}
use sml_mcps.Http1.Chunked.Sound.{read_chunked_sound}
use sml_mcps.Http1.Body.{
  Socket, Body, text_of, taken_whole, taken_chunks, BodyRead, fuel_for, read_declared, read_chunks,
  read_by, read, send_continue,
}

-- An answer that is a text within the limit.
abbrev pub Fits : ℕ → Outcome BodyError Bytes → Type 0
Fits limit (ok bs) = (Prelude.length bs ≤ limit) × (utf8_valid bs ≡ true)
Fits limit (err e) = Unit

text_of-Fits : (limit : ℕ) (bs : Bytes) → Prelude.length bs ≤ limit → Fits limit (text_of bs)
unfolding text_of
text_of-Fits limit bs le = elim (Bool-cases (utf8_valid bs)) [
  | inl e ↦ rw e (le, e)
  | inr e ↦ rw e tt
]

taken_whole-Fits :
    (limit : ℕ) (body : Body) (s : Socket) (r : Outcome BodyError Bytes) (w : Reader)
    → ((bs : Bytes) → r ≡ ok bs → Prelude.length bs ≤ limit)
    → Fits limit (taken_whole body s (r, w)).0
taken_whole-Fits limit body s (ok bs) w h = text_of-Fits limit bs (h bs refl)
taken_whole-Fits limit body s (err e) w h = tt

read_declared-Fits :
    (limit n : ℕ) (sent : Option BodyError × Body × Socket)
    → n ≤ limit
    → Fits limit (read_declared n sent).0
read_declared-Fits limit n (some e, body, s) le = tt
read_declared-Fits limit n (none, body, s) le =
    taken_whole-Fits limit body s (read_exactly n [] s.reader).0 (read_exactly n [] s.reader).1
      (λ bs e.
        let (d, out, size, _) =
          read_exactly-Taken n [] s.reader bs (read_exactly n [] s.reader).1
            (ap (λ (r : Outcome BodyError Bytes). (r, (read_exactly n [] s.reader).1)) e) in
        omega (arith, ap Prelude.length out))

utf8_valid-nil : utf8_valid [] ≡ true
unfolding utf8_valid
utf8_valid-nil = refl

unless-Fits :
    (limit : ℕ) (b : Bool) (r other : BodyRead)
    → Fits limit r.0
    → Fits limit other.0
    → Fits limit (if b then r else other).0
unless-Fits limit true r other h h' = h
unless-Fits limit false r other h h' = h'

module _ (chunk_size : Bytes → Option ℕ) where
  taken_chunks-Fits :
      (limit fuel : ℕ) (body : Body) (s : Socket) (d : Decoded)
      → read_chunked_loop chunk_size fuel limit [] s.reader ≡ d
      → Fits limit (taken_chunks body s d).0
  taken_chunks-Fits limit fuel body s none h = tt
  taken_chunks-Fits limit fuel body s (some (r, w)) h = taken_whole-Fits limit body s r w (λ bs e.
      let (_, _, _, small, _) =
        read_chunked_sound chunk_size fuel limit bs s.reader w
          (h ∙ ap (λ (q : Outcome BodyError Bytes). some (q, w)) e) in
      small)

  read_chunks-Fits :
      (limit : ℕ) (sent : Option BodyError × Body × Socket)
      → Fits limit (read_chunks chunk_size limit sent).0
  read_chunks-Fits limit (some e, body, s) = tt
  read_chunks-Fits limit (none, body, s) =
      taken_chunks-Fits limit (fuel_for s.reader) body s
        (read_chunked_loop chunk_size (fuel_for s.reader) limit [] s.reader) refl

  read_by-Fits :
      (limit : ℕ) (framing : Framing) (body : Body) (s : Socket)
      → Fits limit (read_by chunk_size limit framing body s).0
  read_by-Fits limit empty body s = (omega arith, utf8_valid-nil)
  read_by-Fits limit (length n) body s = elim (Bool-cases (ltb limit n)) [
    | inl e ↦ rw e tt
    | inr e ↦ rw e (read_declared-Fits limit n (send_continue body s) (ground (arith, e)))
  ]
  read_by-Fits limit chunked body s = read_chunks-Fits limit (send_continue body s)

  -- Whatever the framing, the peer and the clock: a body that is handed over is UTF-8 and no
  -- longer than the limit.
  pub read-Fits :
      (limit : ℕ) (body : Body) (s : Socket) → Fits limit (read chunk_size limit body s).0
  unfolding read
  read-Fits limit body s =
      unless-Fits limit body.started (err BodyError.malformed, body, s)
        (read_by chunk_size limit body.framing (record body { started = true }) s) tt
        (read_by-Fits limit body.framing (record body { started = true }) s)
