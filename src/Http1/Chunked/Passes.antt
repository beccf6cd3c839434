-- ===== src/Http1/Chunked/Passes.antt =====
-- src/transport/http1.rs: what one pass of the decoder of chunked bodies has taken, whatever the
-- peer and the clock do.
use sml_mcps.Prelude.{
  ℕ, zero, suc, ◌+◌, ◌-◌, ◌≤◌, ◌<◌, ◌≡◌, refl, sym, ◌∙◌, ap, true, false, Option, some, List, [],
  ◌∷◌, ◌++◌, arith, ltb, length, All, Bool-cases, Option-cases, inl, inr,
}
use sml_mcps.Prelude.Text.{Text}
use sml_mcps.Error.{IoKind}
use sml_mcps.Line.{Bytes}
use sml_mcps.Http1.{Outcome, ok, err, BodyError, chunk_line_bytes, max_trailers}
use sml_mcps.Http1.Wire.{Reader, Line, text, eof, too_long, invalid, read_exactly, read_line}
use sml_mcps.Http1.Wire.Stream.{flat, with_crlf, IsLineText}
use sml_mcps.Http1.Wire.Sound.{read_exactly-Taken}
use sml_mcps.Http1.Wire.Sound.Lines.{read_line_sound}
use sml_mcps.Http1.Chunked.{
  framed, trailer, trailers_loop, read_trailers, Pass, done, next, close, closed, with_size,
  parse_chunk_size, chunk_pass, sized, ended,
}
use sml_mcps.Http1.Chunked.Encoding.{
  Chunk, Encoding, IsEncoding, IsChunk, IsFramed, IsTrailer, encode, encode_trailers, encode_chunk,
}

framed-eq_ok : (r : Outcome IoKind Line) (t : Text) → framed r ≡ ok t → r ≡ ok (text t true)
unfolding framed
framed-eq_ok (ok (text u true)) t h = cc
framed-eq_ok (ok (text u false)) t h = cc
framed-eq_ok (ok eof) t h = cc
framed-eq_ok (ok too_long) t h = cc
framed-eq_ok (ok invalid) t h = cc
framed-eq_ok (err kind) t h = cc

-- A framed line that a reading gave.
FramedLine :
    (budget : ℕ) (w : Reader) (t : Text)
    → framed (read_line budget w).0 ≡ ok t
    → (flat w ≡ with_crlf t (flat (read_line budget w).1)) × IsLineText t × (length t + 2 ≤ budget)
FramedLine budget w t h = read_line_sound budget w (read_line budget w).1 t (
    ap (λ (r : Outcome IoKind Line). (r, (read_line budget w).1))
      (framed-eq_ok (read_line budget w).0 t h))

-- The trailers that were read, with the blank line behind them.
abbrev pub TrailersTaken : ℕ → Reader → Reader → Type 0
TrailersTaken rounds w w' =
    (ts : List Text) × All IsTrailer ts
    × (length ts < rounds)
    × (flat w ≡ encode_trailers ts (flat w'))

trailer-ok :
    (rounds : ℕ) (w w' w1 : Reader) (later : Outcome BodyError (Unit {0}) × Reader)
    (line : Outcome BodyError Text)
    → ((t : Text)
        → line ≡ ok t
        → (flat w ≡ with_crlf t (flat w1)) × IsLineText t × (length t + 2 ≤ chunk_line_bytes))
    → (later ≡ (ok tt, w') → TrailersTaken rounds w1 w')
    → trailer (line, w1) later ≡ (ok tt, w')
    → TrailersTaken (suc rounds) w w'
trailer-ok rounds w w' w1 later (err e) read rest h = cc
trailer-ok rounds w w' w1 later (ok []) read rest h =
    let (hf, _, _) = read [] refl in
    let place : w1 ≡ w' = cc in
    ([], tt, omega arith, hf ∙ ap (λ (u : Reader). with_crlf [] (flat u)) place)
trailer-ok rounds w w' w1 later (ok (b ∷ bs)) read rest h =
    let (hf, it, le) = read (b ∷ bs) refl in
    let (ts, v, few, hr) = rest h in
    (
      (b ∷ bs) ∷ ts,
      (((it, le), λ e. cc), v),
      omega arith,
      hf ∙ ap (λ (u : Bytes). with_crlf (b ∷ bs) u) hr,
    )

trailers_loop-Taken :
    (rounds : ℕ) (w w' : Reader) → trailers_loop rounds w ≡ (ok tt, w') → TrailersTaken rounds w w'
unfolding trailers_loop
trailers_loop-Taken zero w w' h = cc
trailers_loop-Taken (suc rounds) w w' h =
    trailer-ok rounds w w' (read_line chunk_line_bytes w).1
      (trailers_loop rounds (read_line chunk_line_bytes w).1)
      (framed (read_line chunk_line_bytes w).0) (FramedLine chunk_line_bytes w)
      (trailers_loop-Taken rounds (read_line chunk_line_bytes w).1 w') h

-- What a pass that read a whole chunk, or the end of the body, has taken.
abbrev pub PassTaken : (Bytes → Option ℕ) → ℕ → Bytes → Reader → Pass → Reader → Type 0
PassTaken chunk_size limit body w (next body') w' =
    (c : Chunk) × IsChunk chunk_size c
    × (body' ≡ body ++ c.content)
    × (length body + length c.content ≤ limit)
    × (flat w ≡ encode_chunk c (flat w'))
PassTaken chunk_size limit body w (done (ok out)) w' =
    (e : Encoding) × IsEncoding chunk_size e
    × (e.chunks ≡ [])
    × (out ≡ body)
    × (flat w ≡ encode e (flat w'))
PassTaken chunk_size limit body w (done (err e)) w' = Unit

-- Its part behind the size line.
abbrev Sized : ℕ → ℕ → Bytes → Reader → Pass → Reader → Type 0
Sized size limit body w (next body') w' =
    (content : Bytes) × (length content ≡ size)
    × (0 < size)
    × (body' ≡ body ++ content)
    × (length body + length content ≤ limit)
    × (flat w ≡ content ++ with_crlf [] (flat w'))
Sized size limit body w (done (ok out)) w' =
    (size ≡ 0) × (out ≡ body) × TrailersTaken (suc max_trailers) w w'
Sized size limit body w (done (err e)) w' = Unit

closed-Sized :
    (n limit : ℕ) (body out : Bytes) (w w1 w2 : Reader) (line : Outcome BodyError Text)
    → length body ≤ limit
    → suc n ≤ limit - length body
    → read_exactly (suc n) body w ≡ (ok out, w1)
    → ((t : Text)
        → line ≡ ok t
        → (flat w1 ≡ with_crlf t (flat w2)) × IsLineText t × (length t + 2 ≤ 2))
    → Sized (suc n) limit body w (closed out (line, w2)).0 (closed out (line, w2)).1
closed-Sized n limit body out w w1 w2 (err e) lb le h read = tt
closed-Sized n limit body out w w1 w2 (ok (b ∷ bs)) lb le h read = tt
closed-Sized n limit body out w w1 w2 (ok []) lb le h read =
    let (content, ho, hl, hf) = read_exactly-Taken (suc n) body w out w1 h in
    let (hb, _, _) = read [] refl in
    (content, hl, omega arith, ho, omega arith, hf ∙ ap (λ (u : Bytes). content ++ u) hb)

close-Sized :
    (n limit : ℕ) (body : Bytes) (w w1 : Reader) (r : Outcome BodyError Bytes)
    → length body ≤ limit
    → suc n ≤ limit - length body
    → read_exactly (suc n) body w ≡ (r, w1)
    → Sized (suc n) limit body w (close (r, w1)).0 (close (r, w1)).1
close-Sized n limit body w w1 (err e) lb le h = tt
close-Sized n limit body w w1 (ok out) lb le h =
    closed-Sized n limit body out w w1 (read_line 2 w1).1 (framed (read_line 2 w1).0) lb le h
      (FramedLine 2 w1)

ended-Sized :
    (limit : ℕ) (body : Bytes) (w w1 : Reader) (r : Outcome BodyError (Unit {0}))
    → trailers_loop (suc max_trailers) w ≡ (r, w1)
    → Sized 0 limit body w (ended body (r, w1)).0 (ended body (r, w1)).1
ended-Sized limit body w w1 (err e) h = tt
ended-Sized limit body w w1 (ok tt) h = (refl, refl, trailers_loop-Taken (suc max_trailers) w w1 h)

with_size-Sized :
    (size limit : ℕ) (body : Bytes) (w : Reader)
    → length body ≤ limit
    → Sized size limit body w
        (with_size limit body (some size) w).0
        (with_size limit body (some size) w).1
unfolding read_trailers
with_size-Sized zero limit body w lb =
    ended-Sized limit body w (trailers_loop (suc max_trailers) w).1
      (trailers_loop (suc max_trailers) w).0 refl
with_size-Sized (suc n) limit body w lb = elim (Bool-cases (ltb (limit - length body) (suc n))) [
  | inl e ↦ rw e tt
  | inr e ↦ rw e (
      close-Sized n limit body w (read_exactly (suc n) body w).1 (read_exactly (suc n) body w).0 lb
        (ground (arith, e)) refl)
]

module _ (chunk_size : Bytes → Option ℕ) where
  PassTaken-of :
      (size limit : ℕ) (body line : Bytes) (w w1 w' : Reader) (pass : Pass)
      → IsFramed line
      → parse_chunk_size chunk_size line ≡ some size
      → flat w ≡ with_crlf line (flat w1)
      → Sized size limit body w1 pass w'
      → PassTaken chunk_size limit body w pass w'
  PassTaken-of size limit body line w w1 w' (done (err e)) f hs hf s = tt
  PassTaken-of size limit body line w w1 w' (done (ok out)) f hs hf (hz, ho, (ts, v, few, hr)) = (
    record { chunks = []; last_line = line; trailers = ts },
    record {
      chunks_valid = tt;
      last_framed = f;
      last_zero = hs ∙ ap (λ (n : ℕ). some n) hz;
      trailers_valid = v;
      trailers_few = omega arith;
    },
    refl,
    ho,
    hf ∙ ap (λ (u : Bytes). with_crlf line u) hr,
  )
  PassTaken-of size limit body line w w1 w' (next body') f hs hf (content, hl, hp, hb, le, hr) = (
    record { line = line; content = content },
    (f, hs ∙ ap (λ (n : ℕ). some n) (sym hl), omega arith),
    hb,
    le,
    hf ∙ ap (λ (u : Bytes). with_crlf line u) hr,
  )

  sized-PassTaken :
      (limit : ℕ) (body : Bytes) (w w1 : Reader) (line : Outcome BodyError Text)
      → length body ≤ limit
      → ((t : Text)
          → line ≡ ok t
          → (flat w ≡ with_crlf t (flat w1)) × IsLineText t × (length t + 2 ≤ chunk_line_bytes))
      → PassTaken chunk_size limit body w
          (sized chunk_size limit body (line, w1)).0
          (sized chunk_size limit body (line, w1)).1
  sized-PassTaken limit body w w1 (err e) lb read = tt
  sized-PassTaken limit body w w1 (ok t) lb read =
      let (hf, it, le) = read t refl in
      elim (Option-cases (parse_chunk_size chunk_size t)) [
        | inl e ↦ rw e tt
        | inr (size, e) ↦ rw e (
            PassTaken-of size limit body t w w1 (with_size limit body (some size) w1).1
              (with_size limit body (some size) w1).0 (it, le) e hf
              (with_size-Sized size limit body w1 lb))
      ]

  pub chunk_pass-PassTaken :
      (limit : ℕ) (body : Bytes) (w : Reader)
      → length body ≤ limit
      → PassTaken chunk_size limit body w
          (chunk_pass chunk_size limit body w).0
          (chunk_pass chunk_size limit body w).1
  unfolding chunk_pass
  chunk_pass-PassTaken limit body w lb =
      sized-PassTaken limit body w (read_line chunk_line_bytes w).1
        (framed (read_line chunk_line_bytes w).0) lb (FramedLine chunk_line_bytes w)
