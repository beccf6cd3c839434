-- ===== src/Http1/Body/Steps.antt =====
-- src/transport/http1.rs: where the branches of `Body::read` leave the reader.
use sml_mcps.Prelude.{
  ℕ, suc, ◌≡◌, refl, sym, ◌∙◌, ap, subst, Bool, true, false, not, ◌||◌, Option, none, some, List,
  [], ◌∷◌, ◌++◌, arith, ltb, if◌then◌else◌, append_assoc, Bool-cases, Option-cases, inl, inr,
}
use sml_mcps.Prelude
use sml_mcps.Prelude.Text.{Text}
use sml_mcps.Line.{Bytes}
use sml_mcps.Http1.{Framing, empty, length, chunked, BodyError, Outcome, ok, err}
use sml_mcps.Http1.Wire.{Reader, read_exactly}
use sml_mcps.Http1.Wire.Stream.{flat, with_crlf}
use sml_mcps.Http1.Wire.Sound.{read_exactly-Taken}
use sml_mcps.Http1.Chunked.{read_chunked_loop, Decoded}
use sml_mcps.Http1.Chunked.Encoding.{
  Chunk, Encoding, IsEncoding, encode, encode_chunks, encode_trailers, encode_chunk,
}
use sml_mcps.Http1.Chunked.Sound.{read_chunked_sound}
use sml_mcps.Http1.Body.{
  Socket, write_all, written_by, Body, continue_line, continued, send_continue, taken_whole,
  taken_chunks, fuel_for, read_declared, read_chunks,
}

encode_trailers-append :
    (ts : List Text) (rest : Bytes) → encode_trailers ts rest ≡ encode_trailers ts [] ++ rest
encode_trailers-append [] rest = refl
encode_trailers-append (t ∷ ts) rest =
    ap (with_crlf t) (encode_trailers-append ts rest)
    ∙ sym (append_assoc t (b'\r' ∷ b'\n' ∷ encode_trailers ts []) rest)

encode_chunk-append :
    (c : Chunk) (x rest : Bytes) → encode_chunk c (x ++ rest) ≡ encode_chunk c x ++ rest
encode_chunk-append c x rest = simp append_assoc

encode_chunks-append :
    (cs : List Chunk) (x rest : Bytes) → encode_chunks cs (x ++ rest) ≡ encode_chunks cs x ++ rest
encode_chunks-append [] x rest = refl
encode_chunks-append (c ∷ cs) x rest =
    ap (encode_chunk c) (encode_chunks-append cs x rest)
    ∙ encode_chunk-append c (encode_chunks cs x) rest

-- The rest behind an encoding is behind all of it.
pub encode-append : (e : Encoding) (rest : Bytes) → encode e rest ≡ encode e [] ++ rest
encode-append e rest =
    ap (encode_chunks e.chunks) (
      ap (with_crlf e.last_line) (encode_trailers-append e.trailers rest)
      ∙ sym (append_assoc e.last_line (b'\r' ∷ b'\n' ∷ encode_trailers e.trailers []) rest))
    ∙ encode_chunks-append e.chunks (with_crlf e.last_line (encode_trailers e.trailers [])) rest

-- `send_continue` reads nothing and leaves the state of the body but for its own flag.
abbrev pub Keeps : Body → Socket → Option BodyError × Body × Socket → Type 0
Keeps body s (r, body', s') =
    (body'.framing ≡ body.framing)
    × (body'.finished ≡ body.finished)
    × (body'.started ≡ body.started)
    × (s'.reader ≡ s.reader)

pub written_by-reader :
    (bs : Bytes) (s : Socket) (ws : List Bool) → (written_by bs s ws).1.reader ≡ s.reader
written_by-reader bs s [] = refl
written_by-reader bs s (true ∷ ws) = refl
written_by-reader bs s (false ∷ ws) = refl

continued-Keeps :
    (body : Body) (s : Socket) (sent : Bool × Socket)
    → sent.1.reader ≡ s.reader
    → Keeps body s (continued (record body { must_send_continue = false }) sent)
continued-Keeps body s (true, s') h = (refl, refl, refl, h)
continued-Keeps body s (false, s') h = (refl, refl, refl, h)

pub send_continue-Keeps : (body : Body) (s : Socket) → Keeps body s (send_continue body s)
unfolding send_continue write_all
send_continue-Keeps body s = elim (Bool-cases body.must_send_continue) [
  | inl e ↦
      subst
        (λ (b : Bool). Keeps body s (
          if not b
          then (none, body, s)
          else continued (record body { must_send_continue = false })
              (written_by continue_line s s.writes)))
        (sym e)
        (continued-Keeps body s (written_by continue_line s s.writes)
          (written_by-reader continue_line s s.writes))
  | inr e ↦
      subst
        (λ (b : Bool). Keeps body s (
          if not b
          then (none, body, s)
          else continued (record body { must_send_continue = false })
              (written_by continue_line s s.writes)))
        (sym e) (refl, refl, refl, refl)
]

module _ (chunk_size : Bytes → Option ℕ) where
  -- The bytes on the wire are the body that the framing promises, to its last byte.
  abbrev pub IsFramedBody : Framing → Bytes → Type 0
  IsFramedBody empty bs = bs ≡ []
  IsFramedBody (length declared) bs = Prelude.length bs ≡ declared
  IsFramedBody chunked bs = (e : Encoding) × IsEncoding chunk_size e × (bs ≡ encode e [])

  abbrev pub StandsBehind : Framing → Bytes → Reader → Type 0
  StandsBehind framing start w = (bs : Bytes) × IsFramedBody framing bs × (start ≡ bs ++ flat w)

  declared_behind :
      (start : Bytes) (n : ℕ) (framing : Framing) (s : Socket) (bs : Bytes) (w' : Reader)
      → framing ≡ length n
      → start ≡ flat s.reader
      → read_exactly n [] s.reader ≡ (ok bs, w')
      → StandsBehind framing start w'
  declared_behind start n framing s bs w' hn h e =
      let (d, _, hl, hf) = read_exactly-Taken n [] s.reader bs w' e in (d, rw hn hl, h ∙ hf)

  chunks_behind :
      (start : Bytes) (fuel limit : ℕ) (framing : Framing) (s : Socket) (bs : Bytes) (w' : Reader)
      → framing ≡ chunked
      → start ≡ flat s.reader
      → read_chunked_loop chunk_size fuel limit [] s.reader ≡ some (ok bs, w')
      → StandsBehind framing start w'
  chunks_behind start fuel limit framing s bs w' hc h e =
      let (enc, v, _, _, hf) = read_chunked_sound chunk_size fuel limit bs s.reader w' e in
      (encode enc [], rw hc (enc, v, refl), h ∙ (hf ∙ encode-append enc (flat w')))

module _ (chunk_size : Bytes → Option ℕ) (promised : Framing) where
  -- `start` is what stood before the reader at the end of the head.
  pub record IsAt (start : Bytes) (body : Body) (s : Socket) : Type 0 where
    pub framed : body.framing ≡ promised
    pub behind : body.finished ≡ true → StandsBehind chunk_size body.framing start s.reader
    pub fresh : body.started ≡ false → body.finished ≡ true → body.framing ≡ empty
    pub untouched : body.started ≡ false → start ≡ flat s.reader

  pub taken_whole-IsAt :
      (start : Bytes) (body : Body) (s : Socket) (r : Outcome BodyError Bytes) (w : Reader)
      → body.framing ≡ promised
      → body.started ≡ true
      → body.finished ≡ false
      → ((bs : Bytes) → r ≡ ok bs → StandsBehind chunk_size body.framing start w)
      → IsAt start (taken_whole body s (r, w)).1 (taken_whole body s (r, w)).2
  taken_whole-IsAt start body s (ok bs) w fp hs hf h = record {
    framed = fp;
    behind = λ _. h bs refl;
    fresh = λ e _. cc;
    untouched = λ e. cc;
  }
  taken_whole-IsAt start body s (err e) w fp hs hf h = record {
    framed = fp;
    behind = λ e. cc;
    fresh = λ e _. cc;
    untouched = λ e. cc;
  }

  pub stopped-IsAt :
      (start : Bytes) (body : Body) (s : Socket)
      → body.framing ≡ promised
      → body.started ≡ true
      → body.finished ≡ false
      → IsAt start body s
  stopped-IsAt start body s fp hs hf = record {
    framed = fp;
    behind = λ e. cc;
    fresh = λ e _. cc;
    untouched = λ e. cc;
  }

  pub read_declared-IsAt :
      (start : Bytes) (n : ℕ) (sent : Option BodyError × Body × Socket)
      → sent.1.framing ≡ promised
      → sent.1.framing ≡ length n
      → sent.1.started ≡ true
      → sent.1.finished ≡ false
      → start ≡ flat sent.2.reader
      → IsAt start (read_declared n sent).1 (read_declared n sent).2
  read_declared-IsAt start n (some e, body, s) fp hn hs hf h = stopped-IsAt start body s fp hs hf
  read_declared-IsAt start n (none, body, s) fp hn hs hf h =
      taken_whole-IsAt start body s (read_exactly n [] s.reader).0 (read_exactly n [] s.reader).1 fp
        hs hf
        (λ bs e.
          declared_behind chunk_size start n body.framing s bs (read_exactly n [] s.reader).1 hn h
            (ap (λ (r : Outcome BodyError Bytes). (r, (read_exactly n [] s.reader).1)) e))

  taken_chunks-IsAt :
      (start : Bytes) (body : Body) (s : Socket) (d : Decoded)
      → body.framing ≡ promised
      → body.started ≡ true
      → body.finished ≡ false
      → ((bs : Bytes) (w : Reader)
          → d ≡ some (ok bs, w)
          → StandsBehind chunk_size body.framing start w)
      → IsAt start (taken_chunks body s d).1 (taken_chunks body s d).2
  taken_chunks-IsAt start body s none fp hs hf h = stopped-IsAt start body s fp hs hf
  taken_chunks-IsAt start body s (some (r, w)) fp hs hf h =
      taken_whole-IsAt start body s r w fp hs hf
        (λ bs e. h bs w (ap (λ (q : Outcome BodyError Bytes). some (q, w)) e))

  pub read_chunks-IsAt :
      (start : Bytes) (limit : ℕ) (sent : Option BodyError × Body × Socket)
      → sent.1.framing ≡ promised
      → sent.1.framing ≡ chunked
      → sent.1.started ≡ true
      → sent.1.finished ≡ false
      → start ≡ flat sent.2.reader
      → IsAt start (read_chunks chunk_size limit sent).1 (read_chunks chunk_size limit sent).2
  read_chunks-IsAt start limit (some e, body, s) fp hn hs hf h = stopped-IsAt start body s fp hs hf
  read_chunks-IsAt start limit (none, body, s) fp hn hs hf h =
      taken_chunks-IsAt start body s
        (read_chunked_loop chunk_size (fuel_for s.reader) limit [] s.reader) fp hs hf
        (λ bs w e.
          chunks_behind chunk_size start (fuel_for s.reader) limit body.framing s bs w hn h e)
