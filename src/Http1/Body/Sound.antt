-- ===== src/Http1/Body/Sound.antt =====
-- src/transport/http1.rs: a body is marked as finished only where the reader stands behind it.
use sml_mcps.Prelude.{
  ℕ, ◌≡◌, refl, sym, ◌∙◌, ap, Bool, true, false, ◌||◌, Option, [], ltb, if◌then◌else◌, Bool-cases,
  inl, inr,
}
use sml_mcps.Line.{Bytes}
use sml_mcps.Http1.{Framing, empty, length, chunked, BodyError, Outcome, ok, err}
use sml_mcps.Http1.Wire.{Reader, read_exactly}
use sml_mcps.Http1.Wire.Stream.{flat}
use sml_mcps.Http1.Wire.Sound.{read_exactly-Taken}
use sml_mcps.Http1.Body.{
  Socket, Body, send_continue, read_by, read, drained, drain_by, drain_if_cheap,
}
use sml_mcps.Http1.Body.Steps.{
  IsAt, stopped-IsAt, send_continue-Keeps, read_declared-IsAt, read_chunks-IsAt,
}

unfinished : (b : Bool) → (b ≡ true → ⊥) → b ≡ false
unfinished true h = absurd (h refl)
unfinished false h = refl

module _ (chunk_size : Bytes → Option ℕ) (promised : Framing) where
  read_by-IsAt :
      (start : Bytes) (limit : ℕ) (framing : Framing) (body : Body) (s : Socket)
      → body.framing ≡ promised
      → body.framing ≡ framing
      → body.started ≡ true
      → (body.finished ≡ true → framing ≡ empty)
      → start ≡ flat s.reader
      → IsAt chunk_size promised start
          (read_by chunk_size limit framing body s).1
          (read_by chunk_size limit framing body s).2
  read_by-IsAt start limit empty body s fp hf hs fresh h = record {
    framed = fp;
    behind = λ _. ([], rw hf refl, h);
    fresh = λ e _. cc;
    untouched = λ e. cc;
  }
  read_by-IsAt start limit (length n) body s fp hf hs fresh h = elim (Bool-cases (ltb limit n)) [
    | inl e ↦ rw e (
        stopped-IsAt chunk_size promised start body s fp hs
          (unfinished body.finished (λ q. cc (fresh q))))
    | inr e ↦ rw e (
        let (kf, kd, ks, kr) = send_continue-Keeps body s in
        read_declared-IsAt chunk_size promised start n (send_continue body s) (kf ∙ fp) (kf ∙ hf)
          (ks ∙ hs) (kd ∙ unfinished body.finished (λ q. cc (fresh q))) (h ∙ ap flat (sym kr)))
  ]
  read_by-IsAt start limit chunked body s fp hf hs fresh h =
      let (kf, kd, ks, kr) = send_continue-Keeps body s in
      read_chunks-IsAt chunk_size promised start limit (send_continue body s) (kf ∙ fp) (kf ∙ hf)
        (ks ∙ hs) (kd ∙ unfinished body.finished (λ q. cc (fresh q))) (h ∙ ap flat (sym kr))

  read_unless-IsAt :
      (start : Bytes) (limit : ℕ) (b : Bool) (body : Body) (s : Socket)
      → body.started ≡ b
      → IsAt chunk_size promised start body s
      → IsAt chunk_size promised start
          (if b
            then (err BodyError.malformed, body, s)
            else read_by chunk_size limit body.framing (record body { started = true }) s).1
          (if b
            then (err BodyError.malformed, body, s)
            else read_by chunk_size limit body.framing (record body { started = true }) s).2
  read_unless-IsAt start limit true body s e i = i
  read_unless-IsAt start limit false body s e i =
      read_by-IsAt start limit body.framing (record body { started = true }) s i.framed refl refl
        (i.fresh e) (i.untouched e)

  -- Reading the body keeps the invariant, whatever the answer.
  pub read-IsAt :
      (start : Bytes) (limit : ℕ) (body : Body) (s : Socket)
      → IsAt chunk_size promised start body s
      → IsAt chunk_size promised start
          (read chunk_size limit body s).1
          (read chunk_size limit body s).2
  unfolding read
  read-IsAt start limit body s i = read_unless-IsAt start limit body.started body s refl i

  drained-IsAt :
      (start : Bytes) (n : ℕ) (body : Body) (s : Socket) (r : Outcome BodyError Bytes) (w : Reader)
      → body.framing ≡ promised
      → body.framing ≡ length n
      → body.started ≡ true
      → body.finished ≡ false
      → start ≡ flat s.reader
      → read_exactly n [] s.reader ≡ (r, w)
      → IsAt chunk_size promised start (drained body s (r, w)).0 (drained body s (r, w)).1
  drained-IsAt start n body s (ok sink) w fp hn hs hf h e =
      let (d, _, hl, hr) = read_exactly-Taken n [] s.reader sink w e in
      record {
        framed = fp;
        behind = λ _. (d, rw hn hl, h ∙ hr);
        fresh = λ e _. cc;
        untouched = λ e. cc;
      }
  drained-IsAt start n body s (err e) w fp hn hs hf h e' = record {
    framed = fp;
    behind = λ e. cc;
    fresh = λ e _. cc;
    untouched = λ e. cc;
  }

  drain_by-IsAt :
      (start : Bytes) (limit : ℕ) (framing : Framing) (body : Body) (s : Socket)
      → body.framing ≡ framing
      → body.started ≡ false
      → body.finished ≡ false
      → IsAt chunk_size promised start body s
      → IsAt chunk_size promised start
          (drain_by limit framing body s).0
          (drain_by limit framing body s).1
  drain_by-IsAt start limit empty body s hn hs hf i = i
  drain_by-IsAt start limit chunked body s hn hs hf i = i
  drain_by-IsAt start limit (length n) body s hn hs hf i = elim (Bool-cases (ltb limit n)) [
    | inl e ↦ rw e i
    | inr e ↦ rw e (
        drained-IsAt start n (record body { started = true }) s (read_exactly n [] s.reader).0
          (read_exactly n [] s.reader).1 i.framed hn refl hf (i.untouched hs) refl)
  ]

  drain_unless-IsAt :
      (start : Bytes) (limit : ℕ) (a b c : Bool) (body : Body) (s : Socket)
      → body.started ≡ a
      → body.finished ≡ b
      → IsAt chunk_size promised start body s
      → IsAt chunk_size promised start
          (if a || b
            then (body, s)
            else if c
            then (body, s)
            else drain_by limit body.framing body s).0
          (if a || b
            then (body, s)
            else if c
            then (body, s)
            else drain_by limit body.framing body s).1
  drain_unless-IsAt start limit true b c body s ha hb i = i
  drain_unless-IsAt start limit false true c body s ha hb i = i
  drain_unless-IsAt start limit false false true body s ha hb i = i
  drain_unless-IsAt start limit false false false body s ha hb i =
      drain_by-IsAt start limit body.framing body s refl ha hb i

  pub drain_if_cheap-IsAt :
      (start : Bytes) (limit : ℕ) (body : Body) (s : Socket)
      → IsAt chunk_size promised start body s
      → IsAt chunk_size promised start
          (drain_if_cheap limit body s).0
          (drain_if_cheap limit body s).1
  unfolding drain_if_cheap
  drain_if_cheap-IsAt start limit body s i =
      drain_unless-IsAt start limit body.started body.finished body.must_send_continue body s refl
        refl i
