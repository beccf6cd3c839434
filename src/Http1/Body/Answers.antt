-- ===== src/Http1/Body/Answers.antt =====
-- src/transport/http1.rs: a body that arrives in time is handed over, once.
use sml_mcps.Prelude.{
  ℕ, suc, ◌≤◌, ◌<◌, ◌≡◌, refl, sym, ◌∙◌, ap, Bool, true, false, not, ◌&&◌, Option, none, some, List,
  [], ◌∷◌, ◌++◌, arith, ltb, if◌then◌else◌, append_assoc, Bool-cases, inl, inr, length-append,
}
use sml_mcps.Prelude
use sml_mcps.Line.{Bytes}
use sml_mcps.Line.Utf8.{utf8_valid}
use sml_mcps.Http1.{Framing, empty, length, chunked, ok}
use sml_mcps.Http1.Wire.{Reader}
use sml_mcps.Http1.Wire.Stream.{flat, IsPrompt, with_crlf}
use sml_mcps.Http1.Wire.Complete.{read_exactly-Leaves}
use sml_mcps.Http1.Chunked.Encoding.{
  Chunk, Encoding, IsEncoding, encode, encode_chunks, encode_trailers, contents,
}
use sml_mcps.Http1.Chunked.Complete.{read_chunked-encode}
use sml_mcps.Http1.Body.{
  Socket, Body, text_of, continue_line, write_all, fuel_for, read, send_continue,
}

length-encode_chunks :
    (cs : List Chunk) (x : Bytes) → Prelude.length cs ≤ Prelude.length (encode_chunks cs x)
length-encode_chunks [] x = omega arith
length-encode_chunks (c ∷ cs) x =
    let tail = c.content ++ with_crlf [] (encode_chunks cs x) in
    omega (
      arith,
      length-encode_chunks cs x,
      length-append c.line (b'\r' ∷ b'\n' ∷ tail),
      length-append c.content (with_crlf [] (encode_chunks cs x)),
    )

text_of-valid : (bs : Bytes) → utf8_valid bs ≡ true → text_of bs ≡ ok bs
unfolding text_of
text_of-valid bs v = rw v refl

module _ (chunk_size : Bytes → Option ℕ) where
  -- `wire`, with `rest` behind it, is this content as the framing puts it.
  abbrev pub Carries : Framing → Bytes → Bytes → Bytes → Type 0
  Carries empty content rest wire = (content ≡ []) × (wire ≡ rest)
  Carries (length declared) content rest wire =
      (Prelude.length content ≡ declared) × (wire ≡ content ++ rest)
  Carries chunked content rest wire =
      (e : Encoding) × IsEncoding chunk_size e
      × (contents e.chunks ≡ content)
      × (wire ≡ encode e rest)

  -- a body of which nothing was read; its client may wait for `100 Continue`
  abbrev pub fresh_body : Framing → Bool → Bool → Body
  fresh_body framing waits finished = record {
    framing = framing;
    must_send_continue = waits;
    finished = finished;
    started = false;
  }

  abbrev pub asks : Framing → Bool → Bool
  asks empty waits = false
  asks (length n) waits = waits
  asks chunked waits = waits

  -- whether the client still waits afterwards, which it does of a body without bytes
  abbrev pub left_waiting : Framing → Bool → Bool
  left_waiting empty waits = waits
  left_waiting (length n) waits = false
  left_waiting chunked waits = false

  abbrev later_writes : List Bool → List Bool
  later_writes [] = []
  later_writes (b ∷ bs) = bs

  -- Where the client waits for it and there is a body to send, `100 Continue` is written once.
  abbrev pub told : Bool → Socket → Socket
  told false s = s
  told true s = record s { written = s.written ++ continue_line; writes = later_writes s.writes }

  abbrev pub MayWrite : Bool → List Bool → Type 0
  MayWrite false writes = Unit
  MayWrite true [] = ⊥
  MayWrite true (sent ∷ more) = sent ≡ true

  abbrev pub HandedOver : ℕ → Framing → Bool → Bool → Socket → Bytes → Bytes → Type 0
  HandedOver limit framing waits finished s content rest =
      (w' : Reader) × (read chunk_size limit (fresh_body framing waits finished) s ≡ (
        ok content,
        record (fresh_body framing (left_waiting framing waits) true) { started = true },
        record (told (asks framing waits) s) { reader = w' },
      ))
      × IsPrompt w'
      × (flat w' ≡ rest)

  -- the body while its reading runs
  abbrev begun : Framing → Bool → Bool → Body
  begun framing waits finished = record (fresh_body framing waits finished) { started = true }

  continue_written :
      (framing : Framing) (finished : Bool) (w : Reader) (written : Bytes) (writes : List Bool)
      → MayWrite true writes
      → send_continue
          (begun framing true finished)
          (record { reader = w; written = written; writes = writes })
        ≡ (
          none,
          begun framing false finished,
          told true (record { reader = w; written = written; writes = writes }),
        )
  unfolding send_continue write_all
  continue_written framing finished w written [] m = absurd m
  continue_written framing finished w written (true ∷ more) m = refl
  continue_written framing finished w written (false ∷ more) m = cc

  continue_sent :
      (framing : Framing) (waits finished : Bool) (s : Socket)
      → MayWrite waits s.writes
      → send_continue (begun framing waits finished) s
        ≡ (none, begun framing false finished, told waits s)
  unfolding send_continue
  continue_sent framing false finished s m = refl
  continue_sent framing true finished s m =
      continue_written framing finished s.reader s.written s.writes m

  reader-told : (waits : Bool) (s : Socket) → (told waits s).reader ≡ s.reader
  reader-told false s = refl
  reader-told true s = refl

  -- A body that is UTF-8 and within the limit, as its framing puts it on the wire, from a reader
  -- that loses no time, however cut into pieces: the first reading hands over its content, the
  -- body is finished, and the reader stands behind it. Where the client waits for `100 Continue`,
  -- that line is written first, unless the body has no bytes, and the write has to succeed; nothing
  -- else is written.
  pub read-Carries :
      (limit : ℕ) (framing : Framing) (waits finished : Bool) (content rest : Bytes) (s : Socket)
      → utf8_valid content ≡ true
      → Prelude.length content ≤ limit
      → IsPrompt s.reader
      → MayWrite (asks framing waits) s.writes
      → Carries framing content rest (flat s.reader)
      → HandedOver limit framing waits finished s content rest
  unfolding read
  read-Carries limit empty waits finished content rest s v le p m (h, hw) =
      (s.reader, rw h refl, p, hw)
  read-Carries limit (length n) waits finished content rest s v le p m (h, hw) =
      let (w', hr, hp, hf) = read_exactly-Leaves content [] rest s.reader p hw in
      let small : ltb limit n ≡ false = ground (arith, h) in
      (
        w',
        rw small (
            rw (continue_sent (length n) waits finished s m)
              (rw (reader-told waits s) (rw (sym h) (rw hr (rw (text_of-valid content v) refl))))),
        hp,
        hf,
      )
  read-Carries limit chunked waits finished content rest s v le p m (e, ve, hc, hw) =
      let (w', hr, hp, hf) =
        read_chunked-encode chunk_size (fuel_for s.reader) limit rest e s.reader ve
          (omega (
            arith,
            ap Prelude.length hw,
            length-encode_chunks e.chunks (with_crlf e.last_line (encode_trailers e.trailers rest)),
          ))
          (omega (arith, ap Prelude.length hc)) p hw in
      (
        w',
        rw (continue_sent chunked waits finished s m)
            (rw (reader-told waits s) (rw hr (rw hc (rw (text_of-valid content v) refl)))),
        hp,
        hf,
      )
