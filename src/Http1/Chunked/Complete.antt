-- ===== src/Http1/Chunked/Complete.antt =====
-- src/transport/http1.rs: a chunked body that arrives in time is decoded to its contents,
-- however it is cut into pieces, and the reader is left where it ends.
use sml_mcps.Prelude.{
  ℕ, zero, suc, ◌+◌, ◌-◌, ◌≤◌, ◌<◌, ◌≡◌, refl, sym, false, Option, some, List, [], ◌∷◌, ◌++◌, arith,
  ltb, length, append_assoc, append-nil, length-append, All,
}
use sml_mcps.Prelude.Text.{Text}
use sml_mcps.Line.{Bytes}
use sml_mcps.Line.Utf8.{utf8_valid}
use sml_mcps.Http1.{ok, chunk_line_bytes, max_trailers}
use sml_mcps.Http1.Wire.{Reader, is_line_text}
use sml_mcps.Http1.Wire.Stream.{flat, IsPrompt, with_crlf, IsLineText}
use sml_mcps.Http1.Wire.Complete.{Leaves, read_exactly-Leaves}
use sml_mcps.Http1.Wire.Complete.Lines.{read_line-Leaves}
use sml_mcps.Http1.Chunked.{
  framed, trailers_loop, read_trailers, done, next, close, with_size, chunk_pass, read_chunked_loop,
}
use sml_mcps.Http1.Chunked.Encoding.{
  Chunk, Encoding, IsEncoding, IsChunk, IsTrailer, encode, encode_trailers, encode_chunk,
  encode_chunks, contents,
}

pub blank-IsLineText : IsLineText []
unfolding utf8_valid is_line_text
blank-IsLineText = refl

trailers_loop-Leaves :
    (rounds : ℕ) (ts : List Text) (rest : Bytes) (w : Reader)
    → All IsTrailer ts
    → length ts < rounds
    → IsPrompt w
    → flat w ≡ encode_trailers ts rest
    → Leaves (trailers_loop rounds w) (ok tt) rest
unfolding trailers_loop framed
trailers_loop-Leaves zero ts rest w v le p h = absurd (omega arith)
trailers_loop-Leaves (suc rounds) [] rest w v le p h =
    let (w', hl, hp, hf) =
      read_line-Leaves chunk_line_bytes [] rest w blank-IsLineText (omega arith) p h in
    (w', rw hl refl, hp, hf)
trailers_loop-Leaves (suc rounds) ([] ∷ ts) rest w v le p h = absurd (v.0.1 refl)
trailers_loop-Leaves (suc rounds) ((b ∷ bs) ∷ ts) rest w v le p h =
    let (w', hl, hp, hf) =
      read_line-Leaves chunk_line_bytes (b ∷ bs) (encode_trailers ts rest) w v.0.0.0 v.0.0.1 p h in
    rw hl (trailers_loop-Leaves rounds ts rest w' v.1 (omega arith) hp hf)

close-Leaves :
    (body rest : Bytes) (w : Reader)
    → IsPrompt w
    → flat w ≡ with_crlf [] rest
    → Leaves (close (ok body, w)) (next body) rest
unfolding framed
close-Leaves body rest w p h =
    let (w', hl, hp, hf) = read_line-Leaves 2 [] rest w blank-IsLineText (omega arith) p h in
    (w', rw hl refl, hp, hf)

with_size-Leaves :
    (limit : ℕ) (body content rest : Bytes) (n : ℕ) (w : Reader)
    → length content ≡ n
    → 0 < n
    → length body + n ≤ limit
    → IsPrompt w
    → flat w ≡ content ++ with_crlf [] rest
    → Leaves (with_size limit body (some n) w) (next (body ++ content)) rest
with_size-Leaves limit body content rest zero w e pos le p h = absurd (omega arith)
with_size-Leaves limit body content rest (suc n) w e pos le p h =
    let (w', hr, hp, hf) = read_exactly-Leaves content body (with_crlf [] rest) w p h in
    let small : ltb (limit - length body) (suc n) ≡ false = ground arith in
    rw small (rw (sym e) (rw hr (close-Leaves (body ++ content) rest w' hp hf)))

module _ (chunk_size : Bytes → Option ℕ) where
  chunk_pass-Leaves :
      (limit : ℕ) (body rest : Bytes) (c : Chunk) (w : Reader)
      → IsChunk chunk_size c
      → length body + length c.content ≤ limit
      → IsPrompt w
      → flat w ≡ encode_chunk c rest
      → Leaves (chunk_pass chunk_size limit body w) (next (body ++ c.content)) rest
  unfolding chunk_pass framed
  chunk_pass-Leaves limit body rest c w v le p h =
      let (w', hl, hp, hf) =
        read_line-Leaves chunk_line_bytes c.line (c.content ++ with_crlf [] rest) w v.0.0 v.0.1 p
          h in
      rw hl (
        rw v.1 (with_size-Leaves limit body c.content rest (length c.content) w' refl v.2 le hp hf))

  last_pass-Leaves :
      (limit : ℕ) (body rest : Bytes) (e : Encoding) (w : Reader)
      → IsEncoding chunk_size e
      → IsPrompt w
      → flat w ≡ with_crlf e.last_line (encode_trailers e.trailers rest)
      → Leaves (chunk_pass chunk_size limit body w) (done (ok body)) rest
  unfolding chunk_pass framed read_trailers
  last_pass-Leaves limit body rest e w v p h =
      let (w1, hl, hp, hf) =
        read_line-Leaves chunk_line_bytes e.last_line (encode_trailers e.trailers rest) w
          v.last_framed.0 v.last_framed.1 p h in
      let (w2, ht, hp', hf') =
        trailers_loop-Leaves (suc max_trailers) e.trailers rest w1 v.trailers_valid
          (omega (arith, v.trailers_few)) hp hf in
      (w2, rw hl (rw v.last_zero (rw ht refl)), hp', hf')

  chunks-Leaves :
      (fuel limit : ℕ) (body rest : Bytes) (cs : List Chunk) (e : Encoding) (w : Reader)
      → IsEncoding chunk_size e
      → All (IsChunk chunk_size) cs
      → length cs < fuel
      → length body + length (contents cs) ≤ limit
      → IsPrompt w
      → flat w ≡ encode_chunks cs (with_crlf e.last_line (encode_trailers e.trailers rest))
      → (w' : Reader) × (read_chunked_loop chunk_size fuel limit body w
          ≡ some (ok (body ++ contents cs), w'))
        × IsPrompt w'
        × (flat w' ≡ rest)
  unfolding read_chunked_loop
  chunks-Leaves zero limit body rest cs e w v vs fl le p h = absurd (omega arith)
  chunks-Leaves (suc fuel) limit body rest [] e w v vs fl le p h =
      let (w', hr, hp, hf) = last_pass-Leaves limit body rest e w v p h in
      (w', rw hr (rw (append-nil body) refl), hp, hf)
  chunks-Leaves (suc fuel) limit body rest (c ∷ cs) e w v vs fl le p h =
      let total = length-append c.content (contents cs) in
      let (w1, hr, hp, hf) =
        chunk_pass-Leaves limit body
          (encode_chunks cs (with_crlf e.last_line (encode_trailers e.trailers rest))) c w vs.0
          (omega (arith, total)) p h in
      let (w2, hr', hp', hf') =
        chunks-Leaves fuel limit (body ++ c.content) rest cs e w1 v vs.1 (omega arith)
          (omega (arith, total, length-append body c.content)) hp hf in
      (w2, rw hr (rw (sym (append_assoc body c.content (contents cs))) hr'), hp', hf')

  -- A chunked body of valid chunks, within the limit, that stands before a reader that loses no
  -- time, however cut into pieces: with more fuel than chunks, `read_chunked` answers with the
  -- contents of the chunks joined, and leaves the reader at the byte behind the body.
  pub read_chunked-encode :
      (fuel limit : ℕ) (rest : Bytes) (e : Encoding) (w : Reader)
      → IsEncoding chunk_size e
      → length e.chunks < fuel
      → length (contents e.chunks) ≤ limit
      → IsPrompt w
      → flat w ≡ encode e rest
      → (w' : Reader) × (read_chunked_loop chunk_size fuel limit [] w
          ≡ some (ok (contents e.chunks), w'))
        × IsPrompt w'
        × (flat w' ≡ rest)
  read_chunked-encode fuel limit rest e w v fl le p h =
      chunks-Leaves fuel limit [] rest e.chunks e w v v.chunks_valid fl (omega arith) p h
