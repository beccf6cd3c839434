-- ===== src/Http1/Chunked/Sound.antt =====
-- src/transport/http1.rs: whatever the peer and the clock do, a body that `read_chunked` accepts
-- is the contents of a chunked body on the wire, and the reader stands behind that body.
use sml_mcps.Prelude.{
  ℕ, zero, suc, ◌≤◌, ◌<◌, ◌≡◌, ◌≢◌, sym, ◌∙◌, ap, Option, none, some, List, [], ◌∷◌, ◌++◌, arith,
  length, append_assoc, append-nil, length-append,
}
use sml_mcps.Line.{Bytes}
use sml_mcps.Http1.{ok, err}
use sml_mcps.Http1.Wire.{Reader}
use sml_mcps.Http1.Wire.Stream.{flat, with_crlf}
use sml_mcps.Http1.Chunked.{Pass, done, next, chunk_pass, read_chunked_loop, after_pass, Decoded}
use sml_mcps.Http1.Chunked.Encoding.{Chunk, Encoding, IsEncoding, encode, encode_chunk, contents}
use sml_mcps.Http1.Chunked.Passes.{PassTaken, chunk_pass-PassTaken}

module _ (chunk_size : Bytes → Option ℕ) where
  -- What a decoder that began with `body` has taken, and made of it.
  abbrev DecodedFrom : ℕ → Bytes → Reader → Bytes → Reader → Type 0
  DecodedFrom limit body w out w' =
      (e : Encoding) × IsEncoding chunk_size e
      × (out ≡ body ++ contents e.chunks)
      × (length out ≤ limit)
      × (flat w ≡ encode e (flat w'))

  after_pass-DecodedFrom :
      (limit : ℕ) (body out : Bytes) (w w1 w' : Reader) (pass : Pass)
      (again : Bytes → Reader → Decoded)
      → length body ≤ limit
      → PassTaken chunk_size limit body w pass w1
      → ((body' : Bytes)
          → length body' ≤ limit
          → again body' w1 ≡ some (ok out, w')
          → DecodedFrom limit body' w1 out w')
      → after_pass again (pass, w1) ≡ some (ok out, w')
      → DecodedFrom limit body w out w'
  after_pass-DecodedFrom limit body out w w1 w' (done (err e)) again lb taken more h = cc
  after_pass-DecodedFrom limit body out w w1 w' (done (ok out')) again lb (e, v, hc, ho, hf) more
        h =
      let place : w1 ≡ w' = cc in
      let same : out ≡ body = cc in
      (
        e,
        v,
        same ∙ (sym (append-nil body) ∙ ap (λ (cs : List Chunk). body ++ contents cs) (sym hc)),
        rw same lb,
        hf ∙ ap (λ (u : Reader). encode e (flat u)) place,
      )
  after_pass-DecodedFrom limit body out w w1 w' (next body') again lb (c, vc, hb, le, hf) more h =
      let (e, v, ho, small, hr) =
        more body' (omega (arith, ap length hb, length-append body c.content)) h in
      (
        record { chunks = c ∷ e.chunks; last_line = e.last_line; trailers = e.trailers },
        record {
          chunks_valid = (vc, v.chunks_valid);
          last_framed = v.last_framed;
          last_zero = v.last_zero;
          trailers_valid = v.trailers_valid;
          trailers_few = v.trailers_few;
        },
        ho
            ∙ (ap (λ (u : Bytes). u ++ contents e.chunks) hb
                ∙ append_assoc body c.content (contents e.chunks)),
        small,
        hf ∙ ap (λ (u : Bytes). encode_chunk c u) hr,
      )

  read_chunked-DecodedFrom :
      (fuel limit : ℕ) (body out : Bytes) (w w' : Reader)
      → length body ≤ limit
      → read_chunked_loop chunk_size fuel limit body w ≡ some (ok out, w')
      → DecodedFrom limit body w out w'
  unfolding read_chunked_loop
  read_chunked-DecodedFrom zero limit body out w w' lb h = cc
  read_chunked-DecodedFrom (suc fuel) limit body out w w' lb h =
      after_pass-DecodedFrom limit body out w (chunk_pass chunk_size limit body w).1 w'
        (chunk_pass chunk_size limit body w).0 (read_chunked_loop chunk_size fuel limit) lb
        (chunk_pass-PassTaken chunk_size limit body w lb)
        (λ body' lb' h'.
          read_chunked-DecodedFrom fuel limit body' out (chunk_pass chunk_size limit body w).1 w'
            lb' h')
        h

  -- A body that `read_chunked` accepts, whatever the peer and the clock do: what it consumed is
  -- a chunked encoding whose size lines, trailers and blank lines are all well formed, the body
  -- is the contents of its chunks joined and no longer than the limit, and the reader is left
  -- at the byte behind the encoding.
  pub read_chunked_sound :
      (fuel limit : ℕ) (out : Bytes) (w w' : Reader)
      → read_chunked_loop chunk_size fuel limit [] w ≡ some (ok out, w')
      → (e : Encoding) × IsEncoding chunk_size e
        × (out ≡ contents e.chunks)
        × (length out ≤ limit)
        × (flat w ≡ encode e (flat w'))
  read_chunked_sound fuel limit out w w' h =
      read_chunked-DecodedFrom fuel limit [] out w w' (omega arith) h

  after_pass-ne-none :
      (limit fuel : ℕ) (body : Bytes) (w w1 : Reader) (pass : Pass)
      (again : Bytes → Reader → Decoded)
      → length body ≤ limit
      → length (flat w) < suc fuel
      → PassTaken chunk_size limit body w pass w1
      → ((body' : Bytes) → length body' ≤ limit → length (flat w1) < fuel → again body' w1 ≢ none)
      → after_pass again (pass, w1) ≢ none
  after_pass-ne-none limit fuel body w w1 (done result) again lb enough taken more = λ e. cc
  after_pass-ne-none limit fuel body w w1 (next body') again lb enough (c, vc, hb, le, hf) more =
      let tail = c.content ++ with_crlf [] (flat w1) in
      more body' (omega (arith, ap length hb, length-append body c.content)) (
        omega (
          arith,
          ap length hf,
          length-append c.line (b'\r' ∷ b'\n' ∷ tail),
          length-append c.content (with_crlf [] (flat w1)),
        ))

  -- Fuel above the number of bytes that the peer sends is enough: the loop ends.
  pub read_chunked_ends :
      (fuel limit : ℕ) (body : Bytes) (w : Reader)
      → length body ≤ limit
      → length (flat w) < fuel
      → read_chunked_loop chunk_size fuel limit body w ≢ none
  unfolding read_chunked_loop
  read_chunked_ends zero limit body w lb enough = absurd (omega arith)
  read_chunked_ends (suc fuel) limit body w lb enough =
      after_pass-ne-none limit fuel body w (chunk_pass chunk_size limit body w).1
        (chunk_pass chunk_size limit body w).0 (read_chunked_loop chunk_size fuel limit) lb enough
        (chunk_pass-PassTaken chunk_size limit body w lb)
        (λ body' lb' enough'.
          read_chunked_ends fuel limit body' (chunk_pass chunk_size limit body w).1 lb' enough')
