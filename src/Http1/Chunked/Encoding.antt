-- ===== src/Http1/Chunked/Encoding.antt =====
-- src/transport/http1.rs: what a chunked body is on the wire, the reference for `read_chunked`.
use sml_mcps.Prelude.{ℕ, ◌+◌, ◌≤◌, ◌<◌, ◌≡◌, ◌≢◌, Option, some, List, [], ◌∷◌, ◌++◌, length, All}
use sml_mcps.Prelude.Text.{Text}
use sml_mcps.Line.{Bytes}
use sml_mcps.Http1.{chunk_line_bytes, max_trailers}
use sml_mcps.Http1.Wire.Stream.{with_crlf, IsLineText}
use sml_mcps.Http1.Chunked.{parse_chunk_size}

-- A chunk with the line that says its size, extensions and all.
pub record Chunk : Type 0 where
  pub line : Text
  pub content : Bytes

pub record Encoding : Type 0 where
  pub chunks : List Chunk
  pub last_line : Text
  pub trailers : List Text

abbrev pub encode_trailers : List Text → Bytes → Bytes
encode_trailers [] rest = with_crlf [] rest
encode_trailers (t ∷ ts) rest = with_crlf t (encode_trailers ts rest)

abbrev pub encode_chunk : Chunk → Bytes → Bytes
encode_chunk c rest = with_crlf c.line (c.content ++ with_crlf [] rest)

abbrev pub encode_chunks : List Chunk → Bytes → Bytes
encode_chunks [] rest = rest
encode_chunks (c ∷ cs) rest = encode_chunk c (encode_chunks cs rest)

-- The bytes of the body on the wire, with `rest` behind them.
abbrev pub encode : Encoding → Bytes → Bytes
encode e rest = encode_chunks e.chunks (with_crlf e.last_line (encode_trailers e.trailers rest))

abbrev pub contents : List Chunk → Bytes
contents [] = []
contents (c ∷ cs) = c.content ++ contents cs

-- A line that a reader of framing takes.
abbrev pub IsFramed : Text → Type 0
IsFramed t = IsLineText t × (length t + 2 ≤ chunk_line_bytes)

abbrev pub IsTrailer : Text → Type 0
IsTrailer t = IsFramed t × (t ≢ [])

module _ (chunk_size : Bytes → Option ℕ) where
  abbrev pub IsChunk : Chunk → Type 0
  IsChunk c =
      IsFramed c.line
      × (parse_chunk_size chunk_size c.line ≡ some (length c.content))
      × (0 < length c.content)

  pub record IsEncoding (e : Encoding) : Type 0 where
    pub chunks_valid : All IsChunk e.chunks
    pub last_framed : IsFramed e.last_line
    pub last_zero : parse_chunk_size chunk_size e.last_line ≡ some 0
    pub trailers_valid : All IsTrailer e.trailers
    pub trailers_few : length e.trailers ≤ max_trailers
