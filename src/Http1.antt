-- ===== src/Http1.antt =====
-- src/transport/http1.rs: the vocabulary of the small HTTP/1.1 server. Bytes are numbers below
-- 256, a text is its UTF-8 bytes, and a `usize` has 64 bits. `httparse` is a parameter of the
-- modules that ask it (`Http1.ReadHead`, `Http1.Chunked`), and the socket with its clock is
-- `Http1.Wire`.
pub mod Wire
pub mod Response
pub mod FramingOf
pub mod ReadHead
pub mod Chunked
pub mod Body
pub mod Serve
mod Tests
use sml_mcps.Prelude.{ℕ, ◌*◌, Bool, true, false, Option, some, none, List, if◌then◌else◌}
use sml_mcps.Prelude.Text.{Text, text, text_eq}
use sml_mcps.Error.{IoKind}
use sml_mcps.Line.{max_message_bytes}

abbrev pub chunk_line_bytes : ℕ
chunk_line_bytes = 128

abbrev pub max_trailers : ℕ
max_trailers = 16

abbrev pub max_leading_blank_lines : ℕ
max_leading_blank_lines = 8

abbrev pub linger_bytes : ℕ
linger_bytes = 64 * 1024

abbrev pub default_max_connections : ℕ
default_max_connections = 512

-- Durations are milliseconds.
pub record Limits : Type 0 where
  pub max_connections : ℕ
  pub max_head_bytes : ℕ
  pub max_headers : ℕ
  pub max_body_bytes : ℕ
  pub read_timeout : ℕ
  pub idle_timeout : ℕ
  pub write_timeout : ℕ

abbrev pub default_limits : Limits
default_limits = record {
  max_connections = default_max_connections;
  max_head_bytes = 32 * 1024;
  max_headers = 100;
  max_body_bytes = max_message_bytes;
  read_timeout = 30 * 1000;
  idle_timeout = 120 * 1000;
  write_timeout = 30 * 1000;
}

pub data Method : Type 0 where
  get head post delete : Method
  other : Text → Method

unfoldable pub parse_method : Text → Method
parse_method t =
    if text_eq t (text "GET")
    then get
    else if text_eq t (text "HEAD")
    then head
    else if text_eq t (text "POST")
    then post
    else if text_eq t (text "DELETE")
    then delete
    else other t

-- `Display`
unfoldable pub show_method : Method → Text
show_method get = text "GET"
show_method head = text "HEAD"
show_method post = text "POST"
show_method delete = text "DELETE"
show_method (other t) = t

pub data Version : Type 0 where
  http10 http11 : Version

pub data Framing : Type 0 where
  empty : Framing
  length : ℕ → Framing
  chunked : Framing

abbrev pub Headers : Type 0
Headers = List (Text × Text)

pub record Head : Type 0 where
  pub method : Method
  pub target : Text
  pub version : Version
  pub headers : Headers
  pub framing : Framing
  pub expects_continue : Bool
  pub wants_close : Bool

pub data BodyError : Type 0 where
  too_large malformed incomplete timed_out : BodyError

-- `std::result::Result` of this file
pub data Outcome (E A : Type 0) : Type 0 where
  ok : A → Outcome E A
  err : E → Outcome E A

unfoldable pub is_timeout : IoKind → Bool
is_timeout IoKind.timed_out = true
is_timeout IoKind.would_block = true
is_timeout _ = false
