-- ===== src/Http1/FramingOf.antt =====
-- src/transport/http1.rs: `framing_of`, which decides how the body of a request is framed.
pub mod Reads
use sml_mcps.Prelude.{
  ℕ, zero, suc, Bool, true, false, not, ◌&&◌, ◌||◌, Option, none, some, [], ◌∷◌, leb, ◌==◌,
  if◌then◌else◌,
}
use sml_mcps.Prelude.Text.{Text, text, text_eq}
use sml_mcps.Prelude.Decimal.{parse_uint, u64_mod}
use sml_mcps.Server.Logging.{lower_byte, to_ascii_lowercase}
use sml_mcps.Http1.{Framing, empty, length, chunked, Headers, Outcome, ok, err}
use sml_mcps.Http1.Response.{Response, bad_request, status_only, closing, all_bytes, is_empty}

-- `str::eq_ignore_ascii_case`
unfoldable pub eq_ignore_ascii_case : Text → Text → Bool
unfolding to_ascii_lowercase text_eq
eq_ignore_ascii_case a b = text_eq (to_ascii_lowercase a) (to_ascii_lowercase b)

unfoldable pub is_digit : ℕ → Bool
is_digit b = leb b'0' b && leb b b'9'

-- `length.parse::<usize>()` behind the check of its bytes
abbrev pub declared : Option ℕ → Outcome Response Framing
declared none = err (bad_request (text "an unreadable `Content-Length`"))
declared (some zero) = ok empty
declared (some (suc n)) = ok (length (suc n))

unfoldable pub read_length : Text → Outcome Response Framing
unfolding is_empty all_bytes is_digit
read_length t =
    if is_empty t || not (all_bytes is_digit t)
    then err (bad_request (text "an unreadable `Content-Length`"))
    else declared (parse_uint u64_mod t)

unfoldable pub decide : Option Text → Option Text → Outcome Response Framing
unfolding eq_ignore_ascii_case
decide (some encoding) (some t) =
    err (bad_request (text "both `Transfer-Encoding` and `Content-Length`"))
decide (some encoding) none =
    if eq_ignore_ascii_case encoding (text "chunked")
    then ok chunked
    else err (closing (status_only 501 (text "Not Implemented")))
decide none (some t) = read_length t
decide none none = ok empty

-- `content_length.is_some_and(|first| first != value)`
abbrev pub conflicts : Option Text → Text → Bool
conflicts none value = false
conflicts (some first) value = not (text_eq first value)

abbrev pub given : Option Text → Bool
given none = false
given (some t) = true

-- The loop over the headers, with `transfer_encoding` and `content_length` so far.
unfoldable pub framing_loop : Option Text → Option Text → Headers → Outcome Response Framing
unfolding eq_ignore_ascii_case decide
framing_loop encoding len [] = decide encoding len
framing_loop encoding len ((name, value) ∷ hs) =
    let encoded = framing_loop (some value) len hs in
    let sized = framing_loop encoding (some value) hs in
    let rest = framing_loop encoding len hs in
    if eq_ignore_ascii_case name (text "transfer-encoding")
    then if given encoding
      then err (bad_request (text "more than one `Transfer-Encoding`"))
      else encoded
    else if eq_ignore_ascii_case name (text "content-length")
    then if conflicts len value
      then err (bad_request (text "conflicting `Content-Length` headers"))
      else sized
    else rest

unfoldable pub framing_of : Headers → Outcome Response Framing
unfolding framing_loop
framing_of = framing_loop none none
