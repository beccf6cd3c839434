-- ===== src/Http1/ReadHead.antt =====
-- src/transport/http1.rs: reading and judging the head of a request. The parameter is
-- `httparse::Request::parse`: its answer to the bytes so far, and the fields of the request.
pub mod Passes
pub mod Sound
use sml_mcps.Prelude.{
  ℕ, zero, suc, ◌+◌, ◌-◌, min, Bool, true, false, not, ◌&&◌, ◌||◌, Option, none, some, List, [],
  ◌∷◌, ◌++◌, leb, ltb, ◌==◌, if◌then◌else◌, length, take, drop, is_some,
}
use sml_mcps.Prelude.Text.{Text, text, text_eq}
use sml_mcps.Error.{IoKind}
use sml_mcps.Line.{Bytes, is_interrupt, split_line}
use sml_mcps.Line.Utf8.{utf8_valid}
use sml_mcps.Rpc.Classify.{trim_start, whitespace_len}
use sml_mcps.Http1.{
  Framing, empty, chunked, Headers, Head, Version, http10, http11, parse_method, Outcome, ok, err,
  Limits, max_leading_blank_lines,
}
use sml_mcps.Http1.Wire.{Turn, late, failed, bytes, Reader, unread}
use sml_mcps.Http1.Response.{Response, bad_request, too_long, timed_out, status_only, closing}
use sml_mcps.Http1.FramingOf.{eq_ignore_ascii_case, framing_of}

-- `Iterator::find` on the headers, and `Head::header`.
unfoldable pub header_of : Headers → Text → Option Text
unfolding eq_ignore_ascii_case
header_of [] name = none
header_of ((field, value) ∷ hs) name =
    let rest = header_of hs name in if eq_ignore_ascii_case field name then some value else rest

-- `str::split` at commas
abbrev pub cons_part : ℕ → List Text → List Text
cons_part b [] = (b ∷ []) ∷ []
cons_part b (p ∷ ps) = (b ∷ p) ∷ ps

unfoldable pub split_commas : Text → List Text
split_commas [] = [] ∷ []
split_commas (b ∷ bs) =
    let rest = split_commas bs in if b == b',' then [] ∷ rest else cons_part b rest

-- `str::trim_end`: a text is cut where only white space is left.
unfoldable pub trim_end : Text → Text
unfolding trim_start
trim_end [] = []
trim_end (b ∷ bs) =
    let rest = trim_end bs in elim (trim_start (b ∷ bs)) [ [] ↦ [] | c ∷ cs ↦ b ∷ rest ]

unfoldable pub any_token : List Text → Text → Bool
unfolding trim_start trim_end eq_ignore_ascii_case
any_token [] token = false
any_token (p ∷ ps) token =
    eq_ignore_ascii_case (trim_end (trim_start p)) token || any_token ps token

unfoldable pub has_token : Text → Text → Bool
unfolding split_commas any_token
has_token value token = any_token (split_commas value) token

-- What `httparse` reports of a request; a field's value is bytes.
pub record Parsed : Type 0 where
  pub method : Option Text
  pub path : Option Text
  pub version : Option ℕ
  pub headers : List (Text × Bytes)

pub data ParseError : Type 0 where
  header_name header_value new_line status token too_many_headers version : ParseError

pub data Status : Type 0 where
  complete : ℕ → Parsed → Status
  partial : Status
  refused : ParseError → Status

unfoldable pub version_of : ℕ → Outcome Response Version
version_of n =
    if n == 0
    then ok http10
    else if n == 1
    then ok http11
    else err (closing (status_only 505 (text "HTTP Version Not Supported")))

abbrev pub add_header : Text × Bytes → Outcome Response Headers → Outcome Response Headers
add_header h (ok hs) = ok (h ∷ hs)
add_header h (err r) = err r

unfoldable pub text_headers : List (Text × Bytes) → Outcome Response Headers
text_headers [] = ok []
text_headers ((name, value) ∷ fields) =
    let rest = text_headers fields in
    if utf8_valid value
    then add_header (name, value) rest
    else err (bad_request (text "a header field value that is not text"))

abbrev pub or_empty : Option Text → Text
or_empty none = []
or_empty (some t) = t

unfoldable pub closes : Version → Text → Bool
unfolding has_token
closes http11 connection = has_token connection (text "close")
closes http10 connection = not (has_token connection (text "keep-alive"))

abbrev pub is_http11 : Version → Bool
is_http11 http11 = true
is_http11 http10 = false

unfoldable pub expects : Version → Option Text → Outcome Response Bool
unfolding eq_ignore_ascii_case
expects v none = ok false
expects v (some value) =
    if eq_ignore_ascii_case value (text "100-continue")
    then ok (is_http11 v)
    else err (closing (status_only 417 (text "Expectation Failed")))

-- `matches!(framing, Framing::Chunked) && v == Version::Http10`
abbrev pub chunked_before_11 : Framing → Version → Bool
chunked_before_11 chunked http10 = true
chunked_before_11 chunked http11 = false
chunked_before_11 empty v = false
chunked_before_11 (Framing.length n) v = false

abbrev pub built :
    Text → Text → Version → Headers → Framing → Outcome Response Bool → Outcome Response Head
built method target v headers framing (err r) = err r
built method target v headers framing (ok expects_continue) = ok (record {
  method = parse_method method;
  target = target;
  version = v;
  headers = headers;
  framing = framing;
  expects_continue = expects_continue;
  wants_close = closes v (or_empty (header_of headers (text "connection")));
})

abbrev pub with_framing :
    Text → Text → Version → Headers → Outcome Response Framing → Outcome Response Head
with_framing method target v headers (err r) = err r
with_framing method target v headers (ok framing) =
    if chunked_before_11 framing v
    then err (bad_request (text "`Transfer-Encoding: chunked` on an HTTP/1.0 request"))
    else built method target v headers framing (expects v (header_of headers (text "expect")))

abbrev pub with_headers : Text → Text → Version → Outcome Response Headers → Outcome Response Head
with_headers method target v (err r) = err r
with_headers method target v (ok headers) =
    with_framing method target v headers (framing_of headers)

abbrev pub with_version :
    Text → Text → List (Text × Bytes) → Outcome Response Version → Outcome Response Head
with_version method target fields (err r) = err r
with_version method target fields (ok v) = with_headers method target v (text_headers fields)

abbrev pub head_of :
    Option Text → Option Text → Option ℕ → List (Text × Bytes) → Outcome Response Head
head_of (some method) (some target) (some n) fields =
    with_version method target fields (version_of n)
head_of (some method) (some target) none fields =
    err (bad_request (text "a malformed request line"))
head_of (some method) none n fields = err (bad_request (text "a malformed request line"))
head_of none target n fields = err (bad_request (text "a malformed request line"))

unfoldable pub head_from : Parsed → Outcome Response Head
unfolding version_of text_headers expects closes header_of
head_from p = head_of p.method p.path p.version p.headers

unfoldable pub rejection : ParseError → Response
rejection version = closing (status_only 505 (text "HTTP Version Not Supported"))
rejection too_many_headers = too_long
rejection header_name = bad_request (text "a header field name that is not a token")
rejection header_value = bad_request (text "a header field value that is not text")
rejection token = bad_request (text "a malformed request line")
rejection new_line = bad_request (text "a stray carriage return")
rejection status = bad_request (text "a malformed request head")

-- The loop, over the lines that may still be counted; `cap + 1` of them at first.
unfoldable pub blank_lines : ℕ → Bytes → ℕ
blank_lines zero raw = 0
blank_lines (suc left) [] = 0
blank_lines (suc left) (b ∷ []) = if b == b'\n' then suc (blank_lines left []) else 0
blank_lines (suc left) (b ∷ c ∷ cs) =
    let after_crlf = suc (blank_lines left cs) in
    let after_lf = suc (blank_lines left (c ∷ cs)) in
    if b == b'\r' && c == b'\n' then after_crlf else if b == b'\n' then after_lf else 0

unfoldable pub blank_lines_before_a_request : Bytes → ℕ → ℕ
unfolding blank_lines
blank_lines_before_a_request raw cap = blank_lines (suc cap) raw

-- How reading a head ends: with the head, with nothing, or with the answer to a refusal.
abbrev pub HeadRead : Type 0
HeadRead = Outcome Response (Option Head) × Reader

abbrev pub given_head : Outcome Response Head → Outcome Response (Option Head)
given_head (ok head) = ok (some head)
given_head (err r) = err r

-- What `fill_buf`'s failure means: `clock` says whether the request has begun, and `expired`
-- whether its deadline has passed.
abbrev pub broken_off : Bool → Bool → Outcome Response (Option Head)
broken_off true true = err timed_out
broken_off true false = ok none
broken_off false expired = ok none

abbrev pub is_late : Reader → Bool
is_late [] = false
is_late (late ∷ w) = true
is_late (failed kind ∷ w) = false
is_late (bytes bs ∷ w) = false

abbrev pub too_many_blank_lines : Response
too_many_blank_lines =
    bad_request (text "more empty lines before a request line than this server ignores")

-- `available[..take].contains(&b'\n')`
unfoldable pub ended_a_line : Bytes → Bool
ended_a_line [] = false
ended_a_line (b ∷ bs) = b == b'\n' || ended_a_line bs

-- The two checks at the top of a pass.
abbrev pub checked : Limits → Bytes → Bool → Reader → HeadRead → HeadRead
checked limits raw started w rest =
    if leb limits.max_head_bytes (length raw)
    then (err too_long, w)
    else if started && is_late w
    then (err timed_out, w)
    else rest

-- What the parser's answer to the bytes so far makes of the piece at hand; `later` is what the
-- loop goes on to if it is asked for more.
abbrev pub answered : ℕ → Bytes → Reader → Status → HeadRead → HeadRead
answered consumed piece w (complete n parsed) later =
    (given_head (head_from parsed), unread (drop (n - consumed) piece) w)
answered consumed piece w partial later = later
answered consumed piece w (refused e) later = (err (rejection e), bytes piece ∷ w)

-- A pass over a piece of which `taken` fits under the ceiling, `raw` being the bytes with it.
abbrev pub head_pass : (Bytes → Status) → ℕ → Bytes → Bytes → Bytes → Reader → HeadRead → HeadRead
head_pass parse consumed raw taken piece w later =
    if ltb max_leading_blank_lines (blank_lines_before_a_request raw max_leading_blank_lines)
    then (err too_many_blank_lines, bytes piece ∷ w)
    else if ended_a_line taken
    then answered consumed piece w (parse raw) later
    else later

module _ (parse : Bytes → Status) (limits : Limits) where
  -- A piece longer than the room that is left fills `raw` to the ceiling, so that the next pass
  -- refuses the head.
  unfoldable pub head_loop : Bytes → ℕ → Bool → Reader → HeadRead
  unfolding ended_a_line
  head_loop raw consumed started [] = checked limits raw started [] (ok none, [])
  head_loop raw consumed started (late ∷ w) =
      checked limits raw started (late ∷ w) (head_loop raw consumed started w)
  head_loop raw consumed started (failed kind ∷ w) =
      let later = head_loop raw consumed started w in
      checked limits raw started (failed kind ∷ w)
        (if is_interrupt kind then later else (broken_off started (is_late w), w))
  head_loop raw consumed started (bytes [] ∷ w) =
      checked limits raw started (bytes [] ∷ w) (ok none, bytes [] ∷ w)
  head_loop raw consumed started (bytes (b ∷ bs) ∷ w) =
      let room = limits.max_head_bytes - length raw in
      let taken = take (min (length (b ∷ bs)) room) (b ∷ bs) in
      let later = head_loop (raw ++ b ∷ bs) (consumed + length (b ∷ bs)) true w in
      checked limits raw started (bytes (b ∷ bs) ∷ w) (
        head_pass parse consumed (raw ++ taken) taken (b ∷ bs) w (
          if leb (length (b ∷ bs)) room
          then later
          else (err too_long, unread (drop room (b ∷ bs)) w)))

  unfoldable pub read_head : Reader → HeadRead
  unfolding head_loop
  read_head = head_loop [] 0 false
