-- ===== src/Http1/Tests.antt =====
-- src/transport/http1.rs: runs of the HTTP/1.1 server, and the theorems at concrete inputs.
use sml_mcps.Prelude.{
  ℕ, zero, suc, ◌+◌, ◌-◌, ◌<◌, ◌≤◌, ◌≡◌, ◌≢◌, refl, sym, ap, ◌∙◌, Bool, true, false, Option, none,
  some, List, [], ◌∷◌, ◌++◌, arith, Option-cases, inl, inr, length-append,
}
use sml_mcps.Prelude
use sml_mcps.Prelude.Text.{text}
use sml_mcps.Error.{interrupted}
use sml_mcps.Line.{Bytes, split_line, is_interrupt}
use sml_mcps.Line.Framing.{append-split_line, split_line_extend, split_line-append, split_line_ends}
use sml_mcps.Line.Utf8.{utf8_valid}
use sml_mcps.Http1.{get, http11, Framing, chunked, Head, Headers, default_limits, ok}
use sml_mcps.Http1.Wire.{
  failed, bytes, Reader, is_line_text, read_line, line_loop, finish_line, read_exactly,
}
use sml_mcps.Http1.Wire.Stream.{flat, take_front, IsPrompt}
use sml_mcps.Http1.Response.{Response, new_response, with_header, render, sent_body}
use sml_mcps.Http1.Response.Lines.{Built, IsLines, response_lines, render-IsLines}
use sml_mcps.Http1.Chunked.{
  parse_chunk_size, read_chunked_loop, chunk_pass, framed, read_trailers, trailers_loop,
}
use sml_mcps.Http1.Chunked.Encoding.{Encoding, IsEncoding, encode, contents}
use sml_mcps.Http1.Chunked.Complete.{read_chunked-encode}
use sml_mcps.Http1.Chunked.Sound.{read_chunked_sound}
use sml_mcps.Http1.ReadHead.{
  Parsed, Status, complete, partial, head_from, read_head, head_loop, blank_lines_before_a_request,
}
use sml_mcps.Http1.ReadHead.Passes.{IsParser}
use sml_mcps.Http1.FramingOf.{framing_of, read_length}
use sml_mcps.Server.Logging.{lower_byte}
use sml_mcps.Prelude.Decimal.{parse_uint}
use sml_mcps.Http1.FramingOf.Reads.{accepted, agreed, values, framing_of-agreed}
use sml_mcps.Http1.Body.{Socket, read}
use sml_mcps.Http1.Body.Answers.{HandedOver, fresh_body, read-Carries}
use sml_mcps.Http1.Body.Bounds.{Fits, read-Fits}
use sml_mcps.Http1.Serve.{Handler, respond, serve_pass, serve_connection}
use sml_mcps.Http1.Serve.Sound.{Served, serve_pass-Served}
use sml_mcps.Http1.Serve.Ends.{serve_connection_ends}
use sml_mcps.Http1.Serve.Slots.{
  Slots, Phase, before, claimed, turned_away, IsCounted, run_steps, run_steps-IsCounted,
}

-- A chunk size of one digit.
abbrev one_digit : Bytes → Option ℕ
one_digit [] = none
one_digit (b ∷ bs) = some (b - 48)

-- A parser for which a head is one line, and says the same of each.
abbrev plain_request : Parsed
plain_request = record {
  method = some (text "GET");
  path = some (text "/");
  version = some 1;
  headers = [];
}

abbrev line_status : Option (Bytes × Bytes) → Status
line_status none = partial
line_status (some (line, rest)) = complete (Prelude.length line) plain_request

abbrev first_line : Bytes → Status
first_line raw = line_status (split_line raw)

first_line_found :
    (raw : Bytes) (n : ℕ) (p : Parsed)
    → first_line raw ≡ complete n p
    → (line : Bytes) × (rest : Bytes) × (split_line raw ≡ some (line, rest))
      × (n ≡ Prelude.length line)
      × (p ≡ plain_request)
first_line_found raw n p h = elim (Option-cases (split_line raw)) [
  | inl e ↦ let no : ◌≡◌ {A = Status} partial (complete n p) = rw e at h in cc
  | inr ((line, rest), e) ↦
      let same : ◌≡◌ {A = Status} (complete (Prelude.length line) plain_request) (complete n p) =
        rw e at h in
      (line, rest, e, cc, cc)
]

first_line_short :
    (a b line rest : Bytes)
    → split_line (a ++ b) ≡ some (line, rest)
    → Prelude.length line ≤ Prelude.length a
    → (rest' : Bytes) × (split_line a ≡ some (line, rest'))
first_line_short a b line rest h le = elim (Option-cases (split_line a)) [
  | inl e ↦
      let joined = split_line-append a b e in
      elim (Option-cases (split_line b)) [
        | inl e' ↦ absurd (ground (arith, e', joined))
        | inr (q, e') ↦
            let (x, ends) = split_line_ends b q.0 q.1 e' in
            let longer : line ≡ a ++ q.0 = ground (arith, e', joined) in
            absurd (
              omega (
                arith,
                ap Prelude.length longer,
                length-append a q.0,
                ap Prelude.length ends,
                length-append x (b'\n' ∷ []),
              ))
      ]
  | inr ((line', rest'), e) ↦ let longer = split_line_extend a b line' rest' e in (rest', cc)
]

first_line_law : IsParser first_line
first_line_law = record {
  within = λ raw n p h.
      let (line, rest, e, size, _) = first_line_found raw n p h in
      omega (
        arith,
        size,
        ap Prelude.length (append-split_line raw line rest e),
        length-append line rest,
      );
  newline = λ raw n p h.
      let (line, rest, e, size, _) = first_line_found raw n p h in
      let (x, ends) = split_line_ends raw line rest e in
      (
        x,
        ap (λ (k : ℕ). Prelude.take k raw) size
            ∙ (ap (λ (t : Bytes). Prelude.take (Prelude.length line) t)
                  (append-split_line raw line rest e)
                ∙ (take_front line rest ∙ ends)),
      );
  settled = λ a b n p h le.
      let (line, rest, e, size, same) = first_line_found (a ++ b) n p h in
      let (rest', e') = first_line_short a b line rest e (omega (arith, size)) in
      ap line_status e' ∙ cc;
}

-- Two chunks, one of them with an extension, and a trailer.
abbrev hello : Encoding
hello = record {
  chunks =
      record { line = text "3"; content = text "hel" }
      ∷ record { line = text "2;last"; content = text "lo" }
      ∷ [];
  last_line = text "0";
  trailers = text "a: b" ∷ [];
}

hello-IsEncoding : IsEncoding one_digit hello
unfolding parse_chunk_size is_line_text utf8_valid text
hello-IsEncoding = record {
  chunks_valid =
      (((refl, omega arith), refl, omega arith), (((refl, omega arith), refl, omega arith), tt));
  last_framed = (refl, omega arith);
  last_zero = refl;
  trailers_valid = (((refl, omega arith), λ e. cc), tt);
  trailers_few = omega arith;
}

-- The encoding in three pieces, the next request behind it, and an interrupted read between.
abbrev hello_bytes : Bytes
hello_bytes = encode hello (text "GET")

abbrev hello_reader : Reader
hello_reader =
    bytes (Prelude.take 4 hello_bytes)
    ∷ failed interrupted
    ∷ bytes (Prelude.take 20 (Prelude.drop 4 hello_bytes))
    ∷ bytes (Prelude.drop 24 hello_bytes)
    ∷ []

read_chunked-encode_example :
    (w' : Reader) × (read_chunked_loop one_digit 9 100 [] hello_reader
      ≡ some (ok (contents hello.chunks), w'))
    × IsPrompt w'
    × (flat w' ≡ text "GET")
unfolding text is_interrupt
read_chunked-encode_example =
    read_chunked-encode one_digit 9 100 (text "GET") hello hello_reader hello-IsEncoding
      (omega arith) (omega arith) (refl, tt) refl

read_chunked_ran :
    read_chunked_loop one_digit 9 100 [] hello_reader
    ≡ some (ok (text "hello"), bytes (text "GET") ∷ [])
unfolding text read_chunked_loop chunk_pass parse_chunk_size framed read_trailers trailers_loop
    read_line line_loop finish_line read_exactly split_line is_line_text utf8_valid is_interrupt
read_chunked_ran = refl

read_chunked_sound_example :
    (e : Encoding) × IsEncoding one_digit e
    × (text "hello" ≡ contents e.chunks)
    × (Prelude.length (text "hello") ≤ 100)
    × (flat hello_reader ≡ encode e (text "GET"))
unfolding text
read_chunked_sound_example =
    read_chunked_sound one_digit 9 100 (text "hello") hello_reader (bytes (text "GET") ∷ [])
      read_chunked_ran

hello_valid : utf8_valid (text "hello") ≡ true
unfolding utf8_valid text
hello_valid = refl

abbrev posted : Socket
posted = record { reader = hello_reader; written = []; writes = [] }

-- The client waits for `100 Continue`, which can be written.
abbrev asking : Socket
asking = record { reader = hello_reader; written = []; writes = true ∷ [] }

read-Carries_example :
    HandedOver one_digit 100 chunked true false asking (text "hello") (text "GET")
unfolding text is_interrupt
read-Carries_example =
    read-Carries one_digit 100 chunked true false (text "hello") (text "GET") asking hello_valid
      (omega arith) (refl, tt) refl (hello, hello-IsEncoding, refl, refl)

read-Fits_example :
    Fits 100 (read one_digit 100 (fresh_body one_digit chunked false false) posted).0
read-Fits_example = read-Fits one_digit 100 (fresh_body one_digit chunked false false) posted

-- Two requests in one piece, the first of them answered and the connection kept.
abbrev two_requests : Socket
two_requests = record {
  reader = bytes (text "a\nb\n") ∷ [];
  written = [];
  writes = true ∷ true ∷ [];
}

abbrev ok_handler : Head → Handler
ok_handler head = respond (new_response 204)

abbrev one_left : Socket
one_left = (serve_pass one_digit first_line default_limits ok_handler two_requests).1

served : serve_pass one_digit first_line default_limits ok_handler two_requests ≡ (true, one_left)
unfolding text serve_pass read_head head_loop blank_lines_before_a_request split_line head_from
    framing_of
served = refl

serve_pass-Served_example :
    Served one_digit first_line first_line_law default_limits ok_handler two_requests one_left
serve_pass-Served_example =
    serve_pass-Served one_digit first_line first_line_law default_limits ok_handler two_requests
      one_left served

serve_connection_ends_example :
    serve_connection one_digit first_line default_limits ok_handler 5 two_requests ≢ none
unfolding text
serve_connection_ends_example =
    serve_connection_ends one_digit first_line first_line_law default_limits ok_handler 5
      two_requests (omega arith)

-- A response with a value that would forge a header, which is dropped.
abbrev forged : Response
forged = with_header (text "X") (text "1\nSet-Cookie: a") (new_response 200)

render-IsLines_example :
    IsLines
      (response_lines http11 forged true)
      (sent_body get forged)
      (render get http11 forged true)
render-IsLines_example =
    render-IsLines get http11 forged true
      (Built.header (text "X") (text "1\nSet-Cookie: a") (Built.new 200))

-- Two threads race for the last slot of two.
abbrev racing : Slots
racing = record { live = 1; threads = claimed ∷ before ∷ before ∷ [] }

abbrev race : List (ℕ × Bool)
race = (1, false) ∷ (2, false) ∷ (1, false) ∷ (2, false) ∷ (2, false) ∷ (0, false) ∷ []

run_steps-IsCounted_example : IsCounted 2 (run_steps 2 race racing)
run_steps-IsCounted_example = run_steps-IsCounted 2 race racing (omega arith)

race_ran :
    run_steps 2 race racing
    ≡ record { live = 1; threads = Phase.dropped ∷ claimed ∷ turned_away ∷ [] }
unfolding run_steps
race_ran = refl

-- Two lengths that agree, among other headers.
abbrev some_headers : Headers
some_headers =
    (text "Host", text "a")
    ∷ (text "content-LENGTH", text "5")
    ∷ (text "Content-Length", text "5")
    ∷ []

framing_of-agreed_example :
    accepted (framing_of some_headers)
    ≡ agreed
        (values (text "transfer-encoding") some_headers)
        (values (text "content-length") some_headers)
framing_of-agreed_example = framing_of-agreed some_headers

framing_ran : framing_of some_headers ≡ ok (Framing.length 5)
unfolding framing_of text lower_byte read_length parse_uint
framing_ran = refl
