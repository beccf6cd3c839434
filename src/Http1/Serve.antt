-- ===== src/Http1/Serve.antt =====
-- src/transport/http1.rs: `serve_connection`, one connection from its first request to its last.
-- The handler is a parameter: what it asks of the body before it answers, or that it panics.
pub mod Sound
pub mod Ends
pub mod Slots
use sml_mcps.Prelude.{
  ℕ, zero, suc, Bool, true, false, not, ◌&&◌, ◌||◌, Option, none, some, List, [], ◌∷◌, ◌++◌,
  if◌then◌else◌,
}
use sml_mcps.Prelude.Text.{Text, text}
use sml_mcps.Line.{Bytes}
use sml_mcps.Http1.{
  Framing, empty, length, chunked, Head, Method, get, Version, http10, http11, BodyError, Outcome,
  ok, err, Limits,
}
use sml_mcps.Http1.Wire.{Reader}
use sml_mcps.Http1.Response.{Response, new_response, with_body, closing, render}
use sml_mcps.Http1.ReadHead.{Status, HeadRead, read_head, is_http11}
use sml_mcps.Http1.Body.{Socket, Body, BodyRead, read, drain_if_cheap, write_all}

-- A handler holds the request while it runs: it may read the body, with a limit of its own, and
-- goes on by what that gives.
pub data Handler : Type 0 where
  respond : Response → Handler
  panics : Handler
  read_body : ℕ → (Outcome BodyError Bytes → Handler) → Handler

abbrev pub is_empty_framing : Framing → Bool
is_empty_framing empty = true
is_empty_framing (length n) = false
is_empty_framing chunked = false

unfoldable pub body_of : Head → Body
body_of head = record {
  framing = head.framing;
  must_send_continue = head.expects_continue;
  finished = is_empty_framing head.framing;
  started = false;
}

-- what `catch_unwind` answers for a handler that panicked
unfoldable pub internal_error : Response
unfolding new_response with_body closing
internal_error =
    closing (with_body (text "text/plain") (text "Internal Server Error\n") (new_response 500))

abbrev pub reusable_by : Head → Response → Body → Bool
reusable_by head response body =
    is_http11 head.version && (not head.wants_close && (not response.close && body.finished))

-- `write_response`
unfoldable pub write_response : Method → Version → Response → Socket → Bool × Socket
unfolding render write_all
write_response method version response s =
    write_all (render method version response (not response.close)) s

abbrev pub kept : Bool → Bool × Socket → Bool × Socket
kept reusable (sent, s) = (reusable && sent, s)

-- The answer goes out; the flag says whether the connection stays open.
unfoldable pub answer : Head → Response × Body × Socket → Bool × Socket
unfolding write_response closing
answer head (response, body, s) =
    let reusable = reusable_by head response body in
    kept reusable
      (write_response head.method head.version (if reusable then response else closing response) s)

abbrev pub drained_then : Response → Body × Socket → Response × Body × Socket
drained_then response (body, s) = (response, body, s)

module _ (chunk_size : Bytes → Option ℕ) where
  unfoldable pub run : Handler → Body → Socket → Response × Body × Socket
  unfolding internal_error read
  run (respond response) body s = (response, body, s)
  run panics body s = (internal_error, body, s)
  run (read_body limit next) body s =
      let (result, body', s') = read chunk_size limit body s in run (next result) body' s'

  module _ (parse : Bytes → Status) (limits : Limits) (handle : Head → Handler) where
    abbrev pub drained_run : Response × Body × Socket → Response × Body × Socket
    drained_run (response, body, s) =
        drained_then response (drain_if_cheap limits.max_body_bytes body s)

    unfoldable pub serve_head : Head → Socket → Bool × Socket
    unfolding run body_of drain_if_cheap answer
    serve_head head s = answer head (drained_run (run (handle head) (body_of head) s))

    abbrev pub serve_read : Socket → HeadRead → Bool × Socket
    serve_read s (ok none, w) = (false, record s { reader = w })
    serve_read s (ok (some head), w) = serve_head head (record s { reader = w })
    serve_read s (err rejection, w) =
        (false, (write_response get http11 rejection (record s { reader = w })).1)

    -- One pass of the loop; the flag says whether there is another.
    unfoldable pub serve_pass : Socket → Bool × Socket
    unfolding read_head write_response serve_head
    serve_pass s = serve_read s (read_head parse limits s.reader)

    abbrev pub go_on : (Socket → Option Socket) → Bool × Socket → Option Socket
    go_on again (true, s) = again s
    go_on again (false, s) = some s

    -- `none` means that the fuel ran out.
    unfoldable pub serve_connection : ℕ → Socket → Option Socket
    unfolding serve_pass
    serve_connection zero s = none
    serve_connection (suc fuel) s = go_on (serve_connection fuel) (serve_pass s)
