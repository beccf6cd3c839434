-- ===== src/Http1/Response.antt =====
-- src/transport/http1.rs: responses, and their bytes. `format!` of a number is its decimal text.
pub mod Lines
use sml_mcps.Prelude.{
  ℕ, Bool, true, false, not, ◌&&◌, ◌||◌, List, [], ◌∷◌, ◌++◌, leb, ◌==◌, if◌then◌else◌, length,
}
use sml_mcps.Prelude.Text.{Text, text}
use sml_mcps.Prelude.Decimal.{show}
use sml_mcps.Line.{Bytes}
use sml_mcps.Http1.{Headers, Method, get, head, post, delete, other, Version, http10, http11}

pub record Response : Type 0 where
  pub status : ℕ
  pub headers : Headers
  pub body : Bytes
  pub close : Bool

-- `u8::is_ascii_alphanumeric`
unfoldable pub is_alphanumeric : ℕ → Bool
is_alphanumeric b =
    leb b'0' b && leb b b'9' || (leb b'a' b && leb b b'z' || leb b'A' b && leb b b'Z')

unfoldable pub contains : Bytes → ℕ → Bool
contains [] b = false
contains (c ∷ cs) b = c == b || contains cs b

unfoldable pub token_byte : ℕ → Bool
unfolding is_alphanumeric contains
token_byte b = is_alphanumeric b || contains (text "!#$%&'*+-.^_`|~") b

unfoldable pub all_bytes : (ℕ → Bool) → Bytes → Bool
all_bytes p [] = true
all_bytes p (b ∷ bs) = p b && all_bytes p bs

unfoldable pub is_empty : Bytes → Bool
is_empty [] = true
is_empty (b ∷ bs) = false

unfoldable pub is_token : Text → Bool
unfolding is_empty all_bytes token_byte
is_token t = not (is_empty t) && all_bytes token_byte t

unfoldable pub field_byte : ℕ → Bool
field_byte b = b == b'\t' || leb 0x20 b

unfoldable pub is_field_value : Text → Bool
unfolding all_bytes field_byte
is_field_value = all_bytes field_byte

unfoldable pub new_response : ℕ → Response
new_response status = record { status = status; headers = []; body = []; close = false }

unfoldable pub with_header : Text → Text → Response → Response
unfolding is_field_value is_token
with_header name value r =
    if is_field_value value && is_token name
    then record r { headers = r.headers ++ (name, value) ∷ [] }
    else r

unfoldable pub with_body : Text → Bytes → Response → Response
unfolding with_header
with_body content_type body r =
    with_header (text "Content-Type") content_type (record r { body = body })

unfoldable pub closing : Response → Response
closing r = record r { close = true }

unfoldable pub bad_request : Text → Response
unfolding closing with_body new_response
bad_request why =
    closing (
      with_body (text "text/plain") (text "Bad Request: " ++ (why ++ text "\n")) (new_response 400))

unfoldable pub too_long : Response
unfolding closing with_body new_response
too_long =
    closing
      (with_body (text "text/plain") (text "Request Header Fields Too Large\n") (new_response 431))

unfoldable pub timed_out : Response
unfolding closing with_body new_response
timed_out = closing (with_body (text "text/plain") (text "Request Timeout\n") (new_response 408))

unfoldable pub status_only : ℕ → Text → Response
unfolding with_body new_response
status_only status reason =
    with_body (text "text/plain") (reason ++ text "\n") (new_response status)

unfoldable pub reason_phrase : ℕ → Text
reason_phrase status =
    if status == 200
    then text "OK"
    else if status == 202
    then text "Accepted"
    else if status == 204
    then text "No Content"
    else if status == 400
    then text "Bad Request"
    else if status == 401
    then text "Unauthorized"
    else if status == 403
    then text "Forbidden"
    else if status == 404
    then text "Not Found"
    else if status == 405
    then text "Method Not Allowed"
    else if status == 408
    then text "Request Timeout"
    else if status == 413
    then text "Payload Too Large"
    else if status == 417
    then text "Expectation Failed"
    else if status == 431
    then text "Request Header Fields Too Large"
    else if status == 500
    then text "Internal Server Error"
    else if status == 501
    then text "Not Implemented"
    else if status == 503
    then text "Service Unavailable"
    else if status == 505
    then text "HTTP Version Not Supported"
    else text "Status"

-- `matches!(response.status, 204 | 304)`, and a HEAD request.
unfoldable pub lengthless : ℕ → Bool
lengthless status = status == 204 || status == 304

unfoldable pub is_head : Method → Bool
is_head head = true
is_head get = false
is_head post = false
is_head delete = false
is_head (other t) = false

unfoldable pub version_line : Version → Text
version_line http10 = text "HTTP/1.0"
version_line http11 = text "HTTP/1.1"

-- each line without the CRLF that `format!` puts behind it
unfoldable pub status_line : Version → ℕ → Text
unfolding version_line reason_phrase
status_line version status =
    version_line version ++ (text " " ++ (show status ++ (text " " ++ reason_phrase status)))

abbrev pub crlf : Text
crlf = b'\r' ∷ b'\n' ∷ []

unfoldable pub header_lines : Headers → Bytes
header_lines [] = []
header_lines ((name, value) ∷ hs) = (name ++ (text ": " ++ (value ++ crlf))) ++ header_lines hs

unfoldable pub length_line : Response → Bytes
unfolding lengthless
length_line r =
    if lengthless r.status then [] else text "Content-Length: " ++ (show (length r.body) ++ crlf)

unfoldable pub connection_line : Bool → Bytes
connection_line keep_alive =
    (if keep_alive then text "Connection: keep-alive" else text "Connection: close") ++ crlf

unfoldable pub sent_body : Method → Response → Bytes
unfolding lengthless is_head
sent_body method r = if lengthless r.status || is_head method then [] else r.body

unfoldable pub render : Method → Version → Response → Bool → Bytes
unfolding status_line header_lines length_line connection_line sent_body
render method version r keep_alive =
    (status_line version r.status ++ crlf)
    ++ (header_lines r.headers
        ++ (length_line r ++ (connection_line keep_alive ++ (crlf ++ sent_body method r))))
