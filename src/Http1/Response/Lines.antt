-- ===== src/Http1/Response/Lines.antt =====
-- src/transport/http1.rs: the lines of a response on the wire. No header value can add one.
use sml_mcps.Prelude.{
  ℕ, ◌≡◌, refl, sym, ◌∙◌, ap, subst, Bool, true, false, ◌&&◌, some, List, [], ◌∷◌, ◌++◌, arith,
  if◌then◌else◌, length, append_assoc, Bool-cases, inl, inr, All, All-append,
}
use sml_mcps.Prelude.Text.{Text, text}
use sml_mcps.Prelude.Decimal.{show, show-IsDigit, IsDigit}
use sml_mcps.Line.{Bytes, split_line}
use sml_mcps.Line.Framing.{IsOpen, split_line_newline}
use sml_mcps.Http1.{Headers, Method, Version, http10, http11}
use sml_mcps.Http1.Response.{
  Response, is_alphanumeric, contains, token_byte, all_bytes, is_token, field_byte, is_field_value,
  new_response, with_header, with_body, closing, status_line, version_line, reason_phrase, crlf,
  header_lines, length_line, connection_line, sent_body, render, lengthless,
}

-- No byte ends a line.
abbrev pub IsPlain : Text → Type 0
IsPlain t = all_bytes field_byte t ≡ true

token_byte_plain : (b : ℕ) → token_byte b ≡ true → field_byte b ≡ true
unfolding token_byte field_byte is_alphanumeric contains text
token_byte_plain b h = ground arith

all_bytes_mono :
    (p q : ℕ → Bool) (t : Text)
    → ((b : ℕ) → p b ≡ true → q b ≡ true)
    → all_bytes p t ≡ true
    → all_bytes q t ≡ true
unfolding all_bytes
all_bytes_mono p q [] step h = refl
all_bytes_mono p q (b ∷ bs) step h = ground (arith, step b, all_bytes_mono p q bs step)

all_bytes-append :
    (p : ℕ → Bool) (s t : Text)
    → all_bytes p s ≡ true
    → all_bytes p t ≡ true
    → all_bytes p (s ++ t) ≡ true
unfolding all_bytes
all_bytes-append p [] t hs ht = ht
all_bytes-append p (b ∷ s) t hs ht = ground (arith, all_bytes-append p s t)

IsPlain-IsOpen : (t : Text) → IsPlain t → IsOpen (t ++ b'\r' ∷ [])
unfolding all_bytes field_byte split_line
IsPlain-IsOpen [] h = refl
IsPlain-IsOpen (b ∷ bs) h = ground (arith, IsPlain-IsOpen bs)

abbrev pub header_line : Text × Text → Text
header_line (name, value) = name ++ (text ": " ++ value)

abbrev header_texts : Headers → List Text
header_texts [] = []
header_texts (h ∷ hs) = header_line h ∷ header_texts hs

abbrev length_texts : Response → List Text
length_texts r =
    if lengthless r.status then [] else (text "Content-Length: " ++ show (length r.body)) ∷ []

abbrev connection_text : Bool → Text
connection_text keep_alive =
    if keep_alive then text "Connection: keep-alive" else text "Connection: close"

-- The lines that a response is meant to have.
unfoldable pub response_lines : Version → Response → Bool → List Text
response_lines version r keep_alive =
    status_line version r.status
    ∷ (header_texts r.headers ++ (length_texts r ++ connection_text keep_alive ∷ []))

-- Cut at its newlines, `bs` is these lines, a blank one, and `rest`.
abbrev pub IsLines : List Text → Bytes → Bytes → Type 0
IsLines [] rest bs = split_line bs ≡ some (crlf, rest)
IsLines (l ∷ ls) rest bs =
    (more : Bytes) × (split_line bs ≡ some (l ++ crlf, more)) × IsLines ls rest more

abbrev joined : List Text → Bytes → Bytes
joined [] rest = crlf ++ rest
joined (l ∷ ls) rest = (l ++ crlf) ++ joined ls rest

split_line_plain :
    (l more : Bytes) → IsPlain l → split_line ((l ++ crlf) ++ more) ≡ some (l ++ crlf, more)
split_line_plain l more h =
    ap split_line (append_assoc l crlf more ∙ sym (append_assoc l (b'\r' ∷ []) (b'\n' ∷ more)))
    ∙ (split_line_newline (l ++ b'\r' ∷ []) more (IsPlain-IsOpen l h)
        ∙ ap (λ (u : Bytes). some (u, more)) (append_assoc l (b'\r' ∷ []) (b'\n' ∷ [])))

IsPlain-nil : IsPlain []
unfolding all_bytes
IsPlain-nil = refl

joined-IsLines : (ls : List Text) (rest : Bytes) → All IsPlain ls → IsLines ls rest (joined ls rest)
joined-IsLines [] rest v = split_line_plain [] rest IsPlain-nil
joined-IsLines (l ∷ ls) rest v =
    (joined ls rest, split_line_plain l (joined ls rest) v.0, joined-IsLines ls rest v.1)

header_lines-append :
    (hs : Headers) (ls : List Text) (rest : Bytes)
    → header_lines hs ++ joined ls rest ≡ joined (header_texts hs ++ ls) rest
unfolding header_lines
header_lines-append [] ls rest = refl
header_lines-append ((name, value) ∷ hs) ls rest =
    simp (append_assoc, header_lines-append hs ls rest)

length_line-append :
    (r : Response) (ls : List Text) (rest : Bytes)
    → length_line r ++ joined ls rest ≡ joined (length_texts r ++ ls) rest
unfolding length_line
length_line-append r ls rest = elim (Bool-cases (lengthless r.status)) [
  | inl e ↦ rw e refl
  | inr e ↦ rw e (simp append_assoc)
]

render-joined :
    (method : Method) (version : Version) (r : Response) (keep_alive : Bool)
    → render method version r keep_alive
      ≡ joined (response_lines version r keep_alive) (sent_body method r)
unfolding render response_lines connection_line
render-joined method version r keep_alive =
    let conn = connection_text keep_alive ∷ [] in
    let rest = sent_body method r in
    ap (λ (u : Bytes). (status_line version r.status ++ crlf) ++ u)
      (ap (λ (u : Bytes). header_lines r.headers ++ u) (length_line-append r conn rest)
        ∙ header_lines-append r.headers (length_texts r ++ conn) rest)

-- How the code makes a response.
pub data Built : Response → Type 0 where
  new : (status : ℕ) → Built (new_response status)
  header : {r : Response} (name value : Text) → Built r → Built (with_header name value r)
  body :
      {r : Response} (content_type : Text) (bs : Bytes)
      → Built r
      → Built (with_body content_type bs r)
  close : {r : Response} → Built r → Built (closing r)

abbrev IsSafe : Response → Type 0
IsSafe r = All (λ h. (is_field_value h.1 && is_token h.0) ≡ true) r.headers

with_header-IsSafe :
    (name value : Text) (r : Response) → IsSafe r → IsSafe (with_header name value r)
unfolding with_header
with_header-IsSafe name value r s = elim (Bool-cases (is_field_value value && is_token name)) [
  | inl e ↦ rw e (All-append _ r.headers ((name, value) ∷ []) s (e, tt))
  | inr e ↦ rw e s
]

Built-IsSafe : {r : Response} → Built r → IsSafe r
unfolding new_response with_body closing
Built-IsSafe (new status) = tt
Built-IsSafe (header {r} name value b) = with_header-IsSafe name value r (Built-IsSafe b)
Built-IsSafe (body {r} content_type bs b) =
    with_header-IsSafe (text "Content-Type") content_type (record r { body = bs }) (Built-IsSafe b)
Built-IsSafe (close b) = Built-IsSafe b

colon-IsPlain : IsPlain (text ": ")
unfolding all_bytes field_byte text
colon-IsPlain = refl

header-IsPlain :
    (name value : Text)
    → (is_field_value value && is_token name) ≡ true
    → IsPlain (header_line (name, value))
unfolding is_field_value is_token
header-IsPlain name value h =
    let value-IsPlain : IsPlain value = ground arith in
    let tokens : all_bytes token_byte name ≡ true = ground arith in
    all_bytes-append field_byte name (text ": " ++ value)
      (all_bytes_mono token_byte field_byte name token_byte_plain tokens)
      (all_bytes-append field_byte (text ": ") value colon-IsPlain value-IsPlain)

header_texts-IsPlain :
    (hs : Headers)
    → All (λ h. (is_field_value h.1 && is_token h.0) ≡ true) hs
    → All IsPlain (header_texts hs)
header_texts-IsPlain [] v = tt
header_texts-IsPlain ((name, value) ∷ hs) v =
    (header-IsPlain name value v.0, header_texts-IsPlain hs v.1)

digits-IsPlain : (t : Text) → All IsDigit t → IsPlain t
unfolding all_bytes field_byte
digits-IsPlain [] v = refl
digits-IsPlain (b ∷ bs) v = ground (arith, digits-IsPlain bs v.1)

reason_phrase-IsPlain : (status : ℕ) → IsPlain (reason_phrase status)
unfolding reason_phrase all_bytes field_byte text
reason_phrase-IsPlain status = ground arith

space-IsPlain : IsPlain (text " ")
unfolding all_bytes field_byte text
space-IsPlain = refl

version-IsPlain : (v : Version) → IsPlain (version_line v)
unfolding version_line all_bytes field_byte text
version-IsPlain http10 = refl
version-IsPlain http11 = refl

status_line-IsPlain : (v : Version) (status : ℕ) → IsPlain (status_line v status)
unfolding status_line
status_line-IsPlain v status = all_bytes-append field_byte (version_line v) _ (version-IsPlain v) (
    all_bytes-append field_byte (text " ") _ space-IsPlain (
      all_bytes-append field_byte (show status) _
        (digits-IsPlain (show status) (show-IsDigit status))
        (all_bytes-append field_byte (text " ") _ space-IsPlain (reason_phrase-IsPlain status))))

length-IsPlain : IsPlain (text "Content-Length: ")
unfolding all_bytes field_byte text
length-IsPlain = refl

length_texts-IsPlain : (r : Response) → All IsPlain (length_texts r)
length_texts-IsPlain r = elim (Bool-cases (lengthless r.status)) [
  | inl e ↦ rw e tt
  | inr e ↦ rw e (
    all_bytes-append field_byte (text "Content-Length: ") (show (length r.body)) length-IsPlain
        (digits-IsPlain (show (length r.body)) (show-IsDigit (length r.body))),
    tt,
  )
]

connection_text-IsPlain : (keep_alive : Bool) → IsPlain (connection_text keep_alive)
unfolding all_bytes field_byte text
connection_text-IsPlain true = refl
connection_text-IsPlain false = refl

response_lines-IsPlain :
    (version : Version) (r : Response) (keep_alive : Bool)
    → IsSafe r
    → All IsPlain (response_lines version r keep_alive)
unfolding response_lines
response_lines-IsPlain version r keep_alive s = (
  status_line-IsPlain version r.status,
  All-append IsPlain (header_texts r.headers) (length_texts r ++ connection_text keep_alive ∷ [])
      (header_texts-IsPlain r.headers s)
      (All-append IsPlain (length_texts r) (connection_text keep_alive ∷ [])
        (length_texts-IsPlain r) (connection_text-IsPlain keep_alive, tt)),
)

-- The bytes of a response that is made by the constructors of `Response`, whatever texts are
-- given for the names and values of its headers, cut at their newlines: the status line, one
-- line for each header, a `Content-Length` with the body's length unless the status is 204 or
-- 304, one `Connection` line, and a blank line; what is left is the body, and nothing of it
-- where the status or the method excludes one. No header value adds a line.
pub render-IsLines :
    (method : Method) (version : Version) (r : Response) (keep_alive : Bool)
    → Built r
    → IsLines
        (response_lines version r keep_alive)
        (sent_body method r)
        (render method version r keep_alive)
render-IsLines method version r keep_alive b =
    subst (λ (u : Bytes). IsLines (response_lines version r keep_alive) (sent_body method r) u)
      (sym (render-joined method version r keep_alive))
      (joined-IsLines (response_lines version r keep_alive) (sent_body method r)
        (response_lines-IsPlain version r keep_alive (Built-IsSafe b)))
