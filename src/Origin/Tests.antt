-- ===== src/Origin/Tests.antt =====
-- src/transport/origin.rs: the theorems at concrete origins, and origins that are refused.
use sml_mcps.Prelude.{◌≡◌, ◌↔◌, refl, Bool, true, false, Option, none, some, [], ◌∷◌, if◌then◌else◌}
use sml_mcps.Prelude.Text.{Text, text, text_eq}
use sml_mcps.Prelude.Decimal.{parse_uint}
use sml_mcps.Server.Logging.{to_ascii_lowercase, lower_byte}
use sml_mcps.Rpc.Classify.{trim_start}
use sml_mcps.Http1.ReadHead.{trim_end}
use sml_mcps.Http1.Response.{contains, all_bytes}
use sml_mcps.Http1.FramingOf.{is_digit}
use sml_mcps.Origin.{loopback, allowlist, origin_parts, is_allowed}
use sml_mcps.Origin.Hosts.{IsLoopbackName, is_allowed_host}
use sml_mcps.Origin.Brackets.{bracketed_origin, name_byte, is_allowed_brackets}

-- Only the two loopback addresses, and one that is none.
abbrev some_ips : Text → Option Bool
some_ips t =
    if text_eq t (text "::1")
    then some true
    else if text_eq t (text "127.0.0.1")
    then some true
    else if text_eq t (text "10.0.0.1")
    then some false
    else none

abbrev app_origin : Text
app_origin = text "HTTP://Evil.localhost:80/"

app_parts :
    origin_parts (trim_end (trim_start app_origin))
    ≡ some (text "HTTP", text "Evil.localhost", some (text "80"))
unfolding origin_parts trim_end trim_start text to_ascii_lowercase lower_byte parse_uint is_digit
app_parts = refl

app_free : contains (text "Evil.localhost") b'[' ≡ false
unfolding contains text
app_free = refl

app_no_colon : contains (text "Evil.localhost") b':' ≡ false
unfolding contains text
app_no_colon = refl

is_allowed_host_example :
    (is_allowed some_ips loopback app_origin ≡ true)
    ↔ IsLoopbackName some_ips (to_ascii_lowercase (text "Evil.localhost"))
is_allowed_host_example =
    is_allowed_host some_ips app_origin (text "HTTP") (text "Evil.localhost") (some (text "80"))
      app_parts app_free app_no_colon

evil_name : all_bytes name_byte (text "evil.example") ≡ true
unfolding all_bytes name_byte text
evil_name = refl

loopback_known : some_ips (text "::1") ≡ some true
unfolding text text_eq
loopback_known = refl

is_allowed_brackets_example :
    is_allowed some_ips loopback (bracketed_origin (text "evil.example")) ≡ true
is_allowed_brackets_example =
    is_allowed_brackets some_ips (text "evil.example") evil_name loopback_known

remote_refused : is_allowed some_ips loopback (text "http://10.0.0.1:3000") ≡ false
unfolding is_allowed text to_ascii_lowercase lower_byte parse_uint text_eq is_digit
remote_refused = refl

listed :
    is_allowed some_ips (allowlist (text "https://App.example/" ∷ [])) (text "https://app.example")
    ≡ true
unfolding is_allowed allowlist text to_ascii_lowercase lower_byte parse_uint text_eq
listed = refl
