-- ===== src/Http/Tests.antt =====
-- src/transport/http.rs: the theorems at concrete messages and requests.
use sml_mcps.Prelude.{
  false, ◌<◌, length, ℕ, ◌≡◌, refl, Bool, true, Option, none, some, List, [], ◌∷◌, ◌++◌, arith,
}
use sml_mcps.Prelude.Text.{Text, text, text_eq, text_has_eq}
use sml_mcps.Prelude.Int.{ℤ}
use sml_mcps.Prelude.Assoc.{lookup}
use sml_mcps.Error.{McpError}
use sml_mcps.Error
use sml_mcps.Server.Logging.{info, lower_byte}
use sml_mcps.Http1.{Outcome, ok, post, get}
use sml_mcps.Http1.Response.{contains}
use sml_mcps.Auth.{Claims, JwtError, new_validator}
use sml_mcps.Auth.Resource.{ProtectedResourceMetadata, new_metadata}
use sml_mcps.Rpc.{RequestId, JsonRpcMessage, notification, response}
use sml_mcps.Http.{HttpTransport, new_transport, answer_from}
use sml_mcps.Http.Answers.{write_messages, expected, first_response, answer_from-write_messages}
use sml_mcps.Http.Sessions.{
  max_sessions, Session, SessionEntry, Sessions, ServerState, default_session, worth_keeping, key,
  owner_of, checkout, check_in, terminate,
}
use sml_mcps.Http.Sessions.Calls.{Call, check_out, check_back, end_session, run_calls}
use sml_mcps.Http.Sessions.Bounds.{IsWithin, run_calls-IsWithin}
use sml_mcps.Http.Sessions.Leaves.{HoldsOnce}
use sml_mcps.Http.Sessions.Isolation.{IsKept, run_calls-IsKept}
use sml_mcps.Http.Sessions.Owners.{IsHalf}
use sml_mcps.Http.Sessions.Visits.{checkout-check_in}
use sml_mcps.Http.Gate.{HttpServer, Request, new_server, before_query, challenge, body_response}
use sml_mcps.Http.Gate.Checks.{precheck}
use sml_mcps.Auth.Quoted.{read_quoted}
use sml_mcps.Auth.Resource.Marks.{Lacks}
use sml_mcps.Http.Gate.Challenged.{precheck-challenge}
use sml_mcps.Http.Process.{Caught, Processing}
use sml_mcps.Http.Serving.{authenticated_response}
use sml_mcps.Http.Serving.Admission.{IsAdmission, authenticated_response-IsAdmission}

-- A notification, the response, and what comes too late.
abbrev log_line : JsonRpcMessage ℕ
log_line = notification (record { method = text "notifications/message"; params = none })

abbrev done : JsonRpcMessage ℕ
done = response (record { id = RequestId.string (text "1"); result = some 0; error = none })

abbrev written : List (Text × JsonRpcMessage ℕ)
written = (text "{1}", log_line) ∷ (text "{2}", done) ∷ (text "{3}", log_line) ∷ []

answer_from-write_messages_example :
    answer_from (write_messages written (new_transport (text "{}")))
    ≡ expected (first_response written)
answer_from-write_messages_example = answer_from-write_messages (text "{}") written

-- A table with two sessions of one user and one of another.
abbrev used : Session
used = record default_session { initialized = true }

abbrev alice : Text
alice = text "alice"

abbrev bob : Text
bob = text "bob"

abbrev tenant : Text
tenant = text "t"

abbrev entry_at : ℕ → ℕ → SessionEntry
entry_at cell time = record { cell = cell; last_used = time }

abbrev two_sessions : Sessions
two_sessions = record {
  live =
      (key (some (owner_of alice tenant)) (text "s0"), entry_at 0 10)
      ∷ (key (some (owner_of bob tenant)) (text "s1"), entry_at 1 20)
      ∷ [];
  cells = λ i. used;
  next_cell = 2;
}

abbrev no_stores : ℕ → Option Bool
no_stores store = none

-- Bob asks for Alice's session, ends it, and checks one of his own back.
abbrev bobs : List Call
bobs =
    check_out 30 (text "s2") (some (owner_of bob tenant)) (some (text "s0"))
    ∷ end_session (some (owner_of bob tenant)) (text "s0")
    ∷ check_back 40 (some (owner_of bob tenant)) (text "s0") 1
    ∷ []

alice-IsHalf : IsHalf alice
unfolding text contains
alice-IsHalf = refl

bob-IsHalf : IsHalf bob
unfolding text contains
bob-IsHalf = refl

tenant-IsHalf : IsHalf tenant
unfolding text contains
tenant-IsHalf = refl

not_bob : alice ≡ bob → ⊥
unfolding text
not_bob e = let first : ◌≡◌ {A = ℕ} b'a' b'b' = cc in omega (arith, first)

by_bob :
    (u' : Text) × (t' : Text) × (some (owner_of bob tenant) ≡ some (owner_of u' t'))
    × IsHalf u'
    × IsHalf t'
    × ((alice ≡ u') × (tenant ≡ t') → ⊥)
by_bob = (bob, tenant, refl, bob-IsHalf, tenant-IsHalf, λ h. not_bob h.0)

two_sessions-HoldsOnce : HoldsOnce two_sessions
unfolding text key owner_of lookup text_eq
two_sessions-HoldsOnce = (refl, (refl, tt))

run_calls-IsWithin_example : IsWithin (run_calls no_stores bobs two_sessions)
run_calls-IsWithin_example = run_calls-IsWithin no_stores bobs two_sessions (omega arith)

run_calls-IsKept_example :
    IsKept no_stores
      (key (some (owner_of alice tenant)) (text "s0"))
      bobs
      two_sessions
      (lookup (key (some (owner_of alice tenant)) (text "s0")) two_sessions.live)
run_calls-IsKept_example =
    run_calls-IsKept no_stores alice tenant (text "s0") bobs two_sessions alice-IsHalf tenant-IsHalf
      (by_bob, (by_bob, (by_bob, tt))) two_sessions-HoldsOnce

abbrev bob_again : Option Text × Sessions
bob_again = check_in no_stores 40 (some bob) (text "s1") 1 two_sessions

checkout-check_in_example :
    ((checkout 50 (text "s9") (some bob) (some (text "s1")) bob_again.1).0 ≡ some (text "s1", 1))
    × ((checkout 50 (text "s9") (some bob) (some (text "s1")) bob_again.1).1.cells 1 ≡ used)
unfolding worth_keeping
checkout-check_in_example =
    checkout-check_in no_stores 40 50 (text "s9") (some bob) (text "s1") 1 two_sessions refl
      (omega arith) two_sessions-HoldsOnce (omega arith)

-- Alice ends her session while a request in it is running: the request puts it back.
abbrev ended : Sessions
ended = (terminate (some (owner_of alice tenant)) (text "s0") two_sessions).1

ended-HoldsOnce : HoldsOnce ended
unfolding text key owner_of lookup text_eq terminate
ended-HoldsOnce = (refl, tt)

room_left : length ended.live < max_sessions
unfolding text key owner_of lookup text_eq terminate
room_left = omega arith

found_again :
    (checkout 60
      (text "s9")
      (some (owner_of alice tenant))
      (some (text "s0"))
      (check_in no_stores 50 (some (owner_of alice tenant)) (text "s0") 0 ended).1).0
    ≡ some (text "s0", 0)
unfolding worth_keeping terminate
found_again =
    (checkout-check_in no_stores 50 60 (text "s9") (some (owner_of alice tenant)) (text "s0") 0
      ended refl room_left ended-HoldsOnce (omega arith)).0

-- A server that publishes its metadata and wants a scope, and requests for it.
abbrev error_text : ℤ → Text → Text
error_text code message = message

abbrev any_json : ProtectedResourceMetadata → Option Text
any_json m = some (text "{}")

abbrev no_ips : Text → Option Bool
no_ips t = none

abbrev published : ProtectedResourceMetadata
published = new_metadata (text "https://a.b/mcp") []

abbrev guarded_server : HttpServer
guarded_server = record (new_server (text "2025-03-26" ∷ []) 1000) {
  published = some published;
  required_scopes = text "write" ∷ [];
}

abbrev discovery : Request
discovery = record {
  method = get;
  target = text "/.well-known/oauth-protected-resource/mcp" ++ text "?x=1";
  headers = [];
  incoming = λ limit. ok [];
}

-- The challenge behind the scheme and the first quote, and what a client reads of it.
abbrev challenge_tail : Text
challenge_tail = text "https://a.b/.well-known/oauth-protected-resource/mcp\""

challenged :
    challenge error_text guarded_server
    ≡ some (text "Bearer resource_metadata=" ++ (b'"' ∷ challenge_tail))
unfolding challenge new_metadata text lower_byte
challenged = refl

named_url :
    read_quoted false challenge_tail
    ≡ some (text "https://a.b/.well-known/oauth-protected-resource/mcp", [])
unfolding read_quoted text
named_url = refl

scheme-Lacks : Lacks b':' (text "https")
unfolding contains text
scheme-Lacks = refl

authority-Lacks : Lacks b'/' (text "a.b")
unfolding contains text
authority-Lacks = refl

precheck-challenge_example :
    precheck error_text any_json no_ips guarded_server discovery
    ≡ some (body_response (text "application/json") (text "{}"))
unfolding before_query text
precheck-challenge_example =
    precheck-challenge error_text any_json no_ips guarded_server discovery published (text "{}")
      challenge_tail (text "https://a.b/.well-known/oauth-protected-resource/mcp") [] (text "https")
      (text "a.b") (text "/.well-known/oauth-protected-resource/mcp") (text "?x=1") refl refl
      challenged named_url refl scheme-Lacks authority-Lacks refl refl refl refl

abbrev call : Request
call = record {
  method = post;
  target = text "/mcp";
  headers = (text "authorization", text "Bearer t") ∷ [];
  incoming = λ limit. ok (text "{}");
}

abbrev some_claims : Text → Outcome JwtError Claims
some_claims token = ok (record {
  sub = alice;
  exp = 100;
  iat = 0;
  iss = none;
  aud = none;
  tenant = some tenant;
  scope = some (text "read write");
})

abbrev error_name : McpError ℕ → Text
error_name e = text "error"

abbrev jwt_error_name : JwtError → Text
jwt_error_name e = text "refused"

abbrev no_setup : ServerState → Caught (Error.Result ℕ ServerState)
no_setup v = ok (Error.ok v)

-- A server that marks its session as initialized and answers nothing.
abbrev accepting : ℕ → Option Text → ServerState → HttpTransport → Caught (Processing ℕ)
accepting ctx owner v t = ok (Error.ok tt, t, record v { is_initialized = true })

abbrev no_context : Claims → Caught ℕ
no_context claims = ok 0

authenticated_response-IsAdmission_example :
    IsAdmission info no_setup accepting error_text error_name no_stores any_json no_ips some_claims
      jwt_error_name no_context new_validator guarded_server call 30 40
      (text "s2")
      two_sessions
      (authenticated_response info no_setup accepting error_text error_name no_stores any_json
        no_ips some_claims jwt_error_name no_context new_validator guarded_server call 30 40
        (text "s2")
        two_sessions)
authenticated_response-IsAdmission_example =
    authenticated_response-IsAdmission info no_setup accepting error_text error_name no_stores
      any_json no_ips some_claims jwt_error_name no_context new_validator guarded_server call 30 40
      (text "s2") two_sessions

-- The request is let through: its session is advertised, and is in the table.
call_answered :
    (authenticated_response info no_setup accepting error_text error_name no_stores any_json no_ips
      some_claims jwt_error_name no_context new_validator guarded_server call 30 40
      (text "s2")
      two_sessions).0.headers
    ≡ (text "Mcp-Session-Id", text "s2") ∷ []
unfolding authenticated_response text new_metadata new_server lower_byte
call_answered = refl
