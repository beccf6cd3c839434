-- ===== src/Server/Tests.antt =====
-- The waiting of src/server.rs on a short exchange, and its theorems there.
use sml_mcps.Prelude.{ℕ, ◌≡◌, refl, none, some, List, [], ◌∷◌}
use sml_mcps.Prelude.Text.{Text, text, text_eq}
use sml_mcps.Rpc.{RequestId, string, JsonRpcResponse, JsonRpcRequest, request, response}
use sml_mcps.Rpc.{id_eq}
use sml_mcps.Rpc.Json
use sml_mcps.Rpc.Json.{Json, Shape, Decoded}
use sml_mcps.Error.{ok}
use sml_mcps.Server.Logging.{warning, as_str, to_ascii_lowercase, lower_byte}
use sml_mcps.Broker.{new, take_parked, into_result, defer}
use sml_mcps.Server.{
  cancelled_here, Env, Turn, arrived, expired, await_response, ends_wait, place, shed_or_defer,
  Waited,
}
use sml_mcps.Server.Sorted.{Sorts, await_response-Sorts}
use sml_mcps.Server.Await.{Answered, await_response-Answered}

abbrev no_json : Json ℕ
no_json = record {
  shape = λ v. Shape.number;
  field = λ k v. none;
  singleton = λ k v. 0;
  from_str = λ t. Json.Decoded.ok 0;
  decode_id = λ v. none;
  decode_request = λ v. Json.Decoded.err [];
  decode_notification = λ v. Json.Decoded.err [];
  decode_response = λ v. Json.Decoded.err [];
}

abbrev start : Env ℕ
start = record { broker = record new { next_id = 1 }; written = [] }

abbrev answer : JsonRpcResponse ℕ
answer = record { id = string (text "sml-0"); result = some 7; error = none }

abbrev asks : JsonRpcRequest ℕ
asks = record { id = string (text "a"); method = text "ping"; params = none }

abbrev zero_id : RequestId
zero_id = string (text "sml-0")

-- A request of the client comes first, and then the answer.
abbrev exchange : List (Turn ℕ)
exchange = arrived (request asks) ∷ arrived (response answer) ∷ expired ∷ []

abbrev waited : Waited ℕ
waited = await_response no_json (λ e. []) (λ i. []) zero_id exchange start

waited_ok : waited.outcome ≡ some (ok 7)
unfolding await_response ends_wait place shed_or_defer defer take_parked into_result id_eq text
    text_eq cancelled_here
waited_ok = refl

await_response-Sorts_example : Sorts no_json (λ e. []) (λ i. []) zero_id 256 exchange start waited
await_response-Sorts_example =
    await_response-Sorts no_json (λ e. []) (λ i. []) zero_id 256 exchange start refl

await_response-Answered_example :
    Answered no_json (λ e. []) (λ i. []) (λ r. r.result ≡ some 7) zero_id 7
await_response-Answered_example =
    await_response-Answered no_json (λ e. []) (λ i. []) (λ r. r.result ≡ some 7) zero_id exchange
      start 7 tt (tt, (refl, (tt, tt))) waited_ok

abbrev read_text : Text → Decoded Text
read_text t = Json.Decoded.ok t

shouted : to_ascii_lowercase (text "WARNING") ≡ as_str warning
unfolding to_ascii_lowercase lower_byte as_str text
shouted = refl
