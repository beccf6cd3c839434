-- ===== src/Http/Answers.antt =====
-- src/transport/http.rs: what one HTTP request is answered with, from what was written for it.
use sml_mcps.Prelude.{
  ◌≡◌, refl, sym, ◌∙◌, ap, Option, none, some, List, [], ◌∷◌, ◌++◌, append_assoc, append-nil,
}
use sml_mcps.Prelude.Text.{Text, text}
use sml_mcps.Rpc.{JsonRpcMessage, request, notification, response}
use sml_mcps.Http.{
  HttpTransport, new_transport, events, write, Processed, body, accepted, answer_from,
}

abbrev behind : Text → Option (List Text × Text) → Option (List Text × Text)
behind json none = none
behind json (some (before, r)) = some (json ∷ before, r)

module _ {V : Type 0} where
  -- The messages written in turn, each with its text.
  pub write_messages : List (Text × JsonRpcMessage V) → HttpTransport → HttpTransport
  write_messages [] t = t
  write_messages ((json, m) ∷ ms) t = write_messages ms (write json m t).1

  -- The first response, with what stands before it.
  abbrev pub first_response : List (Text × JsonRpcMessage V) → Option (List Text × Text)
  first_response [] = none
  first_response ((json, response r) ∷ ms) = some ([], json)
  first_response ((json, request r) ∷ ms) = behind json (first_response ms)
  first_response ((json, notification n) ∷ ms) = behind json (first_response ms)

-- Nothing without a response; the response alone as JSON; a stream of events if anything was
-- written before it.
abbrev pub expected : Option (List Text × Text) → Processed
expected none = accepted
expected (some ([], r)) = body r (text "application/json")
expected (some (n ∷ ns, r)) = body (events ((n ∷ ns) ++ r ∷ [])) (text "text/event-stream")

abbrev after : List Text → Option (List Text × Text) → Option (List Text × Text)
after ns none = none
after ns (some (before, r)) = some (ns ++ before, r)

answer_from_sealed :
    (b : Option Text) (ns : List Text) (r : Text)
    → answer_from (record { request_body = b; notifications = ns; answer = some r })
      ≡ expected (some (ns, r))
unfolding answer_from
answer_from_sealed b [] r = refl
answer_from_sealed b (n ∷ ns) r = refl

after_nil : (o : Option (List Text × Text)) → after [] o ≡ o
after_nil none = refl
after_nil (some (before, r)) = refl

nothing :
    (b : Option Text) (ns : List Text)
    → answer_from (record { request_body = b; notifications = ns; answer = none }) ≡ accepted
unfolding answer_from
nothing b ns = refl

after-behind :
    (ns : List Text) (json : Text) (o : Option (List Text × Text))
    → after (ns ++ json ∷ []) o ≡ after ns (behind json o)
after-behind ns json none = refl
after-behind ns json (some (before, r)) =
    ap (λ (u : List Text). some (u, r)) (append_assoc ns (json ∷ []) before)

module _ {V : Type 0} where
  write_messages_sealed :
      (ms : List (Text × JsonRpcMessage V)) (b : Option Text) (ns : List Text) (r : Text)
      → write_messages ms (record { request_body = b; notifications = ns; answer = some r })
        ≡ record { request_body = b; notifications = ns; answer = some r }
  unfolding write_messages write
  write_messages_sealed [] b ns r = refl
  write_messages_sealed ((json, m) ∷ ms) b ns r = write_messages_sealed ms b ns r

  answer_from_open :
      (ms : List (Text × JsonRpcMessage V)) (b : Option Text) (ns : List Text)
      → answer_from
          (write_messages ms (record { request_body = b; notifications = ns; answer = none }))
        ≡ expected (after ns (first_response ms))
  unfolding write_messages write
  answer_from_open [] b ns = nothing b ns
  answer_from_open ((json, response r) ∷ ms) b ns =
      ap answer_from (write_messages_sealed ms b ns json)
      ∙ (answer_from_sealed b ns json
          ∙ ap (λ (u : List Text). expected (some (u, json))) (sym (append-nil ns)))
  answer_from_open ((json, request q) ∷ ms) b ns =
      answer_from_open ms b (ns ++ json ∷ [])
      ∙ ap expected (after-behind ns json (first_response ms))
  answer_from_open ((json, notification n) ∷ ms) b ns =
      answer_from_open ms b (ns ++ json ∷ [])
      ∙ ap expected (after-behind ns json (first_response ms))

  -- Whatever messages are written for one HTTP request, and in whatever order: the answer is
  -- fixed by the first response and what stands before it. Without a response there is no body;
  -- a response with nothing before it goes out alone as JSON; else all up to it goes out as a
  -- stream of events in the order of writing. What is written behind the response shows nowhere.
  pub answer_from-write_messages :
      (request_text : Text) (ms : List (Text × JsonRpcMessage V))
      → answer_from (write_messages ms (new_transport request_text)) ≡ expected (first_response ms)
  unfolding new_transport
  answer_from-write_messages request_text ms =
      answer_from_open ms (some request_text) [] ∙ ap expected (after_nil (first_response ms))
