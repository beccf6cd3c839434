-- ===== src/Broker/Tests.antt =====
-- Runs of src/broker.rs on small inputs, and its theorems at inputs that meet their conditions.
use sml_mcps.Prelude.{
  ℕ, ◌≡◌, ◌≢◌, refl, true, false, none, some, List, [], ◌∷◌, ◌++◌, arith, length,
}
use sml_mcps.Prelude.Text.{text, strip_prefix}
use sml_mcps.Prelude.Decimal.{show, parse_uint}
use sml_mcps.Prelude.Assoc.{lookup, remove}
use sml_mcps.Rpc.{string, id_has_eq, JsonRpcResponse, JsonRpcMessage, notification}
use sml_mcps.Broker.{
  Broker, new, id_prefix, next_request_id, take_parked, was_issued_here, park, deliver, find_parked,
  evict, contains_id, sequence_number, forget_abandoned,
}
use sml_mcps.Broker.Invariant.{IsValid}
use sml_mcps.Broker.Ids.{was_issued_here_signed}
use sml_mcps.Broker.Delivery.{take_parked-deliver}
use sml_mcps.Broker.Replay.{defer_all, replay, replay-defer_all}
use sml_mcps.Broker.Run.{Call, allocate_id, deliver_response, abandon_id, run, run-IsValid}

abbrev answer : JsonRpcResponse ℕ
answer = record { id = string (text "sml-0"); result = some 7; error = none }

abbrev fresh : Broker ℕ
fresh = new

abbrev asked : Broker ℕ
asked = record fresh { next_id = 1 }

answer_parked : (deliver answer asked).parked ≡ answer ∷ []
unfolding deliver park was_issued_here sequence_number strip_prefix text parse_uint lookup remove
    contains_id find_parked evict forget_abandoned
answer_parked = refl

asked-IsValid : IsValid asked
asked-IsValid = record {
  parked_bound = omega arith;
  abandoned_bound = omega arith;
  deferred_bound = omega arith;
  unique = tt;
  disjoint = tt;
}

issued_zero : was_issued_here asked (string (text "sml-0")) ≡ true
unfolding was_issued_here sequence_number strip_prefix text parse_uint
issued_zero = refl

not_issued_zero : was_issued_here fresh (string (text "sml-0")) ≡ false
unfolding was_issued_here sequence_number strip_prefix text parse_uint
not_issued_zero = refl

nobody_waits : lookup {V = ℕ} (string (text "sml-0")) [] ≡ none
unfolding lookup
nobody_waits = refl

nothing_abandoned : contains_id (string (text "sml-0")) [] ≡ false
unfolding contains_id
nothing_abandoned = refl

take_parked-deliver_example :
    ((take_parked answer.id (deliver answer asked)).0 ≡ some answer)
    × ((take_parked answer.id (take_parked answer.id (deliver answer asked)).1).0 ≡ none)
take_parked-deliver_example =
    take_parked-deliver answer asked asked-IsValid nobody_waits issued_zero nothing_abandoned

was_issued_here_signed_example :
    (was_issued_here asked (string (id_prefix ++ (b'+' ∷ show 0))) ≡ true)
    × (string (id_prefix ++ (b'+' ∷ show 0)) ≢ (next_request_id asked).0)
was_issued_here_signed_example = was_issued_here_signed asked asked 0 (omega arith) (omega arith)

abbrev ping : JsonRpcMessage ℕ
ping = notification (record { method = text "ping"; params = none })

replay-defer_all_example :
    ((defer_all (ping ∷ []) asked).0 ≡ [])
    × (replay (length (defer_all (ping ∷ []) asked).1.deferred) (defer_all (ping ∷ []) asked).1
        ≡ ping ∷ [])
replay-defer_all_example = replay-defer_all (ping ∷ []) asked

abbrev calls : List (Call ℕ)
calls = allocate_id ∷ deliver_response answer ∷ abandon_id answer.id ∷ []

run-IsValid_example : IsValid (run calls new)
run-IsValid_example = run-IsValid calls
