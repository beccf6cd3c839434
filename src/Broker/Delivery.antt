-- ===== src/Broker/Delivery.antt =====
-- Where a response goes: `deliver`, `park`, `abandon` and `take_parked` of src/broker.rs together.
use sml_mcps.Prelude.{ℕ, ◌≡◌, refl, ◌∙◌, true, false, none, some, arith, inl, inr, Option-cases}
use sml_mcps.Prelude.Assoc.{Assoc, lookup, insert, remove, lookup-insert, lookup-remove}
use sml_mcps.Rpc.{RequestId, id_has_eq, id_eq_iff, JsonRpcResponse}
use sml_mcps.Broker.Mpsc.{
  message, disconnected, open_channel, drop_sender, send, receive, receive-send, drop_sender-none,
}
use sml_mcps.Broker.{
  Broker, max_parked, max_abandoned, find_parked, contains_id, take_parked, was_issued_here,
  register_waiter, park, deliver, abandon,
}
use sml_mcps.Broker.Queues.{
  find_parked-remove_parked, find_parked-filter, find_parked-replace_parked, find_parked-evict_last,
  contains_id-evict_last,
}
use sml_mcps.Broker.Invariant.{IsValid, park-IsValid}

module _ {V : Type 0} where
  deliver_unwaited :
      (r : JsonRpcResponse V) (b : Broker V)
      → lookup r.id b.waiters ≡ none
      → deliver r b ≡ park r (record b { waiters = remove r.id b.waiters })
  unfolding deliver
  deliver_unwaited r b w = rw w

  find_parked-park :
      (r : JsonRpcResponse V) (b : Broker V)
      → was_issued_here b r.id ≡ true
      → contains_id r.id b.abandoned ≡ false
      → find_parked r.id (park r b).parked ≡ some r
  unfolding park
  find_parked-park r b issued known = elim (Option-cases (find_parked r.id b.parked)) [
    | inl fresh ↦
        rw (issued, known, fresh) (find_parked-evict_last max_parked r b.parked (omega arith) fresh)
    | inr (old, twice) ↦
        rw (issued, known, twice)
          (ground (arith, find_parked-replace_parked r r.id b.parked, id_eq_iff r.id r.id))
  ]

  -- A response to an open request that nobody waits for on another thread is collected by
  -- `take_parked` exactly once, also where the peer answered before.
  pub take_parked-deliver :
      (r : JsonRpcResponse V) (b : Broker V)
      → IsValid b
      → lookup r.id b.waiters ≡ none
      → was_issued_here b r.id ≡ true
      → contains_id r.id b.abandoned ≡ false
      → ((take_parked r.id (deliver r b)).0 ≡ some r)
        × ((take_parked r.id (take_parked r.id (deliver r b)).1).0 ≡ none)
  unfolding take_parked was_issued_here
  take_parked-deliver r b v w issued known =
      let b' = record b { waiters = remove r.id b.waiters } in
      let parked = find_parked-park r b' issued known in
      let unique = (park-IsValid r b' (ground arith)).unique in
      rw (deliver_unwaited r b w) (
        parked,
        find_parked-remove_parked r.id r.id (park r b').parked unique
            ∙ ground (arith, id_eq_iff r.id r.id),
      )

  -- A response to an id that was never issued is dropped, unless a waiter is registered for it.
  pub deliver_foreign :
      (r : JsonRpcResponse V) (b : Broker V)
      → lookup r.id b.waiters ≡ none
      → was_issued_here b r.id ≡ false
      → deliver r b ≡ record b { waiters = remove r.id b.waiters }
  unfolding park was_issued_here
  deliver_foreign r b w foreign = deliver_unwaited r b w ∙ rw foreign

  -- After `abandon` an answer to that request reaches nobody: it is not parked, and no channel
  -- changes.
  pub deliver-abandon :
      (r : JsonRpcResponse V) (b : Broker V)
      → ((deliver r (abandon r.id b)).parked ≡ (abandon r.id b).parked)
        × ((deliver r (abandon r.id b)).channels ≡ (abandon r.id b).channels)
        × ((take_parked r.id (deliver r (abandon r.id b))).0 ≡ none)
  unfolding deliver abandon park take_parked
  deliver-abandon r b = ground (
    arith,
    lookup-remove r.id r.id b.waiters,
    contains_id-evict_last max_abandoned r.id b.abandoned,
    find_parked-filter r.id r.id b.parked,
    id_eq_iff r.id r.id,
  )

  registered :
      (r : JsonRpcResponse V) (c : ℕ) (m : Assoc RequestId ℕ)
      → lookup r.id (insert r.id c m) ≡ some c
  registered r c m = ground (arith, lookup-insert r.id r.id c m, id_eq_iff r.id r.id)

  unregistered :
      (r : JsonRpcResponse V) (m : Assoc RequestId ℕ) → lookup r.id (remove r.id m) ≡ none
  unregistered r m = ground (arith, lookup-remove r.id r.id m, id_eq_iff r.id r.id)

  deliver_registered :
      (r : JsonRpcResponse V) (b : Broker V)
      → lookup r.id b.waiters ≡ none
      → deliver r (register_waiter r.id b).1 ≡ record b {
        waiters = remove r.id (insert r.id (open_channel b.channels).0 b.waiters);
        channels =
            drop_sender
              (some (open_channel b.channels).0)
              (send (open_channel b.channels).0 r (open_channel b.channels).1);
      }
  unfolding register_waiter deliver
  deliver_registered r b w =
      rw w (rw (registered r (open_channel b.channels).0 b.waiters, deliver) (rw drop_sender-none))

  register_waiter_channel :
      (r : JsonRpcResponse V) (b : Broker V)
      → (register_waiter r.id b).0 ≡ (open_channel b.channels).0
  unfolding register_waiter
  register_waiter_channel r b = refl

  -- A waiter that registered for a fresh id receives the response from its channel, once; the
  -- waiter is off the books, and nothing is parked.
  pub receive-deliver :
      (r : JsonRpcResponse V) (b : Broker V)
      → lookup r.id b.waiters ≡ none
      → ((receive (register_waiter r.id b).0 (deliver r (register_waiter r.id b).1).channels).0
          ≡ message r)
        × ((receive
              (register_waiter r.id b).0
              (receive
                (register_waiter r.id b).0
                (deliver r (register_waiter r.id b).1).channels).1).0
            ≡ disconnected)
        × (lookup r.id (deliver r (register_waiter r.id b).1).waiters ≡ none)
        × ((deliver r (register_waiter r.id b).1).parked ≡ b.parked)
  receive-deliver r b w =
      rw (deliver_registered r b w, register_waiter_channel r b)
        (
          (receive-send r b.channels).0,
          (receive-send r b.channels).1,
          unregistered r (insert r.id (open_channel b.channels).0 b.waiters),
          refl,
        )
