-- ===== src/Broker/Issued.antt =====
-- Over the life of a broker, every parked response answers a request that it sent.
use sml_mcps.Prelude.{
  ℕ, ◌+◌, ◌≤◌, ◌<◌, ◌≡◌, refl, true, not, Option, none, some, List, [], ◌∷◌, arith, inl, inr,
  Bool-cases, Option-cases, All, All-append, All-filter, All-mono,
}
use sml_mcps.Prelude.Decimal.{u64_mod}
use sml_mcps.Prelude.Assoc.{lookup, remove}
use sml_mcps.Rpc.{RequestId, id_has_eq, id_eq, JsonRpcResponse, JsonRpcMessage}
use sml_mcps.Broker.{
  Broker, new, max_parked, below, sequence_number, next_request_id, take_parked, was_issued_here,
  register_waiter, park, deliver, hand_over, pop_front, abandon, cancel, defer, next_deferred,
  contains_id, find_parked,
}
use sml_mcps.Broker.Queues.{All-evict}
use sml_mcps.Broker.Invariant.Unique.{All-remove_parked, All-replace_parked}
use sml_mcps.Broker.Run.{
  Call, allocate_id, take_response, register, abandon_id, cancel_id, park_response,
  deliver_response, defer_message, pop_deferred, perform, run,
}

issued_later : (o : Option ℕ) (n m : ℕ) → n ≤ m → below o n ≡ true → below o m ≡ true
issued_later none n m h k = k
issued_later (some i) n m h k = ground arith

module _ {V : Type 0} where
  -- the ids below `n` that were handed out include the id of every one of these
  abbrev IssuedBelow : ℕ → List (JsonRpcResponse V) → Type 0
  IssuedBelow n = All (λ (r : JsonRpcResponse V). below (sequence_number r.id) n ≡ true)

  IssuedBelow-mono :
      (n m : ℕ) (rs : List (JsonRpcResponse V)) → n ≤ m → IssuedBelow n rs → IssuedBelow m rs
  IssuedBelow-mono n m rs h = All-mono (λ r. issued_later (sequence_number r.id) n m h) rs

  park_issued :
      (r : JsonRpcResponse V) (b : Broker V)
      → IssuedBelow b.next_id b.parked
      → IssuedBelow b.next_id (park r b).parked
  unfolding park was_issued_here
  park_issued r b v = elim (Bool-cases (was_issued_here b r.id)) [
    | inr foreign ↦ rw foreign v
    | inl issued ↦ rw issued (elim (Bool-cases (contains_id r.id b.abandoned)) [
      | inl late ↦ rw late v
      | inr known ↦ rw known (elim (Option-cases (find_parked r.id b.parked)) [
        | inl fresh ↦
            rw fresh (All-evict _ max_parked _ (All-append _ b.parked (r ∷ []) v (issued, tt)))
        | inr (old, twice) ↦ rw twice (All-replace_parked _ r b.parked issued v)
      ])
    ])
  ]

  next_id-park : (r : JsonRpcResponse V) (b : Broker V) → (park r b).next_id ≡ b.next_id
  unfolding park
  next_id-park r b = ground arith

  hand_over_issued :
      (r : JsonRpcResponse V) (waiter : Option ℕ) (b : Broker V)
      → IssuedBelow b.next_id b.parked
      → IssuedBelow b.next_id (hand_over r waiter b).parked
  hand_over_issued r none b v = park_issued r b v
  hand_over_issued r (some c) b v = v

  next_id-hand_over :
      (r : JsonRpcResponse V) (waiter : Option ℕ) (b : Broker V)
      → (hand_over r waiter b).next_id ≡ b.next_id
  next_id-hand_over r none b = next_id-park r b
  next_id-hand_over r (some c) b = refl

  next_id-pop_front :
      (ms : List (JsonRpcMessage V)) (b : Broker V)
      → ((pop_front ms b).1.next_id ≡ b.next_id) × ((pop_front ms b).1.parked ≡ b.parked)
  next_id-pop_front [] b = (refl, refl)
  next_id-pop_front (m ∷ ms) b = (refl, refl)

  -- A call keeps the counter, or adds one to it.
  abbrev allocated : Call V → ℕ
  allocated allocate_id = 1
  allocated _ = 0

  next_id-perform :
      (c : Call V) (b : Broker V)
      → b.next_id + 1 < u64_mod
      → (perform c b).next_id ≡ b.next_id + allocated c
  unfolding perform next_request_id take_parked register_waiter deliver abandon cancel defer
      next_deferred
  next_id-perform (park_response r) b h = omega (arith, next_id-park r b)
  next_id-perform (deliver_response r) b h = omega (
    arith,
    next_id-hand_over r (lookup r.id b.waiters) (record b { waiters = remove r.id b.waiters }),
  )
  next_id-perform pop_deferred b h = omega (arith, (next_id-pop_front b.deferred b).0)
  next_id-perform _ b h = ground arith

  cancel_issued :
      (id : RequestId) (b : Broker V)
      → IssuedBelow b.next_id b.parked
      → IssuedBelow b.next_id (cancel id b).1.parked
  unfolding cancel abandon
  cancel_issued id b v = elim (Bool-cases (was_issued_here b id)) [
    | inl issued ↦ rw issued (All-filter _ (λ r. not (id_eq r.id id)) b.parked v)
    | inr foreign ↦ rw foreign v
  ]

  parked-defer : (m : JsonRpcMessage V) (b : Broker V) → (defer m b).1.parked ≡ b.parked
  unfolding defer
  parked-defer m b = ground arith

  parked_issued :
      (c : Call V) (b : Broker V)
      → IssuedBelow b.next_id b.parked
      → IssuedBelow b.next_id (perform c b).parked
  unfolding perform next_request_id take_parked register_waiter deliver abandon defer next_deferred
  parked_issued allocate_id b v = v
  parked_issued (take_response id) b v = All-remove_parked _ id b.parked v
  parked_issued (register id) b v = v
  parked_issued (abandon_id id) b v = All-filter _ (λ r. not (id_eq r.id id)) b.parked v
  parked_issued (cancel_id id) b v = cancel_issued id b v
  parked_issued (park_response r) b v = park_issued r b v
  parked_issued (deliver_response r) b v =
      hand_over_issued r (lookup r.id b.waiters) (record b { waiters = remove r.id b.waiters }) v
  parked_issued (defer_message m) b v = rw (parked-defer m b) v
  parked_issued pop_deferred b v = rw (next_id-pop_front b.deferred b).1 v

  perform_issued :
      (c : Call V) (b : Broker V)
      → b.next_id + 1 < u64_mod
      → IssuedBelow b.next_id b.parked
      → IssuedBelow (perform c b).next_id (perform c b).parked
  perform_issued c b h v = rw (next_id-perform c b h) (
      IssuedBelow-mono b.next_id (b.next_id + allocated c) (perform c b).parked (omega arith)
        (parked_issued c b v))

  unfoldable pub allocations : List (Call V) → ℕ
  allocations [] = 0
  allocations (c ∷ cs) = allocated c + allocations cs

  run_keeps_issued :
      (cs : List (Call V)) (b : Broker V)
      → b.next_id + allocations cs + 1 < u64_mod
      → IssuedBelow b.next_id b.parked
      → IssuedBelow (run cs b).next_id (run cs b).parked
  unfolding run allocations
  run_keeps_issued [] b h v = v
  run_keeps_issued (c ∷ cs) b h v =
      run_keeps_issued cs (perform c b) (omega (arith, next_id-perform c b (omega arith)))
        (perform_issued c b (omega arith) v)

  -- While the counter has not wrapped, every response parked after any calls on a new broker
  -- answers an id that this broker has handed out.
  pub run_issued :
      (cs : List (Call V))
      → allocations cs + 1 < u64_mod
      → All (λ r. was_issued_here (run cs new) r.id ≡ true) (run cs new).parked
  unfolding was_issued_here
  run_issued cs h = run_keeps_issued cs new (omega arith) tt
