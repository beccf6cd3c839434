-- ===== src/Broker/Invariant.antt =====
-- The invariant of src/broker.rs: bounds of the queues, and what is parked or abandoned.
pub mod Unique
use sml_mcps.Prelude.{
  ℕ, ◌+◌, ◌≤◌, ◌<◌, min, ◌≡◌, refl, Bool, true, false, not, Option, none, some, List, [], ◌∷◌, ◌++◌,
  arith, leb, inl, inr, Bool-cases, Option-cases, length, length-append, length-filter-le, is_some,
  if◌then◌else◌, filter, All, All-append, All-filter, All-mono,
}
use sml_mcps.Prelude.Assoc.{lookup, remove}
use sml_mcps.Rpc.{RequestId, id_has_eq, id_eq, id_eq_iff, JsonRpcResponse, JsonRpcMessage}
use sml_mcps.Broker.{
  Broker, new, max_parked, max_abandoned, max_deferred, evict, contains_id, remove_id, find_parked,
  remove_parked, replace_parked, next_request_id, take_parked, was_issued_here, register_waiter,
  hand_over, pop_front, park, deliver, abandon, cancel, defer, next_deferred,
}
use sml_mcps.Broker.Queues.{
  IsUnique, length-evict, All-evict, contains_id-remove_id, length-remove_id-le, contains_id-evict,
  contains_id-append,
}
use Unique.{
  IsUnique-remove_parked, IsUnique-filter, IsUnique-replace_parked, IsUnique-evict, IsUnique-append,
  length-remove_parked-le, length-replace_parked, All-remove_parked, All-replace_parked,
}

module _ {V : Type 0} where
  -- No parked response answers an abandoned request.
  abbrev pub IsDisjoint : List RequestId → List (JsonRpcResponse V) → Type 0
  IsDisjoint ks = All (λ (r : JsonRpcResponse V). contains_id r.id ks ≡ false)

  pub record IsValid (b : Broker V) : Type 0 where
    pub parked_bound : length b.parked ≤ max_parked
    pub abandoned_bound : length b.abandoned ≤ max_abandoned
    pub deferred_bound : length b.deferred ≤ max_deferred
    pub unique : IsUnique b.parked
    pub disjoint : IsDisjoint b.abandoned b.parked

  pub IsValid-new : IsValid (new {V = V})
  IsValid-new = record {
    parked_bound = omega arith;
    abandoned_bound = omega arith;
    deferred_bound = omega arith;
    unique = tt;
    disjoint = tt;
  }

  pub take_parked-IsValid :
      (id : RequestId) (b : Broker V) → IsValid b → IsValid (take_parked id b).1
  unfolding take_parked
  take_parked-IsValid id b v = record {
    parked_bound = omega (arith, length-remove_parked-le id b.parked, v.parked_bound);
    abandoned_bound = v.abandoned_bound;
    deferred_bound = v.deferred_bound;
    unique = IsUnique-remove_parked id b.parked v.unique;
    disjoint = All-remove_parked _ id b.parked v.disjoint;
  }

  IsDisjoint-remove_id :
      (k : RequestId) (ks : List RequestId) (rs : List (JsonRpcResponse V))
      → IsDisjoint ks rs
      → IsDisjoint (remove_id k ks) rs
  IsDisjoint-remove_id k ks = All-mono (λ r. contains_id-remove_id k r.id ks)

  IsDisjoint-abandon :
      (k : RequestId) (ks : List RequestId) (rs : List (JsonRpcResponse V))
      → IsDisjoint ks rs
      → IsDisjoint (evict max_abandoned (ks ++ k ∷ [])) (filter (λ r. not (id_eq r.id k)) rs)
  IsDisjoint-abandon k ks [] h = tt
  IsDisjoint-abandon k ks (r ∷ rs) h = elim (Bool-cases (id_eq r.id k)) [
    | inl same ↦ rw same (IsDisjoint-abandon k ks rs h.1)
    | inr other ↦ rw other (
      contains_id-evict max_abandoned r.id (ks ++ k ∷ [])
          (ground (arith, contains_id-append r.id k ks, h.0, id_eq_iff r.id k, id_eq_iff k r.id)),
      IsDisjoint-abandon k ks rs h.1,
    )
  ]

  park_new-IsValid :
      (r : JsonRpcResponse V) (b : Broker V)
      → IsValid b
      → contains_id r.id b.abandoned ≡ false
      → find_parked r.id b.parked ≡ none
      → IsValid (record b { parked = evict max_parked (b.parked ++ r ∷ []) })
  park_new-IsValid r b v known new = record {
    parked_bound = omega (arith, length-evict max_parked (b.parked ++ r ∷ []));
    abandoned_bound = v.abandoned_bound;
    deferred_bound = v.deferred_bound;
    unique = IsUnique-evict _ _ (IsUnique-append r b.parked v.unique new);
    disjoint = All-evict _ _ _ (All-append _ b.parked (r ∷ []) v.disjoint (known, tt));
  }

  park_again-IsValid :
      (r : JsonRpcResponse V) (b : Broker V)
      → IsValid b
      → contains_id r.id b.abandoned ≡ false
      → IsValid (record b { parked = replace_parked r b.parked })
  park_again-IsValid r b v known = record {
    parked_bound = omega (arith, length-replace_parked r b.parked, v.parked_bound);
    abandoned_bound = v.abandoned_bound;
    deferred_bound = v.deferred_bound;
    unique = IsUnique-replace_parked r b.parked v.unique;
    disjoint = All-replace_parked _ r b.parked known v.disjoint;
  }

  forgotten-IsValid :
      (k : RequestId) (b : Broker V)
      → IsValid b
      → IsValid (record b { abandoned = remove_id k b.abandoned })
  forgotten-IsValid k b v = record {
    parked_bound = v.parked_bound;
    abandoned_bound = omega (arith, length-remove_id-le k b.abandoned, v.abandoned_bound);
    deferred_bound = v.deferred_bound;
    unique = v.unique;
    disjoint = IsDisjoint-remove_id k b.abandoned b.parked v.disjoint;
  }

  pub park-IsValid : (r : JsonRpcResponse V) (b : Broker V) → IsValid b → IsValid (park r b)
  unfolding park
  park-IsValid r b v = elim (Bool-cases (was_issued_here b r.id)) [
    | inr foreign ↦ rw foreign v
    | inl issued ↦ rw issued (elim (Bool-cases (contains_id r.id b.abandoned)) [
      | inl late ↦ rw late (forgotten-IsValid r.id b v)
      | inr known ↦ rw known (elim (Option-cases (find_parked r.id b.parked)) [
        | inl fresh ↦ rw fresh (park_new-IsValid r b v known fresh)
        | inr (old, twice) ↦ rw twice (park_again-IsValid r b v known)
      ])
    ])
  ]

  hand_over-IsValid :
      (r : JsonRpcResponse V) (waiter : Option ℕ) (b : Broker V)
      → IsValid b
      → IsValid (hand_over r waiter b)
  hand_over-IsValid r none b v = park-IsValid r b v
  hand_over-IsValid r (some c) b v = ground arith

  pub deliver-IsValid : (r : JsonRpcResponse V) (b : Broker V) → IsValid b → IsValid (deliver r b)
  unfolding deliver
  deliver-IsValid r b v =
      hand_over-IsValid r (lookup r.id b.waiters) (record b { waiters = remove r.id b.waiters })
        (ground arith)

  pub abandon-IsValid : (id : RequestId) (b : Broker V) → IsValid b → IsValid (abandon id b)
  unfolding abandon
  abandon-IsValid id b v = record {
    parked_bound = omega (
      arith,
      length-filter-le (λ (r : JsonRpcResponse V). not (id_eq r.id id)) b.parked,
      v.parked_bound,
    );
    abandoned_bound = omega (arith, length-evict max_abandoned (b.abandoned ++ id ∷ []));
    deferred_bound = v.deferred_bound;
    unique = IsUnique-filter id b.parked v.unique;
    disjoint = IsDisjoint-abandon id b.abandoned b.parked v.disjoint;
  }

  pub cancel-IsValid : (id : RequestId) (b : Broker V) → IsValid b → IsValid (cancel id b).1
  unfolding cancel
  cancel-IsValid id b v = elim (Bool-cases (was_issued_here b id)) [
    | inl issued ↦ rw issued (abandon-IsValid id b v)
    | inr foreign ↦ rw foreign v
  ]

  pub defer-IsValid : (m : JsonRpcMessage V) (b : Broker V) → IsValid b → IsValid (defer m b).1
  unfolding defer
  defer-IsValid m b v = elim (Bool-cases (leb max_deferred (length b.deferred))) [
    | inl full ↦ rw full v
    | inr room ↦ rw room (record {
      parked_bound = v.parked_bound;
      abandoned_bound = v.abandoned_bound;
      deferred_bound = ground (arith, length-append b.deferred (m ∷ []));
      unique = v.unique;
      disjoint = v.disjoint;
    })
  ]

  deferred_tail-IsValid :
      (ms : List (JsonRpcMessage V)) (b : Broker V)
      → length ms ≤ max_deferred
      → IsValid b
      → IsValid (record b { deferred = ms })
  deferred_tail-IsValid ms b h v = record {
    parked_bound = v.parked_bound;
    abandoned_bound = v.abandoned_bound;
    deferred_bound = h;
    unique = v.unique;
    disjoint = v.disjoint;
  }

  popped-IsValid :
      (ms : List (JsonRpcMessage V)) (b : Broker V)
      → length ms ≤ max_deferred
      → IsValid b
      → IsValid (pop_front ms b).1
  popped-IsValid [] b h v = v
  popped-IsValid (m ∷ ms) b h v = deferred_tail-IsValid ms b (omega arith) v

  pub next_deferred-IsValid : (b : Broker V) → IsValid b → IsValid (next_deferred b).1
  unfolding next_deferred
  next_deferred-IsValid b v = popped-IsValid b.deferred b v.deferred_bound v
