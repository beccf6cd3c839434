-- ===== src/Server/Await.antt =====
-- Which answer `ToolEnv::await_response` of src/server.rs returns.
use sml_mcps.Prelude.{
  ◌≡◌, ◌∙◌, true, Option, Option-cases, inl, inr, none, some, List, [], ◌∷◌, ◌⊎◌, arith, All,
  All-append, Bool-cases, is_some,
}
use sml_mcps.Prelude.Text.{Text}
use sml_mcps.Prelude.Assoc.{lookup, remove}
use sml_mcps.Rpc.{
  RequestId, id_eq, id_eq_iff, id_has_eq, JsonRpcError, JsonRpcResponse, JsonRpcMessage, request,
  notification, response,
}
use sml_mcps.Rpc.Json.{Json}
use sml_mcps.Error.{Result, ok}
use sml_mcps.Broker.Queues.{All-evict}
use sml_mcps.Broker.Invariant.Unique.{All-remove_parked, All-replace_parked}
use sml_mcps.Broker.{
  was_issued_here, contains_id, max_parked, Broker, find_parked, take_parked, deliver, defer, park,
  into_result,
}
use sml_mcps.Server.{
  Env, Turn, expired, failed, arrived, Waited, shed_or_defer, place, place_turn, ends_wait, looked,
  on_turn, await_response,
}

module _ {V : Type 0} (P : JsonRpcResponse V → Type 0) where
  All-found :
      (id : RequestId) (r : JsonRpcResponse V) (rs : List (JsonRpcResponse V))
      → All P rs
      → find_parked id rs ≡ some r
      → P r × (r.id ≡ id)
  unfolding find_parked
  All-found id r [] h e = absurd cc
  All-found id r (x ∷ rs) h e = elim (Bool-cases (id_eq x.id id)) [
    | inl same ↦ first (rw same at e) ((id_eq_iff x.id id).0 same)
    | inr other ↦ All-found id r rs h.1 (rw other at e)
  ]
    where
      first : some x ≡ some r → x.id ≡ id → P r × (r.id ≡ id)
      first f i = let g : x ≡ r = cc in (rw (← g) h.0, rw (← g) i)

  All-park : (r : JsonRpcResponse V) (b : Broker V) → P r → All P b.parked → All P (park r b).parked
  unfolding park
  All-park r b p h = elim (Bool-cases (was_issued_here b r.id)) [
    | inr foreign ↦ rw foreign h
    | inl issued ↦ rw issued (elim (Bool-cases (contains_id r.id b.abandoned)) [
      | inl late ↦ rw late h
      | inr known ↦ rw known (elim (Option-cases (find_parked r.id b.parked)) [
        | inl fresh ↦ rw fresh (All-evict P max_parked _ (All-append P b.parked (r ∷ []) h (p, tt)))
        | inr (old, twice) ↦ rw twice (All-replace_parked P r b.parked p h)
      ])
    ])
  ]

  All-deliver :
      (r : JsonRpcResponse V) (b : Broker V) → P r → All P b.parked → All P (deliver r b).parked
  unfolding deliver
  All-deliver r b p h = elim (Option-cases (lookup r.id b.waiters)) [
    | inl e ↦ rw e (All-park r (record b { waiters = remove r.id b.waiters }) p h)
    | inr (c, e) ↦ rw e h
  ]

module _ {V : Type 0} (j : Json V) (P : JsonRpcResponse V → Type 0) where
  parked-defer :
      (m : JsonRpcMessage V) (s : Env V) → (shed_or_defer j m s).broker.parked ≡ s.broker.parked
  unfolding shed_or_defer defer
  parked-defer m s = ground arith

  abbrev pub OfMessage : JsonRpcMessage V → Type 0
  OfMessage (response r) = P r
  OfMessage _ = Unit

  abbrev pub OfTurn : Turn V → Type 0
  OfTurn (arrived m) = OfMessage m
  OfTurn _ = Unit

  All-place :
      (m : JsonRpcMessage V) (s : Env V)
      → OfMessage m
      → All P s.broker.parked
      → All P (place j m s).broker.parked
  unfolding place
  All-place (response r) s p h = All-deliver P r s.broker p h
  All-place (request r) s p h = rw (parked-defer (request r) s) h
  All-place (notification n) s p h = rw (parked-defer (notification n) s) h

  All-looked :
      (id : RequestId) (s : Env V) → All P s.broker.parked → All P (looked id s).broker.parked
  unfolding take_parked
  All-looked id s h = All-remove_parked P id s.broker.parked h

module _ {V : Type 0} (j : Json V) (show_code : JsonRpcError V → Text) (debug_id : RequestId → Text)
    (P : JsonRpcResponse V → Type 0) where
  -- Where an answer comes from.
  abbrev pub Answered : RequestId → V → Type 0
  Answered id v = (r : JsonRpcResponse V) × (into_result show_code r ≡ ok v) × (r.id ≡ id) × P r

  ends_wait-Answered :
      (id : RequestId) (m : JsonRpcMessage V) (v : V)
      → OfMessage j P m
      → ends_wait j show_code debug_id id m ≡ some (ok v)
      → Answered id v
  unfolding ends_wait
  ends_wait-Answered id (response r) v p e = elim (Bool-cases (id_eq r.id id)) [
    | inl same ↦ (r, some_injective (rw same at e), (id_eq_iff r.id id).0 same, p)
    | inr other ↦ absurd (none_not_some (rw other at e))
  ]
    where
      some_injective : some (into_result show_code r) ≡ some (ok v) → into_result show_code r ≡ ok v
      some_injective f = cc

      none_not_some : ◌≡◌ {A = Option (Result V V)} none (some (ok v)) → ⊥
      none_not_some f = cc
  ends_wait-Answered id (request r) v p e = ground arith
  ends_wait-Answered id (notification n) v p e = ground arith

  found :
      (id : RequestId) (s : Env V) (r : JsonRpcResponse V)
      → All P s.broker.parked
      → (take_parked id s.broker).0 ≡ some r
      → P r × (r.id ≡ id)
  unfolding take_parked
  found id s r h e = All-found P id r s.broker.parked h e

  at_once :
      (id : RequestId) (s : Env V) (r : JsonRpcResponse V) (v : V)
      → All P s.broker.parked
      → (take_parked id s.broker).0 ≡ some r
      → some (into_result show_code r) ≡ some (ok v)
      → Answered id v
  at_once id s r v h e f = let taken = found id s r h e in (r, some_injective f, taken.1, taken.0)
    where
      some_injective : some (into_result show_code r) ≡ some (ok v) → into_result show_code r ≡ ok v
      some_injective g = cc

  on_turn-Answered :
      (id : RequestId) (t : Turn V) (ts : List (Turn V)) (s : Env V) (onward : Waited V) (v : V)
      → OfTurn j P t
      → (onward.outcome ≡ some (ok v) → Answered id v)
      → (on_turn j show_code debug_id id t ts s onward).outcome ≡ some (ok v)
      → Answered id v
  on_turn-Answered id expired ts s onward v p ih e = ground arith
  on_turn-Answered id (failed x) ts s onward v p ih e = ground arith
  on_turn-Answered id (arrived m) ts s onward v p ih e =
      elim (Option-cases (ends_wait j show_code debug_id id m)) [
        | inl goes_on ↦ ih (rw goes_on at e)
        | inr (result, ends) ↦ ends_wait-Answered id m v p (ends ∙ (rw ends at e))
      ]

  All-place_turn :
      (t : Turn V) (s : Env V)
      → OfTurn j P t
      → All P s.broker.parked
      → All P (place_turn j t s).broker.parked
  All-place_turn expired s p h = h
  All-place_turn (failed e) s p h = h
  All-place_turn (arrived m) s p h = All-place j P m s p h

  -- A value that a wait returns is the result of a response to the very request that is waited
  -- for, and that response was parked in the broker before or is among the messages read: it has
  -- every property that these responses share.
  pub await_response-Answered :
      (id : RequestId) (turns : List (Turn V)) (s : Env V) (v : V)
      → All P s.broker.parked
      → All (OfTurn j P) turns
      → (await_response j show_code debug_id id turns s).outcome ≡ some (ok v)
      → Answered id v
  unfolding await_response
  await_response-Answered id [] s v h k e = elim (Option-cases (take_parked id s.broker).0) [
    | inl none_there ↦ absurd (none_not_some (rw none_there at e))
    | inr (r, there) ↦ at_once id s r v h there (rw there at e)
  ]
    where
      none_not_some : ◌≡◌ {A = Option (Result V V)} none (some (ok v)) → ⊥
      none_not_some f = cc
  await_response-Answered id (t ∷ ts) s v h k e = elim (Option-cases (take_parked id s.broker).0) [
    | inr (r, there) ↦ at_once id s r v h there (rw there at e)
    | inl none_there ↦
        on_turn-Answered id t ts (looked id s) _ v k.0
          (await_response-Answered id ts (place_turn j t (looked id s)) v
            (All-place_turn t (looked id s) k.0 (All-looked j P id s h)) k.1)
          (rw none_there at e)
  ]

module _ {V : Type 0} (j : Json V) (show_code : JsonRpcError V → Text)
    (debug_id : RequestId → Text) where
  -- Some turn ends the wait: the deadline passes, the transport fails, or a message comes that is
  -- the answer, or the cancellation of the request.
  abbrev pub HasEnd : RequestId → List (Turn V) → Type 0
  HasEnd id [] = ⊥
  HasEnd id (arrived m ∷ ts) = (is_some (ends_wait j show_code debug_id id m) ≡ true) ⊎ HasEnd id ts
  HasEnd id (_ ∷ ts) = Unit
