-- ===== src/Broker/Invariant/Unique.antt =====
-- The operations on the parked queue keep its ids distinct.
use sml_mcps.Prelude.{
  ℕ, ◌≤◌, ◌≡◌, refl, not, none, List, [], ◌∷◌, ◌++◌, arith, inl, inr, Bool-cases, ltb, length,
  filter, All,
}
use sml_mcps.Rpc.{RequestId, id_eq, id_eq_iff, JsonRpcResponse}
use sml_mcps.Broker.{find_parked, remove_parked, replace_parked, evict}
use sml_mcps.Broker.Queues.{
  IsUnique, find_parked-filter, find_parked-append, find_parked-replace_parked,
  find_parked-remove_parked,
}

module _ {V : Type 0} where
  pub length-remove_parked-le :
      (k : RequestId) (rs : List (JsonRpcResponse V)) → length (remove_parked k rs) ≤ length rs
  unfolding remove_parked
  length-remove_parked-le k [] = omega arith
  length-remove_parked-le k (r ∷ rs) = ground (arith, length-remove_parked-le k rs)

  pub length-replace_parked :
      (new : JsonRpcResponse V) (rs : List (JsonRpcResponse V))
      → length (replace_parked new rs) ≡ length rs
  unfolding replace_parked
  length-replace_parked new [] = refl
  length-replace_parked new (r ∷ rs) = ground (arith, length-replace_parked new rs)

  pub IsUnique-remove_parked :
      (k : RequestId) (rs : List (JsonRpcResponse V)) → IsUnique rs → IsUnique (remove_parked k rs)
  unfolding remove_parked
  IsUnique-remove_parked k [] u = tt
  IsUnique-remove_parked k (r ∷ rs) u = elim (Bool-cases (id_eq r.id k)) [
    | inl same ↦ rw same u.1
    | inr other ↦
        rw other
          (ground (arith, find_parked-remove_parked k r.id rs u.1), IsUnique-remove_parked k rs u.1)
  ]

  pub IsUnique-filter :
      (k : RequestId) (rs : List (JsonRpcResponse V))
      → IsUnique rs
      → IsUnique (filter (λ r. not (id_eq r.id k)) rs)
  IsUnique-filter k [] u = tt
  IsUnique-filter k (r ∷ rs) u = elim (Bool-cases (id_eq r.id k)) [
    | inl same ↦ rw same (IsUnique-filter k rs u.1)
    | inr other ↦ rw other (ground (arith, find_parked-filter k r.id rs), IsUnique-filter k rs u.1)
  ]

  pub IsUnique-replace_parked :
      (new : JsonRpcResponse V) (rs : List (JsonRpcResponse V))
      → IsUnique rs
      → IsUnique (replace_parked new rs)
  unfolding replace_parked
  IsUnique-replace_parked new [] u = tt
  IsUnique-replace_parked new (r ∷ rs) u = elim (Bool-cases (id_eq r.id new.id)) [
    | inl same ↦ rw same (ground (arith, id_eq_iff r.id new.id), u.1)
    | inr other ↦
        rw other (
          ground (arith, find_parked-replace_parked new r.id rs),
          IsUnique-replace_parked new rs u.1,
        )
  ]

  pub IsUnique-evict : (n : ℕ) (rs : List (JsonRpcResponse V)) → IsUnique rs → IsUnique (evict n rs)
  unfolding evict
  IsUnique-evict n [] u = tt
  IsUnique-evict n (r ∷ rs) u = elim (Bool-cases (ltb n (length (r ∷ rs)))) [
    | inl over ↦ rw over (IsUnique-evict n rs u.1)
    | inr fits ↦ rw fits u
  ]

  pub IsUnique-append :
      (r : JsonRpcResponse V) (rs : List (JsonRpcResponse V))
      → IsUnique rs
      → find_parked r.id rs ≡ none
      → IsUnique (rs ++ r ∷ [])
  unfolding find_parked
  IsUnique-append r [] u h = (refl, tt)
  IsUnique-append r (x ∷ rs) u h = (
    ground (arith, find_parked-append x.id r rs, id_eq_iff r.id x.id, id_eq_iff x.id r.id),
    IsUnique-append r rs u.1 (ground arith),
  )

  pub All-remove_parked :
      (P : JsonRpcResponse V → Type 0) (k : RequestId) (rs : List (JsonRpcResponse V))
      → All P rs
      → All P (remove_parked k rs)
  unfolding remove_parked
  All-remove_parked P k [] h = tt
  All-remove_parked P k (r ∷ rs) h = elim (Bool-cases (id_eq r.id k)) [
    | inl same ↦ rw same h.1
    | inr other ↦ rw other (h.0, All-remove_parked P k rs h.1)
  ]

  pub All-replace_parked :
      (P : JsonRpcResponse V → Type 0) (new : JsonRpcResponse V) (rs : List (JsonRpcResponse V))
      → P new
      → All P rs
      → All P (replace_parked new rs)
  unfolding replace_parked
  All-replace_parked P new [] p h = tt
  All-replace_parked P new (r ∷ rs) p h = elim (Bool-cases (id_eq r.id new.id)) [
    | inl same ↦ rw same (p, h.1)
    | inr other ↦ rw other (h.0, All-replace_parked P new rs p h.1)
  ]
