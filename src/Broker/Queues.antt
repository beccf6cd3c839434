-- ===== src/Broker/Queues.antt =====
-- The queues of src/broker.rs: eviction, lookup, removal and replacement in them.
use sml_mcps.Prelude.{
  ℕ, ◌≤◌, ◌<◌, min, ◌≡◌, refl, Bool, true, false, ◌&&◌, not, none, some, List, [], ◌∷◌, ◌++◌, arith,
  ltb, if◌then◌else◌, length, filter, is_some, All,
}
use sml_mcps.Rpc.{RequestId, id_eq, id_eq_iff, JsonRpcResponse}
use sml_mcps.Broker.{find_parked, remove_parked, replace_parked, evict, contains_id, remove_id}

module _ {A : Type 0} where
  pub length-evict : (n : ℕ) (xs : List A) → length (evict n xs) ≡ min n (length xs)
  unfolding evict
  length-evict n [] = omega arith
  length-evict n (x ∷ xs) = ground (arith, length-evict n xs)

  pub evict_short : (n : ℕ) (xs : List A) → length xs ≤ n → evict n xs ≡ xs
  unfolding evict
  evict_short n [] h = refl
  evict_short n (x ∷ xs) h = ground arith

  pub All-evict : (P : A → Type 0) (n : ℕ) (xs : List A) → All P xs → All P (evict n xs)
  unfolding evict
  All-evict P n [] h = tt
  All-evict P n (x ∷ xs) h = keep (ltb n (length (x ∷ xs))) (All-evict P n xs h.1)
    where
      keep : (b : Bool) → All P (evict n xs) → All P (if b then evict n xs else x ∷ xs)
      keep true rest = rest
      keep false rest = h

pub contains_id-remove_id :
    (k j : RequestId) (ks : List RequestId)
    → contains_id j ks ≡ false
    → contains_id j (remove_id k ks) ≡ false
unfolding contains_id remove_id
contains_id-remove_id k j [] h = refl
contains_id-remove_id k j (i ∷ ks) h = ground (arith, contains_id-remove_id k j ks)

pub length-remove_id-le :
    (k : RequestId) (ks : List RequestId) → length (remove_id k ks) ≤ length ks
unfolding remove_id
length-remove_id-le k [] = omega arith
length-remove_id-le k (i ∷ ks) = ground (arith, length-remove_id-le k ks)

pub contains_id-evict :
    (n : ℕ) (j : RequestId) (ks : List RequestId)
    → contains_id j ks ≡ false
    → contains_id j (evict n ks) ≡ false
unfolding contains_id evict
contains_id-evict n j [] h = refl
contains_id-evict n j (i ∷ ks) h = ground (arith, contains_id-evict n j ks)

pub contains_id-append :
    (j k : RequestId) (ks : List RequestId)
    → contains_id j (ks ++ k ∷ []) ≡ (if contains_id j ks then true else id_eq k j)
unfolding contains_id
contains_id-append j k [] = ground arith
contains_id-append j k (i ∷ ks) = ground (arith, contains_id-append j k ks)

-- What was appended last outlives an eviction.
pub contains_id-evict_last :
    (n : ℕ) (k : RequestId) (ks : List RequestId)
    → 0 < n
    → contains_id k (evict n (ks ++ k ∷ [])) ≡ true
unfolding contains_id evict
contains_id-evict_last n k [] h = ground (arith, id_eq_iff k k)
contains_id-evict_last n k (i ∷ ks) h = ground (
  arith,
  contains_id-evict_last n k ks,
  contains_id-append k k (i ∷ ks),
  contains_id-append k k ks,
  id_eq_iff k k,
)

module _ {V : Type 0} where
  -- No two parked responses share an id.
  abbrev pub IsUnique : List (JsonRpcResponse V) → Type 0
  IsUnique [] = Unit
  IsUnique (r ∷ rs) = (find_parked r.id rs ≡ none) × IsUnique rs

  pub find_parked-remove_parked :
      (k j : RequestId) (rs : List (JsonRpcResponse V))
      → IsUnique rs
      → find_parked j (remove_parked k rs) ≡ (if id_eq k j then none else find_parked j rs)
  unfolding find_parked remove_parked
  find_parked-remove_parked k j [] u = ground arith
  find_parked-remove_parked k j (r ∷ rs) u = ground (
    arith,
    find_parked-remove_parked k j rs,
    id_eq_iff r.id k,
    id_eq_iff r.id j,
    id_eq_iff k j,
    u.0,
  )

  pub find_parked-filter :
      (k j : RequestId) (rs : List (JsonRpcResponse V))
      → find_parked j (filter (λ r. not (id_eq r.id k)) rs)
        ≡ (if id_eq k j then none else find_parked j rs)
  unfolding find_parked
  find_parked-filter k j [] = ground arith
  find_parked-filter k j (r ∷ rs) =
      ground (arith, find_parked-filter k j rs, id_eq_iff r.id k, id_eq_iff r.id j, id_eq_iff k j)

  pub find_parked-replace_parked :
      (new : JsonRpcResponse V) (j : RequestId) (rs : List (JsonRpcResponse V))
      → find_parked j (replace_parked new rs)
        ≡ (if id_eq new.id j && is_some (find_parked j rs) then some new else find_parked j rs)
  unfolding find_parked replace_parked
  find_parked-replace_parked new j [] = ground arith
  find_parked-replace_parked new j (r ∷ rs) = ground (
    arith,
    find_parked-replace_parked new j rs,
    id_eq_iff r.id new.id,
    id_eq_iff r.id j,
    id_eq_iff new.id j,
  )

  pub find_parked-append :
      (j : RequestId) (r : JsonRpcResponse V) (rs : List (JsonRpcResponse V))
      → find_parked j (rs ++ r ∷ []) ≡ (
          if is_some (find_parked j rs)
          then find_parked j rs
          else if id_eq r.id j
          then some r
          else none)
  unfolding find_parked
  find_parked-append j r [] = ground arith
  find_parked-append j r (x ∷ rs) = ground (arith, find_parked-append j r rs)

  pub find_parked-evict-none :
      (n : ℕ) (j : RequestId) (rs : List (JsonRpcResponse V))
      → find_parked j rs ≡ none
      → find_parked j (evict n rs) ≡ none
  unfolding find_parked evict
  find_parked-evict-none n j [] h = refl
  find_parked-evict-none n j (r ∷ rs) h = ground (arith, find_parked-evict-none n j rs)

  -- The response that was parked last outlives an eviction.
  pub find_parked-evict_last :
      (n : ℕ) (r : JsonRpcResponse V) (rs : List (JsonRpcResponse V))
      → 0 < n
      → find_parked r.id rs ≡ none
      → find_parked r.id (evict n (rs ++ r ∷ [])) ≡ some r
  unfolding find_parked evict
  find_parked-evict_last n r [] h a = ground (arith, id_eq_iff r.id r.id)
  find_parked-evict_last n r (x ∷ rs) h a =
      ground
        (arith, find_parked-evict_last n r rs, find_parked-append r.id r rs, id_eq_iff r.id r.id)
