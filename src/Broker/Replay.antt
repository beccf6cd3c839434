-- ===== src/Broker/Replay.antt =====
-- The messages set aside for the main loop: `defer` and `next_deferred` of src/broker.rs are a
-- bounded queue, replayed in arrival order.
use sml_mcps.Prelude.{
  ℕ, zero, suc, ◌≡◌, refl, ap, ◌∙◌, Option, none, some, List, [], ◌∷◌, ◌++◌, append-nil,
  append_assoc, arith, length, length-append, take, drop, ◌-◌,
}
use sml_mcps.Rpc.{JsonRpcMessage}
use sml_mcps.Broker.{Broker, max_deferred, defer, next_deferred}

module _ {V : Type 0} where
  abbrev gather :
      Option (JsonRpcMessage V)
      → List (JsonRpcMessage V) × Broker V
      → List (JsonRpcMessage V) × Broker V
  gather none later = later
  gather (some m) (ms, b) = (m ∷ ms, b)

  -- The messages that are refused, in order, when these come in one by one.
  unfoldable pub defer_all : List (JsonRpcMessage V) → Broker V → List (JsonRpcMessage V) × Broker V
  defer_all [] b = ([], b)
  defer_all (m ∷ ms) b = let (refused, b') = defer m b in gather refused (defer_all ms b')

  -- what a loop takes out that calls `next_deferred` so many times
  unfoldable pub replay : ℕ → Broker V → List (JsonRpcMessage V)
  replay zero b = []
  replay (suc n) b =
      let rest = replay n (next_deferred b).1 in
      elim (next_deferred b).0 [ none ↦ [] | some m ↦ m ∷ rest ]

  abbrev room : Broker V → ℕ
  room b = max_deferred - length b.deferred

  defer_full : (m : JsonRpcMessage V) (b : Broker V) → room b ≡ 0 → defer m b ≡ (some m, b)
  unfolding defer
  defer_full m b h = ground arith

  defer_free :
      (m : JsonRpcMessage V) (b : Broker V) (n : ℕ)
      → room b ≡ suc n
      → defer m b ≡ (none, record b { deferred = b.deferred ++ m ∷ [] })
  unfolding defer
  defer_free m b n h = ground arith

  -- The first messages that fit are queued in their order, and all later ones are handed back.
  defer_all-room :
      (n : ℕ) (ms : List (JsonRpcMessage V)) (b : Broker V)
      → room b ≡ n
      → defer_all ms b ≡ (drop n ms, record b { deferred = b.deferred ++ take n ms })
  unfolding defer_all
  defer_all-room zero [] b h = rw append-nil
  defer_all-room (suc n) [] b h = rw append-nil
  defer_all-room zero (m ∷ ms) b h =
      ap (λ p. gather p.0 (defer_all ms p.1)) (defer_full m b h)
      ∙ ap (gather (some m)) (defer_all-room zero ms b h)
  defer_all-room (suc n) (m ∷ ms) b h =
      let b' = record b { deferred = b.deferred ++ m ∷ [] } in
      ap (λ p. gather p.0 (defer_all ms p.1)) (defer_free m b n h)
      ∙ defer_all-room n ms b' (omega (arith, length-append b.deferred (m ∷ [])))
      ∙ rw append_assoc

  replay-eq-deferred :
      (ms : List (JsonRpcMessage V)) (b : Broker V) → b.deferred ≡ ms → replay (length ms) b ≡ ms
  unfolding replay next_deferred
  replay-eq-deferred [] b e = refl
  replay-eq-deferred (m ∷ ms) b e =
      ground (arith, replay-eq-deferred ms (record b { deferred = ms }) refl)

  -- Of the messages deferred while something blocks the loop, as many as there is room for are
  -- queued and all later ones are handed back. The main loop then gets what was queued before,
  -- and then these, in the order in which they came.
  pub replay-defer_all :
      (ms : List (JsonRpcMessage V)) (b : Broker V)
      → ((defer_all ms b).0 ≡ drop (max_deferred - length b.deferred) ms)
        × (replay (length (defer_all ms b).1.deferred) (defer_all ms b).1
            ≡ b.deferred ++ take (max_deferred - length b.deferred) ms)
  replay-defer_all ms b =
      rw (defer_all-room (room b) ms b refl)
        (refl, replay-eq-deferred _ (record b { deferred = b.deferred ++ take (room b) ms }) refl)
