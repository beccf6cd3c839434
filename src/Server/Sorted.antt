-- ===== src/Server/Sorted.antt =====
-- What `ToolEnv::await_response` of src/server.rs does with the client messages that it reads.
use sml_mcps.Prelude.{
  ℕ, zero, suc, ◌-◌, ◌≡◌, refl, ap, ◌∙◌, true, false, Option, Option-cases, inl, inr, none, some,
  List, [], ◌∷◌, ◌++◌, append-nil, append_assoc, arith, leb, length, length-append, take, drop,
}
use sml_mcps.Prelude.Assoc.{lookup, remove}
use sml_mcps.Prelude.Text.{Text}
use sml_mcps.Rpc.{
  RequestId, id_has_eq, JsonRpcError, JsonRpcResponse, JsonRpcMessage, request, notification,
  response,
}
use sml_mcps.Rpc.Json.{Json}
use sml_mcps.Error.{Result}
use sml_mcps.Broker.{
  Broker, take_parked, deliver, abandon, defer, max_deferred, park, forget_abandoned,
}
use sml_mcps.Server.{
  Env, Turn, expired, failed, arrived, Waited, shed_or_defer, answer_refused, place, place_turn,
  ends_wait, given_up, looked, on_turn, await_response,
}

module _ {V : Type 0} where
  park-deferred : (r : JsonRpcResponse V) (b : Broker V) → (park r b).deferred ≡ b.deferred
  unfolding park forget_abandoned
  park-deferred r b = ground arith

  pub deliver-deferred :
      (r : JsonRpcResponse V) (b : Broker V) → (deliver r b).deferred ≡ b.deferred
  unfolding deliver
  deliver-deferred r b = elim (Option-cases (lookup r.id b.waiters)) [
    | inl e ↦ rw e (park-deferred r (record b { waiters = remove r.id b.waiters }))
    | inr (c, e) ↦ rw e refl
  ]

  looked-deferred : (id : RequestId) (s : Env V) → (looked id s).broker.deferred ≡ s.broker.deferred
  unfolding take_parked
  looked-deferred id s = refl

  given_up-same :
      (id : RequestId) (m : JsonRpcMessage V) (s : Env V)
      → ((given_up id m s).broker.deferred ≡ s.broker.deferred)
        × ((given_up id m s).written ≡ s.written)
  unfolding given_up abandon
  given_up-same id (response r) s = (refl, refl)
  given_up-same id _ s = (refl, refl)

  abbrev pub room : Broker V → ℕ
  room b = max_deferred - length b.deferred

module _ {A : Type 0} where
  take_nil : (n : ℕ) → take {A = A} n [] ≡ []
  take_nil zero = refl
  take_nil (suc n) = refl

  drop_nil : (n : ℕ) → drop {A = A} n [] ≡ []
  drop_nil zero = refl
  drop_nil (suc n) = refl

module _ {V : Type 0} (j : Json V) (show_code : JsonRpcError V → Text)
    (debug_id : RequestId → Text) where
  abbrev aside :
      JsonRpcMessage V → Option (Result V V) → List (JsonRpcMessage V) → List (JsonRpcMessage V)
  aside (response r) o rest = rest
  aside m (some result) rest = rest
  aside m none rest = m ∷ rest

  -- The messages of the client among these turns that do not end the wait.
  abbrev pub set_aside : RequestId → List (Turn V) → List (JsonRpcMessage V)
  set_aside id [] = []
  set_aside id (arrived m ∷ ts) = aside m (ends_wait j show_code debug_id id m) (set_aside id ts)
  set_aside id (_ ∷ ts) = set_aside id ts

  -- The answers to the refused ones.
  abbrev pub answers : List (JsonRpcMessage V) → List (JsonRpcMessage V)
  answers [] = []
  answers (m ∷ ms) = answer_refused j (some m) ++ answers ms

  pub record Sorts (id : RequestId) (n : ℕ) (turns : List (Turn V)) (s : Env V) (w : Waited V)
      : Type 0 where
    pub used : List (Turn V)
    pub split : turns ≡ used ++ w.rest
    pub queued : w.env.broker.deferred ≡ s.broker.deferred ++ take n (set_aside id used)
    pub answered : w.env.written ≡ s.written ++ answers (drop n (set_aside id used))

  -- Nothing but what has been used changes the queue and what is written.
  Sorts-end :
      (id : RequestId) (n : ℕ) (used rest : List (Turn V)) (s s' : Env V)
      (outcome : Option (Result V V))
      → s'.broker.deferred ≡ s.broker.deferred
      → s'.written ≡ s.written
      → set_aside id used ≡ []
      → Sorts id n (used ++ rest) s (record { outcome = outcome; rest = rest; env = s' })
  Sorts-end id n used rest s s' outcome d w e = record {
    used = used;
    split = refl;
    queued = rw (e, take_nil n, append-nil) d;
    answered = rw (e, drop_nil n, append-nil) w;
  }

  Sorts-skip :
      (id : RequestId) (n : ℕ) (t : Turn V) (ts : List (Turn V)) (s s' : Env V) (w : Waited V)
      → s'.broker.deferred ≡ s.broker.deferred
      → s'.written ≡ s.written
      → ((used : List (Turn V)) → set_aside id (t ∷ used) ≡ set_aside id used)
      → Sorts id n ts s' w
      → Sorts id n (t ∷ ts) s w
  Sorts-skip id n t ts s s' w d e skip h = record {
    used = t ∷ h.used;
    split = ap (◌∷◌ t) h.split;
    queued = rw (skip h.used, ← d) h.queued;
    answered = rw (skip h.used, ← e) h.answered;
  }

  shed_full :
      (m : JsonRpcMessage V) (s : Env V)
      → room s.broker ≡ 0
      → shed_or_defer j m s
        ≡ record { broker = s.broker; written = s.written ++ answer_refused j (some m) }
  unfolding shed_or_defer defer
  shed_full m s h = rw (full (length s.broker.deferred) h) refl
    where
      full : (n : ℕ) → max_deferred - n ≡ 0 → leb max_deferred n ≡ true
      full n e = ground arith

  shed_free :
      (m : JsonRpcMessage V) (s : Env V) (n : ℕ)
      → room s.broker ≡ suc n
      → shed_or_defer j m s ≡ record {
        broker = record s.broker { deferred = s.broker.deferred ++ m ∷ [] };
        written = s.written;
      }
  unfolding shed_or_defer defer
  shed_free m s n h = rw (free (length s.broker.deferred) h, append-nil) refl
    where
      free : (k : ℕ) → max_deferred - k ≡ suc n → leb max_deferred k ≡ false
      free k e = ground arith

  -- A client message is queued where there is room, and refused where there is none.
  Sorts-aside :
      (id : RequestId) (n : ℕ) (m : JsonRpcMessage V) (ts : List (Turn V)) (s : Env V)
      (w : Waited V)
      → room s.broker ≡ n
      → ((used : List (Turn V)) → set_aside id (arrived m ∷ used) ≡ m ∷ set_aside id used)
      → ((k : ℕ) → room (shed_or_defer j m s).broker ≡ k → Sorts id k ts (shed_or_defer j m s) w)
      → Sorts id n (arrived m ∷ ts) s w
  Sorts-aside id zero m ts s w r keep h =
      let full = shed_full m s r in
      let ih = h 0 (rw full r) in
      record {
        used = arrived m ∷ ih.used;
        split = ap (◌∷◌ (arrived m)) ih.split;
        queued = rw full at ih.queued;
        answered = rw (keep ih.used) (
            (rw full at ih.answered)
            ∙ append_assoc s.written (answer_refused j (some m)) (answers (set_aside id ih.used)));
      }
  Sorts-aside id (suc n) m ts s w r keep h =
      let free = shed_free m s n r in
      let ih = h n (rw free (omega (arith, r, length-append s.broker.deferred (m ∷ [])))) in
      record {
        used = arrived m ∷ ih.used;
        split = ap (◌∷◌ (arrived m)) ih.split;
        queued = rw (keep ih.used) (
            (rw free at ih.queued)
            ∙ append_assoc s.broker.deferred (m ∷ []) (take n (set_aside id ih.used)));
        answered = rw (keep ih.used) (rw free at ih.answered);
      }

  sort_turn :
      (id : RequestId) (n : ℕ) (m : JsonRpcMessage V) (ts : List (Turn V)) (s : Env V)
      → room s.broker ≡ n
      → ends_wait j show_code debug_id id m ≡ none
      → ((k : ℕ) (s' : Env V)
          → room s'.broker ≡ k
          → Sorts id k ts s' (await_response j show_code debug_id id ts s'))
      → Sorts id n (arrived m ∷ ts) s (await_response j show_code debug_id id ts (place j m s))
  unfolding place
  sort_turn id n (response r) ts s h e ih =
      let same = deliver-deferred r s.broker in
      Sorts-skip id n (arrived (response r)) ts s (place j (response r) s) _ same refl (λ _. refl)
        (ih n (place j (response r) s) (rw same h))
  sort_turn id n (request r) ts s h e ih =
      Sorts-aside id n (request r) ts s _ h (λ used. rw e refl) (λ k. ih k (place j (request r) s))
  sort_turn id n (notification r) ts s h e ih =
      Sorts-aside id n (notification r) ts s _ h (λ used. rw e refl)
        (λ k. ih k (place j (notification r) s))

  Sorts-from :
      (id : RequestId) (n : ℕ) (ts : List (Turn V)) (s s' : Env V) (w : Waited V)
      → s'.broker.deferred ≡ s.broker.deferred
      → s'.written ≡ s.written
      → Sorts id n ts s' w
      → Sorts id n ts s w
  Sorts-from id n ts s s' w d e h = record {
    used = h.used;
    split = h.split;
    queued = rw (← d) h.queued;
    answered = rw (← e) h.answered;
  }

  ended_aside :
      (id : RequestId) (m : JsonRpcMessage V) (result : Result V V)
      → ends_wait j show_code debug_id id m ≡ some result
      → set_aside id (arrived m ∷ []) ≡ []
  ended_aside id (response r) result e = refl
  ended_aside id (request r) result e = rw e refl
  ended_aside id (notification r) result e = rw e refl

  turned :
      (id : RequestId) (n : ℕ) (t : Turn V) (ts : List (Turn V)) (s : Env V)
      → room s.broker ≡ n
      → ((k : ℕ) (s' : Env V)
          → room s'.broker ≡ k
          → Sorts id k ts s' (await_response j show_code debug_id id ts s'))
      → Sorts id n (t ∷ ts) s (
          on_turn j show_code debug_id id t ts s
            (await_response j show_code debug_id id ts (place_turn j t s)))
  turned id n expired ts s k ih = Sorts-end id n (expired ∷ []) ts s s _ refl refl refl
  turned id n (failed x) ts s k ih = Sorts-end id n (failed x ∷ []) ts s s _ refl refl refl
  turned id n (arrived m) ts s k ih = elim (Option-cases (ends_wait j show_code debug_id id m)) [
    | inr (result, e) ↦
        let same = given_up-same id m s in
        rw e (
          Sorts-end id n (arrived m ∷ []) ts s (given_up id m s) _ same.0 same.1
            (ended_aside id m result e))
    | inl e ↦ rw e (sort_turn id n m ts s k e ih)
  ]

  -- While a thread waits for an answer, every client message that it reads, other than one that
  -- ends the wait, is set aside for the main loop in arrival order as long as there is room, and
  -- each request among the later ones is answered with the overload error; nothing else is queued
  -- or written. This holds wherever the wait ends and while it goes on.
  pub await_response-Sorts :
      (id : RequestId) (n : ℕ) (turns : List (Turn V)) (s : Env V)
      → room s.broker ≡ n
      → Sorts id n turns s (await_response j show_code debug_id id turns s)
  unfolding await_response
  await_response-Sorts id n [] s h = elim (Option-cases (take_parked id s.broker).0) [
    | inl e ↦ rw e (Sorts-end id n [] [] s (looked id s) none (looked-deferred id s) refl refl)
    | inr (r, e) ↦ rw e (Sorts-end id n [] [] s (looked id s) _ (looked-deferred id s) refl refl)
  ]
  await_response-Sorts id n (t ∷ ts) s h =
      let d = looked-deferred id s in
      elim (Option-cases (take_parked id s.broker).0) [
        | inr (r, e) ↦ rw e (Sorts-end id n [] (t ∷ ts) s (looked id s) _ d refl refl)
        | inl e ↦ rw e (
            Sorts-from id n (t ∷ ts) s (looked id s) _ d refl
              (turned id n t ts (looked id s) (rw d h) (λ k s'. await_response-Sorts id k ts s')))
      ]
