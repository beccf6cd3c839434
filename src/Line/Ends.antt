-- ===== src/Line/Ends.antt =====
-- The loop of `read_message` of src/transport/line.rs ends on every source that ends.
use sml_mcps.Prelude.{
  ℕ, zero, suc, ◌+◌, ◌≤◌, ◌<◌, ◌≡◌, refl, true, ◌⊎◌, Option, none, some, [], ◌∷◌, arith, inl, inr,
  Bool-cases, Option-cases, is_some,
}
use sml_mcps.Prelude.Text.{Text}
use sml_mcps.Rpc.{JsonRpcMessage}
use sml_mcps.Rpc.Json.{Json}
use sml_mcps.Error.{McpError, Result, IoKind}
use sml_mcps.Line.Source.{DeadlineRead, Filled, bytes, failed}
use sml_mcps.Line.{
  Bytes, LineReader, Formats, split_line, absorb, Pass, done, again, take_bytes, take_failure,
  take_filled, fill, fill_unless, arm, armed_by, expired, pass, read_loop, start, read_message,
}

-- A source that makes finitely many reads before its end: `remaining` counts them, and neither
-- the clock nor a deadline adds to it.
pub record IsFinite {S : Type 0} (src : DeadlineRead S) (remaining : S → ℕ) : Type 0 where
  pub read_counts : (s : S) → ((src.read s).0 ≡ bytes []) ⊎ (remaining (src.read s).1 < remaining s)
  pub deadline_counts : (d : Option ℕ) (s : S) → remaining (src.set_deadline d s).1 ≤ remaining s
  pub now_counts : (s : S) → remaining (src.now s).1 ≤ remaining s

-- what is in the buffer counts as one more read
abbrev pub buffered : Bytes → ℕ
buffered [] = 0
buffered (c ∷ cs) = 1

module _ {V : Type 0} (j : Json V) (f : Formats) where
  -- A pass over bytes that goes on has emptied the buffer.
  abbrev Emptied : Pass (Result V (JsonRpcMessage V)) × LineReader → Type 0
  Emptied (done x, r) = Unit
  Emptied (again, r) = r.buffer ≡ []

  take_bytes-Emptied : (r : LineReader) (bs : Bytes) → Emptied (take_bytes j f r bs)
  unfolding take_bytes absorb
  take_bytes-Emptied r [] = tt
  take_bytes-Emptied r (c ∷ cs) = elim (Option-cases (split_line (c ∷ cs))) [
    | inl e ↦ rw e refl
    | inr ((line, rest), e) ↦ rw e tt
  ]

  module _ {S : Type 0} (src : DeadlineRead S) (remaining : S → ℕ)
      (finite : IsFinite src remaining) where
    abbrev measure : LineReader → S → ℕ
    measure r s = buffered r.buffer + remaining s

    abbrev Falls : ℕ → Pass (Result V (JsonRpcMessage V)) × LineReader × S → Type 0
    Falls n (done x, r, s) = Unit
    Falls n (again, r, s) = measure r s < n

    Emptied-Falls :
        (n : ℕ) (p : Pass (Result V (JsonRpcMessage V))) (r : LineReader) (s : S)
        → Emptied (p, r)
        → remaining s < n
        → Falls n (p, r, s)
    Emptied-Falls n (done x) r s e h = tt
    Emptied-Falls n again r s e h = rw e (omega arith)

    failure-Emptied :
        (limit : Option ℕ) (kind : IoKind) (m : Text) (r : LineReader)
        → r.buffer ≡ []
        → Emptied (take_failure j f limit kind m, r)
    failure-Emptied limit kind m r b = emptied (take_failure j f limit kind m)
      where
        emptied : (p : Pass (Result V (JsonRpcMessage V))) → Emptied (p, r)
        emptied (done x) = tt
        emptied again = b

    filled-Falls :
        (limit : Option ℕ) (r : LineReader) (n : ℕ) (got : Filled) (s : S)
        → r.buffer ≡ []
        → (got ≡ bytes []) ⊎ (remaining s < n)
        → Falls n (take_filled j f src limit r (got, s))
    filled-Falls limit r n (bytes []) s b h = unfold take_bytes in tt
    filled-Falls limit r n (bytes (c ∷ cs)) s b (inl e) = absurd cc
    filled-Falls limit r n (bytes (c ∷ cs)) s b (inr h) =
        Emptied-Falls n _ _ s (take_bytes-Emptied (record r { buffer = c ∷ cs }) (c ∷ cs)) h
    filled-Falls limit r n (failed kind m) s b (inl e) = absurd cc
    filled-Falls limit r n (failed kind m) s b (inr h) =
        Emptied-Falls n (take_failure j f limit kind m) r s (failure-Emptied limit kind m r b) h

    read_falls :
        (n m : ℕ) (got : Filled)
        → (got ≡ bytes []) ⊎ (m < n)
        → (k : ℕ) → n ≤ k
        → (got ≡ bytes []) ⊎ (m < k)
    read_falls n m got (inl e) k h = inl e
    read_falls n m got (inr l) k h = inr (omega arith)

    fill-Falls :
        (limit : Option ℕ) (bs : Bytes) (r : LineReader) (s : S) (n : ℕ)
        → r.buffer ≡ bs
        → buffered bs + remaining s ≤ n
        → Falls n (fill j f src limit r bs s)
    fill-Falls limit [] r s n b h =
        filled-Falls limit r n (src.read s).0 (src.read s).1 b
          (read_falls (remaining s) _ _ (finite.read_counts s) n (omega arith))
    fill-Falls limit (c ∷ cs) r s n b h =
        Emptied-Falls n _ _ s (take_bytes-Emptied r (c ∷ cs)) (omega arith)

    abbrev Arms : LineReader → S → Option (McpError V) × LineReader × S → Type 0
    Arms r s (e, r', s') = (r'.buffer ≡ r.buffer) × (remaining s' ≤ remaining s)

    armed_by-Arms :
        (r : LineReader) (s : S) (o : Option (IoKind × Text)) (s' : S)
        → remaining s' ≤ remaining s
        → Arms r s (armed_by j f src r (o, s'))
    armed_by-Arms r s none s' h = (refl, h)
    armed_by-Arms r s (some (kind, m)) s' h = (refl, h)

    arm-Arms : (deadline : Option ℕ) (r : LineReader) (s : S) → Arms r s (arm j f src deadline r s)
    unfolding arm
    arm-Arms (some d) r s = armed_by-Arms r s _ _ (finite.deadline_counts (some d) s)
    arm-Arms none r s = elim (Bool-cases r.armed) [
      | inl on ↦ rw on (refl, finite.deadline_counts none s)
      | inr off ↦ rw off (refl, omega arith)
    ]

    fill_unless-Falls :
        (limit : Option ℕ) (armed : Option (McpError V) × LineReader × S) (r : LineReader) (s : S)
        (n : ℕ)
        → Arms r s armed
        → measure r s ≤ n
        → Falls n (fill_unless j f src limit armed)
    fill_unless-Falls limit (none, r', s') r s n h k =
        fill-Falls limit r'.buffer r' s' n refl (rw h.0 (omega (arith, h.1)))
    fill_unless-Falls limit (some e, r', s') r s n h k = tt

    expired_counts :
        (deadline : Option ℕ) (s : S) → remaining (expired j f src deadline s).1 ≤ remaining s
    expired_counts none s = omega arith
    expired_counts (some d) s = finite.now_counts s

    pass-Falls :
        (limit deadline : Option ℕ) (r : LineReader) (s : S)
        → Falls (measure r s) (pass j f src limit deadline r s)
    unfolding pass
    pass-Falls limit deadline r s =
        let (late, s') = expired j f src deadline s in
        elim (Bool-cases late) [
          | inl e ↦ rw e tt
          | inr e ↦ rw e (
              fill_unless-Falls limit (arm j f src deadline r s') r s' (measure r s)
                (arm-Arms deadline r s') (omega (arith, expired_counts deadline s)))
        ]

    step_ends :
        (p : Pass (Result V (JsonRpcMessage V))) (r : LineReader) (s : S) (n : ℕ)
        (rest : Option (Result V (JsonRpcMessage V) × LineReader × S))
        → Falls n (p, r, s)
        → (measure r s < n → is_some rest ≡ true)
        → is_some {A = Result V (JsonRpcMessage V) × LineReader × S}
            (elim p [ done result ↦ some (result, r, s) | again ↦ rest ])
          ≡ true
    step_ends (done x) r s n rest h k = refl
    step_ends again r s n rest h k = k h

    read_loop_ends :
        (fuel : ℕ) (limit deadline : Option ℕ) (r : LineReader) (s : S)
        → measure r s < fuel
        → is_some (read_loop j f src fuel limit deadline r s) ≡ true
    unfolding read_loop
    read_loop_ends zero limit deadline r s h = elim h [ ]
    read_loop_ends (suc fuel) limit deadline r s h =
        let (p, r', s') = pass j f src limit deadline r s in
        step_ends p r' s' (measure r s) (read_loop j f src fuel limit deadline r' s')
          (pass-Falls limit deadline r s)
          (λ less. read_loop_ends fuel limit deadline r' s' (omega arith))

    start_counts : (limit : Option ℕ) (s : S) → remaining (start j f src limit s).1 ≤ remaining s
    start_counts none s = omega arith
    start_counts (some t) s = finite.now_counts s

    -- On a source that makes finitely many reads before its end, a call of `read_message`
    -- returns: one pass for each read, one for the buffer and one more are enough.
    pub read_message_ends :
        (fuel : ℕ) (limit : Option ℕ) (r : LineReader) (s : S)
        → buffered r.buffer + remaining s < fuel
        → is_some (read_message j f src fuel limit r s) ≡ true
    unfolding read_message
    read_message_ends fuel limit r s h =
        let (deadline, s') = start j f src limit s in
        read_loop_ends fuel limit deadline r s' (omega (arith, start_counts limit s))
