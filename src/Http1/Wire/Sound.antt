-- ===== src/Http1/Wire/Sound.antt =====
-- src/transport/http1.rs: what `read_exactly` and `read_line` hand over is what they consumed,
-- whatever the peer and the clock do.
pub mod Lines
use sml_mcps.Prelude.{
  ℕ, zero, suc, ◌+◌, ◌-◌, ◌≤◌, min, ◌≡◌, refl, sym, ◌∙◌, ap, Bool, true, false, Option, none, some,
  [], ◌∷◌, ◌++◌, arith, ltb, leb, length, take, drop, append_assoc, append-nil, Bool-cases,
  Option-cases, inl, inr, length-append, length-take, take-append-drop,
}
use sml_mcps.Line.{Bytes, is_interrupt}
use sml_mcps.Http1.{BodyError, Outcome, ok, err}
use sml_mcps.Http1.Wire.{Turn, late, failed, bytes, Reader, unread, read_exactly}
use sml_mcps.Http1.Wire.Stream.{flat, flat-unread}

-- What a finished read has taken off the reader.
abbrev pub Taken : ℕ → Bytes → Reader → Bytes → Reader → Type 0
Taken n into w out w' = (d : Bytes) × (out ≡ into ++ d) × (length d ≡ n) × (flat w ≡ d ++ flat w')

-- the step over a piece that is used up
Taken-after :
    (piece into : Bytes) (n : ℕ) (w : Reader) (out : Bytes) (w' : Reader)
    → length piece ≤ n
    → Taken (n - length piece) (into ++ piece) w out w'
    → Taken n into (bytes piece ∷ w) out w'
Taken-after piece into n w out w' le (d, ho, hl, hf) = (
  piece ++ d,
  ho ∙ append_assoc into piece d,
  ground (arith, length-append piece d),
  ap (λ (t : Bytes). piece ++ t) hf ∙ sym (append_assoc piece d (flat w')),
)

-- the step into a piece of which a rest stays
Taken-part :
    (piece into : Bytes) (n : ℕ) (w : Reader)
    → n ≤ length piece
    → Taken n into (bytes piece ∷ w) (into ++ take n piece) (unread (drop n piece) w)
Taken-part piece into n w le = (
  take n piece,
  refl,
  ground (arith, length-take n piece),
  ap (λ (t : Bytes). t ++ flat w) (sym (take-append-drop n piece))
      ∙ (append_assoc (take n piece) (drop n piece) (flat w)
          ∙ ap (λ (t : Bytes). take n piece ++ t) (sym (flat-unread (drop n piece) w))),
)

Taken-of :
    (n : ℕ) (into out out' : Bytes) (w u w' : Reader)
    → ◌≡◌ {A = Outcome BodyError Bytes × Reader} (ok out', u) (ok out, w')
    → Taken n into w out' u
    → Taken n into w out w'
Taken-of n into out out' w u w' h (d, ho, hl, hf) = (d, cc, hl, cc)

pub read_exactly-Taken :
    (n : ℕ) (into : Bytes) (w : Reader) (out : Bytes) (w' : Reader)
    → read_exactly n into w ≡ (ok out, w')
    → Taken n into w out w'
unfolding read_exactly
read_exactly-Taken zero into w out w' h =
    Taken-of 0 into out into w w w' h ([], sym (append-nil into), refl, refl)
read_exactly-Taken (suc n) into [] out w' h = cc
read_exactly-Taken (suc n) into (late ∷ w) out w' h = cc
read_exactly-Taken (suc n) into (failed kind ∷ w) out w' h = elim (Bool-cases (is_interrupt kind)) [
  | inl e ↦ read_exactly-Taken (suc n) into w out w' (rw e at h)
  | inr e ↦ absurd (ground (arith, e))
]
read_exactly-Taken (suc n) into (bytes [] ∷ w) out w' h = cc
read_exactly-Taken (suc n) into (bytes (b ∷ bs) ∷ w) out w' h =
    elim (Bool-cases (leb (length (b ∷ bs)) (suc n))) [
      | inl e ↦
          let rest : read_exactly (suc n - length (b ∷ bs)) (into ++ b ∷ bs) w ≡ (ok out, w') =
            rw e at h in
          Taken-after (b ∷ bs) into (suc n) w out w' (ground (arith, e))
            (read_exactly-Taken (suc n - length (b ∷ bs)) (into ++ b ∷ bs) w out w' rest)
      | inr e ↦
          let now : ◌≡◌ {A = Outcome BodyError Bytes × Reader}
              (ok (into ++ take (suc n) (b ∷ bs)), unread (drop (suc n) (b ∷ bs)) w) (ok out, w') =
            rw e at h in
          Taken-of (suc n) into out (into ++ take (suc n) (b ∷ bs)) (bytes (b ∷ bs) ∷ w)
            (unread (drop (suc n) (b ∷ bs)) w) w' now
            (Taken-part (b ∷ bs) into (suc n) w (ground (arith, e)))
    ]
