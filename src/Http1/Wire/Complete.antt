-- ===== src/Http1/Wire/Complete.antt =====
-- src/transport/http1.rs: from a reader that loses no time, `read_exactly` and `read_line` take
-- what stands before them, however it is cut into pieces.
pub mod Lines
use sml_mcps.Prelude.{
  ℕ, zero, suc, ◌+◌, ◌-◌, ◌≤◌, min, ◌≡◌, refl, sym, ◌∙◌, ap, Bool, true, false, Option, none, some,
  [], ◌∷◌, ◌++◌, arith, ltb, leb, length, take, drop, append_assoc, append-nil, Bool-cases,
  Option-cases, inl, inr, length-append, length-take, take-append-drop,
}
use sml_mcps.Line.{Bytes, is_interrupt}
use sml_mcps.Http1.{BodyError, Outcome, ok, err}
use sml_mcps.Http1.Wire.{Turn, late, failed, bytes, Reader, unread, read_exactly}
use sml_mcps.Http1.Wire.Stream.{
  flat, flat-unread, unread-IsPrompt, IsPrompt, append_cut, take_front, drop_front,
}

-- The call took `out` and left a reader that still loses no time, before the bytes `rest`.
abbrev pub Leaves : {A : Type 0} → A × Reader → A → Bytes → Type 0
Leaves call out rest = (w' : Reader) × (call ≡ (out, w')) × IsPrompt w' × (flat w' ≡ rest)

Leaves-piece :
    (piece d into x rest : Bytes) (w : Reader)
    → d ≡ piece ++ x
    → Leaves (read_exactly (length x) (into ++ piece) w) (ok ((into ++ piece) ++ x)) rest
    → Leaves (read_exactly (length d - length piece) (into ++ piece) w) (ok (into ++ d)) rest
Leaves-piece piece d into x rest w e (w', hr, hp, hf) =
    let same : length x ≡ length d - length piece =
      omega (arith, ap length e, length-append piece x) in
    let out : (into ++ piece) ++ x ≡ into ++ d =
      append_assoc into piece x ∙ ap (λ (t : Bytes). into ++ t) (sym e) in
    (w', cc, hp, hf)

Leaves-part :
    (d piece into x rest : Bytes) (w : Reader)
    → IsPrompt w
    → piece ≡ d ++ x
    → rest ≡ x ++ flat w
    → Leaves {A = Outcome BodyError Bytes}
        (ok (into ++ take (length d) piece), unread (drop (length d) piece) w)
        (ok (into ++ d))
        rest
Leaves-part d piece into x rest w p hp hr =
    let front : take (length d) piece ≡ d =
      ap (λ (t : Bytes). take (length d) t) hp ∙ take_front d x in
    let back : drop (length d) piece ≡ x =
      ap (λ (t : Bytes). drop (length d) t) hp ∙ drop_front d x in
    (
      unread (drop (length d) piece) w,
      cc,
      unread-IsPrompt (drop (length d) piece) w p,
      flat-unread (drop (length d) piece) w ∙ (ap (λ (t : Bytes). t ++ flat w) back ∙ sym hr),
    )

pub read_exactly-Leaves :
    (d into rest : Bytes) (w : Reader)
    → IsPrompt w
    → flat w ≡ d ++ rest
    → Leaves (read_exactly (length d) into w) (ok (into ++ d)) rest
unfolding read_exactly
read_exactly-Leaves [] into rest w p h = (w, rw (append-nil into), p, h)
read_exactly-Leaves (a ∷ d) into rest [] p h = cc
read_exactly-Leaves (a ∷ d) into rest (late ∷ w) p h = elim p [ ]
read_exactly-Leaves (a ∷ d) into rest (failed kind ∷ w) p h =
    rw p.0 (read_exactly-Leaves (a ∷ d) into rest w p.1 h)
read_exactly-Leaves (a ∷ d) into rest (bytes [] ∷ w) p h = elim p [ ]
read_exactly-Leaves (a ∷ d) into rest (bytes (b ∷ bs) ∷ w) p h =
    elim (Bool-cases (leb (length (b ∷ bs)) (length (a ∷ d)))) [
      | inl e ↦
          let (x, hd, hw) = append_cut (b ∷ bs) (flat w) (a ∷ d) rest h (ground (arith, e)) in
          rw e (
            Leaves-piece (b ∷ bs) (a ∷ d) into x rest w hd
              (read_exactly-Leaves x (into ++ b ∷ bs) rest w p hw))
      | inr e ↦
          let (x, hp, hr) = append_cut (a ∷ d) rest (b ∷ bs) (flat w) (sym h) (ground (arith, e)) in
          rw e (Leaves-part (a ∷ d) (b ∷ bs) into x rest w p hp hr)
    ]
