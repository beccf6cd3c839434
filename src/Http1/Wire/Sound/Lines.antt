-- ===== src/Http1/Wire/Sound/Lines.antt =====
-- src/transport/http1.rs: a line that `read_line` hands over is the front of what it consumed,
-- with its ending, and within the budget.
use sml_mcps.Prelude.{
  ℕ, zero, suc, ◌+◌, ◌-◌, ◌≤◌, min, ◌≡◌, ◌≢◌, refl, sym, ◌∙◌, ap, Bool, true, false, ◌&&◌, some, [],
  ◌∷◌, ◌++◌, arith, ◌==◌, length, take, drop, append_assoc, Bool-cases, Option-cases, inl, inr,
  length-append, length-take, take-append-drop,
}
use sml_mcps.Line.{Bytes, is_interrupt, split_line}
use sml_mcps.Line.Framing.{append-split_line, split_line_ends}
use sml_mcps.Line.Utf8.{utf8_valid}
use sml_mcps.Http1.{ok}
use sml_mcps.Http1.Wire.{
  late, failed, bytes, Reader, Raw, broken, stopped, unread, line_loop, Line, text, finish_line,
  without_return, pop, last, ends_in_return, text_or_invalid, is_line_text, read_line, line_of,
}
use sml_mcps.Http1.Wire.Stream.{
  flat, flat-unread, drop_front, IsLineText, with_crlf, append-pop, finish_line-append,
}

-- The line and its newline, behind what was read before.
abbrev LineTaken : ℕ → Bytes → Reader → Bytes → Reader → Type 0
LineTaken budget raw w out w' =
    (x : Bytes) × (out ≡ (raw ++ x) ++ b'\n' ∷ [])
    × (length x + 1 ≤ budget)
    × (flat w ≡ x ++ b'\n' ∷ flat w')

LineTaken-split :
    (budget : ℕ) (raw piece line rest : Bytes) (w : Reader)
    → split_line (take (min (length piece) budget) piece) ≡ some (line, rest)
    → LineTaken budget raw (bytes piece ∷ w) (raw ++ line) (unread (drop (length line) piece) w)
LineTaken-split budget raw piece line rest w h =
    let room = min (length piece) budget in
    let (x, ends) = split_line_ends (take room piece) line rest h in
    let front : take room piece ≡ line ++ rest = append-split_line (take room piece) line rest h in
    let whole : piece ≡ line ++ (rest ++ drop room piece) =
      sym (take-append-drop room piece)
      ∙ (ap (λ (t : Bytes). t ++ drop room piece) front
          ∙ append_assoc line rest (drop room piece)) in
    let behind : drop (length line) piece ≡ rest ++ drop room piece =
      ap (λ (t : Bytes). drop (length line) t) whole ∙ drop_front line (rest ++ drop room piece) in
    let measured : length (take room piece) ≡ length line + length rest =
      ap length front ∙ length-append line rest in
    let ending : length line ≡ length x + 1 = ap length ends ∙ length-append x (b'\n' ∷ []) in
    let left : flat (unread (drop (length line) piece) w) ≡ (rest ++ drop room piece) ++ flat w =
      flat-unread (drop (length line) piece) w ∙ ap (λ (t : Bytes). t ++ flat w) behind in
    let order : piece ++ flat w ≡ line ++ flat (unread (drop (length line) piece) w) =
      ap (λ (t : Bytes). t ++ flat w) whole
      ∙ (append_assoc line (rest ++ drop room piece) (flat w)
          ∙ ap (λ (t : Bytes). line ++ t) (sym left)) in
    (
      x,
      ap (λ (t : Bytes). raw ++ t) ends ∙ sym (append_assoc raw x (b'\n' ∷ [])),
      omega (arith, measured, ending, length-take room piece),
      order
          ∙ (ap (λ (t : Bytes). t ++ flat (unread (drop (length line) piece) w)) ends
              ∙ append_assoc x (b'\n' ∷ []) (flat (unread (drop (length line) piece) w))),
    )

-- the step over a piece that is used up
LineTaken-after :
    (budget : ℕ) (raw piece : Bytes) (w : Reader) (out : Bytes) (w' : Reader)
    → length piece ≤ budget
    → LineTaken (budget - length piece) (raw ++ piece) w out w'
    → LineTaken budget raw (bytes piece ∷ w) out w'
LineTaken-after budget raw piece w out w' le (x, ho, hl, hf) = (
  piece ++ x,
  ho ∙ ap (λ (t : Bytes). t ++ b'\n' ∷ []) (append_assoc raw piece x),
  omega (arith, length-append piece x),
  ap (λ (t : Bytes). piece ++ t) hf ∙ sym (append_assoc piece x (b'\n' ∷ flat w')),
)

LineTaken-of :
    (budget : ℕ) (raw out out' : Bytes) (w u w' : Reader)
    → ◌≡◌ {A = Raw × Reader} (stopped out' true, u) (stopped out true, w')
    → LineTaken budget raw w out' u
    → LineTaken budget raw w out w'
LineTaken-of budget raw out out' w u w' h (x, ho, hl, hf) = (x, cc, hl, cc)

line_loop-LineTaken :
    (budget : ℕ) (raw : Bytes) (w : Reader) (out : Bytes) (w' : Reader)
    → line_loop budget raw w ≡ (stopped out true, w')
    → LineTaken budget raw w out w'
unfolding line_loop
line_loop-LineTaken budget raw [] out w' h = cc
line_loop-LineTaken budget raw (late ∷ w) out w' h = cc
line_loop-LineTaken budget raw (failed kind ∷ w) out w' h = elim (Bool-cases (is_interrupt kind)) [
  | inl e ↦ line_loop-LineTaken budget raw w out w' (rw e at h)
  | inr e ↦ absurd (ground (arith, e))
]
line_loop-LineTaken budget raw (bytes [] ∷ w) out w' h = cc
line_loop-LineTaken budget raw (bytes (b ∷ bs) ∷ w) out w' h =
    let room = min (length (b ∷ bs)) budget in
    elim (Option-cases (split_line (take room (b ∷ bs)))) [
      | inr (p, e) ↦
          LineTaken-of budget raw out (raw ++ p.0) (bytes (b ∷ bs) ∷ w)
            (unread (drop (length p.0) (b ∷ bs)) w) w' (rw e at h)
            (LineTaken-split budget raw (b ∷ bs) p.0 p.1 w e)
      | inl shut ↦ elim (Bool-cases (budget - room == 0)) [
        | inl spent ↦ absurd (ground (arith, shut, spent))
        | inr more ↦ LineTaken-after budget raw (b ∷ bs) w out w' (ground (arith, more)) (
            line_loop-LineTaken (budget - length (b ∷ bs)) (raw ++ b ∷ bs) w out w'
              (ground (arith, shut, more)))
      ]
    ]

ends_in_return-eq_some : (x : Bytes) → ends_in_return x ≡ true → last x ≡ some b'\r'
unfolding ends_in_return
ends_in_return-eq_some x h = elim (Option-cases (last x)) [
  | inl e ↦ absurd (ground (arith, e))
  | inr (b, e) ↦ ground (arith, e)
]

text_or_invalid-eq_text :
    (raw t : Bytes) (c c' : Bool)
    → text_or_invalid raw c ≡ text t c'
    → (raw ≡ t) × (c ≡ c') × IsLineText t
unfolding text_or_invalid
text_or_invalid-eq_text raw t c c' h = elim (Bool-cases (utf8_valid raw && is_line_text raw)) [
  | inl e ↦
      let same : ◌≡◌ {A = Line} (text raw c) (text t c') = rw e at h in
      let raw-eq-t : raw ≡ t = cc in (raw-eq-t, cc, rw raw-eq-t at e)
  | inr e ↦ absurd (ground (arith, e))
]

without_return-text :
    (x t : Bytes) → without_return x ≡ text t true → (x ≡ t ++ b'\r' ∷ []) × IsLineText t
unfolding without_return
without_return-text x t h = elim (Bool-cases (ends_in_return x)) [
  | inl e ↦
      let (same, _, is_text) = text_or_invalid-eq_text (pop x) t true true (rw e at h) in
      (
        append-pop x b'\r' (ends_in_return-eq_some x e) ∙ ap (λ (u : Bytes). u ++ b'\r' ∷ []) same,
        is_text,
      )
  | inr e ↦ let (_, different, _) = text_or_invalid-eq_text x t false true (rw e at h) in cc
]

finish_line_unfinished :
    (raw t : Bytes) (terminated crlf : Bool)
    → finish_line raw terminated ≡ text t crlf
    → (terminated ≡ true) × (raw ≢ [])
unfolding finish_line
finish_line_unfinished [] t terminated crlf h = cc
finish_line_unfinished (b ∷ bs) t false crlf h = cc
finish_line_unfinished (b ∷ bs) t true crlf h = (refl, λ e. cc)

raw_text :
    (budget : ℕ) (w w' : Reader) (t : Bytes) (r : Raw) (u : Reader)
    → line_loop budget [] w ≡ (r, u)
    → line_of (r, u) ≡ (ok (text t true), w')
    → (flat w ≡ with_crlf t (flat w')) × IsLineText t × (length t + 2 ≤ budget)
raw_text budget w w' t (broken kind) u h l = cc
raw_text budget w w' t (stopped [] terminated) u h l =
    absurd ((finish_line_unfinished [] t terminated true (cc)).1 refl)
raw_text budget w w' t (stopped (b ∷ bs) false) u h l =
    cc (finish_line_unfinished (b ∷ bs) t false true (cc)).0
raw_text budget w w' t (stopped (b ∷ bs) true) u h l =
    let place : u ≡ w' = cc in
    let (x, ho, hl, hf) = line_loop-LineTaken budget [] w (b ∷ bs) w' (cc) in
    let line : without_return x ≡ text t true =
      sym (finish_line-append x) ∙ (ap (λ (u : Bytes). finish_line u true) (sym ho) ∙ cc) in
    let (same, is_text) = without_return-text x t line in
    let measured : length x ≡ length t + 1 = ap length same ∙ length-append t (b'\r' ∷ []) in
    (
      hf
          ∙ (ap (λ (u : Bytes). u ++ b'\n' ∷ flat w') same
              ∙ append_assoc t (b'\r' ∷ []) (b'\n' ∷ flat w')),
      is_text,
      omega (arith, measured),
    )

-- Whatever the peer and the clock do: a line that is handed over is the front of what stood
-- before the reader, with the carriage return and newline that are taken off it, and all of it
-- is within the budget.
pub read_line_sound :
    (budget : ℕ) (w w' : Reader) (t : Bytes)
    → read_line budget w ≡ (ok (text t true), w')
    → (flat w ≡ with_crlf t (flat w')) × IsLineText t × (length t + 2 ≤ budget)
unfolding read_line
read_line_sound zero w w' t h = cc
read_line_sound (suc budget) w w' t h =
    raw_text (suc budget) w w' t (line_loop (suc budget) [] w).0 (line_loop (suc budget) [] w).1
      refl h
