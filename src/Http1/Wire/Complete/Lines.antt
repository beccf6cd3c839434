-- ===== src/Http1/Wire/Complete/Lines.antt =====
-- src/transport/http1.rs: a line within the budget is read whole, however it is cut into pieces.
use sml_mcps.Prelude.{
  ℕ, zero, suc, ◌+◌, ◌-◌, ◌≤◌, min, ◌≡◌, refl, sym, ◌∙◌, ap, Bool, true, false, ◌&&◌, none, some,
  [], ◌∷◌, ◌++◌, arith, leb, ◌==◌, length, take, drop, append_assoc, Bool-cases, Option-cases, inl,
  inr, length-append,
}
use sml_mcps.Line.{Bytes, split_line}
use sml_mcps.Line.Framing.{split_line-append, split_line_extend, split_line_newline, IsOpen}
use sml_mcps.Line.Utf8.{utf8_valid}
use sml_mcps.Http1.{ok}
use sml_mcps.Http1.Wire.{
  late, failed, bytes, Reader, Raw, stopped, unread, line_loop, taken_line, text, finish_line,
  without_return, ends_in_return, text_or_invalid, is_line_text, line_byte, read_line,
}
use sml_mcps.Http1.Wire.Stream.{
  flat, flat-unread, drop_front, take_all, take_over, IsLineText, IsPrompt, with_crlf, append_cut,
  unread-IsPrompt, last-append, pop-append, finish_line-append,
}
use sml_mcps.Http1.Wire.Complete.{Leaves}

-- A part of bytes without a newline has none.
IsOpen-front : (x e : Bytes) → IsOpen (x ++ e) → IsOpen x
IsOpen-front x e h = elim (Option-cases (split_line x)) [
  | inl shut ↦ shut
  | inr (p, found) ↦ cc (split_line_extend x e p.0 p.1 found)
]

IsOpen-back : (x e : Bytes) → IsOpen (x ++ e) → IsOpen e
IsOpen-back x e h = elim (Option-cases (split_line e)) [
  | inl shut ↦ shut
  | inr (p, found) ↦
      let front : IsOpen x = IsOpen-front x e h in
      let joined = split_line-append x e front in absurd (ground (arith, found, joined))
]

-- the step over a piece that ends before the line does
Leaves-whole :
    (budget : ℕ) (raw piece x y rest : Bytes) (w : Reader) (later : Raw × Reader)
    → IsOpen x
    → length x + 1 ≤ budget
    → x ≡ piece ++ y
    → Leaves later (stopped (((raw ++ piece) ++ y) ++ b'\n' ∷ []) true) rest
    → Leaves
        (taken_line budget raw piece w (split_line (take (min (length piece) budget) piece)) later)
        (stopped ((raw ++ x) ++ b'\n' ∷ []) true)
        rest
Leaves-whole budget raw piece x y rest w later o le hx (w', hl, hp, hf) =
    let measured : length x ≡ length piece + length y = ap length hx ∙ length-append piece y in
    let room : min (length piece) budget ≡ length piece = omega (arith, measured) in
    let shut : split_line (take (min (length piece) budget) piece) ≡ none =
      ap (λ (n : ℕ). split_line (take n piece)) room
      ∙ (ap split_line (take_all piece) ∙ IsOpen-front piece y (rw hx at o)) in
    let more : (budget - min (length piece) budget == 0) ≡ false = ground (arith, measured) in
    let out : ((raw ++ piece) ++ y) ++ b'\n' ∷ [] ≡ (raw ++ x) ++ b'\n' ∷ [] =
      ap (λ (t : Bytes). t ++ b'\n' ∷ [])
        (append_assoc raw piece y ∙ ap (λ (t : Bytes). raw ++ t) (sym hx)) in
    (w', rw shut (rw more (cc)), hp, hf)

-- the step into the piece that holds the newline
Leaves-line :
    (budget : ℕ) (raw piece x z rest : Bytes) (w : Reader) (later : Raw × Reader)
    → IsOpen x
    → length x + 1 ≤ budget
    → IsPrompt w
    → piece ≡ (x ++ b'\n' ∷ []) ++ z
    → rest ≡ z ++ flat w
    → Leaves
        (taken_line budget raw piece w (split_line (take (min (length piece) budget) piece)) later)
        (stopped ((raw ++ x) ++ b'\n' ∷ []) true)
        rest
Leaves-line budget raw piece x z rest w later o le p hp hr =
    let line = x ++ b'\n' ∷ [] in
    let room = min (length piece) budget in
    let measured : length line ≡ length x + 1 = length-append x (b'\n' ∷ []) in
    let whole : length piece ≡ length line + length z = ap length hp ∙ length-append line z in
    let found : split_line (take room piece) ≡ some (line, take (room - length line) z) =
      ap split_line (
        ap (λ (t : Bytes). take room t) hp
        ∙ (take_over line z room (omega (arith, measured, whole))
            ∙ append_assoc x (b'\n' ∷ []) (take (room - length line) z)))
      ∙ split_line_newline x (take (room - length line) z) o in
    let behind : drop (length line) piece ≡ z =
      ap (λ (t : Bytes). drop (length line) t) hp ∙ drop_front line z in
    let out : raw ++ line ≡ (raw ++ x) ++ b'\n' ∷ [] = sym (append_assoc raw x (b'\n' ∷ [])) in
    (
      unread (drop (length line) piece) w,
      rw found (cc),
      unread-IsPrompt (drop (length line) piece) w p,
      flat-unread (drop (length line) piece) w ∙ (ap (λ (t : Bytes). t ++ flat w) behind ∙ sym hr),
    )

line_loop-Leaves :
    (budget : ℕ) (raw x rest : Bytes) (w : Reader)
    → IsOpen x
    → length x + 1 ≤ budget
    → IsPrompt w
    → flat w ≡ x ++ b'\n' ∷ rest
    → Leaves (line_loop budget raw w) (stopped ((raw ++ x) ++ b'\n' ∷ []) true) rest
unfolding line_loop
line_loop-Leaves budget raw [] rest [] o le p h = cc
line_loop-Leaves budget raw (a ∷ x) rest [] o le p h = cc
line_loop-Leaves budget raw x rest (late ∷ w) o le p h = elim p [ ]
line_loop-Leaves budget raw x rest (failed kind ∷ w) o le p h =
    rw p.0 (line_loop-Leaves budget raw x rest w o le p.1 h)
line_loop-Leaves budget raw x rest (bytes [] ∷ w) o le p h = elim p [ ]
line_loop-Leaves budget raw x rest (bytes (b ∷ bs) ∷ w) o le p h =
    elim (Bool-cases (leb (length (b ∷ bs)) (length x))) [
      | inl e ↦
          let (y, hx, hw) = append_cut (b ∷ bs) (flat w) x (b'\n' ∷ rest) h (ground (arith, e)) in
          let measured : length x ≡ length (b ∷ bs) + length y =
            ap length hx ∙ length-append (b ∷ bs) y in
          Leaves-whole budget raw (b ∷ bs) x y rest w
            (line_loop (budget - length (b ∷ bs)) (raw ++ b ∷ bs) w) o le hx
            (line_loop-Leaves (budget - length (b ∷ bs)) (raw ++ b ∷ bs) y rest w
              (IsOpen-back (b ∷ bs) y (rw hx at o)) (omega (arith, measured)) p hw)
      | inr e ↦
          let cut : (x ++ b'\n' ∷ []) ++ rest ≡ (b ∷ bs) ++ flat w =
            append_assoc x (b'\n' ∷ []) rest ∙ sym h in
          let (z, hp, hr) =
            append_cut (x ++ b'\n' ∷ []) rest (b ∷ bs) (flat w) cut
              (ground (arith, e, length-append x (b'\n' ∷ []))) in
          Leaves-line budget raw (b ∷ bs) x z rest w
            (line_loop (budget - length (b ∷ bs)) (raw ++ b ∷ bs) w) o le p hp hr
    ]

-- A line of text holds no newline, and the carriage return behind it changes nothing of that.
is_line_text-IsOpen : (t : Bytes) → is_line_text t ≡ true → IsOpen (t ++ b'\r' ∷ [])
unfolding is_line_text line_byte split_line
is_line_text-IsOpen [] h = refl
is_line_text-IsOpen (b ∷ bs) h = ground (arith, is_line_text-IsOpen bs)

ends_in_return-append : (t : Bytes) → ends_in_return (t ++ b'\r' ∷ []) ≡ true
unfolding ends_in_return
ends_in_return-append t = rw (ends_in_return, last-append t b'\r') refl

text_or_invalid-text : (t : Bytes) (c : Bool) → IsLineText t → text_or_invalid t c ≡ text t c
unfolding text_or_invalid
text_or_invalid-text t c h = rw h refl

without_return-append : (t : Bytes) → IsLineText t → without_return (t ++ b'\r' ∷ []) ≡ text t true
unfolding without_return
without_return-append t h = rw (ends_in_return-append t) (
    ap (λ (u : Bytes). text_or_invalid u true) (pop-append t b'\r') ∙ text_or_invalid-text t true h)

second_true : (a b : Bool) → (a && b) ≡ true → b ≡ true
second_true true b h = h
second_true false b h = cc

-- A line of text within the budget, at the front of a reader that loses no time, is handed over
-- however it is cut into pieces, and the reader is left behind its ending.
pub read_line-Leaves :
    (budget : ℕ) (t rest : Bytes) (w : Reader)
    → IsLineText t
    → length t + 2 ≤ budget
    → IsPrompt w
    → flat w ≡ with_crlf t rest
    → Leaves (read_line budget w) (ok (text t true)) rest
unfolding read_line
read_line-Leaves zero t rest w it le p h = absurd (omega arith)
read_line-Leaves (suc budget) t rest w it le p h =
    let (w', hl, hp, hf) =
      line_loop-Leaves (suc budget) [] (t ++ b'\r' ∷ []) rest w
        (is_line_text-IsOpen t (second_true (utf8_valid t) (is_line_text t) it))
        (omega (arith, length-append t (b'\r' ∷ []))) p
        (h ∙ sym (append_assoc t (b'\r' ∷ []) (b'\n' ∷ rest))) in
    let line : finish_line ((t ++ b'\r' ∷ []) ++ b'\n' ∷ []) true ≡ text t true =
      finish_line-append (t ++ b'\r' ∷ []) ∙ without_return-append t it in
    (w', rw hl (rw line refl), hp, hf)
