-- ===== src/Http1/Wire/Stream.antt =====
-- src/transport/http1.rs: the bytes that a reader has before it, however they are cut into
-- pieces, and readers that lose no time.
use sml_mcps.Prelude.{
  ℕ, zero, suc, ◌-◌, ◌≤◌, ◌≡◌, refl, ◌∙◌, ap, true, ◌&&◌, some, [], ◌∷◌, ◌++◌, arith, length, take,
  drop, append_assoc,
}
use sml_mcps.Line.{Bytes, is_interrupt}
use sml_mcps.Http1.Wire.{
  late, failed, bytes, Reader, unread, pop, last, is_line_text, finish_line, without_return,
}
use sml_mcps.Line.Utf8.{utf8_valid}

abbrev pub flat : Reader → Bytes
flat [] = []
flat (late ∷ w) = flat w
flat (failed kind ∷ w) = flat w
flat (bytes bs ∷ w) = bs ++ flat w

-- Neither the deadline nor a hangup nor an error stands before the last byte.
abbrev pub IsPrompt : Reader → Type 0
IsPrompt [] = Unit
IsPrompt (late ∷ w) = ⊥
IsPrompt (failed kind ∷ w) = (is_interrupt kind ≡ true) × IsPrompt w
IsPrompt (bytes [] ∷ w) = ⊥
IsPrompt (bytes (b ∷ bs) ∷ w) = IsPrompt w

pub flat-unread : (bs : Bytes) (w : Reader) → flat (unread bs w) ≡ bs ++ flat w
flat-unread [] w = refl
flat-unread (b ∷ bs) w = refl

pub unread-IsPrompt : (bs : Bytes) (w : Reader) → IsPrompt w → IsPrompt (unread bs w)
unread-IsPrompt [] w h = h
unread-IsPrompt (b ∷ bs) w h = h

-- Two ways to cut one list: the longer front starts with the shorter one.
pub append_cut :
    (p x d r : Bytes)
    → p ++ x ≡ d ++ r
    → length p ≤ length d
    → (e : Bytes) × (d ≡ p ++ e) × (x ≡ e ++ r)
append_cut [] x d r h le = (d, refl, h)
append_cut (a ∷ p) x [] r h le = absurd (omega arith)
append_cut (a ∷ p) x (b ∷ d) r h le =
    let tails : p ++ x ≡ d ++ r = cc in
    let (e, hd, hx) = append_cut p x d r tails (omega arith) in (e, cc, hx)

pub take_front : (d e : Bytes) → take (length d) (d ++ e) ≡ d
take_front [] e = refl
take_front (b ∷ d) e = ap (λ (t : Bytes). b ∷ t) (take_front d e)

pub drop_front : (d e : Bytes) → drop (length d) (d ++ e) ≡ e
drop_front [] e = refl
drop_front (b ∷ d) e = drop_front d e

pub take_all : (d : Bytes) → take (length d) d ≡ d
take_all [] = refl
take_all (b ∷ d) = ap (λ (t : Bytes). b ∷ t) (take_all d)

pub take_over : (d e : Bytes) (n : ℕ) → length d ≤ n → take n (d ++ e) ≡ d ++ take (n - length d) e
take_over [] e n le = ap (λ (k : ℕ). take k e) (omega arith)
take_over (b ∷ d) e zero le = absurd (omega arith)
take_over (b ∷ d) e (suc n) le =
    ap (λ (t : Bytes). b ∷ t)
      (take_over d e n (omega arith) ∙ ap (λ (k : ℕ). d ++ take k e) (omega arith))

-- What a line of framing may hold: text without control characters.
abbrev pub IsLineText : Bytes → Type 0
IsLineText t = (utf8_valid t && is_line_text t) ≡ true

-- a line as it stands on the wire
abbrev pub with_crlf : Bytes → Bytes → Bytes
with_crlf t rest = t ++ b'\r' ∷ b'\n' ∷ rest

pub append_crlf : (t rest more : Bytes) → with_crlf t rest ++ more ≡ with_crlf t (rest ++ more)
append_crlf t rest more = append_assoc t (b'\r' ∷ b'\n' ∷ rest) more

pub pop-append : (x : Bytes) (c : ℕ) → pop (x ++ c ∷ []) ≡ x
unfolding pop
pop-append [] c = refl
pop-append (a ∷ []) c = refl
pop-append (a ∷ b ∷ x) c = ap (λ (t : Bytes). a ∷ t) (pop-append (b ∷ x) c)

pub last-append : (x : Bytes) (c : ℕ) → last (x ++ c ∷ []) ≡ some c
unfolding last
last-append [] c = refl
last-append (a ∷ []) c = refl
last-append (a ∷ b ∷ x) c = last-append (b ∷ x) c

pub append-pop : (x : Bytes) (c : ℕ) → last x ≡ some c → x ≡ pop x ++ c ∷ []
unfolding pop last
append-pop [] c h = cc
append-pop (a ∷ []) c h = cc
append-pop (a ∷ b ∷ x) c h = ap (λ (t : Bytes). a ∷ t) (append-pop (b ∷ x) c h)

pub finish_line-append : (x : Bytes) → finish_line (x ++ b'\n' ∷ []) true ≡ without_return x
unfolding finish_line
finish_line-append [] = refl
finish_line-append (b ∷ bs) = ap without_return (pop-append (b ∷ bs) b'\n')
