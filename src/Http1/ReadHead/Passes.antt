-- ===== src/Http1/ReadHead/Passes.antt =====
-- src/transport/http1.rs: what one pass of the loop of `read_head` decides, and what is relied on
-- of the parser.
use sml_mcps.Prelude.{
  ℕ, zero, suc, ◌-◌, ◌≤◌, ◌<◌, ◌≡◌, refl, ap, Bool, true, false, ◌&&◌, some, [], ◌∷◌, ◌++◌, arith,
  leb, ltb, length, take, drop, Bool-cases, inl, inr, ◌⊎◌,
}
use sml_mcps.Line.{Bytes}
use sml_mcps.Http1.{Head, Limits, ok, err, max_leading_blank_lines}
use sml_mcps.Http1.Wire.{bytes, Reader, unread, last}
use sml_mcps.Http1.ReadHead.{
  Parsed, Status, complete, partial, refused, head_from, given_head, HeadRead, ended_a_line,
  checked, answered, head_pass, is_late, too_many_blank_lines, blank_lines_before_a_request,
}

-- What is relied on of the parser: a head lies within the bytes it was given, ends with a
-- newline, and is found from its own bytes alone.
pub record IsParser (parse : Bytes → Status) : Type 0 where
  pub within : (raw : Bytes) (n : ℕ) (p : Parsed) → parse raw ≡ complete n p → n ≤ length raw
  pub newline :
      (raw : Bytes) (n : ℕ) (p : Parsed)
      → parse raw ≡ complete n p
      → (x : Bytes) × (take n raw ≡ x ++ b'\n' ∷ [])
  pub settled :
      (a b : Bytes) (n : ℕ) (p : Parsed)
      → parse (a ++ b) ≡ complete n p
      → n ≤ length a
      → parse a ≡ complete n p

pub last-append_cons : (a : Bytes) (b : ℕ) (bs : Bytes) → last (a ++ b ∷ bs) ≡ last (b ∷ bs)
unfolding last
last-append_cons [] b bs = refl
last-append_cons (c ∷ []) b bs = refl
last-append_cons (c ∷ d ∷ a) b bs = last-append_cons (d ∷ a) b bs

pub ended_a_line-last : (bs : Bytes) → last bs ≡ some b'\n' → ended_a_line bs ≡ true
unfolding last ended_a_line
ended_a_line-last [] h = cc
ended_a_line-last (b ∷ []) h = ground arith
ended_a_line-last (b ∷ c ∷ bs) h = ground (arith, ended_a_line-last (c ∷ bs))

pub ended_a_line-take :
    (k : ℕ) (bs : Bytes) → ended_a_line (take k bs) ≡ true → ended_a_line bs ≡ true
unfolding ended_a_line
ended_a_line-take zero bs h = cc
ended_a_line-take (suc k) [] h = cc
ended_a_line-take (suc k) (b ∷ bs) h = ground (arith, ended_a_line-take k bs)

pub take-take : (k m : ℕ) (bs : Bytes) → k ≤ m → take k (take m bs) ≡ take k bs
take-take zero m bs le = refl
take-take (suc k) zero bs le = absurd (omega arith)
take-take (suc k) (suc m) [] le = refl
take-take (suc k) (suc m) (b ∷ bs) le = ap (λ (t : Bytes). b ∷ t) (take-take k m bs (omega arith))

pub checked-eq :
    (limits : Limits) (raw : Bytes) (started : Bool) (w w' : Reader) (rest : HeadRead) (h : Head)
    → checked limits raw started w rest ≡ (ok (some h), w')
    → (rest ≡ (ok (some h), w')) × (length raw < limits.max_head_bytes)
checked-eq limits raw started w w' rest h e =
    elim (Bool-cases (leb limits.max_head_bytes (length raw))) [
      | inl full ↦ absurd (ground (arith, full))
      | inr room ↦ elim (Bool-cases (started && is_late w)) [
        | inl over ↦ absurd (ground (arith, room, over))
        | inr going ↦ (ground (arith, room, going), ground (arith, room))
      ]
    ]

module _ (parse : Bytes → Status) where
  -- However it goes on, no head ends within `raw`.
  abbrev pub Undecided : Bytes → Type 0
  Undecided raw =
      (ext : Bytes) (n : ℕ) (p : Parsed) → parse (raw ++ ext) ≡ complete n p → length raw < n

  abbrev pub Asked : ℕ → Bytes → Bytes → Bytes → Reader → HeadRead → Head → Reader → Type 0
  Asked consumed raw taken piece w later h w' =
      ((n : ℕ) × (p : Parsed) × (parse raw ≡ complete n p)
        × (given_head (head_from p) ≡ ok (some h))
        × (unread (drop (n - consumed) piece) w ≡ w'))
      ⊎ ((later ≡ (ok (some h), w')) × ((parse raw ≡ partial) ⊎ (ended_a_line taken ≡ false)))

  answered-Asked :
      (consumed : ℕ) (raw taken piece : Bytes) (w w' : Reader) (later : HeadRead) (h : Head)
      (status : Status)
      → parse raw ≡ status
      → answered consumed piece w status later ≡ (ok (some h), w')
      → Asked consumed raw taken piece w later h w'
  answered-Asked consumed raw taken piece w w' later h (complete n p) s e = inl (n, p, s, cc, cc)
  answered-Asked consumed raw taken piece w w' later h partial s e = inr (e, inl s)
  answered-Asked consumed raw taken piece w w' later h (refused x) s e = cc

  pub head_pass-Asked :
      (consumed : ℕ) (raw taken piece : Bytes) (w w' : Reader) (later : HeadRead) (h : Head)
      → head_pass parse consumed raw taken piece w later ≡ (ok (some h), w')
      → Asked consumed raw taken piece w later h w'
  head_pass-Asked consumed raw taken piece w w' later h e =
      elim (Bool-cases
        (ltb max_leading_blank_lines (blank_lines_before_a_request raw max_leading_blank_lines))) [
          | inl many ↦
              let no : ◌≡◌ {A = HeadRead} (err too_many_blank_lines, bytes piece ∷ w)
                  (ok (some h), w') =
                rw many at e in
              cc
          | inr few ↦ elim (Bool-cases (ended_a_line taken)) [
            | inl asked ↦
                answered-Asked consumed raw taken piece w w' later h (parse raw) refl
                  (rw asked at (rw few at e))
            | inr quiet ↦ inr (rw quiet at (rw few at e), inr quiet)
          ]
        ]
