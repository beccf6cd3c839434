-- ===== src/Http1/ReadHead/Sound.antt =====
-- src/transport/http1.rs: a head that `read_head` accepts is what the parser takes for one, at
-- the front of what stood before the reader.
use sml_mcps.Prelude.{
  ℕ, zero, suc, ◌+◌, ◌-◌, ◌≤◌, ◌<◌, min, ◌≡◌, ◌≢◌, refl, sym, ◌∙◌, ap, subst, Bool, true, false,
  none, some, [], ◌∷◌, ◌++◌, arith, leb, ltb, if◌then◌else◌, length, take, drop, append_assoc,
  length-append, length-take, take-append-drop, Bool-cases, inl, inr, ◌⊎◌,
}
use sml_mcps.Line.{Bytes, is_interrupt}
use sml_mcps.Http1.{Head, Limits, Outcome, ok, err}
use sml_mcps.Http1.Wire.{late, failed, bytes, Reader, unread, last}
use sml_mcps.Http1.Wire.Stream.{flat, flat-unread, take_all, take_over, take_front, last-append}
use sml_mcps.Http1.Response.{Response, too_long}
use sml_mcps.Http1.ReadHead.{
  Parsed, Status, complete, partial, head_from, given_head, HeadRead, ended_a_line, head_pass,
  head_loop, read_head, is_late, broken_off,
}
use sml_mcps.Http1.ReadHead.Passes.{
  IsParser, last-append_cons, ended_a_line-last, ended_a_line-take, take-take, checked-eq,
  Undecided, head_pass-Asked,
}

given_head-eq : (r : Outcome Response Head) (h : Head) → given_head r ≡ ok (some h) → r ≡ ok h
given_head-eq (ok g) h e = cc
given_head-eq (err g) h e = cc

newline_behind :
    (raw f x : Bytes) → raw ++ f ≡ x ++ b'\n' ∷ [] → 0 < length f → ended_a_line f ≡ true
newline_behind raw [] x e pos = absurd (omega arith)
newline_behind raw (c ∷ cs) x e pos =
    ended_a_line-last (c ∷ cs) (sym (last-append_cons raw c cs) ∙ (ap last e ∙ last-append x b'\n'))

take_within : (k : ℕ) (a b : Bytes) → k ≤ length a → take k (a ++ b) ≡ take k a
take_within k a b le = sym (take-take k (length a) (a ++ b) le) ∙ ap (take k) (take_front a b)

broken_off_no_head : (started expired : Bool) (h : Head) → broken_off started expired ≢ ok (some h)
broken_off_no_head true true h = λ e. cc
broken_off_no_head true false h = λ e. cc
broken_off_no_head false expired h = λ e. cc

module _ (parse : Bytes → Status) (law : IsParser parse) (limits : Limits) where
  -- The head that was taken, `raw` of it before this reader.
  abbrev pub HeadTaken : Bytes → Reader → Head → Reader → Type 0
  HeadTaken raw w h w' =
      (hd : Bytes) × (p : Parsed) × (parse hd ≡ complete (length hd) p)
      × (head_from p ≡ ok h)
      × (raw ++ flat w ≡ hd ++ flat w')
      × (length raw < length hd)
      × (length hd ≤ limits.max_head_bytes)

  HeadTaken-here :
      (raw piece : Bytes) (m n : ℕ) (p : Parsed) (w : Reader) (h : Head)
      → Undecided parse raw
      → length raw + m ≤ limits.max_head_bytes
      → parse (raw ++ take m piece) ≡ complete n p
      → given_head (head_from p) ≡ ok (some h)
      → HeadTaken raw (bytes piece ∷ w) h (unread (drop (n - length raw) piece) w)
  HeadTaken-here raw piece m n p w h und le e g =
      let k = n - length raw in
      let front = take k (take m piece) in
      let hd = raw ++ front in
      let behind = drop k (take m piece) in
      let past : length raw < n = und (take m piece) n p e in
      let whole : raw ++ take m piece ≡ hd ++ behind =
        ap (λ (t : Bytes). raw ++ t) (sym (take-append-drop k (take m piece)))
        ∙ sym (append_assoc raw front behind) in
      let bounded : n ≤ length raw + length (take m piece) =
        omega (arith, law.within (raw ++ take m piece) n p e, length-append raw (take m piece)) in
      let size : length hd ≡ n =
        omega (arith, length-append raw front, length-take k (take m piece)) in
      let cut : parse (hd ++ behind) ≡ complete n p = ap parse (sym whole) ∙ e in
      let found : parse hd ≡ complete n p = law.settled hd behind n p cut (omega (arith, size)) in
      let same : front ≡ take k piece = take-take k m piece (omega (arith, length-take m piece)) in
      let split : piece ++ flat w ≡ front ++ (drop k piece ++ flat w) =
        ap (λ (t : Bytes). t ++ flat w) (sym (take-append-drop k piece))
        ∙ (append_assoc (take k piece) (drop k piece) (flat w)
            ∙ ap (λ (t : Bytes). t ++ (drop k piece ++ flat w)) (sym same)) in
      (
        hd,
        p,
        found ∙ ap (λ (j : ℕ). complete j p) (sym size),
        given_head-eq (head_from p) h g,
        ap (λ (t : Bytes). raw ++ t) split
            ∙ (sym (append_assoc raw front (drop k piece ++ flat w))
                ∙ ap (λ (t : Bytes). hd ++ t) (sym (flat-unread (drop k piece) w))),
        omega (arith, size),
        omega (arith, size, length-take m piece),
      )

  Undecided-asked : (raw : Bytes) → parse raw ≡ partial → Undecided parse raw
  Undecided-asked raw e ext n p c = elim (Bool-cases (ltb (length raw) n)) [
    | inl later ↦ ground (arith, later)
    | inr now ↦ let decided = law.settled raw ext n p c (ground (arith, now)) in absurd (cc)
  ]

  Undecided-quiet :
      (raw piece : Bytes)
      → Undecided parse raw
      → ended_a_line piece ≡ false
      → Undecided parse (raw ++ piece)
  Undecided-quiet raw piece und quiet ext n p c =
      elim (Bool-cases (ltb (length (raw ++ piece)) n)) [
        | inl later ↦ ground (arith, later)
        | inr now ↦
            let whole : (raw ++ piece) ++ ext ≡ raw ++ (piece ++ ext) =
              append_assoc raw piece ext in
            let past : length raw < n = und (piece ++ ext) n p (ap parse (sym whole) ∙ c) in
            let size = length-append raw piece in
            let k = n - length raw in
            let inside : k ≤ length piece = ground (arith, now, size) in
            let (x, ends) = law.newline ((raw ++ piece) ++ ext) n p c in
            let line : raw ++ take k piece ≡ x ++ b'\n' ∷ [] =
              ap (λ (t : Bytes). raw ++ t) (sym (take_within k piece ext inside))
              ∙ (sym (take_over raw (piece ++ ext) n (omega arith))
                  ∙ (ap (take n) (sym whole) ∙ ends)) in
            let ended : ended_a_line piece ≡ true =
              ended_a_line-take k piece
                (newline_behind raw (take k piece) x line (omega (arith, length-take k piece))) in
            absurd (cc)
      ]

  HeadTaken-later :
      (raw piece : Bytes) (w w' : Reader) (h : Head)
      → HeadTaken (raw ++ piece) w h w'
      → HeadTaken raw (bytes piece ∷ w) h w'
  HeadTaken-later raw piece w w' h (hd, p, found, judged, cut, past, small) = (
    hd,
    p,
    found,
    judged,
    sym (append_assoc raw piece (flat w)) ∙ cut,
    omega (arith, length-append raw piece),
    small,
  )

  Undecided-nil : Undecided parse []
  Undecided-nil ext zero p c =
      let (x, ends) = law.newline ext zero p c in
      absurd (omega (arith, ap length ends, length-append x (b'\n' ∷ [])))
  Undecided-nil ext (suc n) p c = omega arith

  Undecided-next :
      (raw piece taken : Bytes)
      → taken ≡ piece
      → Undecided parse raw
      → (parse (raw ++ taken) ≡ partial) ⊎ (ended_a_line taken ≡ false)
      → Undecided parse (raw ++ piece)
  Undecided-next raw piece taken e und (inl more) =
      Undecided-asked (raw ++ piece) (ap (λ (t : Bytes). parse (raw ++ t)) (sym e) ∙ more)
  Undecided-next raw piece taken e und (inr quiet) =
      Undecided-quiet raw piece und (ap ended_a_line (sym e) ∙ quiet)

  head_loop-HeadTaken :
      (raw : Bytes) (consumed : ℕ) (started : Bool) (w w' : Reader) (h : Head)
      → consumed ≡ length raw
      → Undecided parse raw
      → head_loop parse limits raw consumed started w ≡ (ok (some h), w')
      → HeadTaken raw w h w'
  unfolding head_loop
  head_loop-HeadTaken raw consumed started [] w' h c und e =
      let (rest, _) = checked-eq limits raw started [] w' (ok none, []) h e in cc
  head_loop-HeadTaken raw consumed started (late ∷ w) w' h c und e =
      let (rest, _) =
        checked-eq limits raw started (late ∷ w) w' (head_loop parse limits raw consumed started w)
          h e in
      head_loop-HeadTaken raw consumed started w w' h c und rest
  head_loop-HeadTaken raw consumed started (failed kind ∷ w) w' h c und e =
      let (rest, _) =
        checked-eq limits raw started (failed kind ∷ w) w'
          (if is_interrupt kind
            then head_loop parse limits raw consumed started w
            else (broken_off started (is_late w), w))
          h e in
      elim (Bool-cases (is_interrupt kind)) [
        | inl again ↦ head_loop-HeadTaken raw consumed started w w' h c und (rw again at rest)
        | inr over ↦
            let stopped : ◌≡◌ {A = HeadRead} (broken_off started (is_late w), w) (ok (some h), w') =
              rw over at rest in
            absurd (broken_off_no_head started (is_late w) h (cc))
      ]
  head_loop-HeadTaken raw consumed started (bytes [] ∷ w) w' h c und e =
      let (rest, _) = checked-eq limits raw started (bytes [] ∷ w) w' (ok none, bytes [] ∷ w) h e in
      cc
  head_loop-HeadTaken raw consumed started (bytes (b ∷ bs) ∷ w) w' h c und e =
      let piece = b ∷ bs in
      let room = limits.max_head_bytes - length raw in
      let m = min (length piece) room in
      let later = head_loop parse limits (raw ++ piece) (consumed + length piece) true w in
      let onward : HeadRead =
        if leb (length piece) room then later else (err too_long, unread (drop room piece) w) in
      let (rest, under) =
        checked-eq limits raw started (bytes piece ∷ w) w'
          (head_pass parse consumed (raw ++ take m piece) (take m piece) piece w onward) h e in
      elim (head_pass-Asked parse consumed (raw ++ take m piece) (take m piece) piece w w' onward h
        rest) [
          | inl (n, p, s, g, u) ↦
              let place : unread (drop (n - length raw) piece) w ≡ w' =
                ap (λ (j : ℕ). unread (drop (n - j) piece) w) (sym c) ∙ u in
              subst (HeadTaken raw (bytes piece ∷ w) h) place
                (HeadTaken-here raw piece m n p w h und (omega arith) s g)
          | inr (l, why) ↦ elim (Bool-cases (leb (length piece) room)) [
            | inl fits ↦
                let all : take m piece ≡ piece =
                  ap (λ (j : ℕ). take j piece) {y = length piece} (ground (arith, fits))
                  ∙ take_all piece in
                let more : later ≡ (ok (some h), w') = rw fits at l in
                let und' : Undecided parse (raw ++ piece) =
                  Undecided-next raw piece (take m piece) all und why in
                HeadTaken-later raw piece w w' h (
                  head_loop-HeadTaken (raw ++ piece) (consumed + length piece) true w w' h
                    (omega (arith, length-append raw piece)) und' more)
            | inr over ↦
                let refusal : ◌≡◌ {A = HeadRead} (err too_long, unread (drop room piece) w)
                    (ok (some h), w') =
                  rw over at l in
                cc
          ]
        ]

  -- With a parser that is as relied on, whatever the peer and the clock do: a head that
  -- `read_head` accepts was made from what the parser takes for a whole request head, which is
  -- not empty and no longer than the ceiling, and stood at the front of what was before the
  -- reader; the reader is left at the byte behind it.
  pub read_head-HeadTaken :
      (w w' : Reader) (h : Head)
      → read_head parse limits w ≡ (ok (some h), w')
      → HeadTaken [] w h w'
  unfolding read_head
  read_head-HeadTaken w w' h e = head_loop-HeadTaken [] 0 false w w' h refl Undecided-nil e
