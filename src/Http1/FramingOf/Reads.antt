-- ===== src/Http1/FramingOf/Reads.antt =====
-- src/transport/http1.rs: `framing_of` against what the standard says of the two fields, however
-- they stand among the headers.
use sml_mcps.Prelude.{
  ◌≡◌, refl, sym, ◌∙◌, ap, Bool, true, false, ◌&&◌, Option, none, some, List, [], ◌∷◌, ◌++◌, arith,
  if◌then◌else◌, append-nil, Bool-cases, inl, inr,
}
use sml_mcps.Prelude.Text.{Text, text, text_eq, text_eq_iff}
use sml_mcps.Server.Logging.{lower_byte, to_ascii_lowercase}
use sml_mcps.Http1.{Framing, empty, chunked, Headers, Outcome, ok, err}
use sml_mcps.Http1.Response.{Response}
use sml_mcps.Http1.FramingOf.{
  eq_ignore_ascii_case, read_length, decide, conflicts, given, framing_loop, framing_of,
}

abbrev pub accepted : {A : Type 0} → Outcome Response A → Option A
accepted (ok a) = some a
accepted (err r) = none

-- The values of the fields of one name, in order.
abbrev pub values : Text → Headers → List Text
values name [] = []
values name ((field, value) ∷ hs) =
    let rest = values name hs in if eq_ignore_ascii_case field name then value ∷ rest else rest

abbrev pub all_same : Text → List Text → Bool
all_same v [] = true
all_same v (u ∷ us) = text_eq v u && all_same v us

-- Which framing the values of `Transfer-Encoding` and of `Content-Length` leave no doubt of.
unfoldable pub agreed : List Text → List Text → Option Framing
agreed [] [] = some empty
agreed [] (v ∷ vs) = if all_same v vs then accepted (read_length v) else none
agreed (t ∷ []) [] = if eq_ignore_ascii_case t (text "chunked") then some chunked else none
agreed (t ∷ []) (v ∷ vs) = none
agreed (t ∷ u ∷ ts) vs = none

abbrev so_far : Option Text → List Text
so_far none = []
so_far (some t) = t ∷ []

agreed_conflict :
    (ts : List Text) (v u : Text) (vs : List Text)
    → text_eq v u ≡ false
    → agreed ts (v ∷ u ∷ vs) ≡ none
unfolding agreed
agreed_conflict [] v u vs e = rw e refl
agreed_conflict (t ∷ []) v u vs e = refl
agreed_conflict (t ∷ s ∷ ts) v u vs e = refl

text_eq_refl : (t : Text) → text_eq t t ≡ true
text_eq_refl t = (text_eq_iff t t).1 refl

agreed_twice :
    (ts : List Text) (u : Text) (vs : List Text) → agreed ts (u ∷ u ∷ vs) ≡ agreed ts (u ∷ vs)
unfolding agreed
agreed_twice [] u vs = rw (text_eq_refl u) refl
agreed_twice (t ∷ []) u vs = refl
agreed_twice (t ∷ s ∷ ts) u vs = refl

agreed_repeat :
    (ts : List Text) (v u : Text) (vs : List Text)
    → text_eq v u ≡ true
    → agreed ts (v ∷ u ∷ vs) ≡ agreed ts (u ∷ vs)
agreed_repeat ts v u vs e =
    ap (λ (t : Text). agreed ts (t ∷ u ∷ vs)) ((text_eq_iff v u).0 e) ∙ agreed_twice ts u vs

names_differ :
    text_eq
      (to_ascii_lowercase (text "transfer-encoding"))
      (to_ascii_lowercase (text "content-length"))
    ≡ false
unfolding text_eq to_ascii_lowercase lower_byte text
names_differ = refl

not_both :
    (name : Text)
    → eq_ignore_ascii_case name (text "transfer-encoding") ≡ true
    → eq_ignore_ascii_case name (text "content-length") ≡ false
unfolding eq_ignore_ascii_case
not_both name h =
    rw ((text_eq_iff (to_ascii_lowercase name) (to_ascii_lowercase (text "transfer-encoding"))).0 h)
      names_differ

decide-agreed :
    (encoding len : Option Text)
    → accepted (decide encoding len) ≡ agreed (so_far encoding) (so_far len)
unfolding decide agreed
decide-agreed none none = refl
decide-agreed none (some v) = refl
decide-agreed (some t) none = ground arith
decide-agreed (some t) (some v) = refl

encoding_step :
    (encoding : Option Text) (why : Response) (later : Outcome Response Framing) (value : Text)
    (ts vs : List Text)
    → accepted later ≡ agreed (value ∷ ts) vs
    → accepted (if given encoding then err why else later)
      ≡ agreed (so_far encoding ++ value ∷ ts) vs
unfolding agreed
encoding_step none why later value ts vs h = h
encoding_step (some t) why later value ts vs h = refl

length_step :
    (len : Option Text) (why : Response) (later : Outcome Response Framing) (value : Text)
    (ts vs : List Text)
    → accepted later ≡ agreed ts (value ∷ vs)
    → accepted (if conflicts len value then err why else later)
      ≡ agreed ts (so_far len ++ value ∷ vs)
length_step none why later value ts vs h = h
length_step (some v) why later value ts vs h = elim (Bool-cases (text_eq v value)) [
  | inl e ↦ rw e (h ∙ sym (agreed_repeat ts v value vs e))
  | inr e ↦ rw e (sym (agreed_conflict ts v value vs e))
]

framing_loop-agreed :
    (encoding len : Option Text) (hs : Headers)
    → accepted (framing_loop encoding len hs)
      ≡ agreed
          (so_far encoding ++ values (text "transfer-encoding") hs)
          (so_far len ++ values (text "content-length") hs)
unfolding framing_loop
framing_loop-agreed encoding len [] =
    decide-agreed encoding len
    ∙ sym (rw (append-nil (so_far encoding)) (rw (append-nil (so_far len)) refl))
framing_loop-agreed encoding len ((name, value) ∷ hs) =
    elim (Bool-cases (eq_ignore_ascii_case name (text "transfer-encoding"))) [
      | inl e ↦ rw e (
          rw (not_both name e) (
            encoding_step encoding _ (framing_loop (some value) len hs) value _ _
              (framing_loop-agreed (some value) len hs)))
      | inr e ↦ rw e (elim (Bool-cases (eq_ignore_ascii_case name (text "content-length"))) [
        | inl e' ↦ rw e' (
            length_step len _ (framing_loop encoding (some value) hs) value _ _
              (framing_loop-agreed encoding (some value) hs))
        | inr e' ↦ rw e' (framing_loop-agreed encoding len hs)
      ])
    ]

-- Whatever the headers: `framing_of` accepts exactly what the values of the two fields leave no
-- doubt of, wherever they stand and whatever else is there: no body if neither is given, the
-- value of `Content-Length` if all its values are the same text, `chunked` if this is the one
-- value of `Transfer-Encoding` and there is no `Content-Length`. It refuses all else: two
-- encodings, an encoding with a length, lengths that differ.
pub framing_of-agreed :
    (hs : Headers)
    → accepted (framing_of hs)
      ≡ agreed (values (text "transfer-encoding") hs) (values (text "content-length") hs)
unfolding framing_of
framing_of-agreed hs = framing_loop-agreed none none hs
