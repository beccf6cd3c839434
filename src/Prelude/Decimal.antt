-- ===== src/Prelude/Decimal.antt =====
-- Decimal text of unsigned integers: `format!("{}", n)` and `str::parse` of the standard library.
use Prim.Native.Nat.{ℕ, zero, suc, ◌+◌, ◌-◌, ◌*◌, ◌/◌, ◌%◌, ◌<◌, ◌≤◌}
use mathlib.Core.Path.{◌≡◌, refl, ◌∙◌}
use mathlib.Core.Bool.{◌&&◌}
use mathlib.Core.Logic.{◌≢◌, inl, inr}
use mathlib.Core.Option.{Option, none, some}
use mathlib.Core.List.{[], ◌∷◌}
use native.Mathlib.Omega.{arith}
use sml_mcps.Prelude.Tests.{ltb, leb, ◌==◌, if◌then◌else◌, Bool-cases}
use sml_mcps.Prelude.Lists.{All, All-mono}
use sml_mcps.Prelude.Text.{Text}

-- 2 ^ 64, one more than `u64::MAX` and, on the 64-bit targets, `usize::MAX`
abbrev pub u64_mod : ℕ
u64_mod = 18446744073709551616

-- The fuel is one more than the number: each round divides it by ten.
show_digits : ℕ → ℕ → Text → Text
show_digits zero n acc = acc
show_digits (suc f) n acc =
    let rest = show_digits f (n / 10) ((48 + n % 10) ∷ acc) in
    if ltb n 10 then (48 + n % 10) ∷ acc else rest

unfoldable pub show : ℕ → Text
unfolding show_digits
show n = show_digits (suc n) n []

-- `checked_mul` and `checked_add` digit by digit; `lim` is the type's modulus.
parse_digits : ℕ → ℕ → Text → Option ℕ
parse_digits lim acc [] = some acc
parse_digits lim acc (c ∷ cs) =
    let next = acc * 10 + (c - 48) in
    let rest = parse_digits lim next cs in
    if leb 48 c && leb c 57 then (if ltb next lim then rest else none) else none

unsigned : ℕ → Text → Option ℕ
unsigned lim [] = none
unsigned lim (c ∷ cs) = parse_digits lim 0 (c ∷ cs)

-- `text.parse::<u64>()` at `lim = 2 ^ 64`: one leading `+` is accepted, an empty text is not.
unfoldable pub parse_uint : ℕ → Text → Option ℕ
unfolding unsigned parse_digits
parse_uint lim [] = none
parse_uint lim (c ∷ cs) = if c == b'+' then unsigned lim cs else unsigned lim (c ∷ cs)

parse_digits-show_digits :
    (lim f n : ℕ) (tail : Text)
    → n < f
    → n < lim
    → parse_digits lim 0 (show_digits f n tail) ≡ parse_digits lim n tail
unfolding parse_digits show_digits
parse_digits-show_digits lim zero n tail h k = elim h [ ]
parse_digits-show_digits lim (suc f) n tail h k =
    ground (arith, parse_digits-show_digits lim f (n / 10) ((48 + n % 10) ∷ tail))

abbrev StartsWithDigit : Text → Type 0
StartsWithDigit [] = ⊥
StartsWithDigit (c ∷ cs) = 48 ≤ c

show_digits-StartsWithDigit :
    (f n : ℕ) (tail : Text) → n < f → StartsWithDigit (show_digits f n tail)
unfolding show_digits
show_digits-StartsWithDigit zero n tail h = elim h [ ]
show_digits-StartsWithDigit (suc f) n tail h =
    ground (arith, show_digits-StartsWithDigit f (n / 10) ((48 + n % 10) ∷ tail))

parse_uint_digits :
    (lim : ℕ) (t : Text) → StartsWithDigit t → parse_uint lim t ≡ parse_digits lim 0 t
unfolding parse_uint
parse_uint_digits lim [] h = absurd h
parse_uint_digits lim (c ∷ cs) h = ground arith

unsigned_digits :
    (lim : ℕ) (t : Text) → StartsWithDigit t → parse_uint lim (b'+' ∷ t) ≡ parse_digits lim 0 t
unfolding parse_uint
unsigned_digits lim [] h = absurd h
unsigned_digits lim (c ∷ cs) h = ground arith

pub parse_uint-show : (lim n : ℕ) → n < lim → parse_uint lim (show n) ≡ some n
unfolding show
parse_uint-show lim n h =
    parse_uint_digits lim _ (show_digits-StartsWithDigit (suc n) n [] (omega arith))
    ∙ parse_digits-show_digits lim (suc n) n [] (omega arith) h
    ∙ unfold parse_digits in refl

pub show-injective : (a b : ℕ) → show a ≡ show b → a ≡ b
show-injective a b h =
    ground (arith, parse_uint-show (suc (a + b)) a, parse_uint-show (suc (a + b)) b)

-- A sign changes nothing.
pub parse_uint_plus : (lim n : ℕ) → n < lim → parse_uint lim (b'+' ∷ show n) ≡ some n
unfolding show
parse_uint_plus lim n h =
    unsigned_digits lim _ (show_digits-StartsWithDigit (suc n) n [] (omega arith))
    ∙ parse_digits-show_digits lim (suc n) n [] (omega arith) h
    ∙ unfold parse_digits in refl

not-StartsWithDigit_plus : (t : Text) → ¬ StartsWithDigit (b'+' ∷ t)
not-StartsWithDigit_plus t h = omega arith

show-StartsWithDigit : (m : ℕ) → StartsWithDigit (show m)
unfolding show
show-StartsWithDigit m = show_digits-StartsWithDigit (suc m) m [] (omega arith)

pub show-ne-plus : (n m : ℕ) → b'+' ∷ show n ≢ show m
show-ne-plus n m e = not-StartsWithDigit_plus (show n) (rw (← e) at (show-StartsWithDigit m))

abbrev pub IsDigit : ℕ → Type 0
IsDigit c = (48 ≤ c) × (c ≤ 57)

show_digits-IsDigit :
    (f n : ℕ) (tail : Text) → All IsDigit tail → All IsDigit (show_digits f n tail)
unfolding show_digits
show_digits-IsDigit zero n tail h = h
show_digits-IsDigit (suc f) n tail h = elim (Bool-cases (ltb n 10)) [
  | inl last ↦ rw last ((omega arith, omega arith), h)
  | inr more ↦
      rw more
        (show_digits-IsDigit f (n / 10) ((48 + n % 10) ∷ tail) ((omega arith, omega arith), h))
]

pub show-IsDigit : (n : ℕ) → All IsDigit (show n)
unfolding show
show-IsDigit n = show_digits-IsDigit (suc n) n [] tt

pub show-IsAscii : (n : ℕ) → All (λ c. c < 0x80) (show n)
show-IsAscii n = All-mono (λ c d. omega arith) (show n) (show-IsDigit n)
