-- ===== src/Line/Utf8.antt =====
-- `String::from_utf8` of the standard library: which byte sequences are UTF-8.
use sml_mcps.Prelude.{
  ℕ, zero, suc, Bool, true, false, ◌&&◌, Option, none, some, List, [], ◌∷◌, leb, ltb, ◌==◌,
  if◌then◌else◌, ◌<◌, ◌≡◌, refl, arith, All,
}

-- From the first byte of a character: how many bytes follow, and the range of the next one.
unfoldable pub lead : ℕ → Option (ℕ × ℕ × ℕ)
lead c =
    if ltb c 0x80
    then some (0, 0x80, 0xbf)
    else if leb 0xc2 c && leb c 0xdf
    then some (1, 0x80, 0xbf)
    else if c == 0xe0
    then some (2, 0xa0, 0xbf)
    else if c == 0xed
    then some (2, 0x80, 0x9f)
    else if leb 0xe1 c && leb c 0xef
    then some (2, 0x80, 0xbf)
    else if c == 0xf0
    then some (3, 0x90, 0xbf)
    else if leb 0xf1 c && leb c 0xf3
    then some (3, 0x80, 0xbf)
    else if c == 0xf4
    then some (3, 0x80, 0x8f)
    else none

utf8_from : ℕ → ℕ → ℕ → List ℕ → Bool
utf8_from zero lo hi [] = true
utf8_from (suc k) lo hi [] = false
utf8_from (suc k) lo hi (c ∷ cs) =
    let rest = utf8_from k 0x80 0xbf cs in if leb lo c && leb c hi then rest else false
utf8_from zero lo hi (c ∷ cs) = elim (lead c) [
  | none ↦ false
  | some (k, lo', hi') ↦ utf8_from k lo' hi' cs
]

unfoldable pub utf8_valid : List ℕ → Bool
unfolding utf8_from lead
utf8_valid = utf8_from 0 0x80 0xbf

lead_ascii : (c : ℕ) → c < 0x80 → lead c ≡ some (0, 0x80, 0xbf)
unfolding lead
lead_ascii c h = ground arith

utf8_from_ascii : (t : List ℕ) → All (λ c. c < 0x80) t → utf8_from 0 0x80 0xbf t ≡ true
unfolding utf8_from
utf8_from_ascii [] h = refl
utf8_from_ascii (c ∷ cs) h = rw (utf8_from, lead_ascii c h.0) (utf8_from_ascii cs h.1)

-- A text of ASCII characters only.
pub utf8_valid-ascii : (t : List ℕ) → All (λ c. c < 0x80) t → utf8_valid t ≡ true
unfolding utf8_valid
utf8_valid-ascii t h = utf8_from_ascii t h
