-- ===== src/Std/Utf8.antt =====
-- `core::str::from_utf8`: the well-formed byte sequences of the Unicode standard, table 3-7.
pub mod Lossy
use mathlib.Core.Bool.{false≢true}
use ps_payload_rust.Base.{
  ℕ, ◌<◌, ◌≡◌, refl, Bool, true, false, ◌&&◌, [], ◌∷◌, ◌++◌, Option, none, some, Bytes, leb, ltb,
  ◌==◌, if◌then◌else◌, arith, All, Option-cases, inl, inr,
}

-- What must come next: the start of a character, or some continuation bytes, the first of which is
-- restricted behind the four bytes named.
pub data Expect : Type 0 where
  start tail1 tail2 tail3 after_e0 after_ed after_f0 after_f4 : Expect

abbrev in_range : ℕ → ℕ → ℕ → Bool
in_range lo hi b = leb lo b && leb b hi

first : ℕ → Option Expect
first b =
    if ltb b 0x80
    then some start
    else if in_range 0xC2 0xDF b
    then some tail1
    else if b == 0xE0
    then some after_e0
    else if b == 0xED
    then some after_ed
    else if in_range 0xE1 0xEF b
    then some tail2
    else if b == 0xF0
    then some after_f0
    else if in_range 0xF1 0xF3 b
    then some tail3
    else if b == 0xF4
    then some after_f4
    else none

next : Expect → ℕ → Option Expect
unfolding first
next start b = first b
next tail1 b = if in_range 0x80 0xBF b then some start else none
next tail2 b = if in_range 0x80 0xBF b then some tail1 else none
next tail3 b = if in_range 0x80 0xBF b then some tail2 else none
next after_e0 b = if in_range 0xA0 0xBF b then some tail1 else none
next after_ed b = if in_range 0x80 0x9F b then some tail1 else none
next after_f0 b = if in_range 0x90 0xBF b then some tail2 else none
next after_f4 b = if in_range 0x80 0x8F b then some tail2 else none

abbrev is_start : Expect → Bool
is_start start = true
is_start e = false

accepts : Expect → Bytes → Bool
unfolding next
accepts e [] = is_start e
accepts e (b ∷ s) = elim (next e b) [ none ↦ false | some e' ↦ accepts e' s ]

unfoldable pub is_utf8 : Bytes → Bool
unfolding accepts
is_utf8 s = accepts start s

-- The text is its bytes.
unfoldable pub from_utf8 : Bytes → Option Bytes
unfolding is_utf8
from_utf8 s = if is_utf8 s then some s else none

accepts-append :
    (e : Expect) (s t : Bytes)
    → accepts e s ≡ true
    → accepts start t ≡ true
    → accepts e (s ++ t) ≡ true
unfolding accepts
accepts-append start [] t h k = k
accepts-append tail1 [] t h k = cc
accepts-append tail2 [] t h k = cc
accepts-append tail3 [] t h k = cc
accepts-append after_e0 [] t h k = cc
accepts-append after_ed [] t h k = cc
accepts-append after_f0 [] t h k = cc
accepts-append after_f4 [] t h k = cc
accepts-append e (b ∷ s) t h k = elim (Option-cases (next e b)) [
  | inl bad ↦ absurd (false≢true (rw (bad, accepts) at h))
  | inr (e', good) ↦ rw (good, accepts) (accepts-append e' s t (rw (good, accepts) at h) k)
]

-- Well-formed texts can be joined.
pub is_utf8-append : (s t : Bytes) → is_utf8 s ≡ true → is_utf8 t ≡ true → is_utf8 (s ++ t) ≡ true
unfolding is_utf8
is_utf8-append s t h k = accepts-append start s t h k

next-start_ascii : (b : ℕ) → b < 128 → next start b ≡ some start
unfolding next
next-start_ascii b h = ground arith

-- ASCII is well-formed.
pub is_utf8_ascii : (s : Bytes) → All (λ b. b < 128) s → is_utf8 s ≡ true
unfolding is_utf8
is_utf8_ascii [] h = refl
is_utf8_ascii (b ∷ s) (small, h) = rw (next-start_ascii b small, accepts) (is_utf8_ascii s h)

samples :
    (is_utf8 (0xE2 ∷ 0x82 ∷ 0xAC ∷ []) ≡ true)
    × (is_utf8 (0xC0 ∷ 0x80 ∷ []) ≡ false)
    × (is_utf8 (0xED ∷ 0xA0 ∷ 0x80 ∷ []) ≡ false)
    × (is_utf8 (0xF0 ∷ 0x9F ∷ 0x98 ∷ 0x80 ∷ []) ≡ true)
unfolding is_utf8 first
samples = (refl, refl, refl, refl)
