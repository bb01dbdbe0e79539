-- ===== src/Std/Trim.antt =====
-- `str::trim`: White_Space at both ends goes. The space characters beyond ASCII have two or three
-- bytes in UTF-8.
use ps_payload_rust.Base.{
  ℕ, zero, suc, ◌≡◌, ◌≤◌, refl, sym, subst, arith, All, All-append, Bool, ◌&&◌, ◌||◌, [], ◌∷◌,
  Bytes, leb, ◌==◌, if◌then◌else◌,
}
use mathlib.Core.List.{reverse, reverse-cons, reverse-reverse}

-- U+0009 to U+000D and U+0020
abbrev pub is_space1 : ℕ → Bool
is_space1 a = (leb 9 a && leb a 13) || a == 32

-- U+0085 and U+00A0
abbrev pub is_space2 : ℕ → ℕ → Bool
is_space2 a b = a == 0xC2 && (b == 0x85 || b == 0xA0)

-- U+1680, U+2000 to U+200A, U+2028, U+2029, U+202F, U+205F and U+3000
abbrev pub is_space3 : ℕ → ℕ → ℕ → Bool
is_space3 a b c =
    (a == 0xE1 && b == 0x9A && c == 0x80)
    || (a == 0xE2
        && b == 0x80
        && ((leb 0x80 c && leb c 0x8A) || c == 0xA8 || c == 0xA9 || c == 0xAF))
    || (a == 0xE2 && b == 0x81 && c == 0x9F)
    || (a == 0xE3 && b == 0x80 && c == 0x80)

-- How many bytes the space character has that the text begins with; 0 if it begins with none.
abbrev leading : Bytes → ℕ
leading [] = 0
leading (a ∷ []) = if is_space1 a then 1 else 0
leading (a ∷ b ∷ []) = if is_space1 a then 1 else if is_space2 a b then 2 else 0
leading (a ∷ b ∷ c ∷ s) =
    if is_space1 a then 1 else if is_space2 a b then 2 else if is_space3 a b c then 3 else 0

-- The same of a text that is read backwards.
abbrev trailing : Bytes → ℕ
trailing [] = 0
trailing (a ∷ []) = if is_space1 a then 1 else 0
trailing (a ∷ b ∷ []) = if is_space1 a then 1 else if is_space2 b a then 2 else 0
trailing (a ∷ b ∷ c ∷ s) =
    if is_space1 a then 1 else if is_space2 b a then 2 else if is_space3 c b a then 3 else 0

-- `skip` bytes are still to drop; `width` finds the next character to drop.
strip : (Bytes → ℕ) → ℕ → Bytes → Bytes
strip width skip [] = []
strip width (suc skip) (c ∷ s) = strip width skip s
strip width zero (c ∷ s) = elim (width (c ∷ s)) [ zero ↦ c ∷ s | suc n ↦ strip width n s ]

unfoldable pub trim_start : Bytes → Bytes
unfolding strip
trim_start s = strip leading 0 s

unfoldable pub trim_end : Bytes → Bytes
unfolding strip
trim_end s = reverse (strip trailing 0 (reverse s))

unfoldable pub trim : Bytes → Bytes
unfolding trim_start trim_end
trim s = trim_end (trim_start s)

-- The text has no space character at its ends.
abbrev pub IsTrimmed : Bytes → Type 0
IsTrimmed s = (leading s ≡ 0) × (trailing (reverse s) ≡ 0)

strip_none : (width : Bytes → ℕ) (s : Bytes) → width s ≡ 0 → strip width 0 s ≡ s
unfolding strip
strip_none width [] h = refl
strip_none width (c ∷ s) h = rw (h, strip)

-- A trimmed text stays.
pub trim_trimmed : (s : Bytes) → IsTrimmed s → trim s ≡ s
unfolding trim
trim_trimmed s (front, back) =
    rw (strip_none leading s front, strip_none trailing (reverse s) back) (reverse-reverse s)

-- A space before the text goes.
pub trim-space : (s : Bytes) → trim (32 ∷ s) ≡ trim s
unfolding trim
trim-space [] = refl
trim-space (a ∷ []) = refl
trim-space (a ∷ b ∷ s) = refl

trim_both : trim (32 ∷ 9 ∷ 97 ∷ 32 ∷ 98 ∷ 0xE3 ∷ 0x80 ∷ 0x80 ∷ 13 ∷ []) ≡ 97 ∷ 32 ∷ 98 ∷ []
unfolding trim
trim_both = refl

-- A printable character of ASCII that is no space.
abbrev pub Visible : ℕ → Type 0
Visible c = (33 ≤ c) × (c ≤ 126)

leading-Visible : (s : Bytes) → All Visible s → leading s ≡ 0
leading-Visible [] h = refl
leading-Visible (a ∷ []) h = ground arith
leading-Visible (a ∷ b ∷ []) h = ground arith
leading-Visible (a ∷ b ∷ c ∷ s) h = ground arith

trailing-Visible : (s : Bytes) → All Visible s → trailing s ≡ 0
trailing-Visible [] h = refl
trailing-Visible (a ∷ []) h = ground arith
trailing-Visible (a ∷ b ∷ []) h = ground arith
trailing-Visible (a ∷ b ∷ c ∷ s) h = ground arith

reverse-Visible : (s : Bytes) → All Visible s → All Visible (reverse s)
reverse-Visible [] h = tt
reverse-Visible (c ∷ s) (v, vs) =
    subst (All Visible) (sym (reverse-cons c s))
      (All-append Visible (reverse s) (c ∷ []) (reverse-Visible s vs) (v, tt))

-- A text without space characters is trimmed.
pub IsTrimmed-Visible : (s : Bytes) → All Visible s → IsTrimmed s
IsTrimmed-Visible s h = (leading-Visible s h, trailing-Visible (reverse s) (reverse-Visible s h))
