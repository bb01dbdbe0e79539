-- ===== src/Std/Number.antt =====
-- `str::parse::<usize>` on 64 bits, and the decimal form that `format!` writes.
use mathlib.Core.List.{cons-ne-nil, concat-ne-nil}
use ps_payload_rust.Base.{
  ◌≢◌, ap, ℕ, zero, suc, ◌+◌, ◌-◌, ◌*◌, ◌/◌, ◌%◌, ◌^◌, ◌≤◌, ◌<◌, ◌≡◌, refl, ◌∙◌, ◌&&◌, [], ◌∷◌,
  ◌++◌, Option, none, some, Bytes, ltb, leb, ◌==◌, if◌then◌else◌, arith, All, All-append,
  Bool-cases, inl, inr,
}

-- The digits behind `n`; a result that does not fit is an error.
parse_digits : Bytes → ℕ → Option ℕ
parse_digits [] n = some n
parse_digits (c ∷ s) n =
    let next = n * 10 + (c - b'0') in
    let rest = parse_digits s next in
    if leb b'0' c && leb c b'9' && ltb next (2 ^ 64) then rest else none

abbrev parse_unsigned : Bytes → Option ℕ
parse_unsigned [] = none
parse_unsigned (c ∷ s) = parse_digits (c ∷ s) 0

-- One leading plus is skipped.
unfoldable pub parse_usize : Bytes → Option ℕ
unfolding parse_digits
parse_usize [] = none
parse_usize (c ∷ s) = if c == b'+' then parse_unsigned s else parse_unsigned (c ∷ s)

digits : ℕ → ℕ → Bytes
digits zero n = []
digits (suc fuel) n =
    let front = digits fuel (n / 10) in
    if ltb n 10 then (b'0' + n) ∷ [] else front ++ ((b'0' + n % 10) ∷ [])

-- There are at most as many rounds as the number tells.
unfoldable pub decimal : ℕ → Bytes
unfolding digits
decimal n = digits (suc n) n

abbrev pub IsDigit : ℕ → Type 0
IsDigit c = (b'0' ≤ c) × (c ≤ b'9')

digits-IsDigit : (fuel n : ℕ) → n < fuel → All IsDigit (digits fuel n)
unfolding digits
digits-IsDigit zero n h = absurd (omega arith)
digits-IsDigit (suc fuel) n h = elim (Bool-cases (ltb n 10)) [
  | inl small ↦ rw small ((omega arith, ground arith), tt)
  | inr large ↦ rw large (
      All-append IsDigit (digits fuel (n / 10)) ((b'0' + n % 10) ∷ [])
        (digits-IsDigit fuel (n / 10) (ground arith)) ((omega arith, omega arith), tt))
]

pub decimal-IsDigit : (n : ℕ) → All IsDigit (decimal n)
unfolding decimal
decimal-IsDigit n = digits-IsDigit (suc n) n (omega arith)

parse_digits-append_digit :
    (s : Bytes) (m n c : ℕ)
    → parse_digits s m ≡ some n
    → IsDigit c
    → n * 10 + (c - b'0') < 2 ^ 64
    → parse_digits (s ++ (c ∷ [])) m ≡ some (n * 10 + (c - b'0'))
unfolding parse_digits
parse_digits-append_digit [] m n c e d h = ground arith
parse_digits-append_digit (a ∷ s) m n c e d h =
    ground (arith, parse_digits-append_digit s (m * 10 + (a - b'0')) n c)

parse_digits-digits : (fuel n : ℕ) → n < fuel → n < 2 ^ 64 → parse_digits (digits fuel n) 0 ≡ some n
unfolding digits
parse_digits-digits zero n h k = absurd (omega arith)
parse_digits-digits (suc fuel) n h k = elim (Bool-cases (ltb n 10)) [
  | inl small ↦ rw small (unfold parse_digits in ground arith)
  | inr large ↦ rw large (
      parse_digits-append_digit (digits fuel (n / 10)) 0 (n / 10) (b'0' + n % 10)
        (parse_digits-digits fuel (n / 10) (ground arith) (omega arith)) (omega arith, omega arith)
        (omega arith)
      ∙ ap some (omega arith))
]

digits-ne-nil : (fuel n : ℕ) → digits (suc fuel) n ≢ []
unfolding digits
digits-ne-nil fuel n = elim (Bool-cases (ltb n 10)) [
  | inl small ↦ rw small (cons-ne-nil _ _)
  | inr large ↦ rw large (concat-ne-nil _ _)
]

parse_usize-digits : (s : Bytes) → s ≢ [] → All IsDigit s → parse_usize s ≡ parse_digits s 0
unfolding parse_usize
parse_usize-digits [] h d = absurd (h refl)
parse_usize-digits (c ∷ s) h (d, ds) = unfold parse_digits in ground arith

-- A number that fits is read back from its decimal form.
pub parse_usize-decimal : (n : ℕ) → n < 2 ^ 64 → parse_usize (decimal n) ≡ some n
unfolding decimal
parse_usize-decimal n h =
    parse_usize-digits (digits (suc n) n) (digits-ne-nil n n) (decimal-IsDigit n)
    ∙ parse_digits-digits (suc n) n (omega arith) h
