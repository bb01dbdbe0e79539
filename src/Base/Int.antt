-- ===== src/Base/Int.antt =====
-- Signed machine integers, as the integers that they stand for.
use ps_payload_rust.Base.{
  ltb, if◌then◌else◌, ◌≡◌, arith, ℕ, ◌-◌, ◌%◌, ◌^◌, ◌<◌, Bool, true, false, ◌==◌,
}

-- `negsuc n` is -(n + 1).
pub data ℤ : Type 0 where
  pos : ℕ → ℤ
  negsuc : ℕ → ℤ

abbrev pub minus_one : ℤ
minus_one = negsuc 0

abbrev pub eq_ℤ : ℤ → ℤ → Bool
eq_ℤ (pos a) (pos b) = a == b
eq_ℤ (pos a) (negsuc b) = false
eq_ℤ (negsuc a) (pos b) = false
eq_ℤ (negsuc a) (negsuc b) = a == b

abbrev pub is_negative : ℤ → Bool
is_negative (pos n) = false
is_negative (negsuc n) = true

-- `x as uN` for a signed `x`: two's complement on w bits.
abbrev pub to_unsigned : ℕ → ℤ → ℕ
to_unsigned w (pos n) = n % 2 ^ w
to_unsigned w (negsuc n) = 2 ^ w - 1 - n % 2 ^ w

-- `x as iN` for an unsigned `x` below 2^w.
abbrev pub to_signed : ℕ → ℕ → ℤ
to_signed w n = if ltb n (2 ^ (w - 1)) then pos n else negsuc (2 ^ w - 1 - n)

pub eq_ℤ→eq : (a b : ℤ) → eq_ℤ a b ≡ true → a ≡ b
eq_ℤ→eq a b h = ground arith

pub eq_ℤ_refl : (a : ℤ) → eq_ℤ a a ≡ true
eq_ℤ_refl (pos a) = ground arith
eq_ℤ_refl (negsuc a) = ground arith

-- A count below 2^64 is cast to itself.
pub to_unsigned_pos : (n : ℕ) → n < 2 ^ 64 → to_unsigned 64 (pos n) ≡ n
to_unsigned_pos n h = omega arith

pub to_unsigned-to_signed : (n : ℕ) → n < 2 ^ 64 → to_unsigned 64 (to_signed 64 n) ≡ n
to_unsigned-to_signed n h = ground arith
