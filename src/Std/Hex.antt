-- ===== src/Std/Hex.antt =====
-- The form `{:08x}` of a number of 32 bits, and reading it back.
use ps_payload_rust.Base.{
  ℕ, zero, suc, ◌+◌, ◌-◌, ◌*◌, ◌/◌, ◌%◌, ◌^◌, ◌<◌, ◌≡◌, ◌∙◌, refl, [], ◌∷◌, ◌++◌, Bytes, length,
  length-append, ltb, if◌then◌else◌, arith,
}

abbrev pub hex_digit : ℕ → ℕ
hex_digit d = if ltb d 10 then b'0' + d else b'a' + (d - 10)

-- That many digits, the last ones of the number.
hex_digits : ℕ → ℕ → Bytes
hex_digits zero n = []
hex_digits (suc k) n = hex_digits k (n / 16) ++ (hex_digit (n % 16) ∷ [])

-- A number of 32 bits has no more than eight digits.
unfoldable pub hex8 : ℕ → Bytes
unfolding hex_digits
hex8 n = hex_digits 8 n

abbrev hex_value : ℕ → ℕ
hex_value c = if ltb c b'a' then c - b'0' else c - b'a' + 10

-- The number that digits stand for, behind `n`.
unfoldable pub read_hex : ℕ → Bytes → ℕ
read_hex n [] = n
read_hex n (c ∷ s) = read_hex (n * 16 + hex_value c) s

read_hex-append : (n : ℕ) (s t : Bytes) → read_hex n (s ++ t) ≡ read_hex (read_hex n s) t
unfolding read_hex
read_hex-append n [] t = refl
read_hex-append n (c ∷ s) t = read_hex-append (n * 16 + hex_value c) s t

hex_value-hex_digit : (d : ℕ) → d < 16 → hex_value (hex_digit d) ≡ d
hex_value-hex_digit d h = ground arith

-- The number has that many digits.
abbrev Fits : ℕ → ℕ → Type 0
Fits zero n = n ≡ 0
Fits (suc k) n = Fits k (n / 16)

read_hex-hex_digits : (k n : ℕ) → Fits k n → read_hex 0 (hex_digits k n) ≡ n
unfolding hex_digits read_hex
read_hex-hex_digits zero n h = omega arith
read_hex-hex_digits (suc k) n h =
    read_hex-append 0 (hex_digits k (n / 16)) (hex_digit (n % 16) ∷ [])
    ∙ omega (arith, read_hex-hex_digits k (n / 16) h, hex_value-hex_digit (n % 16) (omega arith))

length-hex_digits : (k n : ℕ) → length (hex_digits k n) ≡ k
unfolding hex_digits
length-hex_digits zero n = refl
length-hex_digits (suc k) n = omega (
  arith,
  length-append (hex_digits k (n / 16)) (hex_digit (n % 16) ∷ []),
  length-hex_digits k (n / 16),
)

pub length-hex8 : (n : ℕ) → length (hex8 n) ≡ 8
unfolding hex8
length-hex8 n = length-hex_digits 8 n

pub read_hex-hex8 : (n : ℕ) → n < 2 ^ 32 → read_hex 0 (hex8 n) ≡ n
unfolding hex8
read_hex-hex8 n h = read_hex-hex_digits 8 n (omega arith)
