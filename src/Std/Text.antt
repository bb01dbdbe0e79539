-- ===== src/Std/Text.antt =====
-- `eq_ignore_ascii_case`, `windows` and `position`.
use ps_payload_rust.Base.{
  ℕ, suc, ◌+◌, ◌≡◌, refl, Bool, true, false, ◌&&◌, List, [], ◌∷◌, Option, none, some, Bytes, length,
  take, ltb, leb, ◌==◌, if◌then◌else◌, arith,
}
use mathlib.Core.Option

abbrev pub to_ascii_lowercase : ℕ → ℕ
to_ascii_lowercase c = if leb b'A' c && leb c b'Z' then c + 32 else c

unfoldable pub eq_ignore_ascii_case : Bytes → Bytes → Bool
eq_ignore_ascii_case [] [] = true
eq_ignore_ascii_case [] (d ∷ t) = false
eq_ignore_ascii_case (c ∷ s) [] = false
eq_ignore_ascii_case (c ∷ s) (d ∷ t) =
    to_ascii_lowercase c == to_ascii_lowercase d && eq_ignore_ascii_case s t

abbrev pub eq_bytes : Bytes → Bytes → Bool
eq_bytes [] [] = true
eq_bytes [] (d ∷ t) = false
eq_bytes (c ∷ s) [] = false
eq_bytes (c ∷ s) (d ∷ t) = c == d && eq_bytes s t

-- All runs of n consecutive elements, for 0 < n.
unfoldable pub windows : ℕ → Bytes → List Bytes
windows n [] = []
windows n (x ∷ xs) = if ltb (length (x ∷ xs)) n then [] else take n (x ∷ xs) ∷ windows n xs

-- The index of the first element that passes the test.
unfoldable pub position : (Bytes → Bool) → List Bytes → Option ℕ
position p [] = none
position p (x ∷ xs) = if p x then some 0 else Option.map suc (position p xs)

-- `iter().position(|&b| b == x)`
unfoldable pub find_byte : ℕ → Bytes → Option ℕ
find_byte x [] = none
find_byte x (c ∷ s) = if c == x then some 0 else Option.map suc (find_byte x s)

pub eq_ignore_ascii_case_refl : (s : Bytes) → eq_ignore_ascii_case s s ≡ true
unfolding eq_ignore_ascii_case
eq_ignore_ascii_case_refl [] = refl
eq_ignore_ascii_case_refl (c ∷ s) = ground (arith, eq_ignore_ascii_case_refl s)
