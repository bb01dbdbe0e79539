-- ===== src/Std/Quote.antt =====
-- `{:?}` of a `&str`.
use ps_payload_rust.Base.{ℕ, [], ◌∷◌, ◌++◌, ◌/◌, ◌%◌, ◌==◌, ◌||◌, Bytes, codes, ltb, if◌then◌else◌}
use ps_payload_rust.Std.Hex.{hex_digit}

-- `{:?}` of a `&str`, for the ASCII texts that the errors carry: what is printed as an escape.
abbrev hex_digits_of : ℕ → Bytes
hex_digits_of c =
    if ltb c 16 then hex_digit c ∷ [] else hex_digit (c / 16) ∷ hex_digit (c % 16) ∷ []

abbrev escape_debug : ℕ → Bytes
escape_debug c =
    if c == 0
    then codes "\\0"
    else if c == 9
    then codes "\\t"
    else if c == 10
    then codes "\\n"
    else if c == 13
    then codes "\\r"
    else if c == 34 || c == 92
    then 92 ∷ c ∷ []
    else if ltb c 32 || c == 127
    then codes "\\u{" ++ hex_digits_of c ++ codes "}"
    else c ∷ []

unfoldable escape_all : Bytes → Bytes
escape_all [] = []
escape_all (c ∷ s) = escape_debug c ++ escape_all s

unfoldable pub debug_str : Bytes → Bytes
unfolding escape_all
debug_str s = 34 ∷ (escape_all s ++ (34 ∷ []))
