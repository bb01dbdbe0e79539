-- ===== src/Std/Split.antt =====
-- `str::split` and `str::split_once` by a text. A pattern of ASCII characters is found in the bytes
-- where it is found in the characters.
use ps_payload_rust.Base.{
  ℕ, zero, suc, ◌-◌, ◌≡◌, ◌≢◌, refl, ap, ◌∙◌, Bool, true, false, ◌&&◌, List, [], ◌∷◌, ◌++◌, Option,
  none, some, Bytes, length, drop, ◌==◌, if◌then◌else◌, arith, Lacks, drop-append_length,
}
use mathlib.Core.Option

abbrev pub starts_with : Bytes → Bytes → Bool
starts_with [] s = true
starts_with (p ∷ ps) [] = false
starts_with (p ∷ ps) (c ∷ s) = c == p && starts_with ps s

-- The character goes to the front of the first part.
abbrev pub prepend : ℕ → List Bytes → List Bytes
prepend c [] = (c ∷ []) ∷ []
prepend c (p ∷ ps) = (c ∷ p) ∷ ps

-- The parts of the text behind the first `skip` bytes, which belong to a separator.
split_from : Bytes → ℕ → Bytes → List Bytes
split_from sep skip [] = [] ∷ []
split_from sep (suc skip) (c ∷ s) = split_from sep skip s
split_from sep zero (c ∷ s) = elim (starts_with sep (c ∷ s)) [
  | true ↦ [] ∷ split_from sep (length sep - 1) s
  | false ↦ prepend c (split_from sep 0 s)
]

unfoldable pub split : Bytes → Bytes → List Bytes
unfolding split_from
split sep s = split_from sep 0 s

abbrev before_sep : ℕ → Bytes × Bytes → Bytes × Bytes
before_sep c (a, b) = (c ∷ a, b)

unfoldable pub split_once : Bytes → Bytes → Option (Bytes × Bytes)
split_once sep [] = if starts_with sep [] then some ([], []) else none
split_once sep (c ∷ s) =
    if starts_with sep (c ∷ s)
    then some ([], drop (length sep) (c ∷ s))
    else Option.map (before_sep c) (split_once sep s)

starts_with_append : (p s : Bytes) → starts_with p (p ++ s) ≡ true
starts_with_append [] s = refl
starts_with_append (c ∷ p) s = ground (arith, starts_with_append p s)

split_from-skip : (sep a s : Bytes) → split_from sep (length a) (a ++ s) ≡ split_from sep 0 s
unfolding split_from
split_from-skip sep [] s = refl
split_from-skip sep (c ∷ a) s = split_from-skip sep a s

tail_length : (b : ℕ) (sep : Bytes) → length (b ∷ sep) - 1 ≡ length sep
tail_length b sep = omega arith

ne→starts_with : (b c : ℕ) (sep s : Bytes) → c ≢ b → starts_with (b ∷ sep) (c ∷ s) ≡ false
ne→starts_with b c sep s ne = ground arith

split_from-cons :
    (b c : ℕ) (sep s : Bytes)
    → c ≢ b
    → split_from (b ∷ sep) 0 (c ∷ s) ≡ prepend c (split_from (b ∷ sep) 0 s)
unfolding split_from
split_from-cons b c sep s ne = ground (arith, ne→starts_with b c sep s ne)

split_from_found :
    (b : ℕ) (sep s : Bytes)
    → split_from (b ∷ sep) 0 (b ∷ (sep ++ s))
      ≡ [] ∷ split_from (b ∷ sep) (length (b ∷ sep) - 1) (sep ++ s)
unfolding split_from
split_from_found b sep s = ground (arith, starts_with_append (b ∷ sep) s)

split_from-sep :
    (b : ℕ) (sep s : Bytes)
    → split_from (b ∷ sep) 0 (b ∷ (sep ++ s)) ≡ [] ∷ split_from (b ∷ sep) 0 s
split_from-sep b sep s =
    split_from_found b sep s
    ∙ ap (λ t. [] ∷ t)
        (ap (λ n. split_from (b ∷ sep) n (sep ++ s)) (tail_length b sep)
          ∙ split_from-skip (b ∷ sep) sep s)

-- A part that lacks the separator's first byte is split off whole.
pub split-append :
    (b : ℕ) (sep a s : Bytes)
    → Lacks b a
    → split (b ∷ sep) (a ++ (b ∷ (sep ++ s))) ≡ a ∷ split (b ∷ sep) s
unfolding split
split-append b sep [] s h = split_from-sep b sep s
split-append b sep (c ∷ a) s (ne, h) =
    split_from-cons b c sep _ ne ∙ ap (prepend c) (split-append b sep a s h)

-- A text that lacks the separator's first byte is one part.
pub split_whole : (b : ℕ) (sep a : Bytes) → Lacks b a → split (b ∷ sep) a ≡ a ∷ []
unfolding split
split_whole b sep [] h = refl
split_whole b sep (c ∷ a) (ne, h) =
    split_from-cons b c sep a ne ∙ ap (prepend c) (split_whole b sep a h)

-- The first separator ends the first part.
pub split_once-append :
    (b : ℕ) (sep a s : Bytes)
    → Lacks b a
    → split_once (b ∷ sep) (a ++ (b ∷ (sep ++ s))) ≡ some (a, s)
unfolding split_once
split_once-append b sep [] s h =
    ground (arith, starts_with_append (b ∷ sep) s, drop-append_length sep s)
split_once-append b sep (c ∷ a) s (ne, h) =
    ground (arith, ne→starts_with b c sep (a ++ (b ∷ (sep ++ s))) ne, split_once-append b sep a s h)
