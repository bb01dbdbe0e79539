-- ===== src/Std/Utf8/Lossy.antt =====
-- `String::from_utf8_lossy`: each maximal part of an ill-formed sequence becomes U+FFFD.
pub mod Sound
use ps_payload_rust.Base.{ℕ, [], ◌∷◌, ◌++◌, none, some, Bytes, if◌then◌else◌}
use ps_payload_rust.Std.Utf8.{Expect, start, next, is_start}

-- U+FFFD
abbrev pub replacement : Bytes
replacement = 0xEF ∷ 0xBF ∷ 0xBD ∷ []

-- What a byte gives: the bytes put out, what is expected next, and the character begun.
pub record Fed : Type 0 where
  pub out : Bytes
  pub expect : Expect
  pub pending : Bytes

abbrev accepted : Expect → Bytes → Fed
accepted e p =
    if is_start e
    then record { out = p; expect = start; pending = [] }
    else record { out = []; expect = e; pending = p }

-- A byte where a character begins.
begin : ℕ → Fed
unfolding next
begin b = elim (next start b) [
  | none ↦ record { out = replacement; expect = start; pending = [] }
  | some e ↦ accepted e (b ∷ [])
]

-- A byte that does not go on begins anew.
feed : Expect → Bytes → ℕ → Fed
unfolding next begin
feed e p b = elim (next e b) [
  | none ↦ if is_start e then begin b else (record (begin b) { out = replacement ++ (begin b).out })
  | some e' ↦ accepted e' (p ++ (b ∷ []))
]

lossy : Expect → Bytes → Bytes → Bytes
unfolding feed
lossy e p [] = if is_start e then [] else replacement
lossy e p (b ∷ s) = let f = feed e p b in f.out ++ lossy f.expect f.pending s

unfoldable pub from_utf8_lossy : Bytes → Bytes
unfolding lossy
from_utf8_lossy s = lossy start [] s
