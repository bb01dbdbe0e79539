-- ===== src/Tests/Disk.antt =====
-- A platform for the tests with one file and one descriptor on it: a write takes at most three bytes
-- and appends them, a read gives at most five.
use Prim.Native.Nat.{min}
use ps_payload_rust.Base.{
  ℕ, zero, suc, ◌+◌, ◌≤◌, ◌<◌, ◌≡◌, refl, ap, sym, inr, [], ◌∷◌, ◌++◌, Option, none, some, Bytes,
  length, take, drop, arith, ◌==◌, if◌then◌else◌, length-take_le, take-append-drop,
}
use ps_payload_rust.Base.Int.{pos, minus_one}
use ps_payload_rust.Sys.{Sys, Call, Reply}
use ps_payload_rust.Ps5.Effect.{World}
use ps_payload_rust.Ps5.Fs.Laws.{FileLaws}
use ps_payload_rust.Tests.Scripted.{scripted, reply}

pub record Disk : Type 0 where
  pub content : Bytes
  pub cursor : Option ℕ

abbrev at_cursor : ℕ → Disk → Option ℕ → Reply × Disk
at_cursor len s none = (reply minus_one [], s)
at_cursor len s (some p) =
    let d = take (min len 5) (drop p s.content) in
    (reply (pos (length d)) d, record s { cursor = some (p + length d) })

abbrev respond : Call → Disk → Reply × Disk
respond (Call.open_path path flags mode) s =
    (reply (pos 3) [], record { content = if flags == 0 then s.content else []; cursor = some 0 })
respond (Call.write fd buf) s =
    let all = s.content ++ take 3 buf in
    (reply (pos (length (take 3 buf))) [], record { content = all; cursor = some (length all) })
respond (Call.read fd len) s = at_cursor len s s.cursor
respond (Call.close fd) s = (reply (pos 0) [], record s { cursor = none })
respond c s = (reply (pos 0) [], s)

abbrev pub disk : Sys
disk = record scripted { State = Disk; errno = λ s. pos 0; respond = respond }

abbrev pub blank : World Disk
blank = record { os = record { content = []; cursor = none }; events = [] }

pub take-length-take : (n : ℕ) (b : Bytes) → take (length (take n b)) b ≡ take n b
take-length-take zero b = refl
take-length-take (suc n) [] = refl
take-length-take (suc n) (x ∷ b) = ap (λ t. x ∷ t) (take-length-take n b)

pub length-take_most : (n : ℕ) (b : Bytes) → length (take n b) ≤ length b
length-take_most zero b = omega arith
length-take_most (suc n) [] = omega arith
length-take_most (suc n) (x ∷ b) = omega (arith, length-take_most n b)

pub took_none : (n : ℕ) (b : Bytes) → 0 < n → take n b ≡ [] → drop n b ≡ []
took_none zero b more e = absurd (omega arith)
took_none (suc n) [] more e = refl
took_none (suc n) (x ∷ b) more e = absurd cc

abbrev pub disk-FileLaws : (path : Bytes) → FileLaws disk path
disk-FileLaws path = record {
  content = λ s. s.content;
  position = λ s fd. s.cursor;
  created = λ s. inr (refl, refl);
  opened = λ s. inr (refl, refl);
  wrote = λ s fd buf at. inr (
    length (take 3 buf),
    refl,
    length-take_most 3 buf,
    ap (λ t. s.content ++ t) (sym (take-length-take 3 buf)),
    refl,
  );
  read_at = λ s fd len p more at le. rw at (
      inr (
        drop (min len 5) (drop p s.content),
        sym (take-append-drop (min len 5) (drop p s.content)),
        refl,
        omega (arith, length-take_le (min len 5) (drop p s.content)),
        took_none (min len 5) (drop p s.content) (omega arith),
        refl,
        refl,
      ));
  closed = λ s fd. refl;
}
