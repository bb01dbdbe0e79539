-- ===== src/Ps5/Fs/Names.antt =====
-- crates/ps5/src/fs.rs, `dirent_name`, against a description of the name that an entry holds.
use Prim.Native.Nat.{min}
use mathlib.Core.Option
use ps_payload_rust.Base.{
  ℕ, zero, suc, ◌≤◌, ◌≡◌, ◌∙◌, ◌≢◌, refl, ap, true, false, Bool-cases, inl, inr, [], ◌∷◌, ◌++◌,
  Option, none, some, Bytes, length, take, arith, Lacks, ◌==◌, if◌then◌else◌, le→ltb,
}
use ps_payload_rust.Std.Text.{find_byte}
use ps_payload_rust.Std.Utf8.{is_utf8}
use ps_payload_rust.Std.Utf8.Lossy.{from_utf8_lossy}
use ps_payload_rust.Std.Utf8.Lossy.Sound.{from_utf8_lossy-is_utf8, from_utf8_lossy_of_is_utf8}
use ps_payload_rust.Sys.{Dirent}
use ps_payload_rust.Ps5.Fs.Dir.{until, dirent_name}

-- At most that many bytes, up to the first NUL.
abbrev pub bounded : ℕ → Bytes → Bytes
bounded zero bytes = []
bounded (suc n) [] = []
bounded (suc n) (b ∷ bytes) = let rest = bounded n bytes in if b == 0 then [] else b ∷ rest

-- The name that an entry holds, ill-formed parts replaced.
abbrev pub name_of : Dirent → Bytes
name_of ent = from_utf8_lossy (bounded ent.d_namlen ent.d_name)

until-cons : (c : ℕ) (t : Bytes) (o : Option ℕ) → until (c ∷ t) (Option.map suc o) ≡ c ∷ until t o
until-cons c t none = refl
until-cons c t (some n) = refl

until-find_byte :
    (m : ℕ) (bytes : Bytes) → until (take m bytes) (find_byte 0 (take m bytes)) ≡ bounded m bytes
unfolding find_byte
until-find_byte zero bytes = refl
until-find_byte (suc m) [] = refl
until-find_byte (suc m) (c ∷ bytes) = elim (Bool-cases (c == 0)) [
  | inl e ↦ rw e refl
  | inr e ↦ rw e (
      until-cons c (take m bytes) (find_byte 0 (take m bytes))
      ∙ ap (λ t. c ∷ t) (until-find_byte m bytes))
]

-- The bound of the array changes nothing.
bounded-min : (n : ℕ) (bytes : Bytes) → bounded (min n (length bytes)) bytes ≡ bounded n bytes
bounded-min zero bytes = ap (λ m. bounded m bytes) min0
  where
    min0 : min 0 (length bytes) ≡ 0
    min0 = omega arith
bounded-min (suc n) [] = ap (λ m. bounded m []) min_suc
  where
    min_suc : min (suc n) 0 ≡ 0
    min_suc = omega arith
bounded-min (suc n) (c ∷ bytes) =
    ap (λ m. bounded m (c ∷ bytes)) min_suc
    ∙ ap (λ t. if c == 0 then [] else c ∷ t) (bounded-min n bytes)
  where
    min_suc : min (suc n) (suc (length bytes)) ≡ suc (min n (length bytes))
    min_suc = omega arith

-- `dirent_name` stays within the array of every entry, whatever it holds, and gives at most `d_namlen`
-- bytes of it, up to the first NUL, made well-formed UTF-8.
pub dirent_name-name_of :
    (ent : Dirent) → (dirent_name ent ≡ some (name_of ent)) × (is_utf8 (name_of ent) ≡ true)
unfolding dirent_name
dirent_name-name_of ent = (
  rw (le→ltb (length ent.d_name) (min ent.d_namlen (length ent.d_name)) (omega arith)) (
      ap (λ t. some (from_utf8_lossy t))
        (until-find_byte (min ent.d_namlen (length ent.d_name)) ent.d_name
          ∙ bounded-min ent.d_namlen ent.d_name)),
  from_utf8_lossy-is_utf8 (bounded ent.d_namlen ent.d_name),
)

bounded-append :
    (name rest : Bytes) (n : ℕ)
    → Lacks 0 name
    → length name ≤ n
    → bounded n (name ++ 0 ∷ rest) ≡ name
bounded-append [] rest zero lacks le = refl
bounded-append [] rest (suc n) lacks le = refl
bounded-append (c ∷ name) rest zero lacks le = absurd (omega arith)
bounded-append (c ∷ name) rest (suc n) (this, lacks) le =
    rw (other c this) (ap (λ t. c ∷ t) (bounded-append name rest n lacks (omega arith)))
  where
    other : (c : ℕ) → c ≢ 0 → (c == 0) ≡ false
    other c h = ground arith

-- A name of well-formed UTF-8 without a NUL byte is read back from an entry that holds it with a NUL
-- byte behind it, if the entry's length of the name is not smaller than the name.
pub dirent_name_lem :
    (name rest : Bytes) (n : ℕ)
    → is_utf8 name ≡ true
    → Lacks 0 name
    → length name ≤ n
    → dirent_name (record { d_namlen = n; d_name = name ++ 0 ∷ rest }) ≡ some name
dirent_name_lem name rest n good lacks le =
    (dirent_name-name_of (record { d_namlen = n; d_name = name ++ 0 ∷ rest })).0
    ∙ ap (λ t. some (from_utf8_lossy t)) (bounded-append name rest n lacks le)
    ∙ ap some (from_utf8_lossy_of_is_utf8 name good)
