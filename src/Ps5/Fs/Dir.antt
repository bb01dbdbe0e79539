-- ===== src/Ps5/Fs/Dir.antt =====
-- crates/ps5/src/fs.rs: `DirEntry`, `ReadDir` and `read_dir`. A `DIR` pointer is its address.
use Prim.Native.Nat.{min}
use mathlib.Core.Option
use ps_payload_rust.Base.{
  ℕ, zero, suc, Bool, true, false, ◌||◌, Option, none, some, Bytes, codes, length, take, ltb,
  if◌then◌else◌,
}
use ps_payload_rust.Base.Int.{ℤ, pos, eq_ℤ}
use ps_payload_rust.Sys.{Sys, Call, Dirent}
use ps_payload_rust.Ps5.Error.{Result, ok, err, os}
use ps_payload_rust.Ps5.Effect.{M, pure, panic, out_of_fuel, ◌>>=◌, call, errno_value}
use ps_payload_rust.Ps5.Util.{cstr, cvt_ptr}
use ps_payload_rust.Std.Text.{eq_bytes, find_byte}
use ps_payload_rust.Std.Utf8.Lossy.{from_utf8_lossy}

pub record DirEntry : Type 0 where
  pub name : Bytes

pub record ReadDir : Type 0 where
  pub dir : ℤ

-- `bytes[..end]`, where the end is the first NUL or the length.
abbrev pub until : Bytes → Option ℕ → Bytes
until bytes none = bytes
until bytes (some n) = take n bytes

-- `slice::from_raw_parts` on an array; `none` is undefined behaviour, a read beyond the array.
abbrev pub from_raw_parts : Bytes → ℕ → Option Bytes
from_raw_parts array len = if ltb (length array) len then none else some (take len array)

abbrev pub name_in : Bytes → Bytes
name_in bytes = from_utf8_lossy (until bytes (find_byte 0 bytes))

unfoldable pub dirent_name : Dirent → Option Bytes
unfolding find_byte from_utf8_lossy
dirent_name ent =
    Option.map name_in (from_raw_parts ent.d_name (min ent.d_namlen (length ent.d_name)))

-- `name == "." || name == ".."`
abbrev pub is_dots : Bytes → Bool
is_dots name = eq_bytes name (codes ".") || eq_bytes name (codes "..")

-- What a null pointer means, by `errno`.
abbrev pub at_end : ℤ → Option (Result DirEntry)
at_end code = if eq_ℤ code (pos 0) then none else some (err (os (record { code = code })))

-- A name, and whether it is skipped; `again` is the next round.
abbrev pub shown :
    {S : Type 0} → M S (Option (Result DirEntry)) → Bytes → Bool → M S (Option (Result DirEntry))
shown again name true = again
shown again name false = pure (some (ok (record { name = name })))

-- The name of an entry; undefined behaviour stops the run.
abbrev pub named :
    {S : Type 0} → M S (Option (Result DirEntry)) → Option Bytes → M S (Option (Result DirEntry))
named again none = panic
named again (some name) = shown again name (is_dots name)

module _ (K : Sys) where
  -- What `readdir` gave, and whether it is the null pointer.
  abbrev pub entry_round :
      M K.State (Option (Result DirEntry)) → Dirent → Bool → M K.State (Option (Result DirEntry))
  entry_round again ent true = do code ← errno_value K; pure (at_end code)
  entry_round again ent false = named again (dirent_name ent)

  -- `Iterator::next`; the fuel bounds the rounds of its loop.
  unfoldable pub next_entry : ℕ → ReadDir → M K.State (Option (Result DirEntry))
  next_entry zero d = out_of_fuel
  next_entry (suc fuel) d = do
    _ ← call K Call.clear_errno
    r ← call K (Call.readdir d.dir)
    entry_round (next_entry fuel d) r.entry (eq_ℤ r.ret (pos 0))

  unfoldable pub drop_dir : ReadDir → M K.State (Unit {0})
  drop_dir d = do _ ← call K (Call.closedir d.dir); pure tt

  unfoldable pub read_dir : Bytes → M K.State ReadDir
  unfolding cstr cvt_ptr
  read_dir path = do
    c_path ← cstr path
    r ← call K (Call.opendir c_path)
    dir ← cvt_ptr K r.ret
    pure (record { dir = dir })
