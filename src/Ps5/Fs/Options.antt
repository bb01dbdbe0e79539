-- ===== src/Ps5/Fs/Options.antt =====
-- crates/ps5/src/fs.rs: `OpenOptions`, and the constructors of `File`. The flags are bits of a
-- positive `c_int`.
use Prim.Native.Nat.{bit_or}
use ps_payload_rust.Base.{ℕ, Bool, true, false, ◌||◌, Bytes, if◌then◌else◌}
use ps_payload_rust.Sys.{Sys, Call}
use ps_payload_rust.Ps5.Error.{Result, ok, err, invalid_input}
use ps_payload_rust.Ps5.Effect.{M, pure, ◌>>=◌, from_result, call}
use ps_payload_rust.Ps5.Util.{cstr, cvt_i32}
use ps_payload_rust.Ps5.Fs.File.{File}

pub record OpenOptions : Type 0 where
  pub read : Bool
  pub write : Bool
  pub append : Bool
  pub truncate : Bool
  pub create : Bool
  pub create_new : Bool

-- `OpenOptions::new`
unfoldable pub new : OpenOptions
new = record {
  read = false;
  write = false;
  append = false;
  truncate = false;
  create = false;
  create_new = false;
}

-- `File::options`
unfoldable options : OpenOptions
unfolding new
options = new

unfoldable pub read : OpenOptions → Bool → OpenOptions
read o b = record o { read = b }

unfoldable pub write : OpenOptions → Bool → OpenOptions
write o b = record o { write = b }

unfoldable pub append : OpenOptions → Bool → OpenOptions
append o b = record o { append = b }

unfoldable pub truncate : OpenOptions → Bool → OpenOptions
truncate o b = record o { truncate = b }

unfoldable pub create : OpenOptions → Bool → OpenOptions
create o b = record o { create = b }

unfoldable pub create_new : OpenOptions → Bool → OpenOptions
create_new o b = record o { create_new = b }

-- The match of `access_flags`, on whether to read and whether to write or append.
abbrev pub access_mode : Sys → Bool → Bool → Result ℕ
access_mode K true false = ok K.o_rdonly
access_mode K false true = ok K.o_wronly
access_mode K true true = ok K.o_rdwr
access_mode K false false =
    err (invalid_input "OpenOptions: no access mode set (need read and/or write)")

unfoldable pub access_flags : Sys → OpenOptions → Result ℕ
access_flags K o = access_mode K o.read (o.write || o.append)

-- The flags of `open`, from the access mode on.
unfoldable pub open_flags : Sys → OpenOptions → ℕ → ℕ
open_flags K o access =
    let f1 = if o.append then bit_or access K.o_append else access in
    if o.create_new
    then bit_or f1 (bit_or K.o_creat K.o_excl)
    else let f2 = if o.create then bit_or f1 K.o_creat else f1 in
      if o.truncate then bit_or f2 K.o_trunc else f2

module _ (K : Sys) where
  -- `OpenOptions::open`; the mode is 0o644.
  unfoldable pub open_with : OpenOptions → Bytes → M K.State File
  unfolding access_flags open_flags cstr cvt_i32
  open_with o path = do
    access ← from_result (access_flags K o)
    c_path ← cstr path
    r ← call K (Call.open_path c_path (open_flags K o access) 420)
    fd ← cvt_i32 K r.ret
    pure (record { fd = fd })

  -- `File::open`
  unfoldable pub open_file : Bytes → M K.State File
  unfolding open_with new read
  open_file path = open_with (read new true) path

  -- `File::create`
  unfoldable pub create_file : Bytes → M K.State File
  unfolding open_with new write create truncate
  create_file path = open_with (truncate (create (write new true) true) true) path
