-- ===== src/Ps5/Fs/Paths.antt =====
-- crates/ps5/src/fs.rs: the functions on whole paths, and `Metadata`.
use Prim.Native.Nat.{bit_and}
use ps_payload_rust.Base.{ℕ, Bool, false, [], Bytes, ◌==◌}
use ps_payload_rust.Base.Int.{pos, eq_ℤ, to_unsigned}
use ps_payload_rust.Sys.{Sys, Call, Stat}
use ps_payload_rust.Ps5.Error.{Result, ok, err, ok_or}
use ps_payload_rust.Ps5.Effect.{M, pure, ◌>>=◌, attempt, from_result, drop_after, call}
use ps_payload_rust.Ps5.Util.{cstr, cvt_i32}
use ps_payload_rust.Std.Utf8.{from_utf8}
use ps_payload_rust.Ps5.Fs.File.{drop_file, write_all, read_to_end}
use ps_payload_rust.Ps5.Fs.Options.{open_file, create_file}

pub record Metadata : Type 0 where
  pub stat : Stat

-- `len`; `st_size` is an `i64`.
unfoldable pub len : Metadata → ℕ
len m = to_unsigned 64 m.stat.st_size

unfoldable pub is_empty : Metadata → Bool
unfolding len
is_empty m = len m == 0

unfoldable pub is_dir : Sys → Metadata → Bool
is_dir K m = bit_and m.stat.st_mode K.s_ifmt == K.s_ifdir

unfoldable pub is_file : Sys → Metadata → Bool
is_file K m = bit_and m.stat.st_mode K.s_ifmt == K.s_ifreg

unfoldable pub mode : Metadata → ℕ
mode m = m.stat.st_mode

module _ (K : Sys) where
  -- A call that returns an `int`, with its check; the result is dropped.
  abbrev pub checked : Call → M K.State (Unit {0})
  checked c = do r ← call K c; _ ← cvt_i32 K r.ret; pure tt

  unfoldable pub read_file : ℕ → Bytes → M K.State Bytes
  unfolding open_file read_to_end drop_file
  read_file fuel path = do
    file ← open_file K path
    drop_after (drop_file K file)
        do (r, buf) ← read_to_end K fuel file []; _ ← from_result r; pure buf

  unfoldable pub read_to_string : ℕ → Bytes → M K.State Bytes
  unfolding read_file from_utf8
  read_to_string fuel path = do
    bytes ← read_file fuel path
    from_result (ok_or (from_utf8 bytes) "file contents are not valid UTF-8")

  unfoldable pub write_file : ℕ → Bytes → Bytes → M K.State (Unit {0})
  unfolding create_file write_all drop_file
  write_file fuel path contents = do
    file ← create_file K path
    drop_after (drop_file K file) (write_all K fuel file contents)

  unfoldable pub remove_file : Bytes → M K.State (Unit {0})
  unfolding cstr cvt_i32
  remove_file path = do c_path ← cstr path; checked (Call.unlink c_path)

  -- The mode is 0o755.
  unfoldable pub create_dir : Bytes → M K.State (Unit {0})
  unfolding cstr cvt_i32
  create_dir path = do c_path ← cstr path; checked (Call.mkdir c_path 493)

  unfoldable pub remove_dir : Bytes → M K.State (Unit {0})
  unfolding cstr cvt_i32
  remove_dir path = do c_path ← cstr path; checked (Call.rmdir c_path)

  unfoldable pub rename : Bytes → Bytes → M K.State (Unit {0})
  unfolding cstr cvt_i32
  rename from to = do c_from ← cstr from; c_to ← cstr to; checked (Call.rename c_from c_to)

  -- The answer of `exists` for a path that is a C string or not.
  abbrev pub exists_c : Result Bytes → M K.State Bool
  exists_c (ok c_path) = do r ← call K (Call.access c_path K.f_ok); pure (eq_ℤ r.ret (pos 0))
  exists_c (err e) = pure false

  unfoldable pub exists : Bytes → M K.State Bool
  unfolding cstr
  exists path = do c_path ← attempt (cstr path); exists_c c_path

  unfoldable pub metadata : Bytes → M K.State Metadata
  unfolding cstr cvt_i32
  metadata path = do
    c_path ← cstr path
    r ← call K (Call.stat c_path)
    _ ← cvt_i32 K r.ret
    pure (record { stat = r.info })
