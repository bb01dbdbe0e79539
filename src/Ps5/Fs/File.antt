-- ===== src/Ps5/Fs/File.antt =====
-- crates/ps5/src/fs.rs: `SeekFrom` and `File`. The drop of a file is the function `drop_file`.
use ps_payload_rust.Base.{ℕ, zero, suc, ◌-◌, [], ◌∷◌, ◌++◌, Bytes, length, replicate, if◌then◌else◌}
use ps_payload_rust.Base.Int.{ℤ, minus_one, eq_ℤ, to_signed, to_unsigned}
use ps_payload_rust.Sys.{Sys, Call}
use ps_payload_rust.Ps5.Error.{Result, ok, err, invalid_input}
use ps_payload_rust.Ps5.Effect.{
  M, pure, fail, out_of_fuel, ◌>>=◌, attempt, slice_to, slice_from, call, last_os,
}
use ps_payload_rust.Ps5.Util.{cvt_i32, cvt_ssize}
use ps_payload_rust.Ps5.Net.Fd.{fill}

-- An offset from the start is a `u64`, the others are `i64`.
pub data SeekFrom : Type 0 where
  from_start : ℕ → SeekFrom
  from_end : ℤ → SeekFrom
  from_current : ℤ → SeekFrom

pub record File : Type 0 where
  pub fd : ℤ

abbrev as_raw_fd : File → ℤ
as_raw_fd f = f.fd

-- The caller hands over a descriptor that it owns.
abbrev from_raw_fd : ℤ → File
from_raw_fd fd = record { fd = fd }

-- `mem::forget`: what drops the value is not called.
abbrev into_raw_fd : File → ℤ
into_raw_fd f = f.fd

-- `[0u8; 8192]`
unfoldable pub zeroed_block : Bytes
zeroed_block = replicate 8192 0

-- A round of the loop of `read_to_end`, on what `read` gave; `again` is the next round. The vector
-- keeps what was appended when the loop fails.
abbrev pub read_round :
    {S : Type 0}
    → (Bytes → Bytes → M S (Result (Unit {0}) × Bytes))
    → Bytes
    → Result (ℕ × Bytes)
    → M S (Result (Unit {0}) × Bytes)
read_round again buf (err e) = pure (err e, buf)
read_round again buf (ok (zero, chunk)) = pure (ok tt, buf)
read_round again buf (ok (suc n, chunk)) = do
  part ← slice_to chunk (suc n)
  again (buf ++ part) chunk

-- `Ok(buf.len() - start)`; the buffer only grows.
abbrev pub appended : ℕ → Result (Unit {0}) × Bytes → Result ℕ × Bytes
appended start (ok _, buf) = (ok (length buf - start), buf)
appended start (err e, buf) = (err e, buf)

abbrev pub seek_offset : SeekFrom → ℤ
seek_offset (from_start n) = to_signed 64 n
seek_offset (from_end n) = n
seek_offset (from_current n) = n

abbrev pub seek_whence : Sys → SeekFrom → ℤ
seek_whence K (from_start n) = K.seek_set
seek_whence K (from_end n) = K.seek_end
seek_whence K (from_current n) = K.seek_cur

module _ (K : Sys) where
  unfoldable pub drop_file : File → M K.State (Unit {0})
  drop_file f = do _ ← call K (Call.close f.fd); pure tt

  -- The count, and the buffer as it is after the call.
  unfoldable pub read : File → Bytes → M K.State (ℕ × Bytes)
  unfolding cvt_ssize
  read f buf = do
    r ← call K (Call.read f.fd (length buf))
    n ← cvt_ssize K r.ret
    pure (n, fill r.data_out buf)

  unfoldable pub write : File → Bytes → M K.State ℕ
  unfolding cvt_ssize
  write f buf = do r ← call K (Call.write f.fd buf); cvt_ssize K r.ret

  -- The fuel bounds the rounds of the loop.
  unfoldable pub write_all : ℕ → File → Bytes → M K.State (Unit {0})
  write_all fuel f [] = pure tt
  write_all zero f (b ∷ bs) = out_of_fuel
  write_all (suc fuel) f (b ∷ bs) = do
    n ← write f (b ∷ bs)
    elim n [
      | zero ↦ fail (invalid_input "write returned zero (failed to write whole buffer)")
      | suc m ↦ do rest ← slice_from (b ∷ bs) (suc m); write_all fuel f rest
    ]

  -- The loop of `read_to_end`, with what is in the vector so far.
  unfoldable pub read_rounds : ℕ → File → Bytes → Bytes → M K.State (Result (Unit {0}) × Bytes)
  read_rounds zero f buf chunk = out_of_fuel
  read_rounds (suc fuel) f buf chunk = do
    r ← attempt (read f chunk)
    read_round (λ b c. read_rounds fuel f b c) buf r

  -- The result, and the caller's vector as it is afterwards.
  unfoldable pub read_to_end : ℕ → File → Bytes → M K.State (Result ℕ × Bytes)
  unfolding read_rounds
  read_to_end fuel f buf = do
    r ← read_rounds fuel f buf zeroed_block
    pure (appended (length buf) r)

  unfoldable pub seek : File → SeekFrom → M K.State ℕ
  seek f position = do
    r ← call K (Call.lseek f.fd (seek_offset position) (seek_whence K position))
    if eq_ℤ r.ret minus_one then last_os K else pure (to_unsigned 64 r.ret)

  unfoldable pub sync_all : File → M K.State (Unit {0})
  unfolding cvt_i32
  sync_all f = do r ← call K (Call.fsync f.fd); _ ← cvt_i32 K r.ret; pure tt

  unfoldable pub set_len : File → ℕ → M K.State (Unit {0})
  unfolding cvt_i32
  set_len f size = do
    r ← call K (Call.ftruncate f.fd (to_signed 64 size))
    _ ← cvt_i32 K r.ret
    pure tt
