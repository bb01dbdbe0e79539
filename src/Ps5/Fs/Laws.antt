-- ===== src/Ps5/Fs/Laws.antt =====
-- What POSIX documents of the calls on a regular file, as hypotheses on the platform: the file at one
-- path has a content, and a descriptor that is open on it stands somewhere in the content.
use Prim.Native.Nat.{bit_or}
use ps_payload_rust.Base.{
  ℕ, ◌+◌, ◌≤◌, ◌<◌, ◌≡◌, ◌⊎◌, [], ◌++◌, Option, some, Bytes, length, take, drop,
}
use ps_payload_rust.Base.Int.{ℤ, pos, minus_one}
use ps_payload_rust.Sys.{Sys, Call}

-- `O_WRONLY | O_CREAT | O_TRUNC`
abbrev pub create_flags : Sys → ℕ
create_flags K = bit_or (bit_or K.o_wronly K.o_creat) K.o_trunc

pub record FileLaws (K : Sys) (path : Bytes) : Type 0 where
  pub content : K.State → Bytes
  pub position : K.State → ℤ → Option ℕ
  -- Opening for writing with truncation gives an empty file.
  pub created :
      (s : K.State)
      → let r = K.respond (Call.open_path path (create_flags K) 420) s in
        (r.0.ret ≡ minus_one) ⊎ ((content r.1 ≡ []) × (position r.1 r.0.ret ≡ some 0))
  -- Opening for reading leaves the content alone.
  pub opened :
      (s : K.State)
      → let r = K.respond (Call.open_path path K.o_rdonly 420) s in
        (r.0.ret ≡ minus_one) ⊎ ((content r.1 ≡ content s) × (position r.1 r.0.ret ≡ some 0))
  -- A write at the end appends the bytes that it counts, the first ones of the buffer.
  pub wrote :
      (s : K.State) (fd : ℤ) (buf : Bytes)
      → position s fd ≡ some (length (content s))
      → let r = K.respond (Call.write fd buf) s in
        (r.0.ret ≡ minus_one)
        ⊎ ((n : ℕ) × (r.0.ret ≡ pos n)
            × (n ≤ length buf)
            × (content r.1 ≡ content s ++ take n buf)
            × (position r.1 fd ≡ some (length (content r.1))))
  -- A read gives the bytes at the position, none only at the end, and moves behind them.
  pub read_at :
      (s : K.State) (fd : ℤ) (len p : ℕ)
      → 0 < len
      → position s fd ≡ some p
      → p ≤ length (content s)
      → let r = K.respond (Call.read fd len) s in
        (r.0.ret ≡ minus_one)
        ⊎ ((rest : Bytes) × (drop p (content s) ≡ r.0.data_out ++ rest)
            × (r.0.ret ≡ pos (length r.0.data_out))
            × (length r.0.data_out ≤ len)
            × (r.0.data_out ≡ [] → rest ≡ [])
            × (content r.1 ≡ content s)
            × (position r.1 fd ≡ some (p + length r.0.data_out)))
  pub closed : (s : K.State) (fd : ℤ) → content (K.respond (Call.close fd) s).1 ≡ content s
