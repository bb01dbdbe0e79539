-- ===== src/Ps5/Util.antt =====
-- crates/ps5/src/util.rs: the return conventions of C.
use ps_payload_rust.Base.{ℕ, Bool, false, [], ◌∷◌, Bytes, ◌==◌, ◌||◌, if◌then◌else◌}
use ps_payload_rust.Base.Int.{ℤ, pos, eq_ℤ, minus_one, to_unsigned}
use ps_payload_rust.Sys.{Sys}
use ps_payload_rust.Ps5.Error.{invalid_input}
use ps_payload_rust.Ps5.Effect.{M, pure, fail, last_os}

abbrev pub has_nul : Bytes → Bool
has_nul [] = false
has_nul (c ∷ s) = c == 0 || has_nul s

-- `CString::new` refuses an interior NUL; the C string is the same bytes.
unfoldable pub cstr : {S : Type 0} → Bytes → M S Bytes
cstr s = if has_nul s then fail (invalid_input "string contains an interior NUL byte") else pure s

module _ (K : Sys) where
  unfoldable pub cvt_i32 : ℤ → M K.State ℤ
  cvt_i32 ret = if eq_ℤ ret minus_one then last_os K else pure ret

  -- `ret as usize` on 64 bits.
  unfoldable pub cvt_ssize : ℤ → M K.State ℕ
  cvt_ssize ret = if eq_ℤ ret minus_one then last_os K else pure (to_unsigned 64 ret)

  -- A pointer is its address, null is 0.
  unfoldable pub cvt_ptr : ℤ → M K.State ℤ
  cvt_ptr ptr = if eq_ℤ ptr (pos 0) then last_os K else pure ptr
