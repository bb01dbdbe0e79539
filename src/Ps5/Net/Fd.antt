-- ===== src/Ps5/Net/Fd.antt =====
-- crates/ps5/src/net.rs, the helpers on raw descriptors.
use ps_payload_rust.Base.{ℕ, Bool, [], ◌∷◌, Bytes, length, if◌then◌else◌}
use ps_payload_rust.Base.Int.{ℤ, pos}
use ps_payload_rust.Sys.{Sys, socket, close, fcntl_get, fcntl_set, setsockopt, recv, send}
use ps_payload_rust.Ps5.Effect.{M, pure, ◌>>=◌, call}
use ps_payload_rust.Ps5.Util.{cvt_i32, cvt_ssize}

-- The buffer after the kernel has written to its start.
abbrev pub fill : Bytes → Bytes → Bytes
fill [] buf = buf
fill (d ∷ ds) [] = []
fill (d ∷ ds) (b ∷ bs) = d ∷ fill ds bs

module _ (K : Sys) where
  unfoldable pub new_socket : ℤ → M K.State ℤ
  unfolding cvt_i32
  new_socket ty = do r ← call K (socket (pos K.af_inet) ty (pos 0)); cvt_i32 K r.ret

  unfoldable pub close_fd : ℤ → M K.State (Unit {0})
  close_fd fd = do r ← call K (close fd); pure tt

  unfoldable pub set_nonblocking_fd : ℤ → Bool → M K.State (Unit {0})
  unfolding cvt_i32
  set_nonblocking_fd fd nonblocking = do
    r ← call K (fcntl_get fd K.f_getfl)
    flags ← cvt_i32 K r.ret
    let new = if nonblocking then K.with_nonblock flags else K.without_nonblock flags
    r2 ← call K (fcntl_set fd K.f_setfl new)
    _ ← cvt_i32 K r2.ret
    pure tt

  unfoldable pub setsockopt_int : ℤ → ℤ → ℤ → ℤ → M K.State (Unit {0})
  unfolding cvt_i32
  setsockopt_int fd level name value = do
    r ← call K (setsockopt fd level name value)
    _ ← cvt_i32 K r.ret
    pure tt

  -- The count, and the buffer as it is after the call. (After an error no caller looks at it.)
  unfoldable pub recv_fd : ℤ → Bytes → M K.State (ℕ × Bytes)
  unfolding cvt_ssize
  recv_fd fd buf = do
    r ← call K (recv fd (length buf) (pos 0))
    n ← cvt_ssize K r.ret
    pure (n, fill r.data_out buf)

  unfoldable pub send_fd : ℤ → Bytes → M K.State ℕ
  unfolding cvt_ssize
  send_fd fd buf = do r ← call K (send fd buf (pos 0)); cvt_ssize K r.ret
