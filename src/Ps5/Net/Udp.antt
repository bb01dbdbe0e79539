-- ===== src/Ps5/Net/Udp.antt =====
-- crates/ps5/src/net.rs: `UdpSocket`.
pub mod Echo
use ps_payload_rust.Base.{ℕ, Bool, Bytes, length}
use ps_payload_rust.Base.Int.{ℤ, pos}
use ps_payload_rust.Sys.{Sys, Call}
use ps_payload_rust.Ps5.Effect.{M, pure, ◌>>=◌, drop_on_error, call}
use ps_payload_rust.Ps5.Util.{cvt_i32, cvt_ssize}
use ps_payload_rust.Ps5.Net.Address.{SocketAddr, v4, require_v4, to_sockaddr_in, from_sockaddr_in}
use ps_payload_rust.Ps5.Net.Fd.{fill, new_socket, close_fd, set_nonblocking_fd, recv_fd, send_fd}

pub record UdpSocket : Type 0 where
  pub fd : ℤ

abbrev as_raw_fd : UdpSocket → ℤ
as_raw_fd s = s.fd

module _ (K : Sys) where
  unfoldable pub drop_socket : UdpSocket → M K.State (Unit {0})
  unfolding close_fd
  drop_socket s = close_fd K s.fd

  unfoldable pub bind : SocketAddr → M K.State UdpSocket
  unfolding require_v4 cvt_i32 new_socket drop_socket
  bind addr = do
    a ← require_v4 addr
    let sa = to_sockaddr_in K a
    fd ← new_socket K K.sock_dgram
    let sock : UdpSocket = record { fd = fd }
    drop_on_error (drop_socket sock)
        do r ← call K (Call.bind sock.fd sa K.sockaddr_in_len); _ ← cvt_i32 K r.ret; pure sock

  unfoldable pub send_to : UdpSocket → Bytes → SocketAddr → M K.State ℕ
  unfolding require_v4 cvt_ssize
  send_to s buf addr = do
    a ← require_v4 addr
    let sa = to_sockaddr_in K a
    r ← call K (Call.sendto s.fd buf (pos 0) sa K.sockaddr_in_len)
    cvt_ssize K r.ret

  -- The count with the sender's address, and the buffer as it is after the call.
  unfoldable pub recv_from : UdpSocket → Bytes → M K.State ((ℕ × SocketAddr) × Bytes)
  unfolding cvt_ssize
  recv_from s buf = do
    r ← call K (Call.recvfrom s.fd (length buf) (pos 0) K.sockaddr_in_len)
    n ← cvt_ssize K r.ret
    pure ((n, v4 (from_sockaddr_in r.peer)), fill r.data_out buf)

  unfoldable pub connect : UdpSocket → SocketAddr → M K.State (Unit {0})
  unfolding require_v4 cvt_i32
  connect s addr = do
    a ← require_v4 addr
    let sa = to_sockaddr_in K a
    r ← call K (Call.connect s.fd sa K.sockaddr_in_len)
    _ ← cvt_i32 K r.ret
    pure tt

  unfoldable pub send : UdpSocket → Bytes → M K.State ℕ
  unfolding send_fd
  send s buf = send_fd K s.fd buf

  unfoldable pub recv : UdpSocket → Bytes → M K.State (ℕ × Bytes)
  unfolding recv_fd
  recv s buf = recv_fd K s.fd buf

  unfoldable pub set_nonblocking : UdpSocket → Bool → M K.State (Unit {0})
  unfolding set_nonblocking_fd
  set_nonblocking s nonblocking = set_nonblocking_fd K s.fd nonblocking
