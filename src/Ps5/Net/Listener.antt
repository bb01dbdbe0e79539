-- ===== src/Ps5/Net/Listener.antt =====
-- crates/ps5/src/net.rs: `TcpListener` and its iterator `Incoming`.
pub mod Opened
use ps_payload_rust.Base.{Bool, Option, some}
use ps_payload_rust.Base.Int.{ℤ, pos}
use ps_payload_rust.Sys.{Sys, Call, SockaddrIn}
use ps_payload_rust.Ps5.Error.{Result, ok, err}
use ps_payload_rust.Ps5.Effect.{M, pure, ◌>>=◌, ◌>>◌, attempt, drop_on_error, call}
use ps_payload_rust.Ps5.Util.{cvt_i32}
use ps_payload_rust.Ps5.Net.Address.{
  SocketAddr, SocketAddrV4, v4, require_v4, to_sockaddr_in, from_sockaddr_in,
}
use ps_payload_rust.Ps5.Net.Fd.{new_socket, close_fd, set_nonblocking_fd, setsockopt_int}
use ps_payload_rust.Ps5.Net.Stream.{TcpStream}

pub record TcpListener : Type 0 where
  pub fd : ℤ

abbrev as_raw_fd : TcpListener → ℤ
as_raw_fd l = l.fd

abbrev first_ok : Result (TcpStream × SocketAddr) → Result TcpStream
first_ok (ok (stream, _)) = ok stream
first_ok (err e) = err e

module _ (K : Sys) where
  unfoldable pub drop_listener : TcpListener → M K.State (Unit {0})
  unfolding close_fd
  drop_listener l = close_fd K l.fd

  -- The calls of `bind` on the new socket.
  unfoldable pub configure : TcpListener → SockaddrIn → M K.State (Unit {0})
  unfolding cvt_i32 setsockopt_int
  configure listener sa = do
    setsockopt_int K listener.fd K.sol_socket K.so_reuseaddr (pos 1)
    r ← call K (Call.bind listener.fd sa K.sockaddr_in_len)
    _ ← cvt_i32 K r.ret
    r2 ← call K (Call.listen listener.fd (pos 128))
    _ ← cvt_i32 K r2.ret
    pure tt

  -- `bind`, once the address is an IPv4 address.
  unfoldable pub bind_v4 : SocketAddrV4 → M K.State TcpListener
  unfolding new_socket drop_listener configure
  bind_v4 a = do
    let sa = to_sockaddr_in K a
    fd ← new_socket K K.sock_stream
    let listener : TcpListener = record { fd = fd }
    drop_on_error (drop_listener listener) do configure listener sa; pure listener

  unfoldable pub bind : SocketAddr → M K.State TcpListener
  unfolding require_v4 bind_v4
  bind addr = do a ← require_v4 addr; bind_v4 a

  unfoldable pub accept : TcpListener → M K.State (TcpStream × SocketAddr)
  unfolding cvt_i32
  accept l = do
    r ← call K (Call.accept l.fd K.sockaddr_in_len)
    fd ← cvt_i32 K r.ret
    let peer = v4 (from_sockaddr_in r.peer)
    pure (record { fd = fd }, peer)

  -- `Incoming::next`
  unfoldable pub next_incoming : TcpListener → M K.State (Option (Result TcpStream))
  next_incoming l = do r ← attempt (accept l); pure (some (first_ok r))

  unfoldable pub set_nonblocking : TcpListener → Bool → M K.State (Unit {0})
  unfolding set_nonblocking_fd
  set_nonblocking l nonblocking = set_nonblocking_fd K l.fd nonblocking
