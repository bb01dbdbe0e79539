-- ===== src/Ps5/Net/Stream.antt =====
-- crates/ps5/src/net.rs: `TcpStream`. Its `Drop` is the function `drop_stream`; the code that owns
-- a stream calls it where Rust would.
pub mod Recv
pub mod WriteAll
use ps_payload_rust.Base.{
  ℕ, zero, suc, Bool, true, false, [], ◌∷◌, Bytes, length, drop, ltb, if◌then◌else◌, none, some,
}
use ps_payload_rust.Base.Int.{ℤ, pos}
use ps_payload_rust.Sys.{Sys, Call}
use ps_payload_rust.Ps5.Error.{Error, errno, interrupted}
use ps_payload_rust.Ps5.Error.{Result, ok, err}
use ps_payload_rust.Ps5.Effect.{
  M, pure, fail, panic, out_of_fuel, ◌>>=◌, attempt, drop_on_error, call, last_os,
}
use ps_payload_rust.Ps5.Util.{cvt_i32}
use ps_payload_rust.Ps5.Net.Address.{SocketAddr, require_v4, to_sockaddr_in}
use ps_payload_rust.Ps5.Net.Fd.{
  new_socket, close_fd, set_nonblocking_fd, setsockopt_int, recv_fd, send_fd,
}

pub data Shutdown : Type 0 where
  read_half write_half both : Shutdown

pub record TcpStream : Type 0 where
  pub fd : ℤ

abbrev as_raw_fd : TcpStream → ℤ
as_raw_fd s = s.fd

-- The caller hands over a descriptor that it owns.
abbrev from_raw_fd : ℤ → TcpStream
from_raw_fd fd = record { fd = fd }

-- `mem::forget`: what drops the value is not called.
abbrev into_raw_fd : TcpStream → ℤ
into_raw_fd s = s.fd

-- `e.errno().is_some_and(|n| n.interrupted())`
abbrev pub is_interrupted : Sys → Error → Bool
is_interrupted K e = elim (errno e) [ none ↦ false | some n ↦ interrupted K n ]

abbrev pub shutdown_code : Sys → Shutdown → ℤ
shutdown_code K read_half = K.shut_rd
shutdown_code K write_half = K.shut_wr
shutdown_code K both = K.shut_rdwr

module _ (K : Sys) where
  unfoldable pub drop_stream : TcpStream → M K.State (Unit {0})
  unfolding close_fd
  drop_stream s = close_fd K s.fd

  unfoldable pub connect : SocketAddr → M K.State TcpStream
  unfolding require_v4 cvt_i32 new_socket drop_stream
  connect addr = do
    a ← require_v4 addr
    let sa = to_sockaddr_in K a
    fd ← new_socket K K.sock_stream
    let stream : TcpStream = record { fd = fd }
    drop_on_error (drop_stream stream) do
      r ← call K (Call.connect stream.fd sa K.sockaddr_in_len)
      _ ← cvt_i32 K r.ret
      pure stream

  unfoldable pub read : TcpStream → Bytes → M K.State (ℕ × Bytes)
  unfolding recv_fd
  read s buf = recv_fd K s.fd buf

  unfoldable pub write : TcpStream → Bytes → M K.State ℕ
  unfolding send_fd
  write s buf = send_fd K s.fd buf

  -- The fuel bounds the rounds of the loop.
  unfoldable pub write_all : ℕ → TcpStream → Bytes → M K.State (Unit {0})
  write_all fuel s [] = pure tt
  write_all zero s (b ∷ bs) = out_of_fuel
  write_all (suc fuel) s (b ∷ bs) = do
    r ← attempt (write s (b ∷ bs))
    elim r [
      | ok zero ↦ last_os K
      | ok (suc n) ↦
          let rest = write_all fuel s (drop (suc n) (b ∷ bs)) in
          if ltb (length (b ∷ bs)) (suc n) then panic else rest
      | err e ↦
          let again = write_all fuel s (b ∷ bs) in if is_interrupted K e then again else fail e
    ]

  unfoldable pub set_nodelay : TcpStream → Bool → M K.State (Unit {0})
  unfolding setsockopt_int
  set_nodelay s nodelay =
      setsockopt_int K s.fd K.ipproto_tcp K.tcp_nodelay (if nodelay then pos 1 else pos 0)

  unfoldable pub set_nonblocking : TcpStream → Bool → M K.State (Unit {0})
  unfolding set_nonblocking_fd
  set_nonblocking s nonblocking = set_nonblocking_fd K s.fd nonblocking

  unfoldable pub shutdown : TcpStream → Shutdown → M K.State (Unit {0})
  unfolding cvt_i32
  shutdown s how = do
    r ← call K (Call.shutdown s.fd (shutdown_code K how))
    _ ← cvt_i32 K r.ret
    pure tt
