-- ===== src/Ps5/Net/Sockets.antt =====
-- crates/ps5/src/net.rs, `TcpStream::connect`, `TcpListener::bind` and `UdpSocket::bind`: the
-- descriptors that they hold.
use ps_payload_rust.Base.{◌≡◌, refl, List, ◌∷◌, some}
use ps_payload_rust.Base.Int.{ℤ, pos}
use ps_payload_rust.Sys.{Sys, Call, Reply}
use ps_payload_rust.Ps5.Effect.{World, M, pure, ◌>>=◌, and_then, call, drop_on_error}
use ps_payload_rust.Ps5.Frame.{called}
use ps_payload_rust.Ps5.Util.{cvt_i32}
use ps_payload_rust.Ps5.Ownership.{
  Resource, resource, descriptor, after, owned, Owns, Owns-and_then, Owns-cleanup, close_fd-Owns,
  checked-Owns, opened-Owns,
}
use ps_payload_rust.Ps5.Net.Listener
use ps_payload_rust.Ps5.Net.Listener.{TcpListener}
use ps_payload_rust.Ps5.Net.Listener.Opened.{bind-Owns}
use ps_payload_rust.Ps5.Net.Address.{SocketAddr, v4, v6, to_sockaddr_in, require_v4}
use ps_payload_rust.Ps5.Net.Fd.{new_socket, close_fd}
use ps_payload_rust.Ps5.Net.Stream.{TcpStream, drop_stream}
use ps_payload_rust.Ps5.Net.Stream
use ps_payload_rust.Ps5.Net.Udp.{UdpSocket, drop_socket}
use ps_payload_rust.Ps5.Net.Udp

module _ (K : Sys) (held : List Resource) where
  -- A new socket is closed again if the call on it fails.
  module _ {A : Type 0} (make : ℤ → A) (fd_of : A → ℤ) (c : ℤ → Call)
      (made : (fd : ℤ) → fd_of (make fd) ≡ fd)
      (neutral : (fd : ℤ) (r : Reply) (more : List Resource)
        → after (c fd) r more ≡ some more) where
    abbrev prepared : ℤ → M K.State A
    prepared fd =
        drop_on_error (close_fd K fd) do r ← call K (c fd); _ ← cvt_i32 K r.ret; pure (make fd)

    socket-Owns :
        (ty : ℤ) (w : World K.State)
        → owned w.events ≡ some held
        → Owns held
            (λ a. resource descriptor (fd_of a) ∷ held)
            (and_then (new_socket K ty w) prepared)
    unfolding new_socket
    socket-Owns ty w own =
        Owns-and_then held (λ fd. resource descriptor fd ∷ held)
          (λ a. resource descriptor (fd_of a) ∷ held)
          (cvt_i32 K (K.respond (Call.socket (pos K.af_inet) ty (pos 0)) w.os).0.ret
            (called K (Call.socket (pos K.af_inet) ty (pos 0)) w))
          prepared (opened-Owns K held (Call.socket (pos K.af_inet) ty (pos 0)) w own (λ r. refl))
          λ fd v own1.
            Owns-cleanup held (resource descriptor fd ∷ held)
              (λ a. resource descriptor (fd_of a) ∷ held) _ (close_fd K fd)
              (Owns-and_then (resource descriptor fd ∷ held) (λ _. resource descriptor fd ∷ held) _
                (cvt_i32 K (K.respond (c fd) v.os).0.ret (called K (c fd) v)) (λ _. pure (make fd))
                (checked-Owns K (resource descriptor fd ∷ held) (c fd) v own1
                  (λ r. neutral fd r (resource descriptor fd ∷ held)))
                (λ _ u own2. rw (made fd) own2))
              (λ u own2. close_fd-Owns K held fd u own2)

  -- `TcpStream::connect` leaves open the socket of the stream that it returns and no other: on every
  -- error, of whichever call, the socket is closed again.
  pub connect-Owns :
      (addr : SocketAddr) (w : World K.State)
      → owned w.events ≡ some held
      → Owns held (λ s. resource descriptor (TcpStream.fd s) ∷ held) (Stream.connect K addr w)
  unfolding Stream.connect
  connect-Owns (v4 a) w own =
      unfold require_v4 drop_stream in
      socket-Owns (λ fd. record { fd = fd }) TcpStream.fd
        (λ fd. Call.connect fd (to_sockaddr_in K a) K.sockaddr_in_len) (λ fd. refl)
        (λ fd r more. refl) K.sock_stream w own
  connect-Owns (v6 ip port) w own = unfold require_v4 in own

  -- `UdpSocket::bind` leaves open the socket that it returns and no other: on every error, of
  -- whichever call, the socket is closed again.
  pub udp_bind-Owns :
      (addr : SocketAddr) (w : World K.State)
      → owned w.events ≡ some held
      → Owns held (λ s. resource descriptor (UdpSocket.fd s) ∷ held) (Udp.bind K addr w)
  unfolding Udp.bind
  udp_bind-Owns (v4 a) w own =
      unfold require_v4 drop_socket in
      socket-Owns (λ fd. record { fd = fd }) UdpSocket.fd
        (λ fd. Call.bind fd (to_sockaddr_in K a) K.sockaddr_in_len) (λ fd. refl) (λ fd r more. refl)
        K.sock_dgram w own
  udp_bind-Owns (v6 ip port) w own = unfold require_v4 in own

  -- Each function that makes a socket leaves open the socket of what it returns and no other,
  -- whatever the platform answers: on every error, of whichever call, the socket is closed again. So
  -- do `TcpStream::connect`, `TcpListener::bind` and `UdpSocket::bind`.
  pub every_socket-Owns :
      (addr : SocketAddr) (w : World K.State)
      → owned w.events ≡ some held
      → Owns held (λ s. resource descriptor (TcpStream.fd s) ∷ held) (Stream.connect K addr w)
        × Owns held (λ l. resource descriptor (TcpListener.fd l) ∷ held) (Listener.bind K addr w)
        × Owns held (λ s. resource descriptor (UdpSocket.fd s) ∷ held) (Udp.bind K addr w)
  every_socket-Owns addr w own =
      (connect-Owns addr w own, bind-Owns K held addr w own, udp_bind-Owns addr w own)
