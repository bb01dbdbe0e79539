-- ===== src/Ps5/Net/Listener/Opened.antt =====
-- crates/ps5/src/net.rs, `TcpListener::bind` and `accept`: the descriptors that they hold.
use ps_payload_rust.Base.{◌≡◌, refl, List, ◌∷◌, some}
use ps_payload_rust.Base.Int.{ℤ, pos}
use ps_payload_rust.Sys.{Sys, Call, SockaddrIn}
use ps_payload_rust.Ps5.Effect.{World, pure, and_then}
use ps_payload_rust.Ps5.Frame.{called}
use ps_payload_rust.Ps5.Util.{cvt_i32}
use ps_payload_rust.Ps5.Ownership.{
  Resource, resource, descriptor, owned, Owns, Owns-and_then, Owns-cleanup, close_fd-Owns,
  checked-Owns, opened-Owns,
}
use ps_payload_rust.Ps5.Net.Address.{SocketAddr, SocketAddrV4, v4, v6, to_sockaddr_in, require_v4}
use ps_payload_rust.Ps5.Net.Fd.{new_socket, setsockopt_int, close_fd}
use ps_payload_rust.Ps5.Net.Stream.{TcpStream}
use ps_payload_rust.Ps5.Net.Listener.{TcpListener, drop_listener, bind, bind_v4, accept, configure}

module _ (K : Sys) (held : List Resource) where
  setsockopt_int-Owns :
      (fd level name value : ℤ) (w : World K.State)
      → owned w.events ≡ some held
      → Owns held (λ _. held) (setsockopt_int K fd level name value w)
  unfolding setsockopt_int
  setsockopt_int-Owns fd level name value w h =
      Owns-and_then held (λ _. held) (λ _. held) (cvt_i32 K (K.respond c w.os).0.ret (called K c w))
        (λ _. pure tt) (checked-Owns K held c w h (λ r. refl)) (λ _ v own. own)
    where
      c : Call
      c = Call.setsockopt fd level name value

  -- The calls on the new socket.
  configure-Owns :
      (l : TcpListener) (sa : SockaddrIn) (w : World K.State)
      → owned w.events ≡ some held
      → Owns held (λ _. held) (configure K l sa w)
  unfolding configure
  configure-Owns l sa w h =
      Owns-and_then held (λ _. held) (λ _. held)
        (setsockopt_int K l.fd K.sol_socket K.so_reuseaddr (pos 1) w) _
        (setsockopt_int-Owns l.fd K.sol_socket K.so_reuseaddr (pos 1) w h)
        λ _ w1 h1.
          Owns-and_then held (λ _. held) (λ _. held)
            (cvt_i32 K (K.respond c w1.os).0.ret (called K c w1)) _
            (checked-Owns K held c w1 h1 (λ r. refl))
            λ _ w2 h2.
              Owns-and_then held (λ _. held) (λ _. held)
                (cvt_i32 K (K.respond c2 w2.os).0.ret (called K c2 w2)) (λ _. pure tt)
                (checked-Owns K held c2 w2 h2 (λ r. refl)) (λ _ v own. own)
    where
      c : Call
      c = Call.bind l.fd sa K.sockaddr_in_len

      c2 : Call
      c2 = Call.listen l.fd (pos 128)

module _ (K : Sys) (held : List Resource) where
  abbrev pub listening : TcpListener → List Resource
  listening l = resource descriptor l.fd ∷ held

  bind_v4-Owns :
      (a : SocketAddrV4) (w : World K.State)
      → owned w.events ≡ some held
      → Owns held listening (bind_v4 K a w)
  unfolding bind_v4 new_socket drop_listener
  bind_v4-Owns a w h =
      Owns-and_then held (λ fd. resource descriptor fd ∷ held) listening
        (cvt_i32 K (K.respond c w.os).0.ret (called K c w)) _ (opened-Owns K held c w h (λ r. refl))
        λ fd w1 h1.
          Owns-cleanup held (resource descriptor fd ∷ held) listening
            (and_then (configure K (record { fd = fd }) (to_sockaddr_in K a) w1)
              (λ _. pure (record { fd = fd })))
            (close_fd K fd)
            (Owns-and_then (resource descriptor fd ∷ held) (λ _. resource descriptor fd ∷ held)
              listening (configure K (record { fd = fd }) (to_sockaddr_in K a) w1)
              (λ _. pure (record { fd = fd }))
              (configure-Owns K (resource descriptor fd ∷ held) (record { fd = fd })
                (to_sockaddr_in K a) w1 h1)
              (λ _ v own. own))
            (λ v own. close_fd-Owns K held fd v own)
    where
      c : Call
      c = Call.socket (pos K.af_inet) K.sock_stream (pos 0)

  -- `TcpListener::bind` leaves open the socket of the listener that it returns and no other: on
  -- every error, of whichever call, the socket is closed again.
  pub bind-Owns :
      (addr : SocketAddr) (w : World K.State)
      → owned w.events ≡ some held
      → Owns held listening (bind K addr w)
  unfolding bind
  bind-Owns (v4 a) w h = unfold require_v4 in bind_v4-Owns a w h
  bind-Owns (v6 ip port) w h = unfold require_v4 in h

  pub accept-Owns :
      (l : TcpListener) (w : World K.State)
      → owned w.events ≡ some held
      → Owns held (λ (stream, _). resource descriptor (TcpStream.fd stream) ∷ held) (accept K l w)
  unfolding accept
  accept-Owns l w h =
      Owns-and_then held (λ fd. resource descriptor fd ∷ held)
        (λ (stream, _). resource descriptor (TcpStream.fd stream) ∷ held)
        (cvt_i32 K (K.respond c w.os).0.ret (called K c w)) _ (opened-Owns K held c w h (λ r. refl))
        (λ fd v own. own)
    where
      c : Call
      c = Call.accept l.fd K.sockaddr_in_len
