-- ===== src/Ps5/Net/Udp/Echo.antt =====
-- crates/ps5/src/net.rs, `UdpSocket`: a datagram is answered where it came from.
use mathlib.Core.Path.{ap₂}
use ps_payload_rust.Base.{
  ℕ, ◌≤◌, ◌<◌, ◌^◌, ◌%◌, ◌≡◌, sym, refl, ◌⊎◌, inl, inr, Bool-cases, List, ◌∷◌, Bytes, length, take,
  arith,
}
use ps_payload_rust.Base.Int.{ℤ, pos, minus_one, eq_ℤ, to_unsigned_pos}
use ps_payload_rust.Sys.{Sys, Call, Event, Reply, SockaddrIn}
use ps_payload_rust.Ps5.Util.{cvt_ssize}
use ps_payload_rust.Ps5.Effect.{World, Outcome, returns, fails, aborts, exhausted, M, ◌>>=◌}
use ps_payload_rust.Ps5.Frame.{called}
use ps_payload_rust.Ps5.Net.Address.{
  SocketAddrV4, v4, require_v4, swap16, swap32, to_sockaddr_in, from_sockaddr_in,
}
use ps_payload_rust.Ps5.Net.Fd.{fill}
use ps_payload_rust.Ps5.Net.Stream.Recv.{take-fill}
use ps_payload_rust.Ps5.Net.Udp.{UdpSocket, recv_from, send_to}

-- An IPv4 address as the platform writes it.
abbrev pub IsPeer : Sys → SockaddrIn → Type 0
IsPeer K p =
    (p.sin_len ≡ K.sockaddr_in_len % 256)
    × (p.sin_family ≡ K.af_inet % 256)
    × (p.sin_port < 65_536)
    × (p.s_addr < 4_294_967_296)

-- `recvfrom` on an IPv4 socket fails with -1, or tells how many bytes it has written, at most the
-- buffer's length, and writes the address of the sender.
abbrev pub RecvFromCounts : Sys → Type 0
RecvFromCounts K =
    (fd : ℤ) (len : ℕ) (flags : ℤ) (s : K.State)
    → let r = (K.respond (Call.recvfrom fd len flags K.sockaddr_in_len) s).0 in
      (r.ret ≡ minus_one)
      ⊎ ((r.ret ≡ pos (length r.data_out)) × (length r.data_out ≤ len) × IsPeer K r.peer)

to_sockaddr_in-from_sockaddr_in :
    (K : Sys) (p : SockaddrIn) → IsPeer K p → to_sockaddr_in K (from_sockaddr_in p) ≡ p
unfolding to_sockaddr_in from_sockaddr_in
to_sockaddr_in-from_sockaddr_in K p (len, family, port, ip) = λ i. record {
  sin_len = (sym len) i;
  sin_family = (sym family) i;
  sin_port = port_back i;
  s_addr = ip_back i;
}
  where
    ip_back : swap32 (swap32 p.s_addr) ≡ p.s_addr
    ip_back = omega (arith, ip)

    port_back : swap16 (swap16 p.sin_port) ≡ p.sin_port
    port_back = omega (arith, port)

-- The run ends, and its calls were a receive that failed, or a receive and then a send, back to the
-- sender, of the bytes received.
abbrev pub Returned : Sys → ℤ → ℕ → List Event → List Event → Type 0
Returned K fd len before now =
    (e : Event) × (e.asked ≡ Call.recvfrom fd len (pos 0) K.sockaddr_in_len)
    × (((now ≡ e ∷ before) × (e.answered.ret ≡ minus_one))
        ⊎ ((back : Event) × (now ≡ back ∷ e ∷ before)
            × (back.asked
                ≡ Call.sendto fd e.answered.data_out (pos 0) e.answered.peer K.sockaddr_in_len)))

abbrev pub Echoed : {S A : Type 0} → Sys → ℤ → ℕ → List Event → Outcome S A → Type 0
Echoed K fd len before (returns a w) = Returned K fd len before w.events
Echoed K fd len before (fails e w) = Returned K fd len before w.events
Echoed K fd len before (aborts w) = ⊥
Echoed K fd len before (exhausted w) = ⊥

module _ (K : Sys) where
  -- A datagram is received into a buffer, and what came is sent to where it came from.
  abbrev pub echo : UdpSocket → Bytes → M K.State ℕ
  echo s buf = do got ← recv_from K s buf; send_to K s (take got.0.0 got.1) got.0.1

  module _ (s : UdpSocket) (buf : Bytes) (w : World K.State) where
    abbrev asked : Call
    asked = Call.recvfrom s.fd (length buf) (pos 0) K.sockaddr_in_len

    abbrev answered : Reply
    answered = (K.respond asked w.os).0

    recv_from-answered :
        answered.ret ≡ pos (length answered.data_out)
        → length answered.data_out < 2 ^ 64
        → recv_from K s buf w
          ≡ returns
              (
                (length answered.data_out, v4 (from_sockaddr_in answered.peer)),
                fill answered.data_out buf,
              )
              (called K asked w)
    unfolding recv_from
    recv_from-answered e small = rw (e, to_unsigned_pos (length answered.data_out) small) refl

    -- Sending these bytes to this address is sending the datagram back.
    send_to-Echoed :
        (bytes : Bytes) (a : SocketAddrV4)
        → bytes ≡ answered.data_out
        → to_sockaddr_in K a ≡ answered.peer
        → Echoed K s.fd (length buf) w.events (send_to K s bytes (v4 a) (called K asked w))
    unfolding send_to require_v4 cvt_ssize
    send_to-Echoed bytes a same back =
        elim (Bool-cases (eq_ℤ (K.respond c (called K asked w).os).0.ret minus_one)) [
          | inl failed ↦ rw (Echoed, send_to, failed) (_, refl, inr (_, refl, same_call))
          | inr fine ↦ rw (Echoed, send_to, fine) (_, refl, inr (_, refl, same_call))
        ]
      where
        c : Call
        c = Call.sendto s.fd bytes (pos 0) (to_sockaddr_in K a) K.sockaddr_in_len

        same_call : c ≡ Call.sendto s.fd answered.data_out (pos 0) answered.peer K.sockaddr_in_len
        same_call = ap₂ (λ d p. Call.sendto s.fd d (pos 0) p K.sockaddr_in_len) same back

    -- On a platform whose `recvfrom` counts its bytes and names the sender, a datagram that is received
    -- and answered with the bytes received, to the address that `recv_from` gave, goes back to the very
    -- `sockaddr_in` it came from, all of it; when the receive fails nothing is sent. Nothing panics.
    pub echo-Echoed :
        RecvFromCounts K → length buf < 2 ^ 64 → Echoed K s.fd (length buf) w.events (echo s buf w)
    unfolding recv_from send_to require_v4
    echo-Echoed counts small = elim (counts s.fd (length buf) (pos 0) w.os) [
      | inl failed ↦ rw failed (_, refl, inl (refl, refl))
      | inr (n, le, peer) ↦ rw (recv_from-answered n (omega (arith, le, small))) (
          send_to-Echoed (take (length answered.data_out) (fill answered.data_out buf))
            (from_sockaddr_in answered.peer) (take-fill answered.data_out buf le)
            (to_sockaddr_in-from_sockaddr_in K answered.peer peer))
    ]
