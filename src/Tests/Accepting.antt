-- ===== src/Tests/Accepting.antt =====
-- The accept loop and name resolution on the scripted platform.
use ps_payload_rust.Ps5.Net.Lookup.{lookup_host}
use ps_payload_rust.Ps5.Net.Lookup.Resolved.{Looked, lookup_host-Looked}
use ps_payload_rust.Base.{
  ℕ, ◌≤◌, ◌≡◌, ◌⊎◌, inr, List, Bytes, length, arith, length-take_le, codes, refl, [], ◌∷◌, some,
}
use ps_payload_rust.Base.Int.{pos, minus_one}
use ps_payload_rust.Sys.{Call}
use ps_payload_rust.Ps5.Effect.{World}
use ps_payload_rust.Ps5.Frame.{called}
use ps_payload_rust.Ps5.Net.Sockets.{every_socket-Owns}
use ps_payload_rust.Ps5.Net.Udp
use ps_payload_rust.Ps5.Net.Udp.{UdpSocket}
use ps_payload_rust.Ps5.Net.Udp.Echo.{IsPeer, RecvFromCounts, Echoed, echo, echo-Echoed}
use ps_payload_rust.Ps5.Net.Stream
use ps_payload_rust.Ps5.Net.Stream.{TcpStream}
use ps_payload_rust.Ps5.Ownership.{resource, descriptor, Owns, close_fd-Owns}
use ps_payload_rust.Ps5.Net.Address.{SocketAddr, v4}
use ps_payload_rust.Ps5.Net.Fd.{close_fd}
use ps_payload_rust.Ps5.Net.Listener
use ps_payload_rust.Ps5.Net.Listener.{TcpListener}
use ps_payload_rust.Ps5.Thread.Create.{Builder, spawn}
use ps_payload_rust.Ps5.Thread.HandOver.{handle_holds, spawn-Owns}
use ps_payload_rust.HttpServer.Server
use ps_payload_rust.HttpServer.Server.{serve}
use ps_payload_rust.HttpServer.Server.Holds.{Serves, serve-Serves}
use ps_payload_rust.Tests.Scripted.{Script, scripted, deliver, fresh}

abbrev address : SocketAddr
address = v4 (record { ip = 0; port = 8080 })

every_socket-Owns_example :
    Owns []
      (λ s. resource descriptor (TcpStream.fd s) ∷ [])
      (Stream.connect scripted address (fresh [] 0))
    × Owns []
        (λ l. resource descriptor (TcpListener.fd l) ∷ [])
        (Listener.bind scripted address (fresh [] 0))
    × Owns []
        (λ s. resource descriptor (UdpSocket.fd s) ∷ [])
        (Udp.bind scripted address (fresh [] 0))
every_socket-Owns_example = every_socket-Owns scripted [] address (fresh [] 0) refl

from_deliver :
    (len : ℕ) (ps : List Bytes) (s : Script)
    → let r = (deliver len ps s).0 in
      (r.ret ≡ minus_one)
      ⊎ ((r.ret ≡ pos (length r.data_out)) × (length r.data_out ≤ len) × IsPeer scripted r.peer)
from_deliver len [] s = inr (refl, omega arith, (refl, refl, omega arith, omega arith))
from_deliver len (p ∷ ps) s =
    inr (refl, length-take_le len p, (refl, refl, omega arith, omega arith))

scripted-RecvFromCounts : RecvFromCounts scripted
scripted-RecvFromCounts fd len flags s = from_deliver len s.incoming s

-- Four bytes into a buffer of three.
abbrev socket : UdpSocket
socket = record { fd = pos 5 }

echo-Echoed_example :
    Echoed scripted
      (pos 5)
      3
      []
      (echo scripted socket (0 ∷ 0 ∷ 0 ∷ []) (fresh (codes "ping" ∷ []) 0))
echo-Echoed_example =
    echo-Echoed scripted socket (0 ∷ 0 ∷ 0 ∷ []) (fresh (codes "ping" ∷ []) 0)
      scripted-RecvFromCounts (omega arith)

serve-Serves_example : Serves [] (serve scripted 3 Server.new address (fresh [] 0))
serve-Serves_example = serve-Serves scripted [] 3 Server.new address (fresh [] 0) refl

-- A world in which a stream was accepted.
abbrev accepted_one : World Script
accepted_one = called scripted (Call.accept (pos 3) 16) (fresh [] 0)

abbrev small_stack : Builder
small_stack = record { stack_size = some 65_536 }

spawn-Owns_example :
    Owns []
      (handle_holds [])
      (spawn scripted small_stack (pos 0) (close_fd scripted (pos 0)) accepted_one)
spawn-Owns_example =
    spawn-Owns scripted [] small_stack (pos 0) (close_fd scripted (pos 0)) accepted_one
      (λ v own. close_fd-Owns scripted [] (pos 0) v own) refl

lookup_host-Looked_example :
    Looked scripted []
      (codes "ps5")
      80
      (fresh [] 0)
      (lookup_host scripted (codes "ps5") 80 (fresh [] 0))
lookup_host-Looked_example = lookup_host-Looked scripted [] (codes "ps5") 80 (fresh [] 0) refl
