-- ===== src/Ps5/Net/Address.antt =====
-- crates/ps5/src/net.rs, address helpers. The target x86_64 is little-endian, so `to_be` and
-- `from_be` swap the bytes.
use ps_payload_rust.Base.{ℕ, ◌+◌, ◌*◌, ◌/◌, ◌%◌, ◌<◌, ◌≡◌, arith}
use ps_payload_rust.Sys.{Sys, SockaddrIn}
use ps_payload_rust.Ps5.Error.{invalid_input}
use ps_payload_rust.Ps5.Effect.{M, pure, fail}

-- `core::net::SocketAddrV4`; the address is `u32::from(ip)`.
pub record SocketAddrV4 : Type 0 where
  pub ip : ℕ
  pub port : ℕ

-- `core::net::SocketAddr`; the code reads nothing of an IPv6 address.
pub data SocketAddr : Type 0 where
  v4 : SocketAddrV4 → SocketAddr
  v6 : ℕ → ℕ → SocketAddr

unfoldable pub require_v4 : {S : Type 0} → SocketAddr → M S SocketAddrV4
require_v4 (v4 a) = pure a
require_v4 (v6 ip port) = fail (invalid_input "IPv6 is not yet supported")

-- `u16::to_be` and `u16::from_be`
abbrev pub swap16 : ℕ → ℕ
swap16 n = n % 256 * 256 + n / 256 % 256

-- `u32::to_be` and `u32::from_be`
abbrev pub swap32 : ℕ → ℕ
swap32 n =
    n % 256 * 16_777_216 + n / 256 % 256 * 65_536 + n / 65_536 % 256 * 256 + n / 16_777_216 % 256

unfoldable pub to_sockaddr_in : Sys → SocketAddrV4 → SockaddrIn
to_sockaddr_in K a = record {
  sin_len = K.sockaddr_in_len % 256;
  sin_family = K.af_inet % 256;
  sin_port = swap16 a.port;
  s_addr = swap32 a.ip;
}

unfoldable pub from_sockaddr_in : SockaddrIn → SocketAddrV4
from_sockaddr_in sa = record { ip = swap32 sa.s_addr; port = swap16 sa.sin_port }

-- An address survives the way into a `sockaddr_in` and back, whatever the platform's constants.
pub from_sockaddr_in-to_sockaddr_in :
    (K : Sys) (a : SocketAddrV4)
    → a.ip < 4_294_967_296
    → a.port < 65_536
    → from_sockaddr_in (to_sockaddr_in K a) ≡ a
unfolding from_sockaddr_in to_sockaddr_in
from_sockaddr_in-to_sockaddr_in K a hi hp = λ i. record { ip = ip_back i; port = port_back i }
  where
    ip_back : swap32 (swap32 a.ip) ≡ a.ip
    ip_back = omega arith

    port_back : swap16 (swap16 a.port) ≡ a.port
    port_back = omega arith
