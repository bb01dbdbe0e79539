-- ===== src/Ps5/Net/Lookup.antt =====
-- crates/ps5/src/net.rs: `lookup_host`. The list that `getaddrinfo` builds is a list; what is left of
-- it is the pointer `cur`.
pub mod Resolved
use ps_payload_rust.Base.{
  ℕ, ◌≡◌, ◌∙◌, refl, ap, sym, ◌<◌, Bool, true, false, ◌&&◌, not, List, [], ◌∷◌, ◌++◌, Option, none,
  some, Bytes, Bool-cases, inl, inr, if◌then◌else◌, append-nil, append_assoc, map,
}
use ps_payload_rust.Base.Int.{ℤ, pos, eq_ℤ}
use ps_payload_rust.Sys.{Sys, Call, Addrinfo, SockaddrIn}
use ps_payload_rust.Ps5.Error.{gai}
use ps_payload_rust.Ps5.Effect.{M, pure, fail, ◌>>=◌, ◌>>◌, call}
use ps_payload_rust.Ps5.Util.{cstr}
use ps_payload_rust.Std.Number.{decimal}
use ps_payload_rust.Ps5.Net.Address.{SocketAddr, v4, from_sockaddr_in}

module _ (K : Sys) where
  -- What a round of the loop does with `ai`.
  abbrev pub push_address : Addrinfo → List SocketAddr → List SocketAddr
  push_address ai out = elim ai.ai_addr [
    | none ↦ out
    | some sin ↦
        if eq_ℤ ai.ai_family (pos K.af_inet) then out ++ (v4 (from_sockaddr_in sin) ∷ []) else out
  ]

  -- The loop over the list, with the addresses found so far.
  unfoldable pub collect_addresses : List Addrinfo → List SocketAddr → List SocketAddr
  collect_addresses [] out = out
  collect_addresses (ai ∷ rest) out = collect_addresses rest (push_address ai out)

  unfoldable pub lookup_host : Bytes → ℕ → M K.State (List SocketAddr)
  unfolding cstr collect_addresses
  lookup_host host port = do
    chost ← cstr host
    service ← cstr (decimal port)
    r ← call K (Call.getaddrinfo chost service (pos K.af_inet) K.sock_stream)
    elim (eq_ℤ r.ret (pos 0)) [
      | false ↦ fail (gai r.ret)
      | true ↦ do
        let out = collect_addresses r.addresses []
        r2 ← call K (Call.freeaddrinfo r.addresses)
        pure out
    ]
