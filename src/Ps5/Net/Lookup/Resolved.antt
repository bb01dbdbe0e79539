-- ===== src/Ps5/Net/Lookup/Resolved.antt =====
-- crates/ps5/src/net.rs, `lookup_host`: its result, and that the list is freed.
use ps_payload_rust.Base.{
  ℕ, ◌≡◌, ◌∙◌, ap, sym, List, [], ◌∷◌, ◌++◌, Option, none, some, Bytes, Bool-cases, inl, inr,
  if◌then◌else◌, append-nil, append_assoc,
}
use ps_payload_rust.Base.Int.{ℤ, pos, eq_ℤ}
use ps_payload_rust.Sys.{Sys, Call, Reply, Addrinfo, SockaddrIn}
use ps_payload_rust.Ps5.Effect.{World, Outcome, returns, fails, aborts, exhausted}
use ps_payload_rust.Ps5.Frame.{called}
use ps_payload_rust.Ps5.Util.{cstr, has_nul}
use ps_payload_rust.Ps5.Ownership.{
  Resource, resource, address_list, owned, release_top, owned-called,
}
use ps_payload_rust.Std.Number.{decimal}
use ps_payload_rust.Ps5.Net.Address.{SocketAddr, v4, from_sockaddr_in}
use ps_payload_rust.Ps5.Net.Lookup.{push_address, collect_addresses, lookup_host}

module _ (K : Sys) where
  abbrev usable_at : Option SockaddrIn → List SocketAddr
  usable_at none = []
  usable_at (some sin) = v4 (from_sockaddr_in sin) ∷ []

  -- The address of an entry, if it is an IPv4 entry with an address.
  abbrev pub usable : Addrinfo → List SocketAddr
  usable ai = if eq_ℤ ai.ai_family (pos K.af_inet) then usable_at ai.ai_addr else []

  -- Those of all entries, in order.
  abbrev pub resolved : List Addrinfo → List SocketAddr
  resolved [] = []
  resolved (ai ∷ rest) = usable ai ++ resolved rest

  push_address-usable :
      (family : ℤ) (at : Option SockaddrIn) (out : List SocketAddr)
      → push_address K (record { ai_family = family; ai_addr = at }) out
        ≡ out ++ usable (record { ai_family = family; ai_addr = at })
  push_address-usable family none out = elim (Bool-cases (eq_ℤ family (pos K.af_inet))) [
    | inl e ↦ rw e (sym (append-nil out))
    | inr e ↦ rw e (sym (append-nil out))
  ]
  push_address-usable family (some sin) out = elim (Bool-cases (eq_ℤ family (pos K.af_inet))) [
    | inl e ↦ rw e
    | inr e ↦ rw e (sym (append-nil out))
  ]

  collect_addresses-resolved :
      (ais : List Addrinfo) (out : List SocketAddr)
      → collect_addresses K ais out ≡ out ++ resolved ais
  unfolding collect_addresses
  collect_addresses-resolved [] out = sym (append-nil out)
  collect_addresses-resolved (ai ∷ rest) out =
      collect_addresses-resolved rest (push_address K ai out)
      ∙ ap (λ t. t ++ resolved rest) (push_address-usable ai.ai_family ai.ai_addr out)
      ∙ append_assoc out (usable ai) (resolved rest)

  -- The addresses are the usable ones of the list that the platform gave, and nothing more is held.
  abbrev pub Looked :
      List Resource → Bytes → ℕ → World K.State → Outcome K.State (List SocketAddr) → Type 0
  Looked held host port before (returns out w) =
      (owned w.events ≡ some held)
      × (out
          ≡ resolved
              (K.respond (Call.getaddrinfo host (decimal port) (pos K.af_inet) K.sock_stream)
                before.os).0.addresses)
  Looked held host port before (fails e w) = owned w.events ≡ some held
  Looked held host port before (aborts w) = ⊥
  Looked held host port before (exhausted w) = ⊥

  -- `lookup_host` ends with the addresses of the IPv4 entries that the platform listed, in order, or
  -- with an error, and the list is freed whenever there is one.
  pub lookup_host-Looked :
      (held : List Resource) (host : Bytes) (port : ℕ) (w : World K.State)
      → owned w.events ≡ some held
      → Looked held host port w (lookup_host K host port w)
  unfolding lookup_host
  lookup_host-Looked held host port w h = elim (Bool-cases (has_nul host)) [
    | inl bad ↦ rw (Looked, lookup_host, cstr, bad) h
    | inr fine ↦ elim (Bool-cases (has_nul (decimal port))) [
      | inl bad ↦ rw (Looked, lookup_host, cstr, fine, bad) h
      | inr fine2 ↦ elim (Bool-cases (eq_ℤ r.ret (pos 0))) [
        | inr failed ↦
            rw (Looked, lookup_host, cstr, fine, fine2, failed)
              (owned-called K c w held h ∙ rw failed)
        | inl found ↦
            rw (Looked, lookup_host, cstr, fine, fine2, found)
              (
                owned-called K (Call.freeaddrinfo r.addresses) (called K c w)
                      (resource address_list (pos 0) ∷ held) (owned-called K c w held h ∙ rw found)
                    ∙ release_top address_list (pos 0) held,
                collect_addresses-resolved r.addresses [],
              )
      ]
    ]
  ]
    where
      c : Call
      c = Call.getaddrinfo host (decimal port) (pos K.af_inet) K.sock_stream

      r : Reply
      r = (K.respond c w.os).0
