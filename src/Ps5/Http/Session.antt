-- ===== src/Ps5/Http/Session.antt =====
-- crates/ps5/src/http.rs: the life of a client, from `Client::new` over its requests to its drop.
use ps_payload_rust.Base.{ℕ, ◌<◌, ◌≡◌, List, [], ◌∷◌, some, Bytes, arith}
use ps_payload_rust.Base.Int.{ℤ}
use ps_payload_rust.Sys.{Sys}
use ps_payload_rust.Ps5.Effect.{
  World, Outcome, returns, fails, aborts, exhausted, M, and_then, settle, attempt, drop_after,
  finally_outcome, fail, pure, ◌>>=◌,
}
use ps_payload_rust.Ps5.Frame.{Calls, world}
use ps_payload_rust.Ps5.Ownership.{Resource, owned, Owns, Owns-and_then}
use ps_payload_rust.Ps5.Http.{Client, ClientResponse, new_client, drop_client, client_request}
use ps_payload_rust.Ps5.Http.Body.{ReadCounts, FiniteBodies}
use ps_payload_rust.Ps5.Http.Lifecycle.{handles, new_client-Owns, drop_client-Owns}
use ps_payload_rust.Ps5.Http.Requests.{Answered, client_request-Requested}
use ps_payload_rust.Ps5.Http.Progress.{Any, left-Calls, new_client-Plain, client_request-Plain}

-- The arguments of a request.
pub record Ask : Type 0 where
  pub method : Bytes
  pub url : Bytes
  pub body : Bytes

module _ (K : Sys) (fuel : ℕ) where
  -- The requests in turn, each whatever became of those before it.
  abbrev pub ask_all : Client → List Ask → M K.State (Unit {0})
  ask_all c [] = pure tt
  ask_all c (a ∷ asks) = do
    _ ← attempt (client_request K fuel c a.method a.url a.body)
    ask_all c asks

  -- A client is made, asks, and is dropped.
  abbrev pub session : Bytes → List Ask → M K.State (Unit {0})
  session user_agent asks = do
    c ← new_client K user_agent
    drop_after (drop_client K c) (ask_all c asks)

module _ (K : Sys) (counts : ReadCounts K) (bodies : FiniteBodies K) (fuel : ℕ)
    (held : List Resource) where
  open bodies use {left}

  dropped :
      (c : Client) (o : Outcome K.State (Unit {0}))
      → Owns (handles held c) (λ _. handles held c) o
      → Owns held (λ _. held) (finally_outcome o (drop_client K c))
  dropped c (returns a w) own =
      Owns-and_then held (λ _. held) (λ _. held) (drop_client K c w) (λ _. pure a)
        (drop_client-Owns K held c w own) (λ _ v own1. own1)
  dropped c (fails e w) own =
      Owns-and_then held (λ _. held) (λ _. held) (drop_client K c w) (λ _. fail e)
        (drop_client-Owns K held c w own) (λ _ v own1. own1)
  dropped c (aborts w) h = h
  dropped c (exhausted w) h = h

  after_request :
      (id : ℤ) (seen : Bytes) (inner : List Resource) (o : Outcome K.State ClientResponse)
      (f : M K.State (Unit {0}))
      → Answered id seen inner o
      → left (world o).os < fuel
      → ((w : World K.State)
          → left w.os < fuel
          → owned w.events ≡ some inner
          → Owns inner (λ _. inner) (f w))
      → Owns inner (λ _. inner) (and_then (settle o) (λ _. f))
  after_request id seen inner (returns resp w) f (got, own) enough next = next w enough own
  after_request id seen inner (fails e w) f own enough next = next w enough own
  after_request id seen inner (aborts w) f h enough next = absurd h
  after_request id seen inner (exhausted w) f h enough next = absurd h

  ask_all-Owns :
      (c : Client) (asks : List Ask) (inner : List Resource) (w : World K.State)
      → left w.os < fuel
      → owned w.events ≡ some inner
      → Owns inner (λ _. inner) (ask_all K fuel c asks w)
  ask_all-Owns c [] inner w enough own = own
  ask_all-Owns c (a ∷ asks) inner w enough own =
      after_request _ _ inner (client_request K fuel c a.method a.url a.body w)
        (ask_all K fuel c asks)
        (client_request-Requested K counts bodies fuel c a.method a.url a.body inner w enough own)
        (omega (
          arith,
          enough,
          left-Calls K bodies (client_request-Plain K fuel c a.method a.url a.body w),
        ))
        (λ v more own1. ask_all-Owns c asks inner v more own1)

  after_new :
      (before : World K.State) (asks : List Ask) (o : Outcome K.State Client)
      → Owns held (handles held) o
      → Calls K Any before (world o)
      → left before.os < fuel
      → Owns held
          (λ _. held)
          (and_then o (λ c. drop_after (drop_client K c) (ask_all K fuel c asks)))
  after_new before asks (returns c w) own calls enough = dropped c (ask_all K fuel c asks w) (
      ask_all-Owns c asks (handles held c) w (omega (arith, enough, left-Calls K bodies calls)) own)
  after_new before asks (fails e w) own calls enough = own
  after_new before asks (aborts w) h calls enough = h
  after_new before asks (exhausted w) h calls enough = h

  -- On a platform that counts what it reads and whose bodies end, with more fuel than the bodies have
  -- reads, a client that is made, asks any requests one after the other, whatever becomes of each, and is
  -- dropped leaves nothing behind, and nothing panics: when `Client::new` fails, what it had created is
  -- released; else every request is deleted, and the four handles of the client go with it.
  pub session-Owns :
      (user_agent : Bytes) (asks : List Ask) (w : World K.State)
      → left w.os < fuel
      → owned w.events ≡ some held
      → Owns held (λ _. held) (session K fuel user_agent asks w)
  session-Owns user_agent asks w enough own =
      after_new w asks (new_client K user_agent w) (new_client-Owns K held user_agent w own)
        (new_client-Plain K user_agent w) enough
