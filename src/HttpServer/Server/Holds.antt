-- ===== src/HttpServer/Server/Holds.antt =====
-- crates/core/src/http.rs, `serve`: what it holds while it runs and when it ends.
use ps_payload_rust.Base.{ℕ, zero, suc, ◌≡◌, List, ◌∷◌, some, Bool-cases, inl, inr}
use ps_payload_rust.Base.Int.{ℤ}
use ps_payload_rust.Sys.{Sys}
use ps_payload_rust.Ps5.Effect.{
  World, Outcome, returns, fails, aborts, exhausted, M, and_then, settle, fail, finally_outcome,
}
use ps_payload_rust.Ps5.Ownership.{Resource, resource, descriptor, owned, Owns, close_fd-Owns}
use ps_payload_rust.Ps5.Net.Address.{SocketAddr}
use ps_payload_rust.Ps5.Net.Fd.{close_fd}
use ps_payload_rust.Ps5.Net.Stream.{TcpStream, drop_stream, is_interrupted}
use ps_payload_rust.Ps5.Net.Listener.{TcpListener, bind, accept, drop_listener}
use ps_payload_rust.Ps5.Net.Listener.Opened.{bind-Owns, accept-Owns}
use ps_payload_rust.Ps5.Thread.Create.{JoinHandle, spawn}
use ps_payload_rust.Ps5.Thread.HandOver.{handle_holds, spawn-Owns, drop_handle-Owns}
use ps_payload_rust.HttpServer.Server.{
  Server, thread_builder, start_thread, drop_spawned, accept_round, accept_loop, serve,
}

-- The loop never returns; it holds `idle` between two rounds and `final` when it fails.
abbrev pub Loops : {S A : Type 0} → List Resource → List Resource → Outcome S A → Type 0
Loops idle final (returns a w) = ⊥
Loops idle final (fails e w) = owned w.events ≡ some final
Loops idle final (aborts w) = ⊥
Loops idle final (exhausted w) = owned w.events ≡ some idle

-- As `Loops`, with nothing but the listening socket held between two rounds.
abbrev pub Serves : {S A : Type 0} → List Resource → Outcome S A → Type 0
Serves held (returns a w) = ⊥
Serves held (fails e w) = owned w.events ≡ some held
Serves held (aborts w) = ⊥
Serves held (exhausted w) = (fd : ℤ) × (owned w.events ≡ some (resource descriptor fd ∷ held))

module _ (K : Sys) where
  -- The stream is handed over or closed, and the thread detached, whatever happens.
  start_thread-Owns :
      (held : List Resource) (s : Server) (stream : TcpStream) (w : World K.State)
      → owned w.events ≡ some (resource descriptor stream.fd ∷ held)
      → Owns held (λ _. held) (start_thread K s stream w)
  unfolding start_thread
  start_thread-Owns held s stream w h =
      ended (spawn K (thread_builder s) stream.fd (drop_stream K stream) w) (
        spawn-Owns K held (thread_builder s) stream.fd (drop_stream K stream) w
          (λ v own. unfold drop_stream in close_fd-Owns K held stream.fd v own) h)
    where
      ended :
          (o : Outcome K.State JoinHandle)
          → Owns held (handle_holds held) o
          → Owns held (λ _. held) (and_then (settle o) (drop_spawned K))
      ended (returns a v) own = drop_handle-Owns K held a v own
      ended (fails e v) own = own
      ended (aborts v) own = own
      ended (exhausted v) own = absurd own

  -- A round on what `accept` gave, if the rest of the loop keeps to it.
  accept_round-Loops :
      (held : List Resource) (s : Server) (again : M K.State (Unit {0}))
      (o : Outcome K.State (TcpStream × SocketAddr))
      → ((v : World K.State) → owned v.events ≡ some held → Loops held held (again v))
      → Owns held (λ (stream, _). resource descriptor (TcpStream.fd stream) ∷ held) o
      → Loops held held (and_then (settle o) (accept_round K s again))
  accept_round-Loops held s again (returns (stream, peer) v) next own =
      resume (start_thread K s stream v) (start_thread-Owns held s stream v own)
    where
      resume :
          (o : Outcome K.State (Unit {0}))
          → Owns held (λ _. held) o
          → Loops held held (and_then o (λ _. again))
      resume (returns a u) own2 = next u own2
      resume (fails e u) own2 = own2
      resume (aborts u) own2 = own2
      resume (exhausted u) own2 = absurd own2
  accept_round-Loops held s again (fails e v) next own = elim (Bool-cases (is_interrupted K e)) [
    | inl signal ↦ rw (Loops, signal) (next v own)
    | inr broken ↦ rw (Loops, broken) own
  ]
  accept_round-Loops held s again (aborts v) next own = own
  accept_round-Loops held s again (exhausted v) next own = absurd own

  accept_loop-Loops :
      (held : List Resource) (fuel : ℕ) (s : Server) (l : TcpListener) (w : World K.State)
      → owned w.events ≡ some held
      → Loops held held (accept_loop K fuel s l w)
  unfolding accept_loop
  accept_loop-Loops held zero s l w h = h
  accept_loop-Loops held (suc fuel) s l w h =
      accept_round-Loops held s (accept_loop K fuel s l) (accept K l w)
        (λ v own. accept_loop-Loops held fuel s l v own) (accept-Owns K held l w h)

  -- The listener is dropped when the loop fails.
  listener_dropped :
      (held : List Resource) (l : TcpListener) (o : Outcome K.State (Unit {0}))
      → Loops (resource descriptor l.fd ∷ held) (resource descriptor l.fd ∷ held) o
      → Serves held (finally_outcome o (drop_listener K l))
  unfolding drop_listener
  listener_dropped held l (returns a v) h = absurd h
  listener_dropped held l (fails e v) h = closed (close_fd K l.fd v) (close_fd-Owns K held l.fd v h)
    where
      closed :
          (o : Outcome K.State (Unit {0}))
          → Owns held (λ _. held) o
          → Serves {A = Unit {0}} held (and_then o (λ _. fail e))
      closed (returns a u) own = own
      closed (fails e2 u) own = own
      closed (aborts u) own = own
      closed (exhausted u) own = absurd own
  listener_dropped held l (aborts v) h = h
  listener_dropped held l (exhausted v) h = (l.fd, h)

  bound-Serves :
      (held : List Resource) (fuel : ℕ) (s : Server) (o : Outcome K.State TcpListener)
      → Owns held (λ l. resource descriptor (TcpListener.fd l) ∷ held) o
      → Serves held
          (and_then o (λ l v. finally_outcome (accept_loop K fuel s l v) (drop_listener K l)))
  bound-Serves held fuel s (returns l v) own =
      listener_dropped held l (accept_loop K fuel s l v)
        (accept_loop-Loops (resource descriptor l.fd ∷ held) fuel s l v own)
  bound-Serves held fuel s (fails e v) own = own
  bound-Serves held fuel s (aborts v) own = own
  bound-Serves held fuel s (exhausted v) own = absurd own

  -- `serve` never returns and never panics, whatever the platform answers. After any number of
  -- rounds it holds, besides what was held before, the socket of the listener alone: every accepted
  -- stream was handed over to a thread, which was detached, or closed. When it fails it holds nothing
  -- more.
  pub serve-Serves :
      (held : List Resource) (fuel : ℕ) (s : Server) (addr : SocketAddr) (w : World K.State)
      → owned w.events ≡ some held
      → Serves held (serve K fuel s addr w)
  unfolding serve
  serve-Serves held fuel s addr w h =
      bound-Serves held fuel s (bind K addr w) (bind-Owns K held addr w h)
