-- ===== src/HttpServer/Server/Closes.antt =====
-- crates/core/src/http.rs, the closure of `Server::serve`: the thread of a connection closes it.
use ps_payload_rust.Base.{
  ℕ, ◌+◌, ◌≤◌, ◌<◌, ◌^◌, ◌≡◌, ◌∙◌, ap, List, ◌∷◌, Option, some, Bytes, length,
}
use ps_payload_rust.Base.Int.{ℤ}
use ps_payload_rust.Sys.{Sys, Call}
use ps_payload_rust.Ps5.Error.{Result}
use ps_payload_rust.Ps5.Effect.{
  World, Outcome, returns, fails, aborts, exhausted, finally_outcome, result_of,
}
use ps_payload_rust.Ps5.Frame.{Calls, world, called}
use ps_payload_rust.Ps5.Ownership.{Resource, resource, descriptor, owned, owned-called, release_top}
use ps_payload_rust.Ps5.Net.Laws.{RecvCounts, SendCounts, FiniteSignals, sent}
use ps_payload_rust.Ps5.Net.Stream.{TcpStream, drop_stream}
use ps_payload_rust.HttpServer.Request.{Request}
use ps_payload_rust.HttpServer.Response.{Response}
use ps_payload_rust.HttpServer.Read.{read_request}
use ps_payload_rust.HttpServer.Connection.{returning, serve_connection}
use ps_payload_rust.HttpServer.Connection.Serves.{owed, Sent, Served, serve_connection-Served}
use ps_payload_rust.HttpServer.Connection.Alone.{IsServing, owned-Calls, serve_connection-Only}
use ps_payload_rust.HttpServer.Server.{Server, connection_thread}

-- The run returns, holding what is named; its last two calls shut the connection down and close it,
-- behind these bytes.
abbrev pub Closed :
    (K : Sys) → ℤ → Bytes → Bytes → List Resource → Outcome K.State (Unit {0}) → Type 0
Closed K fd before bytes held (returns _ w) =
    (v : World K.State) × (w ≡ called K (Call.close fd) (called K (Call.shutdown fd K.shut_rdwr) v))
    × Sent K fd before bytes v
    × (owned w.events ≡ some held)
Closed K fd before bytes held (fails e w) = ⊥
Closed K fd before bytes held (aborts w) = ⊥
Closed K fd before bytes held (exhausted w) = ⊥

module _ (K : Sys) (held : List Resource) (s : TcpStream) where
  dropped-Closed :
      (before bytes : Bytes) (w : World K.State) (o : Outcome K.State (Unit {0}))
      → owned w.events ≡ some (resource descriptor s.fd ∷ held)
      → Calls K (IsServing s.fd) w (world o)
      → Served K s.fd before bytes o
      → Closed K s.fd before bytes held (finally_outcome o (drop_stream K s))
  unfolding drop_stream
  dropped-Closed before bytes w (returns a v) own calls (u, last, sending) = (
    u,
    ap (called K (Call.close s.fd)) last,
    sending,
    owned-called K (Call.close s.fd) v (resource descriptor s.fd ∷ held)
          (owned-Calls K s.fd calls ∙ own)
        ∙ release_top descriptor s.fd held,
  )
  dropped-Closed before bytes w (fails e v) own calls h = absurd h
  dropped-Closed before bytes w (aborts v) own calls h = absurd h
  dropped-Closed before bytes w (exhausted v) own calls h = absurd h

  -- On a platform whose `recv` and `send` count their bytes, with finitely many signals, a handler that
  -- makes no call and returns, answers shorter than 2^64 bytes and fuel for the two limits and for the
  -- signals to come and the longest answer, the thread of a connection that took over the descriptor of the stream ends without an error
  -- or a panic: it sends what is owed for the result of reading the request, all of it, or the first bytes
  -- of it if the last `send`, of the others, took nothing or failed and not by a signal, and at its end
  -- shuts the connection down and closes the descriptor, which nobody holds any more; nothing else was
  -- handed out or taken back.
  pub connection_thread-Closed :
      SendCounts K
      → RecvCounts K
      → (signals : FiniteSignals K) (fuel : ℕ) (server : Server) (handler : Request → Response)
        (w : World K.State)
      → server.limits.max_header_bytes + 2 ≤ fuel
      → server.limits.max_body_bytes + 1 ≤ fuel
      → ((r : Result (Option Request)) → length (owed handler r) < 2 ^ 64)
      → ((r : Result (Option Request)) → signals.patience w.os + length (owed handler r) ≤ fuel)
      → owned w.events ≡ some (resource descriptor s.fd ∷ held)
      → (r : Result (Option Request)) × (result_of (read_request K fuel s server.limits w) ≡ some r)
        × Closed K s.fd
            (sent s.fd w.events)
            (owed handler r)
            held
            (connection_thread K fuel server (returning handler) s w)
  unfolding connection_thread
  connection_thread-Closed sends recvs signals fuel server handler w head body small enough own =
      let (r, read, served) =
        serve_connection-Served K sends signals fuel s handler recvs server.limits w head body small
          enough in
      (
        r,
        read,
        dropped-Closed (sent s.fd w.events) (owed handler r) w
            (serve_connection K fuel s (returning handler) server.limits w) own
            (serve_connection-Only K s fuel handler server.limits w) served,
      )
