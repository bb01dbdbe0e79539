-- ===== src/HttpServer/Connection/Answers.antt =====
-- crates/core/src/http.rs, `serve_connection`: the answer is that to the input as a whole.
use mathlib.Core.Option.{some-injective}
use ps_payload_rust.Base.{
  ℕ, ◌+◌, ◌≤◌, ◌<◌, ◌^◌, ◌≡◌, ◌∙◌, sym, subst, List, ◌++◌, Option, some, Bytes, length,
}
use ps_payload_rust.Sys.{Sys}
use ps_payload_rust.Ps5.Error.{Result, ok}
use ps_payload_rust.Ps5.Effect.{World, result_of}
use ps_payload_rust.Ps5.Net.Laws.{RecvCounts, SendCounts, FiniteSignals, sent}
use ps_payload_rust.Ps5.Net.Stream.{TcpStream}
use ps_payload_rust.HttpServer.Request.{Request}
use ps_payload_rust.HttpServer.Response.{Response, encode}
use ps_payload_rust.HttpServer.Head.{Parsed, marker, content_length}
use ps_payload_rust.HttpServer.Head.Print.{print_head, HeadIsPlain}
use ps_payload_rust.HttpServer.Read.{Limits, read_request}
use ps_payload_rust.HttpServer.Read.Delivered.{joined, Delivers}
use ps_payload_rust.HttpServer.Read.RoundTrip.{request, read_request-print}
use ps_payload_rust.HttpServer.Read.Whole.{parse_input, IsClear, read_request-parse_input}
use ps_payload_rust.HttpServer.Connection.{returning, serve_connection}
use ps_payload_rust.HttpServer.Connection.Serves.{owed, Served, serve_connection-Served}

module _ (K : Sys) (recvs : RecvCounts K) (sends : SendCounts K) (signals : FiniteSignals K)
    (fuel : ℕ) (s : TcpStream) (handler : Request → Response) (limits : Limits)
    (w : World K.State) where
  -- Fuel for the two limits, for the signals to come and for every answer, and answers that a buffer
  -- can hold.
  pub record Suffices : Type 0 where
    pub head : limits.max_header_bytes + 2 ≤ fuel
    pub body : limits.max_body_bytes + 1 ≤ fuel
    pub small : (r : Result (Option Request)) → length (owed handler r) < 2 ^ 64
    pub answers :
        (r : Result (Option Request)) → signals.patience w.os + length (owed handler r) ≤ fuel

  serve_connection-result :
      Suffices
      → (r : Result (Option Request)) → result_of (read_request K fuel s limits w) ≡ some r
      → Served K s.fd
          (sent s.fd w.events)
          (owed handler r)
          (serve_connection K fuel s (returning handler) limits w)
  serve_connection-result enough r e =
      let served =
        serve_connection-Served K sends signals fuel s handler recvs limits w enough.head
          enough.body enough.small enough.answers in
      subst
        (λ t.
          Served K s.fd (sent s.fd w.events) (owed handler t)
            (serve_connection K fuel s (returning handler) limits w))
        (some-injective _ _ (sym served.1 ∙ e)) served.2

  -- On a platform whose `recv` and `send` count their bytes, with finitely many signals and a handler
  -- that makes no call and returns, on a socket
  -- that delivers an input in pieces, of which the head, if one is complete, ends within the limit or a
  -- whole chunk beyond it, and with enough fuel, `serve_connection` ends without an error or a panic: it
  -- sends the answer that the input as a whole is owed, all of it, or the first bytes of it if the last
  -- `send`, of the others, took nothing or failed and not by a signal, and then shuts the connection down.
  pub serve_connection-parse_input :
      Suffices
      → (pieces : List Bytes) → Delivers K s.fd pieces w.os
      → IsClear limits (joined pieces)
      → length pieces < fuel
      → Served K s.fd
          (sent s.fd w.events)
          (owed handler (parse_input limits (joined pieces)))
          (serve_connection K fuel s (returning handler) limits w)
  serve_connection-parse_input enough pieces d clear more =
      serve_connection-result enough (parse_input limits (joined pieces))
        (read_request-parse_input K s limits pieces fuel w d clear more)

  -- On a platform whose `recv` and `send` count their bytes, with finitely many signals, a handler that
  -- makes no call and returns, and enough fuel, a client that sends a request with plain fields, with a `Content-Length` that tells the length
  -- of its body and both parts within the limits, in fewer pieces than the fuel and with anything behind
  -- it, gets the whole encoding of the response that the handler gives for this request, or the first
  -- bytes of it if the last `send`, of the others, took nothing or failed and not by a signal, and then the
  -- shutdown; `serve_connection` ends without an error or a panic.
  pub serve_connection-print :
      Suffices
      → (p : Parsed) (body extra : Bytes) (pieces : List Bytes) → HeadIsPlain p
      → content_length p.headers ≡ length body
      → length body ≤ limits.max_body_bytes
      → length (print_head p) + 3 ≤ limits.max_header_bytes
      → joined pieces ≡ print_head p ++ (marker ++ (body ++ extra))
      → Delivers K s.fd pieces w.os
      → length pieces < fuel
      → Served K s.fd
          (sent s.fd w.events)
          (encode (handler (request p body)))
          (serve_connection K fuel s (returning handler) limits w)
  unfolding owed
  serve_connection-print enough p body extra pieces plain announced small short input d more =
      serve_connection-result enough (ok (some (request p body))) (
        read_request-print K s limits p body extra pieces fuel w plain announced small short input d
          more)
