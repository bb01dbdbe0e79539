-- ===== src/HttpServer/Connection/Serves.antt =====
-- crates/core/src/http.rs, `serve_connection`: every connection is answered as its request deserves
-- and shut down, and no error leaves it.
use ps_payload_rust.Base.{
  Bool-cases, inl, inr, ◌⊎◌, subst, ℕ, ◌+◌, ◌≤◌, ◌<◌, ◌^◌, ◌≡◌, refl, sym, [], ◌++◌, Option, none,
  some, Bytes, length, arith, append-nil,
}
use ps_payload_rust.Base.Int.{ℤ, eq_ℤ, minus_one}
use ps_payload_rust.Sys.{Sys, Call, Reply}
use ps_payload_rust.Ps5.Error.{Result, ok, err}
use ps_payload_rust.Ps5.Effect.{
  World, Outcome, returns, fails, aborts, exhausted, and_then, settle, Ensures, result_of,
}
use ps_payload_rust.Ps5.Frame.{Calls, world, called}
use ps_payload_rust.Ps5.Util.{cvt_i32}
use ps_payload_rust.Ps5.Net.Laws.{RecvCounts, SendCounts, FiniteSignals, sent}
use ps_payload_rust.Ps5.Net.Stream.{TcpStream, shutdown, write_all}
use ps_payload_rust.Ps5.Net.Stream.WriteAll.{Broke, Written, write_all_lem}
use ps_payload_rust.HttpServer.Request.{Request}
use ps_payload_rust.HttpServer.Response.{Response, encode}
use ps_payload_rust.HttpServer.Read.{Limits, read_request}
use ps_payload_rust.HttpServer.Read.Ends.{read_request-Ensures, RequestWithin}
use ps_payload_rust.HttpServer.Read.Frame.{IsRecv, read_request-Only, sent-Calls, patience-Calls}
use ps_payload_rust.HttpServer.Connection.{
  returning, bad_request, write_response, shut_both, answer, serve_result, serve_connection,
}

-- The bytes that a connection is owed for what reading its request gave.
unfoldable pub owed : (Request → Response) → Result (Option Request) → Bytes
owed handler (ok (some req)) = encode (handler req)
owed handler (ok none) = []
owed handler (err e) = encode bad_request

-- The connection got these bytes, or it broke, and got the first of them.
abbrev pub Sent : (K : Sys) → ℤ → Bytes → Bytes → World K.State → Type 0
Sent K fd before bytes w =
    (done : Bytes) × (rest : Bytes) × (sent fd w.events ≡ before ++ done)
    × (done ++ rest ≡ bytes)
    × ((rest ≡ []) ⊎ Broke K fd rest w)

-- The run returns, and its last call shut the connection down in both directions, behind these bytes.
abbrev pub Served : (K : Sys) → ℤ → Bytes → Bytes → Outcome K.State (Unit {0}) → Type 0
Served K fd before bytes (returns _ w) =
    (v : World K.State) × (w ≡ called K (Call.shutdown fd K.shut_rdwr) v) × Sent K fd before bytes v
Served K fd before bytes (fails _ _) = ⊥
Served K fd before bytes (aborts _) = ⊥
Served K fd before bytes (exhausted _) = ⊥

module _ (K : Sys) (fuel : ℕ) (s : TcpStream) where
  shut_both-Served :
      (before bytes : Bytes) (w : World K.State)
      → Sent K s.fd before bytes w
      → Served K s.fd before bytes (shut_both K fuel s w)
  unfolding shut_both shutdown cvt_i32
  shut_both-Served before bytes w h = elim (Bool-cases (eq_ℤ r.ret minus_one)) [
    | inl failed ↦ rw (Served, shut_both, failed) (w, refl, h)
    | inr fine ↦ rw (Served, shut_both, fine) (w, refl, h)
  ]
    where
      r : Reply
      r = (K.respond (Call.shutdown s.fd K.shut_rdwr) w.os).0

  after_write-Served :
      (before bytes : Bytes) (o : Outcome K.State (Unit {0}))
      → Written K s.fd before bytes o
      → Served K s.fd before bytes (and_then (settle o) (λ _. shut_both K fuel s))
  after_write-Served before bytes (returns a w) h =
      shut_both-Served before bytes w (bytes, [], h, append-nil bytes, inl refl)
  after_write-Served before bytes (fails e w) (done, rest, h, split, more, broke) =
      shut_both-Served before bytes w (done, rest, h, sym split, inr broke)
  after_write-Served before bytes (aborts w) h = absurd h
  after_write-Served before bytes (exhausted w) h = absurd h

module _ (K : Sys) (sends : SendCounts K) (signals : FiniteSignals K) (fuel : ℕ)
    (s : TcpStream) where
  answer-Served :
      (response : Response) (w : World K.State)
      → length (encode response) < 2 ^ 64
      → signals.patience w.os + length (encode response) ≤ fuel
      → Served K s.fd (sent s.fd w.events) (encode response) (answer K fuel s response w)
  unfolding answer write_response
  answer-Served response w small enough =
      after_write-Served K fuel s (sent s.fd w.events) (encode response)
        (write_all K fuel s (encode response) w)
        (write_all_lem K sends signals fuel s (encode response) w small enough)

  module _ (handler : Request → Response) where
    serve_result-Served :
        (r : Result (Option Request)) (w : World K.State)
        → length (owed handler r) < 2 ^ 64
        → signals.patience w.os + length (owed handler r) ≤ fuel
        → Served K s.fd
            (sent s.fd w.events)
            (owed handler r)
            (serve_result K fuel s (returning handler) r w)
    unfolding serve_result owed
    serve_result-Served (ok (some req)) w small enough = answer-Served (handler req) w small enough
    serve_result-Served (ok none) w small enough =
        shut_both-Served K fuel s (sent s.fd w.events) [] w
          ([], [], sym (append-nil _), refl, inl refl)
    serve_result-Served (err e) w small enough = answer-Served bad_request w small enough

    -- The result of reading decides what is owed, and it is served.
    abbrev Settled : Bytes → Outcome K.State (Option Request) → Type 0
    Settled before o =
        (r : Result (Option Request)) × (result_of o ≡ some r)
        × Served K s.fd before (owed handler r)
            (and_then (settle o) (serve_result K fuel s (returning handler)))

    after_read-Served :
        (limits : Limits) (w : World K.State) (o : Outcome K.State (Option Request))
        → ((r : Result (Option Request)) → length (owed handler r) < 2 ^ 64)
        → ((r : Result (Option Request)) → signals.patience w.os + length (owed handler r) ≤ fuel)
        → Ensures (RequestWithin limits) o
        → Calls K (IsRecv s.fd) w (world o)
        → Settled (sent s.fd w.events) o
    after_read-Served limits w (returns a v) small enough h calls = (
      ok a,
      refl,
      subst
          (λ b.
            Served K s.fd b (owed handler (ok a))
              (serve_result K fuel s (returning handler) (ok a) v))
          (sent-Calls K s.fd s.fd calls)
          (serve_result-Served (ok a) v (small (ok a))
            (omega (arith, enough (ok a), patience-Calls K (IsRecv s.fd) signals calls))),
    )
    after_read-Served limits w (fails e v) small enough h calls = (
      err e,
      refl,
      subst
          (λ b.
            Served K s.fd b (owed handler (err e))
              (serve_result K fuel s (returning handler) (err e) v))
          (sent-Calls K s.fd s.fd calls)
          (serve_result-Served (err e) v (small (err e))
            (omega (arith, enough (err e), patience-Calls K (IsRecv s.fd) signals calls))),
    )
    after_read-Served limits w (aborts v) small enough h calls = absurd h
    after_read-Served limits w (exhausted v) small enough h calls = absurd h

    -- On a platform whose `recv` and `send` count their bytes, with finitely many signals, a handler that
    -- makes no call and returns, answers shorter than 2^64 bytes and fuel for the two limits and for the
    -- signals to come and the longest answer, `serve_connection` ends without an error or a panic: it sends the bytes that are owed for the
    -- request, all of them, or the first of them if the last `send`, of the others, took nothing or failed
    -- and not by a signal, and then shuts the connection down.
    pub serve_connection-Served :
        RecvCounts K
        → (limits : Limits) (w : World K.State) → limits.max_header_bytes + 2 ≤ fuel
        → limits.max_body_bytes + 1 ≤ fuel
        → ((r : Result (Option Request)) → length (owed handler r) < 2 ^ 64)
        → ((r : Result (Option Request)) → signals.patience w.os + length (owed handler r) ≤ fuel)
        → (r : Result (Option Request)) × (result_of (read_request K fuel s limits w) ≡ some r)
          × Served K s.fd
              (sent s.fd w.events)
              (owed handler r)
              (serve_connection K fuel s (returning handler) limits w)
    unfolding serve_connection
    serve_connection-Served recvs limits w head_fuel body_fuel small enough =
        after_read-Served limits w (read_request K fuel s limits w) small enough
          (read_request-Ensures K recvs fuel s limits w head_fuel body_fuel)
          (read_request-Only K s fuel limits w)
