-- ===== src/HttpServer/Connection/Alone.antt =====
-- crates/core/src/http.rs, `serve_connection`: it touches its own socket alone.
use ps_payload_rust.Base.{
  ℕ, zero, suc, ◌≡◌, ◌∙◌, refl, [], ◌∷◌, Bytes, length, ltb, if◌then◌else◌, drop, Option, none,
  some, List,
}
use ps_payload_rust.Base.Int.{ℤ, pos, eq_ℤ, minus_one, to_unsigned}
use ps_payload_rust.Sys.{Sys, Call}
use ps_payload_rust.Ps5.Error.{Error, Result, ok, err}
use ps_payload_rust.Ps5.Effect.{World, M, pure, panic, fail, last_os, settle}
use ps_payload_rust.Ps5.Frame.{
  Calls, here, next, Only, Calls-and_then, Calls-settle, Calls-trans, Only-if, called,
}
use ps_payload_rust.Ps5.Util.{cvt_i32, cvt_ssize}
use ps_payload_rust.Ps5.Ownership.{Resource, owned}
use ps_payload_rust.Ps5.Net.Stream.{
  TcpStream, shutdown_code, is_interrupted, write, write_all, shutdown, both,
}
use ps_payload_rust.HttpServer.Request.{Request}
use ps_payload_rust.HttpServer.Response.{Response, encode}
use ps_payload_rust.HttpServer.Read.{Limits, read_request}
use ps_payload_rust.HttpServer.Read.Frame.{IsRecv, read_request-Only}
use ps_payload_rust.HttpServer.Connection.{
  returning, bad_request, write_response, shut_both, answer, serve_result, serve_connection,
}

-- A call that receives on this descriptor, sends on it or shuts it down.
abbrev pub IsServing : ℤ → Call → Type 0
IsServing fd (Call.recv fd' len flags) = fd' ≡ fd
IsServing fd (Call.send fd' buf flags) = fd' ≡ fd
IsServing fd (Call.shutdown fd' how) = fd' ≡ fd
IsServing fd c = ⊥

unchanged : (o : Option (List Resource)) → elim o [ none ↦ none | some held ↦ some held ] ≡ o
unchanged none = refl
unchanged (some held) = refl

-- Such calls hand out nothing and take back nothing.
pub owned-Calls :
    (K : Sys) (fd : ℤ) {w v : World K.State}
    → Calls K (IsServing fd) w v
    → owned v.events ≡ owned w.events
owned-Calls K fd here = refl
owned-Calls K fd (next (Call.recv fd' len flags) p h) = unchanged _ ∙ owned-Calls K fd h
owned-Calls K fd (next (Call.send fd' buf flags) p h) = unchanged _ ∙ owned-Calls K fd h
owned-Calls K fd (next (Call.shutdown fd' how) p h) = unchanged _ ∙ owned-Calls K fd h
owned-Calls K fd (next c p h) = absurd p

receives : (fd : ℤ) (c : Call) → IsRecv fd c → IsServing fd c
receives fd (Call.recv fd' len flags) p = p
receives fd c p = absurd p

module _ (K : Sys) (s : TcpStream) where
  abbrev Serving : {A : Type 0} → M K.State A → Type 0
  Serving = Only K (IsServing s.fd)

  Calls-weaken : {w v : World K.State} → Calls K (IsRecv s.fd) w v → Calls K (IsServing s.fd) w v
  Calls-weaken here = here
  Calls-weaken (next c p h) = next c (receives s.fd c p) (Calls-weaken h)

  write-Serving : (buf : Bytes) → Serving (write K s buf)
  unfolding write cvt_ssize
  write-Serving buf w =
      Calls-trans K (IsServing s.fd) (next (Call.send s.fd buf (pos 0)) refl here) (
        Only-if K (IsServing s.fd) (eq_ℤ r minus_one) (last_os K) (pure (to_unsigned 64 r))
          (λ v. here) (λ v. here) (called K (Call.send s.fd buf (pos 0)) w))
    where
      r : ℤ
      r = (K.respond (Call.send s.fd buf (pos 0)) w.os).0.ret

  -- A round of `write_all`, by what `write` gave.
  round-Serving :
      {A : Type 0} (none_taken : M K.State A) (taken : ℕ → M K.State A)
      (failed : Error → M K.State A)
      → Serving none_taken
      → ((n : ℕ) → Serving (taken n))
      → ((e : Error) → Serving (failed e))
      → (r : Result ℕ)
      → Serving (elim r [ ok zero ↦ none_taken | ok (suc n) ↦ taken n | err e ↦ failed e ])
  round-Serving none_taken taken failed h k l (ok zero) = h
  round-Serving none_taken taken failed h k l (ok (suc n)) = k n
  round-Serving none_taken taken failed h k l (err e) = l e

  write_all-Serving : (fuel : ℕ) (buf : Bytes) → Serving (write_all K fuel s buf)
  unfolding write_all
  write_all-Serving fuel [] w = here
  write_all-Serving zero (b ∷ bs) w = here
  write_all-Serving (suc fuel) (b ∷ bs) w =
      Calls-and_then K (IsServing s.fd) w (settle (write K s (b ∷ bs) w)) _
        (Calls-settle K (IsServing s.fd) w (write K s (b ∷ bs) w) (write-Serving (b ∷ bs) w))
        (round-Serving (last_os K)
          (λ n.
            let rest = write_all K fuel s (drop (suc n) (b ∷ bs)) in
            if ltb (length (b ∷ bs)) (suc n) then panic else rest)
          (λ e.
            let again = write_all K fuel s (b ∷ bs) in if is_interrupted K e then again else fail e)
          (λ v. here)
          (λ n.
            Only-if K (IsServing s.fd) (ltb (length (b ∷ bs)) (suc n)) panic
              (write_all K fuel s (drop (suc n) (b ∷ bs))) (λ u. here)
              (write_all-Serving fuel (drop (suc n) (b ∷ bs))))
          (λ e.
            Only-if K (IsServing s.fd) (is_interrupted K e) (write_all K fuel s (b ∷ bs)) (fail e)
              (write_all-Serving fuel (b ∷ bs)) (λ u. here)))

  cvt_i32-Serving : (r : ℤ) → Serving (cvt_i32 K r)
  unfolding cvt_i32
  cvt_i32-Serving r =
      Only-if K (IsServing s.fd) (eq_ℤ r minus_one) (last_os K) (pure r) (λ w. here) (λ w. here)

  shut_both-Serving : (fuel : ℕ) → Serving (shut_both K fuel s)
  unfolding shut_both shutdown
  shut_both-Serving fuel w =
      Calls-and_then K (IsServing s.fd) w (settle (shutdown K s both w)) (λ _. pure tt)
        (Calls-settle K (IsServing s.fd) w (shutdown K s both w) (
          Calls-trans K (IsServing s.fd) (next c refl here) (
            Calls-and_then K (IsServing s.fd) (called K c w)
              (cvt_i32 K (K.respond c w.os).0.ret (called K c w)) (λ _. pure tt)
              (cvt_i32-Serving (K.respond c w.os).0.ret (called K c w)) (λ _ v. here))))
        (λ _ v. here)
    where
      c : Call
      c = Call.shutdown s.fd (shutdown_code K both)

  answer-Serving : (fuel : ℕ) (response : Response) → Serving (answer K fuel s response)
  unfolding answer write_response
  answer-Serving fuel response w =
      Calls-and_then K (IsServing s.fd) w (settle (write_all K fuel s (encode response) w))
        (λ _. shut_both K fuel s)
        (Calls-settle K (IsServing s.fd) w (write_all K fuel s (encode response) w)
          (write_all-Serving fuel (encode response) w))
        (λ _. shut_both-Serving fuel)

  serve_result-Serving :
      (fuel : ℕ) (handler : Request → Response) (r : Result (Option Request))
      → Serving (serve_result K fuel s (returning handler) r)
  unfolding serve_result
  serve_result-Serving fuel handler (ok (some req)) = answer-Serving fuel (handler req)
  serve_result-Serving fuel handler (ok none) = shut_both-Serving fuel
  serve_result-Serving fuel handler (err e) = answer-Serving fuel bad_request

  -- With a handler that makes no call and returns, the only foreign calls of `serve_connection` receive
  -- on its own socket, send on it and shut it down.
  pub serve_connection-Only :
      (fuel : ℕ) (handler : Request → Response) (limits : Limits)
      → Serving (serve_connection K fuel s (returning handler) limits)
  unfolding serve_connection
  serve_connection-Only fuel handler limits w =
      Calls-and_then K (IsServing s.fd) w (settle (read_request K fuel s limits w))
        (serve_result K fuel s (returning handler))
        (Calls-settle K (IsServing s.fd) w (read_request K fuel s limits w)
          (Calls-weaken (read_request-Only K s fuel limits w)))
        (serve_result-Serving fuel handler)
