-- ===== src/Ps5/Http/Progress.antt =====
-- crates/ps5/src/http.rs: what `Client::new` and `Client::request` do to the world is calls alone, so
-- that the bodies still to come get no longer.
use ps_payload_rust.Base.{
  ℕ, zero, suc, codes, ◌≤◌, ◌++◌, [], Bytes, length, take, ltb, Bool-cases, inl, inr, arith,
}
use ps_payload_rust.Base.Int.{ℤ, pos, negsuc, eq_ℤ, is_negative, to_unsigned}
use ps_payload_rust.Sys.{Sys, Call}
use ps_payload_rust.Ps5.Error.{Result, ok, err}
use ps_payload_rust.Ps5.Effect.{
  World, Outcome, and_then, M, pure, panic, slice_to, settle, call, ◌>>=◌,
}
use ps_payload_rust.Ps5.Frame.{
  Calls, here, next, Only, Calls-and_then, Calls-settle, Calls-trans, Only-if, called, world,
}
use ps_payload_rust.Ps5.Util.{cstr, has_nul}
use ps_payload_rust.Ps5.Net.Fd.{fill}
use ps_payload_rust.Ps5.Http.{
  fail_sce, Client, ClientResponse, payload, zeroed_page, drain_round, drain, read_response,
  run_request, request_c, request_result, client_request, create_template, init_http2, init_ssl,
  create_pool, new_client,
}
use ps_payload_rust.Ps5.Http.Body.{FiniteBodies}

abbrev pub Any : Call → Type 0
Any c = Unit {0}

pub left-Calls :
    (K : Sys) (bodies : FiniteBodies K) {w v : World K.State}
    → Calls K Any w v
    → bodies.left v.os ≤ bodies.left w.os
left-Calls K bodies here = omega arith
left-Calls K bodies (next {v} c p h) = omega (arith, bodies.steady c v.os, left-Calls K bodies h)

module _ (K : Sys) where
  abbrev Plain : {A : Type 0} → M K.State A → Type 0
  Plain = Only K Any

  one : (c : Call) (w : World K.State) → Calls K Any w (called K c w)
  one c w = next c tt here

  create_template-Plain :
      (agent : Bytes) (net ssl lib : ℤ) → Plain (create_template K agent net ssl lib)
  unfolding create_template
  create_template-Plain agent net ssl lib w =
      let c = Call.sce_http2_create_template lib agent (pos 3) (pos 1) in
      elim (Bool-cases (is_negative (K.respond c w.os).0.ret)) [
        | inl bad ↦
            rw (world, create_template, bad)
              (next (Call.sce_net_pool_destroy net) tt
                (next (Call.sce_ssl_term ssl) tt (next (Call.sce_http2_term lib) tt (one c w))))
        | inr good ↦ rw (world, create_template, good) (one c w)
      ]

  init_http2-Plain : (agent : Bytes) (net ssl : ℤ) → Plain (init_http2 K agent net ssl)
  unfolding init_http2
  init_http2-Plain agent net ssl w =
      let c = Call.sce_http2_init net ssl 262_144 (pos 1) in
      elim (Bool-cases (is_negative (K.respond c w.os).0.ret)) [
        | inl bad ↦
            rw (world, init_http2, bad)
              (next (Call.sce_net_pool_destroy net) tt (next (Call.sce_ssl_term ssl) tt (one c w)))
        | inr good ↦
            rw (world, init_http2, good)
              (Calls-trans K Any (one c w)
                (create_template-Plain agent net ssl (K.respond c w.os).0.ret (called K c w)))
      ]

  init_ssl-Plain : (agent : Bytes) (net : ℤ) → Plain (init_ssl K agent net)
  unfolding init_ssl
  init_ssl-Plain agent net w =
      let c = Call.sce_ssl_init 262_144 in
      elim (Bool-cases (is_negative (K.respond c w.os).0.ret)) [
        | inl bad ↦ rw (world, init_ssl, bad) (next (Call.sce_net_pool_destroy net) tt (one c w))
        | inr good ↦
            rw (world, init_ssl, good)
              (Calls-trans K Any (one c w)
                (init_http2-Plain agent net (K.respond c w.os).0.ret (called K c w)))
      ]

  create_pool-Plain : (agent : Bytes) → Plain (create_pool K agent)
  unfolding create_pool
  create_pool-Plain agent w =
      let c = Call.sce_net_pool_create (codes "ps5_http") (pos 32_768) (pos 0) in
      elim (Bool-cases (is_negative (K.respond c w.os).0.ret)) [
        | inl bad ↦ rw (world, create_pool, bad) (one c w)
        | inr good ↦
            rw (world, create_pool, good)
              (Calls-trans K Any (one c w)
                (init_ssl-Plain agent (K.respond c w.os).0.ret (called K c w)))
      ]

  pub new_client-Plain : (user_agent : Bytes) → Plain (new_client K user_agent)
  unfolding new_client
  new_client-Plain user_agent w =
      let c = Call.sce_net_init in
      elim (Bool-cases (has_nul user_agent)) [
        | inl bad ↦ rw (world, new_client, cstr, bad) here
        | inr good ↦ elim (Bool-cases (eq_ℤ (K.respond c w.os).0.ret (pos 0))) [
          | inl fine ↦
              rw (world, new_client, cstr, good, fine)
                (Calls-trans K Any (one c w) (create_pool-Plain user_agent (called K c w)))
          | inr failed ↦ rw (world, new_client, cstr, good, failed) (one c w)
        ]
      ]

  drain_round-Plain :
      (again : Bytes → Bytes → M K.State Bytes) (buf : Bytes) (ret : ℤ) (chunk : Bytes)
      → ((b c : Bytes) → Plain (again b c))
      → Plain (drain_round again buf ret chunk)
  drain_round-Plain again buf (negsuc n) chunk h w = here
  drain_round-Plain again buf (pos zero) chunk h w = here
  drain_round-Plain again buf (pos (suc n)) chunk h w =
      Calls-and_then K Any w (slice_to chunk (suc n) w) (λ part. again (buf ++ part) chunk)
        (Only-if K Any (ltb (length chunk) (suc n)) panic (pure (take (suc n) chunk)) (λ v. here)
          (λ v. here) w)
        (λ part. h (buf ++ part) chunk)

  drain-Plain : (fuel : ℕ) (id : ℤ) (buf chunk : Bytes) → Plain (drain K fuel id buf chunk)
  unfolding drain
  drain-Plain zero id buf chunk w = here
  drain-Plain (suc fuel) id buf chunk w =
      let c = Call.sce_http2_read_data id (length chunk) in
      Calls-trans K Any (one c w) (
        drain_round-Plain (λ b d. drain K fuel id b d) buf (K.respond c w.os).0.ret
          (fill (K.respond c w.os).0.data_out chunk) (λ b d. drain-Plain fuel id b d)
          (called K c w))

  read_response-Plain : (fuel : ℕ) (id : ℤ) → Plain (read_response K fuel id)
  unfolding read_response
  read_response-Plain fuel id w =
      let c = Call.sce_http2_get_status_code id in
      elim (Bool-cases (eq_ℤ (K.respond c w.os).0.ret (pos 0))) [
        | inl fine ↦
            rw (world, read_response, fine)
              (Calls-trans K Any (one c w) (
                Calls-and_then K Any (called K c w) (drain K fuel id [] zeroed_page (called K c w))
                  (λ b.
                    pure (record { status = to_unsigned 16 (K.respond c w.os).0.value; body = b }))
                  (drain-Plain fuel id [] zeroed_page (called K c w)) (λ b v. here)))
        | inr failed ↦ rw (world, read_response, failed) (one c w)
      ]

  run_request-Plain : (fuel : ℕ) (id : ℤ) (body : Bytes) → Plain (run_request K fuel id body)
  unfolding run_request
  run_request-Plain fuel id body w =
      let c = Call.sce_http2_send_request id (payload body) (length body) in
      elim (Bool-cases (eq_ℤ (K.respond c w.os).0.ret (pos 0))) [
        | inl fine ↦
            rw (world, run_request, fine)
              (Calls-trans K Any (one c w) (read_response-Plain fuel id (called K c w)))
        | inr failed ↦ rw (world, run_request, failed) (one c w)
      ]

  request_result-Plain : (r : Result ClientResponse) (del : ℤ) → Plain (request_result r del)
  request_result-Plain (ok resp) del w =
      Only-if K Any (eq_ℤ del (pos 0)) (pure resp) (fail_sce "sceHttp2DeleteRequest" del)
        (λ v. here) (λ v. here) w
  request_result-Plain (err e) del w = here

  after_run-Plain :
      (id : ℤ) (w : World K.State) (o : Outcome K.State (Result ClientResponse))
      → Calls K Any w (world o)
      → Calls K Any w (
          world (
            and_then o (λ result.
              call K (Call.sce_http2_delete_request id)
              >>= (λ del. request_result result del.ret))))
  after_run-Plain id w o h =
      let d = Call.sce_http2_delete_request id in
      Calls-and_then K Any w o (λ result. call K d >>= (λ del. request_result result del.ret)) h
        (λ result v.
          Calls-trans K Any (one d v)
            (request_result-Plain result (K.respond d v.os).0.ret (called K d v)))

  request_c-Plain :
      (fuel : ℕ) (client : Client) (method url body : Bytes)
      → Plain (request_c K fuel client method url body)
  unfolding request_c
  request_c-Plain fuel client method url body w =
      let c = Call.sce_http2_create_request_with_url client.tmpl_id method url (length body) in
      elim (Bool-cases (is_negative (K.respond c w.os).0.ret)) [
        | inl bad ↦ rw (world, request_c, bad) (one c w)
        | inr good ↦
            rw (world, request_c, good)
              (Calls-trans K Any (one c w) (
                after_run-Plain (K.respond c w.os).0.ret (called K c w)
                  (settle (run_request K fuel (K.respond c w.os).0.ret body (called K c w)))
                  (Calls-settle K Any (called K c w)
                    (run_request K fuel (K.respond c w.os).0.ret body (called K c w))
                    (run_request-Plain fuel (K.respond c w.os).0.ret body (called K c w)))))
      ]

  pub client_request-Plain :
      (fuel : ℕ) (client : Client) (method url body : Bytes)
      → Plain (client_request K fuel client method url body)
  unfolding client_request
  client_request-Plain fuel client method url body w = elim (Bool-cases (has_nul method)) [
    | inl bad ↦ rw (client_request, cstr, bad) here
    | inr fine ↦ elim (Bool-cases (has_nul url)) [
      | inl bad ↦ rw (client_request, cstr, fine, bad) here
      | inr fine2 ↦
          rw (client_request, cstr, fine, fine2) (request_c-Plain fuel client method url body w)
    ]
  ]
