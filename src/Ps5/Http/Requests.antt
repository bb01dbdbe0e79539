-- ===== src/Ps5/Http/Requests.antt =====
-- crates/ps5/src/http.rs, `Client::request`: the request is always deleted, and the body of the
-- response is all that the platform delivered for it.
use ps_payload_rust.Base.{
  ℕ, ◌<◌, ◌≡◌, subst, ◌∙◌, List, [], ◌∷◌, ◌++◌, some, Bytes, length, Bool-cases, inl, inr, arith,
  append-nil,
}
use ps_payload_rust.Base.Int.{ℤ, pos, is_negative, eq_ℤ, to_unsigned}
use ps_payload_rust.Sys.{Sys, Call, Reply}
use ps_payload_rust.Ps5.Error.{Result}
use ps_payload_rust.Ps5.Effect.{
  World, Outcome, returns, fails, aborts, exhausted, M, and_then, settle, pure, call, ◌>>=◌,
}
use ps_payload_rust.Ps5.Frame.{called}
use ps_payload_rust.Ps5.Util.{cstr, has_nul}
use ps_payload_rust.Ps5.Ownership.{Resource, resource, request, owned, release_top, owned-called}
use ps_payload_rust.Ps5.Http.{
  Client, ClientResponse, payload, zeroed_page, drain, read_response, run_request, request_c,
  request_result, client_request,
}
use ps_payload_rust.Ps5.Http.Body.{received, ReadCounts, FiniteBodies, Drained, drain_lem}

-- The run ends and holds what was held; a response that it returns has as body what was delivered
-- for this request meanwhile.
abbrev pub Answered : {S : Type 0} → ℤ → Bytes → List Resource → Outcome S ClientResponse → Type 0
Answered id seen held (returns resp w) =
    (received id w.events ≡ seen ++ resp.body) × (owned w.events ≡ some held)
Answered id seen held (fails e w) = owned w.events ≡ some held
Answered id seen held (aborts w) = ⊥
Answered id seen held (exhausted w) = ⊥

after_drain :
    {S : Type 0} (id : ℤ) (seen : Bytes) (held : List Resource) (status : ℕ) (o : Outcome S Bytes)
    → Drained id seen held [] o
    → Answered id seen held (and_then o (λ b. pure (record { status = status; body = b })))
after_drain id seen held status (returns b w) (t, e, got, own) = (rw (e, got), own)
after_drain id seen held status (fails e w) h = h
after_drain id seen held status (aborts w) h = h
after_drain id seen held status (exhausted w) h = h

-- A call that delivers nothing lies before.
quiet :
    {S : Type 0} (id : ℤ) (seen : Bytes) (held : List Resource) (o : Outcome S ClientResponse)
    → Answered id (seen ++ []) held o
    → Answered id seen held o
quiet id seen held o h = subst (λ t. Answered id t held o) (append-nil seen) h

module _ (K : Sys) where
  -- What `request` does with the result of the run.
  abbrev delete : ℤ → Result ClientResponse → M K.State ClientResponse
  delete id result = do
    del ← call K (Call.sce_http2_delete_request id)
    request_result result del.ret

  after_run :
      (id : ℤ) (seen : Bytes) (held : List Resource) (o : Outcome K.State ClientResponse)
      → Answered id seen (resource request id ∷ held) o
      → Answered id seen held (and_then (settle o) (delete id))
  after_run id seen held (returns resp w) (got, own) = elim (Bool-cases (eq_ℤ d.ret (pos 0))) [
    | inl fine ↦ rw (Answered, fine) (append-nil _ ∙ got, released)
    | inr failed ↦ rw (Answered, failed) released
  ]
    where
      d : Reply
      d = (K.respond (Call.sce_http2_delete_request id) w.os).0

      released : owned (called K (Call.sce_http2_delete_request id) w).events ≡ some held
      released =
          owned-called K (Call.sce_http2_delete_request id) w _ own ∙ release_top request id held
  after_run id seen held (fails e w) own =
      owned-called K (Call.sce_http2_delete_request id) w _ own ∙ release_top request id held
  after_run id seen held (aborts w) h = h
  after_run id seen held (exhausted w) h = h

  abbrev pub handle : Client → Bytes → Bytes → Bytes → World K.State → ℤ
  handle client method url body w =
      (K.respond (Call.sce_http2_create_request_with_url client.tmpl_id method url (length body))
        w.os).0.ret

  -- As `Answered`, for the request that the run creates with these arguments, by its first call, whose
  -- answer is the handle of the request.
  abbrev pub Requested :
      Client
      → Bytes
      → Bytes
      → Bytes
      → World K.State
      → List Resource
      → Outcome K.State ClientResponse
      → Type 0
  Requested client method url body before held o =
      Answered (handle client method url body before)
        (received (handle client method url body before) before.events) held o

module _ (K : Sys) (counts : ReadCounts K) (bodies : FiniteBodies K) (fuel : ℕ) where
  open bodies use {left, steady}

  read_response-Answered :
      (id : ℤ) (held : List Resource) (w : World K.State)
      → left w.os < fuel
      → owned w.events ≡ some held
      → Answered id (received id w.events) held (read_response K fuel id w)
  unfolding read_response
  read_response-Answered id held w enough own = elim (Bool-cases (eq_ℤ r.ret (pos 0))) [
    | inl fine ↦
        rw (Answered, read_response, fine)
          (quiet id (received id w.events) held _ (
            after_drain id _ held (to_unsigned 16 r.value)
              (drain K fuel id [] zeroed_page (called K c w))
              (drain_lem K counts bodies id held fuel [] zeroed_page (called K c w)
                (omega (arith, steady c w.os)) (owned-called K c w held own))))
    | inr failed ↦ rw (Answered, read_response, failed) (owned-called K c w held own)
  ]
    where
      c : Call
      c = Call.sce_http2_get_status_code id

      r : Reply
      r = (K.respond c w.os).0

  run_request-Answered :
      (id : ℤ) (body : Bytes) (held : List Resource) (w : World K.State)
      → left w.os < fuel
      → owned w.events ≡ some held
      → Answered id (received id w.events) held (run_request K fuel id body w)
  unfolding run_request
  run_request-Answered id body held w enough own = elim (Bool-cases (eq_ℤ r.ret (pos 0))) [
    | inl fine ↦
        rw (Answered, run_request, fine)
          (quiet id (received id w.events) held _ (
            read_response-Answered id held (called K c w) (omega (arith, steady c w.os))
              (owned-called K c w held own)))
    | inr failed ↦ rw (Answered, run_request, failed) (owned-called K c w held own)
  ]
    where
      c : Call
      c = Call.sce_http2_send_request id (payload body) (length body)

      r : Reply
      r = (K.respond c w.os).0

  request_c-Requested :
      (client : Client) (method url body : Bytes) (held : List Resource) (w : World K.State)
      → left w.os < fuel
      → owned w.events ≡ some held
      → Requested K client method url body w held (request_c K fuel client method url body w)
  unfolding request_c
  request_c-Requested client method url body held w enough own =
      elim (Bool-cases (is_negative r.ret)) [
        | inl bad ↦ rw (Answered, request_c, bad) (owned-called K c w held own ∙ rw bad)
        | inr good ↦
            rw (Answered, request_c, good)
              (quiet r.ret (received r.ret w.events) held _ (
                after_run K r.ret _ held (run_request K fuel r.ret body (called K c w)) (
                  run_request-Answered r.ret body (resource request r.ret ∷ held) (called K c w)
                    (omega (arith, steady c w.os)) (owned-called K c w held own ∙ rw good))))
      ]
    where
      c : Call
      c = Call.sce_http2_create_request_with_url client.tmpl_id method url (length body)

      r : Reply
      r = (K.respond c w.os).0

  -- On a platform that counts what it reads and whose bodies end, with more fuel than the body has
  -- reads, `request` ends without a panic, the request that it created is deleted on every path, and
  -- the body of a response is all that the platform delivered meanwhile, in order, for the handle with
  -- which it answered the creation of this request.
  pub client_request-Requested :
      (client : Client) (method url body : Bytes) (held : List Resource) (w : World K.State)
      → left w.os < fuel
      → owned w.events ≡ some held
      → Requested K client method url body w held (client_request K fuel client method url body w)
  unfolding client_request
  client_request-Requested client method url body held w enough own =
      elim (Bool-cases (has_nul method)) [
        | inl bad ↦ rw (Answered, client_request, cstr, bad) own
        | inr fine ↦ elim (Bool-cases (has_nul url)) [
          | inl bad ↦ rw (Answered, client_request, cstr, fine, bad) own
          | inr fine2 ↦
              rw (Answered, client_request, cstr, fine, fine2)
                (request_c-Requested client method url body held w enough own)
        ]
      ]
