-- ===== src/Ps5/Http.antt =====
-- crates/ps5/src/http.rs: the client of the Sony HTTP/2 stack.
pub mod Lifecycle
pub mod Body
pub mod Requests
pub mod Progress
pub mod Session
use ps_payload_rust.Base.{
  ℕ, zero, suc, Bool, true, false, List, [], ◌∷◌, ◌++◌, Option, none, some, Bytes, codes, length,
  if◌then◌else◌,
}
use ps_payload_rust.Base.Int.{ℤ, pos, negsuc, eq_ℤ, is_negative, to_unsigned}
use ps_payload_rust.Base.{String, replicate}
use ps_payload_rust.Sys.{Sys, Call}
use ps_payload_rust.Ps5.Error.{Result, ok, err, sce}
use ps_payload_rust.Ps5.Effect.{M, pure, fail, out_of_fuel, ◌>>=◌, ◌>>◌, attempt, slice_to, call}
use ps_payload_rust.Ps5.Util.{cstr}
use ps_payload_rust.Ps5.Net.Fd.{fill}

pub record Client : Type 0 where
  pub net_mem_id : ℤ
  pub ssl_ctx_id : ℤ
  pub lib_ctx_id : ℤ
  pub tmpl_id : ℤ

pub record ClientResponse : Type 0 where
  pub status : ℕ
  pub body : Bytes

-- `Err(Error::sce(op, code))`
abbrev pub fail_sce : {S A : Type 0} → String → ℤ → M S A
fail_sce op code = fail (sce (record { op = op; code = code }))

-- What a round of the read loop does with the count and the buffer; `again` is the next round. A
-- positive `c_int` is the same number as a `usize`.
abbrev pub drain_round : {S : Type 0} → (Bytes → Bytes → M S Bytes) → Bytes → ℤ → Bytes → M S Bytes
drain_round again body_buf (negsuc n) chunk = fail_sce "sceHttp2ReadData" (negsuc n)
drain_round again body_buf (pos zero) chunk = pure body_buf
drain_round again body_buf (pos (suc n)) chunk = do
  part ← slice_to chunk (suc n)
  again (body_buf ++ part) chunk

-- The match at the end of `request`.
abbrev pub request_result : {S : Type 0} → Result ClientResponse → ℤ → M S ClientResponse
request_result (ok resp) del =
    if eq_ℤ del (pos 0) then pure resp else fail_sce "sceHttp2DeleteRequest" del
request_result (err e) del = fail e

-- The payload, and a null pointer in place of an empty one.
abbrev pub payload : Bytes → Option Bytes
payload [] = none
payload (b ∷ bs) = some (b ∷ bs)

-- `[0u8; READ_CHUNK]`
unfoldable pub zeroed_page : Bytes
zeroed_page = replicate 4096 0

module _ (K : Sys) where
  -- `Client::new`, from the creation of the template on.
  unfoldable pub create_template : Bytes → ℤ → ℤ → ℤ → M K.State Client
  create_template agent net_mem_id ssl_ctx_id lib_ctx_id = do
    r ← call K (Call.sce_http2_create_template lib_ctx_id agent (pos 3) (pos 1))
    elim (is_negative r.ret) [
      | true ↦ do
        _ ← call K (Call.sce_http2_term lib_ctx_id)
        _ ← call K (Call.sce_ssl_term ssl_ctx_id)
        _ ← call K (Call.sce_net_pool_destroy net_mem_id)
        fail_sce "sceHttp2CreateTemplate" r.ret
      | false ↦ pure (record {
        net_mem_id = net_mem_id;
        ssl_ctx_id = ssl_ctx_id;
        lib_ctx_id = lib_ctx_id;
        tmpl_id = r.ret;
      })
    ]

  -- The same from the initialisation of HTTP/2 on.
  unfoldable pub init_http2 : Bytes → ℤ → ℤ → M K.State Client
  unfolding create_template
  init_http2 agent net_mem_id ssl_ctx_id = do
    r ← call K (Call.sce_http2_init net_mem_id ssl_ctx_id 262_144 (pos 1))
    elim (is_negative r.ret) [
      | true ↦ do
        _ ← call K (Call.sce_ssl_term ssl_ctx_id)
        _ ← call K (Call.sce_net_pool_destroy net_mem_id)
        fail_sce "sceHttp2Init" r.ret
      | false ↦ create_template agent net_mem_id ssl_ctx_id r.ret
    ]

  -- The same from the initialisation of TLS on.
  unfoldable pub init_ssl : Bytes → ℤ → M K.State Client
  unfolding init_http2
  init_ssl agent net_mem_id = do
    r ← call K (Call.sce_ssl_init 262_144)
    elim (is_negative r.ret) [
      | true ↦ do _ ← call K (Call.sce_net_pool_destroy net_mem_id); fail_sce "sceSslInit" r.ret
      | false ↦ init_http2 agent net_mem_id r.ret
    ]

  -- The same from the creation of the pool on.
  unfoldable pub create_pool : Bytes → M K.State Client
  unfolding init_ssl
  create_pool agent = do
    r ← call K (Call.sce_net_pool_create (codes "ps5_http") (pos 32_768) (pos 0))
    elim (is_negative r.ret) [
      | true ↦ fail_sce "sceNetPoolCreate" r.ret
      | false ↦ init_ssl agent r.ret
    ]

  -- `Client::new`
  unfoldable pub new_client : Bytes → M K.State Client
  unfolding create_pool cstr
  new_client user_agent = do
    agent ← cstr user_agent
    r ← call K Call.sce_net_init
    elim (eq_ℤ r.ret (pos 0)) [ false ↦ fail_sce "sceNetInit" r.ret | true ↦ create_pool agent ]

  -- `Drop for Client`
  unfoldable pub drop_client : Client → M K.State (Unit {0})
  drop_client c = do
    _ ← call K (Call.sce_http2_delete_template c.tmpl_id)
    _ ← call K (Call.sce_http2_term c.lib_ctx_id)
    _ ← call K (Call.sce_ssl_term c.ssl_ctx_id)
    _ ← call K (Call.sce_net_pool_destroy c.net_mem_id)
    pure tt

  -- The read loop of `run_request`; the fuel bounds the rounds.
  unfoldable pub drain : ℕ → ℤ → Bytes → Bytes → M K.State Bytes
  drain zero req_id body_buf chunk = out_of_fuel
  drain (suc fuel) req_id body_buf chunk = do
    r ← call K (Call.sce_http2_read_data req_id (length chunk))
    drain_round (λ b c. drain fuel req_id b c) body_buf r.ret (fill r.data_out chunk)

  -- `run_request`, from the status code on.
  unfoldable pub read_response : ℕ → ℤ → M K.State ClientResponse
  unfolding drain
  read_response fuel req_id = do
    r ← call K (Call.sce_http2_get_status_code req_id)
    elim (eq_ℤ r.ret (pos 0)) [
      | false ↦ fail_sce "sceHttp2GetStatusCode" r.ret
      | true ↦ do
        body_buf ← drain fuel req_id [] zeroed_page
        pure (record { status = to_unsigned 16 r.value; body = body_buf })
    ]

  unfoldable pub run_request : ℕ → ℤ → Bytes → M K.State ClientResponse
  unfolding read_response
  run_request fuel req_id body = do
    r ← call K (Call.sce_http2_send_request req_id (payload body) (length body))
    elim (eq_ℤ r.ret (pos 0)) [
      | false ↦ fail_sce "sceHttp2SendRequest" r.ret
      | true ↦ read_response fuel req_id
    ]

  -- `Client::request`, once the arguments are C strings.
  unfoldable pub request_c : ℕ → Client → Bytes → Bytes → Bytes → M K.State ClientResponse
  unfolding run_request
  request_c fuel c method url body = do
    r ← call K (Call.sce_http2_create_request_with_url c.tmpl_id method url (length body))
    elim (is_negative r.ret) [
      | true ↦ fail_sce "sceHttp2CreateRequestWithURL" r.ret
      | false ↦ do
        result ← attempt (run_request fuel r.ret body)
        del ← call K (Call.sce_http2_delete_request r.ret)
        request_result result del.ret
    ]

  -- `Client::request`
  unfoldable pub client_request : ℕ → Client → Bytes → Bytes → Bytes → M K.State ClientResponse
  unfolding request_c cstr
  client_request fuel c method url body = do
    method_c ← cstr method
    url_c ← cstr url
    request_c fuel c method_c url_c body

  -- `Client::get`
  unfoldable pub get : ℕ → Client → Bytes → M K.State ClientResponse
  unfolding client_request
  get fuel c url = client_request fuel c (codes "GET") url []
