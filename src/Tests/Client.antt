-- ===== src/Tests/Client.antt =====
-- The HTTP client on the scripted platform.
use ps_payload_rust.Base.{◌≡◌, refl, List, [], ◌∷◌, ◌++◌, Bytes, codes, length, take, drop, arith}
use ps_payload_rust.Base.Int.{pos, negsuc, to_signed}
use ps_payload_rust.Std.Hex.{read_hex, hex8}
use ps_payload_rust.Ps5.Error.{SceError, sce}
use ps_payload_rust.Ps5.Display.{debug, display_sce, display_sce_lem}
use ps_payload_rust.Std.Quote.{debug_str}
use ps_payload_rust.Ps5.Effect.{World}
use ps_payload_rust.Ps5.Frame.{called}
use ps_payload_rust.Sys.{Call}
use ps_payload_rust.Ps5.Ownership.{Owns}
use ps_payload_rust.Ps5.Http.{Client, new_client, client_request}
use ps_payload_rust.Ps5.Http.Lifecycle.{handles, new_client-Owns}
use ps_payload_rust.Ps5.Http.Session.{Ask, session, session-Owns}
use ps_payload_rust.Ps5.Http.Requests.{Requested, client_request-Requested}
use ps_payload_rust.Tests.Scripted.{
  Script, scripted, fresh, scripted-ReadCounts, scripted-FiniteBodies,
}

abbrev agent : Bytes
agent = codes "payload/1.0"

new_client-Owns_example : Owns [] (handles []) (new_client scripted agent (fresh [] 0))
new_client-Owns_example = new_client-Owns scripted [] agent (fresh [] 0) refl

abbrev client : Client
client = record { net_mem_id = pos 0; ssl_ctx_id = pos 0; lib_ctx_id = pos 0; tmpl_id = pos 0 }

-- The world after the four calls that make the client.
abbrev ready : World Script
ready = called scripted (Call.sce_http2_create_template (pos 0) agent (pos 3) (pos 1)) (
    called scripted (Call.sce_http2_init (pos 0) (pos 0) 262_144 (pos 1)) (
      called scripted (Call.sce_ssl_init 262_144) (
        called scripted (Call.sce_net_pool_create (codes "ps5_http") (pos 32_768) (pos 0))
          (fresh (codes "he" ∷ codes "llo" ∷ []) 0))))

client_request-Requested_example :
    Requested scripted client
      (codes "GET")
      (codes "http://ps5/")
      []
      ready
      (handles [] client)
      (client_request scripted 3 client (codes "GET") (codes "http://ps5/") [] ready)
client_request-Requested_example =
    client_request-Requested scripted scripted-ReadCounts scripted-FiniteBodies 3 client
      (codes "GET") (codes "http://ps5/") [] (handles [] client) ready (omega arith) refl

-- The status 0x80431084.
abbrev refused : SceError
refused = record { op = "sceHttp2Init"; code = negsuc 0x7FBC_EF7B }

display_sce_lem_example :
    to_signed 32 (
      read_hex 0 (
        take 8
          (drop (length (codes "sceHttp2Init" ++ codes " failed (sce 0x")) (display_sce refused))))
    ≡ refused.code
display_sce_lem_example = display_sce_lem refused (omega arith)

-- The same message in full.
refused_text : display_sce refused ≡ codes "sceHttp2Init failed (sce 0x80431084)"
unfolding display_sce hex8
refused_text = refl

-- Two requests of one client; the body of the first is delivered in two reads.
abbrev asks : List Ask
asks =
    record { method = codes "GET"; url = codes "http://ps5/"; body = [] }
    ∷ record { method = codes "POST"; url = codes "http://ps5/log"; body = codes "x" }
    ∷ []

session-Owns_example :
    Owns [] (λ _. []) (session scripted 3 agent asks (fresh (codes "he" ∷ codes "llo" ∷ []) 0))
session-Owns_example =
    session-Owns scripted scripted-ReadCounts scripted-FiniteBodies 3 [] agent asks
      (fresh (codes "he" ∷ codes "llo" ∷ []) 0) (omega arith) refl

quoted_text :
    debug scripted (sce refused) ≡ codes "Sce(SceError { op: \"sceHttp2Init\", code: 0x80431084 })"
unfolding debug debug_str hex8
quoted_text = refl
