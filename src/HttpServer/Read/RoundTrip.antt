-- ===== src/HttpServer/Read/RoundTrip.antt =====
-- crates/core/src/http.rs, `read_request`: it returns the request that a client has sent.
use mathlib.Core.Path.{ap₂}
use ps_payload_rust.Base.{
  suc, refl, ℕ, ◌+◌, ◌≤◌, ◌<◌, ◌≡◌, ◌∙◌, ap, List, [], ◌∷◌, ◌++◌, some, Bytes, length, take, drop,
  arith, take-append_length, le→ltb,
}
use ps_payload_rust.Sys.{Sys}
use ps_payload_rust.Ps5.Error.{ok}
use ps_payload_rust.Ps5.Effect.{World, result_of}
use ps_payload_rust.Ps5.Net.Stream.{TcpStream}
use ps_payload_rust.HttpServer.Request.{Request}
use ps_payload_rust.HttpServer.Head.{Parsed, marker, find_double_crlf, content_length}
use ps_payload_rust.HttpServer.Head.Print.{
  print_head, HeadIsPlain, find-print_head, parse_head-print,
}
use ps_payload_rust.HttpServer.Read.{Limits, read_request}
use ps_payload_rust.HttpServer.Read.Delivered.{
  joined, Delivers, request_of, with_some, read_request-Delivers,
}

-- The request with this head and this body.
abbrev pub request : Parsed → Bytes → Request
request p body = record {
  method = p.method;
  target = p.target;
  version = p.version;
  headers = p.headers;
  body = body;
}

suc-add-four : (n : ℕ) → suc n + 4 ≡ suc (n + 4)
suc-add-four n = omega arith

drop-head : (head rest : Bytes) → drop (length head + 4) (head ++ (marker ++ rest)) ≡ rest
drop-head [] rest = refl
drop-head (x ∷ head) rest =
    ap (λ n. drop n (x ∷ (head ++ (marker ++ rest)))) (suc-add-four (length head))
    ∙ drop-head head rest

request_of-print :
    (limits : Limits) (p : Parsed) (body extra : Bytes)
    → HeadIsPlain p
    → content_length p.headers ≡ length body
    → length body ≤ limits.max_body_bytes
    → request_of limits (print_head p) (body ++ extra) ≡ ok (request p body)
unfolding request_of
request_of-print limits p body extra h e small =
    rw (parse_head-print p h)
      (rw (e, le→ltb limits.max_body_bytes (length body) small, take-append_length body extra))

-- A request with plain fields that a client prints, with a `Content-Length` that tells the length of
-- its body, both parts within the limits, comes out of `read_request` as it went in, however the
-- network cuts the bytes and whatever follows them, with more fuel than there are pieces.
pub read_request-print :
    (K : Sys) (s : TcpStream) (limits : Limits) (p : Parsed) (body extra : Bytes)
    (pieces : List Bytes) (fuel : ℕ) (w : World K.State)
    → HeadIsPlain p
    → content_length p.headers ≡ length body
    → length body ≤ limits.max_body_bytes
    → length (print_head p) + 3 ≤ limits.max_header_bytes
    → joined pieces ≡ print_head p ++ (marker ++ (body ++ extra))
    → Delivers K s.fd pieces w.os
    → length pieces < fuel
    → result_of (read_request K fuel s limits w) ≡ some (ok (some (request p body)))
read_request-print K s limits p body extra pieces fuel w h e small short input d enough =
    read_request-Delivers K s limits pieces fuel (length (print_head p)) w d
      (ap find_double_crlf input ∙ find-print_head p (body ++ extra) h) short enough
    ∙ ap (λ r. some (with_some r))
        (ap
            (λ t.
              request_of limits (take (length (print_head p)) t)
                (drop (length (print_head p) + 4) t))
            input
          ∙ ap₂ (request_of limits) (take-append_length (print_head p) _)
              (drop-head (print_head p) (body ++ extra))
          ∙ request_of-print limits p body extra h e small)
