-- ===== src/HttpServer/Read/Delivered.antt =====
-- crates/core/src/http.rs, `read_request` against a parser of the whole input: the way in which the
-- socket cuts the input into pieces does not matter.
mod Pieces
mod Heads
pub mod Late
mod Bodies
pub use ps_payload_rust.HttpServer.Read.Delivered.Pieces.{joined, Delivers}
use ps_payload_rust.Base.{
  ℕ, zero, suc, ◌+◌, ◌≤◌, ◌<◌, ◌≡◌, ◌∙◌, subst, refl, sym, inl, inr, List, [], ◌∷◌, ◌++◌, Option,
  some, Bytes, length, take, drop, take-append_left, drop-append_left, ltb, arith, Bool-cases,
  Option-cases, le→ltb, ltb→le, ltb→lt, append-nil, append_assoc, if◌then◌else◌,
}
use ps_payload_rust.Base.Int.{ℤ, pos}
use ps_payload_rust.Sys.{Sys, Call}
use ps_payload_rust.Ps5.Error.{Result, ok, err, ◌>>=◌, invalid_input, Result-cases}
use ps_payload_rust.Ps5.Effect.{World, Outcome, returns, result_of}
use ps_payload_rust.Ps5.Net.Fd.{fill}
use ps_payload_rust.Ps5.Net.Stream.{TcpStream, read}
use ps_payload_rust.Ps5.Net.Stream.Recv.{read-recv, after_recv, length-fill, take-fill}
use ps_payload_rust.HttpServer.Request.{Request}
use ps_payload_rust.HttpServer.Head.{find_double_crlf, Parsed, content_length, parse_head}
use ps_payload_rust.HttpServer.Head.Marker.{find_bound, find-append, find_new}
use ps_payload_rust.HttpServer.Read.{
  Limits, HeadRead, read_chunk, zeroed_chunk, length-zeroed_chunk, read_head, read_body,
  finish_body, finish_request, read_request,
}
use ps_payload_rust.HttpServer.Read.Steps.{head_found, head_more, body_done, body_eof, body_more}
use ps_payload_rust.HttpServer.Read.Delivered.Heads.{HeadCase, head_case, read_head-Delivers}
use ps_payload_rust.HttpServer.Read.Delivered.Bodies.{read_body-Delivers}

-- The request with this head, of which these bytes follow.
pub with_body : Limits → Parsed → Bytes → Result Request
with_body limits parsed rest =
    let n = content_length parsed.headers in
    if ltb limits.max_body_bytes n
    then err (invalid_input "request body exceeds limit")
    else ok (record {
      method = parsed.method;
      target = parsed.target;
      version = parsed.version;
      headers = parsed.headers;
      body = take n rest;
    })

-- The request in an input of which the head and the bytes behind the marker are known.
unfoldable pub request_of : Limits → Bytes → Bytes → Result Request
unfolding with_body
request_of limits head rest = do parsed ← parse_head head; with_body limits parsed rest

abbrev pub with_some : Result Request → Result (Option Request)
with_some (ok r) = ok (some r)
with_some (err e) = err e

module _ (K : Sys) (s : TcpStream) (limits : Limits) where
  finish_body-Delivers :
      (fuel p : ℕ) (buf chunk : Bytes) (ps : List Bytes) (parsed : Parsed) (w : World K.State)
      → find_double_crlf buf ≡ some p
      → length chunk ≡ read_chunk
      → Delivers K s.fd ps w.os
      → length ps < fuel
      → result_of
          (finish_body K fuel s limits (record { head_end = p; buf = buf; chunk = chunk }) parsed w)
        ≡ some (with_some (with_body limits parsed (drop (p + 4) buf ++ joined ps)))
  unfolding finish_body with_body
  finish_body-Delivers fuel p buf chunk ps parsed w found size d enough =
      elim (Bool-cases (ltb limits.max_body_bytes n)) [
        | inl over ↦ rw (finish_body, over)
        | inr within ↦
            let (b, w', e, same) =
              read_body-Delivers K s n ps fuel (drop (p + 4) buf) chunk w size d enough in
            rw (finish_body, within, le→ltb (length buf) (p + 4) (find_bound buf found))
              (rw e (rw same))
      ]
    where
      n : ℕ
      n = content_length parsed.headers

  finish_request-Delivers :
      (fuel p : ℕ) (buf chunk : Bytes) (ps : List Bytes) (w : World K.State)
      → find_double_crlf buf ≡ some p
      → length chunk ≡ read_chunk
      → Delivers K s.fd ps w.os
      → length ps < fuel
      → result_of
          (finish_request K fuel s limits (record { head_end = p; buf = buf; chunk = chunk }) w)
        ≡ some (with_some (request_of limits (take p buf) (drop (p + 4) buf ++ joined ps)))
  unfolding finish_request request_of
  finish_request-Delivers fuel p buf chunk ps w found size d enough =
      rw (le→ltb (length buf) p (omega (arith, find_bound buf found)))
        (elim (Result-cases (parse_head (take p buf))) [
          | inr (e, bad) ↦ rw bad
          | inl (parsed, good) ↦
              rw good (finish_body-Delivers fuel p buf chunk ps parsed w found size d enough)
        ])

  -- `read_request` on a socket that delivers in pieces an input with a complete head, three bytes
  -- below the limit at least, has with more fuel than there are pieces the result of the parser of
  -- the whole input, however the input is cut.
  pub read_request-Delivers :
      (pieces : List Bytes) (fuel p : ℕ) (w : World K.State)
      → Delivers K s.fd pieces w.os
      → find_double_crlf (joined pieces) ≡ some p
      → p + 3 ≤ limits.max_header_bytes
      → length pieces < fuel
      → result_of (read_request K fuel s limits w)
        ≡ some
            (with_some (request_of limits (take p (joined pieces)) (drop (p + 4) (joined pieces))))
  unfolding read_request
  read_request-Delivers pieces fuel p w d found small enough =
      elim (read_head-Delivers K s limits pieces fuel [] zeroed_chunk w length-zeroed_chunk d found
        small enough) [
          | head_case buf chunk ps w' e f j size few more ↦
              rw
                (
                  e,
                  ← j,
                  take-append_left p buf (joined ps) (omega (arith, find_bound buf f)),
                  drop-append_left (p + 4) buf (joined ps) (find_bound buf f),
                )
                (finish_request-Delivers fuel p buf chunk ps w' f size more (omega arith))
        ]
