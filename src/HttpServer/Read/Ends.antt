-- ===== src/HttpServer/Read/Ends.antt =====
-- crates/core/src/http.rs, `read_request`: on any socket both loops end, no slice is out of range,
-- and the sizes stay bounded.
use ps_payload_rust.Base.{
  append-nil, append_assoc, ℕ, zero, suc, ◌+◌, ◌≤◌, ◌≡◌, ◌∙◌, sym, inl, inr, [], ◌∷◌, ◌++◌, Option,
  none, some, Bytes, length, take, drop, ltb, arith, Bool-cases, Option-cases, length-append,
  length-take_le, le→ltb, ltb→lt, ltb→le,
}
use ps_payload_rust.Sys.{Sys}
use ps_payload_rust.Ps5.Error.{ok}
use ps_payload_rust.Ps5.Effect.{
  World, Ensures, Ensures-and_then, from_result, Ensures-from_result, Ensures-weaken,
}
use ps_payload_rust.Ps5.Net.Stream.{TcpStream}
use ps_payload_rust.Ps5.Net.Stream.Recv.{failed, got, read_cases}
use ps_payload_rust.Ps5.Net.Laws.{RecvCounts}
use ps_payload_rust.HttpServer.Request.{Request}
use ps_payload_rust.HttpServer.Head.{find_double_crlf, Parsed, content_length, parse_head}
use ps_payload_rust.HttpServer.Read.Steps.{
  head_found, head_over, head_failed, head_eof, head_more, body_done, body_failed, body_eof,
  body_more,
}
use ps_payload_rust.HttpServer.Head.Marker.{find_bound}
use ps_payload_rust.HttpServer.Read.{
  Limits, HeadRead, read_chunk, zeroed_chunk, length-zeroed_chunk, read_head, read_body,
  finish_body, finish_request, read_request, after_head,
}

-- A head that was read ends at the marker, and at most one chunk more than the limit was read.
abbrev pub HeadWithin : {S : Type 0} → Limits → Option HeadRead → World S → Type 0
HeadWithin limits none w = Unit
HeadWithin limits (some h) w =
    (find_double_crlf h.buf ≡ some h.head_end)
    × (length h.buf ≤ limits.max_header_bytes + read_chunk)
    × (length h.chunk ≡ read_chunk)

abbrev pub Extends : {S : Type 0} → Bytes → Bytes → World S → Type 0
Extends body b w = (t : Bytes) × (b ≡ body ++ t)

-- The body of a request is no longer than its headers announce, nor than the limit.
abbrev pub RequestWithin : {S : Type 0} → Limits → Option Request → World S → Type 0
RequestWithin limits none w = Unit
RequestWithin limits (some r) w =
    (length r.body ≤ content_length r.headers) × (content_length r.headers ≤ limits.max_body_bytes)

module _ (K : Sys) (counts : RecvCounts K) where
  -- On a platform whose `recv` counts its bytes, and with fuel for the bytes that the limit still
  -- allows, the first loop ends without a panic; what it returns ends at the marker, and the buffer
  -- exceeds the limit by one chunk at most.
  pub read_head-Ensures :
      (fuel : ℕ) (s : TcpStream) (limits : Limits) (buf chunk : Bytes) (w : World K.State)
      → length chunk ≡ read_chunk
      → length buf ≤ limits.max_header_bytes + read_chunk
      → 1 ≤ fuel
      → limits.max_header_bytes + 2 ≤ fuel + length buf
      → Ensures (HeadWithin limits) (read_head K fuel s limits buf chunk w)
  read_head-Ensures zero s limits buf chunk w size fits one enough = absurd (omega arith)
  read_head-Ensures (suc fuel) s limits buf chunk w size fits one enough =
      elim (Option-cases (find_double_crlf buf)) [
        | inr (p, e) ↦ rw (head_found K fuel s limits buf chunk w e) (e, fits, size)
        | inl e ↦ elim (Bool-cases (ltb limits.max_header_bytes (length buf))) [
          | inl over ↦ rw (head_over K fuel s limits buf chunk w e (ltb→lt _ _ over)) tt
          | inr under ↦ elim (read_cases K counts s chunk w (omega arith)) [
            | failed err w' er ↦
                rw (head_failed K fuel s limits buf chunk w e (ltb→le _ _ under) er) tt
            | got [] chunk' w' er le same part ↦
                rw (head_eof K fuel s limits buf chunk w e (ltb→le _ _ under) er) (ground arith)
            | got (d ∷ ds) chunk' w' er le same part ↦
                rw
                  (head_more K fuel s limits buf chunk w e (ltb→le _ _ under) (d ∷ ds) chunk' er
                    (omega arith) (omega arith) part)
                  (read_head-Ensures fuel s limits (buf ++ (d ∷ ds)) chunk' w' (omega arith)
                    (omega (arith, length-append buf (d ∷ ds), ltb→le _ _ under))
                    (omega (arith, ltb→le _ _ under)) (omega (arith, length-append buf (d ∷ ds))))
          ]
        ]
      ]

  -- The body loop keeps what it had and appends what it reads.
  pub read_body-Ensures :
      (fuel : ℕ) (s : TcpStream) (n : ℕ) (body chunk : Bytes) (w : World K.State)
      → length chunk ≡ read_chunk
      → 1 ≤ fuel
      → n + 1 ≤ fuel + length body
      → Ensures (Extends body) (read_body K fuel s n body chunk w)
  read_body-Ensures zero s n body chunk w size one enough = absurd (omega arith)
  read_body-Ensures (suc fuel) s n body chunk w size one enough =
      elim (Bool-cases (ltb (length body) n)) [
        | inr done ↦
            rw (body_done K fuel s n body chunk w (ltb→le _ _ done)) ([], sym (append-nil body))
        | inl short ↦ elim (read_cases K counts s chunk w (omega arith)) [
          | failed err w' er ↦ rw (body_failed K fuel s n body chunk w (ltb→lt _ _ short) er) tt
          | got [] chunk' w' er le same part ↦
              rw (body_eof K fuel s n body chunk w (ltb→lt _ _ short) er)
                ([], sym (append-nil body))
          | got (d ∷ ds) chunk' w' er le same part ↦
              rw
                (body_more K fuel s n body chunk w (ltb→lt _ _ short) (d ∷ ds) chunk' er
                  (omega arith) (omega arith) part)
                (Ensures-weaken (Extends (body ++ (d ∷ ds))) (Extends body)
                  (read_body K fuel s n (body ++ (d ∷ ds)) chunk' w')
                  (λ b w'' (t, e). ((d ∷ ds) ++ t, e ∙ append_assoc body (d ∷ ds) t))
                  (read_body-Ensures fuel s n (body ++ (d ∷ ds)) chunk' w' (omega arith)
                    (omega (arith, ltb→lt _ _ short)) (omega (arith, length-append body (d ∷ ds)))))
        ]
      ]

  finish_body-Ensures :
      (fuel : ℕ) (s : TcpStream) (limits : Limits) (h : HeadRead) (parsed : Parsed)
      (w : World K.State)
      → limits.max_body_bytes + 1 ≤ fuel
      → HeadWithin limits (some h) w
      → Ensures (RequestWithin limits) (finish_body K fuel s limits h parsed w)
  unfolding finish_body
  finish_body-Ensures fuel s limits h parsed w enough (found, fits, size) =
      elim (Bool-cases (ltb limits.max_body_bytes n)) [
        | inl over ↦ rw (finish_body, over) tt
        | inr within ↦
            rw
              (finish_body, within, le→ltb (length h.buf) (h.head_end + 4) (find_bound h.buf found))
              (Ensures-and_then (Extends early) (RequestWithin limits)
                (read_body K fuel s n early h.chunk w) _
                (read_body-Ensures fuel s n early h.chunk w size (omega arith)
                  (omega (arith, ltb→le _ _ within)))
                λ b w2 _. (length-take_le _ b, ltb→le _ _ within))
      ]
    where
      n : ℕ
      n = content_length parsed.headers

      early : Bytes
      early = drop (h.head_end + 4) h.buf

  finish_request-Ensures :
      (fuel : ℕ) (s : TcpStream) (limits : Limits) (h : HeadRead) (w : World K.State)
      → limits.max_body_bytes + 1 ≤ fuel
      → HeadWithin limits (some h) w
      → Ensures (RequestWithin limits) (finish_request K fuel s limits h w)
  unfolding finish_request
  finish_request-Ensures fuel s limits h w enough (found, fits, size) =
      rw (le→ltb (length h.buf) h.head_end (omega (arith, find_bound h.buf found))) (
        Ensures-and_then (λ a w'. (parse_head (take h.head_end h.buf) ≡ ok a) × (w' ≡ w))
          (RequestWithin limits) (from_result (parse_head (take h.head_end h.buf)) w) _
          (Ensures-from_result _ w)
          λ parsed w1 _. finish_body-Ensures fuel s limits h parsed w1 enough (found, fits, size))

  after_head-Ensures :
      (fuel : ℕ) (s : TcpStream) (limits : Limits) (o : Option HeadRead) (w : World K.State)
      → limits.max_body_bytes + 1 ≤ fuel
      → HeadWithin limits o w
      → Ensures (RequestWithin limits) (after_head K fuel s limits o w)
  after_head-Ensures fuel s limits none w enough h = tt
  after_head-Ensures fuel s limits (some head) w enough h =
      finish_request-Ensures fuel s limits head w enough h

  -- On a platform whose `recv` counts its bytes, and with fuel for the two limits, `read_request`
  -- ends without a panic, whatever the socket delivers; the body that it returns is no longer than
  -- its headers announce, and that is within the limit.
  pub read_request-Ensures :
      (fuel : ℕ) (s : TcpStream) (limits : Limits) (w : World K.State)
      → limits.max_header_bytes + 2 ≤ fuel
      → limits.max_body_bytes + 1 ≤ fuel
      → Ensures (RequestWithin limits) (read_request K fuel s limits w)
  unfolding read_request
  read_request-Ensures fuel s limits w head_fuel body_fuel =
      Ensures-and_then (HeadWithin limits) (RequestWithin limits) _ _
        (read_head-Ensures fuel s limits [] zeroed_chunk w length-zeroed_chunk (omega arith)
          (omega arith) (omega arith))
        λ o w1. after_head-Ensures fuel s limits o w1 body_fuel
