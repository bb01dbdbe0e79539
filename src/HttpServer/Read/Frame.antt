-- ===== src/HttpServer/Read/Frame.antt =====
-- crates/core/src/http.rs, `read_request`: it only receives, and only from its own socket.
use ps_payload_rust.Base.{
  [], ℕ, zero, suc, ◌≤◌, ◌≡◌, ◌∙◌, refl, inl, inr, Bytes, length, ltb, ◌++◌, arith, append-nil,
  none, some, Option, Bool-cases, Option-cases, ◌==◌, ◌+◌, drop, take,
}
use ps_payload_rust.Base.Int.{ℤ, pos, eq_ℤ, minus_one, to_unsigned}
use ps_payload_rust.Sys.{Sys, Call, recv}
use ps_payload_rust.Ps5.Effect.{
  World, M, ◌>>=◌, pure, fail, panic, last_os, slice_to, slice_from, from_result,
}
use ps_payload_rust.Ps5.Frame.{
  Calls, here, next, Only, Calls-and_then, Only-from_result, Only-if, called, Calls-trans,
}
use ps_payload_rust.Ps5.Util.{cvt_ssize}
use ps_payload_rust.Ps5.Error.{invalid_input}
use ps_payload_rust.Ps5.Net.Fd.{fill}
use ps_payload_rust.Ps5.Net.Laws.{sent, FiniteSignals}
use ps_payload_rust.Ps5.Net.Stream.{TcpStream, read}
use ps_payload_rust.HttpServer.Head.{find_double_crlf, Parsed, content_length, parse_head}
use ps_payload_rust.HttpServer.Read.{
  Limits, HeadRead, zeroed_chunk, head_round, body_round, read_head, read_body, finish_body,
  finish_request, read_request, after_head,
}

abbrev pub IsRecv : ℤ → Call → Type 0
IsRecv fd (recv fd' len flags) = fd' ≡ fd
IsRecv fd c = ⊥

-- Receiving sends nothing.
pub sent-Calls :
    (K : Sys) (fd other : ℤ) {w v : World K.State}
    → Calls K (IsRecv fd) w v
    → sent other v.events ≡ sent other w.events
sent-Calls K fd other here = refl
sent-Calls K fd other (next (recv fd' len flags) p h) = append-nil _ ∙ sent-Calls K fd other h
sent-Calls K fd other (next c p h) = absurd p

pub patience-Calls :
    (K : Sys) (P : Call → Type 0) (signals : FiniteSignals K) {w v : World K.State}
    → Calls K P w v
    → signals.patience v.os ≤ signals.patience w.os
patience-Calls K P signals here = omega arith
patience-Calls K P signals (next {v} c p h) =
    omega (arith, signals.steady c v.os, patience-Calls K P signals h)

module _ (K : Sys) (s : TcpStream) where
  abbrev Quiet : {A : Type 0} → M K.State A → Type 0
  Quiet = Only K (IsRecv s.fd)

  cvt_ssize-Quiet : (r : ℤ) → Quiet (cvt_ssize K r)
  unfolding cvt_ssize
  cvt_ssize-Quiet r =
      Only-if K (IsRecv s.fd) (eq_ℤ r minus_one) (last_os K) (pure (to_unsigned 64 r)) (λ w. here)
        (λ w. here)

  read-Quiet : (chunk : Bytes) → Quiet (read K s chunk)
  unfolding read
  read-Quiet chunk w =
      let r = (K.respond (Call.recv s.fd (length chunk) (pos 0)) w.os).0 in
      let w1 = called K (Call.recv s.fd (length chunk) (pos 0)) w in
      Calls-trans K (IsRecv s.fd) (next (Call.recv s.fd (length chunk) (pos 0)) refl here) (
        Calls-and_then K (IsRecv s.fd) w1 (cvt_ssize K r.ret w1)
          (λ n. pure (n, fill r.data_out chunk)) (cvt_ssize-Quiet r.ret w1) (λ n v. here))

  slice_to-Quiet : (buf : Bytes) (n : ℕ) → Quiet (slice_to buf n)
  slice_to-Quiet buf n =
      Only-if K (IsRecv s.fd) (ltb (length buf) n) panic (pure (take n buf)) (λ w. here) (λ w. here)

  slice_from-Quiet : (buf : Bytes) (n : ℕ) → Quiet (slice_from buf n)
  slice_from-Quiet buf n =
      Only-if K (IsRecv s.fd) (ltb (length buf) n) panic (pure (drop n buf)) (λ w. here) (λ w. here)

  head_round-Quiet :
      (again : Bytes → Bytes → M K.State (Option HeadRead)) (buf : Bytes) (got : ℕ × Bytes)
      → ((b c : Bytes) → Quiet (again b c))
      → Quiet (head_round again buf got)
  head_round-Quiet again buf (zero, chunk) h w =
      Only-if K (IsRecv s.fd) (length buf == 0) (pure none)
        (fail (invalid_input "connection closed mid-request")) (λ v. here) (λ v. here) w
  head_round-Quiet again buf (suc m, chunk) h w =
      Calls-and_then K (IsRecv s.fd) w (slice_to chunk (suc m) w)
        (λ part. again (buf ++ part) chunk) (slice_to-Quiet chunk (suc m) w)
        (λ part. h (buf ++ part) chunk)

  body_round-Quiet :
      (again : Bytes → Bytes → M K.State Bytes) (body : Bytes) (got : ℕ × Bytes)
      → ((b c : Bytes) → Quiet (again b c))
      → Quiet (body_round again body got)
  body_round-Quiet again body (zero, chunk) h w = here
  body_round-Quiet again body (suc m, chunk) h w =
      Calls-and_then K (IsRecv s.fd) w (slice_to chunk (suc m) w)
        (λ part. again (body ++ part) chunk) (slice_to-Quiet chunk (suc m) w)
        (λ part. h (body ++ part) chunk)

  read_head-Quiet :
      (fuel : ℕ) (limits : Limits) (buf chunk : Bytes) → Quiet (read_head K fuel s limits buf chunk)
  unfolding read_head
  read_head-Quiet zero limits buf chunk w = here
  read_head-Quiet (suc fuel) limits buf chunk w = elim (Option-cases (find_double_crlf buf)) [
    | inr (p, e) ↦ rw (e, read_head) here
    | inl e ↦ elim (Bool-cases (ltb limits.max_header_bytes (length buf))) [
      | inl over ↦ rw (e, read_head, over) here
      | inr under ↦
          rw (e, read_head, under)
            (Calls-and_then K (IsRecv s.fd) w (read K s chunk w)
              (head_round (λ b c. read_head K fuel s limits b c) buf) (read-Quiet chunk w)
              (λ got.
                head_round-Quiet (λ b c. read_head K fuel s limits b c) buf got
                  (λ b c. read_head-Quiet fuel limits b c)))
    ]
  ]

  read_body-Quiet : (fuel n : ℕ) (body chunk : Bytes) → Quiet (read_body K fuel s n body chunk)
  unfolding read_body
  read_body-Quiet zero n body chunk w = here
  read_body-Quiet (suc fuel) n body chunk w = elim (Bool-cases (ltb (length body) n)) [
    | inr done ↦ rw (read_body, done) here
    | inl short ↦
        rw (read_body, short)
          (Calls-and_then K (IsRecv s.fd) w (read K s chunk w)
            (body_round (λ b c. read_body K fuel s n b c) body) (read-Quiet chunk w)
            (λ got.
              body_round-Quiet (λ b c. read_body K fuel s n b c) body got
                (λ b c. read_body-Quiet fuel n b c)))
  ]

  finish_body-Quiet :
      (fuel : ℕ) (limits : Limits) (h : HeadRead) (parsed : Parsed)
      → Quiet (finish_body K fuel s limits h parsed)
  unfolding finish_body
  finish_body-Quiet fuel limits h parsed w =
      elim (Bool-cases (ltb limits.max_body_bytes (content_length parsed.headers))) [
        | inl over ↦ rw (finish_body, over) here
        | inr within ↦
            rw (finish_body, within)
              (Calls-and_then K (IsRecv s.fd) w (slice_from h.buf (h.head_end + 4) w)
                (λ early.
                  read_body K fuel s (content_length parsed.headers) early h.chunk >>= λ body.
                  pure (
                    some (record {
                      method = parsed.method;
                      target = parsed.target;
                      version = parsed.version;
                      headers = parsed.headers;
                      body = take (content_length parsed.headers) body;
                    })))
                (slice_from-Quiet h.buf (h.head_end + 4) w)
                (λ early v.
                  Calls-and_then K (IsRecv s.fd) v
                    (read_body K fuel s (content_length parsed.headers) early h.chunk v) _
                    (read_body-Quiet fuel (content_length parsed.headers) early h.chunk v)
                    (λ body u. here)))
      ]

  finish_request-Quiet :
      (fuel : ℕ) (limits : Limits) (h : HeadRead) → Quiet (finish_request K fuel s limits h)
  unfolding finish_request
  finish_request-Quiet fuel limits h w =
      Calls-and_then K (IsRecv s.fd) w (slice_to h.buf h.head_end w)
        (λ head. from_result (parse_head head) >>= λ parsed. finish_body K fuel s limits h parsed)
        (slice_to-Quiet h.buf h.head_end w)
        (λ head v.
          Calls-and_then K (IsRecv s.fd) v (from_result (parse_head head) v)
            (λ parsed. finish_body K fuel s limits h parsed)
            (Only-from_result K (IsRecv s.fd) (parse_head head) v)
            (λ parsed. finish_body-Quiet fuel limits h parsed))

  after_head-Quiet :
      (fuel : ℕ) (limits : Limits) (o : Option HeadRead) → Quiet (after_head K fuel s limits o)
  after_head-Quiet fuel limits none w = here
  after_head-Quiet fuel limits (some h) w = finish_request-Quiet fuel limits h w

  -- The only foreign calls of `read_request` are `recv` on the descriptor of its stream.
  pub read_request-Only :
      (fuel : ℕ) (limits : Limits) → Only K (IsRecv s.fd) (read_request K fuel s limits)
  unfolding read_request
  read_request-Only fuel limits w =
      Calls-and_then K (IsRecv s.fd) w (read_head K fuel s limits [] zeroed_chunk w)
        (λ h. after_head K fuel s limits h) (read_head-Quiet fuel limits [] zeroed_chunk w)
        (λ h. after_head-Quiet fuel limits h)
