-- ===== src/HttpServer/Read/Steps.antt =====
-- crates/core/src/http.rs, `read_request`: the rounds of its two loops as equations.
use ps_payload_rust.Base.{
  ℕ, suc, ◌≤◌, ◌<◌, ◌≡◌, [], ◌∷◌, ◌++◌, none, some, Bytes, length, take, ◌==◌, arith, le→ltb,
  lt→ltb, if◌then◌else◌,
}
use ps_payload_rust.Sys.{Sys}
use ps_payload_rust.Ps5.Error.{Error, invalid_input}
use ps_payload_rust.Ps5.Effect.{World, returns, fails, slice_to}
use ps_payload_rust.Ps5.Net.Stream.{TcpStream, read}
use ps_payload_rust.HttpServer.Head.{find_double_crlf}
use ps_payload_rust.HttpServer.Read.{Limits, read_head, read_body}

-- A slice of what was read is in range.
slice_to-part :
    {S : Type 0} (chunk d : Bytes) (w : World S)
    → length d ≤ length chunk
    → take (length d) chunk ≡ d
    → slice_to chunk (length d) w ≡ returns d w
slice_to-part chunk d w le part = rw (le→ltb (length chunk) (length d) le, part)

module _ (K : Sys) (fuel : ℕ) (s : TcpStream) (limits : Limits) (buf chunk : Bytes)
    (w : World K.State) where
  pub head_found :
      {p : ℕ}
      → find_double_crlf buf ≡ some p
      → read_head K (suc fuel) s limits buf chunk w
        ≡ returns (some (record { head_end = p; buf = buf; chunk = chunk })) w
  unfolding read_head
  head_found e = rw (e, read_head)

  module _ (e : find_double_crlf buf ≡ none) where
    pub head_over :
        limits.max_header_bytes < length buf
        → read_head K (suc fuel) s limits buf chunk w
          ≡ fails (invalid_input "request head exceeds limit") w
    unfolding read_head
    head_over over = rw (e, read_head, lt→ltb _ _ over)

    module _ (under : length buf ≤ limits.max_header_bytes) where
      pub head_failed :
          {err : Error} {w' : World K.State}
          → read K s chunk w ≡ fails err w'
          → read_head K (suc fuel) s limits buf chunk w ≡ fails err w'
      unfolding read_head
      head_failed er = rw (e, read_head, le→ltb _ _ under, er)

      pub head_eof :
          {chunk' : Bytes} {w' : World K.State}
          → read K s chunk w ≡ returns (0, chunk') w'
          → read_head K (suc fuel) s limits buf chunk w ≡ (
              if length buf == 0
              then returns none w'
              else fails (invalid_input "connection closed mid-request") w')
      unfolding read_head
      head_eof er = rw (e, read_head, le→ltb _ _ under, er) (ground arith)

      pub head_more :
          (d chunk' : Bytes) {w' : World K.State}
          → read K s chunk w ≡ returns (length d, chunk') w'
          → 0 < length d
          → length d ≤ length chunk'
          → take (length d) chunk' ≡ d
          → read_head K (suc fuel) s limits buf chunk w
            ≡ read_head K fuel s limits (buf ++ d) chunk' w'
      unfolding read_head
      head_more [] chunk' {w'} er some_bytes le part = absurd (omega arith)
      head_more (x ∷ d) chunk' {w'} er some_bytes le part =
          rw (e, read_head, le→ltb _ _ under, er) (rw (slice_to-part chunk' (x ∷ d) w' le part))

module _ (K : Sys) (fuel : ℕ) (s : TcpStream) (n : ℕ) (body chunk : Bytes) (w : World K.State) where
  pub body_done : n ≤ length body → read_body K (suc fuel) s n body chunk w ≡ returns body w
  unfolding read_body
  body_done done = rw (read_body, le→ltb _ _ done)

  module _ (short : length body < n) where
    pub body_failed :
        {err : Error} {w' : World K.State}
        → read K s chunk w ≡ fails err w'
        → read_body K (suc fuel) s n body chunk w ≡ fails err w'
    unfolding read_body
    body_failed er = rw (read_body, lt→ltb _ _ short, er)

    pub body_eof :
        {chunk' : Bytes} {w' : World K.State}
        → read K s chunk w ≡ returns (0, chunk') w'
        → read_body K (suc fuel) s n body chunk w ≡ returns body w'
    unfolding read_body
    body_eof er = rw (read_body, lt→ltb _ _ short, er)

    pub body_more :
        (d chunk' : Bytes) {w' : World K.State}
        → read K s chunk w ≡ returns (length d, chunk') w'
        → 0 < length d
        → length d ≤ length chunk'
        → take (length d) chunk' ≡ d
        → read_body K (suc fuel) s n body chunk w ≡ read_body K fuel s n (body ++ d) chunk' w'
    unfolding read_body
    body_more [] chunk' {w'} er some_bytes le part = absurd (omega arith)
    body_more (x ∷ d) chunk' {w'} er some_bytes le part =
        rw (read_body, lt→ltb _ _ short, er) (rw (slice_to-part chunk' (x ∷ d) w' le part))
