-- ===== src/HttpServer/Read.antt =====
-- crates/core/src/http.rs: `read_request`.
pub mod Frame
pub mod Steps
pub mod Ends
pub mod Delivered
pub mod RoundTrip
pub mod Whole
use ps_payload_rust.Base.{
  ℕ, zero, suc, ◌+◌, ◌≡◌, List, [], ◌∷◌, ◌++◌, true, false, Option, none, some, Bytes, length, take,
  replicate, ltb, ◌==◌, if◌then◌else◌, length-replicate,
}
use ps_payload_rust.Sys.{Sys}
use ps_payload_rust.Ps5.Error.{invalid_input}
use ps_payload_rust.Ps5.Effect.{
  M, pure, fail, out_of_fuel, ◌>>=◌, ◌>>◌, from_result, slice_to, slice_from,
}
use ps_payload_rust.Ps5.Net.Stream.{TcpStream, read}
use ps_payload_rust.HttpServer.Request.{Request}
use ps_payload_rust.HttpServer.Head.{find_double_crlf, Parsed, parse_head, content_length}

pub record Limits : Type 0 where
  pub max_header_bytes : ℕ
  pub max_body_bytes : ℕ

abbrev pub read_chunk : ℕ
read_chunk = 4096

-- `[0u8; READ_CHUNK]`
unfoldable pub zeroed_chunk : Bytes
zeroed_chunk = replicate read_chunk 0

pub length-zeroed_chunk : length zeroed_chunk ≡ read_chunk
unfolding zeroed_chunk
length-zeroed_chunk = length-replicate {A = ℕ} read_chunk 0

-- The end of the head, the bytes read and the buffer, behind the first loop.
pub record HeadRead : Type 0 where
  pub head_end : ℕ
  pub buf : Bytes
  pub chunk : Bytes

-- What a round of the first loop does with what `read` returned; `again` is the next round.
abbrev pub head_round :
    {S : Type 0}
    → (Bytes → Bytes → M S (Option HeadRead))
    → Bytes
    → ℕ × Bytes
    → M S (Option HeadRead)
head_round again buf (zero, chunk) =
    if length buf == 0 then pure none else fail (invalid_input "connection closed mid-request")
head_round again buf (suc m, chunk) = do part ← slice_to chunk (suc m); again (buf ++ part) chunk

-- The same of the second loop.
abbrev pub body_round : {S : Type 0} → (Bytes → Bytes → M S Bytes) → Bytes → ℕ × Bytes → M S Bytes
body_round again body (zero, chunk) = pure body
body_round again body (suc m, chunk) = do part ← slice_to chunk (suc m); again (body ++ part) chunk

module _ (K : Sys) where
  -- The first loop: `none` is the early return `Ok(None)`. The fuel bounds the rounds.
  unfoldable pub read_head : ℕ → TcpStream → Limits → Bytes → Bytes → M K.State (Option HeadRead)
  read_head zero s limits buf chunk = out_of_fuel
  read_head (suc fuel) s limits buf chunk = elim (find_double_crlf buf) [
    | some pos ↦ pure (some (record { head_end = pos; buf = buf; chunk = chunk }))
    | none ↦ elim (ltb limits.max_header_bytes (length buf)) [
      | true ↦ fail (invalid_input "request head exceeds limit")
      | false ↦ do got ← read K s chunk; head_round (λ b c. read_head fuel s limits b c) buf got
    ]
  ]

  -- The second loop.
  unfoldable pub read_body : ℕ → TcpStream → ℕ → Bytes → Bytes → M K.State Bytes
  read_body zero s n body chunk = out_of_fuel
  read_body (suc fuel) s n body chunk = elim (ltb (length body) n) [
    | true ↦ do got ← read K s chunk; body_round (λ b c. read_body fuel s n b c) body got
    | false ↦ pure body
  ]

  -- Step 3, once the head is parsed.
  unfoldable pub finish_body :
      ℕ → TcpStream → Limits → HeadRead → Parsed → M K.State (Option Request)
  unfolding read_body
  finish_body fuel s limits h parsed = do
    let n = content_length parsed.headers
    elim (ltb limits.max_body_bytes n) [
      | true ↦ fail (invalid_input "request body exceeds limit")
      | false ↦ do
        early ← slice_from h.buf (h.head_end + 4)
        body ← read_body fuel s n early h.chunk
        pure (
            some (record {
              method = parsed.method;
              target = parsed.target;
              version = parsed.version;
              headers = parsed.headers;
              body = take n body;
            }))
    ]

  -- Steps 2 and 3, once the head is complete.
  unfoldable pub finish_request : ℕ → TcpStream → Limits → HeadRead → M K.State (Option Request)
  unfolding finish_body
  finish_request fuel s limits h = do
    head ← slice_to h.buf h.head_end
    parsed ← from_result (parse_head head)
    finish_body fuel s limits h parsed

  -- The early return when the peer has closed at once.
  abbrev pub after_head : ℕ → TcpStream → Limits → Option HeadRead → M K.State (Option Request)
  after_head fuel s limits none = pure none
  after_head fuel s limits (some h) = finish_request fuel s limits h

  unfoldable pub read_request : ℕ → TcpStream → Limits → M K.State (Option Request)
  unfolding read_head finish_request
  read_request fuel s limits = do
    h ← read_head fuel s limits [] zeroed_chunk
    after_head fuel s limits h
