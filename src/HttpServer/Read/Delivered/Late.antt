-- ===== src/HttpServer/Read/Delivered/Late.antt =====
-- crates/core/src/http.rs, the first loop of `read_request` on a socket that delivers no complete head
-- in time.
use ps_payload_rust.Base.{
  ℕ, zero, suc, ◌+◌, ◌≤◌, ◌<◌, ◌≡◌, inl, inr, List, [], ◌∷◌, ◌++◌, Option, none, some, Bytes,
  length, length-append, arith, ltb, ◌==◌, Bool-cases, Option-cases, append-nil, append_assoc,
  ltb→le, ltb→lt, if◌then◌else◌,
}
use ps_payload_rust.Sys.{Sys}
use ps_payload_rust.Ps5.Error.{Error, invalid_input}
use ps_payload_rust.Ps5.Effect.{World, Outcome, returns, fails}
use ps_payload_rust.Ps5.Net.Stream.{TcpStream}
use ps_payload_rust.HttpServer.Head.{find_double_crlf}
use ps_payload_rust.HttpServer.Head.Marker.{find_bound, find-append}
use ps_payload_rust.HttpServer.Read.{Limits, HeadRead, read_chunk, read_head}
use ps_payload_rust.HttpServer.Read.Steps.{head_over, head_eof, head_more}
use ps_payload_rust.HttpServer.Read.Delivered.Pieces.{joined, Delivers, piece, read_eof, read-Piece}

abbrev pub head_exceeds : Error
head_exceeds = invalid_input "request head exceeds limit"

abbrev pub closed_early : Error
closed_early = invalid_input "connection closed mid-request"

-- There is no marker, or it ends a chunk beyond the limit.
abbrev pub IsLate : Limits → Bytes → Type 0
IsLate limits input =
    (p : ℕ) → find_double_crlf input ≡ some p → limits.max_header_bytes + read_chunk ≤ p + 3

-- What the first loop makes of such an input.
pub data LateCase (K : Sys) (limits : Limits) (input : Bytes)
    (o : Outcome K.State (Option HeadRead)) : Type 0 where
  over :
      (w : World K.State)
      → limits.max_header_bytes < length input
      → o ≡ fails head_exceeds w
      → LateCase K limits input o
  closed :
      (w : World K.State)
      → length input ≤ limits.max_header_bytes
      → o ≡ (if length input == 0 then returns none w else fails closed_early w)
      → LateCase K limits input o

-- A buffer within a chunk of the limit holds no marker.
none-yet :
    (limits : Limits) (buf rest : Bytes)
    → IsLate limits (buf ++ rest)
    → length buf ≤ limits.max_header_bytes + read_chunk
    → find_double_crlf buf ≡ none
none-yet limits buf rest late fits = elim (Option-cases (find_double_crlf buf)) [
  | inl e ↦ e
  | inr (p, e) ↦ absurd (omega (arith, late p (find-append buf rest e), find_bound buf e, fits))
]

module _ (K : Sys) (s : TcpStream) (limits : Limits) where
  pub read_head-Late :
      (pieces : List Bytes) (fuel : ℕ) (buf chunk : Bytes) (w : World K.State)
      → length chunk ≡ read_chunk
      → Delivers K s.fd pieces w.os
      → IsLate limits (buf ++ joined pieces)
      → length buf ≤ limits.max_header_bytes + read_chunk
      → length pieces < fuel
      → LateCase K limits (buf ++ joined pieces) (read_head K fuel s limits buf chunk w)
  read_head-Late pieces zero buf chunk w size d late fits enough = absurd (omega arith)
  read_head-Late [] (suc fuel) buf chunk w size d late fits enough =
      let bare = none-yet limits buf [] late fits in
      elim (Bool-cases (ltb limits.max_header_bytes (length buf))) [
        | inl more ↦ rw append-nil (
            over w (ltb→lt _ _ more) (head_over K fuel s limits buf chunk w bare (ltb→lt _ _ more)))
        | inr within ↦
            let (chunk', w', er) = read_eof K s chunk w size d in
            rw append-nil (
              closed w' (ltb→le _ _ within)
                (head_eof K fuel s limits buf chunk w bare (ltb→le _ _ within) er))
      ]
  read_head-Late (q ∷ qs) (suc fuel) buf chunk w size d late fits enough =
      let bare = none-yet limits buf (q ++ joined qs) late fits in
      elim (Bool-cases (ltb limits.max_header_bytes (length buf))) [
        | inl more ↦
            over w (omega (arith, ltb→lt _ _ more, length-append buf (q ++ joined qs)))
              (head_over K fuel s limits buf chunk w bare (ltb→lt _ _ more))
        | inr within ↦ elim (read-Piece K s chunk w q qs size d) [
          | piece chunk' w' er size' part rest ↦
              rw
                (
                  head_more K fuel s limits buf chunk w bare (ltb→le _ _ within) q chunk' er d.2
                      (omega arith) part,
                  ← append_assoc buf q (joined qs),
                )
                (read_head-Late qs fuel (buf ++ q) chunk' w' size' rest (rw append_assoc late)
                  (omega (arith, length-append buf q, ltb→le _ _ within)) (omega arith))
        ]
      ]
