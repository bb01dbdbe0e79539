-- ===== src/HttpServer/Read/Delivered/Heads.antt =====
-- crates/core/src/http.rs, the first loop of `read_request` on a socket that delivers pieces.
use ps_payload_rust.Base.{
  ℕ, zero, suc, ◌+◌, ◌≤◌, ◌<◌, ◌≡◌, ◌∙◌, refl, sym, inl, inr, List, [], ◌∷◌, ◌++◌, Option, some,
  Bytes, length, arith, Option-cases, append-nil, append_assoc,
}
use ps_payload_rust.Base.Int.{ℤ}
use ps_payload_rust.Sys.{Sys}
use ps_payload_rust.Ps5.Effect.{World, Outcome, returns}
use ps_payload_rust.Ps5.Net.Stream.{TcpStream}
use ps_payload_rust.HttpServer.Head.{find_double_crlf}
use ps_payload_rust.HttpServer.Head.Marker.{find-append, find_new}
use ps_payload_rust.HttpServer.Read.{Limits, HeadRead, read_chunk, read_head}
use ps_payload_rust.HttpServer.Read.Steps.{head_found, head_more}
use ps_payload_rust.HttpServer.Read.Delivered.Pieces.{joined, Delivers, piece, read-Piece}

-- The first loop has read the first pieces up to the marker.
pub data HeadCase (K : Sys) (fd : ℤ) (input : Bytes) (p : ℕ) (most : ℕ)
    (o : Outcome K.State (Option HeadRead)) : Type 0 where
  head_case :
      (buf chunk : Bytes) (ps : List Bytes) (w' : World K.State)
      → o ≡ returns (some (record { head_end = p; buf = buf; chunk = chunk })) w'
      → find_double_crlf buf ≡ some p
      → buf ++ joined ps ≡ input
      → length chunk ≡ read_chunk
      → length ps ≤ most
      → Delivers K fd ps w'.os
      → HeadCase K fd input p most o

HeadCase-weaken :
    (K : Sys) (fd : ℤ) (input : Bytes) (p most more : ℕ) (o : Outcome K.State (Option HeadRead))
    → most ≤ more
    → HeadCase K fd input p most o
    → HeadCase K fd input p more o
HeadCase-weaken K fd input p most more o le (head_case buf chunk ps w' e f j size few d) =
    head_case buf chunk ps w' e f j size (omega arith) d

module _ (K : Sys) (s : TcpStream) (limits : Limits) where
  pub read_head-Delivers :
      (pieces : List Bytes) (fuel : ℕ) (buf chunk : Bytes) (w : World K.State) {p : ℕ}
      → length chunk ≡ read_chunk
      → Delivers K s.fd pieces w.os
      → find_double_crlf (buf ++ joined pieces) ≡ some p
      → p + 3 ≤ limits.max_header_bytes
      → length pieces < fuel
      → HeadCase K s.fd
          (buf ++ joined pieces)
          p
          (length pieces)
          (read_head K fuel s limits buf chunk w)
  read_head-Delivers pieces zero buf chunk w size d found small enough = absurd (omega arith)
  read_head-Delivers [] (suc fuel) buf chunk w {p} size d found small enough =
      head_case buf chunk [] w (head_found K fuel s limits buf chunk w (rw append-nil at found))
        (rw append-nil at found) refl size (omega arith) d
  read_head-Delivers (q ∷ qs) (suc fuel) buf chunk w {p} size d found small enough =
      elim (Option-cases (find_double_crlf buf)) [
        | inr (p', e) ↦
            let same : some p' ≡ some p = sym (find-append buf (q ++ joined qs) e) ∙ found in
            let here : find_double_crlf buf ≡ some p = e ∙ same in
            head_case buf chunk (q ∷ qs) w (head_found K fuel s limits buf chunk w here) here refl
              size (omega arith) d
        | inl e ↦ elim (read-Piece K s chunk w q qs size d) [
          | piece chunk' w' er size' part more ↦
              let under : length buf ≤ limits.max_header_bytes =
                omega (arith, find_new buf (q ++ joined qs) e found) in
              rw
                (
                  head_more K fuel s limits buf chunk w e under q chunk' er d.2 (omega arith) part,
                  ← append_assoc buf q (joined qs),
                )
                (HeadCase-weaken K s.fd ((buf ++ q) ++ joined qs) p (length qs) (length (q ∷ qs))
                  (read_head K fuel s limits (buf ++ q) chunk' w') (omega arith)
                  (read_head-Delivers qs fuel (buf ++ q) chunk' w' size' more
                    (rw append_assoc found) small (omega arith)))
        ]
      ]
