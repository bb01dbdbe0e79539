-- ===== src/HttpServer/Read/Delivered/Bodies.antt =====
-- crates/core/src/http.rs, the second loop of `read_request` on a socket that delivers pieces.
use ps_payload_rust.Base.{
  ℕ, zero, suc, ◌<◌, ◌≡◌, ◌∙◌, sym, inl, inr, List, [], ◌∷◌, ◌++◌, Bytes, length, take,
  take-append_left, ltb, arith, Bool-cases, ltb→le, ltb→lt, append-nil, append_assoc,
}
use ps_payload_rust.Sys.{Sys}
use ps_payload_rust.Ps5.Effect.{World, returns}
use ps_payload_rust.Ps5.Net.Stream.{TcpStream}
use ps_payload_rust.HttpServer.Read.{read_chunk, read_body}
use ps_payload_rust.HttpServer.Read.Steps.{body_done, body_eof, body_more}
use ps_payload_rust.HttpServer.Read.Delivered.Pieces.{joined, Delivers, piece, read_eof, read-Piece}

module _ (K : Sys) (s : TcpStream) (n : ℕ) where
  -- The second loop has read the bytes that are announced, or all there are.
  pub read_body-Delivers :
      (pieces : List Bytes) (fuel : ℕ) (body chunk : Bytes) (w : World K.State)
      → length chunk ≡ read_chunk
      → Delivers K s.fd pieces w.os
      → length pieces < fuel
      → (b : Bytes) × (w' : World K.State) × (read_body K fuel s n body chunk w ≡ returns b w')
        × (take n b ≡ take n (body ++ joined pieces))
  read_body-Delivers pieces zero body chunk w size d enough = absurd (omega arith)
  read_body-Delivers [] (suc fuel) body chunk w size d enough =
      elim (Bool-cases (ltb (length body) n)) [
        | inr done ↦ (body, w, body_done K fuel s n body chunk w (ltb→le _ _ done), rw append-nil)
        | inl short ↦
            let (chunk', w', er) = read_eof K s chunk w size d in
            (body, w', body_eof K fuel s n body chunk w (ltb→lt _ _ short) er, rw append-nil)
      ]
  read_body-Delivers (q ∷ qs) (suc fuel) body chunk w size d enough =
      elim (Bool-cases (ltb (length body) n)) [
        | inr done ↦ (
          body,
          w,
          body_done K fuel s n body chunk w (ltb→le _ _ done),
          sym (take-append_left n body _ (ltb→le _ _ done)),
        )
        | inl short ↦ elim (read-Piece K s chunk w q qs size d) [
          | piece chunk' w' er size' part more ↦
              let (b, w'', e, same) =
                read_body-Delivers qs fuel (body ++ q) chunk' w' size' more (omega arith) in
              (
                b,
                w'',
                body_more K fuel s n body chunk w (ltb→lt _ _ short) q chunk' er d.2 (omega arith)
                      part
                    ∙ e,
                same ∙ rw append_assoc,
              )
        ]
      ]
