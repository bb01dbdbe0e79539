-- ===== src/HttpServer/Read/Delivered/Pieces.antt =====
-- crates/core/src/http.rs: a socket that hands out its input in pieces, and one `read` on it.
use ps_payload_rust.Base.{
  ℕ, ◌≤◌, ◌<◌, ◌≡◌, ◌∙◌, subst, sym, List, [], ◌∷◌, ◌++◌, Bytes, length, take, arith,
}
use ps_payload_rust.Base.Int.{ℤ, pos}
use ps_payload_rust.Sys.{Sys, Call}
use ps_payload_rust.Ps5.Effect.{World, Outcome, returns}
use ps_payload_rust.Ps5.Net.Fd.{fill}
use ps_payload_rust.Ps5.Net.Stream.{TcpStream, read}
use ps_payload_rust.Ps5.Net.Stream.Recv.{read-recv, after_recv, length-fill, take-fill}
use ps_payload_rust.HttpServer.Read.{read_chunk}

-- The pieces of the input, one after the other.
abbrev pub joined : List Bytes → Bytes
joined [] = []
joined (p ∷ ps) = p ++ joined ps

-- From this state on, the socket hands out these pieces, one for each `recv`, and then the end.
abbrev pub Delivers : (K : Sys) → ℤ → List Bytes → K.State → Type 0
Delivers K fd [] s = (K.respond (Call.recv fd read_chunk (pos 0)) s).0.ret ≡ pos 0
Delivers K fd (p ∷ ps) s =
    ((K.respond (Call.recv fd read_chunk (pos 0)) s).0.ret ≡ pos (length p))
    × ((K.respond (Call.recv fd read_chunk (pos 0)) s).0.data_out ≡ p)
    × (0 < length p)
    × (length p ≤ read_chunk)
    × Delivers K fd ps (K.respond (Call.recv fd read_chunk (pos 0)) s).1

-- What one `read` has done on a socket that delivers pieces.
pub data Piece (K : Sys) (fd : ℤ) (chunk : Bytes) (p : Bytes) (ps : List Bytes)
    (o : Outcome K.State (ℕ × Bytes)) : Type 0 where
  piece :
      (chunk' : Bytes) (w' : World K.State)
      → o ≡ returns (length p, chunk') w'
      → length chunk' ≡ read_chunk
      → take (length p) chunk' ≡ p
      → Delivers K fd ps w'.os
      → Piece K fd chunk p ps o

module _ (K : Sys) (s : TcpStream) where
  pub read_eof :
      (chunk : Bytes) (w : World K.State)
      → length chunk ≡ read_chunk
      → Delivers K s.fd [] w.os
      → (chunk' : Bytes) × (w' : World K.State) × (read K s chunk w ≡ returns (0, chunk') w')
  read_eof chunk w size d = (_, _, read-recv K s chunk w 0 (omega arith) (rw size d))

  pub read-Piece :
      (chunk : Bytes) (w : World K.State) (p : Bytes) (ps : List Bytes)
      → length chunk ≡ read_chunk
      → Delivers K s.fd (p ∷ ps) w.os
      → Piece K s.fd chunk p ps (read K s chunk w)
  read-Piece chunk w p ps size (ret, out, some_bytes, le, more) =
      piece (fill d chunk) (after_recv K s.fd (length chunk) w)
        (read-recv K s chunk w (length p) (omega arith) (rw size ret)) (length-fill d chunk ∙ size)
        (subst (λ t. take (length p) (fill t chunk) ≡ p) (sym d_is_p)
          (take-fill p chunk (omega arith)))
        (rw size more)
    where
      d : Bytes
      d = (K.respond (Call.recv s.fd (length chunk) (pos 0)) w.os).0.data_out

      d_is_p : (K.respond (Call.recv s.fd (length chunk) (pos 0)) w.os).0.data_out ≡ p
      d_is_p = rw size out
