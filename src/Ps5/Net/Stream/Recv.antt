-- ===== src/Ps5/Net/Stream/Recv.antt =====
-- crates/ps5/src/net.rs, `TcpStream::read`: what it leaves in the buffer.
use ps_payload_rust.Base.{
  ℕ, suc, ◌≤◌, ◌<◌, ◌^◌, ◌≡◌, refl, ap, inl, inr, [], ◌∷◌, Bytes, length, take, arith,
}
use ps_payload_rust.Base.Int.{ℤ, pos, to_unsigned_pos}
use ps_payload_rust.Sys.{Sys, Call}
use ps_payload_rust.Ps5.Error.{Error, os}
use ps_payload_rust.Ps5.Effect.{Outcome, World, returns, fails}
use ps_payload_rust.Ps5.Net.Fd.{fill}
use ps_payload_rust.Ps5.Net.Stream.{TcpStream, read}
use ps_payload_rust.Ps5.Net.Laws.{RecvCounts}

pub length-fill : (d buf : Bytes) → length (fill d buf) ≡ length buf
length-fill [] buf = refl
length-fill (x ∷ d) [] = refl
length-fill (x ∷ d) (b ∷ buf) = ap suc (length-fill d buf)

-- `buf[..n]` holds the n bytes that the kernel has written.
pub take-fill : (d buf : Bytes) → length d ≤ length buf → take (length d) (fill d buf) ≡ d
take-fill [] buf h = refl
take-fill (x ∷ d) [] h = absurd (omega arith)
take-fill (x ∷ d) (b ∷ buf) h = ap (λ t. x ∷ t) (take-fill d buf (omega arith))

-- One `read` fails, or it has put the bytes `d` at the start of the buffer.
pub data ReadCase {S : Type 0} (chunk : Bytes) (o : Outcome S (ℕ × Bytes)) : Type 0 where
  failed : (e : Error) (w' : World S) → o ≡ fails e w' → ReadCase chunk o
  got :
      (d chunk' : Bytes) (w' : World S)
      → o ≡ returns (length d, chunk') w'
      → length d ≤ length chunk
      → length chunk' ≡ length chunk
      → take (length d) chunk' ≡ d
      → ReadCase chunk o

module _ (K : Sys) where
  -- The world after one `recv`.
  abbrev pub after_recv : ℤ → ℕ → World K.State → World K.State
  after_recv fd len w = record {
    os = (K.respond (Call.recv fd len (pos 0)) w.os).1;
    events =
        record {
          asked = Call.recv fd len (pos 0);
          answered = (K.respond (Call.recv fd len (pos 0)) w.os).0;
        }
        ∷ w.events;
  }

  -- A `recv` that counts `n` bytes below 2^64.
  pub read-recv :
      (s : TcpStream) (chunk : Bytes) (w : World K.State) (n : ℕ)
      → n < 2 ^ 64
      → (K.respond (Call.recv s.fd (length chunk) (pos 0)) w.os).0.ret ≡ pos n
      → read K s chunk w
        ≡ returns
            (n, fill (K.respond (Call.recv s.fd (length chunk) (pos 0)) w.os).0.data_out chunk)
            (after_recv s.fd (length chunk) w)
  unfolding read
  read-recv s chunk w n small e = rw (e, to_unsigned_pos n small)

  pub read_cases :
      RecvCounts K
      → (s : TcpStream) (chunk : Bytes) (w : World K.State) → length chunk < 2 ^ 64
      → ReadCase chunk (read K s chunk w)
  unfolding read
  read_cases counts s chunk w small = elim (counts s.fd (length chunk) (pos 0) w.os) [
    | inl e ↦
        failed (os (record { code = K.errno (after_recv s.fd (length chunk) w).os }))
          (after_recv s.fd (length chunk) w) (rw e)
    | inr (e, le) ↦
        let d = (K.respond (Call.recv s.fd (length chunk) (pos 0)) w.os).0.data_out in
        got d (fill d chunk) (after_recv s.fd (length chunk) w)
          (read-recv s chunk w (length d) (omega arith) e) le (length-fill d chunk)
          (take-fill d chunk le)
  ]
