-- ===== src/Ps5/Fs/Reading.antt =====
-- crates/ps5/src/fs.rs, `File::read_to_end` on a platform that keeps files.
use ps_payload_rust.Base.{
  ℕ, zero, suc, ◌+◌, ◌≤◌, ◌<◌, ◌^◌, ◌≡◌, ◌∙◌, refl, ap, sym, subst, inl, inr, List, [], ◌∷◌, ◌++◌,
  some, Bytes, length, take, drop, arith, append-nil, append_assoc, le→ltb, length-drop, drop-drop,
  drop-append_length, length-append,
}
use ps_payload_rust.Base.Int.{pos, minus_one, to_unsigned_pos}
use ps_payload_rust.Sys.{Sys, Call}
use ps_payload_rust.Ps5.Error.{Result, ok, err, os}
use ps_payload_rust.Ps5.Effect.{World, M, returns, fails, slice_to}
use ps_payload_rust.Ps5.Frame.{called}
use ps_payload_rust.Ps5.Ownership.{Resource, owned, owned-called}
use ps_payload_rust.Ps5.Net.Fd.{fill}
use ps_payload_rust.Ps5.Net.Stream.Recv.{length-fill, take-fill}
use ps_payload_rust.Ps5.Fs.File.{File, read, read_rounds, read_round}
use ps_payload_rust.Ps5.Fs.Laws.{FileLaws}
use ps_payload_rust.Ps5.Fs.Runs.{Runs}

module _ (K : Sys) (f : File) (chunk : Bytes) (w : World K.State) where
  abbrev pub after_read : World K.State
  after_read = called K (Call.read f.fd (length chunk)) w

  abbrev given : Bytes
  given = (K.respond (Call.read f.fd (length chunk)) w.os).0.data_out

  read_failed :
      (K.respond (Call.read f.fd (length chunk)) w.os).0.ret ≡ minus_one
      → read K f chunk w ≡ fails (os (record { code = K.errno after_read.os })) after_read
  unfolding read
  read_failed e = rw e

  read_given :
      (n : ℕ)
      → n < 2 ^ 64
      → (K.respond (Call.read f.fd (length chunk)) w.os).0.ret ≡ pos n
      → read K f chunk w ≡ returns (n, fill given chunk) after_read
  unfolding read
  read_given n small e = rw (e, to_unsigned_pos n small)

-- The bytes counted are the bytes given.
slice_to_given :
    {S : Type 0} (d chunk : Bytes) (n : ℕ) (w : World S)
    → length d ≡ suc n
    → length d ≤ length chunk
    → slice_to (fill d chunk) (suc n) w ≡ returns d w
slice_to_given d chunk n w e le =
    rw (le→ltb (length (fill d chunk)) (suc n) (omega (arith, length-fill d chunk)))
      (subst (λ k. returns (take k (fill d chunk)) w ≡ returns d w) e (rw (take-fill d chunk le)))

-- A result that is no error comes with the bytes wanted, of a file left alone.
abbrev pub Got :
    {S : Type 0}
    → (S → Bytes)
    → List Resource
    → Bytes
    → Bytes
    → Result (Unit {0}) × Bytes
    → World S
    → Type 0
Got content held kept want (ok _, b) v =
    (b ≡ want) × (content v.os ≡ kept) × (owned v.events ≡ some held)
Got content held kept want (err e, b) v = owned v.events ≡ some held

-- A round that was given `d`, with `rest` still to come: behind nothing nothing comes.
round-Runs :
    {S : Type 0} (content : S → Bytes) (held : List Resource) (kept : Bytes)
    (again : Bytes → Bytes → M S (Result (Unit {0}) × Bytes)) (buf chunk d rest : Bytes)
    (w : World S)
    → length d ≤ length chunk
    → (d ≡ [] → rest ≡ [])
    → content w.os ≡ kept
    → owned w.events ≡ some held
    → (0 < length d
        → Runs held
            (Got content held kept (buf ++ (d ++ rest)))
            (again (buf ++ d) (fill d chunk) w))
    → Runs held
        (Got content held kept (buf ++ (d ++ rest)))
        (read_round again buf (ok (length d, fill d chunk)) w)
round-Runs content held kept again buf chunk [] rest w le last same own next =
    (sym (append-nil buf) ∙ ap (λ t. buf ++ t) (sym (last refl)), same, own)
round-Runs content held kept again buf chunk (x ∷ ds) rest w le last same own next =
    rw (slice_to_given (x ∷ ds) chunk (length ds) w refl le) (next (omega arith))

module _ (K : Sys) (path : Bytes) (laws : FileLaws K path) (held : List Resource) where
  open laws use {content, position, read_at}

  -- From a position in the file, the loop of `read_to_end` ends, within a round for each byte that is
  -- left and one more: a result that is no error is what was in the vector and the file's bytes from
  -- the position on.
  pub read_rounds-Runs :
      (fuel : ℕ) (f : File) (buf chunk : Bytes) (p : ℕ) (w : World K.State)
      → length chunk ≡ 8192
      → position w.os f.fd ≡ some p
      → p ≤ length (content w.os)
      → length (content w.os) < fuel + p
      → owned w.events ≡ some held
      → Runs held
          (Got content held (content w.os) (buf ++ drop p (content w.os)))
          (read_rounds K fuel f buf chunk w)
  unfolding read_rounds
  read_rounds-Runs zero f buf chunk p w block at le enough own = absurd (omega arith)
  read_rounds-Runs (suc fuel) f buf chunk p w block at le enough own =
      elim (read_at w.os f.fd (length chunk) p (omega arith) at le) [
        | inl e ↦ rw (read_failed K f chunk w e) (owned-called K c w held own)
        | inr (rest, split, e, short, last, same, at') ↦
            let fits : length (content w.os) ≡ p + (length d + length rest) =
              omega
                (arith, length-drop p (content w.os), ap length split, length-append d rest, le) in
            rw (read_given K f chunk w (length d) (omega arith) e) (
              rw split (
                round-Runs content held (content w.os) (λ b c. read_rounds K fuel f b c) buf chunk d
                  rest (after_read K f chunk w) short last same (owned-called K c w held own)
                  λ more.
                    rw
                      (
                        same,
                        drop-drop p (length d) (p + length d) (content w.os) refl,
                        split,
                        drop-append_length d rest,
                        append_assoc buf d rest,
                      )
                      at
                      (read_rounds-Runs fuel f (buf ++ d) (fill d chunk) (p + length d)
                        (after_read K f chunk w) (length-fill d chunk ∙ block) at'
                        (rw same (omega arith)) (rw same (omega arith))
                        (owned-called K c w held own))))
      ]
    where
      c : Call
      c = Call.read f.fd (length chunk)

      d : Bytes
      d = (K.respond c w.os).0.data_out
