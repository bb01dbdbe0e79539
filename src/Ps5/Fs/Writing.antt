-- ===== src/Ps5/Fs/Writing.antt =====
-- crates/ps5/src/fs.rs, `File::write_all` on a platform that keeps files.
use ps_payload_rust.Base.{
  ℕ, zero, suc, ◌≤◌, ◌<◌, ◌^◌, ◌≡◌, ◌∙◌, ap, sym, subst, inl, inr, List, [], ◌∷◌, ◌++◌, some, Bytes,
  length, take, drop, arith, append-nil, append_assoc, le→ltb, length-drop, take-append-drop,
}
use ps_payload_rust.Base.Int.{pos, minus_one, to_unsigned_pos}
use ps_payload_rust.Sys.{Sys, Call}
use ps_payload_rust.Ps5.Error.{os}
use ps_payload_rust.Ps5.Effect.{World, returns, fails}
use ps_payload_rust.Ps5.Frame.{called}
use ps_payload_rust.Ps5.Ownership.{Resource, owned, owned-called}
use ps_payload_rust.Ps5.Fs.File.{File, write, write_all}
use ps_payload_rust.Ps5.Fs.Laws.{FileLaws}
use ps_payload_rust.Ps5.Fs.Runs.{Runs}

module _ (K : Sys) (f : File) (buf : Bytes) (w : World K.State) where
  abbrev written : World K.State
  written = called K (Call.write f.fd buf) w

  write_failed :
      (K.respond (Call.write f.fd buf) w.os).0.ret ≡ minus_one
      → write K f buf w ≡ fails (os (record { code = K.errno written.os })) written
  unfolding write
  write_failed e = rw e

  write_wrote :
      (n : ℕ)
      → n < 2 ^ 64
      → (K.respond (Call.write f.fd buf) w.os).0.ret ≡ pos n
      → write K f buf w ≡ returns n written
  unfolding write
  write_wrote n small e = rw (e, to_unsigned_pos n small)

module _ (K : Sys) (path : Bytes) (laws : FileLaws K path) (held : List Resource) where
  open laws use {content, position, wrote}

  -- The file holds what it held and the whole buffer behind it.
  abbrev pub Appended : File → Bytes → World K.State → Type 0
  Appended f want v =
      (content v.os ≡ want)
      × (position v.os f.fd ≡ some (length (content v.os)))
      × (owned v.events ≡ some held)

  -- Of a file that stands at its end, `write_all` of fewer than 2^64 bytes ends within a round for
  -- each byte, without a panic: the whole buffer is behind what the file held, or a call has failed.
  pub write_all-Runs :
      (fuel : ℕ) (f : File) (buf : Bytes) (w : World K.State)
      → length buf < 2 ^ 64
      → length buf ≤ fuel
      → position w.os f.fd ≡ some (length (content w.os))
      → owned w.events ≡ some held
      → Runs held (λ _. Appended f (content w.os ++ buf)) (write_all K fuel f buf w)
  unfolding write_all
  write_all-Runs fuel f [] w small enough at own = (sym (append-nil _), at, own)
  write_all-Runs zero f (b ∷ bs) w small enough at own = absurd (omega arith)
  write_all-Runs (suc fuel) f (b ∷ bs) w small enough at own = elim (wrote w.os f.fd (b ∷ bs) at) [
    | inl e ↦
        rw (write_failed K f (b ∷ bs) w e) (owned-called K (Call.write f.fd (b ∷ bs)) w held own)
    | inr (zero, e, le, more, at') ↦
        rw (write_wrote K f (b ∷ bs) w 0 (omega arith) e)
          (owned-called K (Call.write f.fd (b ∷ bs)) w held own)
    | inr (suc n, e, le, more, at') ↦ rw (write_wrote K f (b ∷ bs) w (suc n) (omega arith) e) (
        rw (le→ltb (length (b ∷ bs)) (suc n) le) (
          subst
            (λ t.
              Runs held (λ _. Appended f t)
                (write_all K fuel f (drop (suc n) (b ∷ bs)) (written K f (b ∷ bs) w)))
            (ap (λ t. t ++ drop (suc n) (b ∷ bs)) more
              ∙ append_assoc (content w.os) (take (suc n) (b ∷ bs)) (drop (suc n) (b ∷ bs))
              ∙ ap (λ t. content w.os ++ t) (take-append-drop (suc n) (b ∷ bs)))
            (write_all-Runs fuel f (drop (suc n) (b ∷ bs)) (written K f (b ∷ bs) w)
              (omega (arith, length-drop (suc n) (b ∷ bs)))
              (omega (arith, length-drop (suc n) (b ∷ bs))) at'
              (owned-called K (Call.write f.fd (b ∷ bs)) w held own))))
  ]
