-- ===== src/Ps5/Fs/Loaded.antt =====
-- crates/ps5/src/fs.rs: `File::read_to_end`, `read` of a whole file, and what `write` saved read back.
use ps_payload_rust.Base.{
  ℕ, ◌+◌, ◌≤◌, ◌<◌, ◌^◌, ◌≡◌, ◌∙◌, refl, ap, sym, true, List, [], ◌∷◌, ◌++◌, some, Bytes, length,
  drop, arith, length-append, length-replicate, Bool-cases, inl, inr,
}
use ps_payload_rust.Sys.{Sys}
use ps_payload_rust.Std.Utf8.{is_utf8, from_utf8}
use ps_payload_rust.Ps5.Error.{Result, ok, err}
use ps_payload_rust.Ps5.Effect.{World, M, pure, from_result, ◌>>=◌, and_then}
use ps_payload_rust.Ps5.Ownership.{Resource, resource, descriptor, owned}
use ps_payload_rust.Ps5.Fs.File.{File, appended, drop_file, zeroed_block, read_rounds, read_to_end}
use ps_payload_rust.Ps5.Fs.Options.{new, read, open_file, access_flags, open_flags}
use ps_payload_rust.Ps5.Fs.Paths.{read_file, read_to_string, write_file}
use ps_payload_rust.Ps5.Fs.Laws.{FileLaws}
use ps_payload_rust.Ps5.Fs.Runs.{Runs, Runs-and_then, Runs-finally}
use ps_payload_rust.Ps5.Fs.Opening.{open_with-Runs, drop_file-released, drop_file-Runs}
use ps_payload_rust.Ps5.Fs.Reading.{Got, read_rounds-Runs}
use ps_payload_rust.Ps5.Fs.Saved.{write_file-Runs}

-- A count comes with as many bytes behind what was in the vector.
abbrev pub Counted :
    {S : Type 0}
    → (S → Bytes)
    → List Resource
    → Bytes
    → Bytes
    → Bytes
    → Result ℕ × Bytes
    → World S
    → Type 0
Counted content held kept buf want (ok n, b) v =
    (n ≡ length want) × (b ≡ buf ++ want) × (content v.os ≡ kept) × (owned v.events ≡ some held)
Counted content held kept buf want (err e, b) v = owned v.events ≡ some held

Got-Counted :
    {S : Type 0} (content : S → Bytes) (held : List Resource) (kept buf want : Bytes)
    (r : Result (Unit {0}) × Bytes) (w : World S)
    → Got content held kept (buf ++ want) r w
    → Counted content held kept buf want (appended (length buf) r) w
Got-Counted content held kept buf want (ok _, b) w (e, same, own) =
    (omega (arith, ap length e, length-append buf want), e, same, own)
Got-Counted content held kept buf want (err e, b) w own = own

-- The bytes of a vector that was read into, or the error.
abbrev vector : {S : Type 0} → Result ℕ × Bytes → M S Bytes
vector (r, b) = do _ ← from_result r; pure b

module _ (K : Sys) (path : Bytes) (laws : FileLaws K path) (held : List Resource) where
  open laws use {content, position, opened, closed}

  -- On a platform that keeps files, `read_to_end` from a position in the file ends, within a round
  -- for each byte that is left and one more, without a panic; a count that it gives is the number of
  -- the bytes from the position on, and these are behind what was in the vector.
  pub read_to_end-Runs :
      (fuel : ℕ) (f : File) (buf : Bytes) (p : ℕ) (w : World K.State)
      → position w.os f.fd ≡ some p
      → p ≤ length (content w.os)
      → length (content w.os) < fuel + p
      → owned w.events ≡ some held
      → Runs held
          (Counted content held (content w.os) buf (drop p (content w.os)))
          (read_to_end K fuel f buf w)
  unfolding read_to_end
  read_to_end-Runs fuel f buf p w at le enough own =
      Runs-and_then held (Got content held (content w.os) (buf ++ drop p (content w.os)))
        (Counted content held (content w.os) buf (drop p (content w.os)))
        (read_rounds K fuel f buf zeroed_block w) (λ r. pure (appended (length buf) r))
        (read_rounds-Runs K path laws held fuel f buf zeroed_block p w
          (unfold zeroed_block in length-replicate {A = ℕ} 8192 0) at le enough own)
        (λ r v. Got-Counted content held (content w.os) buf (drop p (content w.os)) r v)

  open_file-Runs :
      (w : World K.State)
      → owned w.events ≡ some held
      → Runs held
          (λ f v.
            ((content v.os ≡ content w.os) × (position v.os (File.fd f) ≡ some 0))
            × (owned v.events ≡ some (resource descriptor (File.fd f) ∷ held)))
          (open_file K path w)
  unfolding open_file new read
  open_file-Runs w own =
      open_with-Runs K path held (read new true) K.o_rdonly
        (λ fd s. (content s ≡ content w.os) × (position s fd ≡ some 0)) w
        (unfold access_flags new read in refl) (unfold open_flags new read in opened w.os) own

  -- What `read` returns and leaves, of a file that holds these bytes.
  abbrev pub Loaded : Bytes → Bytes → World K.State → Type 0
  Loaded kept b v = ((b ≡ kept) × (content v.os ≡ kept)) × (owned v.events ≡ some held)

  whole :
      (kept : Bytes) (r : Result ℕ × Bytes) (w : World K.State)
      → Counted content held kept [] kept r w
      → Runs held (Loaded kept) (vector r w)
  whole kept (ok n, b) w (_, e, same, own) = ((e, same), own)
  whole kept (err e, b) w own = own

  whole_of_open :
      (fuel : ℕ) (f : File) (w : World K.State)
      → position w.os f.fd ≡ some 0
      → length (content w.os) < fuel
      → owned w.events ≡ some held
      → Runs held (Loaded (content w.os)) (and_then (read_to_end K fuel f [] w) vector)
  whole_of_open fuel f w at enough own =
      Runs-and_then held (Counted content held (content w.os) [] (content w.os))
        (Loaded (content w.os)) (read_to_end K fuel f [] w) vector
        (read_to_end-Runs fuel f [] 0 w at (omega arith) (omega arith) own)
        (λ r v. whole (content w.os) r v)

module _ (K : Sys) (path : Bytes) (laws : FileLaws K path) (held : List Resource) where
  open laws use {content, position, opened, closed}

  -- On a platform that keeps files, `read` ends, within a round for each byte of the file and one
  -- more, without a panic; what it returns is the file's content, which it leaves alone, and nothing
  -- stays open, whether it succeeds or fails.
  pub read_file-Runs :
      (fuel : ℕ) (w : World K.State)
      → length (content w.os) < fuel
      → owned w.events ≡ some held
      → Runs held (Loaded K path laws held (content w.os)) (read_file K fuel path w)
  unfolding read_file
  read_file-Runs fuel w enough own =
      Runs-and_then held _ (Loaded K path laws held (content w.os)) (open_file K path w) _
        (open_file-Runs K path laws held w own)
        λ f v ((same, at), own1).
          Runs-finally held (resource descriptor f.fd ∷ held)
            (Loaded K path laws (resource descriptor f.fd ∷ held) (content w.os))
            (Loaded K path laws held (content w.os)) _ (drop_file K f)
            (rw same at (
              whole_of_open K path laws (resource descriptor f.fd ∷ held) fuel f v at
                (rw same enough) own1))
            (λ b u ((e, kept), own2).
              drop_file-Runs K path held f (λ s. (b ≡ content w.os) × (content s ≡ content w.os)) u
                (e, closed u.os f.fd ∙ kept) own2)
            (λ u own2. drop_file-released K path held f u own2)

  -- On a platform that keeps files, `write` of a file and then `read` of it, of fewer than 2^64 bytes
  -- and with more rounds than bytes, end without a panic; if both succeed the bytes read are the
  -- bytes written, and nothing stays open either way.
  pub read_file-write_file :
      (fuel : ℕ) (contents : Bytes) (w : World K.State)
      → length contents < 2 ^ 64
      → length contents < fuel
      → owned w.events ≡ some held
      → Runs held
          (Loaded K path laws held contents)
          (and_then (write_file K fuel path contents w) (λ _. read_file K fuel path))
  read_file-write_file fuel contents w small enough own =
      Runs-and_then held (λ _ v. (content v.os ≡ contents) × (owned v.events ≡ some held))
        (Loaded K path laws held contents) (write_file K fuel path contents w)
        (λ _. read_file K fuel path)
        (write_file-Runs K path laws held fuel contents w small (omega arith) own)
        (λ _ v (e, own1). rw e at (read_file-Runs fuel v (rw e enough) own1))

  -- On a platform that keeps files, `read_to_string` ends, within a round for each byte of the file
  -- and one more, without a panic; it returns the file's content, and it fails on a file that is not
  -- UTF-8. Nothing stays open either way.
  pub read_to_string-Runs :
      (fuel : ℕ) (w : World K.State)
      → length (content w.os) < fuel
      → owned w.events ≡ some held
      → Runs held
          (λ b v. Loaded K path laws held (content w.os) b v × (is_utf8 (content w.os) ≡ true))
          (read_to_string K fuel path w)
  unfolding read_to_string
  read_to_string-Runs fuel w enough own =
      Runs-and_then held (Loaded K path laws held (content w.os)) _ (read_file K fuel path w) _
        (read_file-Runs fuel w enough own)
        λ b v got. elim (Bool-cases (is_utf8 b)) [
          | inl good ↦ unfold from_utf8 in rw good (got, ap is_utf8 (sym got.0.0) ∙ good)
          | inr bad ↦ unfold from_utf8 in rw bad got.1
        ]
