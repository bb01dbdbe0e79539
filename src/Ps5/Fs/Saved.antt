-- ===== src/Ps5/Fs/Saved.antt =====
-- crates/ps5/src/fs.rs, `write` of a whole file.
use ps_payload_rust.Base.{
  ℕ, ◌≤◌, ◌<◌, ◌^◌, ◌≡◌, ◌∙◌, refl, ap, sym, [], ◌∷◌, List, some, Bytes, length, true,
}
use ps_payload_rust.Sys.{Sys}
use ps_payload_rust.Ps5.Effect.{World}
use ps_payload_rust.Ps5.Ownership.{Resource, resource, descriptor, owned}
use ps_payload_rust.Ps5.Fs.File.{File, drop_file, write_all}
use ps_payload_rust.Ps5.Fs.Options.{
  new, create_file, access_flags, open_flags, write, create, truncate,
}
use ps_payload_rust.Ps5.Fs.Paths.{write_file}
use ps_payload_rust.Ps5.Fs.Laws.{FileLaws}
use ps_payload_rust.Ps5.Fs.Runs.{Runs, Runs-and_then, Runs-finally}
use ps_payload_rust.Ps5.Fs.Opening.{open_with-Runs, drop_file-released, drop_file-Runs}
use ps_payload_rust.Ps5.Fs.Writing.{Appended, write_all-Runs}

module _ (K : Sys) (path : Bytes) (laws : FileLaws K path) (held : List Resource) where
  open laws use {content, position, created, closed}

  -- A file that `create` gave is empty.
  create_file-Runs :
      (w : World K.State)
      → owned w.events ≡ some held
      → Runs held
          (λ f v.
            ((content v.os ≡ []) × (position v.os (File.fd f) ≡ some 0))
            × (owned v.events ≡ some (resource descriptor (File.fd f) ∷ held)))
          (create_file K path w)
  unfolding create_file new write create truncate
  create_file-Runs w own =
      open_with-Runs K path held (truncate (create (write new true) true) true) K.o_wronly
        (λ fd s. (content s ≡ []) × (position s fd ≡ some 0)) w
        (unfold access_flags new write create truncate in refl)
        (unfold open_flags new write create truncate in created w.os) own

  -- On a platform that keeps files, `write` of fewer than 2^64 bytes ends, within a round for each
  -- byte and without a panic; if it succeeds the file holds these bytes, and nothing stays open
  -- either way.
  pub write_file-Runs :
      (fuel : ℕ) (contents : Bytes) (w : World K.State)
      → length contents < 2 ^ 64
      → length contents ≤ fuel
      → owned w.events ≡ some held
      → Runs held
          (λ _ v. (content v.os ≡ contents) × (owned v.events ≡ some held))
          (write_file K fuel path contents w)
  unfolding write_file
  write_file-Runs fuel contents w small enough own =
      Runs-and_then held _ Saved (create_file K path w) _ (create_file-Runs w own)
        λ f v ((bare, at), own1).
          Runs-finally held (resource descriptor f.fd ∷ held)
            (λ _. Appended K path laws (resource descriptor f.fd ∷ held) f contents) Saved
            (write_all K fuel f contents v) (drop_file K f)
            (rw bare at (
              write_all-Runs K path laws (resource descriptor f.fd ∷ held) fuel f contents v small
                enough (at ∙ ap (λ c. some (length c)) (sym bare)) own1))
            (λ _ u (full, _, own2).
              drop_file-Runs K path held f (λ s. content s ≡ contents) u (closed u.os f.fd ∙ full)
                own2)
            (λ u own2. drop_file-released K path held f u own2)
    where
      Saved : Unit {0} → World K.State → Type 0
      Saved _ v = (content v.os ≡ contents) × (owned v.events ≡ some held)
