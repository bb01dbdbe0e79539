-- ===== src/Ps5/Fs/Opening.antt =====
-- crates/ps5/src/fs.rs: opening a file at a path, and dropping it.
use mathlib.Core.Bool.{false≢true}
use ps_payload_rust.Base.{
  ℕ, ◌≡◌, ◌∙◌, ◌⊎◌, sym, ap, inl, inr, false, Bool-cases, List, ◌∷◌, some, Bytes,
}
use ps_payload_rust.Base.Int.{ℤ, minus_one, eq_ℤ}
use ps_payload_rust.Sys.{Sys, Call}
use ps_payload_rust.Ps5.Error.{ok}
use ps_payload_rust.Ps5.Effect.{World}
use ps_payload_rust.Ps5.Frame.{called}
use ps_payload_rust.Ps5.Util.{has_nul}
use ps_payload_rust.Ps5.Ownership.{Resource, resource, descriptor, owned, owned-called, release_top}
use ps_payload_rust.Ps5.Fs.File.{File, drop_file}
use ps_payload_rust.Ps5.Fs.Options.{OpenOptions, access_flags, open_flags, open_with}
use ps_payload_rust.Ps5.Fs.Runs.{Runs}

module _ (K : Sys) (path : Bytes) (held : List Resource) where
  abbrev opening : ℕ → Call
  opening flags = Call.open_path path flags 420

  -- What a call of `open` ensures of its descriptor, the wrapper ensures of the file.
  pub open_with-Runs :
      (o : OpenOptions) (access : ℕ) (P : ℤ → K.State → Type 0) (w : World K.State)
      → access_flags K o ≡ ok access
      → ((K.respond (opening (open_flags K o access)) w.os).0.ret ≡ minus_one)
        ⊎ P
            (K.respond (opening (open_flags K o access)) w.os).0.ret
            (called K (opening (open_flags K o access)) w).os
      → owned w.events ≡ some held
      → Runs held
          (λ f v.
            P (File.fd f) v.os × (owned v.events ≡ some (resource descriptor (File.fd f) ∷ held)))
          (open_with K o path w)
  unfolding open_with
  open_with-Runs o access P w mode law own = rw mode (elim (Bool-cases (has_nul path)) [
    | inl nul ↦ rw nul own
    | inr fine ↦ rw fine (elim (Bool-cases (eq_ℤ r minus_one)) [
      | inl e ↦ rw e (owned-called K c w held own ∙ rw e)
      | inr e ↦ rw e (elim law [
        | inl lost ↦ absurd (refuted e lost)
        | inr p ↦ (p, owned-called K c w held own ∙ rw e)
      ])
    ])
  ])
    where
      c : Call
      c = opening (open_flags K o access)

      r : ℤ
      r = (K.respond c w.os).0.ret

      refuted : eq_ℤ r minus_one ≡ false → r ≡ minus_one → ⊥
      refuted e lost = false≢true (sym e ∙ ap (λ t. eq_ℤ t minus_one) lost)

  pub drop_file-released :
      (f : File) (w : World K.State)
      → owned w.events ≡ some (resource descriptor f.fd ∷ held)
      → Runs held (λ _ v. owned v.events ≡ some held) (drop_file K f w)
  unfolding drop_file
  drop_file-released f w own =
      owned-called K (Call.close f.fd) w _ own ∙ release_top descriptor f.fd held

  pub drop_file-Runs :
      (f : File) (P : K.State → Type 0) (w : World K.State)
      → P (called K (Call.close f.fd) w).os
      → owned w.events ≡ some (resource descriptor f.fd ∷ held)
      → Runs held (λ _ v. P v.os × (owned v.events ≡ some held)) (drop_file K f w)
  unfolding drop_file
  drop_file-Runs f P w p own = (p, unfold drop_file in drop_file-released f w own)
