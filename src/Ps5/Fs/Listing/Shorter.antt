-- ===== src/Ps5/Fs/Listing/Shorter.antt =====
-- crates/ps5/src/fs.rs, `ReadDir`: behind each entry that `next` gives fewer are to come.
use ps_payload_rust.Base.{
  ℕ, zero, suc, ◌<◌, ◌≡◌, ◌∙◌, ap, sym, inl, inr, Bool-cases, List, ◌∷◌, Option, none, some, length,
  arith,
}
use ps_payload_rust.Base.Int.{ℤ, pos, eq_ℤ}
use ps_payload_rust.Sys.{Sys, Dirent}
use ps_payload_rust.Ps5.Error.{Result, ok, err}
use ps_payload_rust.Ps5.Effect.{World, Outcome, returns, fails, aborts, exhausted}
use ps_payload_rust.Ps5.Fs.Names.{name_of}
use ps_payload_rust.Ps5.Fs.Dir.{at_end, DirEntry, ReadDir, next_entry}
use ps_payload_rust.Ps5.Fs.Listing.{
  DirLaws, hidden, ready, advanced, given, next_entry_null, hidden_entry, shown_entry, null,
}

-- Behind an entry the listing is shorter.
abbrev pub Shorter :
    {S : Type 0} → (S → List Dirent) → ℕ → Outcome S (Option (Result DirEntry)) → Type 0
Shorter listing n (returns (some (ok e)) w) = length (listing w.os) < n
Shorter listing n (returns (some (err e)) w) = Unit
Shorter listing n (returns none w) = Unit
Shorter listing n (fails e w) = Unit
Shorter listing n (aborts w) = Unit
Shorter listing n (exhausted w) = Unit

Shorter-at_end :
    {S : Type 0} (listing : S → List Dirent) (n : ℕ) (code : ℤ) (w : World S)
    → Shorter listing n (returns (at_end code) w)
Shorter-at_end listing n code w = elim (Bool-cases (eq_ℤ code (pos 0))) [
  | inl e ↦ rw e tt
  | inr e ↦ rw e tt
]

Shorter-more :
    {S : Type 0} (listing : S → List Dirent) (n m : ℕ) (o : Outcome S (Option (Result DirEntry)))
    → m < n
    → Shorter listing m o
    → Shorter listing n o
Shorter-more listing n m (returns (some (ok e)) w) le h = omega (arith, le, h)
Shorter-more listing n m (returns (some (err e)) w) le h = tt
Shorter-more listing n m (returns none w) le h = tt
Shorter-more listing n m (fails e w) le h = tt
Shorter-more listing n m (aborts w) le h = tt
Shorter-more listing n m (exhausted w) le h = tt

module _ (K : Sys) (laws : DirLaws K) (d : ReadDir) where
  open laws use {listing, cleared, listed}

  pub next_entry-Shorter :
      (fuel : ℕ) (w : World K.State)
      → Shorter (λ s. listing s d.dir) (length (listing w.os d.dir)) (next_entry K fuel d w)
  unfolding next_entry
  next_entry-Shorter zero w = tt
  next_entry-Shorter (suc fuel) w = elim (listed (ready K d w).os d.dir) [
    | inl (e, bad) ↦ rw (next_entry_null K d w fuel (null _ e)) (ends w)
    | inr (inl (e, stays, nothing)) ↦ rw (next_entry_null K d w fuel (null _ e)) (ends w)
    | inr (inr (rest, e, more, after)) ↦
        let all : listing w.os d.dir ≡ given K d w ∷ rest = sym (cleared w.os d.dir).1 ∙ more in
        elim (Bool-cases (hidden (name_of (given K d w)))) [
          | inl dots ↦ rw (hidden_entry K d w fuel e dots) (
              Shorter-more (λ s. listing s d.dir) (length (listing w.os d.dir))
                (length (listing (advanced K d w).os d.dir)) _
                (omega (arith, ap length all, ap length after))
                (next_entry-Shorter fuel (advanced K d w)))
          | inr name ↦
              rw (shown_entry K d w fuel e name) (omega (arith, ap length all, ap length after))
        ]
  ]
    where
      ends :
          (v : World K.State)
          → Shorter
              (λ s. listing s d.dir)
              (length (listing v.os d.dir))
              (returns (at_end (K.errno (advanced K d v).os)) (advanced K d v))
      ends v =
          Shorter-at_end (λ s. listing s d.dir) (length (listing v.os d.dir))
            (K.errno (advanced K d v).os) (advanced K d v)
