-- ===== src/Ps5/Fs/Listing.antt =====
-- crates/ps5/src/fs.rs, `ReadDir`: the entries that the iterator gives, against the listing of the
-- directory.
pub mod Shorter
pub mod Whole
use ps_payload_rust.Base.{
  ℕ, suc, ◌≡◌, ◌∙◌, ◌≢◌, ◌⊎◌, refl, ap, true, false, Bool-cases, inl, inr, List, [], ◌∷◌, ◌&&◌,
  ◌==◌, Bool, Option, none, some, Bytes, if◌then◌else◌,
}
use ps_payload_rust.Base.Int.{ℤ, pos, eq_ℤ}
use ps_payload_rust.Sys.{Sys, Call, Dirent}
use ps_payload_rust.Ps5.Error.{Result, ok, err, os}
use ps_payload_rust.Ps5.Effect.{World, Outcome, returns, fails, aborts, exhausted}
use ps_payload_rust.Ps5.Frame.{called}
use ps_payload_rust.Ps5.Fs.Names.{name_of, dirent_name-name_of}
use ps_payload_rust.Ps5.Fs.Dir.{
  DirEntry, ReadDir, is_dots, at_end, shown, named, entry_round, next_entry,
}

-- What POSIX documents of a directory stream, as hypotheses on the platform.
pub record DirLaws (K : Sys) : Type 0 where
  -- The entries that the stream has still to give.
  pub listing : K.State → ℤ → List Dirent
  pub cleared :
      (s : K.State) (d : ℤ)
      → let r = K.respond Call.clear_errno s in
        (K.errno r.1 ≡ pos 0) × (listing r.1 d ≡ listing s d)
  -- `readdir` fails and sets `errno`, or is at the end and leaves it, or gives the next entry.
  pub listed :
      (s : K.State) (d : ℤ)
      → let r = K.respond (Call.readdir d) s in
        ((r.0.ret ≡ pos 0) × (K.errno r.1 ≢ pos 0))
        ⊎ (((r.0.ret ≡ pos 0) × (K.errno r.1 ≡ K.errno s) × (listing s d ≡ []))
            ⊎ ((rest : List Dirent) × (eq_ℤ r.0.ret (pos 0) ≡ false)
                × (listing s d ≡ r.0.entry ∷ rest)
                × (listing r.1 d ≡ rest)))

-- One dot, or two.
abbrev pub hidden : Bytes → Bool
hidden [] = false
hidden (a ∷ []) = a == 46
hidden (a ∷ b ∷ []) = a == 46 && b == 46
hidden (a ∷ b ∷ c ∷ name) = false

is_dots-hidden : (name : Bytes) → is_dots name ≡ hidden name
is_dots-hidden [] = refl
is_dots-hidden (a ∷ []) = elim (Bool-cases (a == 46)) [ inl e ↦ rw e refl | inr e ↦ rw e refl ]
is_dots-hidden (a ∷ b ∷ []) = elim (Bool-cases (a == 46)) [
  | inl e ↦ elim (Bool-cases (b == 46)) [ inl f ↦ rw (e, f) refl | inr f ↦ rw (e, f) refl ]
  | inr e ↦ rw e refl
]
is_dots-hidden (a ∷ b ∷ c ∷ name) = elim (Bool-cases (a == 46)) [
  | inl e ↦ elim (Bool-cases (b == 46)) [ inl f ↦ rw (e, f) refl | inr f ↦ rw (e, f) refl ]
  | inr e ↦ rw e refl
]

-- The names that a directory shows: all but one dot and two.
abbrev pub visible : List Dirent → List Bytes
visible [] = []
visible (e ∷ es) = let rest = visible es in if hidden (name_of e) then rest else name_of e ∷ rest

abbrev pub Listed :
    {S : Type 0} → (S → List Dirent) → List Dirent → Outcome S (Option (Result DirEntry)) → Type 0
Listed listing all (returns none w) = visible all ≡ []
Listed listing all (returns (some (ok e)) w) = visible all ≡ e.name ∷ visible (listing w.os)
Listed listing all (returns (some (err e)) w) =
    (code : ℤ) × (e ≡ os (record { code = code })) × (code ≢ pos 0)
Listed listing all (fails e w) = ⊥
Listed listing all (aborts w) = ⊥
Listed listing all (exhausted w) = ⊥

module _ (K : Sys) (d : ReadDir) (w : World K.State) where
  abbrev ready : World K.State
  ready = called K Call.clear_errno w

  abbrev advanced : World K.State
  advanced = called K (Call.readdir d.dir) ready

  abbrev given : Dirent
  given = (K.respond (Call.readdir d.dir) ready.os).0.entry

  next_entry_null :
      (fuel : ℕ)
      → eq_ℤ (K.respond (Call.readdir d.dir) ready.os).0.ret (pos 0) ≡ true
      → next_entry K (suc fuel) d w ≡ returns (at_end (K.errno advanced.os)) advanced
  unfolding next_entry
  next_entry_null fuel e = ap (λ b. entry_round K (next_entry K fuel d) given b advanced) e

  -- What is done with an entry that is given.
  given_entry :
      (fuel : ℕ) (b : Bool)
      → eq_ℤ (K.respond (Call.readdir d.dir) ready.os).0.ret (pos 0) ≡ false
      → hidden (name_of given) ≡ b
      → next_entry K (suc fuel) d w ≡ shown (next_entry K fuel d) (name_of given) b advanced
  unfolding next_entry
  given_entry fuel b e dots =
      ap (λ t. entry_round K (next_entry K fuel d) given t advanced) e
      ∙ ap (λ o. named (next_entry K fuel d) o advanced) (dirent_name-name_of given).0
      ∙ ap (λ t. shown (next_entry K fuel d) (name_of given) t advanced)
          (is_dots-hidden (name_of given) ∙ dots)

  hidden_entry :
      (fuel : ℕ)
      → eq_ℤ (K.respond (Call.readdir d.dir) ready.os).0.ret (pos 0) ≡ false
      → hidden (name_of given) ≡ true
      → next_entry K (suc fuel) d w ≡ next_entry K fuel d advanced
  hidden_entry fuel e dots = given_entry fuel true e dots

  shown_entry :
      (fuel : ℕ)
      → eq_ℤ (K.respond (Call.readdir d.dir) ready.os).0.ret (pos 0) ≡ false
      → hidden (name_of given) ≡ false
      → next_entry K (suc fuel) d w ≡ returns (some (ok (record { name = name_of given }))) advanced
  shown_entry fuel e name = given_entry fuel false e name

null : (r : ℤ) → r ≡ pos 0 → eq_ℤ r (pos 0) ≡ true
null r e = ap (λ t. eq_ℤ t (pos 0)) e

module _ (K : Sys) (laws : DirLaws K) (d : ReadDir) where
  open laws use {listing, cleared, listed}

  abbrev here : K.State → List Dirent
  here s = listing s d.dir
