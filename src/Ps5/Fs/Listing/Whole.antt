-- ===== src/Ps5/Fs/Listing/Whole.antt =====
-- crates/ps5/src/fs.rs, `ReadDir`: a loop over all entries of a directory, and its drop.
use ps_payload_rust.Base.{ℕ, zero, suc, ◌≡◌, List, [], ◌∷◌, Option, none, some, Bytes}
use ps_payload_rust.Sys.{Sys, Call, Dirent}
use ps_payload_rust.Ps5.Error.{Result, ok, err}
use ps_payload_rust.Ps5.Effect.{World, M, pure, fail, out_of_fuel, drop_after, ◌>>=◌}
use ps_payload_rust.Ps5.Ownership.{Resource, owned}
use ps_payload_rust.Ps5.Fs.Runs.{Runs}
use ps_payload_rust.Ps5.Fs.Dir.{DirEntry, ReadDir, next_entry, drop_dir}
use ps_payload_rust.Ps5.Fs.Listing.{DirLaws, visible}
use ps_payload_rust.Ps5.Fs.Listing.Shorter.{Shorter}

-- `for entry in dir { names.push(entry?.name) }`; the fuel bounds its rounds.
abbrev entries_round : {S : Type 0} → M S (List Bytes) → Option (Result DirEntry) → M S (List Bytes)
entries_round again none = pure []
entries_round again (some (err e)) = fail e
entries_round again (some (ok e)) = do rest ← again; pure (e.name ∷ rest)

module _ (K : Sys) where
  unfoldable pub entries : ℕ → ℕ → ReadDir → M K.State (List Bytes)
  entries zero fuel d = out_of_fuel
  entries (suc n) fuel d = do e ← next_entry K fuel d; entries_round (entries n fuel d) e

  -- The directory is dropped behind the loop.
  unfoldable pub list_all : ℕ → ℕ → ReadDir → M K.State (List Bytes)
  unfolding entries drop_dir
  list_all n fuel d = drop_after (drop_dir K d) (entries n fuel d)

abbrev IsListing : Call → Type 0
IsListing Call.clear_errno = Unit {0}
IsListing (Call.readdir d) = Unit {0}
IsListing c = ⊥

module _ (K : Sys) (laws : DirLaws K) (d : ReadDir) where
  open laws use {listing}

  module _ (inner : List Resource) where
    -- The names from here on, with the same things held.
    abbrev Rest : List Dirent → List Bytes → World K.State → Type 0
    Rest all names w = (names ≡ visible all) × (owned w.events ≡ some inner)
