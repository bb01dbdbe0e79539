-- ===== src/BuildScript/Located.antt =====
-- crates/ps5-sys/build.rs, `locate_sdk`: which SDK is taken, and when none is.
use ps_payload_rust.Base.{
  ◌≡◌, refl, ◌⊎◌, inl, inr, Bool, true, false, List, ◌∷◌, Option, none, some, Bytes, codes,
  Bool-cases,
}
use ps_payload_rust.BuildScript.{
  Host, Event, printed, Ran, returns, panics, join, manifest_dir_not_set, no_sdk, out_dir_not_set,
  bindgen_failed, write_failed,
}
use ps_payload_rust.BuildScript.Sdk.{
  Sdk, installed, source, in_tree_sdk, locate_in_tree, locate_from, fallback_warning, locate_sdk,
}

module _ (h : Host) where
  -- An installed SDK is one that the variable names and that has the header.
  abbrev pub IsInstalled : Bytes → Type 0
  IsInstalled root =
      (h.var (codes "PS5_PAYLOAD_SDK") ≡ some root)
      × (h.is_file (join root (codes "target/include/ps5/payload.h")) ≡ true)

  -- The variable is unset, and nothing is printed, or it names a tree without the header, and a
  -- warning is.
  abbrev pub NotInstalled : List (Event h.Bindings) → List (Event h.Bindings) → Type 0
  NotInstalled before after =
      ((h.var (codes "PS5_PAYLOAD_SDK") ≡ none) × (after ≡ before))
      ⊎ ((root : Bytes) × (h.var (codes "PS5_PAYLOAD_SDK") ≡ some root)
          × (h.is_file (join root (codes "target/include/ps5/payload.h")) ≡ false)
          × (after ≡ printed (fallback_warning root) ∷ before))

  -- The tree in the repository, with the header or without.
  abbrev pub InTree : Bytes → Bool → Type 0
  InTree root there =
      (manifest : Bytes) × (h.var (codes "CARGO_MANIFEST_DIR") ≡ some manifest)
      × (root ≡ in_tree_sdk h manifest)
      × (h.is_file (join root (codes "include/ps5/payload.h")) ≡ there)

  abbrev pub Located : List (Event h.Bindings) → Ran h.Bindings Sdk → Type 0
  Located before (returns (installed root) log) = IsInstalled root × (log ≡ before)
  Located before (returns (source root) log) = InTree root true × NotInstalled before log
  Located before (panics manifest_dir_not_set log) =
      (h.var (codes "CARGO_MANIFEST_DIR") ≡ none) × NotInstalled before log
  Located before (panics (no_sdk root) log) = InTree root false × NotInstalled before log
  Located before (panics out_dir_not_set log) = ⊥
  Located before (panics (bindgen_failed hdr e) log) = ⊥
  Located before (panics (write_failed out e) log) = ⊥

  locate_in_tree-Located :
      (before log : List (Event h.Bindings)) (dir : Option Bytes)
      → h.var (codes "CARGO_MANIFEST_DIR") ≡ dir
      → NotInstalled before log
      → Located before (locate_in_tree h dir log)
  locate_in_tree-Located before log none e n = (e, n)
  locate_in_tree-Located before log (some manifest) e n =
      elim (Bool-cases
        (h.is_file (join (in_tree_sdk h manifest) (codes "include/ps5/payload.h")))) [
          | inl there ↦ rw there ((manifest, e, refl, there), n)
          | inr missing ↦ rw missing ((manifest, e, refl, missing), n)
        ]

  locate_from-Located :
      (before : List (Event h.Bindings)) (named : Option Bytes)
      → h.var (codes "PS5_PAYLOAD_SDK") ≡ named
      → Located before (locate_from h named before)
  locate_from-Located before none e =
      locate_in_tree-Located before before (h.var (codes "CARGO_MANIFEST_DIR")) refl (inl (e, refl))
  locate_from-Located before (some root) e =
      elim (Bool-cases (h.is_file (join root (codes "target/include/ps5/payload.h")))) [
        | inl there ↦ rw there ((e, there), refl)
        | inr missing ↦ rw missing (
            locate_in_tree-Located before (printed (fallback_warning root) ∷ before)
              (h.var (codes "CARGO_MANIFEST_DIR")) refl (inr (root, e, missing, refl)))
      ]

  -- `locate_sdk` takes the tree that PS5_PAYLOAD_SDK names when it has the header, without a word;
  -- else the tree in the repository, when that has the header; and it panics only when that has not,
  -- or when the directory of the manifest is unknown. It prints one warning, when the variable names
  -- a tree without the header, and nothing else.
  pub locate_sdk-Located : (before : List (Event h.Bindings)) → Located before (locate_sdk h before)
  unfolding locate_sdk
  locate_sdk-Located before = locate_from-Located before (h.var (codes "PS5_PAYLOAD_SDK")) refl
