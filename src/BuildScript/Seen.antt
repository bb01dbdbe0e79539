-- ===== src/BuildScript/Seen.antt =====
-- crates/ps5-sys/build.rs: what bindgen is let see, and that `generate` keeps to it.
use ps_payload_rust.Base.{
  ◌≡◌, ◌⊎◌, inl, inr, Bool, true, false, ◌||◌, List, [], ◌∷◌, ◌++◌, All, Option, none, some, String,
  Bytes, codes,
}
use ps_payload_rust.Std.Text.{eq_bytes}
use ps_payload_rust.BuildScript.{
  header, clang_args, use_core, generate_comments, layout_tests, cargo_callbacks, allowlist_file,
  allowlist_function, allowlist_type, allowlist_var, Builder, Host, Event, printed, generated,
  wrote, Ran, returns, panics, Script, ◌>>◌, when, join,
}
use ps_payload_rust.BuildScript.Sdk
use ps_payload_rust.BuildScript.Sdk.{Sdk, installed, source, path, clang_target}
use ps_payload_rust.BuildScript.Run.{base_builder, written_to, write_bindings, generate}
use ps_payload_rust.BuildScript.Steps.{Holds, Holds-then}
use ps_payload_rust.BuildScript.Built.{HasHeader}

-- The arguments for clang that a builder was given.
abbrev pub args_of : Builder → List Bytes
args_of [] = []
args_of (clang_args args ∷ b) = args ++ args_of b
args_of (header s ∷ b) = args_of b
args_of (use_core ∷ b) = args_of b
args_of (generate_comments c ∷ b) = args_of b
args_of (layout_tests c ∷ b) = args_of b
args_of (cargo_callbacks ∷ b) = args_of b
args_of (allowlist_file s ∷ b) = args_of b
args_of (allowlist_function s ∷ b) = args_of b
args_of (allowlist_type s ∷ b) = args_of b
args_of (allowlist_var s ∷ b) = args_of b

-- What clang reads off its arguments: the directories behind `-isystem` and `-I`, and the flag
-- `-nostdinc`. The argument tells whether the flag before awaits a value.
abbrev pub searched : Bool → List Bytes → List Bytes
searched awaits [] = []
searched true (dir ∷ args) = dir ∷ searched false args
searched false (arg ∷ args) =
    searched (eq_bytes arg (codes "-isystem") || eq_bytes arg (codes "-I")) args

abbrev pub shuts_out_host : Bool → List Bytes → Bool
shuts_out_host awaits [] = false
shuts_out_host true (value ∷ args) = shuts_out_host false args
shuts_out_host false (arg ∷ args) =
    eq_bytes arg (codes "-nostdinc")
    || shuts_out_host (eq_bytes arg (codes "-isystem") || eq_bytes arg (codes "-I")) args

-- The directories of clang's own headers and of the SDK's.
abbrev pub builtin_dirs : Option Bytes → List Bytes
builtin_dirs none = []
builtin_dirs (some res) = (res ++ codes "/include") ∷ []

abbrev pub sdk_dirs : Sdk → List Bytes
sdk_dirs (installed root) = path (join root (codes "target/include")) ∷ []
sdk_dirs (source root) =
    path (join root (codes "include/freebsd")) ∷ path (join root (codes "include")) ∷ []

abbrev pub is_known : Option Bytes → Bool
is_known none = false
is_known (some a) = true

abbrev pub events : {B A : Type 0} → Ran B A → List (Event B)
events (returns a log) = log
events (panics p log) = log

module _ (h : Host) where
  -- Arguments that let clang see its own headers and those of the SDK, and nothing of the host unless
  -- the place of its own headers is unknown.
  abbrev pub IsIsolated : Sdk → List Bytes → Type 0
  IsIsolated sdk args =
      (searched false args ≡ builtin_dirs (Sdk.clang_resource_dir h) ++ sdk_dirs sdk)
      × (shuts_out_host false args ≡ is_known (Sdk.clang_resource_dir h))

  abbrev pub Sees : Event h.Bindings → Type 0
  Sees (printed line) = Unit {0}
  Sees (generated b) = (sdk : Sdk) × HasHeader h sdk × IsIsolated sdk (args_of b)
  Sees (wrote b out) = Unit {0}

  abbrev pub Clean : List (Event h.Bindings) → Type 0
  Clean log = All Sees log

  abbrev pub Keeps : {A : Type 0} → Script h.Bindings A → Type 0
  Keeps m = (log : List (Event h.Bindings)) → Clean log → Holds (λ _. Clean) (λ _. Clean) (m log)

  pub Keeps-then :
      {A C : Type 0} (m : Script h.Bindings A) (k : Script h.Bindings C)
      → Keeps m
      → Keeps k
      → Keeps (m >> k)
  Keeps-then m k keeps next log c =
      Holds-then Clean (λ _. Clean) (λ _. Clean) m k log (keeps log c) next

  pub Keeps-when : (c : Bool) (m : Script h.Bindings (Unit {0})) → Keeps m → Keeps (when c m)
  Keeps-when true m keeps log c = keeps log c
  Keeps-when false m keeps log c = c

  written_to-Clean : (b : h.Bindings) (out : Bytes) (r : Option Bytes) → Keeps (written_to b out r)
  written_to-Clean b out none log c = (tt, c)
  written_to-Clean b out (some e) log c = c

  write_bindings-Clean :
      (hdr : String) (out : Bytes) (r : h.Bindings ⊎ Bytes) → Keeps (write_bindings h hdr out r)
  write_bindings-Clean hdr out (inl b) log c = written_to-Clean b out (h.write_to_file b out) log c
  write_bindings-Clean hdr out (inr e) log c = c

  pub generate-Clean :
      (sdk : Sdk) (base : List Bytes) (hdr : String) (out : Bytes) (configure : Builder → Builder)
      → HasHeader h sdk
      → IsIsolated sdk base
      → args_of (configure (base_builder base hdr)) ≡ base
      → Keeps (generate h base hdr out configure)
  unfolding generate
  generate-Clean sdk base hdr out configure has isolated e log c =
      write_bindings-Clean hdr out (h.generate (configure (base_builder base hdr)))
        (generated (configure (base_builder base hdr)) ∷ log) ((sdk, has, rw e isolated), c)
