-- ===== src/BuildScript/Sdk.antt =====
-- crates/ps5-sys/build.rs: `Sdk`, `feature`, `path`, `locate_sdk`, `clang_resource_dir` and
-- `clang_args`.
use mathlib.Core.Option
use ps_payload_rust.Base.{
  ℕ, ◌-◌, Bool, true, false, ◌&&◌, List, [], ◌∷◌, ◌++◌, map, Option, none, some, Bytes, codes, leb,
  if◌then◌else◌,
}
use ps_payload_rust.Std.Utf8.{from_utf8}
use ps_payload_rust.Std.Utf8.Lossy.{from_utf8_lossy}
use ps_payload_rust.Std.Trim.{trim}
use ps_payload_rust.BuildScript.{
  Output, Host, Script, ◌>>=◌, ◌>>◌, pure, panic, println, join, manifest_dir_not_set, no_sdk,
}

pub data Sdk : Type 0 where
  installed : Bytes → Sdk
  source : Bytes → Sdk

abbrev pub clang_target : Bytes
clang_target = codes "x86_64-unknown-freebsd"

-- `to_string_lossy().into_owned()`, and what `display()` shows.
unfoldable pub path : Bytes → Bytes
unfolding from_utf8_lossy
path p = from_utf8_lossy p

abbrev to_ascii_uppercase : ℕ → ℕ
to_ascii_uppercase c = if leb b'a' c && leb c b'z' then c - 32 else c

abbrev is_ok : Option Bytes → Bool
is_ok none = false
is_ok (some a) = true

-- `feature`; the names that the script passes are ASCII.
abbrev pub feature : Host → Bytes → Bool
feature h name = is_ok (h.var (codes "CARGO_FEATURE_" ++ map to_ascii_uppercase name))

-- `unwrap_or_else`
abbrev unwrap_or : Option Bytes → Bytes → Bytes
unwrap_or none b = b
unwrap_or (some a) b = a

-- `manifest.join("../../sdk")`, made canonical where that is possible.
unfoldable pub in_tree_sdk : Host → Bytes → Bytes
unfolding join
in_tree_sdk h manifest =
    unwrap_or (h.canonicalize (join manifest (codes "../../sdk")))
      (join manifest (codes "../../sdk"))

-- The tree behind the manifest, once the directory of the manifest is known.
abbrev pub locate_in_tree : (h : Host) → Option Bytes → Script h.Bindings Sdk
locate_in_tree h none = panic manifest_dir_not_set
locate_in_tree h (some manifest) =
    let sdk_src = in_tree_sdk h manifest in
    if h.is_file (join sdk_src (codes "include/ps5/payload.h"))
    then pure (source sdk_src)
    else panic (no_sdk sdk_src)

abbrev pub fallback_warning : Bytes → Bytes
fallback_warning root =
    codes "cargo:warning=PS5_PAYLOAD_SDK="
    ++ path root
    ++ codes " set but target/include/ps5/payload.h "
    ++ codes "not found there; falling back to the in-tree sdk/ submodule."

-- What `PS5_PAYLOAD_SDK` names comes first.
abbrev pub locate_from : (h : Host) → Option Bytes → Script h.Bindings Sdk
locate_from h none = locate_in_tree h (h.var (codes "CARGO_MANIFEST_DIR"))
locate_from h (some root) =
    if h.is_file (join root (codes "target/include/ps5/payload.h"))
    then pure (installed root)
    else do println (fallback_warning root); locate_in_tree h (h.var (codes "CARGO_MANIFEST_DIR"))

unfoldable pub locate_sdk : (h : Host) → Script h.Bindings Sdk
unfolding join in_tree_sdk path
locate_sdk h = locate_from h (h.var (codes "PS5_PAYLOAD_SDK"))

abbrev stdout_of : Output → Option Bytes
stdout_of o = if o.success then some o.stdout else none

abbrev with_stddef : Host → Bytes → Option Bytes
with_stddef h dir = if h.is_file (join dir (codes "include/stddef.h")) then some dir else none

unfoldable pub clang_resource_dir : Host → Option Bytes
unfolding join from_utf8 trim
clang_resource_dir h =
    Option.bind
      (h.output (unwrap_or (h.var (codes "CLANG_PATH")) (codes "clang"))
        (codes "-print-resource-dir"))
      (λ o.
        Option.bind (stdout_of o)
          (λ told. Option.bind (from_utf8 told) (λ text. with_stddef h (trim text))))

abbrev leak_warning : Bytes
leak_warning =
    codes "cargo:warning=could not determine clang resource dir; proceeding "
    ++ codes "without -nostdinc "
    ++ (0xE2 ∷ 0x80 ∷ 0x94 ∷ [])
    ++ codes " host system headers may leak into the bindings."

-- The `match clang_resource_dir()`: the arguments pushed.
abbrev pub isolate : {B : Type 0} → Option Bytes → Script B (List Bytes)
isolate none = do println leak_warning; pure []
isolate (some res) = pure (codes "-nostdinc" ∷ codes "-isystem" ∷ (res ++ codes "/include") ∷ [])

-- The `match sdk`: the arguments pushed.
abbrev pub sdk_args : Sdk → List Bytes
sdk_args (installed root) = codes "-isystem" ∷ path (join root (codes "target/include")) ∷ []
sdk_args (source root) =
    codes "-isystem"
    ∷ path (join root (codes "include/freebsd"))
    ∷ codes "-I"
    ∷ path (join root (codes "include"))
    ∷ []

unfoldable pub clang_args : (h : Host) → Sdk → Script h.Bindings (List Bytes)
unfolding join path clang_resource_dir
clang_args h sdk = do
  isolation ← isolate (clang_resource_dir h)
  pure ((codes "-target" ∷ clang_target ∷ codes "-ffreestanding" ∷ []) ++ isolation ++ sdk_args sdk)
