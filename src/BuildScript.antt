-- ===== src/BuildScript.antt =====
-- crates/ps5-sys/build.rs: how the build script runs, and the host it runs on. Environment, files,
-- clang and bindgen are no code of the repository: they are the fields of `Host`.
pub mod Sdk
pub mod Run
pub mod Steps
pub mod Located
pub mod Domains
pub mod Built
pub mod Complete
pub mod Seen
pub mod Isolated
use ps_payload_rust.Base.{
  ℕ, ◌==◌, ◌⊎◌, Bool, true, false, String, List, [], ◌∷◌, ◌++◌, Option, Bytes, codes, if◌then◌else◌,
}
use ps_payload_rust.Std.Split.{starts_with}

-- A call on `bindgen::Builder::default()`.
pub data Setting : Type 0 where
  header : String → Setting
  clang_args : List Bytes → Setting
  use_core : Setting
  generate_comments : Bool → Setting
  layout_tests : Bool → Setting
  cargo_callbacks : Setting
  allowlist_file : String → Setting
  allowlist_function : String → Setting
  allowlist_type : String → Setting
  allowlist_var : String → Setting

-- A builder is the calls made on it, in their order.
abbrev pub Builder : Type 0
Builder = List Setting

-- What a command that has run leaves: `status.success()` and `stdout`.
pub record Output : Type 0 where
  pub success : Bool
  pub stdout : Bytes

-- The host. Nothing that the script asks of it changes while the script runs.
pub record Host : Type 1 where
  pub Bindings : Type 0
  -- `env::var`, `none` for a variable that is unset or no Unicode
  pub var : Bytes → Option Bytes
  pub is_file : Bytes → Bool
  pub canonicalize : Bytes → Option Bytes
  -- `Command::new(_).arg(_).output()`, `none` when the command cannot be started
  pub output : Bytes → Bytes → Option Output
  -- `Builder::generate`: the bindings, or the text of the error
  pub generate : Builder → Bindings ⊎ Bytes
  -- `Bindings::write_to_file`: the text of the error, if there is one
  pub write_to_file : Bindings → Bytes → Option Bytes

-- What the script does that is seen from outside.
pub data Event (B : Type 0) : Type 0 where
  printed : Bytes → Event B
  generated : Builder → Event B
  wrote : B → Bytes → Event B

-- The panics, each with what its message shows.
pub data Panic : Type 0 where
  out_dir_not_set : Panic
  manifest_dir_not_set : Panic
  no_sdk : Bytes → Panic
  bindgen_failed : String → Bytes → Panic
  write_failed : Bytes → Bytes → Panic

-- A run: it returns or panics, with its events, newest first.
pub data Ran (B A : Type 0) : Type 0 where
  returns : A → List (Event B) → Ran B A
  panics : Panic → List (Event B) → Ran B A

abbrev pub Script : Type 0 → Type 0 → Type 0
Script B A = List (Event B) → Ran B A

abbrev pub and_then : {B A C : Type 0} → Ran B A → (A → Script B C) → Ran B C
and_then (returns a log) f = f a log
and_then (panics p log) f = panics p log

infixl 5 ◌>>=◌ ◌>>◌
abbrev pub ◌>>=◌ : {B A C : Type 0} → Script B A → (A → Script B C) → Script B C
◌>>=◌ m f log = and_then (m log) f

abbrev pub ◌>>◌ : {B A C : Type 0} → Script B A → Script B C → Script B C
◌>>◌ m k log = and_then (m log) (λ _. k)

abbrev pub pure : {B A : Type 0} → A → Script B A
pure a log = returns a log

abbrev pub panic : {B A : Type 0} → Panic → Script B A
panic p log = panics p log

abbrev pub println : {B : Type 0} → Bytes → Script B (Unit {0})
println line log = returns tt (printed line ∷ log)

-- `if c { m }`
abbrev pub when : {B : Type 0} → Bool → Script B (Unit {0}) → Script B (Unit {0})
when true m log = m log
when false m log = returns tt log

abbrev ends_in_slash : Bytes → Bool
ends_in_slash [] = true
ends_in_slash (b ∷ []) = b == b'/'
ends_in_slash (b ∷ c ∷ s) = ends_in_slash (c ∷ s)

-- `Path::join` on a host with `/` as its separator.
unfoldable pub join : Bytes → Bytes → Bytes
join base p =
    if starts_with (codes "/") p
    then p
    else if ends_in_slash base
    then base ++ p
    else base ++ codes "/" ++ p
