-- ===== src/BuildScript/Run.antt =====
-- crates/ps5-sys/build.rs: `generate` and `main`.
use ps_payload_rust.Base.{
  true, false, ◌⊎◌, inl, inr, List, [], ◌∷◌, ◌++◌, Option, none, some, String, Bytes, codes,
}
use ps_payload_rust.BuildScript.{
  Builder, Host, generated, wrote, returns, panics, Script, ◌>>=◌, ◌>>◌, pure, panic, println, when,
  join, header, clang_args, use_core, generate_comments, layout_tests, cargo_callbacks,
  allowlist_file, allowlist_function, allowlist_type, allowlist_var, out_dir_not_set,
  bindgen_failed, write_failed,
}
use ps_payload_rust.BuildScript.Sdk

-- The builder before it is configured.
abbrev pub base_builder : List Bytes → String → Builder
base_builder base hdr =
    header hdr
    ∷ clang_args base
    ∷ use_core
    ∷ generate_comments true
    ∷ layout_tests false
    ∷ cargo_callbacks
    ∷ []

abbrev pub written_to : {B : Type 0} → B → Bytes → Option Bytes → Script B (Unit {0})
written_to b out none log = returns tt (wrote b out ∷ log)
written_to b out (some e) log = panics (write_failed out e) log

abbrev pub write_bindings :
    (h : Host) → String → Bytes → h.Bindings ⊎ Bytes → Script h.Bindings (Unit {0})
write_bindings h hdr out (inl b) = written_to b out (h.write_to_file b out)
write_bindings h hdr out (inr e) = panic (bindgen_failed hdr e)

unfoldable pub generate :
    (h : Host) → List Bytes → String → Bytes → (Builder → Builder) → Script h.Bindings (Unit {0})
generate h base hdr out configure log =
    let builder = configure (base_builder base hdr) in
    write_bindings h hdr out (h.generate builder) (generated builder ∷ log)

-- The closures that `main` passes.
abbrev pub configure_ps5 : Builder → Builder
configure_ps5 b =
    b
    ++ (allowlist_file ".*/ps5/.*\\.h"
        ∷ allowlist_function "(kernel|klog|mdbg|payload|nid)_.*"
        ∷ allowlist_var "KERNEL_.*"
        ∷ allowlist_type "payload_args.*"
        ∷ allowlist_function "__error"
        ∷ allowlist_function "strerror"
        ∷ allowlist_var "E[A-Z0-9]+"
        ∷ [])

abbrev pub configure_fs : Builder → Builder
configure_fs b =
    b
    ++ (allowlist_file ".*/(fcntl|unistd|dirent|stdio)\\.h"
        ∷ allowlist_file ".*/sys/(stat|mman|uio|types)\\.h"
        ∷ allowlist_var "(O|S|F|SEEK|PROT|MAP|MS|AT)_.*"
        ∷ [])

abbrev pub configure_net : Builder → Builder
configure_net b =
    b
    ++ (allowlist_file ".*/sys/(socket|select|ioctl|ioccom)\\.h"
        ∷ allowlist_file ".*/netdb\\.h"
        ∷ allowlist_file ".*/netinet/(in|tcp)\\.h"
        ∷ allowlist_file ".*/netinet6/.*\\.h"
        ∷ allowlist_file ".*/arpa/inet\\.h"
        ∷ allowlist_file ".*/net/if\\.h"
        ∷ allowlist_file ".*/(poll\\.h|sys/poll\\.h)"
        ∷ allowlist_file ".*/fcntl\\.h"
        ∷ allowlist_function "close"
        ∷ allowlist_var
            "(AF|PF|SOCK|SOL|SO|IPPROTO|IP|IPV6|TCP|MSG|SHUT|INADDR|IN6ADDR|POLL|FIONBIO|FD|F|O|AI|NI)_.*"
        ∷ [])

abbrev pub configure_thread : Builder → Builder
configure_thread b =
    b
    ++ (allowlist_file ".*/(pthread|pthread_np|semaphore|threads)\\.h"
        ∷ allowlist_file ".*/(sched\\.h|sys/sched\\.h)"
        ∷ allowlist_var "(PTHREAD|SCHED|SEM|ONCE|TSS|MTX|THRD)_.*"
        ∷ [])

-- The loop over the headers whose change runs the script again.
abbrev pub print_headers : {B : Type 0} → List Bytes → Script B (Unit {0})
print_headers [] = pure tt
print_headers (name ∷ names) = do
  println (codes "cargo:rerun-if-changed=headers/" ++ name ++ codes ".h")
  print_headers names

-- `env::var("OUT_DIR").expect("OUT_DIR not set")`
abbrev pub expect_out_dir : {B : Type 0} → Option Bytes → Script B Bytes
expect_out_dir none = panic out_dir_not_set
expect_out_dir (some out) = pure out

abbrev pub link_libraries : {B : Type 0} → Script B (Unit {0})
link_libraries = do
  println (codes "cargo:rustc-link-lib=SceHttp2")
  println (codes "cargo:rustc-link-lib=SceSsl")
  println (codes "cargo:rustc-link-lib=SceNet")

abbrev pub rerun_lines : {B : Type 0} → Script B (Unit {0})
rerun_lines = do
  println (codes "cargo:rerun-if-changed=build.rs")
  println (codes "cargo:rerun-if-env-changed=PS5_PAYLOAD_SDK")
  print_headers (codes "ps5" ∷ codes "fs" ∷ codes "net" ∷ codes "thread" ∷ [])

-- The core, always.
unfoldable pub ps5_bindings : (h : Host) → List Bytes → Bytes → Script h.Bindings (Unit {0})
unfolding generate join
ps5_bindings h base out =
    generate h base "headers/ps5.h" (join out (codes "ps5_bindings.rs")) configure_ps5

unfoldable pub fs_bindings : (h : Host) → List Bytes → Bytes → Script h.Bindings (Unit {0})
unfolding generate join
fs_bindings h base out =
    when (Sdk.feature h (codes "fs"))
      (generate h base "headers/fs.h" (join out (codes "fs_bindings.rs")) configure_fs)

unfoldable pub net_bindings : (h : Host) → List Bytes → Bytes → Script h.Bindings (Unit {0})
unfolding generate join
net_bindings h base out =
    when (Sdk.feature h (codes "net"))
      (generate h base "headers/net.h" (join out (codes "net_bindings.rs")) configure_net)

unfoldable pub thread_bindings : (h : Host) → List Bytes → Bytes → Script h.Bindings (Unit {0})
unfolding generate join
thread_bindings h base out =
    when (Sdk.feature h (codes "thread"))
      (generate h base "headers/thread.h" (join out (codes "thread_bindings.rs")) configure_thread)

unfoldable pub generate_all : (h : Host) → List Bytes → Bytes → Script h.Bindings (Unit {0})
unfolding ps5_bindings fs_bindings net_bindings thread_bindings
generate_all h base out = do
  ps5_bindings h base out
  fs_bindings h base out
  net_bindings h base out
  thread_bindings h base out

-- `main` with the arguments for clang and the output directory.
unfoldable pub build_into : (h : Host) → List Bytes → Bytes → Script h.Bindings (Unit {0})
unfolding generate_all
build_into h base out = do
  generate_all h base out
  when (Sdk.feature h (codes "http")) link_libraries

-- `main` with an SDK.
unfoldable pub build_for : (h : Host) → Sdk.Sdk → Script h.Bindings (Unit {0})
unfolding build_into Sdk.clang_args
build_for h sdk = do
  base ← Sdk.clang_args h sdk
  out ← expect_out_dir (h.var (codes "OUT_DIR"))
  build_into h base out

unfoldable pub main : (h : Host) → Script h.Bindings (Unit {0})
unfolding build_for Sdk.locate_sdk
main h = do rerun_lines; sdk ← Sdk.locate_sdk h; build_for h sdk
