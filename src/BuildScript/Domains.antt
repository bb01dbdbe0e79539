-- ===== src/BuildScript/Domains.antt =====
-- crates/ps5-sys/build.rs: the parts of the SDK that have bindings, what is to become of each, and
-- what a builder says.
use ps_payload_rust.Base.{
  Bool, true, false, List, [], ◌∷◌, Option, none, some, String, Bytes, codes,
}
use ps_payload_rust.BuildScript.{
  Setting, header, clang_args, use_core, generate_comments, layout_tests, cargo_callbacks,
  allowlist_file, allowlist_function, allowlist_type, allowlist_var, Builder, join,
}

-- The parts of the SDK that have bindings.
pub data Domain : Type 0 where
  ps5 : Domain
  fs : Domain
  net : Domain
  thread : Domain

abbrev pub target : Bytes → Domain → Bytes
target out ps5 = join out (codes "ps5_bindings.rs")
target out fs = join out (codes "fs_bindings.rs")
target out net = join out (codes "net_bindings.rs")
target out thread = join out (codes "thread_bindings.rs")

-- The header that a domain is made of.
abbrev pub header_name : Domain → String
header_name ps5 = "headers/ps5.h"
header_name fs = "headers/fs.h"
header_name net = "headers/net.h"
header_name thread = "headers/thread.h"

-- What bindgen is to let through for a domain.
abbrev pub allowlist : Domain → List Setting
allowlist ps5 =
    allowlist_file ".*/ps5/.*\\.h"
    ∷ allowlist_function "(kernel|klog|mdbg|payload|nid)_.*"
    ∷ allowlist_var "KERNEL_.*"
    ∷ allowlist_type "payload_args.*"
    ∷ allowlist_function "__error"
    ∷ allowlist_function "strerror"
    ∷ allowlist_var "E[A-Z0-9]+"
    ∷ []
allowlist fs =
    allowlist_file ".*/(fcntl|unistd|dirent|stdio)\\.h"
    ∷ allowlist_file ".*/sys/(stat|mman|uio|types)\\.h"
    ∷ allowlist_var "(O|S|F|SEEK|PROT|MAP|MS|AT)_.*"
    ∷ []
allowlist net =
    allowlist_file ".*/sys/(socket|select|ioctl|ioccom)\\.h"
    ∷ allowlist_file ".*/netdb\\.h"
    ∷ allowlist_file ".*/netinet/(in|tcp)\\.h"
    ∷ allowlist_file ".*/netinet6/.*\\.h"
    ∷ allowlist_file ".*/arpa/inet\\.h"
    ∷ allowlist_file ".*/net/if\\.h"
    ∷ allowlist_file ".*/(poll\\.h|sys/poll\\.h)"
    ∷ allowlist_file ".*/fcntl\\.h"
    ∷ allowlist_function "close"
    ∷ allowlist_var
        "(AF|PF|SOCK|SOL|SO|IPPROTO|IP|IPV6|TCP|MSG|SHUT|INADDR|IN6ADDR|POLL|FIONBIO|FD|F|O|AI|NI)_.*"
    ∷ []
allowlist thread =
    allowlist_file ".*/(pthread|pthread_np|semaphore|threads)\\.h"
    ∷ allowlist_file ".*/(sched\\.h|sys/sched\\.h)"
    ∷ allowlist_var "(PTHREAD|SCHED|SEM|ONCE|TSS|MTX|THRD)_.*"
    ∷ []

-- The headers and the allowlists of a builder.
abbrev pub headers_of : Builder → List String
headers_of [] = []
headers_of (header s ∷ b) = s ∷ headers_of b
headers_of (clang_args args ∷ b) = headers_of b
headers_of (use_core ∷ b) = headers_of b
headers_of (generate_comments c ∷ b) = headers_of b
headers_of (layout_tests c ∷ b) = headers_of b
headers_of (cargo_callbacks ∷ b) = headers_of b
headers_of (allowlist_file s ∷ b) = headers_of b
headers_of (allowlist_function s ∷ b) = headers_of b
headers_of (allowlist_type s ∷ b) = headers_of b
headers_of (allowlist_var s ∷ b) = headers_of b

abbrev pub allowed : Builder → List Setting
allowed [] = []
allowed (header s ∷ b) = allowed b
allowed (clang_args args ∷ b) = allowed b
allowed (use_core ∷ b) = allowed b
allowed (generate_comments c ∷ b) = allowed b
allowed (layout_tests c ∷ b) = allowed b
allowed (cargo_callbacks ∷ b) = allowed b
allowed (allowlist_file s ∷ b) = allowlist_file s ∷ allowed b
allowed (allowlist_function s ∷ b) = allowlist_function s ∷ allowed b
allowed (allowlist_type s ∷ b) = allowlist_type s ∷ allowed b
allowed (allowlist_var s ∷ b) = allowlist_var s ∷ allowed b

-- A variable of the environment that is set.
abbrev pub is_set : Option Bytes → Bool
is_set none = false
is_set (some value) = true

abbrev pub chosen : Bool → Domain → List Domain → List Domain
chosen true d ds = d ∷ ds
chosen false d ds = ds

abbrev pub libraries : Bool → List Bytes
libraries true =
    codes "cargo:rustc-link-lib=SceHttp2"
    ∷ codes "cargo:rustc-link-lib=SceSsl"
    ∷ codes "cargo:rustc-link-lib=SceNet"
    ∷ []
libraries false = []
