-- ===== src/Tests/Building.antt =====
-- The build script on a host where a tree of the SDK is found behind a warning.
use ps_payload_rust.Base.{
  Bool, true, false, inl, List, [], ◌∷◌, ◌++◌, Option, none, some, Bytes, codes, if◌then◌else◌, All,
}
use ps_payload_rust.Std.Text.{eq_bytes}
use ps_payload_rust.BuildScript.{Builder, Host}
use ps_payload_rust.BuildScript.Sdk.{locate_sdk}
use ps_payload_rust.BuildScript.Run.{main}
use ps_payload_rust.BuildScript.Located.{Located, locate_sdk-Located}
use ps_payload_rust.BuildScript.Built.{Built}
use ps_payload_rust.BuildScript.Complete.{main-Built}
use ps_payload_rust.BuildScript.Seen.{events, Sees}
use ps_payload_rust.BuildScript.Isolated.{main-Isolated}

abbrev lookup : List (Bytes × Bytes) → Bytes → Option Bytes
lookup [] name = none
lookup ((key, value) ∷ vars) name = if eq_bytes key name then some value else lookup vars name

abbrev vars : List (Bytes × Bytes)
vars =
    (codes "PS5_PAYLOAD_SDK", codes "/opt/old")
    ∷ (codes "CARGO_MANIFEST_DIR", codes "/repo/crates/ps5-sys")
    ∷ (codes "OUT_DIR", codes "/out")
    ∷ (codes "CARGO_FEATURE_NET", codes "1")
    ∷ (codes "CARGO_FEATURE_HTTP", codes "1")
    ∷ []

abbrev is_one_of : List Bytes → Bytes → Bool
is_one_of [] p = false
is_one_of (q ∷ qs) p = if eq_bytes q p then true else is_one_of qs p

abbrev files : List Bytes
files = codes "/repo/sdk/include/ps5/payload.h" ∷ codes "/clang/include/stddef.h" ∷ []

abbrev host : Host
host = record {
  Bindings = Builder;
  var = lookup vars;
  is_file = is_one_of files;
  canonicalize = λ p. some (codes "/repo/sdk");
  output = λ command arg. some (record { success = true; stdout = codes "/clang" ++ (10 ∷ []) });
  generate = λ b. inl b;
  write_to_file = λ b out. none;
}

locate_sdk-Located_example : Located host [] (locate_sdk host [])
locate_sdk-Located_example = locate_sdk-Located host []

main-Built_example : Built host (main host [])
main-Built_example = main-Built host

main-Isolated_example : All (Sees host) (events (main host []))
main-Isolated_example = main-Isolated host
