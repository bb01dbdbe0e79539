-- ===== src/HttpServer/Request.antt =====
-- crates/core/src/http.rs: `Request` and its accessors.
use ps_payload_rust.Base.{List, [], ◌∷◌, Option, none, some, Bytes, codes, if◌then◌else◌}
use mathlib.Core.Option
use ps_payload_rust.Std.Text.{eq_ignore_ascii_case}
use ps_payload_rust.Std.Split.{split_once}

pub record Request : Type 0 where
  pub method : Bytes
  pub target : Bytes
  pub version : Bytes
  pub headers : List (Bytes × Bytes)
  pub body : Bytes

unfoldable pub path : Request → Bytes
unfolding split_once
path r = elim (split_once (codes "?") r.target) [ some (p, _) ↦ p | none ↦ r.target ]

unfoldable pub query : Request → Option Bytes
unfolding split_once
query r = Option.map (λ (_, q). q) (split_once (codes "?") r.target)

-- `headers.iter().find(|(k, _)| k.eq_ignore_ascii_case(name)).map(|(_, v)| v)`
unfoldable pub find_header : Bytes → List (Bytes × Bytes) → Option Bytes
unfolding eq_ignore_ascii_case
find_header name [] = none
find_header name ((k, v) ∷ hs) = if eq_ignore_ascii_case k name then some v else find_header name hs

unfoldable pub header : Request → Bytes → Option Bytes
unfolding find_header
header r name = find_header name r.headers
