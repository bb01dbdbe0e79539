-- ===== src/HttpServer/Head.antt =====
-- crates/core/src/http.rs: the part of `read_request` that parses, and the search for the end of
-- the head.
pub mod Marker
pub mod Print
use ps_payload_rust.Base.{
  ℕ, Bool, true, false, List, [], ◌∷◌, ◌++◌, Option, none, some, Bytes, codes, if◌then◌else◌, ◌<◌,
}
use ps_payload_rust.Ps5.Error.{Result, ok, err, ◌>>=◌, ok_or, invalid_input}
use ps_payload_rust.Std.Text.{eq_bytes, windows, position}
use ps_payload_rust.Std.Split.{split, split_once}
use ps_payload_rust.Std.Trim.{trim}
use ps_payload_rust.Std.Number.{parse_usize}
use ps_payload_rust.Std.Utf8.{from_utf8}
use ps_payload_rust.HttpServer.Request.{find_header}

abbrev pub marker : Bytes
marker = 13 ∷ 10 ∷ 13 ∷ 10 ∷ []

unfoldable pub find_double_crlf : Bytes → Option ℕ
unfolding windows position
find_double_crlf buf = position (λ w. eq_bytes w marker) (windows 4 buf)

pub record Parsed : Type 0 where
  pub method : Bytes
  pub target : Bytes
  pub version : Bytes
  pub headers : List (Bytes × Bytes)

-- `Iterator::next` on the parts of a split.
abbrev pub next : List Bytes → Option (Bytes × List Bytes)
next [] = none
next (p ∷ ps) = some (p, ps)

-- The loop over the header lines, with the fields found so far.
unfoldable pub parse_headers : List Bytes → List (Bytes × Bytes) → Result (List (Bytes × Bytes))
parse_headers [] headers = ok headers
parse_headers ([] ∷ lines) headers = parse_headers lines headers
parse_headers ((c ∷ line) ∷ lines) headers = do
  (name, value) ← ok_or (split_once (codes ":") (c ∷ line)) "malformed header line"
  parse_headers lines (headers ++ ((trim name, trim value) ∷ []))

-- Step 2 of `read_request`, on the bytes before the end-of-headers marker.
unfoldable pub parse_head : Bytes → Result Parsed
parse_head bytes = do
  head ← ok_or (from_utf8 bytes) "request head is not valid UTF-8"
  (request_line, lines) ← ok_or (next (split (13 ∷ 10 ∷ []) head)) "missing request line"
  (method, parts) ← ok_or (next (split (codes " ") request_line)) "missing method"
  (target, parts2) ← ok_or (next parts) "missing request target"
  (version, parts3) ← ok_or (next parts2) "missing HTTP version"
  headers ← parse_headers lines []
  ok (record { method = method; target = target; version = version; headers = headers })

abbrev or_zero : Option ℕ → ℕ
or_zero none = 0
or_zero (some n) = n

abbrev parse_trimmed : Option Bytes → Option ℕ
parse_trimmed none = none
parse_trimmed (some v) = parse_usize (trim v)

-- The body length that the headers announce; 0 without a header that can be read.
unfoldable pub content_length : List (Bytes × Bytes) → ℕ
content_length headers = or_zero (parse_trimmed (find_header (codes "content-length") headers))
