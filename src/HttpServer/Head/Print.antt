-- ===== src/HttpServer/Head/Print.antt =====
-- What a client sends, written independently of the parser in crates/core/src/http.rs, and that the
-- parser reads it back.
use ps_payload_rust.Base.{
  ℕ, suc, ◌+◌, ◌<◌, ◌≡◌, ◌≢◌, ◌∙◌, ap, sym, true, List, [], ◌∷◌, ◌++◌, some, Bytes, length, map,
  arith, append-nil, append_assoc, length-append, Lacks, All, All-append,
}
use mathlib.Core.Option
use ps_payload_rust.Ps5.Error.{ok}
use ps_payload_rust.Std.Split.{split, split-append, split_whole, split_once-append}
use ps_payload_rust.Std.Trim.{IsTrimmed, trim_trimmed, trim-space}
use ps_payload_rust.Std.Utf8.{is_utf8, is_utf8-append, is_utf8_ascii, from_utf8}
use ps_payload_rust.HttpServer.Head.{Parsed, marker, find_double_crlf, parse_headers, parse_head}
use ps_payload_rust.HttpServer.Head.Marker.{find_skip, find-cons}

-- `name: value`
abbrev pub header_line : Bytes × Bytes → Bytes
header_line (name, value) = name ++ (58 ∷ (32 ∷ value))

-- Each header line behind a CRLF.
abbrev pub header_lines : List (Bytes × Bytes) → Bytes
header_lines [] = []
header_lines (h ∷ hs) = 13 ∷ (10 ∷ (header_line h ++ header_lines hs))

abbrev pub request_line : Parsed → Bytes
request_line p = p.method ++ (32 ∷ (p.target ++ (32 ∷ p.version)))

-- The head without the marker that ends it.
abbrev pub print_head : Parsed → Bytes
print_head p = request_line p ++ header_lines p.headers

-- A field that can be sent as it is: no CR, no colon in the name, no space at the ends, UTF-8.
abbrev pub HeaderIsPlain : Bytes × Bytes → Type 0
HeaderIsPlain (name, value) =
    Lacks 13 name
    × Lacks 58 name
    × IsTrimmed name
    × (is_utf8 name ≡ true)
    × Lacks 13 value
    × IsTrimmed value
    × (is_utf8 value ≡ true)

pub record TokenIsPlain (t : Bytes) : Type 0 where
  pub no_cr : Lacks 13 t
  pub no_space : Lacks 32 t
  pub utf8 : is_utf8 t ≡ true

pub record HeadIsPlain (p : Parsed) : Type 0 where
  pub method : TokenIsPlain p.method
  pub target : TokenIsPlain p.target
  pub version : TokenIsPlain p.version
  pub headers : All HeaderIsPlain p.headers

header_line-Lacks : (h : Bytes × Bytes) → HeaderIsPlain h → Lacks 13 (header_line h)
header_line-Lacks (name, value) h =
    All-append (λ c. c ≢ 13) name (58 ∷ (32 ∷ value)) h.0 (omega arith, (omega arith, h.4))

-- The search for the marker passes over bytes that are no CR.
pub find-append_Lacks :
    (a s : Bytes) {q : ℕ}
    → Lacks 13 a
    → find_double_crlf s ≡ some q
    → find_double_crlf (a ++ s) ≡ some (length a + q)
find-append_Lacks [] s {q} h e = e ∙ ap some (omega arith)
find-append_Lacks (x ∷ a) s {q} (ne, h) e =
    find_skip x (a ++ s) ne
    ∙ ap (Option.map suc) (find-append_Lacks a s h e)
    ∙ ap some (omega arith)

-- A line break that is followed by a header line is no marker.
find_break :
    (x : ℕ) (s : Bytes) {q : ℕ}
    → x ≢ 13
    → find_double_crlf (x ∷ s) ≡ some q
    → find_double_crlf (13 ∷ 10 ∷ x ∷ s) ≡ some (suc (suc q))
find_break x s {q} ne e = ground (arith, find-cons 13 (10 ∷ (x ∷ s)), find-cons 10 (x ∷ s))

find_header_break :
    (h : Bytes × Bytes) (s : Bytes) {q : ℕ}
    → HeaderIsPlain h
    → find_double_crlf s ≡ some q
    → find_double_crlf (13 ∷ (10 ∷ (header_line h ++ s)))
      ≡ some (suc (suc (length (header_line h) + q)))
find_header_break ([], value) s {q} h e =
    find_break 58 _ (omega arith)
      (find-append_Lacks (header_line ([], value)) s (header_line-Lacks ([], value) h) e)
find_header_break (c ∷ name, value) s {q} h e =
    find_break c _ h.0.0 (
      find-append_Lacks (header_line (c ∷ name, value)) s (header_line-Lacks (c ∷ name, value) h) e)

pub find-header_lines :
    (hs : List (Bytes × Bytes)) (rest : Bytes)
    → All HeaderIsPlain hs
    → find_double_crlf (header_lines hs ++ (marker ++ rest)) ≡ some (length (header_lines hs))
find-header_lines [] rest h = find-cons 13 (10 ∷ (13 ∷ (10 ∷ rest)))
find-header_lines (h ∷ hs) rest (p, ps) =
    ap (λ t. find_double_crlf (13 ∷ (10 ∷ t)))
      (append_assoc (header_line h) (header_lines hs) (marker ++ rest))
    ∙ find_header_break h (header_lines hs ++ (marker ++ rest)) p (find-header_lines hs rest ps)
    ∙ ap (λ n. some (suc (suc n))) (sym (length-append (header_line h) (header_lines hs)))

request_line-Lacks : (p : Parsed) → HeadIsPlain p → Lacks 13 (request_line p)
request_line-Lacks p h =
    All-append (λ c. c ≢ 13) p.method _ h.method.no_cr
      (
        omega arith,
        All-append (λ c. c ≢ 13) p.target _ h.target.no_cr (omega arith, h.version.no_cr),
      )

-- The marker is found behind the printed head, not before.
pub find-print_head :
    (p : Parsed) (rest : Bytes)
    → HeadIsPlain p
    → find_double_crlf (print_head p ++ (marker ++ rest)) ≡ some (length (print_head p))
find-print_head p rest h =
    ap find_double_crlf (append_assoc (request_line p) (header_lines p.headers) (marker ++ rest))
    ∙ find-append_Lacks (request_line p) _ (request_line-Lacks p h)
        (find-header_lines p.headers rest h.headers)
    ∙ ap some (sym (length-append (request_line p) (header_lines p.headers)))

pub split-header_lines :
    (a : Bytes) (hs : List (Bytes × Bytes))
    → Lacks 13 a
    → All HeaderIsPlain hs
    → split (13 ∷ 10 ∷ []) (a ++ header_lines hs) ≡ a ∷ map header_line hs
split-header_lines a [] l h =
    ap (split (13 ∷ 10 ∷ [])) (append-nil a) ∙ split_whole 13 (10 ∷ []) a l
split-header_lines a (h ∷ hs) l (p, ps) =
    split-append 13 (10 ∷ []) a (header_line h ++ header_lines hs) l
    ∙ ap (λ t. a ∷ t) (split-header_lines (header_line h) hs (header_line-Lacks h p) ps)

split-request_line :
    (p : Parsed)
    → HeadIsPlain p
    → split (32 ∷ []) (request_line p) ≡ p.method ∷ p.target ∷ p.version ∷ []
split-request_line p h =
    split-append 32 [] p.method (p.target ++ (32 ∷ p.version)) h.method.no_space
    ∙ ap (λ t. p.method ∷ t)
        (split-append 32 [] p.target p.version h.target.no_space
          ∙ ap (λ t. p.target ∷ t) (split_whole 32 [] p.version h.version.no_space))

parse_headers-line :
    (name value : Bytes) (lines : List Bytes) (acc : List (Bytes × Bytes))
    → HeaderIsPlain (name, value)
    → parse_headers (header_line (name, value) ∷ lines) acc
      ≡ parse_headers lines (acc ++ ((name, value) ∷ []))
unfolding parse_headers
parse_headers-line [] value lines acc h =
    rw (split_once-append 58 [] [] (32 ∷ value) tt)
      (rw (trim_trimmed [] h.2, trim-space value, trim_trimmed value h.5))
parse_headers-line (c ∷ name) value lines acc h =
    rw (split_once-append 58 [] (c ∷ name) (32 ∷ value) h.1)
      (rw (trim_trimmed (c ∷ name) h.2, trim-space value, trim_trimmed value h.5))

pub parse_headers-print :
    (hs acc : List (Bytes × Bytes))
    → All HeaderIsPlain hs
    → parse_headers (map header_line hs) acc ≡ ok (acc ++ hs)
parse_headers-print [] acc h = unfold parse_headers in ap ok (sym (append-nil acc))
parse_headers-print ((name, value) ∷ hs) acc (p, ps) =
    parse_headers-line name value (map header_line hs) acc p
    ∙ parse_headers-print hs (acc ++ ((name, value) ∷ [])) ps
    ∙ ap ok (append_assoc acc ((name, value) ∷ []) hs)

ascii-append : (a s : Bytes) → All (λ b. b < 128) a → is_utf8 s ≡ true → is_utf8 (a ++ s) ≡ true
ascii-append a s h k = is_utf8-append a s (is_utf8_ascii a h) k

header_lines-utf8 :
    (hs : List (Bytes × Bytes)) → All HeaderIsPlain hs → is_utf8 (header_lines hs) ≡ true
header_lines-utf8 [] h = is_utf8_ascii [] tt
header_lines-utf8 ((name, value) ∷ hs) (p, ps) = ascii-append (13 ∷ 10 ∷ []) _ (omega arith) (
    is_utf8-append (header_line (name, value)) (header_lines hs)
      (is_utf8-append name _ p.3 (ascii-append (58 ∷ 32 ∷ []) value (omega arith) p.6))
      (header_lines-utf8 hs ps))

print_head-utf8 : (p : Parsed) → HeadIsPlain p → is_utf8 (print_head p) ≡ true
print_head-utf8 p h =
    is_utf8-append (request_line p) (header_lines p.headers)
      (is_utf8-append p.method _ h.method.utf8 (
        ascii-append (32 ∷ []) _ (omega arith) (
          is_utf8-append p.target _ h.target.utf8
            (ascii-append (32 ∷ []) p.version (omega arith) h.version.utf8))))
      (header_lines-utf8 p.headers h.headers)

-- The parser reads back every plain head that is printed.
pub parse_head-print : (p : Parsed) → HeadIsPlain p → parse_head (print_head p) ≡ ok p
unfolding parse_head from_utf8
parse_head-print p h = rw (print_head-utf8 p h) (
    rw (split-header_lines (request_line p) p.headers (request_line-Lacks p h) h.headers)
      (rw (split-request_line p h) (rw (parse_headers-print p.headers [] h.headers))))
