-- ===== src/HttpServer/Response/Received.antt =====
-- crates/core/src/http.rs, `Response::encode`: what a client that parses as the server does reads
-- from the bytes.
use ps_payload_rust.Base.{
  ℕ, ◌<◌, ◌^◌, ◌≡◌, ◌≢◌, ◌∙◌, refl, ap, sym, inl, inr, Bool, true, false, List, [], ◌∷◌, ◌++◌, some,
  Bytes, codes, length, map, arith, append_assoc, length-append, Lacks, All, All-append, Bool-cases,
  if◌then◌else◌, ◌==◌,
}
use ps_payload_rust.Ps5.Error.{ok}
use ps_payload_rust.Std.Text.{eq_ignore_ascii_case}
use ps_payload_rust.Std.Utf8.{is_utf8, is_utf8_ascii}
use ps_payload_rust.Std.Number.{decimal, decimal-IsDigit, IsDigit, parse_usize-decimal}
use ps_payload_rust.Std.Trim.{IsTrimmed, Visible, IsTrimmed-Visible, trim_trimmed}
use ps_payload_rust.Std.Split.{split}
use ps_payload_rust.HttpServer.Request.{find_header}
use ps_payload_rust.HttpServer.Head.{marker, find_double_crlf, parse_headers, content_length}
use ps_payload_rust.HttpServer.Head.Print.{
  header_line, header_lines, HeaderIsPlain, find-append_Lacks, find-header_lines,
  split-header_lines, parse_headers-print,
}
use ps_payload_rust.HttpServer.Response.{Response, crlf, reason_phrase, encode}
use ps_payload_rust.HttpServer.Response.Decode.{
  kept, sent_headers, status_text, response_head, encode_lem,
}

All-digits : (P : ℕ → Type 0) (s : Bytes) → ((c : ℕ) → IsDigit c → P c) → All IsDigit s → All P s
All-digits P [] f h = tt
All-digits P (c ∷ s) f (d, ds) = (f c d, All-digits P s f ds)

Lacks-if : (b : Bool) (x y : Bytes) → Lacks 13 x → Lacks 13 y → Lacks 13 (if b then x else y)
Lacks-if true x y h k = h
Lacks-if false x y h k = k

reason_phrase-Lacks : (s : ℕ) → Lacks 13 (reason_phrase s)
unfolding reason_phrase
reason_phrase-Lacks s = Lacks-if (s == 200) _ _ (omega arith) (
    Lacks-if (s == 201) _ _ (omega arith) (
      Lacks-if (s == 204) _ _ (omega arith) (
        Lacks-if (s == 301) _ _ (omega arith) (
          Lacks-if (s == 302) _ _ (omega arith) (
            Lacks-if (s == 304) _ _ (omega arith) (
              Lacks-if (s == 400) _ _ (omega arith) (
                Lacks-if (s == 401) _ _ (omega arith) (
                  Lacks-if (s == 403) _ _ (omega arith) (
                    Lacks-if (s == 404) _ _ (omega arith) (
                      Lacks-if (s == 405) _ _ (omega arith) (
                        Lacks-if (s == 413) _ _ (omega arith) (
                          Lacks-if (s == 431) _ _ (omega arith) (
                            Lacks-if (s == 500) _ _ (omega arith)
                              (Lacks-if (s == 503) _ _ (omega arith) (omega arith)))))))))))))))

decimal-Lacks : (n : ℕ) → Lacks 13 (decimal n)
decimal-Lacks n = All-digits (λ c. c ≢ 13) (decimal n) (λ c d. omega arith) (decimal-IsDigit n)

status_text-Lacks : (r : Response) → Lacks 13 (status_text r)
status_text-Lacks r =
    All-append (λ c. c ≢ 13) (codes "HTTP/1.1 ") _ (omega arith)
      (All-append (λ c. c ≢ 13) (decimal r.status) _ (decimal-Lacks r.status)
        (omega arith, reason_phrase-Lacks r.status))

decimal-IsTrimmed : (n : ℕ) → IsTrimmed (decimal n)
decimal-IsTrimmed n =
    IsTrimmed-Visible (decimal n)
      (All-digits Visible (decimal n) (λ c d. (omega arith, omega arith)) (decimal-IsDigit n))

own-IsPlain :
    (n : ℕ)
    → All HeaderIsPlain
        ((codes "Content-Length", decimal n) ∷ (codes "Connection", codes "close") ∷ [])
unfolding is_utf8
own-IsPlain n = (
  (
    omega arith,
    omega arith,
    (refl, refl),
    refl,
    decimal-Lacks n,
    decimal-IsTrimmed n,
    is_utf8_ascii (decimal n)
        (All-digits (λ c. c < 128) (decimal n) (λ c d. omega arith) (decimal-IsDigit n)),
  ),
  ((omega arith, omega arith, (refl, refl), refl, omega arith, (refl, refl), refl), tt),
)

-- No kept field is a content length.
find_header-kept :
    (hs gs : List (Bytes × Bytes))
    → find_header (codes "content-length") (kept hs ++ gs) ≡ find_header (codes "content-length") gs
unfolding find_header
find_header-kept [] gs = refl
find_header-kept ((k, v) ∷ hs) gs =
    elim (Bool-cases (eq_ignore_ascii_case k (codes "content-length"))) [
      | inl length_field ↦ rw length_field (find_header-kept hs gs)
      | inr other ↦ elim (Bool-cases (eq_ignore_ascii_case k (codes "connection"))) [
        | inl connection ↦ rw (other, connection) (find_header-kept hs gs)
        | inr plain ↦ rw (other, plain) (rw other (find_header-kept hs gs))
      ]
    ]

find_header-own :
    (n : ℕ)
    → find_header
        (codes "content-length")
        ((codes "Content-Length", decimal n) ∷ (codes "Connection", codes "close") ∷ [])
      ≡ some (decimal n)
unfolding find_header eq_ignore_ascii_case
find_header-own n = refl

content_length-sent :
    (r : Response) → length r.body < 2 ^ 64 → content_length (sent_headers r) ≡ length r.body
unfolding content_length
content_length-sent r small = rw (
  find_header-kept r.headers,
  find_header-own,
  trim_trimmed _ (decimal-IsTrimmed (length r.body)),
  parse_usize-decimal (length r.body) small,
)

sent_headers-IsPlain :
    (r : Response) → All HeaderIsPlain (kept r.headers) → All HeaderIsPlain (sent_headers r)
sent_headers-IsPlain r h =
    All-append HeaderIsPlain (kept r.headers) _ h (own-IsPlain (length r.body))

find-encode :
    (r : Response)
    → All HeaderIsPlain (kept r.headers)
    → find_double_crlf (encode r) ≡ some (length (response_head r))
find-encode r h =
    ap find_double_crlf
      (encode_lem r ∙ append_assoc (status_text r) (header_lines (sent_headers r)) _)
    ∙ find-append_Lacks (status_text r) _ (status_text-Lacks r)
        (find-header_lines (sent_headers r) r.body (sent_headers-IsPlain r h))
    ∙ ap some (sym (length-append (status_text r) (header_lines (sent_headers r))))

-- A response of which the fields that are sent are plain and the body is shorter than 2^64 bytes is
-- encoded so that a client reads it back: the first blank line ends the head, the body follows, the
-- lines of the head are the status line and one line for each field, the parser of fields gives back
-- those of the response but its own length and connection, and their length is the body's.
pub encode-decodes :
    (r : Response)
    → All HeaderIsPlain (kept r.headers)
    → length r.body < 2 ^ 64
    → (encode r ≡ response_head r ++ (marker ++ r.body))
      × (find_double_crlf (encode r) ≡ some (length (response_head r)))
      × (split crlf (response_head r) ≡ status_text r ∷ map header_line (sent_headers r))
      × (parse_headers (map header_line (sent_headers r)) [] ≡ ok (sent_headers r))
      × (content_length (sent_headers r) ≡ length r.body)
encode-decodes r h small = (
  encode_lem r,
  find-encode r h,
  split-header_lines (status_text r) (sent_headers r) (status_text-Lacks r)
      (sent_headers-IsPlain r h),
  parse_headers-print (sent_headers r) [] (sent_headers-IsPlain r h),
  content_length-sent r small,
)
