-- ===== src/HttpServer/Response/Decode.antt =====
-- crates/core/src/http.rs, `Response::encode`: what a client reads from the bytes.
use ps_payload_rust.Base.{
  ◌≡◌, ◌∙◌, refl, ap, sym, inl, inr, List, [], ◌∷◌, ◌++◌, Bytes, codes, length, append-nil,
  append_assoc, Bool-cases, if◌then◌else◌,
}
use ps_payload_rust.Std.Number.{decimal}
use ps_payload_rust.HttpServer.Head.{marker}
use ps_payload_rust.HttpServer.Head.Print.{header_line, header_lines}
use ps_payload_rust.HttpServer.Response.{
  Response, crlf, is_reserved, push_headers, reason_phrase, status_line, encode,
}

-- The header fields of the response that are sent.
abbrev pub kept : List (Bytes × Bytes) → List (Bytes × Bytes)
kept [] = []
kept ((k, v) ∷ hs) = let rest = kept hs in if is_reserved k then rest else (k, v) ∷ rest

abbrev pub sent_headers : Response → List (Bytes × Bytes)
sent_headers r =
    kept r.headers
    ++ ((codes "Content-Length", decimal (length r.body))
        ∷ (codes "Connection", codes "close")
        ∷ [])

abbrev pub status_text : Response → Bytes
status_text r = codes "HTTP/1.1 " ++ (decimal r.status ++ (codes " " ++ reason_phrase r.status))

-- The head without the marker that ends it.
abbrev pub response_head : Response → Bytes
response_head r = status_text r ++ header_lines (sent_headers r)

push_one :
    (head k v : Bytes)
    → (head ++ crlf) ++ (k ++ (codes ": " ++ (v ++ crlf)))
      ≡ (head ++ (13 ∷ (10 ∷ header_line (k, v)))) ++ crlf
push_one head k v = simp append_assoc

push_headers-kept :
    (hs : List (Bytes × Bytes)) (head : Bytes)
    → push_headers hs (head ++ crlf) ≡ (head ++ header_lines (kept hs)) ++ crlf
unfolding push_headers
push_headers-kept [] head = rw append-nil
push_headers-kept ((k, v) ∷ hs) head = elim (Bool-cases (is_reserved k)) [
  | inl own ↦ rw own (push_headers-kept hs head)
  | inr other ↦
      rw (other, push_one head k v)
        (push_headers-kept hs (head ++ (13 ∷ (10 ∷ header_line (k, v)))) ∙ simp append_assoc)
]

header_lines-append :
    (hs gs : List (Bytes × Bytes)) → header_lines (hs ++ gs) ≡ header_lines hs ++ header_lines gs
header_lines-append [] gs = refl
header_lines-append ((k, v) ∷ hs) gs = simp (header_lines-append hs gs, append_assoc)

status_line_lem : (r : Response) → status_line r ≡ status_text r ++ crlf
unfolding status_line
status_line_lem r = simp append_assoc

-- The bytes behind the kept fields, as the source pushes them and as header lines.
own_lines :
    (head d body : Bytes)
    → (((head ++ crlf) ++ (codes "Content-Length: " ++ (d ++ crlf)))
          ++ (codes "Connection: close" ++ (crlf ++ crlf)))
        ++ body
      ≡ (head
          ++ header_lines ((codes "Content-Length", d) ∷ (codes "Connection", codes "close") ∷ []))
        ++ (marker ++ body)
own_lines head d body = simp append_assoc

-- What `encode` pushes behind the header fields of the response.
finish : Response → Bytes → Bytes
finish r head =
    ((head ++ (codes "Content-Length: " ++ (decimal (length r.body) ++ crlf)))
      ++ (codes "Connection: close" ++ (crlf ++ crlf)))
    ++ r.body

encode-finish : (r : Response) → encode r ≡ finish r (push_headers r.headers (status_line r))
unfolding encode finish
encode-finish r = refl

-- The encoding is the status line, the header lines, the marker and the body.
pub encode_lem : (r : Response) → encode r ≡ response_head r ++ (marker ++ r.body)
unfolding finish
encode_lem r =
    encode-finish r
    ∙ ap (finish r) (
        ap (push_headers r.headers) (status_line_lem r)
        ∙ push_headers-kept r.headers (status_text r))
    ∙ own_lines (status_text r ++ header_lines (kept r.headers)) (decimal (length r.body)) r.body
    ∙ ap (λ t. t ++ (marker ++ r.body))
        (append_assoc (status_text r) (header_lines (kept r.headers)) _
          ∙ ap (λ t. status_text r ++ t) (sym (header_lines-append (kept r.headers) _)))
