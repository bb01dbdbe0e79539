-- ===== src/HttpServer/Response.antt =====
-- crates/core/src/http.rs: `Response`, its builder methods and its encoding.
pub mod Decode
pub mod Received
use ps_payload_rust.Base.{
  ℕ, Bool, ◌||◌, List, [], ◌∷◌, ◌++◌, Bytes, codes, length, ◌==◌, if◌then◌else◌,
}
use ps_payload_rust.Std.Text.{eq_ignore_ascii_case}
use ps_payload_rust.Std.Number.{decimal}

pub record Response : Type 0 where
  pub status : ℕ
  pub headers : List (Bytes × Bytes)
  pub body : Bytes

-- `Response::new`
unfoldable pub new : ℕ → Response
new status = record { status = status; headers = []; body = [] }

unfoldable pub ok : Response
unfolding new
ok = new 200

unfoldable pub status : Response → ℕ → Response
status r code = record r { status = code }

unfoldable pub header : Response → Bytes → Bytes → Response
header r name value = record r { headers = r.headers ++ ((name, value) ∷ []) }

unfoldable pub body : Response → Bytes → Response
body r bytes = record r { body = bytes }

unfoldable pub with_content_type : Response → Bytes → Response
unfolding header
with_content_type r ct = header r (codes "Content-Type") ct

unfoldable pub text : Response → Bytes → Response
unfolding with_content_type body
text r t = body (with_content_type r (codes "text/plain; charset=utf-8")) t

unfoldable pub html : Response → Bytes → Response
unfolding with_content_type body
html r t = body (with_content_type r (codes "text/html; charset=utf-8")) t

unfoldable pub json : Response → Bytes → Response
unfolding with_content_type body
json r t = body (with_content_type r (codes "application/json")) t

unfoldable pub reason_phrase : ℕ → Bytes
reason_phrase s =
    if s == 200
    then codes "OK"
    else if s == 201
    then codes "Created"
    else if s == 204
    then codes "No Content"
    else if s == 301
    then codes "Moved Permanently"
    else if s == 302
    then codes "Found"
    else if s == 304
    then codes "Not Modified"
    else if s == 400
    then codes "Bad Request"
    else if s == 401
    then codes "Unauthorized"
    else if s == 403
    then codes "Forbidden"
    else if s == 404
    then codes "Not Found"
    else if s == 405
    then codes "Method Not Allowed"
    else if s == 413
    then codes "Payload Too Large"
    else if s == 431
    then codes "Request Header Fields Too Large"
    else if s == 500
    then codes "Internal Server Error"
    else if s == 503
    then codes "Service Unavailable"
    else codes "OK"

abbrev pub crlf : Bytes
crlf = 13 ∷ 10 ∷ []

abbrev pub is_reserved : Bytes → Bool
is_reserved k =
    eq_ignore_ascii_case k (codes "content-length") || eq_ignore_ascii_case k (codes "connection")

-- The loop over the header fields, which pushes each that is kept to the head.
push_headers : List (Bytes × Bytes) → Bytes → Bytes
push_headers [] head = head
push_headers ((k, v) ∷ hs) head =
    push_headers hs (if is_reserved k then head else head ++ (k ++ (codes ": " ++ (v ++ crlf))))

unfoldable pub status_line : Response → Bytes
unfolding reason_phrase
status_line r =
    codes "HTTP/1.1 " ++ (decimal r.status ++ (codes " " ++ (reason_phrase r.status ++ crlf)))

unfoldable pub encode : Response → Bytes
unfolding push_headers status_line
encode r =
    let head = push_headers r.headers (status_line r) in
    let head2 = head ++ (codes "Content-Length: " ++ (decimal (length r.body) ++ crlf)) in
    let head3 = head2 ++ (codes "Connection: close" ++ (crlf ++ crlf)) in head3 ++ r.body
