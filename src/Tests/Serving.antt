-- ===== src/Tests/Serving.antt =====
-- Connections served and bytes written on the scripted platform.
use ps_payload_rust.Base.{
  map, All, ◌<◌, ◌^◌, ◌≤◌, ◌≡◌, refl, List, [], ◌∷◌, ◌++◌, Option, none, some, Bytes, codes, length,
  arith,
}
use ps_payload_rust.Base.Int.{pos}
use ps_payload_rust.Ps5.Error.{Result, ok, err}
use ps_payload_rust.Ps5.Effect.{result_of}
use ps_payload_rust.Ps5.Net.Stream.{TcpStream, write_all}
use ps_payload_rust.Ps5.Net.Stream.WriteAll.{Written, write_all_lem}
use ps_payload_rust.HttpServer.Request.{Request}
use ps_payload_rust.Std.Text.{eq_ignore_ascii_case}
use ps_payload_rust.Std.Number.{decimal}
use ps_payload_rust.Std.Utf8.{is_utf8}
use ps_payload_rust.Std.Split.{split}
use ps_payload_rust.HttpServer.Head.{marker, find_double_crlf, parse_headers, content_length}
use ps_payload_rust.HttpServer.Head.Print.{HeaderIsPlain, header_line}
use ps_payload_rust.HttpServer.Response.Decode.{kept, sent_headers, status_text, response_head}
use ps_payload_rust.HttpServer.Response.Received.{encode-decodes}
use ps_payload_rust.HttpServer.Response.{header, crlf, Response, encode, text, new}
use ps_payload_rust.HttpServer.Read.{Limits, read_request}
use ps_payload_rust.HttpServer.Connection.{bad_request, returning, serve_connection}
use ps_payload_rust.HttpServer.Connection.Serves.{owed, Served, serve_connection-Served}
use ps_payload_rust.HttpServer.Connection.Alone.{IsServing, serve_connection-Only}
use ps_payload_rust.HttpServer.Server.{Server, connection_thread}
use ps_payload_rust.HttpServer.Server.Closes.{Closed, connection_thread-Closed}
use ps_payload_rust.Ps5.Effect.{World}
use ps_payload_rust.Ps5.Frame.{Calls, world}
use ps_payload_rust.Sys.{Call}
use ps_payload_rust.Tests.Scripted.{
  Script, reply, scripted, fresh, scripted-RecvCounts, scripted-SendCounts, scripted-FiniteSignals,
}

abbrev stream : TcpStream
stream = record { fd = pos 7 }

abbrev limits : Limits
limits = record { max_header_bytes = 100; max_body_bytes = 10 }

-- `send` is interrupted twice and takes three bytes at a time.
write_all_lem_example :
    Written scripted
      (pos 7)
      []
      (codes "hello world")
      (write_all scripted 13 stream (codes "hello world") (fresh [] 2))
write_all_lem_example =
    write_all_lem scripted scripted-SendCounts scripted-FiniteSignals 13 stream
      (codes "hello world") (fresh [] 2) (omega arith) (omega arith)

pub hello : Response
unfolding text new
hello = text (new 200) (codes "hi")

length-encode-hello : length (encode hello) ≡ 100
unfolding encode hello eq_ignore_ascii_case decimal
length-encode-hello = refl

length-encode-bad_request : length (encode bad_request) ≡ 119
unfolding encode bad_request eq_ignore_ascii_case decimal
length-encode-bad_request = refl

pub length-owed : (r : Result (Option Request)) → length (owed (λ _. hello) r) ≤ 119
unfolding owed
length-owed (ok (some r)) = omega (arith, length-encode-hello)
length-owed (ok none) = omega arith
length-owed (err e) = omega (arith, length-encode-bad_request)

abbrev incoming : List Bytes
incoming = codes "GET /" ∷ (codes " HTTP/1.1" ++ (13 ∷ 10 ∷ 13 ∷ 10 ∷ [])) ∷ []

serve_connection-Served_example :
    (r : Result (Option Request)) × (result_of
        (read_request scripted 200 stream limits (fresh incoming 2))
      ≡ some r)
    × Served scripted
        (pos 7)
        []
        (owed (λ _. hello) r)
        (serve_connection scripted 200 stream (returning (λ _. hello)) limits (fresh incoming 2))
serve_connection-Served_example =
    serve_connection-Served scripted scripted-SendCounts scripted-FiniteSignals 200 stream
      (λ _. hello) scripted-RecvCounts limits (fresh incoming 2) (omega arith) (omega arith)
      (λ r. omega (arith, length-owed r)) (λ r. omega (arith, length-owed r))

-- The descriptor 7 is held.
abbrev taken_over : World Script
taken_over = record (fresh incoming 2) {
  events = record { asked = Call.accept (pos 3) 16; answered = reply (pos 7) [] } ∷ [];
}

abbrev small_server : Server
small_server = record { stack_size = 65_536; limits = limits }

connection_thread-Closed_example :
    (r : Result (Option Request)) × (result_of (read_request scripted 200 stream limits taken_over)
      ≡ some r)
    × Closed scripted
        (pos 7)
        []
        (owed (λ _. hello) r)
        []
        (connection_thread scripted 200 small_server (returning (λ _. hello)) stream taken_over)
connection_thread-Closed_example =
    connection_thread-Closed scripted [] stream scripted-SendCounts scripted-RecvCounts
      scripted-FiniteSignals 200 small_server (λ _. hello) taken_over (omega arith) (omega arith)
      (λ r. omega (arith, length-owed r)) (λ r. omega (arith, length-owed r)) refl

serve_connection-Only_example :
    Calls scripted
      (IsServing (pos 7))
      taken_over
      (world (serve_connection scripted 200 stream (returning (λ _. hello)) limits taken_over))
serve_connection-Only_example =
    serve_connection-Only scripted stream 200 (λ _. hello) limits taken_over

-- A response with a field of its own, and one that is dropped.
custom : Response
unfolding text new header
custom =
    header (header (text (new 404) (codes "no")) (codes "X-A") (codes "b")) (codes "connection")
      (codes "keep")

custom_plain : All HeaderIsPlain (kept custom.headers)
unfolding custom eq_ignore_ascii_case is_utf8
custom_plain = (
  (omega arith, omega arith, (refl, refl), refl, omega arith, (refl, refl), refl),
  ((omega arith, omega arith, (refl, refl), refl, omega arith, (refl, refl), refl), tt),
)

custom_small : length custom.body < 2 ^ 64
unfolding custom
custom_small = omega arith

encode-decodes_example :
    (encode custom ≡ response_head custom ++ (marker ++ custom.body))
    × (find_double_crlf (encode custom) ≡ some (length (response_head custom)))
    × (split crlf (response_head custom)
        ≡ status_text custom ∷ map header_line (sent_headers custom))
    × (parse_headers (map header_line (sent_headers custom)) [] ≡ ok (sent_headers custom))
    × (content_length (sent_headers custom) ≡ length custom.body)
encode-decodes_example = encode-decodes custom custom_plain custom_small
