-- ===== src/Tests/Reading.antt =====
-- Requests read from the scripted platform.
use mathlib.Core.Option.{some-injective}
use ps_payload_rust.Base.{
  sym, ◌∙◌, inl, ◌≡◌, refl, true, List, [], ◌∷◌, ◌++◌, some, Bytes, codes, length, arith, Lacks,
}
use ps_payload_rust.Base.Int.{pos}
use ps_payload_rust.Ps5.Error.{ok}
use ps_payload_rust.Ps5.Effect.{Ensures, result_of}
use ps_payload_rust.Ps5.Net.Stream.{TcpStream}
use ps_payload_rust.Std.Utf8.{is_utf8}
use ps_payload_rust.Std.Trim.{trim}
use ps_payload_rust.Std.Number.{parse_usize}
use ps_payload_rust.HttpServer.Request.{find_header}
use ps_payload_rust.HttpServer.Head.{Parsed, find_double_crlf, content_length}
use ps_payload_rust.HttpServer.Head.Print.{print_head, HeadIsPlain, TokenIsPlain}
use ps_payload_rust.HttpServer.Read.{
  Limits, zeroed_chunk, length-zeroed_chunk, read_head, read_request,
}
use ps_payload_rust.HttpServer.Read.Ends.{
  HeadWithin, RequestWithin, read_head-Ensures, read_request-Ensures,
}
use ps_payload_rust.HttpServer.Read.Delivered.{joined, Delivers}
use ps_payload_rust.HttpServer.Read.Whole.{parse_input, IsClear, read_request-parse_input}
use ps_payload_rust.HttpServer.Read.RoundTrip.{request, read_request-print}
use ps_payload_rust.Tests.Scripted.{scripted, fresh, scripted-RecvCounts}

abbrev pub stream : TcpStream
stream = record { fd = pos 7 }

abbrev pub limits : Limits
limits = record { max_header_bytes = 100; max_body_bytes = 10 }

abbrev pub greeting : Parsed
greeting = record {
  method = codes "PUT";
  target = codes "/a?b";
  version = codes "HTTP/1.1";
  headers = (codes "Host", codes "ps5") ∷ (codes "content-length", codes "2") ∷ [];
}

-- The head cut inside its marker, and a body with a byte too many.
abbrev pub pieces : List Bytes
pieces = (print_head greeting ++ (13 ∷ 10 ∷ [])) ∷ (13 ∷ 10 ∷ codes "h") ∷ codes "i!" ∷ []

pub delivered : Delivers scripted (pos 7) pieces (fresh pieces 0).os
delivered = (
  refl,
  refl,
  omega arith,
  omega arith,
  (refl, refl, omega arith, omega arith, (refl, refl, omega arith, omega arith, refl)),
)

token_plain : (t : Bytes) → Lacks 13 t → Lacks 32 t → is_utf8 t ≡ true → TokenIsPlain t
token_plain t c s u = record { no_cr = c; no_space = s; utf8 = u }

pub greeting_plain : HeadIsPlain greeting
unfolding is_utf8
greeting_plain = record {
  method = token_plain (codes "PUT") (omega arith) (omega arith) refl;
  target = token_plain (codes "/a?b") (omega arith) (omega arith) refl;
  version = token_plain (codes "HTTP/1.1") (omega arith) (omega arith) refl;
  headers = (
    (omega arith, omega arith, (refl, refl), refl, omega arith, (refl, refl), refl),
    ((omega arith, omega arith, (refl, refl), refl, omega arith, (refl, refl), refl), tt),
  );
}

pub announced : content_length greeting.headers ≡ length (codes "hi")
unfolding content_length find_header parse_usize trim
announced = refl

read_request-print_example :
    result_of (read_request scripted 200 stream limits (fresh pieces 0))
    ≡ some (ok (some (request greeting (codes "hi"))))
read_request-print_example =
    read_request-print scripted stream limits greeting (codes "hi") (codes "!") pieces 200
      (fresh pieces 0) greeting_plain announced (omega arith) (omega arith) refl delivered
      (omega arith)

pub marker_found : find_double_crlf (joined pieces) ≡ some (length (print_head greeting))
unfolding find_double_crlf
marker_found = refl

clear : IsClear limits (joined pieces)
clear p e = inl (omega (arith, some-injective _ _ (sym e ∙ marker_found)))

-- The delivered input is read like the whole input.
read_request-parse_input_example :
    result_of (read_request scripted 200 stream limits (fresh pieces 0))
    ≡ some (parse_input limits (joined pieces))
read_request-parse_input_example =
    read_request-parse_input scripted stream limits pieces 200 (fresh pieces 0) delivered clear
      (omega arith)

read_request-Ensures_example :
    Ensures (RequestWithin limits) (read_request scripted 102 stream limits (fresh pieces 0))
read_request-Ensures_example =
    read_request-Ensures scripted scripted-RecvCounts 102 stream limits (fresh pieces 0)
      (omega arith) (omega arith)

read_head-Ensures_example :
    Ensures
      (HeadWithin limits)
      (read_head scripted 102 stream limits [] zeroed_chunk (fresh pieces 0))
read_head-Ensures_example =
    read_head-Ensures scripted scripted-RecvCounts 102 stream limits [] zeroed_chunk
      (fresh pieces 0) length-zeroed_chunk (omega arith) (omega arith) (omega arith)
