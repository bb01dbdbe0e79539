-- ===== src/Tests/Answering.antt =====
-- Connections answered on the scripted platform: a request in pieces, and one that breaks off.
use ps_payload_rust.Base.{◌≡◌, refl, List, [], ◌∷◌, none, Bytes, codes, arith}
use ps_payload_rust.Base.Int.{pos}
use ps_payload_rust.Ps5.Effect.{World}
use ps_payload_rust.HttpServer.Response.{encode}
use ps_payload_rust.HttpServer.Head.{find_double_crlf}
use ps_payload_rust.HttpServer.Read.Delivered.{joined, Delivers}
use ps_payload_rust.HttpServer.Read.Whole.{parse_input, IsClear}
use ps_payload_rust.HttpServer.Connection.{returning, serve_connection}
use ps_payload_rust.HttpServer.Connection.Serves.{owed, Served}
use ps_payload_rust.HttpServer.Connection.Answers.{
  Suffices, serve_connection-parse_input, serve_connection-print,
}
use ps_payload_rust.Tests.Scripted.{
  Script, scripted, fresh, scripted-RecvCounts, scripted-SendCounts, scripted-FiniteSignals,
}
use ps_payload_rust.Tests.Reading.{stream, limits, greeting, pieces, greeting_plain, announced}
use ps_payload_rust.Tests.Serving.{hello, length-owed}

-- Three pieces, and two signals that interrupt `send`.
abbrev signalled : World Script
signalled = fresh pieces 2

signalled_delivered : Delivers scripted (pos 7) pieces signalled.os
signalled_delivered = (
  refl,
  refl,
  omega arith,
  omega arith,
  (refl, refl, omega arith, omega arith, (refl, refl, omega arith, omega arith, refl)),
)

enough :
    Suffices scripted scripted-RecvCounts scripted-SendCounts scripted-FiniteSignals 200 stream
      (λ _. hello)
      limits
      signalled
enough = record {
  head = omega arith;
  body = omega arith;
  small = λ r. omega (arith, length-owed r);
  answers = λ r. omega (arith, length-owed r);
}

serve_connection-print_example :
    Served scripted
      (pos 7)
      []
      (encode hello)
      (serve_connection scripted 200 stream (returning (λ _. hello)) limits signalled)
serve_connection-print_example =
    serve_connection-print scripted scripted-RecvCounts scripted-SendCounts scripted-FiniteSignals
      200 stream (λ _. hello) limits signalled enough greeting (codes "hi") (codes "!") pieces
      greeting_plain announced (omega arith) (omega arith) refl signalled_delivered (omega arith)

abbrev half : List Bytes
half = codes "GET /" ∷ codes " HT" ∷ []

half_delivered : Delivers scripted (pos 7) half (fresh half 1).os
half_delivered =
    (refl, refl, omega arith, omega arith, (refl, refl, omega arith, omega arith, refl))

no_marker : find_double_crlf (joined half) ≡ none
unfolding find_double_crlf
no_marker = refl

half-IsClear : IsClear limits (joined half)
half-IsClear p e = absurd (cc no_marker)

enough_for_half :
    Suffices scripted scripted-RecvCounts scripted-SendCounts scripted-FiniteSignals 200 stream
      (λ _. hello)
      limits
      (fresh half 1)
enough_for_half = record {
  head = omega arith;
  body = omega arith;
  small = λ r. omega (arith, length-owed r);
  answers = λ r. omega (arith, length-owed r);
}

serve_connection-parse_input_example :
    Served scripted
      (pos 7)
      []
      (owed (λ _. hello) (parse_input limits (joined half)))
      (serve_connection scripted 200 stream (returning (λ _. hello)) limits (fresh half 1))
serve_connection-parse_input_example =
    serve_connection-parse_input scripted scripted-RecvCounts scripted-SendCounts
      scripted-FiniteSignals 200 stream (λ _. hello) limits (fresh half 1) enough_for_half half
      half_delivered half-IsClear (omega arith)
