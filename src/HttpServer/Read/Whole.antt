-- ===== src/HttpServer/Read/Whole.antt =====
-- crates/core/src/http.rs, `read_request` against a parser of the whole input, complete or not.
use mathlib.Core.Option.{some-injective}
use ps_payload_rust.Base.{
  ℕ, ◌+◌, ◌≤◌, ◌<◌, ◌≡◌, ◌⊎◌, ◌∙◌, refl, ap, sym, inl, inr, List, [], Option, none, some, Bytes,
  length, take, drop, arith, ltb, ◌==◌, Bool-cases, Option-cases, lt→ltb, le→ltb, if◌then◌else◌,
}
use ps_payload_rust.Sys.{Sys}
use ps_payload_rust.Ps5.Error.{Result, ok, err}
use ps_payload_rust.Ps5.Effect.{World, Outcome, result_of, and_then}
use ps_payload_rust.Ps5.Net.Stream.{TcpStream}
use ps_payload_rust.HttpServer.Request.{Request}
use ps_payload_rust.HttpServer.Head.{find_double_crlf}
use ps_payload_rust.HttpServer.Head.Marker.{find_bound}
use ps_payload_rust.HttpServer.Read.{
  Limits, HeadRead, read_chunk, zeroed_chunk, length-zeroed_chunk, read_head, after_head,
  read_request,
}
use ps_payload_rust.HttpServer.Read.Delivered.{
  joined, Delivers, request_of, with_some, read_request-Delivers,
}
use ps_payload_rust.HttpServer.Read.Delivered.Late.{
  head_exceeds, closed_early, IsLate, LateCase, over, closed, read_head-Late,
}

-- An input without a marker: too long, empty, or broken off.
abbrev pub parse_bare : Limits → Bytes → Result (Option Request)
parse_bare limits input =
    if ltb limits.max_header_bytes (length input)
    then err head_exceeds
    else if length input == 0
    then ok none
    else err closed_early

-- What the whole input is worth.
unfoldable pub parse_input : Limits → Bytes → Result (Option Request)
unfolding request_of
parse_input limits input = elim (find_double_crlf input) [
  | none ↦ parse_bare limits input
  | some p ↦
      if ltb limits.max_header_bytes (p + 3)
      then err head_exceeds
      else with_some (request_of limits (take p input) (drop (p + 4) input))
]

-- The head, if there is one, keeps the limit, or breaks it by a chunk.
abbrev pub IsClear : Limits → Bytes → Type 0
IsClear limits input =
    (p : ℕ)
    → find_double_crlf input ≡ some p
    → (p + 3 ≤ limits.max_header_bytes) ⊎ (limits.max_header_bytes + read_chunk ≤ p + 3)

parse_input-Late :
    (limits : Limits) (input : Bytes)
    → IsLate limits input
    → parse_input limits input ≡ parse_bare limits input
unfolding parse_input
parse_input-Late limits input late = elim (Option-cases (find_double_crlf input)) [
  | inl e ↦ rw (parse_input, e) refl
  | inr (p, e) ↦
      rw
        (
          parse_input,
          e,
          lt→ltb limits.max_header_bytes (p + 3) (omega (arith, late p e)),
          lt→ltb limits.max_header_bytes (length input)
              (omega (arith, late p e, find_bound input e)),
        )
        refl
]

parse_input-found :
    (limits : Limits) (input : Bytes) (p : ℕ)
    → find_double_crlf input ≡ some p
    → p + 3 ≤ limits.max_header_bytes
    → parse_input limits input ≡ with_some (request_of limits (take p input) (drop (p + 4) input))
unfolding parse_input
parse_input-found limits input p e small =
    rw (parse_input, e, le→ltb limits.max_header_bytes (p + 3) small) refl

module _ (K : Sys) (s : TcpStream) (limits : Limits) where
  late_result :
      (fuel : ℕ) (input : Bytes) (o : Outcome K.State (Option HeadRead))
      → LateCase K limits input o
      → result_of (and_then o (after_head K fuel s limits)) ≡ some (parse_bare limits input)
  late_result fuel input o (over w long e) =
      rw (e, lt→ltb limits.max_header_bytes (length input) long) refl
  late_result fuel input o (closed w short e) =
      rw (e, le→ltb limits.max_header_bytes (length input) short)
        (elim (Bool-cases (length input == 0)) [ inl z ↦ rw z refl | inr z ↦ rw z refl ])

  -- `read_request` on a socket that delivers an input in pieces, of which the head, if one is
  -- complete, ends within the limit or a whole chunk beyond it, has with more fuel than there are
  -- pieces the result of the parser of the whole input, however the input is cut: the request, the
  -- end of an empty input, or the error.
  pub read_request-parse_input :
      (pieces : List Bytes) (fuel : ℕ) (w : World K.State)
      → Delivers K s.fd pieces w.os
      → IsClear limits (joined pieces)
      → length pieces < fuel
      → result_of (read_request K fuel s limits w) ≡ some (parse_input limits (joined pieces))
  read_request-parse_input pieces fuel w d clear enough =
      elim (Option-cases (find_double_crlf (joined pieces))) [
        | inl e ↦ late (λ p found. absurd cc)
        | inr (p, e) ↦ elim (clear p e) [
          | inl small ↦
              read_request-Delivers K s limits pieces fuel p w d e small enough
              ∙ ap some (sym (parse_input-found limits (joined pieces) p e small))
          | inr far ↦ late (λ q found.
              let same : p ≡ q = some-injective p q (sym e ∙ found) in omega (arith, far, same))
        ]
      ]
    where
      late :
          IsLate limits (joined pieces)
          → result_of (read_request K fuel s limits w) ≡ some (parse_input limits (joined pieces))
      late is_late =
          unfold read_request in
          late_result fuel (joined pieces) (read_head K fuel s limits [] zeroed_chunk w) (
            read_head-Late K s limits pieces fuel [] zeroed_chunk w length-zeroed_chunk d is_late
              (omega arith) enough)
          ∙ ap some (sym (parse_input-Late limits (joined pieces) is_late))
