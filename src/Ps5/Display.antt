-- ===== src/Ps5/Display.antt =====
-- crates/ps5/src/error.rs: `Display` of the error types, as the bytes that are written, and the
-- constructors of `Error`.
use ps_payload_rust.Base.{
  ℕ, ◌+◌, ◌<◌, ◌^◌, ◌≡◌, ◌∙◌, ap, sym, ◌∷◌, ◌++◌, Option, none, some, Bytes, codes, length, take,
  drop, arith, append_assoc, drop-append_length, take-append_length,
}
use ps_payload_rust.Base.Int.{ℤ, pos, negsuc, to_signed, to_unsigned}
use ps_payload_rust.Std.Number.{decimal}
use ps_payload_rust.Std.Quote.{debug_str}
use ps_payload_rust.Std.Hex.{hex8, read_hex, length-hex8, read_hex-hex8}
use ps_payload_rust.Std.Utf8.{from_utf8}
use ps_payload_rust.Sys.{Sys}
use ps_payload_rust.Ps5.Error.{Errno, SceError, Error, os, sce, gai, invalid_input}

-- `{}` of an `i32`.
abbrev pub signed_decimal : ℤ → Bytes
signed_decimal (pos n) = decimal n
signed_decimal (negsuc n) = b'-' ∷ decimal (n + 1)

-- `to_str().unwrap_or("invalid error message")`
abbrev pub message_text : Option Bytes → Bytes
message_text none = codes "invalid error message"
message_text (some s) = s

-- The text for the pointer that `strerror` returns.
abbrev pub message : Option Bytes → Bytes
message none = codes "unknown error"
message (some s) = message_text (from_utf8 s)

unfoldable pub display_errno : Sys → Errno → Bytes
unfolding from_utf8
display_errno K e =
    message (K.strerror e.code) ++ codes " (errno " ++ signed_decimal e.code ++ codes ")"

unfoldable pub display_sce : SceError → Bytes
unfolding hex8
display_sce e = codes e.op ++ codes " failed (sce 0x" ++ hex8 (to_unsigned 32 e.code) ++ codes ")"

unfoldable pub display : Sys → Error → Bytes
unfolding display_errno display_sce
display K (os e) = display_errno K e
display K (sce e) = display_sce e
display K (gai c) = codes "name resolution failed (EAI " ++ signed_decimal c ++ codes ")"
display K (invalid_input m) = codes "invalid input: " ++ codes m

-- `Debug for Errno`
unfoldable pub debug_errno : Sys → Errno → Bytes
unfolding display_errno
debug_errno K e = codes "Errno(" ++ display_errno K e ++ codes ")"

-- `Debug for SceError`
unfoldable pub debug_sce : SceError → Bytes
unfolding debug_str hex8
debug_sce e =
    codes "SceError { op: "
    ++ debug_str (codes e.op)
    ++ codes ", code: 0x"
    ++ hex8 (to_unsigned 32 e.code)
    ++ codes " }"

-- `Debug for Error`
unfoldable pub debug : Sys → Error → Bytes
unfolding debug_errno debug_sce debug_str
debug K (os e) = codes "Os(" ++ debug_errno K e ++ codes ")"
debug K (sce e) = codes "Sce(" ++ debug_sce e ++ codes ")"
debug K (gai c) = codes "Gai(" ++ signed_decimal c ++ codes ")"
debug K (invalid_input m) = codes "InvalidInput(" ++ debug_str (codes m) ++ codes ")"

-- The range of an `i32`.
abbrev pub IsI32 : ℤ → Type 0
IsI32 (pos n) = n < 2 ^ 31
IsI32 (negsuc n) = n < 2 ^ 31

to_signed-to_unsigned : (c : ℤ) → IsI32 c → to_signed 32 (to_unsigned 32 c) ≡ c
to_signed-to_unsigned (pos n) h = ground arith
to_signed-to_unsigned (negsuc n) h = ground arith

to_unsigned_lt : (c : ℤ) → to_unsigned 32 c < 2 ^ 32
to_unsigned_lt (pos n) = omega arith
to_unsigned_lt (negsuc n) = omega arith

digits_between :
    (front mid back : Bytes) (n : ℕ)
    → length mid ≡ n
    → take n (drop (length front) (front ++ mid ++ back)) ≡ mid
digits_between front mid back n e =
    ap (λ t. take n (drop (length front) t)) (append_assoc front mid back)
    ∙ ap (λ t. take n t) (drop-append_length front (mid ++ back))
    ∙ ap (λ k. take k (mid ++ back)) (sym e)
    ∙ take-append_length mid back

-- The status code of a Sony call is read back from the message, from the eight digits behind the
-- name of the call and "failed (sce 0x".
pub display_sce_lem :
    (e : SceError)
    → IsI32 e.code
    → to_signed 32 (
        read_hex 0 (take 8 (drop (length (codes e.op ++ codes " failed (sce 0x")) (display_sce e))))
      ≡ e.code
unfolding display_sce
display_sce_lem e range =
    ap (λ t. to_signed 32 (read_hex 0 t))
      (digits_between (codes e.op ++ codes " failed (sce 0x") (hex8 (to_unsigned 32 e.code))
        (codes ")") 8 (length-hex8 (to_unsigned 32 e.code)))
    ∙ ap (λ n. to_signed 32 n) (read_hex-hex8 (to_unsigned 32 e.code) (to_unsigned_lt e.code))
    ∙ to_signed-to_unsigned e.code range
