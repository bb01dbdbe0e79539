-- ===== src/Ps5/Net/Laws.antt =====
-- What POSIX promises of the calls that the sockets make, as hypotheses on the platform, and what
-- can be read off the record of the calls.
use ps_payload_rust.Base.{
  ℕ, ◌≤◌, ◌<◌, ◌≡◌, ◌⊎◌, List, [], ◌∷◌, ◌++◌, Bytes, length, take, if◌then◌else◌,
}
use ps_payload_rust.Base.Int.{ℤ, pos, minus_one, eq_ℤ}
use ps_payload_rust.Sys.{Sys, Call, Event, send}

-- `recv` fails with -1, or tells how many bytes it has written, at most the buffer's length.
abbrev pub RecvCounts : Sys → Type 0
RecvCounts K =
    (fd : ℤ) (len : ℕ) (flags : ℤ) (s : K.State)
    → let r = (K.respond (Call.recv fd len flags) s).0 in
      (r.ret ≡ minus_one) ⊎ ((r.ret ≡ pos (length r.data_out)) × (length r.data_out ≤ len))

-- `send` fails with -1, or tells how many bytes it has taken, at most those it was given.
abbrev pub SendCounts : Sys → Type 0
SendCounts K =
    (fd : ℤ) (buf : Bytes) (flags : ℤ) (s : K.State)
    → let r = (K.respond (Call.send fd buf flags) s).0 in
      (r.ret ≡ minus_one) ⊎ ((n : ℕ) × (r.ret ≡ pos n) × (n ≤ length buf))

-- Only finitely many calls are interrupted by a signal: a number falls with each.
pub record FiniteSignals (K : Sys) : Type 0 where
  pub patience : K.State → ℕ
  pub steady : (c : Call) (s : K.State) → patience (K.respond c s).1 ≤ patience s
  pub spent :
      (c : Call) (s : K.State)
      → (K.respond c s).0.ret ≡ minus_one
      → K.errno (K.respond c s).1 ≡ K.eintr
      → patience (K.respond c s).1 < patience s

-- The bytes that a call has passed to the connection `fd`.
abbrev pub accepted : ℤ → Call → ℤ → Bytes
accepted fd (send fd' buf flags) (pos n) = if eq_ℤ fd fd' then take n buf else []
accepted fd c r = []

-- All bytes that the connection `fd` has accepted so far, in order.
abbrev pub sent : ℤ → List Event → Bytes
sent fd [] = []
sent fd (e ∷ es) = sent fd es ++ accepted fd e.asked e.answered.ret
