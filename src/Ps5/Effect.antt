-- ===== src/Ps5/Effect.antt =====
-- How the wrappers run: a computation returns, fails with an error (`Err`), aborts (a panic; the
-- release profile of Cargo.toml aborts on one), or has used up the fuel of a loop so far. It acts on the
-- platform's state and on a record of the foreign calls made, newest first.
use ps_payload_rust.Base.{
  ◌≡◌, refl, Option, none, some, ℕ, List, ◌∷◌, Bytes, length, take, drop, ltb, if◌then◌else◌,
}
use ps_payload_rust.Base.Int.{ℤ}
use ps_payload_rust.Sys.{Sys, Call, Reply, Event}
use ps_payload_rust.Ps5.Error.{Error, os, Result, ok, err}

pub record World (S : Type 0) : Type 0 where
  pub os : S
  pub events : List Event

pub data Outcome (S A : Type 0) : Type 0 where
  returns : A → World S → Outcome S A
  fails : Error → World S → Outcome S A
  aborts : World S → Outcome S A
  exhausted : World S → Outcome S A

abbrev pub M : Type 0 → Type 0 → Type 0
M S A = World S → Outcome S A

abbrev pub and_then : {S A B : Type 0} → Outcome S A → (A → M S B) → Outcome S B
and_then (returns a w) f = f a w
and_then (fails e w) f = fails e w
and_then (aborts w) f = aborts w
and_then (exhausted w) f = exhausted w

abbrev pub pure : {S A : Type 0} → A → M S A
pure a w = returns a w

-- `return Err(e)`
abbrev pub fail : {S A : Type 0} → Error → M S A
fail e w = fails e w

abbrev pub panic : {S A : Type 0} → M S A
panic w = aborts w

abbrev pub out_of_fuel : {S A : Type 0} → M S A
out_of_fuel w = exhausted w

-- The operator `?` and the sequence of statements.
infixl 5 ◌>>=◌ ◌>>◌
abbrev pub ◌>>=◌ : {S A B : Type 0} → M S A → (A → M S B) → M S B
◌>>=◌ m f w = and_then (m w) f

abbrev pub ◌>>◌ : {S A B : Type 0} → M S A → M S B → M S B
◌>>◌ m k w = and_then (m w) (λ _. k)

-- The outcome as a `Result` value, for the code that matches on it.
abbrev pub settle : {S A : Type 0} → Outcome S A → Outcome S (Result A)
settle (returns a w) = returns (ok a) w
settle (fails e w) = returns (err e) w
settle (aborts w) = aborts w
settle (exhausted w) = exhausted w

abbrev pub attempt : {S A : Type 0} → M S A → M S (Result A)
attempt m w = settle (m w)

abbrev pub from_result : {S A : Type 0} → Result A → M S A
from_result (ok a) = pure a
from_result (err e) = fail e

-- `buf[..n]` and `buf[n..]` abort when n is beyond the end.
abbrev pub slice_to : {S : Type 0} → Bytes → ℕ → M S Bytes
slice_to buf n = if ltb (length buf) n then panic else pure (take n buf)

abbrev pub slice_from : {S : Type 0} → Bytes → ℕ → M S Bytes
slice_from buf n = if ltb (length buf) n then panic else pure (drop n buf)

abbrev pub cleanup : {S A B : Type 0} → Outcome S A → M S B → Outcome S A
cleanup (returns a w) d = returns a w
cleanup (fails e w) d = and_then (d w) (λ _. fail e)
cleanup (aborts w) d = aborts w
cleanup (exhausted w) d = exhausted w

-- A value in scope is dropped by `d` when `m` leaves early with an error, and moved out otherwise.
abbrev pub drop_on_error : {S A B : Type 0} → M S B → M S A → M S A
drop_on_error d m w = cleanup (m w) d

abbrev pub finally_outcome : {S A B : Type 0} → Outcome S A → M S B → Outcome S A
finally_outcome (returns a w) d = and_then (d w) (λ _. pure a)
finally_outcome (fails e w) d = and_then (d w) (λ _. fail e)
finally_outcome (aborts w) d = aborts w
finally_outcome (exhausted w) d = exhausted w

-- A value in scope is dropped by `d` however `m` ends.
abbrev pub drop_after : {S A B : Type 0} → M S B → M S A → M S A
drop_after d m w = finally_outcome (m w) d

-- Total correctness: the run ends without a panic and within its fuel, and a value that it returns
-- satisfies `P`.
abbrev pub Ensures : {S A : Type 0} → (A → World S → Type 0) → Outcome S A → Type 0
Ensures P (returns a w) = P a w
Ensures P (fails e w) = Unit
Ensures P (aborts w) = ⊥
Ensures P (exhausted w) = ⊥

-- The rule for a sequence.
pub Ensures-and_then :
    {S A B : Type 0} (P : A → World S → Type 0) (Q : B → World S → Type 0) (o : Outcome S A)
    (f : A → M S B)
    → Ensures P o
    → ((a : A) (w : World S) → P a w → Ensures Q (f a w))
    → Ensures Q (and_then o f)
Ensures-and_then P Q (returns a w) f h k = k a w h
Ensures-and_then P Q (fails e w) f h k = tt
Ensures-and_then P Q (aborts w) f h k = h
Ensures-and_then P Q (exhausted w) f h k = h

pub Ensures-weaken :
    {S A : Type 0} (P Q : A → World S → Type 0) (o : Outcome S A)
    → ((a : A) (w : World S) → P a w → Q a w)
    → Ensures P o
    → Ensures Q o
Ensures-weaken P Q (returns a w) k h = k a w h
Ensures-weaken P Q (fails e w) k h = h
Ensures-weaken P Q (aborts w) k h = h
Ensures-weaken P Q (exhausted w) k h = h

pub Ensures-from_result :
    {S A : Type 0} (r : Result A) (w : World S)
    → Ensures (λ a w'. (r ≡ ok a) × (w' ≡ w)) (from_result r w)
Ensures-from_result (ok a) w = (refl, refl)
Ensures-from_result (err e) w = tt

-- The value of a run, if it ends, without the world that it leaves.
abbrev pub result_of : {S A : Type 0} → Outcome S A → Option (Result A)
result_of (returns a w) = some (ok a)
result_of (fails e w) = some (err e)
result_of (aborts w) = none
result_of (exhausted w) = none

module _ (K : Sys) where
  -- One foreign call.
  abbrev pub call : Call → M K.State Reply
  call c w = returns (K.respond c w.os).0 (record {
    os = (K.respond c w.os).1;
    events = record { asked = c; answered = (K.respond c w.os).0 } ∷ w.events;
  })

  -- `Err(Error::last_os())`
  abbrev pub last_os : {A : Type 0} → M K.State A
  last_os w = fails (os (record { code = K.errno w.os })) w

  -- `Errno::last().code()`
  abbrev pub errno_value : M K.State ℤ
  errno_value w = returns (K.errno w.os) w
