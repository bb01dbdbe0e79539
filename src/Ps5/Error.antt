-- ===== src/Ps5/Error.antt =====
-- crates/ps5/src/error.rs: the error type of every wrapper.
use ps_payload_rust.Base.{◌≡◌, refl, ◌⊎◌, inl, inr, Bool, ◌||◌, Option, none, some, String}
use ps_payload_rust.Base.Int.{ℤ, eq_ℤ}
use ps_payload_rust.Sys.{Sys}

-- A POSIX error code.
pub record Errno : Type 0 where
  pub code : ℤ

-- A failed call of a Sony library.
pub record SceError : Type 0 where
  pub op : String
  pub code : ℤ

pub data Error : Type 0 where
  os : Errno → Error
  sce : SceError → Error
  gai : ℤ → Error
  invalid_input : String → Error

abbrev pub would_block : Sys → Errno → Bool
would_block K e = eq_ℤ e.code K.eagain || eq_ℤ e.code K.ewouldblock

abbrev pub interrupted : Sys → Errno → Bool
interrupted K e = eq_ℤ e.code K.eintr

-- `Error::errno`
abbrev pub errno : Error → Option Errno
errno (os e) = some e
errno (sce e) = none
errno (gai c) = none
errno (invalid_input m) = none

-- `Result<T>`
pub data Result (A : Type 0) : Type 0 where
  ok : A → Result A
  err : Error → Result A

-- The operator `?` in code without effects.
infixl 5 ◌>>=◌
abbrev pub ◌>>=◌ : {A B : Type 0} → Result A → (A → Result B) → Result B
ok a >>= f = f a
err e >>= f = err e

-- `ok_or(Error::InvalidInput(m))?`
abbrev pub ok_or : {A : Type 0} → Option A → String → Result A
ok_or (some a) m = ok a
ok_or none m = err (invalid_input m)

pub Result-cases :
    {A : Type 0} (r : Result A) → ((a : A) × (r ≡ ok a)) ⊎ ((e : Error) × (r ≡ err e))
Result-cases (ok a) = inl (a, refl)
Result-cases (err e) = inr (e, refl)
