-- ===== src/BuildScript/Steps.antt =====
-- What holds of a run of the build script, step by step; what its events show.
use ps_payload_rust.Base.{List, [], ◌∷◌, ◌++◌, Bytes, codes, if◌then◌else◌}
use ps_payload_rust.Std.Split.{starts_with}
use ps_payload_rust.BuildScript.{
  Builder, Event, printed, generated, wrote, Panic, Ran, returns, panics, Script, and_then, ◌>>◌,
}

-- The run returns with Q of its value and its events, or panics with R.
abbrev pub Holds :
    {B A : Type 0}
    → (A → List (Event B) → Type 0)
    → (Panic → List (Event B) → Type 0)
    → Ran B A
    → Type 0
Holds Q R (returns a log) = Q a log
Holds Q R (panics p log) = R p log

pub Holds-and_then :
    {B A C : Type 0} (Q : A → List (Event B) → Type 0) (S : C → List (Event B) → Type 0)
    (R : Panic → List (Event B) → Type 0) (o : Ran B A) (f : A → Script B C)
    → Holds Q R o
    → ((a : A) (log : List (Event B)) → Q a log → Holds S R (f a log))
    → Holds S R (and_then o f)
Holds-and_then Q S R (returns a log) f h next = next a log h
Holds-and_then Q S R (panics p log) f h next = h

pub Holds-then :
    {B A C : Type 0} (Q : List (Event B) → Type 0) (S : C → List (Event B) → Type 0)
    (R : Panic → List (Event B) → Type 0) (m : Script B A) (k : Script B C) (log : List (Event B))
    → Holds (λ _. Q) R (m log)
    → ((after : List (Event B)) → Q after → Holds S R (k after))
    → Holds S R ((m >> k) log)
Holds-then Q S R m k log h next = Holds-and_then (λ _. Q) S R (m log) (λ _. k) h (λ _. next)

-- The builder that bindgen ran with last.
abbrev pub current : {B : Type 0} → List (Event B) → Builder
current [] = []
current (printed line ∷ log) = current log
current (generated g ∷ log) = g
current (wrote b out ∷ log) = current log

-- A file written: the builder that bindgen ran with before, the bindings, and where they went.
pub record Build (B : Type 0) : Type 0 where
  pub builder : Builder
  pub bindings : B
  pub file : Bytes

-- The files written, in their order.
abbrev pub builds : {B : Type 0} → List (Event B) → List (Build B)
builds [] = []
builds (printed line ∷ log) = builds log
builds (generated g ∷ log) = builds log
builds (wrote b out ∷ log) =
    builds log ++ (record { builder = current log; bindings = b; file = out } ∷ [])

abbrev link_prefix : Bytes
link_prefix = codes "cargo:rustc-link-lib="

-- The libraries that cargo is told to link, in their order.
abbrev pub linked : {B : Type 0} → List (Event B) → List Bytes
linked [] = []
linked (printed line ∷ log) = linked log ++ (if starts_with link_prefix line then line ∷ [] else [])
linked (generated b ∷ log) = linked log
linked (wrote b out ∷ log) = linked log
