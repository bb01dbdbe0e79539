-- ===== src/Ps5/Fs/Runs.antt =====
-- Total correctness together with what is held: a run ends, without a panic; a value that it returns
-- satisfies `P`, and a run that fails holds what is named.
use ps_payload_rust.Base.{◌≡◌, List, some}
use ps_payload_rust.Ps5.Effect.{
  World, Outcome, returns, fails, aborts, exhausted, M, and_then, fail, finally_outcome,
}
use ps_payload_rust.Ps5.Ownership.{Resource, owned}

abbrev pub Runs : {S A : Type 0} → List Resource → (A → World S → Type 0) → Outcome S A → Type 0
Runs held P (returns a w) = P a w
Runs held P (fails e w) = owned w.events ≡ some held
Runs held P (aborts w) = ⊥
Runs held P (exhausted w) = ⊥

pub Runs-and_then :
    {S A B : Type 0} (held : List Resource) (P : A → World S → Type 0) (Q : B → World S → Type 0)
    (o : Outcome S A) (f : A → M S B)
    → Runs held P o
    → ((a : A) (w : World S) → P a w → Runs held Q (f a w))
    → Runs held Q (and_then o f)
Runs-and_then held P Q (returns a w) f h k = k a w h
Runs-and_then held P Q (fails e w) f h k = h
Runs-and_then held P Q (aborts w) f h k = h
Runs-and_then held P Q (exhausted w) f h k = h

-- The rule for a value that is dropped however the run ends.
pub Runs-finally :
    {S A B : Type 0} (held inner : List Resource) (P Q : A → World S → Type 0) (o : Outcome S A)
    (drop : M S B)
    → Runs inner P o
    → ((a : A) (w : World S) → P a w → Runs held (λ _ v. Q a v) (drop w))
    → ((w : World S)
        → owned w.events ≡ some inner
        → Runs held (λ _ v. owned v.events ≡ some held) (drop w))
    → Runs held Q (finally_outcome o drop)
Runs-finally held inner P Q (returns a w) drop h k l =
    Runs-and_then held (λ _ v. Q a v) Q (drop w) _ (k a w h) (λ _ v q. q)
Runs-finally held inner P Q (fails e w) drop h k l =
    Runs-and_then held (λ _ v. owned v.events ≡ some held) Q (drop w) (λ _. fail e) (l w h)
      (λ _ v own. own)
Runs-finally held inner P Q (aborts w) drop h k l = h
Runs-finally held inner P Q (exhausted w) drop h k l = h
