-- ===== src/Ps5/Frame.antt =====
-- Which foreign calls a computation makes: a frame rule for the wrappers of crates/ps5.
use ps_payload_rust.Base.{Bool, true, false, if◌then◌else◌, ◌∷◌}
use ps_payload_rust.Sys.{Sys, Call}
use ps_payload_rust.Ps5.Error.{Result, ok, err}
use ps_payload_rust.Ps5.Effect.{
  World, Outcome, returns, fails, aborts, exhausted, M, and_then, settle, from_result,
}

-- The world in which a run stops.
abbrev pub world : {S A : Type 0} → Outcome S A → World S
world (returns a w) = w
world (fails e w) = w
world (aborts w) = w
world (exhausted w) = w

module _ (K : Sys) where
  -- The world after one call.
  abbrev pub called : Call → World K.State → World K.State
  called c w = record {
    os = (K.respond c w.os).1;
    events = record { asked = c; answered = (K.respond c w.os).0 } ∷ w.events;
  }

  module _ (P : Call → Type 0) where
    -- The second world comes out of the first by calls that satisfy `P`.
    pub data Calls (w : World K.State) : World K.State → Type 0 where
      here : Calls w w
      next : {v : World K.State} (c : Call) → P c → Calls w v → Calls w (called c v)

    pub Calls-trans : {u v w : World K.State} → Calls u v → Calls v w → Calls u w
    Calls-trans a here = a
    Calls-trans a (next c p b) = next c p (Calls-trans a b)

    -- The computation makes such calls alone.
    abbrev pub Only : {A : Type 0} → M K.State A → Type 0
    Only m = (w : World K.State) → Calls w (world (m w))

    pub Calls-and_then :
        {A B : Type 0} (w : World K.State) (o : Outcome K.State A) (f : A → M K.State B)
        → Calls w (world o)
        → ((a : A) → Only (f a))
        → Calls w (world (and_then o f))
    Calls-and_then w (returns a v) f h k = Calls-trans h (k a v)
    Calls-and_then w (fails e v) f h k = h
    Calls-and_then w (aborts v) f h k = h
    Calls-and_then w (exhausted v) f h k = h

    pub Calls-settle :
        {A : Type 0} (w : World K.State) (o : Outcome K.State A)
        → Calls w (world o)
        → Calls w (world (settle o))
    Calls-settle w (returns a v) h = h
    Calls-settle w (fails e v) h = h
    Calls-settle w (aborts v) h = h
    Calls-settle w (exhausted v) h = h

    pub Only-from_result : {A : Type 0} (r : Result A) → Only (from_result r)
    Only-from_result (ok a) w = here
    Only-from_result (err e) w = here

    pub Only-if :
        {A : Type 0} (b : Bool) (m n : M K.State A) → Only m → Only n → Only (if b then m else n)
    Only-if true m n h k = h
    Only-if false m n h k = k
