-- ===== src/Ps5/Thread/Once.antt =====
-- crates/ps5/src/thread.rs: the value of a thread ends in one place, whatever the order of events.
use ps_payload_rust.Base.{
  ℕ, suc, ◌+◌, ◌≡◌, ◌⊎◌, inl, inr, refl, ap, ◌≤◌, subst, [], ◌∷◌, Option, none, some, arith,
}
use ps_payload_rust.Sys.{Sys}
use ps_payload_rust.Ps5.Error.{ok, err}
use ps_payload_rust.Ps5.Thread.Slot.{
  Shared, shared, ThreadAt, running, stored, exited, HandleAt, kept, joined, detached, State, state,
  spawned_state, Event, closure_returns, thread_leaves, join_returns, join_fails, handle_dropped,
  drop_shared, store, step, Reachable, starts, goes_on,
}

module _ {A : Type 0} where
  -- What the two sides know of the slot.
  abbrev pub Fits : ThreadAt A → HandleAt A → Shared A → Type 0
  Fits running kept c = c ≡ shared none 2 []
  Fits running (joined (ok b)) c = ⊥
  Fits running (joined (err e)) c = c ≡ shared none 1 []
  Fits running detached c = c ≡ shared none 1 []
  Fits (stored a) kept c = c ≡ shared (some a) 2 []
  Fits (stored a) (joined (ok b)) c = ⊥
  Fits (stored a) (joined (err e)) c = c ≡ shared (some a) 1 []
  Fits (stored a) detached c = c ≡ shared (some a) 1 []
  Fits (exited a) kept c = c ≡ shared (some a) 1 []
  Fits (exited a) (joined (ok b)) c = (b ≡ a) × (c ≡ shared none 0 [])
  Fits (exited a) (joined (err e)) c = c ≡ shared none 0 (a ∷ [])
  Fits (exited a) detached c = c ≡ shared none 0 (a ∷ [])

  abbrev pub FitsIn : State A → Type 0
  FitsIn s = Fits s.thread s.handle s.cell

  abbrev Then : Option (State A) → Type 0
  Then none = Unit
  Then (some s) = FitsIn s

  step-Fits :
      (K : Sys) (t : ThreadAt A) (h : HandleAt A) (c : Shared A) (e : Event A)
      → Fits t h c
      → Then (step K (state t h c) e)
  unfolding step drop_shared store
  step-Fits K running (joined (ok b)) c e f = absurd f
  step-Fits K (stored a) (joined (ok b)) c e f = absurd f
  step-Fits K running kept c (closure_returns a) f = rw f refl
  step-Fits K running (joined (err x)) c (closure_returns a) f = rw f refl
  step-Fits K running detached c (closure_returns a) f = rw f refl
  step-Fits K (stored a) kept c thread_leaves f = rw f refl
  step-Fits K (stored a) (joined (err x)) c thread_leaves f = rw f refl
  step-Fits K (stored a) detached c thread_leaves f = rw f refl
  step-Fits K (exited a) kept c join_returns f = rw f (refl, refl)
  step-Fits K running kept c (join_fails code) f = rw f refl
  step-Fits K (stored a) kept c (join_fails code) f = rw f refl
  step-Fits K (exited a) kept c (join_fails code) f = rw f refl
  step-Fits K running kept c handle_dropped f = rw f refl
  step-Fits K (stored a) kept c handle_dropped f = rw f refl
  step-Fits K (exited a) kept c handle_dropped f = rw f refl
  step-Fits K (exited a) h c (closure_returns b) f = tt
  step-Fits K (exited a) h c thread_leaves f = tt
  step-Fits K (exited a) h c join_returns f = tt
  step-Fits K (exited a) h c (join_fails code) f = tt
  step-Fits K (exited a) h c handle_dropped f = tt
  step-Fits K t h c e f = tt

  -- In every state that a run of a spawned thread and its handle comes to, in whatever order the two
  -- go on, the references and the slot are those that the two sides' progress tells: the slot is
  -- empty up to the thread's store, a value that `join` has returned is the thread's and was
  -- destroyed nowhere, and once both sides have dropped their reference a value that was not
  -- returned has been destroyed, once.
  pub Reachable-Fits : (K : Sys) (s : State A) → Reachable K s → FitsIn s
  unfolding spawned_state
  Reachable-Fits K _ starts = refl
  Reachable-Fits K _ (goes_on {r} s e before taken) =
      subst Then taken (step-Fits K r.thread r.handle r.cell e (Reachable-Fits K r before))

  -- The steps that are left for the two sides.
  abbrev thread_left : ThreadAt A → ℕ
  thread_left running = 2
  thread_left (stored a) = 1
  thread_left (exited a) = 0

  abbrev handle_left : HandleAt A → ℕ
  handle_left kept = 1
  handle_left (joined r) = 0
  handle_left detached = 0

  abbrev pub left : State A → ℕ
  left s = thread_left s.thread + handle_left s.handle

  abbrev Fewer : ℕ → Option (State A) → Type 0
  Fewer n none = Unit
  Fewer n (some s) = suc (left s) ≡ n

  step-left :
      (K : Sys) (t : ThreadAt A) (h : HandleAt A) (c : Shared A) (e : Event A)
      → Fewer (left (state t h c)) (step K (state t h c) e)
  unfolding step
  step-left K running h c (closure_returns a) = omega arith
  step-left K (stored a) h c thread_leaves = omega arith
  step-left K (exited a) kept c join_returns = omega arith
  step-left K t kept c (join_fails code) = omega arith
  step-left K t kept c handle_dropped = omega arith
  step-left K t (joined r) c join_returns = tt
  step-left K t (joined r) c (join_fails code) = tt
  step-left K t (joined r) c handle_dropped = tt
  step-left K t detached c join_returns = tt
  step-left K t detached c (join_fails code) = tt
  step-left K t detached c handle_dropped = tt
  step-left K t h c e = tt

  abbrev pub NoValue : HandleAt A → Type 0
  NoValue kept = ⊥
  NoValue (joined (ok b)) = ⊥
  NoValue (joined (err e)) = Unit {0}
  NoValue detached = Unit {0}

  -- Both sides are done, and the value of the thread is in one place: `join` has returned it and it was
  -- not destroyed, or `join` has returned no value and it was destroyed, once.
  abbrev pub Settled : State A → Type 0
  Settled s =
      (a : A) × (s.thread ≡ exited a)
      × (s.cell.refs ≡ 0)
      × (s.cell.slot ≡ none)
      × (((s.handle ≡ joined (ok a)) × (s.cell.destroyed ≡ []))
          ⊎ (NoValue s.handle × (s.cell.destroyed ≡ a ∷ [])))

  abbrev pub CanGoOn : Sys → State A → Type 0
  CanGoOn K s = (e : Event A) × (t : State A) × (step K s e ≡ some t) × (suc (left t) ≡ left s)

  step_or_Settled :
      (K : Sys) (b : A) (t : ThreadAt A) (h : HandleAt A) (c : Shared A)
      → Fits t h c
      → Settled (state t h c) ⊎ CanGoOn K (state t h c)
  unfolding step
  step_or_Settled K b running h c f = inr (closure_returns b, _, refl, omega arith)
  step_or_Settled K b (stored a) h c f = inr (thread_leaves, _, refl, omega arith)
  step_or_Settled K b (exited a) kept c f = inr (handle_dropped, _, refl, omega arith)
  step_or_Settled K b (exited a) (joined (ok v)) c (e, f) = inl (
    a,
    refl,
    ap (λ x. x.refs) f,
    ap (λ x. x.slot) f,
    inl (ap (λ x. joined (ok x)) e, ap (λ x. x.destroyed) f),
  )
  step_or_Settled K b (exited a) (joined (err x)) c f =
      inl (a, refl, ap (λ x. x.refs) f, ap (λ x. x.slot) f, inr (tt, ap (λ x. x.destroyed) f))
  step_or_Settled K b (exited a) detached c f =
      inl (a, refl, ap (λ x. x.refs) f, ap (λ x. x.slot) f, inr (tt, ap (λ x. x.destroyed) f))

  -- Whatever the order of events, a run of a thread whose closure returns, and of its handle, can go
  -- on until both sides are done, with one step less to come after each, and at most three in all;
  -- then `join` has returned the value of the thread, which was not destroyed, or it has returned no value,
  -- and the value was destroyed, once.
  pub Reachable-Settled :
      (K : Sys) (b : A) (s : State A) → Reachable K s → (left s ≤ 3) × (Settled s ⊎ CanGoOn K s)
  Reachable-Settled K b s reached = (
    left_bound s.thread s.handle,
    step_or_Settled K b s.thread s.handle s.cell (Reachable-Fits K s reached),
  )
    where
      left_bound : (t : ThreadAt A) (h : HandleAt A) → thread_left t + handle_left h ≤ 3
      left_bound t h = ground arith

  abbrev Returned : ThreadAt A → Option (State A) → Type 0
  Returned t none = Unit
  Returned t (some s) =
      (a : A) × (t ≡ exited a) × (s.handle ≡ joined (ok a)) × (s.cell.destroyed ≡ [])

  step-Returned :
      (K : Sys) (t : ThreadAt A) (h : HandleAt A) (c : Shared A)
      → Fits t h c
      → Returned t (step K (state t h c) join_returns)
  unfolding step drop_shared
  step-Returned K (exited a) kept c f = rw f (a, refl, refl, refl)
  step-Returned K running kept c f = tt
  step-Returned K running (joined r) c f = tt
  step-Returned K running detached c f = tt
  step-Returned K (stored a) kept c f = tt
  step-Returned K (stored a) (joined r) c f = tt
  step-Returned K (stored a) detached c f = tt
  step-Returned K (exited a) (joined r) c f = tt
  step-Returned K (exited a) detached c f = tt

  -- A `join` whose `pthread_join` succeeds, in whatever state of a run, returns the value of the
  -- thread, which has left: the error `EINVAL` of an empty slot does not occur, and the value is not
  -- destroyed.
  pub join_returns_lem :
      (K : Sys) (r s : State A)
      → Reachable K r
      → step K r join_returns ≡ some s
      → (a : A) × (r.thread ≡ exited a) × (s.handle ≡ joined (ok a)) × (s.cell.destroyed ≡ [])
  join_returns_lem K r s reached e =
      subst (Returned r.thread) e
        (step-Returned K r.thread r.handle r.cell (Reachable-Fits K r reached))
