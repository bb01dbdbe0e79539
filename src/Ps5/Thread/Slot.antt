-- ===== src/Ps5/Thread/Slot.antt =====
-- crates/ps5/src/thread.rs: the result slot that a thread and its `JoinHandle` share. The two sides
-- run concurrently: a run is a sequence of events of either side, in any order that the platform
-- allows, where `pthread_join` returns 0 only once the thread has left the trampoline.
use ps_payload_rust.Base.{ℕ, ◌-◌, ◌==◌, if◌then◌else◌, List, [], ◌∷◌, ◌++◌, Option, none, some, ◌≡◌}
use ps_payload_rust.Base.Int.{ℤ}
use ps_payload_rust.Sys.{Sys}
use ps_payload_rust.Ps5.Error.{Result, err, os}
use ps_payload_rust.Ps5.Thread.Join.{taken}

-- `Arc<Shared<T>>`: the slot, the number of references, and the values whose destructor has run.
pub record Shared (A : Type 0) : Type 0 where
  pub slot : Option A
  pub refs : ℕ
  pub destroyed : List A

abbrev pub shared : {A : Type 0} → Option A → ℕ → List A → Shared A
shared slot refs destroyed = record { slot = slot; refs = refs; destroyed = destroyed }

abbrev pub as_list : {A : Type 0} → Option A → List A
as_list none = []
as_list (some a) = a ∷ []

-- A reference is dropped; the last one drops the slot.
unfoldable pub drop_shared : {A : Type 0} → Shared A → Shared A
drop_shared s =
    if s.refs == 1
    then shared none 0 (as_list s.slot ++ s.destroyed)
    else record s { refs = s.refs - 1 }

-- `*shared.slot.get() = Some(value)` drops what the slot held.
unfoldable pub store : {A : Type 0} → A → Shared A → Shared A
store a s = record s { slot = some a; destroyed = as_list s.slot ++ s.destroyed }

-- Where the trampoline is: the closure runs, its value is stored, the reference is dropped.
pub data ThreadAt (A : Type 0) : Type 0 where
  running : ThreadAt A
  stored : A → ThreadAt A
  exited : A → ThreadAt A

-- What became of the handle: `join` has returned its result, or it was dropped.
pub data HandleAt (A : Type 0) : Type 0 where
  kept : HandleAt A
  joined : Result A → HandleAt A
  detached : HandleAt A

pub record State (A : Type 0) : Type 0 where
  pub thread : ThreadAt A
  pub handle : HandleAt A
  pub cell : Shared A

abbrev pub state : {A : Type 0} → ThreadAt A → HandleAt A → Shared A → State A
state t h c = record { thread = t; handle = h; cell = c }

-- What `spawn` leaves behind: the slot is empty, each side has a reference.
unfoldable pub spawned_state : {A : Type 0} → State A
spawned_state = state running kept (shared none 2 [])

pub data Event (A : Type 0) : Type 0 where
  closure_returns : A → Event A
  thread_leaves : Event A
  join_returns : Event A
  join_fails : ℤ → Event A
  handle_dropped : Event A

-- The trampoline, between its statements.
abbrev pub thread_step :
    {A : Type 0} → ThreadAt A → Event A → Shared A → Option (ThreadAt A × Shared A)
thread_step running (closure_returns a) c = some (stored a, store a c)
thread_step (stored a) thread_leaves c = some (exited a, drop_shared c)
thread_step t e c = none

-- The handle: `join` takes the value out of the slot of a thread that has left, or fails with the
-- code of `pthread_join`; every way drops the handle's reference.
abbrev pub handle_step :
    {A : Type 0}
    → Sys
    → ThreadAt A
    → HandleAt A
    → Event A
    → Shared A
    → Option (HandleAt A × Shared A)
handle_step K (exited a) kept join_returns c =
    some (joined (taken K c.slot), drop_shared (record c { slot = none }))
handle_step K t kept (join_fails code) c =
    some (joined (err (os (record { code = code }))), drop_shared c)
handle_step K t kept handle_dropped c = some (detached, drop_shared c)
handle_step K t h e c = none

abbrev after_thread : {A : Type 0} → HandleAt A → Option (ThreadAt A × Shared A) → Option (State A)
after_thread h none = none
after_thread h (some (t, c)) = some (state t h c)

abbrev after_handle : {A : Type 0} → ThreadAt A → Option (HandleAt A × Shared A) → Option (State A)
after_handle t none = none
after_handle t (some (h, c)) = some (state t h c)

-- One event, if it can happen.
unfoldable pub step : {A : Type 0} → Sys → State A → Event A → Option (State A)
unfolding drop_shared store
step K s (closure_returns a) =
    after_thread s.handle (thread_step s.thread (closure_returns a) s.cell)
step K s thread_leaves = after_thread s.handle (thread_step s.thread thread_leaves s.cell)
step K s e = after_handle s.thread (handle_step K s.thread s.handle e s.cell)

-- The states that a run comes to.
pub data Reachable {A : Type 0} (K : Sys) : State A → Type 0 where
  starts : Reachable K spawned_state
  goes_on :
      {r : State A} (s : State A) (e : Event A)
      → Reachable K r
      → step K r e ≡ some s
      → Reachable K s
