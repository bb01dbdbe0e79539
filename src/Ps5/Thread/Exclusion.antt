-- ===== src/Ps5/Thread/Exclusion.antt =====
-- crates/ps5/src/thread.rs: threads that share a `Mutex` and a `Condvar`. A run is a sequence of
-- events of the threads, in any order. The lock and the queue are the platform's: it says which
-- thread owns the lock, and with what code each call comes back. Which thread has a `MutexGuard` is
-- the code's: it follows from the code that the call returned.
use ps_payload_rust.Base.{ℕ, ◌≡◌, Bool, true, false, Option, none, some, ◌==◌, if◌then◌else◌}
use ps_payload_rust.Base.Int.{ℤ, pos, eq_ℤ}

-- Where a thread is: without a guard, with one, in `Condvar::wait`, or there and notified.
pub data Place : Type 0 where
  outside inside waiting notified : Place

pub record Guarded (D : Type 0) : Type 0 where
  pub data_of : D
  pub owner : Option ℕ
  pub threads : ℕ → Place

-- Each with the code that the call of the platform returns.
pub data Action (D : Type 0) : Type 0 where
  locks : ℤ → Action D
  -- A write through `DerefMut`.
  changes : (D → D) → Action D
  drops_guard : Action D
  -- `pthread_cond_wait` blocks.
  waits : Action D
  -- `pthread_cond_wait` comes back.
  wait_returns : ℤ → Action D
  -- `notify_one`, which reaches the thread of the number, if it waits.
  notifies_one : ℕ → Action D
  notifies_all : Action D

-- The platform: what a call of a thread makes of the owner of the lock, `none` for a call that does
-- not return so. A truth value says whether the call returns 0.
pub record Posix : Type 0 where
  pub pthread_mutex_lock : ℕ → Bool → Option ℕ → Option (Option ℕ)
  pub pthread_mutex_unlock : ℕ → Option ℕ → Option ℕ
  -- The end of the call: the first truth value says whether the thread was notified.
  pub pthread_cond_wait : ℕ → Bool → Bool → Option ℕ → Option (Option ℕ)

-- What POSIX says: the lock is given to one thread at a time, the owner can unlock it, and a wait comes
-- back with the lock, on an error as well, whether it was notified or not; a notified thread can come
-- back as soon as the lock is free.
pub record PosixLaws (P : Posix) : Type 0 where
  pub locked :
      (i : ℕ) (owner o : Option ℕ)
      → P.pthread_mutex_lock i true owner ≡ some o
      → (owner ≡ none) × (o ≡ some i)
  pub not_locked :
      (i : ℕ) (owner o : Option ℕ) → P.pthread_mutex_lock i false owner ≡ some o → o ≡ owner
  pub free : (i : ℕ) → P.pthread_mutex_lock i true none ≡ some (some i)
  pub unlocks : (i : ℕ) → P.pthread_mutex_unlock i (some i) ≡ none
  pub comes_back :
      (i : ℕ) (told okay : Bool) (owner o : Option ℕ)
      → P.pthread_cond_wait i told okay owner ≡ some o
      → (owner ≡ none) × (o ≡ some i)
  pub wakes : (i : ℕ) → P.pthread_cond_wait i true true none ≡ some (some i)

-- `Mutex::lock` behind the call: `cvt_pthread(rc)?`, then the guard.
abbrev pub lock_rest : Bool → Option (Option ℕ) → Option (Place × Option ℕ)
lock_rest okay none = none
lock_rest true (some owner) = some (inside, owner)
lock_rest false (some owner) = some (outside, owner)

module _ (P : Posix) where
  -- The place of the thread and the owner of the lock behind an operation, if it can go on.
  abbrev pub turn_lock : ℕ → ℤ → Place → Option ℕ → Option (Place × Option ℕ)
  turn_lock i rc outside owner =
      lock_rest (eq_ℤ rc (pos 0)) (P.pthread_mutex_lock i (eq_ℤ rc (pos 0)) owner)
  turn_lock i rc place owner = none

  -- The data is reached through a guard.
  abbrev pub turn_deref : Place → Option ℕ → Option (Place × Option ℕ)
  turn_deref inside owner = some (inside, owner)
  turn_deref place owner = none

  -- `Drop for MutexGuard`
  abbrev pub turn_drop_guard : ℕ → Place → Option ℕ → Option (Place × Option ℕ)
  turn_drop_guard i inside owner = some (outside, P.pthread_mutex_unlock i owner)
  turn_drop_guard i place owner = none

  -- `wait` up to the blocking of `pthread_cond_wait`, which unlocks: the guard is forgotten.
  abbrev pub turn_wait : ℕ → Place → Option ℕ → Option (Place × Option ℕ)
  turn_wait i inside owner = some (waiting, P.pthread_mutex_unlock i owner)
  turn_wait i place owner = none

  -- `wait` behind the call: the guard is made again, and on an error it is dropped.
  abbrev pub wait_rest : ℕ → Bool → Option (Option ℕ) → Option (Place × Option ℕ)
  wait_rest i okay none = none
  wait_rest i true (some owner) = some (inside, owner)
  wait_rest i false (some owner) = turn_drop_guard i inside owner

  abbrev pub turn_wait_returns : ℕ → ℤ → Place → Option ℕ → Option (Place × Option ℕ)
  turn_wait_returns i rc waiting owner =
      wait_rest i (eq_ℤ rc (pos 0)) (P.pthread_cond_wait i false (eq_ℤ rc (pos 0)) owner)
  turn_wait_returns i rc notified owner =
      wait_rest i (eq_ℤ rc (pos 0)) (P.pthread_cond_wait i true (eq_ℤ rc (pos 0)) owner)
  turn_wait_returns i rc place owner = none

  -- A notification comes from a thread that is in no call, with a guard or without.
  abbrev pub turn_notify : Place → Option ℕ → Option (Place × Option ℕ)
  turn_notify outside owner = some (outside, owner)
  turn_notify inside owner = some (inside, owner)
  turn_notify place owner = none

  abbrev pub turn : {D : Type 0} → ℕ → Action D → Place → Option ℕ → Option (Place × Option ℕ)
  turn i (locks rc) place owner = turn_lock i rc place owner
  turn i (changes f) place owner = turn_deref place owner
  turn i drops_guard place owner = turn_drop_guard i place owner
  turn i waits place owner = turn_wait i place owner
  turn i (wait_returns rc) place owner = turn_wait_returns i rc place owner
  turn i (notifies_one j) place owner = turn_notify place owner
  turn i notifies_all place owner = turn_notify place owner

-- `deref_mut` gives access to the data.
abbrev pub changed : {D : Type 0} → Action D → D → D
changed (changes f) d = f d
changed a d = d

abbrev pub set : ℕ → Place → (ℕ → Place) → ℕ → Place
set i p threads j = if j == i then p else threads j

-- `pthread_cond_signal` and `pthread_cond_broadcast` reach threads that wait.
abbrev pub wake : Place → Place
wake waiting = notified
wake place = place

abbrev pub told : {D : Type 0} → Action D → (ℕ → Place) → ℕ → Place
told (notifies_one j) threads k = if k == j then wake (threads k) else threads k
told notifies_all threads k = wake (threads k)
told a threads k = threads k

abbrev pub moved :
    {D : Type 0} → ℕ → Action D → Guarded D → Option (Place × Option ℕ) → Option (Guarded D)
moved i a s none = none
moved i a s (some (p, o)) =
    some (record { data_of = changed a s.data_of; owner = o; threads = told a (set i p s.threads) })

-- `Mutex::new` gives a lock that nobody holds.
unfoldable pub unlocked : {D : Type 0} → D → Guarded D
unlocked d = record { data_of = d; owner = none; threads = λ _. outside }

module _ (P : Posix) where
  unfoldable pub act : {D : Type 0} → ℕ → Action D → Guarded D → Option (Guarded D)
  act i a s = moved i a s (turn P i a (s.threads i) s.owner)

  pub data Comes {D : Type 0} (d : D) : Guarded D → Type 0 where
    starts : Comes d (unlocked d)
    goes_on :
        {r : Guarded D} (s : Guarded D) (i : ℕ) (a : Action D)
        → Comes d r
        → act i a r ≡ some s
        → Comes d s
