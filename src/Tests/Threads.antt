-- ===== src/Tests/Threads.antt =====
-- The theorems on threads and locks.
use ps_payload_rust.Base.{
  ℕ, ◌+◌, ◌≤◌, ◌≡◌, ◌⊎◌, refl, [], none, some, Option, Bool, true, false, ◌==◌, if◌then◌else◌,
  arith,
}
use ps_payload_rust.Base.Int.{pos}
use ps_payload_rust.Ps5.Error.{ok}
use ps_payload_rust.Ps5.Effect.{World}
use ps_payload_rust.Ps5.Ownership.{Owns}
use ps_payload_rust.Ps5.Frame.{called}
use ps_payload_rust.Sys.{Call}
use ps_payload_rust.Ps5.Thread.Create.{JoinHandle}
use ps_payload_rust.Ps5.Thread.Join.{join}
use ps_payload_rust.Ps5.Thread.Joined.{Joined, join-Joined}
use ps_payload_rust.Ps5.Thread.Sync.{Mutex, MutexGuard, Condvar, new_mutex, new_condvar, wait}
use ps_payload_rust.Ps5.Thread.Guards.{
  NewOr, mutex_held, condvar_held, guard_held, new-NewOr, wait-Owns,
}
use ps_payload_rust.Ps5.Thread.Slot.{
  State, state, shared, stored, exited, kept, joined, closure_returns, thread_leaves, join_returns,
  step, store, drop_shared, Reachable, starts, goes_on, spawned_state,
}
use ps_payload_rust.Ps5.Thread.Once.{
  FitsIn, left, Settled, CanGoOn, Reachable-Fits, Reachable-Settled, join_returns_lem,
}
use ps_payload_rust.Ps5.Thread.Exclusion
use ps_payload_rust.Ps5.Thread.Exclusion.{
  Guarded, inside, outside, waiting, locks, changes, waits, Posix, PosixLaws, set, act, unlocked,
  Comes,
}
use ps_payload_rust.Ps5.Thread.Alone.{OwnedBy, Comes-OwnedBy}
use ps_payload_rust.Ps5.Thread.Enters.{Enters}
use ps_payload_rust.Tests.Scripted.{Script, scripted, fresh}

abbrev lock_made : Mutex
lock_made = record { inner = pos 4096 }

abbrev guard : MutexGuard
guard = record { mutex = lock_made }

abbrev signal : Condvar
signal = record { inner = pos 8192 }

abbrev locked_world : World Script
locked_world = called scripted (Call.pthread_mutex_lock (pos 4096)) (fresh [] 0)

wait-Owns_example : Owns [] (guard_held scripted []) (wait scripted signal guard locked_world)
wait-Owns_example = wait-Owns scripted [] signal guard locked_world refl

new-NewOr_example :
    NewOr (mutex_held scripted []) (new_mutex scripted (pos 4096) (fresh [] 0))
    × NewOr (condvar_held scripted []) (new_condvar scripted (pos 4096) (fresh [] 0))
new-NewOr_example = new-NewOr scripted [] (pos 4096) (fresh [] 0) refl refl refl

-- A thread that has the number 0, made with the descriptor 0.
abbrev thread_world : World Script
thread_world =
    called scripted (Call.pthread_create none (pos 0))
      (called scripted (Call.accept (pos 9) 16) (fresh [] 0))

abbrev handle : JoinHandle
handle = record { handle = pos 0; joined = false; shared = pos 0 }

abbrev seven : Script → Option ℕ
seven s = some 7

join-Joined_example : Joined scripted [] handle seven (join scripted handle seven thread_world)
join-Joined_example = join-Joined scripted [] handle seven thread_world refl

-- The thread stores 7 and leaves, then it is joined.
abbrev left_state : State ℕ
left_state = state (exited 7) kept (shared (some 7) 1 [])

abbrev joined_state : State ℕ
joined_state = state (exited 7) (joined (ok 7)) (shared none 0 [])

left_state-Reachable : Reachable scripted left_state
unfolding step spawned_state store drop_shared
left_state-Reachable =
    goes_on left_state thread_leaves
      (goes_on (state (stored 7) kept (shared (some 7) 2 [])) (closure_returns 7) starts refl) refl

joins : step scripted left_state join_returns ≡ some joined_state
unfolding step drop_shared
joins = refl

Reachable-Fits_example : FitsIn joined_state
Reachable-Fits_example =
    Reachable-Fits scripted joined_state
      (goes_on joined_state join_returns left_state-Reachable joins)

Reachable-Settled_example :
    (left left_state ≤ 3) × (Settled left_state ⊎ CanGoOn scripted left_state)
Reachable-Settled_example = Reachable-Settled scripted 7 left_state left_state-Reachable

join_returns_lem_example :
    (a : ℕ) × (left_state.thread ≡ exited a)
    × (joined_state.handle ≡ joined (ok a))
    × (joined_state.cell.destroyed ≡ [])
join_returns_lem_example =
    join_returns_lem scripted left_state joined_state left_state-Reachable joins

-- A platform with an error-checking lock, whose waits end behind a notification or with an error.
abbrev take_lock : ℕ → Bool → Option ℕ → Option (Option ℕ)
take_lock i true none = some (some i)
take_lock i true (some j) = none
take_lock i false owner = some owner

abbrev give_lock : ℕ → Option ℕ → Option ℕ
give_lock i none = none
give_lock i (some j) = if j == i then none else some j

abbrev end_wait : ℕ → Bool → Bool → Option ℕ → Option (Option ℕ)
end_wait i true okay none = some (some i)
end_wait i false false none = some (some i)
end_wait i told okay owner = none

abbrev posix : Posix
posix = record {
  pthread_mutex_lock = take_lock;
  pthread_mutex_unlock = give_lock;
  pthread_cond_wait = end_wait;
}

take_locked :
    (i : ℕ) (owner o : Option ℕ) → take_lock i true owner ≡ some o → (owner ≡ none) × (o ≡ some i)
take_locked i none o e = (refl, cc)
take_locked i (some j) o e = absurd cc

end_back :
    (i : ℕ) (told okay : Bool) (owner o : Option ℕ)
    → end_wait i told okay owner ≡ some o
    → (owner ≡ none) × (o ≡ some i)
end_back i true okay none o e = (refl, cc)
end_back i false false none o e = (refl, cc)
end_back i false true none o e = absurd cc
end_back i true okay (some j) o e = absurd cc
end_back i false true (some j) o e = absurd cc
end_back i false false (some j) o e = absurd cc

gives : (i : ℕ) → give_lock i (some i) ≡ none
gives i = ground arith

abbrev posix-PosixLaws : PosixLaws posix
posix-PosixLaws = record {
  locked = take_locked;
  not_locked = λ i owner o e. cc;
  free = λ i. refl;
  unlocks = gives;
  comes_back = end_back;
  wakes = λ i. refl;
}

-- The thread 0 locks, changes the data and waits; the thread 2 gets an error for its lock, and the
-- thread 1 locks.
abbrev first_inside : Guarded ℕ
first_inside = record { data_of = 5; owner = some 0; threads = set 0 inside (λ _. outside) }

abbrev first_changed : Guarded ℕ
first_changed = record { data_of = 6; owner = some 0; threads = set 0 inside first_inside.threads }

abbrev first_waiting : Guarded ℕ
first_waiting = record { data_of = 6; owner = none; threads = set 0 waiting first_changed.threads }

abbrev third_refused : Guarded ℕ
third_refused = record { data_of = 6; owner = none; threads = set 2 outside first_waiting.threads }

abbrev second_inside : Guarded ℕ
second_inside = record { data_of = 6; owner = some 1; threads = set 1 inside third_refused.threads }

second_inside-Comes : Comes posix 5 second_inside
unfolding act unlocked
second_inside-Comes =
    Exclusion.Comes.goes_on second_inside 1 (locks (pos 0))
      (Exclusion.Comes.goes_on third_refused 2 (locks (pos 11))
        (Exclusion.Comes.goes_on first_waiting 0 waits
          (Exclusion.Comes.goes_on first_changed 0 (changes (λ n. n + 1))
            (Exclusion.Comes.goes_on first_inside 0 (locks (pos 0)) Exclusion.Comes.starts refl)
            refl)
          refl)
        refl)
      refl

Comes-OwnedBy_example :
    OwnedBy (some 1) second_inside.threads
    × ((i j : ℕ) → second_inside.threads i ≡ inside → second_inside.threads j ≡ inside → i ≡ j)
Comes-OwnedBy_example = Comes-OwnedBy posix-PosixLaws 5 second_inside second_inside-Comes
