-- ===== src/Ps5/Thread/Enters.antt =====
-- crates/ps5/src/thread.rs: threads that share a `Mutex` and a `Condvar` can always go on, by what the
-- code calls: a guard that is dropped unlocks, and a notification wakes.
use ps_payload_rust.Base.{ℕ, ◌≡◌}
use ps_payload_rust.Ps5.Thread.Exclusion.{
  Place, inside, Guarded, Posix, PosixLaws, set, wake, Comes,
}

module _ {P : Posix} (L : PosixLaws P) {D : Type 0} (d : D) where
  -- A run from such a state can bring the thread to a guard.
  abbrev pub Enters : ℕ → Type 0
  Enters i = (t : Guarded D) × Comes P d t × (t.threads i ≡ inside)

  -- The state behind `notify_all` of a thread at that place.
  abbrev woken : ℕ → Place → Guarded D → Guarded D
  woken k p s = record {
    data_of = s.data_of;
    owner = s.owner;
    threads = λ j. wake (set k p s.threads j);
  }
