-- ===== src/Ps5/Thread/Guards.antt =====
-- crates/ps5/src/thread.rs: what `Mutex`, `MutexGuard` and `Condvar` hold. POSIX has the mutex of
-- `pthread_cond_wait` locked again when the call returns, with an error too.
use ps_payload_rust.Base.{◌≡◌, ◌∙◌, Bool-cases, inl, inr, List, ◌∷◌, none, some}
use ps_payload_rust.Base.Int.{ℤ, pos, eq_ℤ}
use ps_payload_rust.Sys.{Sys, Call}
use ps_payload_rust.Ps5.Effect.{World, Outcome, returns, fails, aborts, exhausted}
use ps_payload_rust.Ps5.Frame.{called}
use ps_payload_rust.Ps5.Ownership.{
  Resource, resource, locked, mutex, condvar, release, owned, Owns, owned-called, release_top,
}
use ps_payload_rust.Ps5.Thread.Sync.{
  Mutex, MutexGuard, Condvar, new_mutex, lock, drop_guard, new_condvar, wait,
}

-- A new value holds its resource; an error has released what was not held.
abbrev pub NewOr : {S A : Type 0} → (A → List Resource) → Outcome S A → Type 0
NewOr more (returns a w) = owned w.events ≡ some (more a)
NewOr more (fails e w) = owned w.events ≡ none
NewOr more (aborts w) = ⊥
NewOr more (exhausted w) = ⊥

module _ (K : Sys) (held : List Resource) where
  abbrev pub mutex_held : Mutex → List Resource
  mutex_held m = resource mutex m.inner ∷ held

  abbrev pub condvar_held : Condvar → List Resource
  condvar_held c = resource condvar c.inner ∷ held

  abbrev pub guard_held : MutexGuard → List Resource
  guard_held g = resource locked g.mutex.inner ∷ held

  new_mutex-NewOr :
      (at : ℤ) (w : World K.State)
      → owned w.events ≡ some held
      → release (resource mutex at) held ≡ none
      → NewOr mutex_held (new_mutex K at w)
  unfolding new_mutex
  new_mutex-NewOr at w own fresh =
      elim (Bool-cases (eq_ℤ (K.respond (Call.pthread_mutex_init at) w.os).0.ret (pos 0))) [
        | inl e ↦
            rw (NewOr, new_mutex, e) (owned-called K (Call.pthread_mutex_init at) w held own ∙ rw e)
        | inr e ↦
            rw (NewOr, new_mutex, e)
              (owned-called K (Call.pthread_mutex_destroy at)
                  (called K (Call.pthread_mutex_init at) w) held
                  (owned-called K (Call.pthread_mutex_init at) w held own ∙ rw e)
                ∙ fresh)
      ]

  new_condvar-NewOr :
      (at : ℤ) (w : World K.State)
      → owned w.events ≡ some held
      → release (resource condvar at) held ≡ none
      → NewOr condvar_held (new_condvar K at w)
  unfolding new_condvar
  new_condvar-NewOr at w own fresh =
      elim (Bool-cases (eq_ℤ (K.respond (Call.pthread_cond_init at) w.os).0.ret (pos 0))) [
        | inl e ↦
            rw (NewOr, new_condvar, e)
              (owned-called K (Call.pthread_cond_init at) w held own ∙ rw e)
        | inr e ↦
            rw (NewOr, new_condvar, e)
              (owned-called K (Call.pthread_cond_destroy at)
                  (called K (Call.pthread_cond_init at) w) held
                  (owned-called K (Call.pthread_cond_init at) w held own ∙ rw e)
                ∙ fresh)
      ]

  -- `Mutex::new` and `Condvar::new`, for an address at which nothing is initialised: a value that is
  -- returned holds what was initialised, but each error comes after a call that destroys what never
  -- was.
  pub new-NewOr :
      (at : ℤ) (w : World K.State)
      → owned w.events ≡ some held
      → release (resource mutex at) held ≡ none
      → release (resource condvar at) held ≡ none
      → NewOr mutex_held (new_mutex K at w) × NewOr condvar_held (new_condvar K at w)
  new-NewOr at w own no_mutex no_condvar =
      (new_mutex-NewOr at w own no_mutex, new_condvar-NewOr at w own no_condvar)

  pub lock-Owns :
      (m : Mutex) (w : World K.State)
      → owned w.events ≡ some held
      → Owns held guard_held (lock K m w)
  unfolding lock
  lock-Owns m w own =
      elim (Bool-cases (eq_ℤ (K.respond (Call.pthread_mutex_lock m.inner) w.os).0.ret (pos 0))) [
        | inl e ↦
            rw (Owns, lock, e) (owned-called K (Call.pthread_mutex_lock m.inner) w held own ∙ rw e)
        | inr e ↦
            rw (Owns, lock, e) (owned-called K (Call.pthread_mutex_lock m.inner) w held own ∙ rw e)
      ]

  pub drop_guard-Owns :
      (g : MutexGuard) (w : World K.State)
      → owned w.events ≡ some (guard_held g)
      → Owns held (λ _. held) (drop_guard K g w)
  unfolding drop_guard
  drop_guard-Owns g w own =
      owned-called K (Call.pthread_mutex_unlock g.mutex.inner) w (guard_held g) own
      ∙ release_top locked g.mutex.inner held

  -- `Condvar::wait`, called with a guard, gives back a guard that holds the same mutex, or fails and
  -- has unlocked it, once.
  pub wait-Owns :
      (c : Condvar) (g : MutexGuard) (w : World K.State)
      → owned w.events ≡ some (guard_held g)
      → Owns held guard_held (wait K c g w)
  unfolding wait drop_guard
  wait-Owns c g w own =
      elim (Bool-cases
        (eq_ℤ (K.respond (Call.pthread_cond_wait c.inner g.mutex.inner) w.os).0.ret (pos 0))) [
          | inl e ↦
              rw (Owns, wait, e)
                (owned-called K (Call.pthread_cond_wait c.inner g.mutex.inner) w (guard_held g) own)
          | inr e ↦
              rw (Owns, wait, e)
                (owned-called K (Call.pthread_mutex_unlock g.mutex.inner)
                    (called K (Call.pthread_cond_wait c.inner g.mutex.inner) w) (guard_held g)
                    (owned-called K (Call.pthread_cond_wait c.inner g.mutex.inner) w (guard_held g)
                      own)
                  ∙ release_top locked g.mutex.inner held)
        ]
