-- ===== src/Ps5/Thread/Sync.antt =====
-- crates/ps5/src/thread.rs: the calls of `Mutex`, `MutexGuard` and `Condvar`. A mutex and a condition
-- variable are known by the address of their handle; the data that a mutex guards is no part of the
-- calls, see Ps5/Thread/Exclusion.
use ps_payload_rust.Base.{true, false}
use ps_payload_rust.Base.Int.{ℤ, pos, eq_ℤ}
use ps_payload_rust.Sys.{Sys, Call}
use ps_payload_rust.Ps5.Error.{os}
use ps_payload_rust.Ps5.Effect.{M, pure, fail, ◌>>=◌, drop_on_error, drop_after, call}
use ps_payload_rust.Ps5.Thread.Create.{cvt_pthread}

pub record Mutex : Type 0 where
  pub inner : ℤ

pub record MutexGuard : Type 0 where
  pub mutex : Mutex

pub record Condvar : Type 0 where
  pub inner : ℤ

module _ (K : Sys) where
  -- `Drop for Mutex`
  unfoldable pub drop_mutex : Mutex → M K.State (Unit {0})
  drop_mutex m = do _ ← call K (Call.pthread_mutex_destroy m.inner); pure tt

  -- `Mutex::new`: the value exists before the call, so that an error drops it.
  unfoldable pub new_mutex : ℤ → M K.State Mutex
  unfolding drop_mutex
  new_mutex at = drop_on_error (drop_mutex (record { inner = at })) do
    r ← call K (Call.pthread_mutex_init at)
    _ ← cvt_pthread r.ret
    pure (record { inner = at })

  unfoldable pub lock : Mutex → M K.State MutexGuard
  lock m = do
    r ← call K (Call.pthread_mutex_lock m.inner)
    _ ← cvt_pthread r.ret
    pure (record { mutex = m })

  -- `Drop for MutexGuard`
  unfoldable pub drop_guard : MutexGuard → M K.State (Unit {0})
  drop_guard g = do _ ← call K (Call.pthread_mutex_unlock g.mutex.inner); pure tt

  -- `Drop for Condvar`
  unfoldable pub drop_condvar : Condvar → M K.State (Unit {0})
  drop_condvar c = do _ ← call K (Call.pthread_cond_destroy c.inner); pure tt

  -- `Condvar::new`
  unfoldable pub new_condvar : ℤ → M K.State Condvar
  unfolding drop_condvar
  new_condvar at =
      drop_on_error (drop_condvar (record { inner = at })) do
        r ← call K (Call.pthread_cond_init at)
        _ ← cvt_pthread r.ret
        pure (record { inner = at })

  -- The guard is forgotten before the call, and made again after it.
  unfoldable pub wait : Condvar → MutexGuard → M K.State MutexGuard
  unfolding drop_guard
  wait c guard = do
    r ← call K (Call.pthread_cond_wait c.inner guard.mutex.inner)
    elim (eq_ℤ r.ret (pos 0)) [
      | false ↦
          drop_after (drop_guard (record { mutex = guard.mutex }))
            (fail (os (record { code = r.ret })))
      | true ↦ pure (record { mutex = guard.mutex })
    ]

  unfoldable pub notify_one : Condvar → M K.State (Unit {0})
  notify_one c = do _ ← call K (Call.pthread_cond_signal c.inner); pure tt

  unfoldable pub notify_all : Condvar → M K.State (Unit {0})
  notify_all c = do _ ← call K (Call.pthread_cond_broadcast c.inner); pure tt
