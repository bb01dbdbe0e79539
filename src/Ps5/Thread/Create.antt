-- ===== src/Ps5/Thread/Create.antt =====
-- crates/ps5/src/thread.rs: `Builder`, `create_thread` and the calls of `spawn` and `JoinHandle`. The
-- new thread itself runs elsewhere; the packet that it is handed is known by its pointer.
use ps_payload_rust.Base.{ℕ, Option, none, some, if◌then◌else◌, Bool, true, false}
use ps_payload_rust.Base.Int.{ℤ, pos, eq_ℤ}
use ps_payload_rust.Sys.{Sys, Call}
use ps_payload_rust.Ps5.Error.{os}
use ps_payload_rust.Ps5.Effect.{M, pure, fail, ◌>>=◌, ◌>>◌, call}

abbrev pub cvt_pthread : {S : Type 0} → ℤ → M S (Unit {0})
cvt_pthread rc = if eq_ℤ rc (pos 0) then pure tt else fail (os (record { code = rc }))

pub record Builder : Type 0 where
  pub stack_size : Option ℕ

-- `Builder::new`
abbrev pub new : Builder
new = record { stack_size = none }

abbrev pub stack_size : Builder → ℕ → Builder
stack_size b size = record b { stack_size = some size }

-- The handle holds a reference to the shared slot, which is known by the packet's pointer.
pub record JoinHandle : Type 0 where
  pub handle : ℤ
  pub joined : Bool
  pub shared : ℤ

module _ (K : Sys) where
  -- The status code, and the thread's handle if there is one.
  unfoldable pub create_thread : Option ℕ → ℤ → M K.State (ℤ × ℤ)
  create_thread none arg = do r ← call K (Call.pthread_create none arg); pure (r.ret, r.value)
  create_thread (some size) arg = do
    r ← call K Call.pthread_attr_init
    elim (eq_ℤ r.ret (pos 0)) [
      | false ↦ pure (r.ret, pos 0)
      | true ↦ do
        r2 ← call K (Call.pthread_attr_setstacksize size)
        elim (eq_ℤ r2.ret (pos 0)) [
          | false ↦ do r3 ← call K Call.pthread_attr_destroy; pure (r2.ret, pos 0)
          | true ↦ do
            r3 ← call K (Call.pthread_create (some size) arg)
            r4 ← call K Call.pthread_attr_destroy
            pure (r3.ret, r3.value)
        ]
    ]

  -- `spawn`, once the status is known. `drop_closure` is what dropping the packet, with a closure
  -- that never ran, does.
  abbrev pub spawned : ℤ → M K.State (Unit {0}) → ℤ → ℤ → M K.State JoinHandle
  spawned arg drop_closure rc handle = elim (eq_ℤ rc (pos 0)) [
    | false ↦ do drop_closure; fail (os (record { code = rc }))
    | true ↦ pure (record { handle = handle; joined = false; shared = arg })
  ]

  unfoldable pub spawn : Builder → ℤ → M K.State (Unit {0}) → M K.State JoinHandle
  unfolding create_thread
  spawn b arg drop_closure = do
    (rc, handle) ← create_thread b.stack_size arg
    spawned arg drop_closure rc handle

  -- `Drop for JoinHandle`, up to the shared slot.
  unfoldable pub drop_handle : JoinHandle → M K.State (Unit {0})
  drop_handle h =
      if h.joined then pure tt else do r ← call K (Call.pthread_detach h.handle); pure tt
