-- ===== src/Ps5/Thread/Join.antt =====
-- crates/ps5/src/thread.rs: `JoinHandle::join`, and the function `spawn`.
use ps_payload_rust.Base.{Option, none, some, true}
use ps_payload_rust.Base.Int.{ℤ}
use ps_payload_rust.Sys.{Sys, Call}
use ps_payload_rust.Ps5.Error.{Result, ok, err, os}
use ps_payload_rust.Ps5.Effect.{M, ◌>>=◌, call, from_result, drop_after}
use ps_payload_rust.Ps5.Thread.Create.{cvt_pthread, new, JoinHandle, spawn, drop_handle}

-- `value.ok_or(..)`, for what `take` found in the slot.
abbrev pub taken : Sys → {A : Type 0} → Option A → Result A
taken K none = err (os (record { code = K.einval }))
taken K (some a) = ok a

module _ (K : Sys) where
  -- The slot is read after `pthread_join`; what it holds then is an argument. The handle is dropped
  -- in the end, as a joined one.
  unfoldable pub join : {A : Type 0} → JoinHandle → (K.State → Option A) → M K.State A
  unfolding drop_handle
  join h slot = do
    r ← call K (Call.pthread_join h.handle)
    drop_after (drop_handle K (record h { joined = true }))
        do _ ← cvt_pthread r.ret; λ w. from_result (taken K (slot w.os)) w

  -- The function `spawn`.
  unfoldable pub spawn_default : ℤ → M K.State (Unit {0}) → M K.State JoinHandle
  unfolding spawn
  spawn_default arg drop_closure = spawn K new arg drop_closure
