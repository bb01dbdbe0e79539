-- ===== src/Ps5/Thread/Joined.antt =====
-- crates/ps5/src/thread.rs, `JoinHandle::join`: what becomes of the thread and of the slot.
use ps_payload_rust.Base.{
  ◌≡◌, ◌∙◌, ◌⊎◌, refl, Bool-cases, inl, inr, List, ◌∷◌, Option, none, some, true,
}
use ps_payload_rust.Base.Int.{ℤ, pos, eq_ℤ}
use ps_payload_rust.Sys.{Sys, Call}
use ps_payload_rust.Ps5.Error.{os}
use ps_payload_rust.Ps5.Effect.{
  World, Outcome, returns, fails, aborts, exhausted, from_result, finally_outcome,
}
use ps_payload_rust.Ps5.Frame.{called}
use ps_payload_rust.Ps5.Ownership.{Resource, resource, thread, owned, owned-called, release_top}
use ps_payload_rust.Ps5.Thread.Create.{JoinHandle, drop_handle}
use ps_payload_rust.Ps5.Thread.Join.{join, taken}

module _ (K : Sys) {A : Type 0} (held : List Resource) (h : JoinHandle)
    (slot : K.State → Option A) where
  abbrev pub Joined : Outcome K.State A → Type 0
  Joined (returns a w) = (owned w.events ≡ some held) × (slot w.os ≡ some a)
  Joined (fails e w) =
      ((owned w.events ≡ some held) × (slot w.os ≡ none) × (e ≡ os (record { code = K.einval })))
      ⊎ ((code : ℤ) × (e ≡ os (record { code = code }))
          × (owned w.events ≡ some (resource thread h.handle ∷ held)))
  Joined (aborts w) = ⊥
  Joined (exhausted w) = ⊥

  read_slot :
      (o : Option A) (w : World K.State)
      → slot w.os ≡ o
      → owned w.events ≡ some held
      → Joined
          (finally_outcome (from_result (taken K o) w) (drop_handle K (record h { joined = true })))
  unfolding drop_handle
  read_slot none w e own = inl (own, e, refl)
  read_slot (some a) w e own = (own, e)

  -- `join` of a running thread ends; a value that it returns is the one in the slot, and the thread
  -- is joined then, as it is when the slot is empty, which is the error `EINVAL`. When
  -- `pthread_join` fails the thread is neither joined nor detached.
  pub join-Joined :
      (w : World K.State)
      → owned w.events ≡ some (resource thread h.handle ∷ held)
      → Joined (join K h slot w)
  unfolding join
  join-Joined w own = elim (Bool-cases (eq_ℤ (K.respond c w.os).0.ret (pos 0))) [
    | inl e ↦
        rw (Joined, join, e)
          (unfold drop_handle in
            read_slot (slot (called K c w).os) (called K c w) refl
              (owned-called K c w _ own ∙ rw e (release_top thread h.handle held)))
    | inr e ↦
        rw (Joined, join, e) (inr ((K.respond c w.os).0.ret, refl, owned-called K c w _ own ∙ rw e))
  ]
    where
      c : Call
      c = Call.pthread_join h.handle
