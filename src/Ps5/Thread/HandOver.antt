-- ===== src/Ps5/Thread/HandOver.antt =====
-- crates/ps5/src/thread.rs, `create_thread` and `spawn`: who owns the descriptor in the packet.
use ps_payload_rust.Base.{
  ℕ, ◌≡◌, ◌∙◌, Bool-cases, inl, inr, List, ◌∷◌, Option, none, some, if◌then◌else◌,
}
use ps_payload_rust.Base.Int.{ℤ, pos, eq_ℤ}
use ps_payload_rust.Sys.{Sys, Call, Reply}
use ps_payload_rust.Ps5.Error.{os}
use ps_payload_rust.Ps5.Effect.{
  World, Outcome, returns, fails, aborts, exhausted, M, and_then, fail,
}
use ps_payload_rust.Ps5.Frame.{called}
use ps_payload_rust.Ps5.Ownership.{
  Resource, resource, descriptor, attributes, thread, after, owned, Owns, release_top, owned-called,
  hand_over_top, hand_over_below, Owns-and_then,
}
use ps_payload_rust.Ps5.Thread.Create.{
  Builder, JoinHandle, create_thread, spawned, spawn, drop_handle,
}

-- Who holds the descriptor behind a creation with this status: with status 0 the new thread, which
-- is held in its place.
abbrev holder : ℤ → ℤ → ℤ → Resource
holder fd rc id = if eq_ℤ rc (pos 0) then resource thread id else resource descriptor fd

abbrev Created : {S : Type 0} → ℤ → List Resource → Outcome S (ℤ × ℤ) → Type 0
Created fd held (returns (rc, id) w) = owned w.events ≡ some (holder fd rc id ∷ held)
Created fd held (fails e w) = ⊥
Created fd held (aborts w) = ⊥
Created fd held (exhausted w) = ⊥

create_top :
    (size : Option ℕ) (fd : ℤ) (r : Reply) (held : List Resource)
    → after (Call.pthread_create size fd) r (resource descriptor fd ∷ held)
      ≡ some (holder fd r.ret r.value ∷ held)
create_top size fd r held = elim (Bool-cases (eq_ℤ r.ret (pos 0))) [
  | inl fine ↦ rw fine (hand_over_top fd r.value held)
  | inr failed ↦ rw failed
]

create_below :
    (size : Option ℕ) (fd : ℤ) (r : Reply) (held : List Resource)
    → after
        (Call.pthread_create size fd)
        r
        (resource attributes (pos 0) ∷ resource descriptor fd ∷ held)
      ≡ some (resource attributes (pos 0) ∷ holder fd r.ret r.value ∷ held)
create_below size fd r held = elim (Bool-cases (eq_ℤ r.ret (pos 0))) [
  | inl fine ↦ rw fine (hand_over_below fd r.value held)
  | inr failed ↦ rw failed
]

-- What a handle holds: its thread, until it is joined.
abbrev pub handle_holds : List Resource → JoinHandle → List Resource
handle_holds held h = if h.joined then held else resource thread h.handle ∷ held

module _ (K : Sys) (held : List Resource) where
  -- The attributes are destroyed in the end.
  destroyed :
      (x : Resource) (w : World K.State)
      → owned w.events ≡ some (resource attributes (pos 0) ∷ x ∷ held)
      → owned (called K Call.pthread_attr_destroy w).events ≡ some (x ∷ held)
  destroyed x w h =
      owned-called K Call.pthread_attr_destroy w (resource attributes (pos 0) ∷ x ∷ held) h
      ∙ release_top attributes (pos 0) (x ∷ held)

  create_thread-Created :
      (size : Option ℕ) (fd : ℤ) (w : World K.State)
      → owned w.events ≡ some (resource descriptor fd ∷ held)
      → Created fd held (create_thread K size fd w)
  unfolding create_thread
  create_thread-Created none fd w h =
      owned-called K (Call.pthread_create none fd) w _ h
      ∙ create_top none fd (K.respond (Call.pthread_create none fd) w.os).0 held
  create_thread-Created (some size) fd w h = elim (Bool-cases (eq_ℤ r1.ret (pos 0))) [
    | inr failed ↦ rw (Created, create_thread, failed) (owned-called K init w _ h ∙ rw failed)
    | inl fine ↦
        let h1 : owned w1.events
            ≡ some (resource attributes (pos 0) ∷ resource descriptor fd ∷ held) =
          owned-called K init w _ h ∙ rw fine in
        elim (Bool-cases (eq_ℤ r2.ret (pos 0))) [
          | inr failed ↦
              rw (Created, create_thread, fine, failed)
                (destroyed (resource descriptor fd) w2 (owned-called K set w1 _ h1) ∙ rw failed)
          | inl fine2 ↦
              rw (Created, create_thread, fine, fine2)
                (destroyed (holder fd r3.ret r3.value) (called K create w2) (
                  owned-called K create w2
                    (resource attributes (pos 0) ∷ resource descriptor fd ∷ held)
                    (owned-called K set w1 _ h1)
                  ∙ create_below (some size) fd r3 held))
        ]
  ]
    where
      init : Call
      init = Call.pthread_attr_init

      set : Call
      set = Call.pthread_attr_setstacksize size

      create : Call
      create = Call.pthread_create (some size) fd

      w1 : World K.State
      w1 = called K init w

      w2 : World K.State
      w2 = called K set w1

      r1 : Reply
      r1 = (K.respond init w.os).0

      r2 : Reply
      r2 = (K.respond set w1.os).0

      r3 : Reply
      r3 = (K.respond create w2.os).0

  -- If dropping the closure releases the descriptor in the packet, `spawn` hands the descriptor over
  -- to the thread of the handle that it returns, and on every error, of whichever call, has released
  -- it; the attributes are destroyed either way.
  pub spawn-Owns :
      (b : Builder) (fd : ℤ) (drop_closure : M K.State (Unit {0})) (w : World K.State)
      → ((v : World K.State)
          → owned v.events ≡ some (resource descriptor fd ∷ held)
          → Owns held (λ _. held) (drop_closure v))
      → owned w.events ≡ some (resource descriptor fd ∷ held)
      → Owns held (handle_holds held) (spawn K b fd drop_closure w)
  unfolding spawn
  spawn-Owns b fd drop_closure w drops h =
      finish (create_thread K b.stack_size fd w) (create_thread-Created b.stack_size fd w h)
    where
      finish :
          (o : Outcome K.State (ℤ × ℤ))
          → Created fd held o
          → Owns held
              (handle_holds held)
              (and_then o (λ (rc, handle). spawned K fd drop_closure rc handle))
      finish (returns (rc, handle) v) own = elim (Bool-cases (eq_ℤ rc (pos 0))) [
        | inl fine ↦ rw (Owns, spawned, fine) (own ∙ rw fine)
        | inr failed ↦
            rw (Owns, spawned, failed)
              (Owns-and_then held (λ _. held) (handle_holds held) (drop_closure v)
                (λ _. fail (os (record { code = rc }))) (drops v (own ∙ rw failed))
                (λ _ u own2. own2))
      ]
      finish (fails e v) own = absurd own
      finish (aborts v) own = absurd own
      finish (exhausted v) own = absurd own

  -- Dropping a handle detaches its thread, unless it was joined.
  pub drop_handle-Owns :
      (h : JoinHandle) (w : World K.State)
      → owned w.events ≡ some (handle_holds held h)
      → Owns held (λ _. held) (drop_handle K h w)
  unfolding drop_handle
  drop_handle-Owns h w own = elim (Bool-cases h.joined) [
    | inl joined ↦ rw joined (rw joined at own)
    | inr running ↦ rw running (
        owned-called K (Call.pthread_detach h.handle) w (resource thread h.handle ∷ held)
          (rw running at own)
        ∙ release_top thread h.handle held)
  ]
