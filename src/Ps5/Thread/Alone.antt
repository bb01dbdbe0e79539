-- ===== src/Ps5/Thread/Alone.antt =====
-- crates/ps5/src/thread.rs: the holder of a `MutexGuard` is alone with the data.
use ps_payload_rust.Base.{
  ℕ, ◌≡◌, ◌≢◌, ◌⊎◌, ◌∙◌, refl, sym, subst, inl, inr, Bool, true, false, Bool-cases, Option, none,
  some, ◌==◌, ==→eq, arith,
}
use ps_payload_rust.Base.Int.{pos, eq_ℤ}
use ps_payload_rust.Ps5.Thread.Exclusion.{
  Place, outside, inside, waiting, notified, Guarded, Action, locks, changes, drops_guard, waits,
  wait_returns, notifies_one, notifies_all, Posix, PosixLaws, lock_rest, wait_rest, turn, set, wake,
  told, moved, act, unlocked, Comes, starts, goes_on,
}

-- The owner of the lock is the thread that has a guard.
abbrev pub OwnedBy : Option ℕ → (ℕ → Place) → Type 0
OwnedBy owner threads =
    (j : ℕ) → (threads j ≡ inside → owner ≡ some j) × (owner ≡ some j → threads j ≡ inside)

-- A turn that takes, keeps or leaves the lock.
abbrev Taken : ℕ → Place → Option ℕ → Place → Option ℕ → Type 0
Taken i place owner p o =
    ((place ≡ inside) ⊎ (owner ≡ none))
    × (((p ≡ inside) × (o ≡ some i)) ⊎ ((p ≢ inside) × (o ≡ none)))

-- A turn without a guard that leaves the lock as it is.
abbrev Idle : Place → Option ℕ → Place → Option ℕ → Type 0
Idle place owner p o = (place ≢ inside) × (p ≢ inside) × (o ≡ owner)

abbrev Turned : ℕ → Place → Option ℕ → Option (Place × Option ℕ) → Type 0
Turned i place owner none = Unit
Turned i place owner (some (p, o)) = Taken i place owner p o ⊎ Idle place owner p o

-- If the turn takes the lock or has it, no other thread has a guard.
others :
    (owner : Option ℕ) (threads : ℕ → Place) (i j : ℕ)
    → OwnedBy owner threads
    → (threads i ≡ inside) ⊎ (owner ≡ none)
    → j ≢ i
    → threads j ≢ inside
others owner threads i j inv (inl mine) other its =
    let a = (inv i).0 mine in let b = (inv j).0 its in other cc
others owner threads i j inv (inr free) other its = let b = (inv j).0 its in absurd cc

==→other : (j i : ℕ) → (j == i) ≡ false → j ≢ i
==→other j i e h = ground arith

set-OwnedBy :
    (owner o : Option ℕ) (threads : ℕ → Place) (i : ℕ) (p : Place)
    → OwnedBy owner threads
    → Turned i (threads i) owner (some (p, o))
    → OwnedBy o (set i p threads)
set-OwnedBy owner o threads i p inv (inl (before, after)) j = elim (Bool-cases (j == i)) [
  | inl e ↦ rw e (here (==→eq j i e) after)
  | inr e ↦ rw e (away (==→other j i e) after)
]
  where
    here :
        j ≡ i
        → ((p ≡ inside) × (o ≡ some i)) ⊎ ((p ≢ inside) × (o ≡ none))
        → (p ≡ inside → o ≡ some j) × (o ≡ some j → p ≡ inside)
    here e (inl (pin, oi)) = ((λ _. cc), (λ _. pin))
    here e (inr (pout, free)) = ((λ h. absurd (pout h)), (λ h. absurd cc))

    away :
        j ≢ i
        → ((p ≡ inside) × (o ≡ some i)) ⊎ ((p ≢ inside) × (o ≡ none))
        → (threads j ≡ inside → o ≡ some j) × (o ≡ some j → threads j ≡ inside)
    away other (inl (pin, oi)) =
        ((λ h. absurd (others owner threads i j inv before other h)), (λ h. absurd (other cc)))
    away other (inr (pout, free)) =
        ((λ h. absurd (others owner threads i j inv before other h)), (λ h. absurd cc))
set-OwnedBy owner o threads i p inv (inr (out, pout, same)) j = elim (Bool-cases (j == i)) [
  | inl e ↦ rw e ((λ h. absurd (pout h)), (λ h. absurd (out (mine (==→eq j i e) h))))
  | inr e ↦ rw e ((λ h. let a = (inv j).0 h in cc), (λ h. (inv j).1 (sym same ∙ h)))
]
  where
    mine : j ≡ i → o ≡ some j → threads i ≡ inside
    mine e h = subst (λ x. threads x ≡ inside) e ((inv j).1 (sym same ∙ h))

-- Who is told of a notification gets no guard by it.
wake_inside : (p : Place) → (wake p ≡ inside → p ≡ inside) × (p ≡ inside → wake p ≡ inside)
wake_inside outside = ((λ h. h), (λ h. h))
wake_inside inside = ((λ h. h), (λ h. h))
wake_inside waiting = ((λ h. absurd cc), (λ h. absurd cc))
wake_inside notified = ((λ h. h), (λ h. h))

module _ {D : Type 0} where
  told_inside :
      (a : Action D) (threads : ℕ → Place) (k : ℕ)
      → (told a threads k ≡ inside → threads k ≡ inside)
        × (threads k ≡ inside → told a threads k ≡ inside)
  told_inside (notifies_one j) threads k = elim (Bool-cases (k == j)) [
    | inl e ↦ rw e (wake_inside (threads k))
    | inr e ↦ rw e ((λ h. h), (λ h. h))
  ]
  told_inside notifies_all threads k = wake_inside (threads k)
  told_inside (locks rc) threads k = ((λ h. h), (λ h. h))
  told_inside (changes f) threads k = ((λ h. h), (λ h. h))
  told_inside drops_guard threads k = ((λ h. h), (λ h. h))
  told_inside waits threads k = ((λ h. h), (λ h. h))
  told_inside (wait_returns rc) threads k = ((λ h. h), (λ h. h))

  told-OwnedBy :
      (a : Action D) (owner : Option ℕ) (threads : ℕ → Place)
      → OwnedBy owner threads
      → OwnedBy owner (told a threads)
  told-OwnedBy a owner threads inv j =
      let (fro, to) = told_inside a threads j in ((λ h. (inv j).0 (fro h)), (λ h. to ((inv j).1 h)))

module _ {P : Posix} (L : PosixLaws P) where
  lock-Turned :
      (i : ℕ) (okay : Bool) (owner : Option ℕ) (r : Option (Option ℕ))
      → P.pthread_mutex_lock i okay owner ≡ r
      → Turned i outside owner (lock_rest okay r)
  lock-Turned i okay owner none e = tt
  lock-Turned i true owner (some o) e =
      let (f, mine) = L.locked i owner o e in inl (inr f, inl (refl, mine))
  lock-Turned i false owner (some o) e = inr ((λ h. cc), (λ h. cc), L.not_locked i owner o e)

  wait-Turned :
      (i : ℕ) (place : Place) (n okay : Bool) (owner : Option ℕ) (r : Option (Option ℕ))
      → P.pthread_cond_wait i n okay owner ≡ r
      → Turned i place owner (wait_rest P i okay r)
  wait-Turned i place n okay owner none e = tt
  wait-Turned i place n true owner (some o) e =
      let (f, mine) = L.comes_back i n true owner o e in inl (inr f, inl (refl, mine))
  wait-Turned i place n false owner (some o) e =
      let (f, mine) = L.comes_back i n false owner o e in
      inl (inr f, inr ((λ h. cc), rw mine (L.unlocks i)))

  module _ {D : Type 0} where
    turn-Turned :
        (i : ℕ) (a : Action D) (place : Place) (owner : Option ℕ)
        → (place ≡ inside → owner ≡ some i)
        → Turned i place owner (turn P i a place owner)
    turn-Turned i (locks rc) outside owner h =
        lock-Turned i (eq_ℤ rc (pos 0)) owner (P.pthread_mutex_lock i (eq_ℤ rc (pos 0)) owner) refl
    turn-Turned i (changes f) inside owner h = inl (inl refl, inl (refl, h refl))
    turn-Turned i drops_guard inside owner h =
        inl (inl refl, inr ((λ e. cc), rw (h refl) (L.unlocks i)))
    turn-Turned i waits inside owner h = inl (inl refl, inr ((λ e. cc), rw (h refl) (L.unlocks i)))
    turn-Turned i (wait_returns rc) waiting owner h =
        wait-Turned i waiting false (eq_ℤ rc (pos 0)) owner
          (P.pthread_cond_wait i false (eq_ℤ rc (pos 0)) owner) refl
    turn-Turned i (wait_returns rc) notified owner h =
        wait-Turned i notified true (eq_ℤ rc (pos 0)) owner
          (P.pthread_cond_wait i true (eq_ℤ rc (pos 0)) owner) refl
    turn-Turned i (notifies_one j) outside owner h = inr ((λ e. cc), (λ e. cc), refl)
    turn-Turned i (notifies_one j) inside owner h = inl (inl refl, inl (refl, h refl))
    turn-Turned i notifies_all outside owner h = inr ((λ e. cc), (λ e. cc), refl)
    turn-Turned i notifies_all inside owner h = inl (inl refl, inl (refl, h refl))
    turn-Turned i a place owner h = tt

    abbrev After : Option (Guarded D) → Type 0
    After none = Unit
    After (some t) = OwnedBy t.owner t.threads

    moved-After :
        (i : ℕ) (a : Action D) (s : Guarded D) (o : Option (Place × Option ℕ))
        → OwnedBy s.owner s.threads
        → Turned i (s.threads i) s.owner o
        → After (moved i a s o)
    moved-After i a s none inv h = tt
    moved-After i a s (some (p, o)) inv h =
        told-OwnedBy a o (set i p s.threads) (set-OwnedBy s.owner o s.threads i p inv h)

    always : (d : D) (s : Guarded D) → Comes P d s → OwnedBy s.owner s.threads
    unfolding act unlocked
    always d _ starts = λ j. ((λ h. absurd cc), (λ h. absurd cc))
    always d _ (goes_on {r} s i a before e) = subst After e (
        moved-After i a r (turn P i a (r.threads i) r.owner) (always d r before)
          (turn-Turned i a (r.threads i) r.owner (always d r before i).0))

    -- On a platform that gives the lock to one thread at a time: in every state that threads come to
    -- which share a mutex and a condition variable, in whatever order they act and with whatever codes
    -- the platform's calls return, the lock is owned by the thread that has a guard, and by nobody when
    -- there is none, so that two threads never have a guard at once.
    pub Comes-OwnedBy :
        (d : D) (s : Guarded D)
        → Comes P d s
        → OwnedBy s.owner s.threads
          × ((i j : ℕ) → s.threads i ≡ inside → s.threads j ≡ inside → i ≡ j)
    Comes-OwnedBy d s comes = (always d s comes, only)
      where
        only : (i j : ℕ) → s.threads i ≡ inside → s.threads j ≡ inside → i ≡ j
        only i j hi hj =
            let a = (always d s comes i).0 hi in let b = (always d s comes j).0 hj in cc
