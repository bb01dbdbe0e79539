-- ===== src/Ps5/Ownership.antt =====
-- Who owns what: the resources that foreign calls hand out and take back (file descriptors, thread
-- attributes, threads, address lists, directories, mutexes and locks, condition variables, the
-- handles of the Sony libraries), read off the record of the calls.
use ps_payload_rust.Base.{
  ℕ, ◌≡◌, ◌∙◌, Bool, true, ◌&&◌, List, [], ◌∷◌, Option, none, some, ◌==◌, if◌then◌else◌, arith,
  Bool-cases, inl, inr,
}
use ps_payload_rust.Base.Int.{ℤ, pos, minus_one, is_negative, eq_ℤ, eq_ℤ_refl}
use ps_payload_rust.Sys.{Sys, Call, Reply, Event}
use ps_payload_rust.Ps5.Effect.{
  World, Outcome, returns, fails, aborts, exhausted, M, and_then, cleanup, fail,
}
use ps_payload_rust.Ps5.Util.{cvt_i32}
use ps_payload_rust.Ps5.Net.Fd.{close_fd}
use ps_payload_rust.Ps5.Frame.{called}

pub data Kind : Type 0 where
  descriptor attributes thread net_pool ssl_context http2_context template request : Kind
  address_list directory locked mutex condvar : Kind

abbrev kind_code : Kind → ℕ
kind_code descriptor = 0
kind_code attributes = 1
kind_code thread = 2
kind_code net_pool = 3
kind_code ssl_context = 4
kind_code http2_context = 5
kind_code template = 6
kind_code request = 7
kind_code address_list = 8
kind_code directory = 9
kind_code locked = 10
kind_code mutex = 11
kind_code condvar = 12

pub record Resource : Type 0 where
  pub kind : Kind
  pub id : ℤ

abbrev pub resource : Kind → ℤ → Resource
resource kind id = record { kind = kind; id = id }

abbrev same : Resource → Resource → Bool
same a b = kind_code a.kind == kind_code b.kind && eq_ℤ a.id b.id

-- A resource is released while it is the youngest one: in the reverse order of creation.
abbrev pub release : Resource → List Resource → Option (List Resource)
release r [] = none
release r (x ∷ held) = if same r x then some held else none

-- A new thread takes over the descriptor that its packet holds, below the attributes if there are
-- any.
abbrev pub hand_over : ℤ → ℤ → List Resource → Option (List Resource)
hand_over fd id [] = none
hand_over fd id (x ∷ held) =
    if same (resource descriptor fd) x
    then some (resource thread id ∷ held)
    else if same (resource attributes (pos 0)) x
    then elim (hand_over fd id held) [ none ↦ none | some rest ↦ some (x ∷ rest) ]
    else none

-- What is held after a call, youngest first; `none` if the call releases what is not the youngest.
abbrev pub after : Call → Reply → List Resource → Option (List Resource)
after (Call.socket domain ty protocol) r held =
    some (if eq_ℤ r.ret minus_one then held else resource descriptor r.ret ∷ held)
after (Call.accept fd len) r held =
    some (if eq_ℤ r.ret minus_one then held else resource descriptor r.ret ∷ held)
after (Call.close fd) r held = release (resource descriptor fd) held
after Call.pthread_attr_init r held =
    some (if eq_ℤ r.ret (pos 0) then resource attributes (pos 0) ∷ held else held)
after Call.pthread_attr_destroy r held = release (resource attributes (pos 0)) held
after (Call.pthread_create size arg) r held =
    if eq_ℤ r.ret (pos 0) then hand_over arg r.value held else some held
after (Call.pthread_detach id) r held = release (resource thread id) held
after (Call.pthread_join id) r held =
    if eq_ℤ r.ret (pos 0) then release (resource thread id) held else some held
after (Call.getaddrinfo host service family socktype) r held =
    some (if eq_ℤ r.ret (pos 0) then resource address_list (pos 0) ∷ held else held)
after (Call.freeaddrinfo list) r held = release (resource address_list (pos 0)) held
after (Call.sce_net_pool_create name size flags) r held =
    some (if is_negative r.ret then held else resource net_pool r.ret ∷ held)
after (Call.sce_net_pool_destroy id) r held = release (resource net_pool id) held
after (Call.sce_ssl_init size) r held =
    some (if is_negative r.ret then held else resource ssl_context r.ret ∷ held)
after (Call.sce_ssl_term id) r held = release (resource ssl_context id) held
after (Call.sce_http2_init pool ssl size connections) r held =
    some (if is_negative r.ret then held else resource http2_context r.ret ∷ held)
after (Call.sce_http2_term id) r held = release (resource http2_context id) held
after (Call.sce_http2_create_template lib agent redirect enable) r held =
    some (if is_negative r.ret then held else resource template r.ret ∷ held)
after (Call.sce_http2_delete_template id) r held = release (resource template id) held
after (Call.sce_http2_create_request_with_url tmpl method url len) r held =
    some (if is_negative r.ret then held else resource request r.ret ∷ held)
after (Call.sce_http2_delete_request id) r held = release (resource request id) held
after (Call.open_path path flags mode) r held =
    some (if eq_ℤ r.ret minus_one then held else resource descriptor r.ret ∷ held)
after (Call.opendir path) r held =
    some (if eq_ℤ r.ret (pos 0) then held else resource directory r.ret ∷ held)
after (Call.closedir dir) r held = release (resource directory dir) held
after (Call.pthread_mutex_init id) r held =
    some (if eq_ℤ r.ret (pos 0) then resource mutex id ∷ held else held)
after (Call.pthread_mutex_destroy id) r held = release (resource mutex id) held
after (Call.pthread_mutex_lock id) r held =
    some (if eq_ℤ r.ret (pos 0) then resource locked id ∷ held else held)
after (Call.pthread_mutex_unlock id) r held = release (resource locked id) held
after (Call.pthread_cond_init id) r held =
    some (if eq_ℤ r.ret (pos 0) then resource condvar id ∷ held else held)
after (Call.pthread_cond_destroy id) r held = release (resource condvar id) held
after c r held = some held

-- What is held after these calls.
abbrev pub owned : List Event → Option (List Resource)
owned [] = some []
owned (e ∷ es) = elim (owned es) [ none ↦ none | some held ↦ after e.asked e.answered held ]

-- The run ends; it holds `more a` if it returned `a`, and `before` if it failed.
abbrev pub Owns : {S A : Type 0} → List Resource → (A → List Resource) → Outcome S A → Type 0
Owns before more (returns a w) = owned w.events ≡ some (more a)
Owns before more (fails e w) = owned w.events ≡ some before
Owns before more (aborts w) = ⊥
Owns before more (exhausted w) = ⊥

kind_code_refl : (k : Kind) → (kind_code k == kind_code k) ≡ true
kind_code_refl k = ground arith

pub release_top :
    (k : Kind) (id : ℤ) (held : List Resource)
    → release (resource k id) (resource k id ∷ held) ≡ some held
release_top k id held = rw (kind_code_refl k, eq_ℤ_refl id)

-- One more call.
pub owned-called :
    (K : Sys) (c : Call) (w : World K.State) (held : List Resource)
    → owned w.events ≡ some held
    → owned (called K c w).events ≡ after c (K.respond c w.os).0 held
owned-called K c w held h = rw h

-- The rule for a sequence.
pub Owns-and_then :
    {S A B : Type 0} (before : List Resource) (mid : A → List Resource) (more : B → List Resource)
    (o : Outcome S A) (f : A → M S B)
    → Owns before mid o
    → ((a : A) (w : World S) → owned w.events ≡ some (mid a) → Owns before more (f a w))
    → Owns before more (and_then o f)
Owns-and_then before mid more (returns a w) f h k = k a w h
Owns-and_then before mid more (fails e w) f h k = h
Owns-and_then before mid more (aborts w) f h k = h
Owns-and_then before mid more (exhausted w) f h k = h

-- The rule for a value that is dropped on an early return.
pub Owns-cleanup :
    {S A B : Type 0} (before inner : List Resource) (more : A → List Resource) (o : Outcome S A)
    (drop : M S B)
    → Owns inner more o
    → ((w : World S) → owned w.events ≡ some inner → Owns before (λ _. before) (drop w))
    → Owns before more (cleanup o drop)
Owns-cleanup before inner more (returns a w) drop h k = h
Owns-cleanup before inner more (fails e w) drop h k =
    Owns-and_then before (λ _. before) more (drop w) (λ _. fail e) (k w h) (λ _ v own. own)
Owns-cleanup before inner more (aborts w) drop h k = h
Owns-cleanup before inner more (exhausted w) drop h k = h

module _ (K : Sys) (held : List Resource) where
  -- Closing the youngest descriptor.
  pub close_fd-Owns :
      (fd : ℤ) (w : World K.State)
      → owned w.events ≡ some (resource descriptor fd ∷ held)
      → Owns held (λ _. held) (close_fd K fd w)
  unfolding close_fd
  close_fd-Owns fd w h = owned-called K (Call.close fd) w _ h ∙ release_top descriptor fd held

  pub cvt_i32-Owns :
      (ret : ℤ) (w : World K.State)
      → owned w.events ≡ some held
      → Owns held (λ _. held) (cvt_i32 K ret w)
  unfolding cvt_i32
  cvt_i32-Owns ret w h = elim (Bool-cases (eq_ℤ ret minus_one)) [ inl e ↦ rw e h | inr e ↦ rw e h ]

  -- A call that neither hands out nor takes back, with its check.
  pub checked-Owns :
      (c : Call) (w : World K.State)
      → owned w.events ≡ some held
      → ((r : Reply) → after c r held ≡ some held)
      → Owns held (λ _. held) (cvt_i32 K (K.respond c w.os).0.ret (called K c w))
  checked-Owns c w h neutral =
      cvt_i32-Owns (K.respond c w.os).0.ret (called K c w)
        (owned-called K c w held h ∙ neutral (K.respond c w.os).0)

  -- A call that hands out a descriptor unless it returns -1, with its check.
  pub opened-Owns :
      (c : Call) (w : World K.State)
      → owned w.events ≡ some held
      → ((r : Reply)
          → after c r held
            ≡ some (if eq_ℤ r.ret minus_one then held else resource descriptor r.ret ∷ held))
      → Owns held
          (λ fd. resource descriptor fd ∷ held)
          (cvt_i32 K (K.respond c w.os).0.ret (called K c w))
  unfolding cvt_i32
  opened-Owns c w h opens = elim (Bool-cases (eq_ℤ (K.respond c w.os).0.ret minus_one)) [
    | inl e ↦ rw (Owns, cvt_i32, e) (owned-called K c w held h ∙ opens _ ∙ rw e)
    | inr e ↦ rw (Owns, cvt_i32, e) (owned-called K c w held h ∙ opens _ ∙ rw e)
  ]

pub hand_over_top :
    (fd id : ℤ) (held : List Resource)
    → hand_over fd id (resource descriptor fd ∷ held) ≡ some (resource thread id ∷ held)
hand_over_top fd id held = rw (eq_ℤ_refl fd)

pub hand_over_below :
    (fd id : ℤ) (held : List Resource)
    → hand_over fd id (resource attributes (pos 0) ∷ resource descriptor fd ∷ held)
      ≡ some (resource attributes (pos 0) ∷ resource thread id ∷ held)
hand_over_below fd id held = rw (eq_ℤ_refl fd)
