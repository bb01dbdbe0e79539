-- ===== src/Ps5/Http/Body.antt =====
-- crates/ps5/src/http.rs, the read loop of `run_request`: it ends, and its body is all that the
-- platform delivered.
use ps_payload_rust.Base.{
  ℕ, zero, suc, ◌≤◌, ◌<◌, ◌≡◌, ◌⊎◌, refl, ap, sym, ◌∙◌, List, [], ◌∷◌, ◌++◌, some, Bytes, length,
  take, inl, inr, if◌then◌else◌, arith, append-nil, append_assoc, le→ltb, subst, take-length,
}
use ps_payload_rust.Base.Int.{ℤ, pos, negsuc, eq_ℤ, eq_ℤ_refl}
use ps_payload_rust.Sys.{Sys, Call, Reply, Event}
use ps_payload_rust.Ps5.Error.{sce}
use ps_payload_rust.Ps5.Effect.{World, Outcome, returns, fails, aborts, exhausted}
use ps_payload_rust.Ps5.Frame.{called}
use ps_payload_rust.Ps5.Net.Fd.{fill}
use ps_payload_rust.Ps5.Net.Stream.Recv.{length-fill, take-fill}
use ps_payload_rust.Ps5.Ownership.{Resource, owned, owned-called}
use ps_payload_rust.Ps5.Http.{drain}

abbrev written : ℤ → Bytes → Bytes
written (pos n) out = take n out
written (negsuc n) out = []

-- What a read of this request has delivered.
abbrev pub delivered : ℤ → Call → Reply → Bytes
delivered id (Call.sce_http2_read_data id' len) r =
    if eq_ℤ id id' then written r.ret r.data_out else []
delivered id c r = []

-- All that it has delivered for a request, in order.
abbrev pub received : ℤ → List Event → Bytes
received id [] = []
received id (e ∷ es) = received id es ++ delivered id e.asked e.answered

-- The read fails with a negative code, or tells how many bytes it has written, at most the buffer's
-- length.
abbrev pub ReadCounts : Sys → Type 0
ReadCounts K =
    (id : ℤ) (len : ℕ) (s : K.State)
    → let r = (K.respond (Call.sce_http2_read_data id len) s).0 in
      ((n : ℕ) × (r.ret ≡ negsuc n))
      ⊎ ((r.ret ≡ pos (length r.data_out)) × (length r.data_out ≤ len))

-- Every body ends: a number falls with each read that delivers bytes.
pub record FiniteBodies (K : Sys) : Type 0 where
  pub left : K.State → ℕ
  pub steady : (c : Call) (s : K.State) → left (K.respond c s).1 ≤ left s
  pub spent :
      (id : ℤ) (len : ℕ) (s : K.State) (n : ℕ)
      → (K.respond (Call.sce_http2_read_data id len) s).0.ret ≡ pos (suc n)
      → left (K.respond (Call.sce_http2_read_data id len) s).1 < left s

-- What one read does.
data Page (len : ℕ) (r : Reply) : Type 0 where
  failed : (n : ℕ) → r.ret ≡ negsuc n → Page len r
  ended : r.ret ≡ pos 0 → Page len r
  more :
      (x : ℕ) (d : Bytes)
      → r.ret ≡ pos (suc (length d))
      → r.data_out ≡ x ∷ d
      → suc (length d) ≤ len
      → Page len r

Page-out :
    (len : ℕ) (r : Reply) (out : Bytes)
    → r.data_out ≡ out
    → r.ret ≡ pos (length out)
    → length out ≤ len
    → Page len r
Page-out len r [] o e le = ended e
Page-out len r (x ∷ d) o e le = more x d e o le

Page-cases :
    (len : ℕ) (r : Reply)
    → ((n : ℕ) × (r.ret ≡ negsuc n))
      ⊎ ((r.ret ≡ pos (length r.data_out)) × (length r.data_out ≤ len))
    → Page len r
Page-cases len r (inl (n, e)) = failed n e
Page-cases len r (inr (e, le)) = Page-out len r r.data_out refl e le

-- The loop has appended all that was delivered meanwhile, and holds what was held.
abbrev pub Drained : {S : Type 0} → ℤ → Bytes → List Resource → Bytes → Outcome S Bytes → Type 0
Drained id seen held buf (returns b w) =
    (t : Bytes) × (b ≡ buf ++ t) × (received id w.events ≡ seen ++ t) × (owned w.events ≡ some held)
Drained id seen held buf (fails e w) = owned w.events ≡ some held
Drained id seen held buf (aborts w) = ⊥
Drained id seen held buf (exhausted w) = ⊥

Drained-append :
    {S : Type 0} (id : ℤ) (seen part : Bytes) (held : List Resource) (buf : Bytes)
    (o : Outcome S Bytes)
    → Drained id (seen ++ part) held (buf ++ part) o
    → Drained id seen held buf o
Drained-append id seen part held buf (returns b w) (t, e, got, own) =
    (part ++ t, e ∙ append_assoc buf part t, got ∙ append_assoc seen part t, own)
Drained-append id seen part held buf (fails e w) h = h
Drained-append id seen part held buf (aborts w) h = h
Drained-append id seen part held buf (exhausted w) h = h

module _ (K : Sys) (id : ℤ) where
  abbrev reading : Bytes → Call
  reading chunk = Call.sce_http2_read_data id (length chunk)

  received_some :
      (chunk : Bytes) (w : World K.State) (n : ℕ)
      → (K.respond (reading chunk) w.os).0.ret ≡ pos n
      → received id (called K (reading chunk) w).events
        ≡ received id w.events ++ take n (K.respond (reading chunk) w.os).0.data_out
  received_some chunk w n e = rw (eq_ℤ_refl id, e)

  received_more :
      (chunk : Bytes) (w : World K.State) (x : ℕ) (d : Bytes)
      → (K.respond (reading chunk) w.os).0.ret ≡ pos (suc (length d))
      → (K.respond (reading chunk) w.os).0.data_out ≡ x ∷ d
      → received id (called K (reading chunk) w).events ≡ received id w.events ++ (x ∷ d)
  received_more chunk w x d e out =
      received_some chunk w (suc (length d)) e
      ∙ ap (λ t. received id w.events ++ take (suc (length d)) t) out
      ∙ ap (λ t. received id w.events ++ t) (take-length (x ∷ d))

  drain_failed :
      (fuel : ℕ) (buf chunk : Bytes) (w : World K.State) (n : ℕ)
      → (K.respond (reading chunk) w.os).0.ret ≡ negsuc n
      → drain K (suc fuel) id buf chunk w
        ≡ fails
            (sce (record { op = "sceHttp2ReadData"; code = negsuc n }))
            (called K (reading chunk) w)
  unfolding drain
  drain_failed fuel buf chunk w n e = rw (drain, e)

  drain_ended :
      (fuel : ℕ) (buf chunk : Bytes) (w : World K.State)
      → (K.respond (reading chunk) w.os).0.ret ≡ pos 0
      → drain K (suc fuel) id buf chunk w ≡ returns buf (called K (reading chunk) w)
  unfolding drain
  drain_ended fuel buf chunk w e = rw (drain, e)

  drain_more :
      (fuel : ℕ) (buf chunk : Bytes) (w : World K.State) (x : ℕ) (d : Bytes)
      → (K.respond (reading chunk) w.os).0.ret ≡ pos (suc (length d))
      → (K.respond (reading chunk) w.os).0.data_out ≡ x ∷ d
      → suc (length d) ≤ length chunk
      → drain K (suc fuel) id buf chunk w
        ≡ drain K fuel id (buf ++ (x ∷ d)) (fill (x ∷ d) chunk) (called K (reading chunk) w)
  unfolding drain
  drain_more fuel buf chunk w x d e out le =
      rw (drain, e, out)
        (rw (
          le→ltb (length (fill (x ∷ d) chunk)) (suc (length d))
              (omega (arith, length-fill (x ∷ d) chunk)),
          take-fill (x ∷ d) chunk le,
        ))

module _ (K : Sys) (counts : ReadCounts K) (bodies : FiniteBodies K) (id : ℤ) where
  open bodies use {left, spent}

  pub drain_lem :
      (held : List Resource) (fuel : ℕ) (buf chunk : Bytes) (w : World K.State)
      → left w.os < fuel
      → owned w.events ≡ some held
      → Drained id (received id w.events) held buf (drain K fuel id buf chunk w)
  unfolding drain
  drain_lem held zero buf chunk w enough own = absurd (omega arith)
  drain_lem held (suc fuel) buf chunk w enough own =
      elim (Page-cases (length chunk) (K.respond (reading K id chunk) w.os).0
        (counts id (length chunk) w.os)) [
          | failed n e ↦
              rw (drain_failed K id fuel buf chunk w n e)
                (owned-called K (reading K id chunk) w held own)
          | ended e ↦ rw (drain_ended K id fuel buf chunk w e) (
            [],
            sym (append-nil buf),
            received_some K id chunk w 0 e,
            owned-called K (reading K id chunk) w held own,
          )
          | more x d e out le ↦ rw (drain_more K id fuel buf chunk w x d e out le) (
              Drained-append id (received id w.events) (x ∷ d) held buf
                (drain K fuel id (buf ++ (x ∷ d)) (fill (x ∷ d) chunk)
                  (called K (reading K id chunk) w))
                (subst
                  (λ t. Drained id t held (buf ++ (x ∷ d)) (
                    drain K fuel id (buf ++ (x ∷ d)) (fill (x ∷ d) chunk)
                      (called K (reading K id chunk) w)))
                  (received_more K id chunk w x d e out)
                  (drain_lem held fuel (buf ++ (x ∷ d)) (fill (x ∷ d) chunk)
                    (called K (reading K id chunk) w)
                    (omega (arith, spent id (length chunk) w.os (length d) e))
                    (owned-called K (reading K id chunk) w held own))))
        ]
