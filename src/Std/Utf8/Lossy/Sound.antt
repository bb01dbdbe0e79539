-- ===== src/Std/Utf8/Lossy/Sound.antt =====
-- `String::from_utf8_lossy`: its result is well-formed, and well-formed bytes stay what they are.
use mathlib.Core.Bool.{false≢true}
use ps_payload_rust.Base.{
  ℕ, ◌≡◌, ◌∙◌, refl, ap, sym, true, Bool-cases, Option-cases, inl, inr, [], ◌∷◌, ◌++◌, some, Bytes,
  append_assoc, append-nil,
}
use ps_payload_rust.Std.Utf8.{Expect, start, first, next, is_start, accepts, is_utf8}
use ps_payload_rust.Std.Utf8.Lossy.{replacement, Fed, accepted, begin, feed, lossy, from_utf8_lossy}

-- The bytes of the character begun are those that brought the expectation about.
abbrev Pending : Expect → Bytes → Type 0
Pending e p = (t : Bytes) → accepts start (p ++ t) ≡ accepts e t

Pending-next :
    (e e' : Expect) (p : Bytes) (b : ℕ)
    → Pending e p
    → next e b ≡ some e'
    → Pending e' (p ++ (b ∷ []))
unfolding accepts
Pending-next e e' p b h good t =
    ap (accepts start) (append_assoc p (b ∷ []) t) ∙ h (b ∷ t) ∙ rw (accepts, good)

-- What is put out by one byte, before what the rest puts out.
abbrev followed : Fed → Bytes → Bytes
followed f s = f.out ++ lossy f.expect f.pending s

replacement_is_utf8 : (t : Bytes) → accepts start (replacement ++ t) ≡ accepts start t
unfolding accepts next first
replacement_is_utf8 t = refl

module _ (s : Bytes)
    (rest : (e : Expect) (p : Bytes) → Pending e p → accepts start (lossy e p s) ≡ true) where
  accepted-followed :
      (e : Expect) (p : Bytes) → Pending e p → accepts start (followed (accepted e p) s) ≡ true
  accepted-followed start p h = h _ ∙ rest start [] (λ t. refl)
  accepted-followed e p h = rest e p h

  begin-followed : (b : ℕ) → accepts start (followed (begin b) s) ≡ true
  unfolding begin
  begin-followed b = elim (Option-cases (next start b)) [
    | inl bad ↦ rw (begin, bad) (replacement_is_utf8 _ ∙ rest start [] (λ t. refl))
    | inr (e, good) ↦
        rw (begin, good) (accepted-followed e (b ∷ []) (Pending-next start e [] b (λ t. refl) good))
  ]

  feed-followed :
      (e : Expect) (p : Bytes) (b : ℕ)
      → Pending e p
      → accepts start (followed (feed e p b) s) ≡ true
  unfolding feed
  feed-followed e p b h = elim (Option-cases (next e b)) [
    | inl bad ↦ elim (Bool-cases (is_start e)) [
      | inl whole ↦ rw (feed, bad, whole) (begin-followed b)
      | inr part ↦
          rw (feed, bad, part)
            (ap (accepts start) (append_assoc replacement (begin b).out _)
              ∙ replacement_is_utf8 _
              ∙ begin-followed b)
    ]
    | inr (e', good) ↦
        rw (feed, good) (accepted-followed e' (p ++ (b ∷ [])) (Pending-next e e' p b h good))
  ]

lossy-accepts : (e : Expect) (p s : Bytes) → Pending e p → accepts start (lossy e p s) ≡ true
unfolding lossy
lossy-accepts e p [] h = elim (Bool-cases (is_start e)) [
  | inl whole ↦ rw whole (unfold accepts in refl)
  | inr part ↦ rw part (replacement_is_utf8 [] ∙ unfold accepts in refl)
]
lossy-accepts e p (b ∷ s) h = feed-followed s (λ e' p' h'. lossy-accepts e' p' s h') e p b h

pub from_utf8_lossy-is_utf8 : (s : Bytes) → is_utf8 (from_utf8_lossy s) ≡ true
unfolding is_utf8 from_utf8_lossy
from_utf8_lossy-is_utf8 s = lossy-accepts start [] s (λ t. refl)

-- Nothing is begun where a character begins.
abbrev Begun : Expect → Bytes → Type 0
Begun start p = p ≡ []
Begun e p = Unit

accepted_of_accepts :
    (e : Expect) (p s : Bytes)
    → ((e' : Expect) (p' : Bytes) → Begun e' p' → accepts e' s ≡ true → lossy e' p' s ≡ p' ++ s)
    → accepts e s ≡ true
    → followed (accepted e p) s ≡ p ++ s
accepted_of_accepts start p s rest ok = ap (λ t. p ++ t) (rest start [] refl ok)
accepted_of_accepts e p s rest ok = rest e p tt ok

lossy_of_accepts :
    (e : Expect) (p s : Bytes) → Begun e p → accepts e s ≡ true → lossy e p s ≡ p ++ s
unfolding lossy accepts feed
lossy_of_accepts start p [] h ok = sym (append-nil p ∙ h)
lossy_of_accepts e p [] h ok = absurd (false≢true ok)
lossy_of_accepts e p (b ∷ s) h ok = elim (Option-cases (next e b)) [
  | inl bad ↦ absurd (false≢true (rw (bad, accepts) at ok))
  | inr (e', good) ↦
      rw (feed, good)
        (accepted_of_accepts e' (p ++ (b ∷ [])) s (λ e2 p2 h2 ok2. lossy_of_accepts e2 p2 s h2 ok2)
            (rw (good, accepts) at ok)
          ∙ append_assoc p (b ∷ []) s)
]

pub from_utf8_lossy_of_is_utf8 : (s : Bytes) → is_utf8 s ≡ true → from_utf8_lossy s ≡ s
unfolding is_utf8 from_utf8_lossy
from_utf8_lossy_of_is_utf8 s h = lossy_of_accepts start [] s refl h
