-- ===== src/HttpServer/Head/Marker.antt =====
-- crates/core/src/http.rs, `find_double_crlf`: where the marker is found, and that bytes which come
-- later do not move it.
use ps_payload_rust.Base.{
  ◌⊎◌, Option-cases, le→ltb, ℕ, suc, ◌+◌, ◌≤◌, ◌<◌, ◌≡◌, ◌≢◌, ◌∙◌, refl, ap, sym, true, false, [],
  ◌∷◌, ◌++◌, Option, none, some, Bytes, length, if◌then◌else◌, arith, Bool-cases, inl, inr,
}
use mathlib.Core.Option
use mathlib.Core.Option.{some-injective, none-ne-some}
use ps_payload_rust.Std.Text.{windows, position}
use ps_payload_rust.Std.Split.{starts_with}
use ps_payload_rust.HttpServer.Head.{marker, find_double_crlf}

windows-cons :
    (a b c d : ℕ) (s : Bytes)
    → windows 4 (a ∷ b ∷ c ∷ d ∷ s) ≡ (a ∷ b ∷ c ∷ d ∷ []) ∷ windows 4 (b ∷ c ∷ d ∷ s)
unfolding windows
windows-cons a b c d s = rw (le→ltb (length (a ∷ b ∷ c ∷ d ∷ s)) 4 (omega arith))

-- The search looks for the marker at each place in turn.
pub find-cons :
    (x : ℕ) (xs : Bytes)
    → find_double_crlf (x ∷ xs)
      ≡ (if starts_with marker (x ∷ xs) then some 0 else Option.map suc (find_double_crlf xs))
unfolding find_double_crlf position
find-cons a [] = unfold windows in ground arith
find-cons a (b ∷ []) = unfold windows in ground arith
find-cons a (b ∷ c ∷ []) = unfold windows in ground arith
find-cons a (b ∷ c ∷ d ∷ s) = rw (windows-cons a b c d s)

map-suc : (o : Option ℕ) {p : ℕ} → Option.map suc o ≡ some p → (q : ℕ) × (o ≡ some q) × (p ≡ suc q)
map-suc none h = cc
map-suc (some q) {p} h = (q, refl, sym (some-injective (suc q) p h))

starts_with-length : (m s : Bytes) → starts_with m s ≡ true → length m ≤ length s
starts_with-length [] s h = omega arith
starts_with-length (a ∷ m) [] h = cc
starts_with-length (a ∷ m) (c ∷ s) h = ground (arith, starts_with-length m s)

starts_with-append : (m s t : Bytes) → starts_with m s ≡ true → starts_with m (s ++ t) ≡ true
starts_with-append [] s t h = refl
starts_with-append (a ∷ m) [] t h = cc
starts_with-append (a ∷ m) (c ∷ s) t h = ground (arith, starts_with-append m s t)

-- A match that more bytes have made ends among these.
starts_with_new :
    (m s t : Bytes) → starts_with m s ≡ false → starts_with m (s ++ t) ≡ true → length s < length m
starts_with_new [] s t h k = cc
starts_with_new (a ∷ m) [] t h k = omega arith
starts_with_new (a ∷ m) (c ∷ s) t h k = ground (arith, starts_with_new m s t)

find-nil : find_double_crlf [] ≡ none
unfolding find_double_crlf
find-nil = refl

-- Where the marker is found: here, or in the rest.
find_cases :
    (x : ℕ) (xs : Bytes) {p : ℕ}
    → find_double_crlf (x ∷ xs) ≡ some p
    → ((starts_with marker (x ∷ xs) ≡ true) × (p ≡ 0))
      ⊎ ((starts_with marker (x ∷ xs) ≡ false)
          × (q : ℕ) × (find_double_crlf xs ≡ some q)
          × (p ≡ suc q))
find_cases x xs {p} h = elim (Bool-cases (starts_with marker (x ∷ xs))) [
  | inl here ↦ inl (here, sym (some-injective 0 p (rw (find-cons, here) at h)))
  | inr later ↦
      let (q, e, eq) = map-suc (find_double_crlf xs) (rw (find-cons, later) at h) in
      inr (later, q, e, eq)
]

find_here :
    (x : ℕ) (xs : Bytes) → starts_with marker (x ∷ xs) ≡ true → find_double_crlf (x ∷ xs) ≡ some 0
find_here x xs e = rw (find-cons, e)

find_later :
    (x : ℕ) (xs : Bytes)
    → starts_with marker (x ∷ xs) ≡ false
    → find_double_crlf (x ∷ xs) ≡ Option.map suc (find_double_crlf xs)
find_later x xs e = rw (find-cons, e)

-- The marker lies whole in the bytes.
pub find_bound : (s : Bytes) {p : ℕ} → find_double_crlf s ≡ some p → p + 4 ≤ length s
find_bound [] {p} h = absurd (none-ne-some p (rw find-nil at h))
find_bound (x ∷ xs) {p} h = elim (find_cases x xs h) [
  | inl (here, e) ↦ omega (arith, starts_with-length marker (x ∷ xs) here)
  | inr (later, q, e, eq) ↦ omega (arith, find_bound xs e)
]

-- More bytes do not move a marker that is there.
pub find-append :
    (s t : Bytes) {p : ℕ} → find_double_crlf s ≡ some p → find_double_crlf (s ++ t) ≡ some p
find-append [] t {p} h = absurd (none-ne-some p (rw find-nil at h))
find-append (x ∷ xs) t {p} h = elim (find_cases x xs h) [
  | inl (here, e) ↦
      find_here x (xs ++ t) (starts_with-append marker (x ∷ xs) t here) ∙ ap some (sym e)
  | inr (later, q, e, eq) ↦ elim (Bool-cases (starts_with marker (x ∷ (xs ++ t)))) [
    | inl new ↦ absurd (omega (arith, starts_with_new marker (x ∷ xs) t later new, find_bound xs e))
    | inr old ↦ find_later x (xs ++ t) old ∙ rw (find-append xs t e, eq)
  ]
]

-- A marker that more bytes complete begins in the last three bytes at the earliest.
pub find_new :
    (s t : Bytes) {p : ℕ}
    → find_double_crlf s ≡ none
    → find_double_crlf (s ++ t) ≡ some p
    → length s ≤ p + 3
find_new [] t h k = omega arith
find_new (x ∷ xs) t {p} h k = elim (Option-cases (find_double_crlf xs)) [
  | inr (q, found) ↦ elim (Bool-cases (starts_with marker (x ∷ xs))) [
    | inl old ↦ absurd (none-ne-some 0 (sym h ∙ find_here x xs old))
    | inr later ↦ absurd (none-ne-some (suc q) (sym h ∙ find_later x xs later ∙ rw found))
  ]
  | inl none_yet ↦ elim (find_cases x (xs ++ t) k) [
    | inl (here, e) ↦ elim (Bool-cases (starts_with marker (x ∷ xs))) [
      | inl old ↦ absurd (none-ne-some 0 (sym h ∙ find_here x xs old))
      | inr later ↦ omega (arith, starts_with_new marker (x ∷ xs) t later here)
    ]
    | inr (later, q, e, eq) ↦ omega (arith, find_new xs t none_yet e)
  ]
]

-- A first byte that is no CR only shifts the place.
pub find_skip :
    (x : ℕ) (xs : Bytes) → x ≢ 13 → find_double_crlf (x ∷ xs) ≡ Option.map suc (find_double_crlf xs)
find_skip x xs ne = find_later x xs (ground arith)
