-- ===== src/Ps5/Net/Stream/WriteAll.antt =====
-- crates/ps5/src/net.rs, `TcpStream::write_all`: what it has sent when it ends, and that it ends.
use ps_payload_rust.Base.{
  ℕ, zero, suc, ◌+◌, ◌≤◌, ◌<◌, ◌^◌, ◌≡◌, ◌∙◌, ap, sym, subst, ◌≢◌, inl, inr, ◌⊎◌, true, false, List,
  refl, [], ◌∷◌, ◌++◌, Bytes, length, drop, take, arith, append_assoc, append-nil, Bool-cases,
  le→ltb, take-append-drop, length-drop,
}
use ps_payload_rust.Base.Int.{ℤ, pos, minus_one, eq_ℤ, eq_ℤ→eq, eq_ℤ_refl, to_unsigned_pos}
use ps_payload_rust.Sys.{Sys, Call, Event}
use ps_payload_rust.Ps5.Error.{os}
use ps_payload_rust.Ps5.Effect.{Outcome, World, returns, fails, aborts, exhausted}
use ps_payload_rust.Ps5.Net.Stream.{TcpStream, write, write_all}
use ps_payload_rust.Ps5.Net.Laws.{SendCounts, FiniteSignals, accepted, sent}

-- The connection broke: the last call was a `send` of all that was left, which took nothing, or
-- failed and not by a signal.
abbrev pub Broke : (K : Sys) → ℤ → Bytes → World K.State → Type 0
Broke K fd rest w =
    (es : List Event) × (e : Event) × (w.events ≡ e ∷ es)
    × (e.asked ≡ Call.send fd rest (pos 0))
    × (((e.answered.ret ≡ minus_one) × (K.errno w.os ≢ K.eintr)) ⊎ (e.answered.ret ≡ pos 0))

-- The call has sent the whole buffer, or the connection broke behind a proper prefix of it.
abbrev pub Written : (K : Sys) → ℤ → Bytes → Bytes → Outcome K.State (Unit {0}) → Type 0
Written K fd before buf (returns _ w) = sent fd w.events ≡ before ++ buf
Written K fd before buf (fails _ w) =
    (done : Bytes) × (rest : Bytes) × (sent fd w.events ≡ before ++ done)
    × (buf ≡ done ++ rest)
    × (rest ≢ [])
    × Broke K fd rest w
Written K fd before buf (aborts _) = ⊥
Written K fd before buf (exhausted _) = ⊥

-- What is left to write follows what this round has sent.
Written-append :
    (K : Sys) (fd : ℤ) (before part rest : Bytes) (o : Outcome K.State (Unit {0}))
    → Written K fd (before ++ part) rest o
    → Written K fd before (part ++ rest) o
Written-append K fd before part rest (returns _ w) h = h ∙ append_assoc before part rest
Written-append K fd before part rest (fails _ w) (done, left, e, split, more, broke) = (
  part ++ done,
  left,
  e ∙ append_assoc before part done,
  ap (λ t. part ++ t) split ∙ sym (append_assoc part done left),
  more,
  broke,
)
Written-append K fd before part rest (aborts _) h = h
Written-append K fd before part rest (exhausted _) h = h

module _ (K : Sys) where
  -- The world after one `send`.
  abbrev after_send : ℤ → Bytes → World K.State → World K.State
  after_send fd buf w = record {
    os = (K.respond (Call.send fd buf (pos 0)) w.os).1;
    events =
        record {
          asked = Call.send fd buf (pos 0);
          answered = (K.respond (Call.send fd buf (pos 0)) w.os).0;
        }
        ∷ w.events;
  }

  sent-after_send_failed :
      (fd : ℤ) (buf : Bytes) (w : World K.State)
      → (K.respond (Call.send fd buf (pos 0)) w.os).0.ret ≡ minus_one
      → sent fd (after_send fd buf w).events ≡ sent fd w.events
  sent-after_send_failed fd buf w e =
      ap (λ r. sent fd w.events ++ accepted fd (Call.send fd buf (pos 0)) r) e ∙ append-nil _

  sent-after_send :
      (fd : ℤ) (buf : Bytes) (w : World K.State) (n : ℕ)
      → (K.respond (Call.send fd buf (pos 0)) w.os).0.ret ≡ pos n
      → sent fd (after_send fd buf w).events ≡ sent fd w.events ++ take n buf
  sent-after_send fd buf w n e =
      ap (λ r. sent fd w.events ++ accepted fd (Call.send fd buf (pos 0)) r) e ∙ rw (eq_ℤ_refl fd)

unequal_false : (a b : ℤ) → eq_ℤ a b ≡ false → a ≢ b
unequal_false a b e h =
    let t : eq_ℤ a b ≡ true = ap (λ x. eq_ℤ a x) (sym h) ∙ eq_ℤ_refl a in absurd cc

-- What one `write` can do, on the world `w'` that it leaves.
data WriteCase (K : Sys) (signals : FiniteSignals K) (fd : ℤ) (buf : Bytes) (w : World K.State)
    (o : Outcome K.State ℕ) : Type 0 where
  failed :
      (w' : World K.State) (code : ℤ)
      → o ≡ fails (os (record { code = code })) w'
      → sent fd w'.events ≡ sent fd w.events
      → FiniteSignals.patience signals w'.os ≤ FiniteSignals.patience signals w.os
      → (code ≡ K.eintr
          → FiniteSignals.patience signals w'.os < FiniteSignals.patience signals w.os)
      → (code ≢ K.eintr → Broke K fd buf w')
      → WriteCase K signals fd buf w o
  wrote :
      (w' : World K.State) (n : ℕ)
      → o ≡ returns n w'
      → n ≤ length buf
      → sent fd w'.events ≡ sent fd w.events ++ take n buf
      → FiniteSignals.patience signals w'.os ≤ FiniteSignals.patience signals w.os
      → (n ≡ 0 → Broke K fd buf w')
      → WriteCase K signals fd buf w o

module _ (K : Sys) (counts : SendCounts K) (signals : FiniteSignals K) where
  open signals use {patience, steady, spent}

  write_cases :
      (s : TcpStream) (buf : Bytes) (w : World K.State)
      → length buf < 2 ^ 64
      → WriteCase K signals s.fd buf w (write K s buf w)
  unfolding write
  write_cases s buf w short = elim (counts s.fd buf (pos 0) w.os) [
    | inl e ↦
        failed (after_send K s.fd buf w) (K.errno (after_send K s.fd buf w).os) (rw e)
          (sent-after_send_failed K s.fd buf w e) (steady _ _) (spent _ _ e)
          (λ final. (w.events, _, refl, refl, inl (e, final)))
    | inr (n, e, le) ↦
        wrote (after_send K s.fd buf w) n (rw e (rw (to_unsigned_pos n (omega arith)))) le
          (sent-after_send K s.fd buf w n e) (steady _ _)
          (λ none_taken. (w.events, _, refl, refl, inr (e ∙ ap pos none_taken)))
  ]

  -- On a platform whose `send` counts its bytes and with finitely many signals, `write_all` of fewer
  -- than 2^64 bytes ends without a panic, within one round for each signal to come and each byte; it
  -- has sent the whole buffer, or it fails behind a proper prefix of it, where the last `send`, of all
  -- that was left, took nothing or failed and not by a signal.
  pub write_all_lem :
      (fuel : ℕ) (s : TcpStream) (buf : Bytes) (w : World K.State)
      → length buf < 2 ^ 64
      → patience w.os + length buf ≤ fuel
      → Written K s.fd (sent s.fd w.events) buf (write_all K fuel s buf w)
  unfolding write_all
  write_all_lem fuel s [] w short enough = sym (append-nil _)
  write_all_lem zero s (b ∷ bs) w short enough = absurd (omega arith)
  write_all_lem (suc fuel) s (b ∷ bs) w short enough = elim (write_cases s (b ∷ bs) w short) [
    | failed w' code e same le lt broke ↦ rw e (elim (Bool-cases (eq_ℤ code K.eintr)) [
      | inl again ↦ rw again (
          rw same at (
            write_all_lem fuel s (b ∷ bs) w' short
              (omega (arith, lt (eq_ℤ→eq code K.eintr again)))))
      | inr final ↦ rw final (
        [],
        b ∷ bs,
        same ∙ sym (append-nil _),
        refl,
        (λ h. cc),
        broke (λ h. absurd (unequal_false code K.eintr final h)),
      )
    ])
    | wrote w' zero e le split calm broke ↦ rw e ([], b ∷ bs, split, refl, (λ h. cc), broke refl)
    | wrote w' (suc n) e le split calm broke ↦ rw e (
        rw (le→ltb (length (b ∷ bs)) (suc n) le) (
          subst
            (λ t.
              Written K s.fd (sent s.fd w.events) t (write_all K fuel s (drop (suc n) (b ∷ bs)) w'))
            (take-append-drop (suc n) (b ∷ bs))
            (Written-append K s.fd (sent s.fd w.events) (take (suc n) (b ∷ bs))
              (drop (suc n) (b ∷ bs)) _
              (rw split at (
                write_all_lem fuel s (drop (suc n) (b ∷ bs)) w'
                  (omega (arith, length-drop (suc n) (b ∷ bs)))
                  (omega (arith, length-drop (suc n) (b ∷ bs))))))))
  ]
