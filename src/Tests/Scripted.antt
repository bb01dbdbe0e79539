-- ===== src/Tests/Scripted.antt =====
-- A platform for the tests: it delivers the pieces of a script to `recv`, interrupts `send` a number
-- of times, takes at most `capacity` bytes with each `send`, and succeeds on every other call.
use ps_payload_rust.Base.{
  some, none, ℕ, zero, suc, ◌≤◌, ◌<◌, ◌≡◌, ◌≢◌, ◌⊎◌, refl, inl, inr, List, [], ◌∷◌, Bytes, length,
  take, arith, length-take_le,
}
use ps_payload_rust.Base.Int.{ℤ, pos, negsuc, minus_one}
use ps_payload_rust.Sys.{Sys, Call, Reply, SockaddrIn, Addrinfo, recv, send}
use ps_payload_rust.Ps5.Effect.{World}
use ps_payload_rust.Ps5.Http.Body.{ReadCounts, FiniteBodies}
use ps_payload_rust.Ps5.Net.Laws.{RecvCounts, SendCounts, FiniteSignals}

pub record Script : Type 0 where
  pub incoming : List Bytes
  pub signals : ℕ
  pub errno : ℤ

abbrev capacity : ℕ
capacity = 3

abbrev pub no_peer : SockaddrIn
no_peer = record { sin_len = 16; sin_family = 2; sin_port = 0; s_addr = 0 }

abbrev pub reply : ℤ → Bytes → Reply
reply ret out = record {
  ret = ret;
  data_out = out;
  peer = no_peer;
  value = pos 0;
  addresses = [];
  info = record { st_size = pos 0; st_mode = 0 };
  entry = record { d_namlen = 0; d_name = [] };
}

-- An IPv4 entry between one of another family and one without an address.
abbrev listed : List Addrinfo
listed =
    record { ai_family = pos 28; ai_addr = some no_peer }
    ∷ record { ai_family = pos 2; ai_addr = some no_peer }
    ∷ record { ai_family = pos 2; ai_addr = none }
    ∷ []

abbrev pub deliver : ℕ → List Bytes → Script → Reply × Script
deliver len [] s = (reply (pos 0) [], s)
deliver len (p ∷ ps) s =
    (reply (pos (length (take len p))) (take len p), record s { incoming = ps })

abbrev take_some : Bytes → ℕ → Script → Reply × Script
take_some buf zero s = (reply (pos (length (take capacity buf))) [], s)
take_some buf (suc k) s = (reply minus_one [], record s { signals = k; errno = pos 4 })

abbrev respond : Call → Script → Reply × Script
respond (recv fd len flags) s = deliver len s.incoming s
respond (Call.sce_http2_read_data id len) s = deliver len s.incoming s
respond (Call.recvfrom fd len flags alen) s = deliver len s.incoming s
respond (send fd buf flags) s = take_some buf s.signals s
respond (Call.getaddrinfo host service family socktype) s =
    (record (reply (pos 0) []) { addresses = listed }, s)
respond c s = (reply (pos 0) [], s)

abbrev pub scripted : Sys
scripted = record {
  State = Script;
  errno = λ s. s.errno;
  respond = respond;
  eagain = pos 35;
  ewouldblock = pos 35;
  eintr = pos 4;
  einval = pos 22;
  af_inet = 2;
  sock_stream = pos 1;
  sock_dgram = pos 2;
  sol_socket = pos 0xffff;
  so_reuseaddr = pos 4;
  ipproto_tcp = pos 6;
  tcp_nodelay = pos 1;
  f_getfl = pos 3;
  f_setfl = pos 4;
  shut_rd = pos 0;
  shut_wr = pos 1;
  shut_rdwr = pos 2;
  sockaddr_in_len = 16;
  with_nonblock = λ flags. flags;
  without_nonblock = λ flags. flags;
  o_rdonly = 0;
  o_wronly = 1;
  o_rdwr = 2;
  o_append = 8;
  o_creat = 0x200;
  o_excl = 0x800;
  o_trunc = 0x400;
  seek_set = pos 0;
  seek_cur = pos 1;
  seek_end = pos 2;
  s_ifmt = 0xF000;
  s_ifdir = 0x4000;
  s_ifreg = 0x8000;
  f_ok = pos 0;
  strerror = λ code. none;
}

-- A world in which nothing was called yet.
abbrev pub fresh : List Bytes → ℕ → World Script
fresh incoming signals = record {
  os = record { incoming = incoming; signals = signals; errno = pos 0 };
  events = [];
}

take_most : (n : ℕ) (b : Bytes) → length (take n b) ≤ length b
take_most zero b = omega arith
take_most (suc n) [] = omega arith
take_most (suc n) (x ∷ b) = omega (arith, take_most n b)

deliver_counts :
    (len : ℕ) (ps : List Bytes) (s : Script)
    → let r = (deliver len ps s).0 in
      (r.ret ≡ minus_one) ⊎ ((r.ret ≡ pos (length r.data_out)) × (length r.data_out ≤ len))
deliver_counts len [] s = inr (refl, omega arith)
deliver_counts len (p ∷ ps) s = inr (refl, length-take_le len p)

pub scripted-RecvCounts : RecvCounts scripted
scripted-RecvCounts fd len flags s = deliver_counts len s.incoming s

take_some_counts :
    (buf : Bytes) (k : ℕ) (s : Script)
    → let r = (take_some buf k s).0 in
      (r.ret ≡ minus_one) ⊎ ((n : ℕ) × (r.ret ≡ pos n) × (n ≤ length buf))
take_some_counts buf zero s = inr (length (take capacity buf), refl, take_most capacity buf)
take_some_counts buf (suc k) s = inl refl

pub scripted-SendCounts : SendCounts scripted
scripted-SendCounts fd buf flags s = take_some_counts buf s.signals s

deliver_signals :
    (len : ℕ) (ps : List Bytes) (s : Script) → (deliver len ps s).1.signals ≡ s.signals
deliver_signals len [] s = refl
deliver_signals len (p ∷ ps) s = refl

deliver_counted : (len : ℕ) (ps : List Bytes) (s : Script) → (deliver len ps s).0.ret ≢ minus_one
deliver_counted len [] s = λ h. cc
deliver_counted len (p ∷ ps) s = λ h. cc

take_some_steady :
    (buf : Bytes) (k : ℕ) (s : Script) → s.signals ≡ k → (take_some buf k s).1.signals ≤ s.signals
take_some_steady buf zero s e = omega arith
take_some_steady buf (suc k) s e = omega arith

take_some_spent :
    (buf : Bytes) (k : ℕ) (s : Script)
    → s.signals ≡ k
    → (take_some buf k s).0.ret ≡ minus_one
    → (take_some buf k s).1.signals < s.signals
take_some_spent buf zero s e h = absurd cc
take_some_spent buf (suc k) s e h = omega arith

pub steady : (c : Call) (s : Script) → (respond c s).1.signals ≤ s.signals
steady (recv fd len flags) s = omega (arith, deliver_signals len s.incoming s)
steady (Call.sce_http2_read_data id len) s = omega (arith, deliver_signals len s.incoming s)
steady (Call.recvfrom fd len flags alen) s = omega (arith, deliver_signals len s.incoming s)
steady (send fd buf flags) s = take_some_steady buf s.signals s refl
steady c s = omega arith

pub spent :
    (c : Call) (s : Script) → (respond c s).0.ret ≡ minus_one → (respond c s).1.signals < s.signals
spent (recv fd len flags) s h = absurd (deliver_counted len s.incoming s h)
spent (Call.sce_http2_read_data id len) s h = absurd (deliver_counted len s.incoming s h)
spent (Call.recvfrom fd len flags alen) s h = absurd (deliver_counted len s.incoming s h)
spent (send fd buf flags) s h = take_some_spent buf s.signals s refl h
spent c s h = absurd cc

abbrev pub scripted-FiniteSignals : FiniteSignals scripted
scripted-FiniteSignals = record {
  patience = λ s. s.signals;
  steady = steady;
  spent = λ c s h e. spent c s h;
}

deliver_page :
    (len : ℕ) (ps : List Bytes) (s : Script)
    → let r = (deliver len ps s).0 in
      ((n : ℕ) × (r.ret ≡ negsuc n))
      ⊎ ((r.ret ≡ pos (length r.data_out)) × (length r.data_out ≤ len))
deliver_page len [] s = inr (refl, omega arith)
deliver_page len (p ∷ ps) s = inr (refl, length-take_le len p)

pub scripted-ReadCounts : ReadCounts scripted
scripted-ReadCounts id len s = deliver_page len s.incoming s

deliver_left :
    (len : ℕ) (ps : List Bytes) (s : Script)
    → s.incoming ≡ ps
    → length (deliver len ps s).1.incoming ≤ length s.incoming
deliver_left len [] s e = omega arith
deliver_left len (p ∷ ps) s e = rw e (omega arith)

deliver_spent :
    (len : ℕ) (ps : List Bytes) (s : Script) (n : ℕ)
    → s.incoming ≡ ps
    → (deliver len ps s).0.ret ≡ pos (suc n)
    → length (deliver len ps s).1.incoming < length s.incoming
deliver_spent len [] s n e h = absurd cc
deliver_spent len (p ∷ ps) s n e h = rw e (omega arith)

take_some_left : (buf : Bytes) (k : ℕ) (s : Script) → (take_some buf k s).1.incoming ≡ s.incoming
take_some_left buf zero s = refl
take_some_left buf (suc k) s = refl

pub less : (c : Call) (s : Script) → length (respond c s).1.incoming ≤ length s.incoming
less (recv fd len flags) s = deliver_left len s.incoming s refl
less (Call.sce_http2_read_data id len) s = deliver_left len s.incoming s refl
less (Call.recvfrom fd len flags alen) s = deliver_left len s.incoming s refl
less (send fd buf flags) s = rw (take_some_left buf s.signals s) (omega arith)
less c s = omega arith

pub fewer :
    (id : ℤ) (len : ℕ) (s : Script) (n : ℕ)
    → (respond (Call.sce_http2_read_data id len) s).0.ret ≡ pos (suc n)
    → length (respond (Call.sce_http2_read_data id len) s).1.incoming < length s.incoming
fewer id len s n h = deliver_spent len s.incoming s n refl h

abbrev pub scripted-FiniteBodies : FiniteBodies scripted
scripted-FiniteBodies = record { left = λ s. length s.incoming; steady = less; spent = fewer }
