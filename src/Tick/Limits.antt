-- ===== src/Tick/Limits.antt =====
-- ffrdp.c, the sending loop of ffrdp_tick_conn: how much it sends.
use ffrdp.Base.{ℕ, zero, suc, ◌+◌, ◌≤◌, ◌<◌, ◌≡◌, refl, arith, ◌∙◌, ◌⊎◌, inl, inr}
use ffrdp.Base.{Bool, true, false, ◌||◌, Option, none, some, Bool-cases}
use ffrdp.Base.{[], ◌∷◌, ap, sub32, slt32, ltb, leb, ◌==◌, if◌then◌else◌, if_both, if_cases}
use ffrdp.Cap.{limit_of}
use ffrdp.Conn.{Conn}
use ffrdp.Slot.{Slot, type_query}
use ffrdp.Snd.{snd_next}
use ffrdp.Snd
use ffrdp.Pace.{must_wait, wait_frame}
use ffrdp.Hs.{Io, ll_send}
use ffrdp.Tick.{
  Round, on, out_of, frame_bytes, query_cycle, resend_due, try_first, try_again, send_round,
  send_loop, first_sent, resent, cut_for,
}

-- The connection `d` comes from `c` by sending `k` frames for the first time: that many come off
-- the peer's window and are in flight, and there are no more in flight than the limit allows.
pub record Sends (c d : Conn) : Type 0 where
  pub k : ℕ
  pub window : d.swnd + k ≡ c.swnd
  pub flight : d.inflight_used ≡ c.inflight_used + k
  pub limit : limit_of d.cap ≡ limit_of c.cap
  pub allowed : (k ≡ 0) ⊎ (d.inflight_used ≤ limit_of c.cap)

Sends-none :
    (c d : Conn)
    → d.swnd ≡ c.swnd
    → d.inflight_used ≡ c.inflight_used
    → limit_of d.cap ≡ limit_of c.cap
    → Sends c d
Sends-none c d a b e = record {
  k = 0;
  window = omega (arith, a);
  flight = omega (arith, b);
  limit = e;
  allowed = inl refl;
}

Sends-trans : (c d e : Conn) → Sends c d → Sends d e → Sends c e
Sends-trans c d e p q = record {
  k = p.k + q.k;
  window = omega (arith, p.window, q.window);
  flight = omega (arith, p.flight, q.flight);
  limit = q.limit ∙ p.limit;
  allowed = ground (arith, p.allowed, q.allowed, p.limit, p.flight, q.flight);
}

first_sent-Sends :
    (c : Conn) (i now : ℕ)
    → 0 < c.swnd
    → c.inflight_used < limit_of c.cap
    → limit_of c.cap ≤ 64
    → Sends c (first_sent c i now)
unfolding first_sent limit_of
first_sent-Sends c i now h a small = record {
  k = 1;
  window = ground arith;
  flight = ground arith;
  limit = refl;
  allowed = inr (ground arith);
}

resent-Sends : (c : Conn) (p : Slot) (i now : ℕ) → Sends c (resent (cut_for c p) i now)
unfolding resent cut_for limit_of
resent-Sends c p i now = elim (Bool-cases ((cut_for c p).snd.slots i).fast_resend) [
  | inl e ↦ Sends-none c (resent (cut_for c p) i now) (rw e refl) (rw e refl) (rw e refl)
  | inr e ↦ Sends-none c (resent (cut_for c p) i now) (rw e refl) (rw e refl) (rw e refl)
]

cut_for-Sends : (c : Conn) (p : Slot) → Sends c (cut_for c p)
unfolding cut_for
cut_for-Sends c p = Sends-none c (cut_for c p) refl refl refl

if-Sends :
    (c : Conn) (b : Bool) (x y : Round)
    → (b ≡ true → Sends c x.conn)
    → (b ≡ false → Sends c y.conn)
    → Sends c (if b then x else y).conn
if-Sends c b x y f g = if_cases (λ (q : Round). Sends c q.conn) b x y f g

module _ (link : ℕ → Bool) where
  try_first-Sends :
      (c : Conn) (io : Io) (i now : ℕ)
      → limit_of c.cap ≤ 64
      → Sends c (try_first link c io i now).conn
  unfolding try_first
  try_first-Sends c io i now small =
      let same : (d : Conn)
          → d.swnd ≡ c.swnd
          → d.inflight_used ≡ c.inflight_used
          → d.cap ≡ c.cap
          → Sends c d =
        λ d a b e. Sends-none c d a b (ap limit_of e) in
      let (io1, ok) = ll_send link io c.peer_addr (frame_bytes (c.snd.slots i)) in
      let (io2, _) = ll_send link io c.peer_addr (type_query ∷ []) in
      let ask = c.tick_send_query == 0 || slt32 query_cycle (sub32 now c.tick_send_query) in
      let paced = on (record c { pace = wait_frame c.pace now }) io in
      let taken = on (first_sent c i now) io1 in
      let asked = out_of (record c { tick_send_query = now }) io2 in
      let sending =
        if leb (limit_of c.cap) c.inflight_used
        then out_of c io
        else if ok
        then taken
        else out_of c io1 in
      let blocked = if ask then asked else on c io in
      let open_window = if ltb 0 c.swnd then sending else blocked in
      let keep : Sends c c = same c refl refl refl in
      if-Sends c (must_wait c.pace) paced open_window (λ _. same paced.conn refl refl refl)
        (λ _.
          if-Sends c (ltb 0 c.swnd) sending blocked
            (λ w.
              if-Sends c (leb (limit_of c.cap) c.inflight_used) (out_of c io)
                (if ok then taken else out_of c io1) (λ _. keep)
                (λ a.
                  if-Sends c ok taken (out_of c io1)
                    (λ _. first_sent-Sends c i now (ground (arith, w)) (ground (arith, a)) small)
                    (λ _. keep)))
            (λ _. if-Sends c ask asked (on c io) (λ _. same asked.conn refl refl refl) (λ _. keep)))

  try_again-Sends : (c : Conn) (io : Io) (i now : ℕ) → Sends c (try_again link c io i now).conn
  unfolding try_again
  try_again-Sends c io i now =
      let p = c.snd.slots i in
      let c1 = cut_for c p in
      let (io1, ok) = ll_send link io c.peer_addr (frame_bytes p) in
      let tried = if ok then on (resent c1 i now) io1 else out_of c1 io1 in
      if-Sends c (resend_due p now) tried (on c io)
        (λ _.
          if-Sends c ok (on (resent c1 i now) io1) (out_of c1 io1) (λ _. resent-Sends c p i now)
            (λ _. cut_for-Sends c p))
        (λ _. Sends-none c c refl refl refl)

  send_round-Sends :
      (c : Conn) (io : Io) (i now : ℕ)
      → limit_of c.cap ≤ 64
      → Sends c (send_round link c io i now).conn
  unfolding send_round
  send_round-Sends c io i now small =
      if-Sends c (c.snd.slots i).first_send (try_again link c io i now) (try_first link c io i now)
        (λ _. try_again-Sends c io i now) (λ _. try_first-Sends c io i now small)

  -- Where the limit of frames in flight is at most 64, the sending loop takes as many frames off the
  -- peer's window as it adds to those in flight, keeps the limit, and, where it sends a frame for
  -- the first time, leaves no more frames in flight than the limit; it does so for any answers of
  -- the lower layer and with any frames in the ring.
  pub send_loop-Sends :
      (fuel r : ℕ) (c : Conn) (io : Io) (p : Option ℕ) (now : ℕ)
      → limit_of c.cap ≤ 64
      → Sends c (send_loop link fuel r c io p now).0
  unfolding send_loop
  send_loop-Sends zero r c io p now small = Sends-none c c refl refl refl
  send_loop-Sends (suc fuel) r c io none now small = Sends-none c c refl refl refl
  send_loop-Sends (suc fuel) r c io (some k) now small =
      let q = send_round link c io k now in
      let next = snd_next Snd.ring_size q.conn.snd k in
      let rest = send_loop link fuel (r + 1) q.conn q.io next now in
      let one = send_round-Sends c io k now small in
      let more =
        send_loop-Sends fuel (r + 1) q.conn q.io next now (omega (arith, one.limit, small)) in
      if_both (λ (p : Conn × (Io × Bool)). Sends c p.0) (leb c.cw.cwnd r) (c, (io, false))
        (if q.stop then (q.conn, (q.io, false)) else rest) (Sends-none c c refl refl refl)
        (if_both (λ (p : Conn × (Io × Bool)). Sends c p.0) q.stop (q.conn, (q.io, false)) rest one
          (Sends-trans c q.conn rest.0 one more))
