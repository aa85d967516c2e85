-- ===== src/Ack/Rounds.antt =====
-- ffrdp.c, ffrdp_apply_acks: the rounds of its loop over the send ring.
use mathlib.Core.Option.{none-ne-some, some-injective}
use ffrdp.Base.{ℕ, zero, suc, ◌+◌, ◌-◌, ◌%◌, ◌^◌, ◌≤◌, ◌<◌, ◌≡◌, ◌≢◌, refl, arith, sym, ap, ◌∙◌}
use ffrdp.Base.{
  Bool, true, false, not, ◌&&◌, ◌||◌, Option, none, some, ◌==◌, if◌then◌else◌, if_both, sub32,
  slt32, sle32, add32,
}
use ffrdp.Base.Int.{pos, ltb_ℤ}
use ffrdp.Seq.{seq_distance}
use ffrdp.Snd
use ffrdp.Snd.{Snd, snd_slot, snd_next, snd_release, snd_advance, advance_loop}
use ffrdp.Snd.Next.{IsNext, snd_next-IsNext}
use ffrdp.Congestion.{congestion_control, fast_resend}
use ffrdp.Rcv.{Batch}
use ffrdp.Conn.{Conn}
use ffrdp.Ack.{apply_loop, confirm, cut_hole, is_confirmed, max_ack}
use ffrdp.Ack.Keep.{cut_hole-IsKept, confirm-slots}

-- The frames in use with numbers from `lo` on stand in their slots, there are 64 numbers at most, and
-- fewer than 2 ^ 24 frames have been made.
pub record InWindow (lo : ℕ) (s : Snd) : Type 0 where
  pub early : s.send_seq < 2 ^ 24
  pub span : s.send_seq ≤ lo + 64
  pub number :
      (q : ℕ)
      → lo ≤ q
      → q < s.send_seq
      → (s.slots (q % 64)).used ≡ true
      → (s.slots (q % 64)).seq ≡ q

-- The slot, if any, is that of a frame in use with a number from `lo` on.
IsAhead : ℕ → Snd → Option ℕ → Type 0
IsAhead lo s o =
    (i : ℕ)
    → o ≡ some i
    → (q : ℕ) × (lo ≤ q) × (q < s.send_seq) × (i ≡ q % 64) × ((s.slots (q % 64)).used ≡ true)

IsNext-IsAhead : (s : Snd) (lo : ℕ) (o : Option ℕ) → IsNext s lo s.send_seq o → IsAhead lo s o
unfolding IsAhead IsNext
IsNext-IsAhead s lo none h = λ i e. absurd (none-ne-some i e)
IsNext-IsAhead s lo (some k) (q, a, b, at, u, _) =
    λ i e. (q, a, b, sym (some-injective k i e) ∙ at, u)

-- The rings differ at most in the slot `i`.
record IsElsewhere (i : ℕ) (s t : Snd) : Type 0 where
  made : t.send_seq ≡ s.send_seq
  same : (j : ℕ) → j ≢ i → t.slots j ≡ s.slots j

advance_loop-send_seq : (fuel : ℕ) (s : Snd) → (advance_loop fuel s).send_seq ≡ s.send_seq
unfolding advance_loop
advance_loop-send_seq zero s = refl
advance_loop-send_seq (suc fuel) s =
    let next = record s { snd_first = add32 s.snd_first 1 } in
    let more = slt32 (sub32 s.snd_first s.send_seq) 0 && not (snd_slot s s.snd_first).used in
    if_both (λ (t : Snd). t.send_seq ≡ s.send_seq) more (advance_loop fuel next) s
      (advance_loop-send_seq fuel next) refl

confirm-IsElsewhere : (c : Conn) (i now : ℕ) → IsElsewhere i c.snd (confirm c i now).snd
unfolding confirm snd_release snd_advance
confirm-IsElsewhere c i now = record {
  made = advance_loop-send_seq _ _;
  same = λ j ne. confirm-slots c i now j (ground (arith, ne));
}

cut_hole-IsElsewhere : (c : Conn) (i now : ℕ) → IsElsewhere i c.snd (cut_hole c i now).snd
unfolding cut_hole
cut_hole-IsElsewhere c i now =
    let p = c.snd.slots i in
    let due = sle32 c.rtt.hole_wait (sub32 now p.tick_send) && not p.fast_resend in
    let cut = record c {
      cw = congestion_control c.cw fast_resend;
      snd = Snd.put_slot c.snd i (record p { fast_resend = true });
    } in
    if_both (λ (d : Conn). IsElsewhere i c.snd d.snd) due cut c
      (record {
        made = refl;
        same = λ j ne. (let other : (j == i) ≡ false = ground (arith, ne) in rw other refl);
      })
      (record { made = refl; same = λ j ne. refl })

-- The same where a hole is seen or not, and the frame keeps its number.
kept-IsElsewhere :
    (c : Conn) (i now : ℕ) (hole : Bool)
    → IsElsewhere i c.snd (if hole then cut_hole c i now else c).snd
kept-IsElsewhere c i now hole =
    if_both (λ (d : Conn). IsElsewhere i c.snd d.snd) hole (cut_hole c i now) c
      (cut_hole-IsElsewhere c i now) (record { made = refl; same = λ j ne. refl })

kept_seq :
    (c : Conn) (i now : ℕ) (hole : Bool)
    → (c.snd.slots i).used ≡ true
    → ((if hole then cut_hole c i now else c).snd.slots i).seq ≡ (c.snd.slots i).seq
kept_seq c i now hole u =
    if_both (λ (d : Conn). (d.snd.slots i).seq ≡ (c.snd.slots i).seq) hole (cut_hole c i now) c
      (cut_hole-IsKept c i now i u).seq refl

-- Past the number `q` a ring that differs at most in its slot is as it was.
past-InWindow :
    (lo q : ℕ) (s t : Snd)
    → lo ≤ q
    → q < s.send_seq
    → IsElsewhere (q % 64) s t
    → InWindow lo s
    → InWindow (q + 1) t
past-InWindow lo q s t le lt e w = record {
  early = rw e.made w.early;
  span = rw e.made (omega (arith, w.span));
  number = λ k from to used.
      (let before : k < s.send_seq = rw (← e.made) to in
        let apart : k % 64 ≢ q % 64 =
          λ clash. absurd (omega (arith, clash, w.span, from, before)) in
        let same = e.same (k % 64) apart in
        rw same (w.number k (omega arith) before (rw (← same) used)));
}

past-IsAhead :
    (lo q : ℕ) (s t : Snd) (o : Option ℕ)
    → lo ≤ q
    → IsElsewhere (q % 64) s t
    → InWindow lo s
    → IsAhead (q + 1) s o
    → IsAhead (q + 1) t o
unfolding IsAhead
past-IsAhead lo q s t o le e w h = λ i at.
    (let (k, from, to, slot, used) = h i at in
      let apart : k % 64 ≢ q % 64 = λ clash. absurd (omega (arith, clash, w.span, from, to)) in
      (k, from, rw e.made to, slot, rw (e.same (k % 64) apart) used))

-- The frame after the one with number `q`.
next-IsAhead :
    (lo q i : ℕ) (s : Snd)
    → lo ≤ q
    → q < s.send_seq
    → s.send_seq < 2 ^ 24
    → s.send_seq ≤ lo + 64
    → (s.slots i).seq ≡ q
    → IsAhead (q + 1) s (snd_next Snd.ring_size s i)
next-IsAhead lo q i s le lt early span seq =
    let n = snd_next-IsNext Snd.ring_size s i early (omega (arith, seq)) (omega (arith, seq)) in
    rw (← seq) (IsNext-IsAhead s ((s.slots i).seq + 1) (snd_next Snd.ring_size s i) n)

module _ (b : Batch) (now : ℕ) where
  -- From a frame with a number from `lo` on, as many rounds as there are numbers up to `send_seq`
  -- and one more are enough.
  loop_ends :
      (fuel lo : ℕ) (c : Conn) (o : Option ℕ)
      → InWindow lo c.snd
      → IsAhead lo c.snd o
      → c.snd.send_seq - lo < fuel
      → (apply_loop fuel c b o now).1 ≡ true
  unfolding apply_loop IsAhead
  loop_ends zero lo c o w a enough = absurd (omega (arith, enough))
  loop_ends (suc fuel) lo c none w a enough = refl
  loop_ends (suc fuel) lo c (some i) w a enough =
      let (q, le, lt, at, used) = a i refl in
      let P : Conn × Bool → Type 0 = λ r. r.1 ≡ true in
      let p = c.snd.slots i in
      let dist = seq_distance p.seq b.send_una in
      let t = snd_next Snd.ring_size c.snd i in
      let gone = confirm c i now in
      let hole = ltb_ℤ (pos 0) (seq_distance (max_ack 24 b) p.seq) in
      let kept = if hole then cut_hole c i now else c in
      let next = snd_next Snd.ring_size kept.snd i in
      let seq : (c.snd.slots (q % 64)).seq ≡ q = w.number q le lt used in
      let here : (c.snd.slots i).used ≡ true = ap (λ (k : ℕ). (c.snd.slots k).used) at ∙ used in
      let e1 : IsElsewhere (q % 64) c.snd gone.snd = rw (← at) (confirm-IsElsewhere c i now) in
      let e2 : IsElsewhere (q % 64) c.snd kept.snd = rw (← at) (kept-IsElsewhere c i now hole) in
      let seq1 : (c.snd.slots i).seq ≡ q = ap (λ (k : ℕ). (c.snd.slots k).seq) at ∙ seq in
      let seq2 : (kept.snd.slots i).seq ≡ q = kept_seq c i now hole here ∙ seq1 in
      let w1 = past-InWindow lo q c.snd gone.snd le lt e1 w in
      let w2 = past-InWindow lo q c.snd kept.snd le lt e2 w in
      let a1 : IsAhead (q + 1) gone.snd t =
        past-IsAhead lo q c.snd gone.snd t le e1 w
          (next-IsAhead lo q i c.snd le lt w.early w.span seq1) in
      let lt2 : q < kept.snd.send_seq = rw e2.made lt in
      let a2 : IsAhead (q + 1) kept.snd next =
        next-IsAhead lo q i kept.snd le lt2 w2.early (rw e2.made w.span) seq2 in
      let freed = loop_ends fuel (q + 1) gone t w1 a1 (omega (arith, e1.made, enough, lt, le)) in
      let passed =
        loop_ends fuel (q + 1) kept next w2 a2 (omega (arith, e2.made, enough, lt, le)) in
      if_both P (ltb_ℤ (pos 24) dist || not p.first_send) (c, true)
        (if is_confirmed b dist
          then apply_loop fuel gone b t now
          else apply_loop fuel kept b next now)
        refl
        (if_both P (is_confirmed b dist) (apply_loop fuel gone b t now)
          (apply_loop fuel kept b next now) freed passed)

  -- In a ring with fewer than 2^24 frames made so far, at most 64 numbers, and each frame in use in
  -- the slot of its number, the loop of ffrdp_apply_acks over the frames ends by itself from any
  -- frame in use: the rounds that the ring has slots, and one more, are enough for any ACKs.
  pub apply_loop_ends :
      (c : Conn) (lo q : ℕ)
      → InWindow lo c.snd
      → lo ≤ q
      → q < c.snd.send_seq
      → (c.snd.slots (q % 64)).used ≡ true
      → (apply_loop (Snd.ring_size + 1) c b (some (q % 64)) now).1 ≡ true
  unfolding IsAhead
  apply_loop_ends c lo q w le lt used =
      loop_ends (Snd.ring_size + 1) lo c (some (q % 64)) w
        (λ i e. (q, le, lt, sym (some-injective (q % 64) i e), used)) (omega (arith, w.span))
