-- ===== src/System/Lap.antt =====
-- ffrdp.c, ffrdp_tick_conn: a lap of the timer leaves a connection sound.
use ffrdp.Base.{ℕ, zero, suc, ◌+◌, ◌-◌, ◌/◌, ◌≤◌, ◌≡◌, refl, arith, inl, inr}
use ffrdp.Base.{Bool, true, false, not, ◌&&◌, ◌||◌, List, [], ◌∷◌, Option, none, some}
use ffrdp.Base.{ltb, leb, ◌==◌, if◌then◌else◌, if_both, Option-cases, add32, sub32, slt32, u16}
use ffrdp.Slot.{Slot, type_short, type_query}
use ffrdp.Snd.{Snd, snd_head, snd_next, snd_insert, frame_encrypt}
use ffrdp.Snd
use ffrdp.Rcv.{deliver_rounds}
use ffrdp.Congestion.{congestion_control-IsValid, ack_timeout, ack_timeout_missed}
use ffrdp.Rtt.{Rtt, backoff, max_rto}
use ffrdp.Rtt.Bounds.{step, step-IsValid, timed_out}
use ffrdp.Rtt.Bounds as RttBounds
use ffrdp.Pace.{pace_refill, must_wait, wait_frame}
use ffrdp.Cap.{Cap, limit_of, second_over}
use ffrdp.Cap.Bounds.{tick_cap-IsValid}
use ffrdp.Cap.Bounds as CapBounds
use ffrdp.Conn.{Conn}
use ffrdp.Ack.{recvdata_and_sendack}
use ffrdp.Hs.{Io, ll_send}
use ffrdp.Tick.{
  Round, on, out_of, frame_bytes, query_cycle, flush_idle, put_frame, wants_probe, first_sent,
  cut_for, resent, resend_due, try_first, try_again, send_round, send_loop, flush_fill, tick_send,
  tick_ack, tick_limit, tick_work,
}
use ffrdp.System.{IsSound, HasRoom}
use ffrdp.System.Rings.{put_slot-HasRoom, deliver-FitsSlots}
use ffrdp.System.Frames.{with_snd}

with_cap :
    {k k' : Cap}
    → CapBounds.IsValid k
    → k'.cap_kept ≡ k.cap_kept
    → k'.delay_probe_rtt ≡ k.delay_probe_rtt
    → k'.delay_probe_cap ≡ k.delay_probe_cap
    → k'.inflight_max ≡ k.inflight_max
    → CapBounds.IsValid k'
with_cap v a b d e = record {
  kept = ground (arith, v.kept);
  undone = ground (arith, v.undone);
  in_use = omega (arith, v.in_use, e);
}

with_rto :
    {r r' : Rtt}
    → RttBounds.IsValid r
    → r'.rto ≡ r.rto
    → r'.rto_floor ≡ r.rto_floor
    → r'.rtt_tail ≤ r.rtt_tail
    → RttBounds.IsValid r'
with_rto v a b d = record {
  rto_min = omega (arith, v.rto_min, a);
  rto_max = omega (arith, v.rto_max, a);
  floor_max = omega (arith, v.floor_max, b);
  tail_max = omega (arith, v.tail_max, d);
}

first_sent-IsSound : (c : Conn) (i now : ℕ) → IsSound c → IsSound (first_sent c i now)
unfolding first_sent
first_sent-IsSound c i now h = record {
  window = h.window;
  timeout = h.timeout;
  limit = with_cap h.limit refl refl refl refl;
  credit = omega (arith, h.credit);
  filling = record {
    mss_min = h.filling.mss_min;
    mss_max = h.filling.mss_max;
    room = h.filling.room;
  };
  slots = h.slots;
}

cut_for-IsSound : (c : Conn) (p : Slot) → IsSound c → IsSound (cut_for c p)
unfolding cut_for
cut_for-IsSound c p h =
    let pseudo = not p.fast_resend && not (p.ticket == c.counter_ack_recv) in
    record {
      window =
          congestion_control-IsValid c.cw (if pseudo then ack_timeout_missed else ack_timeout)
            h.window;
      timeout = h.timeout;
      limit = h.limit;
      credit = h.credit;
      filling = h.filling;
      slots = h.slots;
    }

resent-IsSound : (c : Conn) (i now : ℕ) → IsSound c → IsSound (resent c i now)
unfolding resent step
resent-IsSound c i now h =
    let p = record (c.snd.slots i) { resent = true; tick_retx = now } in
    let p_rto =
      if c.rtt.rto == max_rto
      then record p { tick_send = now; timeout_resend = false }
      else record p { timeout_resend = true } in
    let p_fast = record p { fast_resend = false; timeout_resend = false } in
    let rtt_rto = record (backoff c.rtt now) { win_need = add32 c.rtt.win_need 1 } in
    let q_rto = record p_rto { tick_timeout = add32 p.tick_timeout rtt_rto.rto } in
    let q_fast = record p_fast { tick_timeout = add32 p.tick_timeout c.rtt.rto } in
    let c_rto = record (put_frame c i q_rto) {
      rtt = rtt_rto;
      cap = record c.cap { counter_resend_rto = add32 c.cap.counter_resend_rto 1 };
      query_probe = false;
    } in
    let c_fast = record (put_frame c i q_fast) {
      rtt = record c.rtt { win_need = add32 c.rtt.win_need 1 };
      cap = record c.cap { counter_resend_fast = add32 c.cap.counter_resend_fast 1 };
    } in
    let v = step-IsValid c.rtt (timed_out now) h.timeout in
    let h_rto : IsSound c_rto = record {
      window = h.window;
      timeout = with_rto v refl refl (omega arith);
      limit = with_cap h.limit refl refl refl refl;
      credit = h.credit;
      filling = put_slot-HasRoom c.snd i q_rto h.filling;
      slots = h.slots;
    } in
    let h_fast : IsSound c_fast = record {
      window = h.window;
      timeout = with_rto h.timeout refl refl (omega arith);
      limit = with_cap h.limit refl refl refl refl;
      credit = h.credit;
      filling = put_slot-HasRoom c.snd i q_fast h.filling;
      slots = h.slots;
    } in
    if_both IsSound p.fast_resend c_fast c_rto h_fast h_rto

module _ (link : ℕ → Bool) where
  try_first-IsSound :
      (c : Conn) (io : Io) (i now : ℕ) → IsSound c → IsSound (try_first link c io i now).conn
  unfolding try_first
  try_first-IsSound c io i now h =
      let P : Round → Type 0 = λ q. IsSound q.conn in
      let (io1, ok) = ll_send link io c.peer_addr (frame_bytes (c.snd.slots i)) in
      let (io2, _) = ll_send link io c.peer_addr (type_query ∷ []) in
      let ask = c.tick_send_query == 0 || slt32 query_cycle (sub32 now c.tick_send_query) in
      let paced = on (record c { pace = wait_frame c.pace now }) io in
      let taken = on (first_sent c i now) io1 in
      let asked = out_of (record c { tick_send_query = now }) io2 in
      let tried = if ok then taken else out_of c io1 in
      let blocked = leb (limit_of c.cap) c.inflight_used in
      let sending = if blocked then out_of c io else tried in
      let waiting = if ask then asked else on c io in
      if_both P (must_wait c.pace) paced (if ltb 0 c.swnd then sending else waiting) h (
        if_both P (ltb 0 c.swnd) sending waiting
          (if_both P blocked (out_of c io) tried h
            (if_both P ok taken (out_of c io1) (first_sent-IsSound c i now h) h))
          (if_both P ask asked (on c io) h h))

  try_again-IsSound :
      (c : Conn) (io : Io) (i now : ℕ) → IsSound c → IsSound (try_again link c io i now).conn
  unfolding try_again
  try_again-IsSound c io i now h =
      let P : Round → Type 0 = λ q. IsSound q.conn in
      let p = c.snd.slots i in
      let c1 = cut_for c p in
      let h1 = cut_for-IsSound c p h in
      let (io1, ok) = ll_send link io c.peer_addr (frame_bytes p) in
      let done = on (resent c1 i now) io1 in
      if_both P (resend_due p now) (if ok then done else out_of c1 io1) (on c io)
        (if_both P ok done (out_of c1 io1) (resent-IsSound c1 i now h1) h1) h

  send_round-IsSound :
      (c : Conn) (io : Io) (i now : ℕ) → IsSound c → IsSound (send_round link c io i now).conn
  unfolding send_round
  send_round-IsSound c io i now h =
      if_both (λ (q : Round). IsSound q.conn) (c.snd.slots i).first_send (try_again link c io i now)
        (try_first link c io i now) (try_again-IsSound c io i now h)
        (try_first-IsSound c io i now h)

  send_loop-IsSound :
      (fuel r : ℕ) (c : Conn) (io : Io) (p : Option ℕ) (now : ℕ)
      → IsSound c
      → IsSound (send_loop link fuel r c io p now).0
  unfolding send_loop
  send_loop-IsSound zero r c io p now h = h
  send_loop-IsSound (suc fuel) r c io none now h = h
  send_loop-IsSound (suc fuel) r c io (some k) now h =
      let P : Conn × (Io × Bool) → Type 0 = λ q. IsSound q.0 in
      let q = send_round link c io k now in
      let h1 = send_round-IsSound c io k now h in
      let next = snd_next Snd.ring_size q.conn.snd k in
      let rest = send_loop link fuel (r + 1) q.conn q.io next now in
      if_both P (leb c.cw.cwnd r) (c, (io, false))
        (if q.stop then (q.conn, (q.io, false)) else rest) h
        (if_both P q.stop (q.conn, (q.io, false)) rest h1
          (send_loop-IsSound fuel (r + 1) q.conn q.io next now h1))

  module _ {S : Type 0} (encrypt : ℕ → List ℕ → List ℕ)
      (app : S → List ℕ → S × (List ℕ × Bool)) where
    flush_fill-IsSound :
        (c : Conn) (now : ℕ) → IsSound c → IsSound (flush_fill link encrypt app c now)
    unfolding flush_fill snd_insert
    flush_fill-IsSound c now h = elim (Option-cases c.snd.cur_new_node) [
      | inl e ↦ rw (flush_fill, e) h
      | inr (i, e) ↦
          (let stale = slt32 flush_idle (sub32 now c.snd.cur_new_tick) || c.flush in
            let p = record (c.snd.slots i) {
              kind = type_short;
              size = u16 (4 + c.snd.cur_new_size);
            } in
            let s1 = snd_insert (Snd.put_slot c.snd i (frame_encrypt encrypt c.snd.send_seq p)) i in
            let s2 = record s1 { cur_new_node = none; cur_new_size = 0 } in
            let room : HasRoom s2 = record {
              mss_min = h.filling.mss_min;
              mss_max = h.filling.mss_max;
              room = h.filling.mss_min;
            } in
            rw (flush_fill, e)
              (if_both IsSound stale (record c { snd = s2 }) c (with_snd s2 h room) h))
    ]

    tick_send-IsSound :
        (c : Conn) (io : Io) (now : ℕ) → IsSound c → IsSound (tick_send link encrypt app c io now).0
    unfolding tick_send
    tick_send-IsSound c io now h =
        let c1 = record (flush_fill link encrypt app c now) { flush = false } in
        let h1 = flush_fill-IsSound c now h in
        let (io2, _) = ll_send link io c1.peer_addr (type_query ∷ []) in
        let probed = record c1 { query_probe = true; tick_send_query = now } in
        let asks = wants_probe c1 now in
        let c2 = if asks then probed else c1 in
        let h2 = if_both IsSound asks probed c1 h1 h1 in
        let filled = pace_refill c2.rtt.rtts c2.rtt.rtt_min c2.cap.inflight_max c2.pace now in
        let c3 = record c2 { pace = filled } in
        send_loop-IsSound 65 0 c3 (if asks then io2 else io) (snd_head c3.snd) now h2

    pub tick_ack-IsSound :
        (c : Conn) (io : Io) (s : S) → IsSound c → IsSound (tick_ack link encrypt app c io s).0
    unfolding tick_ack recvdata_and_sendack
    tick_ack-IsSound c io s h =
        let (r1, (s1, sent)) = recvdata_and_sendack app c.rcv s in
        let (io1, _) = ll_send link io c.peer_addr sent in
        let done : Conn × (Io × S) = (record c { ack_due = false; rcv = r1 }, (io1, s1)) in
        let h1 : IsSound done.0 = record {
          window = h.window;
          timeout = h.timeout;
          limit = h.limit;
          credit = h.credit;
          filling = h.filling;
          slots = deliver-FitsSlots app deliver_rounds c.rcv s h.slots;
        } in
        if_both (λ (q : Conn × (Io × S)). IsSound q.0) c.ack_due done (c, (io, s)) h1 h

    tick_limit-IsSound :
        (c : Conn) (now : ℕ) → IsSound c → IsSound (tick_limit link encrypt app c now)
    unfolding tick_limit
    tick_limit-IsSound c now h =
        let tail = c.rtt.rtt_tail - c.rtt.rtt_tail / 16 in
        record {
          window = h.window;
          timeout =
              if_both RttBounds.IsValid (second_over c.cap now) (record c.rtt { rtt_tail = tail })
                c.rtt (with_rto h.timeout refl refl (omega arith)) h.timeout;
          limit = (tick_cap-IsValid c.cap c.rtt.rtts c.rtt.rtt_min c.inflight_used now h.limit).0;
          credit = h.credit;
          filling = h.filling;
          slots = h.slots;
        }

    pub tick_work-IsSound :
        (c : Conn) (io : Io) (s : S) (now : ℕ)
        → IsSound c
        → IsSound (tick_work link encrypt app c io s now).0
    unfolding tick_work
    tick_work-IsSound c io s now h =
        let (c1, io1) = tick_send link encrypt app c io now in
        let (c2, (io2, s2)) = tick_ack link encrypt app c1 io1 s in
        tick_limit-IsSound c2 now (tick_ack-IsSound c1 io1 s (tick_send-IsSound c io now h))
