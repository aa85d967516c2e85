-- ===== src/System/Frames.antt =====
-- ffrdp.c, ffrdp_on_frame and ffrdp_apply_acks: a frame leaves a connection sound, whatever its
-- bytes are.
use ffrdp.Base.{Bool}
use ffrdp.Base.{ℕ, zero, suc, ◌+◌, ◌*◌, ◌/◌, ◌^◌, arith, inl, inr}
use ffrdp.Base.{true, false, not, ◌&&◌, ◌||◌, List, Option, none, some, length, get_or, bit_or}
use ffrdp.Base.{ltb, leb, ◌==◌, if◌then◌else◌, if_both, Option-cases, add32, sub32, sle32}
use ffrdp.Base.Int.{pos, ltb_ℤ, leb_ℤ, pos_part}
use ffrdp.Seq.{seq_distance}
use ffrdp.Slot.{type_ack, type_query}
use ffrdp.Snd.{Snd, snd_head, snd_next, snd_release}
use ffrdp.Snd
use ffrdp.Rcv.{Rcv, Batch, on_data_frame}
use ffrdp.Cap.{Cap}
use ffrdp.Congestion.{Cwnd, congestion_control, congestion_control-IsValid, ack_ok, fast_resend}
use ffrdp.Rtt.{Rtt, ack_sample, tail_sample}
use ffrdp.Rtt.Bounds.{step, step-IsValid, acked, tail_acked}
use ffrdp.Rtt.Bounds as RttBounds
use ffrdp.Cap.Bounds as CapBounds
use ffrdp.Conn.{Conn}
use ffrdp.Ack.{
  read24, probe_answer, on_ack, confirm, cut_hole, max_ack, is_confirmed, apply_loop, apply_acks,
  max_waitsnd,
}
use ffrdp.Hs.{Ctx, code_of}
use ffrdp.Callback.{on_frame, new_batch, rx_frame, rx_conn}
use ffrdp.System.{Sound, IsSound, HasRoom}
use ffrdp.System.Rings.{put_slot-HasRoom, snd_release-HasRoom, on_data_frame-FitsSlots}

pub with_snd :
    {cw : Cwnd} {rtt : Rtt} {k : Cap} {w : ℕ} {s : Snd} {r : Rcv} (t : Snd)
    → Sound cw rtt k w s r
    → HasRoom t
    → Sound cw rtt k w t r
with_snd t h room = record {
  window = h.window;
  timeout = h.timeout;
  limit = h.limit;
  credit = h.credit;
  filling = room;
  slots = h.slots;
}

win_dup-IsValid :
    (c : Rtt) (n : ℕ) → RttBounds.IsValid c → RttBounds.IsValid (record c { win_dup = n })
win_dup-IsValid c n v = record {
  rto_min = v.rto_min;
  rto_max = v.rto_max;
  floor_max = v.floor_max;
  tail_max = v.tail_max;
}

delivered-IsValid :
    (k : Cap) (n : ℕ) → CapBounds.IsValid k → CapBounds.IsValid (record k { counter_delivered = n })
delivered-IsValid k n v = record { kept = v.kept; undone = v.undone; in_use = v.in_use }

probe_answer-IsSound : (c : Conn) (una now : ℕ) → IsSound c → IsSound (probe_answer c una now)
unfolding probe_answer
probe_answer-IsSound c una now h =
    let c1 = record c { query_probe = false } in
    let head : Option ℕ = if c.inflight_used == 0 then none else snd_head c.snd in
    elim (Option-cases head) [
      | inl e ↦ rw (probe_answer, e) (if_both IsSound c.query_probe c1 c h h)
      | inr (i, e) ↦
          (let u = c.snd.slots i in
            let late = Snd.put_slot c.snd i (record u { tick_timeout = now }) in
            let asked = record c1 { snd = late } in
            let near = leb_ℤ (seq_distance una u.seq) (pos 0) in
            rw (probe_answer, e)
              (if_both IsSound c.query_probe (if near then asked else c1) c
                (if_both IsSound near asked c1
                  (with_snd late h
                    (put_slot-HasRoom c.snd i (record u { tick_timeout = now }) h.filling))
                  h)
                h))
    ]

on_ack-IsSound :
    (c : Conn) (fb : List ℕ) (b : Batch) (now : ℕ) → IsSound c → IsSound (on_ack c fb b now).0
unfolding on_ack
on_ack-IsSound c fb b now h =
    let una = read24 fb 1 in
    let mack = read24 fb 4 in
    let told = if leb 9 (length fb) then get_or fb 8 0 else 0 in
    let c1 = record c {
      counter_ack_recv = add32 c.counter_ack_recv 1;
      rtt = record c.rtt { win_dup = add32 c.rtt.win_dup told };
      ack_una = una;
    } in
    let h1 : IsSound c1 = record {
      window = h.window;
      timeout = win_dup-IsValid c.rtt (add32 c.rtt.win_dup told) h.timeout;
      limit = h.limit;
      credit = h.credit;
      filling = h.filling;
      slots = h.slots;
    } in
    let c2 = probe_answer c1 una now in
    let h2 = probe_answer-IsSound c1 una now h1 in
    let dist = seq_distance una b.send_una in
    let wnd = get_or fb 7 0 + (if leb 10 (length fb) then get_or fb 9 0 * 4 else 0) in
    let swnd = if ltb max_waitsnd wnd then max_waitsnd else wnd in
    let news : Conn × Batch = (
      record c2 { swnd = swnd; tick_recv_ack = now },
      record b { send_una = una; send_mack = bit_or (b.send_mack / 2 ^ pos_part dist) mack },
    ) in
    let h3 : IsSound news.0 = record {
      window = h2.window;
      timeout = h2.timeout;
      limit = h2.limit;
      credit = ground arith;
      filling = h2.filling;
      slots = h2.slots;
    } in
    let P : Conn × Batch → Type 0 = λ q. IsSound q.0 in
    if_both P (ltb (length fb) 8) (c, b) (if leb_ℤ (pos 0) dist then news else (c2, b)) h
      (if_both P (leb_ℤ (pos 0) dist) news (c2, b) h3 h2)

confirm-IsSound : (c : Conn) (i now : ℕ) → IsSound c → IsSound (confirm c i now)
unfolding confirm step
confirm-IsSound c i now h =
    let p = c.snd.slots i in
    let once = not (p.timeout_resend || p.resent) && p.tick_send == p.tick_1sts in
    let rtt1 = if once then ack_sample c.rtt now p.tick_1sts else c.rtt in
    let v1 =
      if_both RttBounds.IsValid once (ack_sample c.rtt now p.tick_1sts) c.rtt
        (step-IsValid c.rtt (acked now p.tick_1sts) h.timeout) h.timeout in
    record {
      window = congestion_control-IsValid c.cw ack_ok h.window;
      timeout =
          if_both RttBounds.IsValid p.timeout_resend (tail_sample rtt1 now p.tick_send) rtt1
            (step-IsValid rtt1 (tail_acked now p.tick_send) v1) v1;
      limit = delivered-IsValid c.cap (add32 c.cap.counter_delivered 1) h.limit;
      credit = h.credit;
      filling = snd_release-HasRoom c.snd i h.filling;
      slots = h.slots;
    }

cut_hole-IsSound : (c : Conn) (i now : ℕ) → IsSound c → IsSound (cut_hole c i now)
unfolding cut_hole
cut_hole-IsSound c i now h =
    let p = c.snd.slots i in
    let due = sle32 c.rtt.hole_wait (sub32 now p.tick_send) && not p.fast_resend in
    let cut = record c {
      cw = congestion_control c.cw fast_resend;
      snd = Snd.put_slot c.snd i (record p { fast_resend = true });
    } in
    let h1 : IsSound cut = record {
      window = congestion_control-IsValid c.cw fast_resend h.window;
      timeout = h.timeout;
      limit = h.limit;
      credit = h.credit;
      filling = put_slot-HasRoom c.snd i (record p { fast_resend = true }) h.filling;
      slots = h.slots;
    } in
    if_both IsSound due cut c h1 h

apply_loop-IsSound :
    (fuel : ℕ) (c : Conn) (b : Batch) (p : Option ℕ) (now : ℕ)
    → IsSound c
    → IsSound (apply_loop fuel c b p now).0
unfolding apply_loop
apply_loop-IsSound zero c b p now h = h
apply_loop-IsSound (suc fuel) c b none now h = h
apply_loop-IsSound (suc fuel) c b (some i) now h =
    let p = c.snd.slots i in
    let dist = seq_distance p.seq b.send_una in
    let t = snd_next Snd.ring_size c.snd i in
    let done = confirm c i now in
    let freed = apply_loop fuel done b t now in
    let hole = ltb_ℤ (pos 0) (seq_distance (max_ack 24 b) p.seq) in
    let kept = if hole then cut_hole c i now else c in
    let next = snd_next Snd.ring_size kept.snd i in
    let passed = apply_loop fuel kept b next now in
    let h1 = apply_loop-IsSound fuel done b t now (confirm-IsSound c i now h) in
    let h2 =
      apply_loop-IsSound fuel kept b next now
        (if_both IsSound hole (cut_hole c i now) c (cut_hole-IsSound c i now h) h) in
    let P : Conn × Bool → Type 0 = λ q. IsSound q.0 in
    if_both P (ltb_ℤ (pos 24) dist || not p.first_send) (c, true)
      (if is_confirmed b dist then freed else passed) h
      (if_both P (is_confirmed b dist) freed passed h1 h2)

apply_acks-IsSound : (c : Conn) (b : Batch) (now : ℕ) → IsSound c → IsSound (apply_acks c b now)
unfolding apply_acks
apply_acks-IsSound c b now h =
    let c1 = record c { ack_due = c.ack_due || (b.got_data || b.got_query) } in
    elim (Option-cases (snd_head c1.snd)) [
      | inl e ↦ rw (apply_acks, e) h
      | inr (i, e) ↦
          rw (apply_acks, e)
            (if_both IsSound (leb_ℤ (pos 0) (seq_distance b.send_una (c1.snd.slots i).seq))
              (apply_loop (Snd.ring_size + 1) c1 b (some i) now).0 c1
              (apply_loop-IsSound (Snd.ring_size + 1) c1 b (some i) now h) h)
    ]

on_frame-IsSound :
    (c : Conn) (fb : List ℕ) (b : Batch) (now : ℕ) → IsSound c → IsSound (on_frame c fb b now).0
unfolding on_frame
on_frame-IsSound c fb b now h =
    let (r1, b1) = on_data_frame c.rcv fb b in
    let kept : Conn × Batch = (record c { rcv = r1 }, b1) in
    let h1 : IsSound kept.0 = record {
      window = h.window;
      timeout = h.timeout;
      limit = h.limit;
      credit = h.credit;
      filling = h.filling;
      slots = on_data_frame-FitsSlots c.rcv fb b h.slots;
    } in
    let asked : Conn × Batch = (c, record b { got_query = true }) in
    let rest : Conn × Batch = if get_or fb 0 0 == type_query then asked else kept in
    let P : Conn × Batch → Type 0 = λ q. IsSound q.0 in
    if_both P (ltb (length fb) 1) (c, b)
      (if get_or fb 0 0 == type_ack then on_ack c fb b now else rest) h
      (if_both P (get_or fb 0 0 == type_ack) (on_ack c fb b now) rest (on_ack-IsSound c fb b now h)
        (if_both P (get_or fb 0 0 == type_query) asked kept h h1))

pub rx_conn-IsSound :
    (x : Ctx) (c : Conn) (fb : List ℕ) (now : ℕ) → IsSound c → IsSound (rx_conn x c fb now)
unfolding rx_conn rx_frame
rx_conn-IsSound x c fb now h =
    let heard = if x.hs_enable then record c { tick_last_recv = now } else c in
    let h0 = if_both IsSound x.hs_enable (record c { tick_last_recv = now }) c h h in
    let (c1, b1) = on_frame heard fb (new_batch heard) now in
    let taken = rx_frame heard fb now in
    let h1 = apply_acks-IsSound c1 b1 now (on_frame-IsSound heard fb (new_batch heard) now h0) in
    let early = x.hs_enable && not (code_of c.hs_state == 3) in
    if_both IsSound early heard (if not x.is_server || c.connected then taken else heard) h0
      (if_both IsSound (not x.is_server || c.connected) taken heard h1 h0)
