-- ===== src/Ack.antt =====
-- ffrdp.c, acknowledgements: the ACK frame that ffrdp_recvdata_and_sendack makes, ffrdp_on_ack, which
-- reads one, and ffrdp_apply_acks, which frees the frames that are confirmed.
pub mod Wire
pub mod Keep
pub mod Rounds
mod Tests
use ffrdp.Base.{ℕ, zero, suc, ◌+◌, ◌-◌, ◌*◌, ◌/◌, ◌%◌, ◌^◌, Bool, true, false, not, ◌&&◌, ◌||◌}
use ffrdp.Base.{List, [], ◌∷◌, ◌++◌, Option, none, some, length, get_or, bit_or}
use ffrdp.Base.{ltb, leb, ◌==◌, if◌then◌else◌, min_c, add32, sub32, u8, u24, u32, sle32}
use ffrdp.Base.Int.{ℤ, pos, negsuc, ◌-ℤ◌, ltb_ℤ, leb_ℤ, pos_part}
use ffrdp.Seq.{seq_distance}
use ffrdp.Slot.{Slot, type_ack}
use ffrdp.Snd.{Snd, snd_head, snd_next, snd_release}
use ffrdp.Snd
use ffrdp.Rcv.{Rcv, Batch, deliver, deliver_rounds, rcv_slot, queue_max}
use ffrdp.Rtt.{Rtt, ack_sample, tail_sample}
use ffrdp.Congestion.{Cwnd, Event, congestion_control, ack_ok, fast_resend}
use ffrdp.Conn.{Conn}

-- `x & (1 << i)`
abbrev pub bit_at : ℕ → ℕ → Bool
bit_at x i = x / 2 ^ i % 2 == 1

-- The frame `recv_seq + i` is in the ring.
unfoldable pub is_held : Rcv → ℕ → Bool
is_held r i = let q = rcv_slot r (r.recv_seq + i) in q.used && q.seq == u24 (r.recv_seq + i)

-- The loop that sets bit i - 1 of `recv_mack` for i from 1 on; the bits are disjoint, so `|=` adds.
unfoldable pub recv_mack : Rcv → ℕ → ℕ
unfolding is_held
recv_mack r zero = 0
recv_mack r (suc i) = recv_mack r i + (if is_held r (suc i) then 2 ^ i else 0)

-- The window that is announced: FFRDP_RCV_FRAME_RING - rcv_live, at least 0 and at most
-- FFRDP_RX_WINDOW_FRAMES.
unfoldable pub recv_wnd : Rcv → ℕ
recv_wnd r =
    let free = if r.rcv_ring then 64 - r.rcv_live else 64 in
    if ltb queue_max free then queue_max else free

-- Three bytes, lowest first.
abbrev pub bytes24 : ℕ → List ℕ
bytes24 x = u8 x ∷ u8 (x / 256) ∷ u8 (x / 65536) ∷ []

-- The bytes of the ACK frame.
unfoldable pub ack_bytes : Rcv → List ℕ
unfolding recv_mack recv_wnd
ack_bytes r =
    let wnd = recv_wnd r in
    let ext = if ltb 255 wnd then min_c ((wnd - 255) / 4) 255 else 0 in
    let head =
      (type_ack ∷ bytes24 r.recv_seq) ++ (bytes24 (recv_mack r 24) ++ (min_c wnd 255 ∷ [])) in
    if not (ext == 0)
    then head ++ (min_c r.dup_seen 255 ∷ ext ∷ [])
    else if not (r.dup_seen == 0)
    then head ++ (min_c r.dup_seen 255 ∷ [])
    else head

-- ffrdp_recvdata_and_sendack: the ring and the application's state afterwards, and the ACK frame
-- that is sent.
unfoldable pub recvdata_and_sendack :
    {S : Type 0} → (S → List ℕ → S × (List ℕ × Bool)) → Rcv → S → Rcv × (S × List ℕ)
unfolding recv_wnd ack_bytes
recvdata_and_sendack app r s =
    let (r1, s1) = deliver app deliver_rounds r s in
    (record r1 { rx_wnd_zero = recv_wnd r1 == 0; dup_seen = 0 }, (s1, ack_bytes r1))

-- FFRDP_MAX_WAITSND
abbrev pub max_waitsnd : ℕ
max_waitsnd = 64

-- The number in bytes `i` to `i + 2`, lowest first.
abbrev pub read24 : List ℕ → ℕ → ℕ
read24 bytes i = get_or bytes i 0 + 256 * get_or bytes (i + 1) 0 + 65536 * get_or bytes (i + 2) 0

-- The answer to a probe: a frame that the peer still lacks is due at once.
unfoldable pub probe_answer : Conn → ℕ → ℕ → Conn
unfolding snd_head
probe_answer c una now =
    let c1 = record c { query_probe = false } in
    let head : Option ℕ = if c.inflight_used == 0 then none else snd_head c.snd in
    let due : Conn = elim head [
      | none ↦ c1
      | some i ↦
          (let u = c.snd.slots i in
            let late = Snd.put_slot c.snd i (record u { tick_timeout = now }) in
            if leb_ℤ (seq_distance una u.seq) (pos 0) then record c1 { snd = late } else c1)
    ] in
    if c.query_probe then due else c

-- ffrdp_on_ack at time `now`.
unfoldable pub on_ack : Conn → List ℕ → Batch → ℕ → Conn × Batch
unfolding probe_answer
on_ack c bytes b now =
    let una = read24 bytes 1 in
    let mack = read24 bytes 4 in
    let told = if leb 9 (length bytes) then get_or bytes 8 0 else 0 in
    let c1 = record c {
      counter_ack_recv = add32 c.counter_ack_recv 1;
      rtt = record c.rtt { win_dup = add32 c.rtt.win_dup told };
      ack_una = una;
    } in
    let c2 = probe_answer c1 una now in
    let dist = seq_distance una b.send_una in
    let wnd = get_or bytes 7 0 + (if leb 10 (length bytes) then get_or bytes 9 0 * 4 else 0) in
    if ltb (length bytes) 8
    then (c, b)
    else if leb_ℤ (pos 0) dist
    then (
      record c2 { swnd = if ltb max_waitsnd wnd then max_waitsnd else wnd; tick_recv_ack = now },
      record b { send_una = una; send_mack = bit_or (b.send_mack / 2 ^ pos_part dist) mack },
    )
    else (c2, b)

-- The last number that the ACK names: the top bit of the mask, or the one before `send_una`; the
-- loop looks at the bits below `i`.
unfoldable pub max_ack : ℕ → Batch → ℕ
max_ack zero b = u24 (sub32 b.send_una 1)
max_ack (suc i) b =
    let below = max_ack i b in if bit_at b.send_mack i then u24 (b.send_una + i + 1) else below

-- The ACK confirms a frame at distance `dist` of `send_una`.
unfoldable pub is_confirmed : Batch → ℤ → Bool
is_confirmed b dist =
    ltb_ℤ dist (pos 0) || (ltb_ℤ (pos 0) dist && bit_at b.send_mack (pos_part (dist -ℤ pos 1)))

-- What the ACK of the frame in slot `i` does at time `now`: the timing, then the slot is free.
unfoldable pub confirm : Conn → ℕ → ℕ → Conn
confirm c i now =
    let p = c.snd.slots i in
    let once = not (p.timeout_resend || p.resent) && p.tick_send == p.tick_1sts in
    let rtt1 = if once then ack_sample c.rtt now p.tick_1sts else c.rtt in
    let rtt2 = if p.timeout_resend then tail_sample rtt1 now p.tick_send else rtt1 in
    record c {
      tx_stalled = 0;
      cw = congestion_control c.cw ack_ok;
      rtt = rtt2;
      inflight_used = if c.inflight_used == 0 then 0 else c.inflight_used - 1;
      cap = record c.cap { counter_delivered = add32 c.cap.counter_delivered 1 };
      snd = snd_release c.snd i;
    }

-- A frame before the last one that the ACK names is missing: the window is cut once for it, as
-- FFRDP_HOLE_CUT_ONCE is 1.
unfoldable pub cut_hole : Conn → ℕ → ℕ → Conn
cut_hole c i now =
    let p = c.snd.slots i in
    if sle32 c.rtt.hole_wait (sub32 now p.tick_send) && not p.fast_resend
    then record c {
      cw = congestion_control c.cw fast_resend;
      snd = Snd.put_slot c.snd i (record p { fast_resend = true });
    }
    else c

-- The `for (; p;)` of ffrdp_apply_acks from slot `p` on, with a bound on its rounds; the flag tells
-- whether it ended by itself.
unfoldable pub apply_loop : ℕ → Conn → Batch → Option ℕ → ℕ → Conn × Bool
unfolding max_ack is_confirmed confirm cut_hole
apply_loop zero c b p now = (c, false)
apply_loop (suc fuel) c b none now = (c, true)
apply_loop (suc fuel) c b (some i) now =
    let p = c.snd.slots i in
    let dist = seq_distance p.seq b.send_una in
    let t = snd_next Snd.ring_size c.snd i in
    let freed = apply_loop fuel (confirm c i now) b t now in
    let kept = if ltb_ℤ (pos 0) (seq_distance (max_ack 24 b) p.seq) then cut_hole c i now else c in
    let passed = apply_loop fuel kept b (snd_next Snd.ring_size kept.snd i) now in
    if ltb_ℤ (pos 24) dist || not p.first_send
    then (c, true)
    else if is_confirmed b dist
    then freed
    else passed

-- ffrdp_apply_acks. While the numbers fit 24 bits a frame is looked at once, so that the ring bounds
-- the rounds; beyond them the loop need not end, and here it is left after as many.
unfoldable pub apply_acks : Conn → Batch → ℕ → Conn
unfolding apply_loop
apply_acks c b now =
    let c1 = record c { ack_due = c.ack_due || (b.got_data || b.got_query) } in
    elim (snd_head c1.snd) [
      | none ↦ c1
      | some i ↦
          (if leb_ℤ (pos 0) (seq_distance b.send_una (c1.snd.slots i).seq)
            then (apply_loop (Snd.ring_size + 1) c1 b (some i) now).0
            else c1)
    ]
