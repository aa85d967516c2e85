-- ===== src/Tick.antt =====
-- ffrdp.c, the timer of a connection: ffrdp_send_data_frame and ffrdp_tick_conn.
pub mod Limits
mod Tests
use ffrdp.Base.{ℕ, zero, suc, ◌+◌, ◌-◌, ◌*◌, ◌/◌, ◌%◌, ◌^◌, Bool, true, false, not, ◌&&◌, ◌||◌}
use ffrdp.Base.{List, [], ◌∷◌, ◌++◌, Option, none, some, take}
use ffrdp.Base.{ltb, leb, ◌==◌, if◌then◌else◌, add32, sub32, mul32, slt32, sle32, half32, u16}
use ffrdp.Slot.{Slot, type_query, type_short}
use ffrdp.Snd.{Snd, snd_head, snd_next, snd_insert, frame_encrypt}
use ffrdp.Snd
use ffrdp.Rtt.{Rtt, backoff, idle_deadline, no_rtt, max_rto}
use ffrdp.Congestion.{Cwnd, congestion_control, ack_timeout, ack_timeout_missed}
use ffrdp.Pace.{Pace, pace_refill, must_wait, wait_frame, charge_frame}
use ffrdp.Cap.{Cap, limit_of, tick_cap, second_over}
use ffrdp.Ack.{bytes24, recvdata_and_sendack}
use ffrdp.Conn.{Conn, hs_failed}
use ffrdp.Table.{conn_free}
use ffrdp.Hs.{Ctx, Io, ll_send, emit, put_conn, code_of, ev_disconn, longer}

-- The bytes of a frame, as far as its size.
abbrev pub frame_bytes : Slot → List ℕ
frame_bytes p = p.kind ∷ (bytes24 p.seq ++ take (p.size - 4) p.body)

-- FFRDP_QUERY_CYCLE and FFRDP_FLUSH_IDLE.
abbrev pub query_cycle : ℕ
query_cycle = 500

abbrev pub flush_idle : ℕ
flush_idle = 2

abbrev pub put_frame : Conn → ℕ → Slot → Conn
put_frame c i p = record c { snd = Snd.put_slot c.snd i p }

-- A tail probe: the estimate has settled, no probe is out, and the frame at the head is due but for
-- a quarter of the timeout.
unfoldable pub wants_probe : Conn → ℕ → Bool
wants_probe c now =
    let quarter = c.rtt.rto / 4 in
    let quiet = c.tick_send_query == 0 || sle32 quarter (sub32 now c.tick_send_query) in
    let head : Option ℕ = if c.inflight_used == 0 then none else snd_head c.snd in
    let near : Bool = elim head [
      | none ↦ false
      | some i ↦ sle32 0 (sub32 now (sub32 (c.snd.slots i).tick_timeout quarter))
    ] in
    not c.query_probe
    && (not (c.rtt.rtts == no_rtt)
        && (leb (mul32 4 (add32 c.rtt.rtts 2)) c.rtt.rto && (near && quiet)))

-- The bookkeeping of a first transmission that was taken.
unfoldable pub first_sent : Conn → ℕ → ℕ → Conn
first_sent c i now =
    let p = c.snd.slots i in
    let p1 = record p {
      tick_1sts = now;
      tick_send = now;
      ticket = c.counter_ack_recv;
      tick_timeout = add32 now c.rtt.rto;
      first_send = true;
    } in
    let s1 = Snd.put_slot c.snd i p1 in
    record c {
      snd = record s1 { tx_unsent = if c.snd.tx_unsent == 0 then 0 else c.snd.tx_unsent - 1 };
      swnd = c.swnd - 1;
      cap = record c.cap { counter_send_1sttime = add32 c.cap.counter_send_1sttime 1 };
      inflight_used = add32 c.inflight_used 1;
      pace = charge_frame c.pace;
    }

-- A frame is due for a resend: a hole was reported, or its timeout is over.
unfoldable pub resend_due : Slot → ℕ → Bool
resend_due p now = slt32 0 (sub32 now p.tick_timeout) || p.fast_resend

-- The window before a resend, and the rest of the bookkeeping after one that was taken.
unfoldable pub cut_for : Conn → Slot → Conn
cut_for c p =
    let pseudo = not p.fast_resend && not (p.ticket == c.counter_ack_recv) in
    record c { cw = congestion_control c.cw (if pseudo then ack_timeout_missed else ack_timeout) }

unfoldable pub resent : Conn → ℕ → ℕ → Conn
resent c i now =
    let p = record (c.snd.slots i) { resent = true; tick_retx = now } in
    let at_max = c.rtt.rto == max_rto in
    let p_rto =
      if at_max
      then record p { tick_send = now; timeout_resend = false }
      else record p { timeout_resend = true } in
    let p_fast = record p { fast_resend = false; timeout_resend = false } in
    let rtt_rto = record (backoff c.rtt now) { win_need = add32 c.rtt.win_need 1 } in
    let c_rto =
      record (put_frame c i (record p_rto { tick_timeout = add32 p.tick_timeout rtt_rto.rto })) {
        rtt = rtt_rto;
        cap = record c.cap { counter_resend_rto = add32 c.cap.counter_resend_rto 1 };
        query_probe = false;
      } in
    let c_fast =
      record (put_frame c i (record p_fast { tick_timeout = add32 p.tick_timeout c.rtt.rto })) {
        rtt = record c.rtt { win_need = add32 c.rtt.win_need 1 };
        cap = record c.cap { counter_resend_fast = add32 c.cap.counter_resend_fast 1 };
      } in
    if p.fast_resend then c_fast else c_rto

-- What a round of the sending loop decides: on to the next frame, or out of the loop.
pub record Round : Type 0 where
  pub conn : Conn
  pub io : Io
  pub stop : Bool

abbrev pub on : Conn → Io → Round
on c io = record { conn = c; io = io; stop = false }

abbrev pub out_of : Conn → Io → Round
out_of c io = record { conn = c; io = io; stop = true }

-- `counter_send_1sttime + counter_resend_rto + counter_resend_fast`
abbrev pub sent_sum : Cap → ℕ
sent_sum k = add32 (add32 k.counter_send_1sttime k.counter_resend_rto) k.counter_resend_fast

module _ (link : ℕ → Bool) where
  -- A frame that was never sent.
  unfoldable pub try_first : Conn → Io → ℕ → ℕ → Round
  try_first c io i now =
      let p = c.snd.slots i in
      let (io1, ok) = ll_send link io c.peer_addr (frame_bytes p) in
      let (io2, _) = ll_send link io c.peer_addr (type_query ∷ []) in
      let ask = c.tick_send_query == 0 || slt32 query_cycle (sub32 now c.tick_send_query) in
      if must_wait c.pace
      then on (record c { pace = wait_frame c.pace now }) io
      else if ltb 0 c.swnd
      then (if leb (limit_of c.cap) c.inflight_used
          then out_of c io
          else if ok
          then on (first_sent c i now) io1
          else out_of c io1)
      else if ask
      then out_of (record c { tick_send_query = now }) io2
      else on c io

  -- A frame that is on its way.
  unfoldable pub try_again : Conn → Io → ℕ → ℕ → Round
  try_again c io i now =
      let p = c.snd.slots i in
      let c1 = cut_for c p in
      let (io1, ok) = ll_send link io c.peer_addr (frame_bytes p) in
      if resend_due p now then (if ok then on (resent c1 i now) io1 else out_of c1 io1) else on c io

  unfoldable pub send_round : Conn → Io → ℕ → ℕ → Round
  send_round c io i now =
      if (c.snd.slots i).first_send then try_again c io i now else try_first c io i now

  -- The sending loop, with `rounds` rounds left under the congestion window. The loop reads `cwnd`
  -- anew each round, as a resend changes it, so `i` counts the rounds made. The last part of the
  -- result tells whether `p` is NULL at the end.
  unfoldable pub send_loop : ℕ → ℕ → Conn → Io → Option ℕ → ℕ → Conn × (Io × Bool)
  send_loop zero i c io p now = (c, (io, false))
  send_loop (suc fuel) i c io none now = (c, (io, true))
  send_loop (suc fuel) i c io (some k) now =
      let r = send_round c io k now in
      let next = snd_next Snd.ring_size r.conn.snd k in
      let rest = send_loop fuel (i + 1) r.conn r.io next now in
      if leb c.cw.cwnd i then (c, (io, false)) else if r.stop then (r.conn, (r.io, false)) else rest

  module _ {S : Type 0} (encrypt : ℕ → List ℕ → List ℕ)
      (app : S → List ℕ → S × (List ℕ × Bool)) where
    -- The frame that is being filled goes out as a SHORT frame, where the application has stopped or
    -- asks for it.
    unfoldable pub flush_fill : Conn → ℕ → Conn
    flush_fill c now =
        let stale = slt32 flush_idle (sub32 now c.snd.cur_new_tick) || c.flush in
        elim c.snd.cur_new_node [
          | none ↦ c
          | some i ↦
              (let p = record (c.snd.slots i) {
                kind = type_short;
                size = u16 (4 + c.snd.cur_new_size);
              } in
                let s1 =
                  snd_insert (Snd.put_slot c.snd i (frame_encrypt encrypt c.snd.send_seq p)) i in
                if stale
                then record c { snd = record s1 { cur_new_node = none; cur_new_size = 0 } }
                else c)
        ]

    -- The part of ffrdp_tick_conn that sends.
    unfoldable pub tick_send : Conn → Io → ℕ → Conn × Io
    tick_send c io now =
        let c1 = record (flush_fill c now) { flush = false } in
        let (io2, _) = ll_send link io c1.peer_addr (type_query ∷ []) in
        let probed = record c1 { query_probe = true; tick_send_query = now } in
        let asks = wants_probe c1 now in
        let c2 = if asks then probed else c1 in
        let filled = pace_refill c2.rtt.rtts c2.rtt.rtt_min c2.cap.inflight_max c2.pace now in
        let c3 = record c2 { pace = filled } in
        let (c4, (io4, over)) =
          send_loop 65 0 c3 (if asks then io2 else io) (snd_head c3.snd) now in
        let d = sub32 (sent_sum c4.cap) (sent_sum c3.cap) in
        let stalled = if d == 0 && not over then 1 else if ltb 0 d then 0 else c4.tx_stalled in
        (record c4 { tx_stalled = stalled }, io4)

    -- The ACK that is due.
    unfoldable pub tick_ack : Conn → Io → S → Conn × (Io × S)
    tick_ack c io s =
        let (r1, (s1, sent)) = recvdata_and_sendack app c.rcv s in
        let (io1, _) = ll_send link io c.peer_addr sent in
        if c.ack_due then (record c { ack_due = false; rcv = r1 }, (io1, s1)) else (c, (io, s))

    -- The limit of frames in flight, and the tail of the confirmation times, which loses a sixteenth
    -- each second.
    unfoldable pub tick_limit : Conn → ℕ → Conn
    tick_limit c now =
        let tail = c.rtt.rtt_tail - c.rtt.rtt_tail / 16 in
        record c {
          cap = tick_cap c.cap c.rtt.rtts c.rtt.rtt_min c.inflight_used now;
          rtt = if second_over c.cap now then record c.rtt { rtt_tail = tail } else c.rtt;
        }

    -- ffrdp_tick_conn after the keepalive.
    unfoldable pub tick_work : Conn → Io → S → ℕ → Conn × (Io × S)
    tick_work c io s now =
        let (c1, io1) = tick_send c io now in
        let (c2, (io2, s2)) = tick_ack c1 io1 s in (tick_limit c2 now, (io2, s2))

    -- ffrdp_tick_conn for the connection `c` in slot `i`.
    unfoldable pub tick_conn : Ctx → S → ℕ → Conn → ℕ → Ctx × S
    tick_conn x s i c now =
        let silent = sub32 now c.tick_last_recv in
        let idle = idle_deadline x.idle_ms c.rtt.rtts in
        let watched = x.hs_enable && code_of c.hs_state == 3 in
        let x1 = put_conn x i (record c { hs_state = hs_failed }) in
        let dead = record x1 { io = emit x.io ev_disconn c.handle c.peer_addr 2 } in
        let quiet =
          c.tick_send_query == 0 || sle32 (half32 x.idle_ms) (sub32 now c.tick_send_query) in
        let asks = watched && (sle32 (idle / 2) silent && quiet) in
        let (io2, _) = ll_send link x.io c.peer_addr (type_query ∷ []) in
        let c2 = if asks then record c { tick_send_query = now } else c in
        let (c3, (io3, s3)) = tick_work c2 (if asks then io2 else x.io) s now in
        if watched && sle32 idle silent
        then (if i == 0 then dead else record dead { table = conn_free dead.table i }, s)
        else (record (put_conn x i c3) { io = io3 }, s3)
