-- ===== src/Callback.antt =====
-- ffrdp.c, what the lower layer calls: ffrdp_on_frame, ffrdp_lowlevel_cb and ffrdp_arm_timer.
-- FFRDP_ACK_COALESCE is 1, so a datagram leaves its ACK to the timer.
pub mod Isolation
pub mod Expiry
mod Tests
use ffrdp.Base.{ℕ, zero, suc, ◌+◌, Bool, true, false, not, ◌&&◌, ◌||◌, List, [], ◌∷◌}
use ffrdp.Base.{Option, none, some, length, get_or}
use ffrdp.Base.{ltb, leb, ◌==◌, if◌then◌else◌, sub32, slt32, sle32}
use ffrdp.Slot.{type_ack, type_query, type_handshake}
use ffrdp.Snd.{snd_head}
use ffrdp.Rcv.{Batch, on_data_frame}
use ffrdp.Ack.{on_ack, apply_acks}
use ffrdp.Conn.{Conn, hs_failed}
use ffrdp.Table.{conn_free, conn_by_addr, maxconn_limit}
use ffrdp.Hs.{Ctx, Io, code_of, put_conn, tell, hs_send, hs_rx, syn, syn_ack, fin, ev_disconn}
use ffrdp.Tick.{tick_ack, tick_conn}
use ffrdp.Due.{next_due, handshaking, sooner}

-- ffrdp_on_frame, for a frame of any type.
unfoldable pub on_frame : Conn → List ℕ → Batch → ℕ → Conn × Batch
on_frame c fb b now =
    let (r1, b1) = on_data_frame c.rcv fb b in
    if ltb (length fb) 1
    then (c, b)
    else if get_or fb 0 0 == type_ack
    then on_ack c fb b now
    else if get_or fb 0 0 == type_query
    then (c, record b { got_query = true })
    else (record c { rcv = r1 }, b1)

-- FFRDP_RX_BATCH as it stands before a frame.
unfoldable pub new_batch : Conn → Batch
new_batch c = record {
  recv_una = c.rcv.recv_seq;
  send_una = elim (snd_head c.snd) [ none ↦ 0 | some i ↦ (c.snd.slots i).seq ];
  send_mack = 0;
  got_data = false;
  got_query = false;
}

-- A frame for a connection that takes frames.
unfoldable pub rx_frame : Conn → List ℕ → ℕ → Conn
rx_frame c fb now = let (c1, b1) = on_frame c fb (new_batch c) now in apply_acks c1 b1 now

-- A datagram that is no handshake, for the connection that has its address.
unfoldable pub rx_conn : Ctx → Conn → List ℕ → ℕ → Conn
rx_conn x c fb now =
    let heard = if x.hs_enable then record c { tick_last_recv = now } else c in
    let taken = rx_frame heard fb now in
    if x.hs_enable && not (code_of c.hs_state == 3)
    then heard
    else if not x.is_server || c.connected
    then taken
    else heard

-- A server without the handshake learns its peer from the first datagram.
unfoldable pub learn_peer : Ctx → Conn → ℕ → Ctx
learn_peer x c addr =
    if x.is_server && (not x.hs_enable && not c.connected)
    then put_conn x 0 (record c { connected = true; peer_addr = addr })
    else x

-- The datagram for what the tables give: the connection in a slot and the slot of the address.
abbrev pub for_conn : Ctx → ℕ → List ℕ → ℕ → Option Conn → Ctx
for_conn x i fb now none = x
for_conn x i fb now (some c) = put_conn x i (rx_conn x c fb now)

abbrev pub for_slot : Ctx → List ℕ → ℕ → Option ℕ → Ctx
for_slot x fb now none = x
for_slot x fb now (some i) = for_conn x i fb now (x.table.table i)

unfoldable pub rx_at : Ctx → ℕ → List ℕ → ℕ → Ctx
rx_at x addr fb now = for_slot x fb now (conn_by_addr x.table addr)

module _ (link : ℕ → Bool) where
  -- ffrdp_lowlevel_cb for a datagram of `addr`, where slot 0 holds `c`.
  unfoldable pub rx_main : Ctx → Conn → ℕ → List ℕ → ℕ → Ctx × Bool
  rx_main x c addr fb now =
      let is_handshake = x.hs_enable && (leb 2 (length fb) && get_or fb 0 0 == type_handshake) in
      if ltb (length fb) 1
      then (x, false)
      else if is_handshake
      then (hs_rx link x addr (get_or fb 1 0) now, true)
      else (rx_at (learn_peer x c addr) addr fb now, true)

  -- The same for what slot 0 holds.
  abbrev pub rx_first : Ctx → ℕ → List ℕ → ℕ → Option Conn → Ctx × Bool
  rx_first x addr fb now none = (x, false)
  rx_first x addr fb now (some c) = rx_main x c addr fb now

  -- The same for any context; the flag tells whether it returned 0.
  unfoldable pub lowlevel_rx : Ctx → ℕ → List ℕ → ℕ → Ctx × Bool
  lowlevel_rx x addr fb now =
      if x.closing then (x, false) else rx_first x addr fb now (x.table.table 0)

  -- FFRDP_HS_RETRY_MS
  abbrev pub hs_retry_ms : ℕ
  hs_retry_ms = 500

  -- The handshake frame that a state sends again.
  abbrev pub again : Conn → ℕ
  again c =
      if code_of c.hs_state == 1 then syn else if code_of c.hs_state == 2 then syn_ack else fin

  -- A handshake that is not over: the frame may go again.
  unfoldable pub hs_retry_at : Ctx → ℕ → Conn → ℕ → Ctx × Conn
  hs_retry_at x i c now =
      let (io1, c1) = hs_send link x.io c (again c) now in
      if sle32 hs_retry_ms (sub32 now c.hs_tick)
      then (record (put_conn x i c1) { io = io1 }, c1)
      else (x, c)

  -- A handshake that takes too long.
  unfoldable pub hs_give_up : Ctx → ℕ → Conn → Ctx
  hs_give_up x i c =
      let told = tell link x ev_disconn c.handle c.peer_addr 3 in
      if x.is_server
      then record told { table = conn_free x.table i }
      else put_conn told i (record c { hs_state = hs_failed })

  module _ {S : Type 0} (encrypt : ℕ → List ℕ → List ℕ)
      (app : S → List ℕ → S × (List ℕ × Bool)) where
    -- The work of a connection whose handshake is not at issue.
    unfoldable pub timer_work : Ctx → S → ℕ → Conn → ℕ → Ctx × S
    timer_work x s i c now =
        let d = next_due x c now in
        let (c1, (io1, s1)) = tick_ack link encrypt app c x.io s in
        if c.ack_due && (d == 0 || slt32 0 (sub32 d now))
        then (record (put_conn x i c1) { io = io1 }, s1)
        else tick_conn link encrypt app x s i c now

    -- The timer's round for the connection `c` in slot `i`.
    unfoldable pub timer_conn : Ctx → S → ℕ → Conn → ℕ → Ctx × S
    timer_conn x s i c now =
        let opening = x.hs_enable && handshaking c in
        let (x1, c1) = hs_retry_at x i c now in
        let worked = timer_work x s i c now in
        let worked1 = timer_work x1 s i c1 now in
        if opening
        then (if sle32 x.handshake_ms (sub32 now c.hs_start)
            then (hs_give_up x1 i c1, s)
            else worked1)
        else worked

    abbrev pub timer_slot : Ctx → S → ℕ → ℕ → Option Conn → Ctx × S
    timer_slot x s i now none = (x, s)
    timer_slot x s i now (some c) = timer_conn x s i c now

    -- The loop over the slots, from `i` on with `fuel` slots left.
    unfoldable pub timer_from : ℕ → ℕ → Ctx → S → ℕ → Ctx × S
    timer_from zero i x s now = (x, s)
    timer_from (suc fuel) i x s now =
        let (x1, s1) = timer_slot x s i now (x.table.table i) in
        let rest = timer_from fuel (i + 1) x1 s1 now in if ltb i x.table.nconn then rest else (x, s)

    abbrev pub timer_first : Ctx → S → ℕ → Option Conn → (Ctx × S) × Bool
    timer_first x s now none = ((x, s), false)
    timer_first x s now (some c) = (timer_from maxconn_limit 0 x s now, true)

    -- ffrdp_lowlevel_cb for the timer; the flag tells whether it returned 0.
    unfoldable pub lowlevel_timer : Ctx → S → ℕ → (Ctx × S) × Bool
    lowlevel_timer x s now =
        if x.closing then ((x, s), false) else timer_first x s now (x.table.table 0)

-- The loop of ffrdp_arm_timer, from slot `i` on with `fuel` slots left and `due` the earliest so far.
unfoldable pub arm_from : ℕ → ℕ → Ctx → ℕ → ℕ → ℕ
arm_from zero i x due now = due
arm_from (suc fuel) i x due now =
    let due1 : ℕ = elim (x.table.table i) [
      | none ↦ due
      | some c ↦ sooner true (if c.ack_due then now else next_due x c now) due
    ] in
    let rest = arm_from fuel (i + 1) x due1 now in if ltb i x.table.nconn then rest else due

-- ffrdp_arm_timer: the time it gives to the lower layer.
unfoldable pub arm_timer : Ctx → ℕ → ℕ
arm_timer x now = arm_from maxconn_limit 0 x 0 now
