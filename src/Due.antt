-- ===== src/Due.antt =====
-- ffrdp.c, ffrdp_next_due: when the timer of a connection has to run again.
pub mod Soon
mod Tests
use ffrdp.Base.{ℕ, zero, suc, ◌+◌, ◌-◌, ◌*◌, ◌/◌, ◌%◌, ◌^◌, Bool, true, false, not, ◌&&◌, ◌||◌}
use ffrdp.Base.{
  Option, none, some, ltb, leb, ◌==◌, if◌then◌else◌, add32, sub32, mul32, slt32, half32, max_c,
}
use ffrdp.Snd.{snd_head, snd_next}
use ffrdp.Snd
use ffrdp.Rtt.{no_rtt}
use ffrdp.Cap.{limit_of}
use ffrdp.Conn.{Conn}
use ffrdp.Hs.{Ctx, code_of}
use ffrdp.Tick.{query_cycle, flush_idle}

-- `if (!due || (int32_t)(x - due) < 0) due = x;`, where `on` says that there is such a time.
abbrev pub sooner : Bool → ℕ → ℕ → ℕ
sooner on x due = if on && (due == 0 || slt32 (sub32 x due) 0) then x else due

-- The loop over the frames in the congestion window.
unfoldable pub scan : ℕ → Conn → Option ℕ → ℕ → ℕ
scan zero c q due = due
scan (suc fuel) c none due = due
scan (suc fuel) c (some i) due =
    let p = c.snd.slots i in
    scan fuel c (snd_next Snd.ring_size c.snd i) (sooner p.first_send p.tick_timeout due)

-- The time of a tail probe.
unfoldable pub probe_due : Conn → ℕ → ℕ
probe_due c due =
    let quarter = c.rtt.rto / 4 in
    let quiet_at = if c.tick_recv_ack == 0 then 0 else add32 c.tick_recv_ack quarter in
    let head : Option ℕ = if c.inflight_used == 0 then none else snd_head c.snd in
    let later : ℕ = elim head [
      | none ↦ due
      | some i ↦
          (let x = sub32 (c.snd.slots i).tick_timeout quarter in
            sooner true (if slt32 (sub32 x quiet_at) 0 then quiet_at else x) due)
    ] in
    if not c.query_probe
      && (not (c.rtt.rtts == no_rtt) && leb (mul32 4 (add32 c.rtt.rtts 2)) c.rtt.rto)
    then later
    else due

abbrev pub is_filling : Option ℕ → Bool
is_filling none = false
is_filling (some i) = true

abbrev pub handshaking : Conn → Bool
handshaking c = code_of c.hs_state == 1 || (code_of c.hs_state == 2 || code_of c.hs_state == 4)

-- The times that a connection waits for, before the sending loop is asked.
unfoldable pub wait_due : Ctx → Conn → ℕ → ℕ
wait_due x c now =
    let d1 = probe_due c (scan c.cw.cwnd c (snd_head c.snd) 0) in
    let d2 = sooner (is_filling c.snd.cur_new_node) (add32 c.snd.cur_new_tick flush_idle) d1 in
    let d3 = sooner true (add32 c.cap.rate_tick 1000) d2 in
    let d4 = sooner (handshaking c) (add32 c.hs_tick 500) d3 in
    let heard = max_c c.tick_last_recv c.tick_send_query in
    let d5 = sooner (code_of c.hs_state == 3) (add32 heard (half32 x.idle_ms)) d4 in
    let ask = add32 c.tick_send_query query_cycle in
    let asked = not (c.tick_send_query == 0) && c.swnd == 0 in
    let d6 = sooner (asked && slt32 0 (sub32 ask now)) ask d5 in
    let d7 = sooner (not (c.cap.probe_next == 0)) c.cap.probe_next d6 in
    sooner (not (c.pace.pace_due == 0)) c.pace.pace_due d7

-- A frame that was never sent may go at once.
unfoldable pub may_send : Ctx → Conn → ℕ → Bool
may_send x c now =
    let room = ltb c.snd.wait_snd 64 || slt32 c.inflight_used c.cw.cwnd in
    let quiet =
      not (c.tick_recv_ack == 0)
      && (slt32 0 x.idle_ms && slt32 (half32 x.idle_ms) (sub32 now c.tick_recv_ack)) in
    let free = c.tx_stalled == 0 && (c.pace.pace_due == 0 && not quiet) in
    ltb 0 c.snd.tx_unsent
    && (room && (free && (ltb 0 c.swnd && ltb c.inflight_used (limit_of c.cap))))

abbrev pub has_frames : Option ℕ → Bool
has_frames none = false
has_frames (some i) = true

-- The last steps: not in the past, not now unless a frame may go, and soon where frames wait.
unfoldable pub settle_due : Bool → Bool → ℕ → ℕ → ℕ
settle_due armed_now waiting d1 now =
    let d2 = if not armed_now && (not (d1 == 0) && sub32 d1 now == 0) then add32 now 1 else d1 in
    let d3 = if not (d2 == 0) && slt32 (sub32 d2 now) 0 then now else d2 in
    let soon = add32 now 4 in if waiting && (d3 == 0 || slt32 0 (sub32 d3 soon)) then soon else d3

-- ffrdp_next_due at time `now`.
unfoldable pub next_due : Ctx → Conn → ℕ → ℕ
unfolding settle_due
next_due x c now =
    let armed_now = may_send x c now in
    settle_due armed_now (has_frames (snd_head c.snd)) (if armed_now then now else wait_due x c now)
      now
