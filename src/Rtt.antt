-- ===== src/Rtt.antt =====
-- ffrdp.c: the round-trip estimate of ffrdp_rtt_sample, the retransmission timeout that
-- ffrdp_apply_acks and ffrdp_tick_conn derive from it, and its idle deadline.
pub mod Bounds
pub mod Smooth
use ffrdp.Base.{ℕ, ◌+◌, ◌-◌, ◌*◌, ◌/◌, ◌%◌, ◌^◌, Bool, ◌&&◌, ◌||◌, not}
use ffrdp.Base.{ltb, leb, ◌==◌, if◌then◌else◌, min_c, max_c, add32, sub32, mul32, sle32, slt32}

-- The fields of FFRDPCONN that the estimate reads and writes.
pub record Rtt : Type 0 where
  pub rttm : ℕ
  pub rtts : ℕ
  pub rttd : ℕ
  pub rto : ℕ
  pub rtt_min : ℕ
  pub rtt_tail : ℕ
  pub rto_floor : ℕ
  pub win_need : ℕ
  pub win_dup : ℕ
  pub tick_win : ℕ
  pub hole_wait : ℕ
  pub tick_rto_backoff : ℕ

abbrev pub min_rto : ℕ
min_rto = 16

abbrev pub max_rto : ℕ
max_rto = 2000

abbrev pub rto_floor_max : ℕ
rto_floor_max = 1000

-- `(uint32_t)-1`: no sample yet.
abbrev pub no_rtt : ℕ
no_rtt = 0xFFFFFFFF

-- `abs((int)a - (int)b)`
unfoldable pub abs_diff : ℕ → ℕ → ℕ
abs_diff a b = let d = sub32 a b in if leb (2 ^ 31) d then 2 ^ 32 - d else d

-- `if (sample > cap) …`: a sample is cut to four times the estimate, and to four times the least
-- round trip, plus 100 ms.
unfoldable pub clamp_sample : Rtt → ℕ → ℕ
clamp_sample c sample =
    if not (c.rtts == no_rtt) && ltb 0 c.rtts
    then (let cap = add32 (mul32 c.rtts 4) 100 in
        let cap_min = add32 (mul32 c.rtt_min 4) 100 in
        let cap2 = if ltb 0 c.rtt_min && ltb cap_min cap then cap_min else cap in
        if ltb cap2 sample then cap2 else sample)
    else sample

unfoldable pub rtt_min_of : Rtt → ℕ → ℕ
rtt_min_of c sample =
    if c.rtt_min == 0 || ltb sample c.rtt_min
    then (if c.rtt_min == 0 || (c.rtts == no_rtt || leb c.rtts (mul32 sample 2))
        then sample
        else c.rtt_min)
    else c.rtt_min

-- ffrdp_rtt_sample past the clamp.
unfoldable pub take_sample : Rtt → ℕ → Rtt
take_sample c sample =
    let c1 = record c { rttm = sample; rtt_min = rtt_min_of c sample } in
    if c.rtts == no_rtt
    then record c1 { rtts = sample; rttd = sample / 2 }
    else (let rtts = add32 (mul32 7 c.rtts) sample / 8 in
        record c1 { rtts = rtts; rttd = add32 (mul32 3 c.rttd) (abs_diff sample rtts) / 4 })

unfoldable pub rtt_sample : Rtt → ℕ → Rtt
rtt_sample c sample = take_sample c (clamp_sample c sample)

-- The estimate as a time: the least timeout before the first sample, and below it.
abbrev pub rtt_or_min : Rtt → ℕ
rtt_or_min c = if c.rtts == no_rtt || ltb c.rtts min_rto then min_rto else c.rtts

-- ffrdp_apply_acks, `if (c->win_need >= FFRDP_WASTE_MIN) { … }`: the share of resends that were not
-- needed sets the wait at a hole and the floor of the timeout.
unfoldable pub judge_waste : Rtt → Rtt
judge_waste c =
    let waste = if c.win_need == 0 then 0 else mul32 c.win_dup 100 / c.win_need in
    let rtt = rtt_or_min c in
    let hole_wait =
      if leb 80 waste then min_c (mul32 3 rtt) 300 else if ltb waste 40 then 0 else rtt in
    let raised = if ltb c.rto_floor c.rto then c.rto else c.rto_floor in
    let rto_floor =
      if leb 80 waste
      then min_c (mul32 raised 5 / 4) rto_floor_max
      else if ltb waste 40
      then 0
      else mul32 c.rto_floor 9 / 10 in
    record c { hole_wait = hole_wait; rto_floor = rto_floor }

-- The window of resends is judged after 128 of them or two seconds.
unfoldable pub close_window : Rtt → ℕ → Rtt
close_window c now =
    if leb 128 c.win_need || sle32 2000 (sub32 now c.tick_win)
    then (let c1 = record c { tick_win = now } in
        let c2 = if leb 16 c1.win_need then judge_waste c1 else c1 in
        let rtt = if c2.rtts == no_rtt then min_rto else max_c c2.rtts 1 in
        let cap = max_c (mul32 4 rtt) min_rto in
        record c2 {
          rto_floor = if ltb cap c2.rto_floor then cap else c2.rto_floor;
          win_need = 0;
          win_dup = 0;
        })
    else c

-- `c->rto = MAX(c->rtts + 4 * c->rttd, c->rto_floor)` and the clamps that follow.
unfoldable pub derive_rto : Rtt → Rtt
derive_rto c =
    let base = max_c (add32 c.rtts (mul32 4 c.rttd)) c.rto_floor in
    let tailed =
      if c.rtt_tail == 0
      then base
      else max_c base (min_c (add32 c.rtt_tail (c.rtt_tail / 4)) max_rto) in
    record c { rto = min_c max_rto (max_c min_rto tailed) }

-- What the ACK of a frame that was sent once does at time `now`.
unfoldable pub ack_sample : Rtt → ℕ → ℕ → Rtt
ack_sample c now tick_1sts = derive_rto (close_window (rtt_sample c (sub32 now tick_1sts)) now)

-- What the ACK of a frame that timed out does: the tail of the confirmation times.
unfoldable pub tail_sample : Rtt → ℕ → ℕ → Rtt
tail_sample c now tick_send =
    let conf = sub32 now tick_send in
    let allow1 = if c.rtt_tail == 0 then 64 else add32 (add32 c.rtt_tail (c.rtt_tail / 2)) 25 in
    let allow = if ltb max_rto allow1 then max_rto else allow1 in
    let conf2 = if ltb allow conf then allow else conf in
    record c { rtt_tail = if ltb c.rtt_tail conf2 then conf2 else c.rtt_tail }

-- ffrdp_tick_conn, on a retransmission timeout: half as long again, once in a timeout.
unfoldable pub backoff : Rtt → ℕ → Rtt
backoff c now =
    if sle32 c.rto (sub32 now c.tick_rto_backoff)
    then record c { tick_rto_backoff = now; rto = min_c (add32 c.rto (c.rto / 2)) max_rto }
    else c

-- ffrdp_idle_deadline: the silence after which a connection is dead.
unfoldable pub idle_deadline : ℕ → ℕ → ℕ
idle_deadline idle_ms rtts =
    let idle = if ltb 0 idle_ms && ltb idle_ms (2 ^ 31) then idle_ms else 5000 in
    let m = min_c (4 * rtts) 60000 in
    if rtts == no_rtt then idle else if ltb idle m then m else idle
