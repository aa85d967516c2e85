-- ===== src/Cap.antt =====
-- ffrdp.c, ffrdp_tick_conn: the limit of frames in flight and how it adapts (FFRDP_CAP_ADAPTIVE is 1,
-- so the older probes never start, and `probe_state` stays 0).
pub mod Bounds
mod Tests
use ffrdp.Base.{ℕ, ◌+◌, ◌-◌, ◌*◌, ◌/◌, ◌%◌, ◌^◌, Bool, true, false, not, ◌&&◌, ◌||◌}
use ffrdp.Base.{ltb, leb, ◌==◌, if◌then◌else◌, min_c, max_c, add32, sub32, mul32, u32, sle32, slt32}

pub record Cap : Type 0 where
  pub cap_kept : ℕ
  pub inflight_max : ℕ
  pub counter_send_1sttime : ℕ
  pub counter_resend_rto : ℕ
  pub counter_resend_fast : ℕ
  pub counter_delivered : ℕ
  pub rate_tick : ℕ
  pub rate_del_ref : ℕ
  pub rate_now : ℕ
  pub probe_next : ℕ
  pub adapt_tick : ℕ
  pub adapt_res_seen : ℕ
  pub adapt_first_seen : ℕ
  pub adapt_ema : ℕ
  pub adapt_quiet : ℕ
  pub delay_probe_rtt : ℕ
  pub delay_probe_cap : ℕ
  pub delay_probe_new : ℕ
  pub delay_off_until : ℕ

-- The fields as calloc leaves them.
abbrev pub new_cap : Cap
new_cap = record {
  cap_kept = 0;
  inflight_max = 0;
  counter_send_1sttime = 0;
  counter_resend_rto = 0;
  counter_resend_fast = 0;
  counter_delivered = 0;
  rate_tick = 0;
  rate_del_ref = 0;
  rate_now = 0;
  probe_next = 0;
  adapt_tick = 0;
  adapt_res_seen = 0;
  adapt_first_seen = 0;
  adapt_ema = 0;
  adapt_quiet = 0;
  delay_probe_rtt = 0;
  delay_probe_cap = 0;
  delay_probe_new = 0;
  delay_off_until = 0;
}

-- FFRDP_INFLIGHT_MAX and FFRDP_INFLIGHT_CEIL, and FFRDP_INFLIGHT_MIN.
abbrev pub inflight_ceil : ℕ
inflight_ceil = 64

abbrev pub inflight_min : ℕ
inflight_min = 4

-- The limit that the sending loop goes by.
unfoldable pub limit_of : Cap → ℕ
limit_of k = max_c (if k.inflight_max == 0 then inflight_ceil else k.inflight_max) inflight_min

abbrev pub current : Cap → ℕ
current k = if k.cap_kept == 0 then inflight_ceil else k.cap_kept

abbrev pub has_rtt : ℕ → Bool
has_rtt rtts = not (rtts == 0xFFFFFFFF)

-- The queueing delay: what the estimate is above the least round trip.
unfoldable pub excess_of : ℕ → ℕ → ℕ
excess_of rtts rtt_min =
    if not (rtt_min == 0) && (has_rtt rtts && ltb rtt_min rtts) then rtts - rtt_min else 0

-- The last cut for delay is judged: it is undone where the round trip did not fall by 5 ms.
unfoldable pub judge_delay : Cap → ℕ → ℕ → Cap
judge_delay k rtts now =
    let fell = has_rtt rtts && (ltb rtts k.delay_probe_rtt && leb 5 (k.delay_probe_rtt - rtts)) in
    let kept = if k.cap_kept == k.delay_probe_new then k.delay_probe_cap else k.cap_kept in
    if k.delay_probe_rtt == 0
    then k
    else if fell
    then record k { delay_probe_rtt = 0 }
    else record k { cap_kept = kept; delay_off_until = add32 now 30000; delay_probe_rtt = 0 }

-- A cut for waste, to the share that would waste 10%, and to half at most; the flag is `moved`.
unfoldable pub cut_waste : Cap → ℕ → ℕ → Cap × Bool
cut_waste k cur w =
    let n0 = u32 (cur * 100 / w) in
    let n1 = if ltb n0 (cur / 2) then cur / 2 else n0 in
    let n2 = if leb cur n1 then cur - 1 else n1 in
    let n3 = if ltb n2 inflight_min then inflight_min else n2 in
    if ltb n3 cur then (record k { cap_kept = n3 }, true) else (k, false)

-- A cut for delay, to what keeps the queue at 4 ms, but not below what the rate needs.
unfoldable pub cut_delay : Cap → ℕ → ℕ → ℕ → Cap × Bool
cut_delay k cur rtts rtt_min =
    let target = add32 rtt_min 4 in
    let n0 = u32 (cur * target / rtts) in
    let f0 = add32 (u32 (k.rate_now * target / 1000)) 2 in
    let fl = if ltb f0 inflight_min then inflight_min else f0 in
    let n1 = if ltb n0 fl then fl else n0 in
    let n2 = if leb cur n1 then cur - 1 else n1 in
    let cut = record k {
      delay_probe_rtt = rtts;
      delay_probe_cap = cur;
      delay_probe_new = n2;
      cap_kept = n2;
    } in
    if ltb n2 cur then (cut, true) else (k, false)

-- The choice between the two cuts; `w` is the smoothed waste in thousandths.
unfoldable pub cut_cap : Cap → ℕ → ℕ → ℕ → ℕ → ℕ → ℕ → Cap × Bool
unfolding excess_of
cut_cap k cur w rtts rtt_min used now =
    if leb 130 w
    then cut_waste k cur w
    else if leb w 70 && (leb 12 (excess_of rtts rtt_min) && sle32 0 (sub32 now k.delay_off_until))
    then (if leb cur inflight_min
        then (record k { delay_off_until = add32 now 30000 }, false)
        else if leb (mul32 cur 3) (mul32 used 4)
        then cut_delay k cur rtts rtt_min
        else (k, false))
    else (k, false)

-- The raise, by an eighth.
unfoldable pub raise_cap : Cap → ℕ → ℕ → ℕ → ℕ → ℕ → Cap
raise_cap k cur w rtts rtt_min now =
    let n0 = cur + max_c (cur / 8) 1 in
    let n1 = if ltb inflight_ceil n0 then inflight_ceil else n0 in
    let may = leb (excess_of rtts rtt_min) 7 || slt32 (sub32 now k.delay_off_until) 0 in
    if leb w 70 && (leb 2 k.adapt_quiet && may)
    then (if ltb cur n1 then record k { cap_kept = n1 } else k)
    else k

-- `if (dfst >= FFRDP_ADAPT_MIN_FRAMES) { … }`
unfoldable pub settle : Cap → ℕ → ℕ → ℕ → ℕ → ℕ → ℕ → Cap
settle k cur w rtts rtt_min used now =
    let k1 = judge_delay k rtts now in
    let (k2, moved) = cut_cap k1 cur w rtts rtt_min used now in
    if moved then k2 else raise_cap k2 cur w rtts rtt_min now

-- The end of a window of three seconds.
unfoldable pub close_adapt : Cap → ℕ → ℕ → ℕ → ℕ → ℕ → ℕ → Cap
close_adapt k resend firsts rtts rtt_min used now =
    let dres = if leb k.adapt_res_seen resend then resend - k.adapt_res_seen else 0 in
    let dfst = if leb k.adapt_first_seen firsts then firsts - k.adapt_first_seen else 0 in
    let w_pm = if dfst == 0 then 0 else mul32 dres 1000 / dfst in
    let ema = if k.adapt_ema == 0 then w_pm else add32 (mul32 k.adapt_ema 3) w_pm / 4 in
    let quiet =
      if leb w_pm 70
      then (if ltb k.adapt_quiet 255 then k.adapt_quiet + 1 else k.adapt_quiet)
      else 0 in
    let k1 = record k {
      adapt_tick = now;
      adapt_res_seen = resend;
      adapt_first_seen = firsts;
      adapt_ema = ema;
      adapt_quiet = quiet;
    } in
    if leb 24 dfst then settle k1 (current k) ema rtts rtt_min used now else k1

-- `if ((int32_t)now - (int32_t)c->rate_tick >= 1000) { … }`, without the tail of the confirmation
-- times, which Tick lowers.
unfoldable pub each_second : Cap → ℕ → ℕ → ℕ → ℕ → Cap
unfolding close_adapt
each_second k rtts rtt_min used now =
    let resend = add32 k.counter_resend_rto k.counter_resend_fast in
    let firsts = k.counter_send_1sttime in
    let k1 = record k {
      rate_now = sub32 k.counter_delivered k.rate_del_ref;
      rate_tick = now;
      rate_del_ref = k.counter_delivered;
    } in
    let k2 =
      if k1.adapt_tick == 0
      then record k1 { adapt_tick = now; adapt_res_seen = resend; adapt_first_seen = firsts }
      else k1 in
    if sle32 3000 (sub32 now k2.adapt_tick)
    then close_adapt k2 resend firsts rtts rtt_min used now
    else k2

abbrev pub second_over : Cap → ℕ → Bool
second_over k now = sle32 1000 (sub32 now k.rate_tick)

-- The last part of ffrdp_tick_conn; the arguments are `rtts`, `rtt_min` and `inflight_used`.
unfoldable pub tick_cap : Cap → ℕ → ℕ → ℕ → ℕ → Cap
tick_cap k rtts rtt_min used now =
    let k1 = record k { inflight_max = current k } in
    let k2 = if second_over k1 now then each_second k1 rtts rtt_min used now else k1 in
    if sle32 0 (sub32 now k2.probe_next) then record k2 { probe_next = add32 now 10000 } else k2
