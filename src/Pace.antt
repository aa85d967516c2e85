-- ===== src/Pace.antt =====
-- ffrdp.c, pacing: ffrdp_pace_fps, ffrdp_pace_refill, and the test and the charge that
-- ffrdp_tick_conn makes for each first transmission. The bucket counts sixteenths of a frame.
pub mod Bucket
use ffrdp.Base.{ℕ, ◌+◌, ◌-◌, ◌*◌, ◌/◌, ◌%◌, ◌^◌, Bool, true, false, ◌&&◌, ◌||◌, not}
use ffrdp.Base.{ltb, leb, ◌==◌, if◌then◌else◌, add32, sub32, mul32, sle32, slt32, u32}

pub record Pace : Type 0 where
  pub pace_tok16 : ℕ
  pub pace_tick : ℕ
  pub pace_due : ℕ
  pub pace_fps : ℕ

-- The estimate cut to four times the least round trip (FFRDP_PACE_RTT_CAP_X), which counts as
-- 5 ms at least.
unfoldable pub pace_rtt : ℕ → ℕ → ℕ
pace_rtt rtts rtt_min =
    let cap1 = mul32 rtt_min 4 in
    let cap = if ltb cap1 5 then 5 else cap1 in
    if ltb 0 rtt_min && not (rtts == 0xFFFFFFFF) && ltb cap rtts then cap else rtts

unfoldable pub rate_of : ℕ → ℕ → ℕ
rate_of lim rtt =
    let fps = mul32 (u32 (lim * 1000 / rtt)) 125 / 100 in if ltb fps 64 then 64 else fps

-- The frames a second that the estimate allows; 0 is no pacing. The arguments are `rtts`,
-- `rtt_min` and `inflight_max` of the connection.
unfoldable pub pace_fps : ℕ → ℕ → ℕ → ℕ
pace_fps rtts rtt_min inflight_max =
    let lim = if inflight_max == 0 then 64 else inflight_max in
    let rtt = pace_rtt rtts rtt_min in
    if rtt == 0xFFFFFFFF || slt32 rtt 5 then 0 else rate_of lim rtt

-- `per16`: what a millisecond adds to the bucket.
unfoldable pub per_ms : ℕ → ℕ
per_ms fps = let p = mul32 (mul32 fps 1) 16 / 1000 in if ltb p 1 then 1 else p

-- `burst16`: what the bucket holds.
unfoldable pub burst_of : ℕ → ℕ
burst_of fps = let b = mul32 (per_ms fps) 2 in if ltb b 32 then 32 else b

-- ffrdp_pace_refill at time `now`, where `fps` is what ffrdp_pace_fps gives.
unfoldable pub refill_at : ℕ → Pace → ℕ → Pace
refill_at fps c now =
    let dt = sub32 now c.pace_tick in
    let tok1 = add32 c.pace_tok16 (mul32 (dt / 1) (per_ms fps)) in
    let tok = if ltb (burst_of fps) tok1 then burst_of fps else tok1 in
    if fps == 0
    then record { pace_tok16 = 32; pace_tick = now; pace_due = 0; pace_fps = fps }
    else if slt32 dt 1
    then record c { pace_fps = fps }
    else record {
      pace_tok16 = tok;
      pace_tick = now;
      pace_due = if leb 16 tok then 0 else add32 now 1;
      pace_fps = fps;
    }

unfoldable pub pace_refill : ℕ → ℕ → ℕ → Pace → ℕ → Pace
pace_refill rtts rtt_min inflight_max c now = refill_at (pace_fps rtts rtt_min inflight_max) c now

-- ffrdp_tick_conn, `if (c->pace_fps && c->pace_tok16 < 16)`: a first transmission has to wait.
unfoldable pub must_wait : Pace → Bool
must_wait c = not (c.pace_fps == 0) && ltb c.pace_tok16 16

-- The bookkeeping of a frame that waits, and of one that goes out.
unfoldable pub wait_frame : Pace → ℕ → Pace
wait_frame c now = if c.pace_due == 0 then record c { pace_due = add32 now 1 } else c

unfoldable pub charge_frame : Pace → Pace
charge_frame c = if leb 16 c.pace_tok16 then record c { pace_tok16 = c.pace_tok16 - 16 } else c

-- What pacing does about one first transmission: the new bucket, and whether the frame may go.
unfoldable pub try_send : Pace → ℕ → Pace × Bool
unfolding must_wait wait_frame charge_frame
try_send c now = if must_wait c then (wait_frame c now, false) else (charge_frame c, true)
