-- ===== src/Pace/Bucket.antt =====
-- ffrdp.c, pacing: the rate is bounded, and so is what the bucket lets through.
use ffrdp.Base.{ℕ, ◌+◌, ◌*◌, ◌/◌, ◌^◌, ◌≤◌, ◌<◌, ◌≡◌, ◌≢◌, arith, List, [], ◌∷◌}
use ffrdp.Base.{sub32, if◌then◌else◌, ◌⊎◌, slt32}
use native.Mathlib.Nat.{div-le_of_le-mul}
use ffrdp.Pace.{Pace, pace_fps, pace_rtt, rate_of, per_ms, refill_at, try_send}

rate_of_bounds :
    (lim rtt : ℕ) → lim ≤ 64 → 5 ≤ rtt → (64 ≤ rate_of lim rtt) × (rate_of lim rtt ≤ 16000)
unfolding rate_of
rate_of_bounds lim rtt hl hr =
    let q : lim * 1000 / rtt ≤ 12800 = div-le_of_le-mul rtt (omega arith) in ground arith

pace_rtt_le : (rtts rtt_min : ℕ) → rtts < 2 ^ 32 → pace_rtt rtts rtt_min ≤ rtts
unfolding pace_rtt
pace_rtt_le rtts rtt_min h = ground arith

-- With a limit of 1 to 64 frames in flight there is no pacing (rate 0), or the estimate is 5 ms at
-- least and the rate lies from 64 to 16000 frames a second.
pub pace_fps_bounds :
    (rtts rtt_min lim : ℕ)
    → rtts < 2 ^ 32
    → 0 < lim
    → lim ≤ 64
    → let fps = pace_fps rtts rtt_min lim in (fps ≡ 0) ⊎ ((64 ≤ fps) × (fps ≤ 16000) × (5 ≤ rtts))
unfolding pace_fps
pace_fps_bounds rtts rtt_min lim hr pos hl =
    ground (arith, pace_rtt_le rtts rtt_min, rate_of_bounds lim (pace_rtt rtts rtt_min))

-- The calls that touch the bucket: a refill at the rate `fps` of its time, and a first transmission
-- that asks to go at a time.
pub data Call : Type 0 where
  refill : ℕ → ℕ → Call
  send : ℕ → Call

-- The bucket, the sixteenths of a frame that refills were due to add and the frames that went out.
pub record Run : Type 0 where
  pub bucket : Pace
  pub added : ℕ
  pub sent : ℕ

abbrev pub start : Pace → Run
start c = record { bucket = c; added = 0; sent = 0 }

-- The time that a refill counts: none, if the clock has not moved.
unfoldable pub counted : Pace → ℕ → ℕ
counted c now = let dt = sub32 now c.pace_tick in if slt32 dt 1 then 0 else dt

unfoldable pub step : Run → Call → Run
step r (refill fps now) = record r {
  bucket = refill_at fps r.bucket now;
  added = r.added + per_ms fps * counted r.bucket now;
}
step r (send now) =
    let (c, gone) = try_send r.bucket now in
    record r { bucket = c; sent = if gone then r.sent + 1 else r.sent }

unfoldable pub run : Run → List Call → Run
run r [] = r
run r (k ∷ ks) = run (step r k) ks

-- Each refill has a rate that ffrdp_pace_fps gives where it does not turn pacing off.
pub data ArePaced : List Call → Type 0 where
  no_calls : ArePaced []
  refilled :
      {ks : List Call} (fps now : ℕ)
      → 64 ≤ fps
      → fps ≤ 16000
      → ArePaced ks
      → ArePaced (refill fps now ∷ ks)
  asked : {ks : List Call} (now : ℕ) → ArePaced ks → ArePaced (send now ∷ ks)

-- Pacing is on, the bucket is no fuller than the largest size, and what it holds and let out was
-- there or was added.
pub record IsPaced (tok : ℕ) (r : Run) : Type 0 where
  pub paced : r.bucket.pace_fps ≢ 0
  pub full : r.bucket.pace_tok16 ≤ 512
  pub spent : r.bucket.pace_tok16 + 16 * r.sent ≤ tok + r.added
