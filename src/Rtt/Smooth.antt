-- ===== src/Rtt/Smooth.antt =====
-- ffrdp.c, ffrdp_rtt_sample: how far a sample moves the estimate.
use ffrdp.Base.{ℕ, ◌+◌, ◌*◌, ◌^◌, ◌≤◌, ◌<◌, ◌≡◌, ◌≢◌, arith, min, max, ◌⊎◌}
use ffrdp.Rtt.{Rtt, rtt_sample, clamp_sample, take_sample, rtt_min_of}

clamp_sample_bounds :
    (c : Rtt) (s : ℕ)
    → 0 < c.rtts
    → c.rtts < 2 ^ 28
    → c.rtt_min < 2 ^ 28
    → (clamp_sample c s ≤ s)
      × (clamp_sample c s ≤ 4 * c.rtts + 100)
      × (min s 100 ≤ clamp_sample c s)
unfolding clamp_sample
clamp_sample_bounds c s p h m = ground arith

-- Once there is an estimate above 0 and the times are below 2 ^ 28 ms, a sample is recorded cut to
-- at most four times the estimate plus 100 ms, and the new estimate is seven eighths of the old one
-- and an eighth of the recorded sample, their sum rounded down, so that it lies between the two.
pub rtt_sample_smooth :
    (c : Rtt) (s : ℕ)
    → 0 < c.rtts
    → c.rtts < 2 ^ 28
    → c.rtt_min < 2 ^ 28
    → s < 2 ^ 28
    → let c' = rtt_sample c s in
      (c'.rttm ≤ s)
      × (c'.rttm ≤ 4 * c.rtts + 100)
      × (min c.rtts c'.rttm ≤ c'.rtts)
      × (c'.rtts ≤ max c.rtts c'.rttm)
      × (8 * c'.rtts ≤ 7 * c.rtts + c'.rttm)
      × (7 * c.rtts + c'.rttm ≤ 8 * c'.rtts + 7)
unfolding rtt_sample take_sample
rtt_sample_smooth c s p h m hs = ground (arith, clamp_sample_bounds c s p h m)

-- The least round trip does not rise once it is set: a sample leaves it, or becomes it when it is
-- below it.
pub rtt_sample-rtt_min :
    (c : Rtt) (s : ℕ)
    → c.rtt_min ≢ 0
    → let c' = rtt_sample c s in
      (c'.rtt_min ≤ c.rtt_min) × ((c'.rtt_min ≡ c.rtt_min) ⊎ (c'.rtt_min ≡ c'.rttm))
unfolding rtt_sample take_sample rtt_min_of
rtt_sample-rtt_min c s ne = ground arith
