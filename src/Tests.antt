-- ===== src/Tests.antt =====
-- ffrdp.c: the theorems on frame numbers, the congestion window, the retransmission timeout and
-- pacing, at concrete inputs.
use ffrdp.Base.{◌+◌, ◌*◌, ◌≤◌, ◌≡◌, refl, arith, List, [], ◌∷◌, ◌⊎◌, min, max}
use ffrdp.Base.{u24}
use ffrdp.Base.Int.{pos, negsuc, ◌-ℤ◌}
use ffrdp.Seq.{seq_distance, seq_distance_ahead}
use ffrdp.Congestion
use ffrdp.Congestion.{
  Cwnd, congestion_run-IsValid, ack_ok, ack_timeout, send_failed, fast_resend, ack_timeout_missed,
}
use ffrdp.Rtt.{Rtt, rtt_sample}
use ffrdp.Rtt.Smooth.{rtt_sample_smooth, rtt_sample-rtt_min}
use ffrdp.Rtt.Bounds
use ffrdp.Rtt.Bounds.{rto_run-IsValid, acked, tail_acked, timed_out}
use ffrdp.Pace.{Pace, pace_fps}
use ffrdp.Pace.Bucket
use ffrdp.Pace.Bucket.{pace_fps_bounds, refill, send}

-- Frame numbers, the second of which comes after the turn.
seq_distance_ahead_example :
    (seq_distance (u24 (0xFFFFFE + 5)) 0xFFFFFE ≡ pos 5)
    × (pos 0 -ℤ pos 5 ≡ seq_distance 0xFFFFFE (u24 (0xFFFFFE + 5)))
seq_distance_ahead_example = seq_distance_ahead 0xFFFFFE 5 (omega arith) (omega arith)

-- At half a turn less one, without a wrap, the first number counts as behind.
half_turn : seq_distance 0x7FFFFF 0 ≡ negsuc 0x800000
unfolding seq_distance
half_turn = refl

congestion_run-IsValid_example :
    Congestion.IsValid (Congestion.run Congestion.initial (ack_ok ∷ ack_timeout ∷ ack_ok ∷ []))
congestion_run-IsValid_example = congestion_run-IsValid (ack_ok ∷ ack_timeout ∷ ack_ok ∷ [])

abbrev measured : Rtt
measured = record {
  rttm = 80;
  rtts = 80;
  rttd = 10;
  rto = 120;
  rtt_min = 40;
  rtt_tail = 0;
  rto_floor = 0;
  win_need = 127;
  win_dup = 120;
  tick_win = 0;
  hole_wait = 0;
  tick_rto_backoff = 0;
}

rto_run-IsValid_example :
    Bounds.IsValid (Bounds.run measured (acked 900 100 ∷ timed_out 1500 ∷ tail_acked 3000 500 ∷ []))
rto_run-IsValid_example =
    rto_run-IsValid measured (acked 900 100 ∷ timed_out 1500 ∷ tail_acked 3000 500 ∷ []) (record {
      rto_min = omega arith;
      rto_max = omega arith;
      floor_max = omega arith;
      tail_max = omega arith;
    })

rtt_sample_smooth_example :
    let c' = rtt_sample measured 500 in
    (c'.rttm ≤ 500)
    × (c'.rttm ≤ 4 * 80 + 100)
    × (min 80 c'.rttm ≤ c'.rtts)
    × (c'.rtts ≤ max 80 c'.rttm)
    × (8 * c'.rtts ≤ 7 * 80 + c'.rttm)
    × (7 * 80 + c'.rttm ≤ 8 * c'.rtts + 7)
rtt_sample_smooth_example =
    rtt_sample_smooth measured 500 (omega arith) (omega arith) (omega arith) (omega arith)

rtt_sample-rtt_min_example :
    let c' = rtt_sample measured 30 in
    (c'.rtt_min ≤ 40) × ((c'.rtt_min ≡ 40) ⊎ (c'.rtt_min ≡ c'.rttm))
rtt_sample-rtt_min_example = rtt_sample-rtt_min measured 30 (λ e. absurd (omega (arith, e)))

pace_fps_bounds_example :
    let fps = pace_fps 80 40 32 in (fps ≡ 0) ⊎ ((64 ≤ fps) × (fps ≤ 16000) × (5 ≤ 80))
pace_fps_bounds_example = pace_fps_bounds 80 40 32 (omega arith) (omega arith) (omega arith)

-- A bucket filled at a high rate, which a refill without time finds at a low one.
abbrev full_bucket : Pace
full_bucket = record { pace_tok16 = 200; pace_tick = 100; pace_due = 0; pace_fps = 9000 }

abbrev calls : List Bucket.Call
calls = send 100 ∷ refill 500 100 ∷ send 100 ∷ refill 800 105 ∷ send 105 ∷ []
