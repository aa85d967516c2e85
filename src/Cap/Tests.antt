-- ===== src/Cap/Tests.antt =====
-- ffrdp.c, the limit of frames in flight: runs, and the theorem at a concrete input.
use ffrdp.Base.{◌≡◌, ◌≤◌, refl, arith, inl}
use ffrdp.Cap.{
  Cap, new_cap, tick_cap, limit_of, settle, judge_delay, cut_cap, cut_waste, raise_cap, excess_of,
  current, each_second, close_adapt,
}
use ffrdp.Cap.Bounds.{IsValid, tick_cap-IsValid}

-- A window with 100 first sends and 20 resends, three seconds after the last.
abbrev wasting : Cap
wasting = record new_cap {
  inflight_max = 64;
  counter_send_1sttime = 100;
  counter_resend_rto = 20;
  adapt_tick = 1000;
}

wasting_cut : (tick_cap wasting 50 50 10 4000).cap_kept ≡ 32
unfolding tick_cap each_second close_adapt settle judge_delay cut_cap cut_waste raise_cap excess_of
wasting_cut = refl

tick_cap-IsValid_example :
    IsValid (tick_cap wasting 50 50 10 4000)
    × (4 ≤ limit_of (tick_cap wasting 50 50 10 4000))
    × (limit_of (tick_cap wasting 50 50 10 4000) ≤ 64)
tick_cap-IsValid_example =
    tick_cap-IsValid wasting 50 50 10 4000
      (record { kept = inl refl; undone = inl refl; in_use = omega arith })

-- A cut for delay from 60 to 20 that did not help is to be undone. The raise that follows goes by
-- the limit as it was before, and the limit is 22 and not 60.
abbrev in_vain : Cap
in_vain = record new_cap {
  cap_kept = 20;
  inflight_max = 20;
  adapt_quiet = 2;
  delay_probe_rtt = 20;
  delay_probe_cap = 60;
  delay_probe_new = 20;
}

in_vain_judged : (judge_delay in_vain 18 1000).cap_kept ≡ 60
unfolding judge_delay
in_vain_judged = refl

in_vain_settled : (settle in_vain (current in_vain) 10 18 16 5 1000).cap_kept ≡ 22
unfolding settle judge_delay cut_cap raise_cap excess_of
in_vain_settled = refl
