-- ===== src/Due/Soon.antt =====
-- ffrdp.c, ffrdp_next_due: the timer is not armed in the past, and runs soon where frames wait.
use ffrdp.Base.{
  ℕ, ◌^◌, ◌≤◌, ◌<◌, ◌≡◌, ◌≢◌, ◌-◌, arith, ◌⊎◌, inl, inr, Bool, true, false, Bool-cases,
}
use ffrdp.Base.{if◌then◌else◌, sub32}
use ffrdp.Snd.{snd_head}
use ffrdp.Conn.{Conn}
use ffrdp.Hs.{Ctx}
use ffrdp.Due.{settle_due, next_due, may_send, wait_due, has_frames}

settle_due-soon :
    (armed : Bool) (d1 now : ℕ)
    → now < 2 ^ 32
    → let d = settle_due armed true d1 now in
      ((d ≢ 0) × (sub32 d now ≤ 4)) ⊎ ((d ≡ 0) × (now ≡ 2 ^ 32 - 4))
unfolding settle_due
settle_due-soon armed d1 now h = ground arith

settle_due-not_past :
    (armed waiting : Bool) (d1 now : ℕ)
    → now < 2 ^ 32
    → let d = settle_due armed waiting d1 now in (d ≡ 0) ⊎ (sub32 d now < 2 ^ 31)
unfolding settle_due
settle_due-not_past armed waiting d1 now h = ground arith

-- Where a frame is in the send ring, ffrdp_next_due gives a time, which is from now to 4 ms from
-- now, except in the one millisecond 2^32 - 4 of the clock, when it may give 0 instead, which stands
-- for no time. Where the ring is empty it gives 0 or a time that is not in the past.
pub next_due-soon :
    (x : Ctx) (c : Conn) (now : ℕ)
    → now < 2 ^ 32
    → let d = next_due x c now in
      let waiting = has_frames (snd_head c.snd) in
      ((waiting ≡ true) × (d ≢ 0) × (sub32 d now ≤ 4))
      ⊎ (((waiting ≡ true) × (d ≡ 0) × (now ≡ 2 ^ 32 - 4))
          ⊎ ((waiting ≡ false) × ((d ≡ 0) ⊎ (sub32 d now < 2 ^ 31))))
unfolding next_due
next_due-soon x c now h =
    let armed = may_send x c now in
    let d = if armed then now else wait_due x c now in
    elim (Bool-cases (has_frames (snd_head c.snd))) [
      | inl w ↦ elim (settle_due-soon armed d now h) [
        | inl (some_time, soon) ↦ inl (w, rw w some_time, rw w soon)
        | inr (no_time, at) ↦ inr (inl (w, rw w no_time, at))
      ]
      | inr w ↦ inr (inr (w, settle_due-not_past armed (has_frames (snd_head c.snd)) d now h))
    ]
