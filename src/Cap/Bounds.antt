-- ===== src/Cap/Bounds.antt =====
-- ffrdp.c, the limit of frames in flight: it stays between FFRDP_INFLIGHT_MIN and
-- FFRDP_INFLIGHT_CEIL.
use ffrdp.Base.{ℕ, ◌≤◌, ◌<◌, ◌≡◌, refl, arith, ◌⊎◌, inl, inr, Bool, true, false}
use ffrdp.Base.{◌==◌, if◌then◌else◌, Bool-cases}
use ffrdp.Cap.{
  Cap, limit_of, current, judge_delay, cut_waste, cut_delay, cut_cap, raise_cap, settle,
  close_adapt, each_second, tick_cap,
}

-- The limits that a connection may come to use.
pub record IsValid (k : Cap) : Type 0 where
  pub kept : (k.cap_kept ≡ 0) ⊎ ((4 ≤ k.cap_kept) × (k.cap_kept ≤ 64))
  pub undone : (k.delay_probe_rtt ≡ 0) ⊎ ((4 ≤ k.delay_probe_cap) × (k.delay_probe_cap ≤ 64))
  pub in_use : k.inflight_max ≤ 64

judge_delay-IsValid : (k : Cap) (rtts now : ℕ) → IsValid k → IsValid (judge_delay k rtts now)
unfolding judge_delay
judge_delay-IsValid k rtts now v = ground arith

cut_waste-IsValid :
    (k : Cap) (cur w : ℕ) → IsValid k → 4 ≤ cur → cur ≤ 64 → IsValid (cut_waste k cur w).0
unfolding cut_waste
cut_waste-IsValid k cur w v lo hi = ground arith

cut_delay-IsValid :
    (k : Cap) (cur rtts rtt_min : ℕ)
    → IsValid k
    → 4 < cur
    → cur ≤ 64
    → IsValid (cut_delay k cur rtts rtt_min).0
unfolding cut_delay
cut_delay-IsValid k cur rtts rtt_min v lo hi = ground arith

cut_cap-IsValid :
    (k : Cap) (cur w rtts rtt_min used now : ℕ)
    → IsValid k
    → 4 ≤ cur
    → cur ≤ 64
    → IsValid (cut_cap k cur w rtts rtt_min used now).0
unfolding cut_cap
cut_cap-IsValid k cur w rtts rtt_min used now v lo hi =
    ground (arith, cut_waste-IsValid k cur w v lo hi, cut_delay-IsValid k cur rtts rtt_min v)

raise_cap-IsValid :
    (k : Cap) (cur w rtts rtt_min now : ℕ)
    → IsValid k
    → 4 ≤ cur
    → cur ≤ 64
    → IsValid (raise_cap k cur w rtts rtt_min now)
unfolding raise_cap
raise_cap-IsValid k cur w rtts rtt_min now v lo hi = ground arith

current-range : (k : Cap) → IsValid k → (4 ≤ current k) × (current k ≤ 64)
current-range k v = ground (arith, v.kept)

settle-IsValid :
    (k : Cap) (cur w rtts rtt_min used now : ℕ)
    → IsValid k
    → 4 ≤ cur
    → cur ≤ 64
    → IsValid (settle k cur w rtts rtt_min used now)
unfolding settle
settle-IsValid k cur w rtts rtt_min used now v lo hi =
    let k1 = judge_delay k rtts now in
    let v1 = judge_delay-IsValid k rtts now v in
    let cut = cut_cap k1 cur w rtts rtt_min used now in
    let v2 = cut_cap-IsValid k1 cur w rtts rtt_min used now v1 lo hi in
    elim (Bool-cases cut.1) [
      | inl e ↦ rw (settle, e) v2
      | inr e ↦ rw (settle, e) (raise_cap-IsValid cut.0 cur w rtts rtt_min now v2 lo hi)
    ]

if-IsValid : (b : Bool) (x y : Cap) → IsValid x → IsValid y → IsValid (if b then x else y)
if-IsValid true x y v w = v
if-IsValid false x y v w = w

-- Only four fields count.
rebuilt :
    (k l : Cap)
    → IsValid k
    → l.cap_kept ≡ k.cap_kept
    → l.delay_probe_rtt ≡ k.delay_probe_rtt
    → l.delay_probe_cap ≡ k.delay_probe_cap
    → l.inflight_max ≡ k.inflight_max
    → IsValid l
rebuilt k l v a b c d = record {
  kept = rw a v.kept;
  undone = rw (b, c) v.undone;
  in_use = rw d v.in_use;
}

close_adapt-IsValid :
    (k : Cap) (resend firsts rtts rtt_min used now : ℕ)
    → IsValid k
    → IsValid (close_adapt k resend firsts rtts rtt_min used now)
unfolding close_adapt
close_adapt-IsValid k resend firsts rtts rtt_min used now v =
    let (lo, hi) = current-range k v in
    if-IsValid _ _ _
      (settle-IsValid _ (current k) _ rtts rtt_min used now (rebuilt k _ v refl refl refl refl) lo
        hi)
      (rebuilt k _ v refl refl refl refl)

each_second-IsValid :
    (k : Cap) (rtts rtt_min used now : ℕ)
    → IsValid k
    → IsValid (each_second k rtts rtt_min used now)
unfolding each_second
each_second-IsValid k rtts rtt_min used now v =
    let v2 =
      if-IsValid (k.adapt_tick == 0) _ _ (rebuilt k _ v refl refl refl refl)
        (rebuilt k _ v refl refl refl refl) in
    if-IsValid _ _ _ (close_adapt-IsValid _ _ _ rtts rtt_min used now v2) v2

limit-range : (k : Cap) → IsValid k → (4 ≤ limit_of k) × (limit_of k ≤ 64)
unfolding limit_of
limit-range k v = ground (arith, v.in_use)

-- Where the limit that is kept, and the one that a failed cut would bring back, are not set or
-- between 4 and 64, a tick leaves them so, whatever the round trip, the frames in flight, the
-- counters and the clock are; and the limit that the sending loop goes by is between 4 and 64.
pub tick_cap-IsValid :
    (k : Cap) (rtts rtt_min used now : ℕ)
    → IsValid k
    → let k' = tick_cap k rtts rtt_min used now in
      IsValid k' × (4 ≤ limit_of k') × (limit_of k' ≤ 64)
unfolding tick_cap limit_of
tick_cap-IsValid k rtts rtt_min used now v =
    let (lo, hi) = current-range k v in
    let v1 : IsValid (record k { inflight_max = current k }) = record {
      kept = v.kept;
      undone = v.undone;
      in_use = hi;
    } in
    let v2 =
      if-IsValid _ _ _
        (each_second-IsValid (record k { inflight_max = current k }) rtts rtt_min used now v1) v1 in
    let v3 = if-IsValid _ _ _ (rebuilt _ _ v2 refl refl refl refl) v2 in
    let range = limit-range (tick_cap k rtts rtt_min used now) v3 in (v3, range.0, range.1)
