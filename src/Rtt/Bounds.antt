-- ===== src/Rtt/Bounds.antt =====
-- ffrdp.c: the retransmission timeout stays within its limits.
use ffrdp.Base.{ℕ, ◌≤◌, ◌≡◌, arith, List, [], ◌∷◌, sub32}
use ffrdp.Rtt.{
  Rtt, rtt_sample, take_sample, ack_sample, tail_sample, backoff, derive_rto, close_window,
  judge_waste,
}

-- What happens to the estimate of a connection; the numbers are times in milliseconds.
pub data Event : Type 0 where
  acked : ℕ → ℕ → Event
  tail_acked : ℕ → ℕ → Event
  timed_out : ℕ → Event

unfoldable pub step : Rtt → Event → Rtt
step c (acked now tick_1sts) = ack_sample c now tick_1sts
step c (tail_acked now tick_send) = tail_sample c now tick_send
step c (timed_out now) = backoff c now

unfoldable pub run : Rtt → List Event → Rtt
run c [] = c
run c (e ∷ es) = run (step c e) es

pub record IsValid (c : Rtt) : Type 0 where
  pub rto_min : 16 ≤ c.rto
  pub rto_max : c.rto ≤ 2000
  pub floor_max : c.rto_floor ≤ 1000
  pub tail_max : c.rtt_tail ≤ 2000

-- What a sample and the end of a window leave within the limits.
Within : Rtt → Type 0
Within c = (c.rto_floor ≤ 1000) × (c.rtt_tail ≤ 2000)

rtt_sample-keeps :
    (c : Rtt) (sample : ℕ)
    → ((rtt_sample c sample).rto_floor ≡ c.rto_floor)
      × ((rtt_sample c sample).rtt_tail ≡ c.rtt_tail)
unfolding rtt_sample take_sample
rtt_sample-keeps c sample = ground arith

judge_waste-Within : (c : Rtt) → Within c → Within (judge_waste c)
unfolding judge_waste Within
judge_waste-Within c w = ground arith

close_window-Within : (c : Rtt) (now : ℕ) → Within c → Within (close_window c now)
unfolding close_window Within
close_window-Within c now w =
    let judged = judge_waste-Within (record c { tick_win = now }) w in ground arith

derive_rto-IsValid : (c : Rtt) → Within c → IsValid (derive_rto c)
unfolding derive_rto Within
derive_rto-IsValid c w = ground arith

ack_sample-IsValid : (c : Rtt) (now t : ℕ) → IsValid c → IsValid (ack_sample c now t)
unfolding ack_sample Within
ack_sample-IsValid c now t v =
    let k = rtt_sample-keeps c (sub32 now t) in
    derive_rto-IsValid (close_window (rtt_sample c (sub32 now t)) now)
      (close_window-Within (rtt_sample c (sub32 now t)) now (omega arith))

tail_sample-IsValid : (c : Rtt) (now t : ℕ) → IsValid c → IsValid (tail_sample c now t)
unfolding tail_sample
tail_sample-IsValid c now t v = ground arith

backoff-IsValid : (c : Rtt) (now : ℕ) → IsValid c → IsValid (backoff c now)
unfolding backoff
backoff-IsValid c now v = ground arith

pub step-IsValid : (c : Rtt) (e : Event) → IsValid c → IsValid (step c e)
unfolding step
step-IsValid c (acked now t) v = ack_sample-IsValid c now t v
step-IsValid c (tail_acked now t) v = tail_sample-IsValid c now t v
step-IsValid c (timed_out now) v = backoff-IsValid c now v

-- From a state with its timeout in 16 to 2000 ms, its floor at 1000 ms at most and the tail of the
-- confirmation times at 2000 ms at most, as a new connection has them, any sequence of
-- ACKed frames, late ACKs and timeouts, at any times and also where the clock wraps, leaves the
-- timeout in 16 to 2000 ms, its floor at 1000 ms at most and the tail of the confirmation times
-- at 2000 ms at most.
pub rto_run-IsValid : (c : Rtt) (es : List Event) → IsValid c → IsValid (run c es)
unfolding run
rto_run-IsValid c [] v = v
rto_run-IsValid c (e ∷ es) v = rto_run-IsValid (step c e) es (step-IsValid c e v)
