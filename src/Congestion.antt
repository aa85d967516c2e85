-- ===== src/Congestion.antt =====
-- ffrdp.c, ffrdp_congestion_control: the congestion window and its slow-start threshold.
-- In the default build an ACK grows the window by one at the threshold (FFRDP_CA_RTT_STEP and
-- FFRDP_CA_NOQUEUE are 0), the floor of the threshold is 1 and FFRDP_PSEUDO_NOCUT is 0.
use ffrdp.Base.{ℕ, ◌/◌, ◌≤◌, arith, List, [], ◌∷◌}
use ffrdp.Base.{ltb, min_c, max_c, add32, mul32, if◌then◌else◌}

-- `cwnd` and `ssthresh` of FFRDPCONN.
pub record Cwnd : Type 0 where
  pub cwnd : ℕ
  pub ssthresh : ℕ

-- The CEVENT_ enumeration.
pub data Event : Type 0 where
  ack_ok ack_timeout ack_timeout_missed fast_resend send_failed : Event

abbrev pub min_cwnd_size : ℕ
min_cwnd_size = 1

abbrev pub max_cwnd_size : ℕ
max_cwnd_size = 64

-- FFRDP_SSTHRESH_MIN: MAX(FFRDP_MIN_CWND_SIZE, FFRDP_SSTHRESH_FLOOR) with a floor of 0.
abbrev pub ssthresh_min : ℕ
ssthresh_min = 1

abbrev pub def_cwnd_size : ℕ
def_cwnd_size = 32

-- The window as ffrdp_conn_init sets it.
abbrev pub initial : Cwnd
initial = record { cwnd = def_cwnd_size; ssthresh = def_cwnd_size }

unfoldable pub congestion_control : Cwnd → Event → Cwnd
congestion_control c ack_ok =
    let grown = if ltb c.cwnd c.ssthresh then mul32 c.cwnd 2 else add32 c.cwnd 1 in
    record c { cwnd = max_c (min_c grown max_cwnd_size) min_cwnd_size }
congestion_control c ack_timeout = record {
  cwnd = min_cwnd_size;
  ssthresh = max_c (c.cwnd / 2) ssthresh_min;
}
congestion_control c send_failed = record {
  cwnd = min_cwnd_size;
  ssthresh = max_c (c.cwnd / 2) ssthresh_min;
}
congestion_control c ack_timeout_missed =
    let half = max_c (c.cwnd / 2) ssthresh_min in record { cwnd = half; ssthresh = half }
congestion_control c fast_resend =
    let half = max_c (c.cwnd / 2) ssthresh_min in record { cwnd = half; ssthresh = half }

-- The events in the order in which they come.
unfoldable pub run : Cwnd → List Event → Cwnd
run c [] = c
run c (e ∷ es) = run (congestion_control c e) es

pub record IsValid (c : Cwnd) : Type 0 where
  pub cwnd_min : min_cwnd_size ≤ c.cwnd
  pub cwnd_max : c.cwnd ≤ max_cwnd_size
  pub thresh_min : ssthresh_min ≤ c.ssthresh
  pub thresh_max : c.ssthresh ≤ max_cwnd_size

pub congestion_control-IsValid :
    (c : Cwnd) (e : Event) → IsValid c → IsValid (congestion_control c e)
unfolding congestion_control
congestion_control-IsValid c ack_ok v = ground arith
congestion_control-IsValid c _ v = ground arith

run_from-IsValid : (c : Cwnd) (es : List Event) → IsValid c → IsValid (run c es)
unfolding run
run_from-IsValid c [] v = v
run_from-IsValid c (e ∷ es) v =
    run_from-IsValid (congestion_control c e) es (congestion_control-IsValid c e v)

-- From the window of a new connection, whatever happens, the congestion window stays between 1
-- and 64 frames and the slow-start threshold too.
pub congestion_run-IsValid : (es : List Event) → IsValid (run initial es)
congestion_run-IsValid es = run_from-IsValid initial es (omega arith)
