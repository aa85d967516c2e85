-- ===== src/Conn.antt =====
-- ffrdp.c, FFRDPCONN: the state of a connection, and ffrdp_conn_init. The fields that only the
-- diagnostics read are left out.
use ffrdp.Base.{ℕ, Bool, false, none}
use ffrdp.Base.{min_c, max_c}
use ffrdp.Slot.{empty_slot}
use ffrdp.Snd.{Snd}
use ffrdp.Rcv.{Rcv}
use ffrdp.Rcv.Order.{new_rcv}
use ffrdp.Rtt.{Rtt, no_rtt, min_rto}
use ffrdp.Congestion.{Cwnd, def_cwnd_size}
use ffrdp.Pace.{Pace}
use ffrdp.Cap.{Cap, new_cap}

-- HS_NONE, HS_SYN_SENT, HS_SYN_RCVD, HS_UP, HS_FIN_WAIT and HS_FAILED.
pub data HsState : Type 0 where
  hs_none hs_syn_sent hs_syn_rcvd hs_up hs_fin_wait hs_failed : HsState

pub record Conn : Type 0 where
  pub handle : ℕ
  pub peer_addr : ℕ
  pub connected : Bool
  pub flush : Bool
  pub ack_due : Bool
  pub query_probe : Bool
  pub hs_state : HsState
  pub hs_tick : ℕ
  pub hs_start : ℕ
  pub hs_retry : ℕ
  pub tick_last_recv : ℕ
  pub snd : Snd
  pub rcv : Rcv
  pub rtt : Rtt
  pub cw : Cwnd
  pub pace : Pace
  pub cap : Cap
  pub swnd : ℕ
  pub inflight_used : ℕ
  pub ack_una : ℕ
  pub tick_recv_ack : ℕ
  pub tick_send_query : ℕ
  pub counter_ack_recv : ℕ
  pub tx_stalled : ℕ
  pub tick_conn_init : ℕ

-- FFRDP_MAX_MSS
abbrev pub max_mss : ℕ
max_mss = 1464

-- The send ring before snd_ring_init.
abbrev pub new_snd : ℕ → Snd
new_snd smss = record {
  slots = λ i. empty_slot;
  snd_first = 0;
  send_seq = 0;
  wait_snd = 0;
  snd_live = 0;
  tx_unsent = 0;
  cur_new_node = none;
  cur_new_size = 0;
  cur_new_tick = 0;
  smss = smss;
}

abbrev pub new_rtt : Rtt
new_rtt = record {
  rttm = 0;
  rtts = no_rtt;
  rttd = 0;
  rto = min_rto;
  rtt_min = 0;
  rtt_tail = 0;
  rto_floor = 0;
  win_need = 0;
  win_dup = 0;
  tick_win = 0;
  hole_wait = 0;
  tick_rto_backoff = 0;
}

-- calloc and ffrdp_conn_init at time `now`; `smss` is above 0.
unfoldable pub conn_init : ℕ → ℕ → Conn
conn_init now smss = record {
  handle = 0;
  peer_addr = 0;
  connected = false;
  flush = false;
  ack_due = false;
  query_probe = false;
  hs_state = hs_none;
  hs_tick = 0;
  hs_start = 0;
  hs_retry = 0;
  tick_last_recv = 0;
  snd = new_snd (max_c 1 (min_c smss max_mss));
  rcv = new_rcv;
  rtt = new_rtt;
  cw = record { cwnd = def_cwnd_size; ssthresh = def_cwnd_size };
  pace = record { pace_tok16 = 32; pace_tick = now; pace_due = 0; pace_fps = 0 };
  cap = new_cap;
  swnd = def_cwnd_size;
  inflight_used = 0;
  ack_una = 0;
  tick_recv_ack = 0;
  tick_send_query = 0;
  counter_ack_recv = 0;
  tx_stalled = 0;
  tick_conn_init = now;
}
