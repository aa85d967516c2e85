-- ===== src/Callback/Tests.antt =====
-- ffrdp.c, ffrdp_lowlevel_cb: the theorems at concrete inputs.
use ffrdp.Base.{ℕ, ◌<◌, ◌≡◌, refl, arith, List, [], ◌∷◌, Bool, true, false, some}
use ffrdp.Conn.{Conn, conn_init, hs_syn_sent}
use ffrdp.Table.{new_table}
use ffrdp.Hs.{Ctx}
use ffrdp.Callback.{lowlevel_rx, timer_conn}
use ffrdp.Callback.Isolation.{Isolated, lowlevel_rx-Isolated}
use ffrdp.Callback.Expiry.{GivenUp, timer_conn-GivenUp}

abbrev free_link : ℕ → Bool
free_link n = true

-- A client whose SYN of time 0 was not answered.
abbrev calling : Conn
calling = record (conn_init 0 1200) { peer_addr = 55; hs_state = hs_syn_sent }

abbrev caller : Ctx
caller = record {
  table = new_table 1 1200 calling;
  io = record { tries = 0; out = [] };
  is_server = false;
  hs_enable = true;
  closing = false;
  handshake_ms = 10000;
  idle_ms = 5000;
}

calling_main : caller.table.table 0 ≡ some calling
unfolding new_table
calling_main = refl

one_slot : 0 < caller.table.nconn
unfolding new_table
one_slot = omega arith

-- What the application does with a payload: it leaves it in the ring.
abbrev keep : List ℕ → List ℕ → List ℕ × (List ℕ × Bool)
keep s p = (s, (p, false))

abbrev plain : ℕ → List ℕ → List ℕ
plain n p = p

timer_conn-GivenUp_example :
    GivenUp caller (timer_conn free_link plain keep caller [] 0 calling 10000).0 0 calling
    × ((timer_conn free_link plain keep caller [] 0 calling 10000).1 ≡ [])
unfolding conn_init
timer_conn-GivenUp_example =
    timer_conn-GivenUp free_link plain keep caller [] 0 calling 10000 refl calling_main one_slot
      (omega arith) refl refl

-- A data frame of the peer that is not up yet.
abbrev early_frame : List ℕ
early_frame = 1 ∷ 0 ∷ 0 ∷ 0 ∷ 7 ∷ []

lowlevel_rx-Isolated_example :
    Isolated caller (lowlevel_rx free_link caller 55 early_frame 90).0 55 90
lowlevel_rx-Isolated_example =
    lowlevel_rx-Isolated free_link caller 55 early_frame 90 refl (omega arith)
