-- ===== src/Calls/Tests.antt =====
-- ffrdp.c, ffrdp_send and ffrdp_recv: the theorem at a concrete input.
use ffrdp.Base.{ℕ, ◌≡◌, refl, List, [], ◌∷◌, true, false}
use ffrdp.Base.Int.{pos}
use ffrdp.Conn.{Conn, conn_init, hs_up}
use ffrdp.Table.{new_table, conn_lookup}
use ffrdp.Hs.{Ctx}
use ffrdp.Snd.{frame_message, fits, room_of, frame_loop, open_slot}
use ffrdp.Calls.{send_now, send_gate, send_try, has_room}

abbrev up : Conn
up = record (conn_init 0 1200) { peer_addr = 55; hs_state = hs_up }

abbrev ctx : Ctx
ctx = record {
  table = new_table 1 1200 up;
  io = record { tries = 0; out = [] };
  is_server = false;
  hs_enable = true;
  closing = false;
  handshake_ms = 10000;
  idle_ms = 5000;
}

abbrev plain : ℕ → List ℕ → List ℕ
plain q p = p

two_bytes_sent : (send_now plain ctx (pos 0) (7 ∷ 8 ∷ []) 20).1 ≡ pos 2
unfolding send_now conn_lookup new_table conn_init send_gate send_try has_room frame_message fits
    room_of frame_loop open_slot
two_bytes_sent = refl
