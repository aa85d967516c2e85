-- ===== src/Hs/Tests.antt =====
-- ffrdp.c, the handshake: the theorems at concrete inputs.
use ffrdp.Base.{◌≡◌, refl, arith, [], ◌∷◌, ◌++◌, true, false, some, ◌==◌, Bool-cases, ap, inl, inr}
use mathlib.Core.Option.{none-ne-some, some-injective}
use ffrdp.Conn.{Conn, conn_init, hs_up}
use ffrdp.Slot.{type_handshake}
use ffrdp.Table.{new_table, conn_new, free_from}
use ffrdp.Hs.{
  Ctx, datagram, event, syn, syn_ack, ack, ev_connect, ev_accept, hs_rx, hs_start_client,
}
use ffrdp.Hs.Ignored.{Unwanted, hs_rx-Unwanted}
use ffrdp.Hs.Complete.{open_link, IsUp, IsStranger, handshake_completes}

abbrev first_conn : Conn
first_conn = record (conn_init 0 1200) { peer_addr = 55 }

abbrev client : Ctx
client = record {
  table = new_table 1 1200 first_conn;
  io = record { tries = 0; out = [] };
  is_server = false;
  hs_enable = true;
  closing = false;
  handshake_ms = 10000;
  idle_ms = 5000;
}

abbrev server : Ctx
server = record client { table = new_table 4 1200 (conn_init 0 1200); is_server = true }

server-IsStranger : IsStranger server.table 66
unfolding new_table conn_init
server-IsStranger j d e = elim (Bool-cases (j == 0)) [
  | inl at ↦
      (let it : some (conn_init 0 1200) ≡ some d = rw (← e, at) refl in
        let zero_addr : 0 ≡ d.peer_addr =
          ap (λ (c : Conn). c.peer_addr) (some-injective (conn_init 0 1200) d it) in
        λ same. absurd (omega (arith, zero_addr, same)))
  | inr other ↦ absurd (none-ne-some d (rw (← e, other) refl))
]

slot_one : (conn_new server.table 66 20).1 ≡ some 1
unfolding conn_new free_from new_table
slot_one = refl

handshake_completes_example :
    let x0 = hs_start_client open_link client first_conn 10 in
    let y1 = hs_rx open_link server 66 syn 20 in
    let x1 = hs_rx open_link x0 55 syn_ack 30 in
    let y2 = hs_rx open_link y1 66 ack 40 in
    (x0.io.out ≡ [] ++ (datagram 55 (type_handshake ∷ syn ∷ []) ∷ []))
    × (y1.io.out ≡ [] ++ (datagram 66 (type_handshake ∷ syn_ack ∷ []) ∷ []))
    × IsUp x1.table 0 55
    × (x1.io.out
        ≡ (x0.io.out ++ (datagram 55 (type_handshake ∷ ack ∷ []) ∷ []))
          ++ (event ev_connect 0 55 0 ∷ []))
    × ((u : IsUp y2.table 1 66) × (y2.io.out
          ≡ y1.io.out ++ (event ev_accept u.conn.handle 66 0 ∷ [])))
handshake_completes_example =
    handshake_completes client server first_conn 66 55 1 10 20 30 40 refl refl refl (omega arith)
      refl refl (omega arith) server-IsStranger slot_one

-- A client that is up gets the SYN-ACK again, as its ACK was lost.
abbrev up_client : Ctx
up_client = record client { table = new_table 1 1200 (record first_conn { hs_state = hs_up }) }

up_main : up_client.table.table 0 ≡ some (record first_conn { hs_state = hs_up })
unfolding new_table
up_main = refl

hs_rx-Unwanted_example : hs_rx open_link up_client 55 syn_ack 500 ≡ up_client
hs_rx-Unwanted_example = hs_rx-Unwanted open_link up_client 55 syn_ack 500 (
    Unwanted.main_settled (record first_conn { hs_state = hs_up }) refl up_main (omega arith)
      (omega arith))
