-- ===== src/Hs/Complete.antt =====
-- ffrdp.c, the handshake: it is finished where no frame is lost.
use ffrdp.Base.{ℕ, zero, suc, ◌+◌, ◌≤◌, ◌<◌, ◌≡◌, ◌≢◌, refl, arith, sym, ap, ◌∙◌, inl, inr}
use ffrdp.Base.{
  [], ◌∷◌, ◌++◌, Bool, true, false, not, ◌&&◌, ◌||◌, Option, none, some, Option-cases, Bool-cases,
}
use ffrdp.Base.{ltb, ◌==◌, if◌then◌else◌, if_true, if_false, add32, ℕ_discrete}
use mathlib.Core.Option.{none-ne-some, some-injective}
use ffrdp.Slot.{type_handshake}
use ffrdp.Conn.{Conn, hs_up, hs_syn_sent, hs_syn_rcvd}
use ffrdp.Table.{Table, conn_new, new_conn, conn_by_addr, by_addr_from}
use ffrdp.Table.Slots.{added, conn_new-cases, new_conn-peer_addr}
use ffrdp.Hs.{
  Ctx, Io, datagram, event, code_of, syn, syn_ack, ack, put_conn, emit, ev_accept, ev_connect,
}
use ffrdp.Hs.{
  ll_send, hs_send, hs_send_at, new_peer, greet, hs_rx, hs_rx_server, hs_rx_known, hs_rx_client,
  hs_rx_main, hs_start_client,
}

-- A lower layer that takes every datagram.
abbrev pub open_link : ℕ → Bool
open_link n = true

-- No connection of the table has the address.
abbrev pub IsStranger : Table → ℕ → Type 0
IsStranger t addr = (j : ℕ) (d : Conn) → t.table j ≡ some d → d.peer_addr ≢ addr

-- A slot that has no connection with the address.
abbrev matches : Option Conn → ℕ → Bool
matches none addr = false
matches (some c) addr = c.peer_addr == addr

by_addr_step :
    (fuel i : ℕ) (t : Table) (addr : ℕ)
    → by_addr_from (suc fuel) i t addr ≡ (
        if ltb i t.nconn
        then (if matches (t.table i) addr then some i else by_addr_from fuel (i + 1) t addr)
        else none)
unfolding by_addr_from
by_addr_step fuel i t addr = elim (Option-cases (t.table i)) [
  | inl e ↦ rw (by_addr_from, e) refl
  | inr (c, e) ↦ rw (by_addr_from, e) refl
]

stranger-matches : (t : Table) (addr j : ℕ) → IsStranger t addr → matches (t.table j) addr ≡ false
stranger-matches t addr j s = elim (Option-cases (t.table j)) [
  | inl e ↦ rw e refl
  | inr (c, e) ↦ (let ne = s j c e in rw e (ground (arith, ne)))
]

by_addr-none :
    (fuel i : ℕ) (t : Table) (addr : ℕ) → IsStranger t addr → by_addr_from fuel i t addr ≡ none
unfolding by_addr_from
by_addr-none zero i t addr s = refl
by_addr-none (suc fuel) i t addr s =
    by_addr_step fuel i t addr ∙ (elim (Bool-cases (ltb i t.nconn)) [
      | inr out ↦ if_false _ _ _ out
      | inl in_use ↦
          if_true _ _ _ in_use
          ∙ if_false _ _ _ (stranger-matches t addr i s)
          ∙ by_addr-none fuel (i + 1) t addr s
    ])

-- The first slot that has the address is found.
by_addr-first :
    (fuel i j : ℕ) (t : Table) (addr : ℕ)
    → i ≤ j
    → j < i + fuel
    → j < t.nconn
    → matches (t.table j) addr ≡ true
    → ((k : ℕ) → k < j → matches (t.table k) addr ≡ false)
    → by_addr_from fuel i t addr ≡ some j
by_addr-first zero i j t addr lo hi count m before = absurd (omega (arith, lo, hi))
by_addr-first (suc fuel) i j t addr lo hi count m before =
    let in_use : ltb i t.nconn ≡ true = ground (arith, lo, count) in
    by_addr_step fuel i t addr ∙ if_true _ _ _ in_use ∙ (elim (ℕ_discrete i j) [
      | yes here ↦ if_true (matches (t.table i) addr) _ _ (rw here m) ∙ ap some here
      | no ne ↦
          if_false _ _ _ (before i (omega (arith, lo, ne)))
          ∙ by_addr-first fuel (i + 1) j t addr (omega (arith, lo, ne)) (omega (arith, hi)) count m
              before
    ])

abbrev sent_io : Io → ℕ → ℕ → Io
sent_io io addr sub = record {
  tries = io.tries + 1;
  out = io.out ++ (datagram addr (type_handshake ∷ sub ∷ []) ∷ []);
}

abbrev stamped : Conn → ℕ → Conn
stamped c now = record c { hs_tick = now; hs_retry = add32 c.hs_retry 1 }

hs_send_at-open :
    (x : Ctx) (i : ℕ) (c : Conn) (sub now : ℕ)
    → c.peer_addr ≢ 0
    → hs_send_at open_link x i c sub now
      ≡ record (put_conn x i (stamped c now)) { io = sent_io x.io c.peer_addr sub }
unfolding hs_send_at hs_send ll_send
hs_send_at-open x i c sub now ne =
    let e : (c.peer_addr == 0) ≡ false = ground (arith, ne) in rw (hs_send, e) refl

-- The half-open connection of a peer, and the server that has it in slot `i`.
abbrev half_open : Table → ℕ → ℕ → ℕ → Conn
half_open t i a now = record (new_conn t i a now) {
  hs_state = hs_syn_rcvd;
  tick_last_recv = now;
  hs_start = now;
}

abbrev asked : Ctx → ℕ → ℕ → ℕ → Ctx
asked y i a now =
    let y1 : Ctx = record y { table = added y.table i a now } in
    record (put_conn y1 i (stamped (half_open y.table i a now) now)) {
      io = sent_io y.io (new_conn y.table i a now).peer_addr syn_ack;
    }

new_peer-open :
    (y : Ctx) (a now i : ℕ)
    → a ≢ 0
    → conn_new y.table a now ≡ (added y.table i a now, some i)
    → new_peer open_link y a now ≡ asked y i a now
unfolding new_peer greet
new_peer-open y a now i ne e =
    let here : (i == i) ≡ true = ground arith in
    let some_one : (half_open y.table i a now).peer_addr ≢ 0 =
      rw (new_conn-peer_addr y.table i a now) ne in
    let welcome : greet open_link y (added y.table i a now, some i) now ≡ asked y i a now =
      rw (greet, here)
        (hs_send_at-open (record y { table = added y.table i a now }) i (half_open y.table i a now)
          syn_ack now some_one) in
    ap (λ (r : Table × Option ℕ). greet open_link y r now) e ∙ welcome

asked-table :
    (y : Ctx) (i a now : ℕ)
    → (asked y i a now).table.table i ≡ some (stamped (half_open y.table i a now) now)
asked-table y i a now = let here : (i == i) ≡ true = ground arith in rw here refl

asked-other : (y : Ctx) (i a now j : ℕ) → j ≢ i → (asked y i a now).table.table j ≡ y.table.table j
asked-other y i a now j ne = let other : (j == i) ≡ false = ground (arith, ne) in rw other refl

asked-by_addr :
    (y : Ctx) (i a now : ℕ)
    → i < 16
    → a ≢ 0
    → IsStranger y.table a
    → conn_by_addr (asked y i a now).table a ≡ some i
unfolding conn_by_addr
asked-by_addr y i a now small ne s =
    let t = (asked y i a now).table in
    let here : matches (t.table i) a ≡ true =
      rw (asked-table y i a now, new_conn-peer_addr y.table i a now) (ground arith) in
    let before : (k : ℕ) → k < i → matches (t.table k) a ≡ false =
      λ k lt. rw (asked-other y i a now k (omega (arith, lt))) (stranger-matches y.table a k s) in
    let known : (a == 0) ≡ false = ground (arith, ne) in
    if_false _ _ _ known
    ∙ by_addr-first 16 0 i t a (omega arith) (omega (arith, small)) (ground arith) here before

-- A connection with the address `addr` that is up, in slot `i`.
pub record IsUp (t : Table) (i addr : ℕ) : Type 0 where
  pub conn : Conn
  pub at : t.table i ≡ some conn
  pub up : conn.hs_state ≡ hs_up
  pub connected : conn.connected ≡ true
  pub peer : conn.peer_addr ≡ addr

server_syn :
    (y : Ctx) (a now i : ℕ)
    → y.hs_enable ≡ true
    → y.is_server ≡ true
    → a ≢ 0
    → IsStranger y.table a
    → conn_new y.table a now ≡ (added y.table i a now, some i)
    → hs_rx open_link y a syn now ≡ asked y i a now
unfolding hs_rx hs_rx_server conn_by_addr
server_syn y a now i on server ne s e =
    let go : (not y.hs_enable || a == 0) ≡ false = ground (arith, on, ne) in
    let unknown : conn_by_addr y.table a ≡ none =
      if_false (a == 0) none _ (ground (arith, ne)) ∙ by_addr-none 16 0 y.table a s in
    let rx : hs_rx_server open_link y a syn now ≡ new_peer open_link y a now =
      rw (hs_rx_server, unknown) refl in
    if_false _ _ _ go ∙ if_true _ _ _ server ∙ rx ∙ new_peer-open y a now i ne e

server_ack :
    (y : Ctx) (a now i : ℕ) (c : Conn)
    → y.hs_enable ≡ true
    → y.is_server ≡ true
    → a ≢ 0
    → conn_by_addr y.table a ≡ some i
    → y.table.table i ≡ some c
    → c.hs_state ≡ hs_syn_rcvd
    → c.peer_addr ≡ a
    → let y' = hs_rx open_link y a ack now in
      (u : IsUp y'.table i a) × (u.conn.handle ≡ c.handle)
      × (y'.io.out ≡ y.io.out ++ (event ev_accept c.handle a 0 ∷ []))
unfolding hs_rx hs_rx_server hs_rx_known emit
server_ack y a now i c on server ne found at half peer =
    let up : Conn = record c { hs_state = hs_up; tick_last_recv = now; connected = true } in
    let y' : Ctx = record (put_conn y i up) { io = emit y.io ev_accept c.handle a 0 } in
    let go : (not y.hs_enable || a == 0) ≡ false = ground (arith, on, ne) in
    let code : code_of c.hs_state ≡ 2 = rw half refl in
    let waits : (ack == ack && code_of c.hs_state == 2) ≡ true = ground (arith, code) in
    let known : hs_rx_known open_link y i c a ack now ≡ y' = if_true _ _ _ waits in
    let rx : hs_rx_server open_link y a ack now ≡ y' = rw (hs_rx_server, found, at) known in
    let all : hs_rx open_link y a ack now ≡ y' = if_false _ _ _ go ∙ if_true _ _ _ server ∙ rx in
    let here : (i == i) ≡ true = ground arith in
    rw all (
      record { conn = up; at = rw here refl; up = refl; connected = refl; peer = peer },
      refl,
      refl,
    )

client_syn_ack :
    (x : Ctx) (s now : ℕ) (c : Conn)
    → x.hs_enable ≡ true
    → x.is_server ≡ false
    → s ≢ 0
    → x.table.table 0 ≡ some c
    → c.hs_state ≡ hs_syn_sent
    → c.peer_addr ≡ s
    → let x' = hs_rx open_link x s syn_ack now in
      IsUp x'.table 0 s
      × (x'.io.out
          ≡ (x.io.out ++ (datagram s (type_handshake ∷ ack ∷ []) ∷ []))
            ++ (event ev_connect 0 s 0 ∷ []))
unfolding hs_rx hs_rx_client hs_rx_main emit
client_syn_ack x s now c on client ne at waits peer =
    let up : Conn = record c { hs_state = hs_up; tick_last_recv = now; connected = true } in
    let there : up.peer_addr ≢ 0 = rw peer ne in
    let x1 : Ctx = record (put_conn x 0 (stamped up now)) { io = sent_io x.io c.peer_addr ack } in
    let x' : Ctx = record x1 { io = emit x1.io ev_connect 0 c.peer_addr 0 } in
    let go : (not x.hs_enable || s == 0) ≡ false = ground (arith, on, ne) in
    let code : code_of c.hs_state ≡ 1 = rw waits refl in
    let right : (syn_ack == syn_ack && code_of c.hs_state == 1) ≡ true = ground (arith, code) in
    let answered : hs_send_at open_link x 0 up ack now ≡ x1 =
      hs_send_at-open x 0 up ack now there in
    let main : hs_rx_main open_link x c syn_ack now ≡ x' =
      if_true _ _ _ right
      ∙ ap (λ (t : Ctx). record t { io = emit t.io ev_connect 0 c.peer_addr 0 }) answered in
    let rx : hs_rx_client open_link x syn_ack now ≡ x' = rw (hs_rx_client, at) main in
    let all : hs_rx open_link x s syn_ack now ≡ x' =
      if_false _ _ _ go ∙ if_false _ _ _ client ∙ rx in
    rw all (
      record { conn = stamped up now; at = refl; up = refl; connected = refl; peer = peer },
      rw peer refl,
    )

taken_slot :
    (t : Table) (a now i : ℕ)
    → (conn_new t a now).1 ≡ some i
    → (conn_new t a now ≡ (added t i a now, some i)) × (i < 16)
taken_slot t a now i h = elim (conn_new-cases t a now) [
  | inl e ↦
      (let no : none ≡ some i = ap (λ (r : Table × Option ℕ). r.1) (sym e) ∙ h in
        absurd (none-ne-some i no))
  | inr (j, e, small, _, _, _) ↦
      (let it : some j ≡ some i = ap (λ (r : Table × Option ℕ). r.1) (sym e) ∙ h in
        let at : j ≡ i = some-injective j i it in rw (← at) (e, small))
]

client_start :
    (x : Ctx) (c : Conn) (now : ℕ)
    → x.hs_enable ≡ true
    → x.is_server ≡ false
    → c.peer_addr ≢ 0
    → let sent = stamped (record c { hs_state = hs_syn_sent; hs_start = now }) now in
      hs_start_client open_link x c now
      ≡ record (put_conn x 0 sent) { io = sent_io x.io c.peer_addr syn }
unfolding hs_start_client
client_start x c now on client ne =
    let go : (x.hs_enable && (not x.is_server && not (c.peer_addr == 0))) ≡ true =
      ground (arith, on, client, ne) in
    if_true _ _ _ go
    ∙ hs_send_at-open x 0 (record c { hs_state = hs_syn_sent; hs_start = now }) syn now ne

-- Where no frame is lost, the handshake comes to its end. A client with the address of a server
-- sends a SYN; the server, which has no connection with the client's address and finds a slot
-- for one, answers with a SYN-ACK; on it the client is up, sends an ACK and tells its application;
-- and on the ACK the server's connection is up and its application is told the handle.
pub handshake_completes :
    (x y : Ctx) (c : Conn) (a s i t0 t1 t2 t3 : ℕ)
    → x.hs_enable ≡ true
    → x.is_server ≡ false
    → c.peer_addr ≡ s
    → s ≢ 0
    → y.hs_enable ≡ true
    → y.is_server ≡ true
    → a ≢ 0
    → IsStranger y.table a
    → (conn_new y.table a t1).1 ≡ some i
    → let x0 = hs_start_client open_link x c t0 in
      let y1 = hs_rx open_link y a syn t1 in
      let x1 = hs_rx open_link x0 s syn_ack t2 in
      let y2 = hs_rx open_link y1 a ack t3 in
      (x0.io.out ≡ x.io.out ++ (datagram s (type_handshake ∷ syn ∷ []) ∷ []))
      × (y1.io.out ≡ y.io.out ++ (datagram a (type_handshake ∷ syn_ack ∷ []) ∷ []))
      × IsUp x1.table 0 s
      × (x1.io.out
          ≡ (x0.io.out ++ (datagram s (type_handshake ∷ ack ∷ []) ∷ []))
            ++ (event ev_connect 0 s 0 ∷ []))
      × ((u : IsUp y2.table i a) × (y2.io.out
            ≡ y1.io.out ++ (event ev_accept u.conn.handle a 0 ∷ [])))
handshake_completes x y c a s i t0 t1 t2 t3 xon client peer sne yon server ane stranger slot =
    let (made, small) = taken_slot y.table a t1 i slot in
    let some_peer : c.peer_addr ≢ 0 = rw peer sne in
    let sent : Conn = stamped (record c { hs_state = hs_syn_sent; hs_start = t0 }) t0 in
    let x0 : Ctx = record (put_conn x 0 sent) { io = sent_io x.io c.peer_addr syn } in
    let first : hs_start_client open_link x c t0 ≡ x0 = client_start x c t0 xon client some_peer in
    let (up, out) = client_syn_ack x0 s t2 sent xon client sne refl refl peer in
    let second : hs_rx open_link y a syn t1 ≡ asked y i a t1 =
      server_syn y a t1 i yon server ane stranger made in
    let half = stamped (half_open y.table i a t1) t1 in
    let known = new_conn-peer_addr y.table i a t1 in
    let (u, handle, told) =
      server_ack (asked y i a t1) a t3 i half yon server ane
        (asked-by_addr y i a t1 small ane stranger) (asked-table y i a t1) refl known in
    rw (first, second) (rw peer refl, rw known refl, up, out, (u, rw handle told))
