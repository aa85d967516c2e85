-- ===== src/System/Steps.antt =====
-- ffrdp.c, ffrdp_lowlevel_cb, ffrdp_send, ffrdp_recv, ffrdp_close and ffrdp_flush: each leaves every
-- connection sound, and so does any sequence of them.
use mathlib.Core.Option.{none-ne-some, some-injective}
use ffrdp.Base.{ℕ, ◌%◌, ◌≡◌, refl, inl, inr}
use ffrdp.Base.{Bool, true, false, not, ◌&&◌, ◌||◌, List, [], Option, none, some, length, get_or}
use ffrdp.Base.{ltb, leb, ◌==◌, if◌then◌else◌, if_both, Option-cases, Bool-cases}
use ffrdp.Base.Int.{ℤ, pos, negsuc}
use ffrdp.Slot.{type_handshake}
use ffrdp.Rcv.{copy}
use ffrdp.Conn.{Conn, hs_fin_wait}
use ffrdp.Table.{Table, conn_free, conn_lookup, conn_by_addr, maxconn_limit}
use ffrdp.Hs.{
  Ctx, put_conn, code_of, fin, ev_disconn, hs_send_at, tell, hs_rx, close_conn, chosen, flush_table,
  flush_conn, isdead_locked,
}
use ffrdp.Callback.{rx_conn, learn_peer, for_conn, for_slot, rx_at, rx_main, rx_first, lowlevel_rx}
use ffrdp.Calls.{eagain, closed, einval, recv_conn, recv_on, recv_now}
use ffrdp.System.{IsSound, TableSound, AllSound}
use ffrdp.System.Rings.{copy-FitsSlots}
use ffrdp.System.Frames.{rx_conn-IsSound}
use ffrdp.System.Shakes.{
  put_conn-AllSound, conn_free-TableSound, hs_rx-AllSound, hs_send_at-AllSound,
}

pub conn_lookup-IsSound :
    (t : Table) (h : ℤ) (c : Conn) → TableSound t → conn_lookup t h ≡ some c → IsSound c
unfolding conn_lookup
conn_lookup-IsSound t (negsuc n) c s e = absurd (none-ne-some c e)
conn_lookup-IsSound t (pos h) c s e = elim (Option-cases (t.table (h % maxconn_limit))) [
  | inl empty ↦ absurd (none-ne-some c (rw (← e, conn_lookup, empty) refl))
  | inr (d, held) ↦ elim (Bool-cases (leb t.maxconn (h % maxconn_limit) || not (d.handle == h))) [
    | inl stale ↦ absurd (none-ne-some c (rw (← e, conn_lookup, held, stale) refl))
    | inr good ↦
        rw (← some-injective d c (rw (← e, conn_lookup, held, good) refl))
          (s (h % maxconn_limit) d held)
  ]
]

learn_peer-AllSound :
    (x : Ctx) (c : Conn) (addr : ℕ) → AllSound x → IsSound c → AllSound (learn_peer x c addr)
unfolding learn_peer
learn_peer-AllSound x c addr h s =
    let d = record c { connected = true; peer_addr = addr } in
    if_both AllSound (x.is_server && (not x.hs_enable && not c.connected)) (put_conn x 0 d) x
      (put_conn-AllSound x 0 d h s) h

for_conn-AllSound :
    (x : Ctx) (i : ℕ) (fb : List ℕ) (now : ℕ) (o : Option Conn)
    → AllSound x
    → ((c : Conn) → o ≡ some c → IsSound c)
    → AllSound (for_conn x i fb now o)
for_conn-AllSound x i fb now none h s = h
for_conn-AllSound x i fb now (some c) h s =
    put_conn-AllSound x i (rx_conn x c fb now) h (rx_conn-IsSound x c fb now (s c refl))

for_slot-AllSound :
    (x : Ctx) (fb : List ℕ) (now : ℕ) (o : Option ℕ) → AllSound x → AllSound (for_slot x fb now o)
for_slot-AllSound x fb now none h = h
for_slot-AllSound x fb now (some i) h = for_conn-AllSound x i fb now (x.table.table i) h (h i)

pub flush_conn-AllSound : (x : Ctx) (conn : ℤ) → AllSound x → AllSound (flush_conn x conn)
unfolding flush_conn flush_table
flush_conn-AllSound x conn h j d e = elim (Option-cases (x.table.table j)) [
  | inl empty ↦ absurd (none-ne-some d (rw (← e, flush_conn, flush_table, empty) refl))
  | inr (c, held) ↦
      (let b = ltb j x.table.nconn && chosen conn j in
        let flushed = if b then record c { flush = true } else c in
        let same : flushed ≡ d =
          some-injective flushed d (rw (← e, flush_conn, flush_table, held) refl) in
        rw (← same) (if_both IsSound b (record c { flush = true }) c (h j c held) (h j c held)))
]

recv_conn-IsSound :
    (x : Ctx) (c : Conn) (len now : ℕ) → IsSound c → IsSound (recv_conn x c len now).0
unfolding recv_conn
recv_conn-IsSound x c len now h =
    let (r1, (out, freed)) = copy c.rcv len in
    let c1 = record c { rcv = r1 } in
    let opened = record c { rcv = record r1 { rx_wnd_zero = false }; ack_due = true } in
    let with_rcv : IsSound c1 = record {
      window = h.window;
      timeout = h.timeout;
      limit = h.limit;
      credit = h.credit;
      filling = h.filling;
      slots = copy-FitsSlots c.rcv len h.slots;
    } in
    let with_wnd : IsSound opened = record {
      window = h.window;
      timeout = h.timeout;
      limit = h.limit;
      credit = h.credit;
      filling = h.filling;
      slots = copy-FitsSlots c.rcv len h.slots;
    } in
    let P : Conn × (List ℕ × ℤ) → Type 0 = λ q. IsSound q.0 in
    let got : Conn × (List ℕ × ℤ) =
      (if freed && r1.rx_wnd_zero then opened else c1, (out, pos (length out))) in
    let over : Conn × (List ℕ × ℤ) = (c1, ([], closed)) in
    let later : Conn × (List ℕ × ℤ) = (c1, ([], eagain)) in
    let dead = isdead_locked x c1 now in
    if_both P (ltb 0 (length out)) got (if dead then over else later)
      (if_both IsSound (freed && r1.rx_wnd_zero) opened c1 with_wnd with_rcv)
      (if_both P dead over later with_rcv with_rcv)

recv_on-AllSound :
    (x : Ctx) (len now : ℕ) (o : Option Conn)
    → AllSound x
    → ((c : Conn) → o ≡ some c → IsSound c)
    → AllSound (recv_on x len now o).0
recv_on-AllSound x len now none h s = h
recv_on-AllSound x len now (some c) h s =
    put_conn-AllSound x (c.handle % maxconn_limit) (recv_conn x c len now).0 h
      (recv_conn-IsSound x c len now (s c refl))

pub recv_now-AllSound :
    (x : Ctx) (conn : ℤ) (len now : ℕ) → AllSound x → AllSound (recv_now x conn len now).0
unfolding recv_now
recv_now-AllSound x conn len now h =
    if_both (λ (q : Ctx × (List ℕ × ℤ)). AllSound q.0) (ltb len 1) (x, ([], einval))
      (recv_on x len now (conn_lookup x.table conn)) h
      (recv_on-AllSound x len now (conn_lookup x.table conn) h
        (λ c e. conn_lookup-IsSound x.table conn c h e))

module _ (link : ℕ → Bool) where
  rx_main-AllSound :
      (x : Ctx) (c : Conn) (addr : ℕ) (fb : List ℕ) (now : ℕ)
      → AllSound x
      → IsSound c
      → AllSound (rx_main link x c addr fb now).0
  unfolding rx_main rx_at
  rx_main-AllSound x c addr fb now h s =
      let P : Ctx × Bool → Type 0 = λ q. AllSound q.0 in
      let is_handshake = x.hs_enable && (leb 2 (length fb) && get_or fb 0 0 == type_handshake) in
      let y = learn_peer x c addr in
      let shaken : Ctx × Bool = (hs_rx link x addr (get_or fb 1 0) now, true) in
      let taken : Ctx × Bool = (rx_at y addr fb now, true) in
      if_both P (ltb (length fb) 1) (x, false) (if is_handshake then shaken else taken) h
        (if_both P is_handshake shaken taken (hs_rx-AllSound link x addr (get_or fb 1 0) now h) (
          for_slot-AllSound y fb now (conn_by_addr y.table addr)
            (learn_peer-AllSound x c addr h s)))

  rx_first-AllSound :
      (x : Ctx) (addr : ℕ) (fb : List ℕ) (now : ℕ) (o : Option Conn)
      → AllSound x
      → ((c : Conn) → o ≡ some c → IsSound c)
      → AllSound (rx_first link x addr fb now o).0
  rx_first-AllSound x addr fb now none h s = h
  rx_first-AllSound x addr fb now (some c) h s = rx_main-AllSound x c addr fb now h (s c refl)

  pub lowlevel_rx-AllSound :
      (x : Ctx) (addr : ℕ) (fb : List ℕ) (now : ℕ)
      → AllSound x
      → AllSound (lowlevel_rx link x addr fb now).0
  unfolding lowlevel_rx
  lowlevel_rx-AllSound x addr fb now h =
      if_both (λ (q : Ctx × Bool). AllSound q.0) x.closing (x, false)
        (rx_first link x addr fb now (x.table.table 0)) h
        (rx_first-AllSound x addr fb now (x.table.table 0) h (h 0))

  pub close_conn-AllSound :
      (x : Ctx) (conn : ℤ) (now : ℕ) → AllSound x → AllSound (close_conn link x conn now).0
  unfolding close_conn
  close_conn-AllSound x conn now h = elim (Option-cases (conn_lookup x.table conn)) [
    | inl e ↦ rw (close_conn, e) h
    | inr (c, e) ↦
        (let i = c.handle % maxconn_limit in
          let local = tell link x ev_disconn c.handle c.peer_addr 4 in
          let d = record c { hs_state = hs_fin_wait; hs_start = now } in
          let asked : Ctx × Bool = (hs_send_at link x i d fin now, true) in
          let gone : Ctx × Bool = (record local { table = conn_free local.table i }, true) in
          rw (close_conn, e)
            (if_both (λ (q : Ctx × Bool). AllSound q.0) (x.hs_enable && code_of c.hs_state == 3)
              asked gone
              (hs_send_at-AllSound link x i d fin now h (conn_lookup-IsSound x.table conn c h e))
              (conn_free-TableSound x.table i h)))
  ]
