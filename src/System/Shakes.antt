-- ===== src/System/Shakes.antt =====
-- ffrdp.c, the connection table, the handshake, ffrdp_close and ffrdp_flush: each leaves every
-- connection sound.
use mathlib.Core.Option.{none-ne-some, some-injective}
use ffrdp.Base.{ℕ, ◌+◌, ◌-◌, ◌≡◌, refl, arith, inl, inr}
use ffrdp.Base.{Bool, true, not, ◌&&◌, ◌||◌, Option, none, some}
use ffrdp.Base.{ltb, leb, ◌==◌, if◌then◌else◌, if_both, Option-cases, add32}
use ffrdp.Conn.{Conn, conn_init, hs_syn_rcvd, hs_up, hs_failed}
use ffrdp.Table.{
  Table, is_empty, new_conn, conn_new, conn_free, conn_by_addr, free_from, maxconn_limit,
}
use ffrdp.Hs.{
  Ctx, put_conn, code_of, syn, syn_ack, ack, fin, ev_accept, ev_connect, hs_send, hs_send_at, tell,
  answer_fin, greet, new_peer, hs_rx_known, fail_main, hs_rx_server, hs_rx_main, hs_rx_client,
  hs_rx,
}
use ffrdp.Hs.Sent.{hs_send-Retimed}
use ffrdp.System.{IsSound, TableSound, AllSound}

pub put_conn-AllSound :
    (x : Ctx) (i : ℕ) (c : Conn) → AllSound x → IsSound c → AllSound (put_conn x i c)
put_conn-AllSound x i c h s j d =
    if_both (λ (o : Option Conn). o ≡ some d → IsSound d) (j == i) (some c) (x.table.table j)
      (λ e. rw (← some-injective c d e) s) (h j d)

pub conn_free-TableSound : (t : Table) (i : ℕ) → TableSound t → TableSound (conn_free t i)
unfolding conn_free
conn_free-TableSound t i h =
    let gone = λ (j : ℕ). if j == i then none else t.table j in
    let found = ltb i t.nconn && (ltb i maxconn_limit && not (is_empty (t.table i))) in
    let freed = record t {
      table = gone;
      live_conn = if t.live_conn == 0 then 0 else t.live_conn - 1;
    } in
    if_both TableSound found freed t
      (λ j c.
        if_both (λ (o : Option Conn). o ≡ some c → IsSound c) (j == i) none (t.table j)
          (λ e. absurd (none-ne-some c e)) (h j c))
      h

new_conn-IsSound : (t : Table) (i addr now : ℕ) → IsSound (new_conn t i addr now)
unfolding new_conn conn_init
new_conn-IsSound t i addr now = record {
  window = omega arith;
  timeout = omega arith;
  limit = record { kept = inl refl; undone = inl refl; in_use = omega arith };
  credit = omega arith;
  filling = record { mss_min = ground arith; mss_max = ground arith; room = ground arith };
  slots = λ j. omega arith;
}

conn_new-TableSound : (t : Table) (addr now : ℕ) → TableSound t → TableSound (conn_new t addr now).0
unfolding conn_new
conn_new-TableSound t addr now h = elim (Option-cases (free_from 15 1 t)) [
  | inl e ↦ rw (conn_new, e) h
  | inr (i, e) ↦
      (let c = new_conn t i addr now in
        let made : Table × Option ℕ = (
          record t {
            table = λ j. if j == i then some c else t.table j;
            gen = λ j. if j == i then add32 (t.gen i) 1 else t.gen j;
            nconn = if ltb t.nconn (i + 1) then i + 1 else t.nconn;
            live_conn = add32 t.live_conn 1;
          },
          some i,
        ) in
        rw (conn_new, e)
          (if_both (λ (q : Table × Option ℕ). TableSound q.0) (leb 0x08000000 (t.gen i)) (t, none)
            made h
            (λ j d.
              if_both (λ (o : Option Conn). o ≡ some d → IsSound d) (j == i) (some c) (t.table j)
                (λ same. rw (← some-injective c d same) (new_conn-IsSound t i addr now)) (h j d))))
]

module _ (link : ℕ → Bool) where
  pub hs_send_at-AllSound :
      (x : Ctx) (i : ℕ) (c : Conn) (sub now : ℕ)
      → AllSound x
      → IsSound c
      → AllSound (hs_send_at link x i c sub now)
  unfolding hs_send_at
  hs_send_at-AllSound x i c sub now h s =
      let (t, k, same) = hs_send-Retimed link x.io c sub now in
      put_conn-AllSound x i (hs_send link x.io c sub now).1 h (rw same s)

  answer_fin-AllSound :
      (x : Ctx) (i : ℕ) (c : Conn) (now : ℕ)
      → AllSound x
      → IsSound c
      → AllSound (answer_fin link x i c now)
  unfolding answer_fin
  answer_fin-AllSound x i c now h s =
      if_both AllSound (code_of c.hs_state == 4) x (hs_send_at link x i c fin now) h
        (hs_send_at-AllSound x i c fin now h s)

  hs_rx_known-AllSound :
      (x : Ctx) (i : ℕ) (c : Conn) (addr sub now : ℕ)
      → AllSound x
      → IsSound c
      → AllSound (hs_rx_known link x i c addr sub now)
  unfolding hs_rx_known
  hs_rx_known-AllSound x i c addr sub now h s =
      let up = record c { hs_state = hs_up; tick_last_recv = now; connected = true } in
      let gone = answer_fin link x i c now in
      let h1 = hs_send_at-AllSound x i c syn_ack now h s in
      let h2 = put_conn-AllSound x i up h s in
      let ended = record gone { table = conn_free gone.table i } in
      let h3 = conn_free-TableSound gone.table i (answer_fin-AllSound x i c now h s) in
      let raised = tell link (put_conn x i up) ev_accept c.handle addr 0 in
      let b2 = sub == ack && code_of c.hs_state == 2 in
      let late = if sub == fin then ended else x in
      if_both AllSound (sub == syn && code_of c.hs_state == 2) (hs_send_at link x i c syn_ack now)
        (if b2 then raised else late) h1
        (if_both AllSound b2 raised late h2 (if_both AllSound (sub == fin) ended x h3 h))

  greet-AllSound :
      (x : Ctx) (t : Table) (o : Option ℕ) (now : ℕ)
      → TableSound t
      → AllSound (greet link x (t, o) now)
  unfolding greet
  greet-AllSound x t none now h = h
  greet-AllSound x t (some i) now h = elim (Option-cases (t.table i)) [
    | inl e ↦ rw (greet, e) h
    | inr (c, e) ↦
        rw (greet, e)
          (hs_send_at-AllSound (record x { table = t }) i
            (record c { hs_state = hs_syn_rcvd; tick_last_recv = now; hs_start = now }) syn_ack now
            h (h i c e))
  ]

  hs_rx_server-AllSound :
      (x : Ctx) (addr sub now : ℕ) → AllSound x → AllSound (hs_rx_server link x addr sub now)
  unfolding hs_rx_server new_peer
  hs_rx_server-AllSound x addr sub now h = elim (Option-cases (conn_by_addr x.table addr)) [
    | inl e ↦
        (let (t, o) = conn_new x.table addr now in
          rw (hs_rx_server, e)
            (if_both AllSound (sub == syn) (new_peer link x addr now) x
              (greet-AllSound x t o now (conn_new-TableSound x.table addr now h)) h))
    | inr (i, e) ↦ elim (Option-cases (x.table.table i)) [
      | inl f ↦ rw (hs_rx_server, e, f) h
      | inr (c, f) ↦ rw (hs_rx_server, e, f) (hs_rx_known-AllSound x i c addr sub now h (h i c f))
    ]
  ]

  failed-IsSound :
      (o : Option Conn) (d : Conn)
      → ((c : Conn) → o ≡ some c → IsSound c)
      → fail_main o ≡ some d
      → IsSound d
  failed-IsSound none d h e = absurd (none-ne-some d e)
  failed-IsSound (some c) d h e =
      rw (← some-injective (record c { hs_state = hs_failed }) d e) (h c refl)

  hs_rx_main-AllSound :
      (x : Ctx) (c : Conn) (sub now : ℕ)
      → AllSound x
      → IsSound c
      → AllSound (hs_rx_main link x c sub now)
  unfolding hs_rx_main
  hs_rx_main-AllSound x c sub now h s =
      let gone = answer_fin link x 0 c now in
      let h0 = answer_fin-AllSound x 0 c now h s in
      let ended = record gone {
        table = record gone.table {
          table = λ j. if j == 0 then fail_main (gone.table.table 0) else gone.table.table j;
        };
      } in
      let h1 : AllSound ended = λ j d.
        if_both (λ (o : Option Conn). o ≡ some d → IsSound d) (j == 0)
          (fail_main (gone.table.table 0)) (gone.table.table j)
          (failed-IsSound (gone.table.table 0) d (h0 0)) (h0 j d) in
      let up = record c { hs_state = hs_up; tick_last_recv = now; connected = true } in
      let raised = tell link (hs_send_at link x 0 up ack now) ev_connect 0 c.peer_addr 0 in
      let b2 = sub == syn_ack && code_of c.hs_state == 1 in
      if_both AllSound (sub == fin) ended (if b2 then raised else x) h1
        (if_both AllSound b2 raised x (hs_send_at-AllSound x 0 up ack now h s) h)

  pub hs_rx-AllSound :
      (x : Ctx) (addr sub now : ℕ) → AllSound x → AllSound (hs_rx link x addr sub now)
  unfolding hs_rx hs_rx_client
  hs_rx-AllSound x addr sub now h =
      let of_client : AllSound (hs_rx_client link x sub now) =
        elim (Option-cases (x.table.table 0)) [
          | inl e ↦ rw (hs_rx_client, e) h
          | inr (c, e) ↦ rw (hs_rx_client, e) (hs_rx_main-AllSound x c sub now h (h 0 c e))
        ] in
      if_both AllSound (not x.hs_enable || addr == 0) x
        (if x.is_server then hs_rx_server link x addr sub now else hs_rx_client link x sub now) h
        (if_both AllSound x.is_server (hs_rx_server link x addr sub now)
          (hs_rx_client link x sub now) (hs_rx_server-AllSound x addr sub now h) of_client)
