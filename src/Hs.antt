-- ===== src/Hs.antt =====
-- ffrdp.c, the handshake: ffrdp_hs_send, ffrdp_hs_rx, ffrdp_close, ffrdp_isdead and ffrdp_flush on
-- the context. The application's and the lower layer's share is a list of what they are given.
pub mod Ignored
pub mod Complete
pub mod Sent
mod Tests
use ffrdp.Base.{ℕ, ◌+◌, ◌-◌, ◌*◌, ◌/◌, ◌%◌, ◌^◌, Bool, true, false, not, ◌&&◌, ◌||◌}
use ffrdp.Base.{List, [], ◌∷◌, ◌++◌, Option, none, some}
use ffrdp.Base.{ltb, leb, ◌==◌, if◌then◌else◌, add32, sub32, slt32, sle32}
use ffrdp.Base.Int.{ℤ, pos, negsuc}
use ffrdp.Slot.{Slot, type_handshake}
use ffrdp.Snd.{snd_head}
use ffrdp.Rtt.{idle_deadline}
use ffrdp.Conn.{Conn, HsState, hs_none, hs_syn_sent, hs_syn_rcvd, hs_up, hs_fin_wait, hs_failed}
use ffrdp.Table.{Table, conn_new, conn_free, conn_lookup, conn_by_addr, maxconn_limit}

-- What goes out: a datagram that the lower layer takes, and an event of the application with its
-- type, handle, address and code.
pub data Out : Type 0 where
  datagram : ℕ → List ℕ → Out
  event : ℕ → ℕ → ℕ → ℕ → Out

-- How many datagrams the lower layer was asked to send, and what went out, the first first.
pub record Io : Type 0 where
  pub tries : ℕ
  pub out : List Out

-- FFRDPCONTEXT. `handshake_ms` and `idle_ms` are `int`s, kept as words.
pub record Ctx : Type 0 where
  pub table : Table
  pub io : Io
  pub is_server : Bool
  pub hs_enable : Bool
  pub closing : Bool
  pub handshake_ms : ℕ
  pub idle_ms : ℕ

-- FFRDP_HS_SYN, FFRDP_HS_SYN_ACK, FFRDP_HS_ACK and FFRDP_HS_FIN.
abbrev pub syn : ℕ
syn = 1

abbrev pub syn_ack : ℕ
syn_ack = 2

abbrev pub ack : ℕ
ack = 3

abbrev pub fin : ℕ
fin = 4

-- FFRDP_ACCEPT, FFRDP_CONNECT and FFRDP_DISCONN.
abbrev pub ev_accept : ℕ
ev_accept = 0

abbrev pub ev_connect : ℕ
ev_connect = 1

abbrev pub ev_disconn : ℕ
ev_disconn = 2

-- The number of a state, for the tests.
abbrev pub code_of : HsState → ℕ
code_of hs_none = 0
code_of hs_syn_sent = 1
code_of hs_syn_rcvd = 2
code_of hs_up = 3
code_of hs_fin_wait = 4
code_of hs_failed = 5

abbrev pub put_conn : Ctx → ℕ → Conn → Ctx
put_conn x i c = record x {
  table = record x.table { table = λ j. if j == i then some c else x.table.table j };
}

-- ffrdp_emit_ex
unfoldable pub emit : Io → ℕ → ℕ → ℕ → ℕ → Io
emit io type handle addr code = record io { out = io.out ++ (event type handle addr code ∷ []) }

-- The deadline past which nothing has been heard: `(int32_t)(now - since) > ms`.
abbrev pub longer : ℕ → ℕ → ℕ → Bool
longer now since ms = slt32 ms (sub32 now since)

abbrev pub dead_timeout : ℕ
dead_timeout = 5000

-- ffrdp_isdead_locked
unfoldable pub isdead_locked : Ctx → Conn → ℕ → Bool
isdead_locked x c now =
    let silent = longer now c.tick_last_recv (idle_deadline x.idle_ms c.rtt.rtts) in
    let head_old : Bool = elim (snd_head c.snd) [
      | none ↦ false
      | some i ↦
          (let h = c.snd.slots i in
            if h.first_send
            then longer now h.tick_1sts dead_timeout && longer now c.tick_last_recv dead_timeout
            else longer c.tick_send_query c.tick_recv_ack dead_timeout)
    ] in
    code_of c.hs_state == 5 || ((x.hs_enable && (code_of c.hs_state == 3 && silent)) || head_old)

-- ffrdp_isdead; `true` stands for any result but 0.
unfoldable pub isdead : Ctx → ℤ → ℕ → Bool
unfolding isdead_locked
isdead x conn now = elim (conn_lookup x.table conn) [ none ↦ true | some c ↦ isdead_locked x c now ]

-- ffrdp_flush goes by the slot's index, for a handle that is not negative.
abbrev pub chosen : ℤ → ℕ → Bool
chosen (pos h) i = i == h
chosen (negsuc n) i = true

-- The loop of ffrdp_flush over the slots.
unfoldable pub flush_table : Table → ℤ → Table
flush_table t conn = record t {
  table = λ i. elim (t.table i) [
    | none ↦ none
    | some c ↦ some (if ltb i t.nconn && chosen conn i then record c { flush = true } else c)
  ];
}

-- ffrdp_flush
unfoldable pub flush_conn : Ctx → ℤ → Ctx
flush_conn x conn = record x { table = flush_table x.table conn }

-- The state HS_FAILED for the main connection.
abbrev pub fail_main : Option Conn → Option Conn
fail_main none = none
fail_main (some c) = some (record c { hs_state = hs_failed })

module _ (link : ℕ → Bool) where
  -- The `send` of the lower layer; `link n` tells whether it takes the datagram of try `n`.
  unfoldable pub ll_send : Io → ℕ → List ℕ → Io × Bool
  ll_send io addr data_bytes =
      if link io.tries
      then (record { tries = io.tries + 1; out = io.out ++ (datagram addr data_bytes ∷ []) }, true)
      else (record io { tries = io.tries + 1 }, false)

  -- ffrdp_hs_send
  unfoldable pub hs_send : Io → Conn → ℕ → ℕ → Io × Conn
  hs_send io c sub now =
      let (io1, ok) = ll_send io c.peer_addr (type_handshake ∷ sub ∷ []) in
      let c1 = record c { hs_tick = now } in
      if c.peer_addr == 0
      then (io, c)
      else if ok
      then (io1, record c1 { hs_retry = add32 c.hs_retry 1 })
      else (io1, c1)

  -- ffrdp_hs_send on the connection in slot `i`, which becomes `c` first.
  unfoldable pub hs_send_at : Ctx → ℕ → Conn → ℕ → ℕ → Ctx
  hs_send_at x i c sub now =
      let (io1, c1) = hs_send x.io c sub now in record (put_conn x i c1) { io = io1 }

  abbrev pub tell : Ctx → ℕ → ℕ → ℕ → ℕ → Ctx
  tell x type handle addr code = record x { io = emit x.io type handle addr code }

  -- The end of a connection that gets a FIN: it is answered, and the application is told.
  unfoldable pub answer_fin : Ctx → ℕ → Conn → ℕ → Ctx
  answer_fin x i c now =
      let x1 = if code_of c.hs_state == 4 then x else hs_send_at x i c fin now in
      tell x1 ev_disconn c.handle c.peer_addr 1

  -- A SYN of an address that has no connection; the pair is what ffrdp_conn_new gives.
  unfoldable pub greet : Ctx → Table × Option ℕ → ℕ → Ctx
  greet x (t1, none) now = record x { table = t1 }
  greet x (t1, some i) now = elim (t1.table i) [
    | none ↦ record x { table = t1 }
    | some c ↦
        hs_send_at (record x { table = t1 }) i
          (record c { hs_state = hs_syn_rcvd; tick_last_recv = now; hs_start = now }) syn_ack now
  ]

  unfoldable pub new_peer : Ctx → ℕ → ℕ → Ctx
  new_peer x addr now = greet x (conn_new x.table addr now) now

  -- A handshake frame for the connection `c` in slot `i` of a server.
  unfoldable pub hs_rx_known : Ctx → ℕ → Conn → ℕ → ℕ → ℕ → Ctx
  hs_rx_known x i c addr sub now =
      let up = record c { hs_state = hs_up; tick_last_recv = now; connected = true } in
      let gone = answer_fin x i c now in
      if sub == syn && code_of c.hs_state == 2
      then hs_send_at x i c syn_ack now
      else if sub == ack && code_of c.hs_state == 2
      then tell (put_conn x i up) ev_accept c.handle addr 0
      else if sub == fin
      then record gone { table = conn_free gone.table i }
      else x

  unfoldable pub hs_rx_server : Ctx → ℕ → ℕ → ℕ → Ctx
  hs_rx_server x addr sub now = elim (conn_by_addr x.table addr) [
    | none ↦ (if sub == syn then new_peer x addr now else x)
    | some i ↦ (elim (x.table.table i) [ none ↦ x | some c ↦ hs_rx_known x i c addr sub now ])
  ]

  -- A handshake frame for the main connection of a client.
  unfoldable pub hs_rx_main : Ctx → Conn → ℕ → ℕ → Ctx
  hs_rx_main x c sub now =
      let gone = answer_fin x 0 c now in
      let up = record c { hs_state = hs_up; tick_last_recv = now; connected = true } in
      if sub == fin
      then record gone {
        table = record gone.table {
          table = λ j. if j == 0 then fail_main (gone.table.table 0) else gone.table.table j;
        };
      }
      else if sub == syn_ack && code_of c.hs_state == 1
      then tell (hs_send_at x 0 up ack now) ev_connect 0 c.peer_addr 0
      else x

  unfoldable pub hs_rx_client : Ctx → ℕ → ℕ → Ctx
  hs_rx_client x sub now = elim (x.table.table 0) [ none ↦ x | some c ↦ hs_rx_main x c sub now ]

  -- ffrdp_hs_rx
  unfoldable pub hs_rx : Ctx → ℕ → ℕ → ℕ → Ctx
  hs_rx x addr sub now =
      if not x.hs_enable || addr == 0
      then x
      else if x.is_server
      then hs_rx_server x addr sub now
      else hs_rx_client x sub now

  -- The main connection of a client as ffrdp_init leaves it: the SYN is on its way.
  unfoldable pub hs_start_client : Ctx → Conn → ℕ → Ctx
  hs_start_client x c now =
      if x.hs_enable && (not x.is_server && not (c.peer_addr == 0))
      then hs_send_at x 0 (record c { hs_state = hs_syn_sent; hs_start = now }) syn now
      else x

  -- ffrdp_close: the context, and whether it returned 0.
  unfoldable pub close_conn : Ctx → ℤ → ℕ → Ctx × Bool
  close_conn x conn now = elim (conn_lookup x.table conn) [
    | none ↦ (x, false)
    | some c ↦
        (let i = c.handle % maxconn_limit in
          let local = tell x ev_disconn c.handle c.peer_addr 4 in
          if x.hs_enable && code_of c.hs_state == 3
          then (hs_send_at x i (record c { hs_state = hs_fin_wait; hs_start = now }) fin now, true)
          else (record local { table = conn_free local.table i }, true))
  ]
