-- ===== src/System/Reach.antt =====
-- ffrdp.c as a whole: the contexts that ffrdp_init makes and those that any calls lead to.
use mathlib.Core.Option.{none-ne-some, some-injective}
use ffrdp.Base.{ℕ, zero, suc, ◌+◌, ◌/◌, ◌%◌, ◌≡◌, refl, sym, ap, ◌∙◌}
use ffrdp.Base.{Bool, false, ◌&&◌, ◌||◌, List, [], ◌∷◌, Option, none, some, length}
use ffrdp.Base.{ltb, ◌==◌, if◌then◌else◌, if_both, ℕ_discrete, sub32, sle32, slt32, half32}
use ffrdp.Base.Int.{ℤ, pos}
use ffrdp.Slot.{type_query}
use ffrdp.Snd.{frame_message}
use ffrdp.Rtt.{idle_deadline}
use ffrdp.Conn.{Conn, hs_failed}
use ffrdp.Table.{conn_free, conn_lookup, maxconn_limit}
use ffrdp.Hs.{
  Ctx, emit, put_conn, code_of, ev_disconn, ll_send, hs_send, tell, close_conn, flush_conn,
}
use ffrdp.Hs.Sent.{hs_send-Retimed}
use ffrdp.Tick.{tick_ack, tick_work, tick_conn}
use ffrdp.Due.{handshaking, next_due}
use ffrdp.Callback.{
  lowlevel_rx, again, hs_retry_ms, hs_retry_at, hs_give_up, timer_work, timer_conn, timer_slot,
  timer_from, timer_first, lowlevel_timer,
}
use ffrdp.Calls.{
  eagain, einval, send_gate, has_room, send_try, send_by, send_on, send_now, recv_now,
}
use ffrdp.Init.{init}
use ffrdp.Init.Fresh.{init-IsFresh}
use ffrdp.System.{IsSound, AllSound}
use ffrdp.System.Rings.{frame_message-HasRoom}
use ffrdp.System.Frames.{with_snd}
use ffrdp.System.Lap.{tick_ack-IsSound, tick_work-IsSound}
use ffrdp.System.Shakes.{put_conn-AllSound, conn_free-TableSound}
use ffrdp.System.Steps.{
  conn_lookup-IsSound, lowlevel_rx-AllSound, close_conn-AllSound, flush_conn-AllSound,
  recv_now-AllSound,
}

module _ (link : ℕ → Bool) where
  hs_retry_at-AllSound :
      (x : Ctx) (i : ℕ) (c : Conn) (now : ℕ)
      → AllSound x
      → IsSound c
      → AllSound (hs_retry_at link x i c now).0 × IsSound (hs_retry_at link x i c now).1
  unfolding hs_retry_at
  hs_retry_at-AllSound x i c now h s =
      let (io1, c1) = hs_send link x.io c (again link c) now in
      let (t, k, same) = hs_send-Retimed link x.io c (again link c) now in
      let s1 : IsSound c1 = rw same s in
      if_both (λ (q : Ctx × Conn). AllSound q.0 × IsSound q.1)
        (sle32 (hs_retry_ms link) (sub32 now c.hs_tick)) (record (put_conn x i c1) { io = io1 }, c1)
        (x, c) (put_conn-AllSound x i c1 h s1, s1) (h, s)

  hs_give_up-AllSound :
      (x : Ctx) (i : ℕ) (c : Conn) → AllSound x → IsSound c → AllSound (hs_give_up link x i c)
  unfolding hs_give_up
  hs_give_up-AllSound x i c h s =
      let told = tell link x ev_disconn c.handle c.peer_addr 3 in
      let failed = record c { hs_state = hs_failed } in
      if_both AllSound x.is_server (record told { table = conn_free x.table i })
        (put_conn told i failed) (conn_free-TableSound x.table i h)
        (put_conn-AllSound x i failed h s)

  module _ {S : Type 0} (encrypt : ℕ → List ℕ → List ℕ)
      (app : S → List ℕ → S × (List ℕ × Bool)) where
    tick_conn-AllSound :
        (x : Ctx) (s : S) (i : ℕ) (c : Conn) (now : ℕ)
        → AllSound x
        → IsSound c
        → AllSound (tick_conn link encrypt app x s i c now).0
    unfolding tick_conn
    tick_conn-AllSound x s i c now h sound =
        let P : Ctx × S → Type 0 = λ q. AllSound q.0 in
        let silent = sub32 now c.tick_last_recv in
        let idle = idle_deadline x.idle_ms c.rtt.rtts in
        let watched = x.hs_enable && code_of c.hs_state == 3 in
        let x1 = put_conn x i (record c { hs_state = hs_failed }) in
        let dead = record x1 { io = emit x.io ev_disconn c.handle c.peer_addr 2 } in
        let h1 = put_conn-AllSound x i (record c { hs_state = hs_failed }) h sound in
        let quiet =
          c.tick_send_query == 0 || sle32 (half32 x.idle_ms) (sub32 now c.tick_send_query) in
        let asks = watched && (sle32 (idle / 2) silent && quiet) in
        let (io2, _) = ll_send link x.io c.peer_addr (type_query ∷ []) in
        let asked = record c { tick_send_query = now } in
        let c2 = if asks then asked else c in
        let s2 = if_both IsSound asks asked c sound sound in
        let (c3, (io3, s3)) = tick_work link encrypt app c2 (if asks then io2 else x.io) s now in
        let s4 = tick_work-IsSound link encrypt app c2 (if asks then io2 else x.io) s now s2 in
        let freed = record dead { table = conn_free dead.table i } in
        let ended : Ctx × S = (if i == 0 then dead else freed, s) in
        let worked : Ctx × S = (record (put_conn x i c3) { io = io3 }, s3) in
        if_both P (watched && sle32 idle silent) ended worked
          (if_both AllSound (i == 0) dead freed h1 (conn_free-TableSound dead.table i h1))
          (put_conn-AllSound x i c3 h s4)

    timer_work-AllSound :
        (x : Ctx) (s : S) (i : ℕ) (c : Conn) (now : ℕ)
        → AllSound x
        → IsSound c
        → AllSound (timer_work link encrypt app x s i c now).0
    unfolding timer_work
    timer_work-AllSound x s i c now h sound =
        let d = next_due x c now in
        let (c1, (io1, s1)) = tick_ack link encrypt app c x.io s in
        let acked : Ctx × S = (record (put_conn x i c1) { io = io1 }, s1) in
        if_both (λ (q : Ctx × S). AllSound q.0) (c.ack_due && (d == 0 || slt32 0 (sub32 d now)))
          acked (tick_conn link encrypt app x s i c now)
          (put_conn-AllSound x i c1 h (tick_ack-IsSound link encrypt app c x.io s sound))
          (tick_conn-AllSound x s i c now h sound)

    timer_conn-AllSound :
        (x : Ctx) (s : S) (i : ℕ) (c : Conn) (now : ℕ)
        → AllSound x
        → IsSound c
        → AllSound (timer_conn link encrypt app x s i c now).0
    unfolding timer_conn
    timer_conn-AllSound x s i c now h sound =
        let P : Ctx × S → Type 0 = λ q. AllSound q.0 in
        let (x1, c1) = hs_retry_at link x i c now in
        let (h1, s1) = hs_retry_at-AllSound x i c now h sound in
        let late = sle32 x.handshake_ms (sub32 now c.hs_start) in
        let over : Ctx × S = (hs_give_up link x1 i c1, s) in
        let on = timer_work link encrypt app x1 s i c1 now in
        if_both P (x.hs_enable && handshaking c) (if late then over else on)
          (timer_work link encrypt app x s i c now)
          (if_both P late over on (hs_give_up-AllSound x1 i c1 h1 s1)
            (timer_work-AllSound x1 s i c1 now h1 s1))
          (timer_work-AllSound x s i c now h sound)

    timer_slot-AllSound :
        (x : Ctx) (s : S) (i now : ℕ) (o : Option Conn)
        → AllSound x
        → ((c : Conn) → o ≡ some c → IsSound c)
        → AllSound (timer_slot link encrypt app x s i now o).0
    timer_slot-AllSound x s i now none h here = h
    timer_slot-AllSound x s i now (some c) h here = timer_conn-AllSound x s i c now h (here c refl)

    timer_from-AllSound :
        (fuel i : ℕ) (x : Ctx) (s : S) (now : ℕ)
        → AllSound x
        → AllSound (timer_from link encrypt app fuel i x s now).0
    unfolding timer_from
    timer_from-AllSound zero i x s now h = h
    timer_from-AllSound (suc fuel) i x s now h =
        let (x1, s1) = timer_slot link encrypt app x s i now (x.table.table i) in
        let rest = timer_from link encrypt app fuel (i + 1) x1 s1 now in
        let on = timer_slot-AllSound x s i now (x.table.table i) h (h i) in
        if_both (λ (q : Ctx × S). AllSound q.0) (ltb i x.table.nconn) rest (x, s)
          (timer_from-AllSound fuel (i + 1) x1 s1 now on) h

    timer_first-AllSound :
        (x : Ctx) (s : S) (now : ℕ) (o : Option Conn)
        → AllSound x
        → AllSound (timer_first link encrypt app x s now o).0.0
    timer_first-AllSound x s now none h = h
    timer_first-AllSound x s now (some c) h = timer_from-AllSound maxconn_limit 0 x s now h

    lowlevel_timer-AllSound :
        (x : Ctx) (s : S) (now : ℕ)
        → AllSound x
        → AllSound (lowlevel_timer link encrypt app x s now).0.0
    unfolding lowlevel_timer
    lowlevel_timer-AllSound x s now h =
        if_both (λ (q : (Ctx × S) × Bool). AllSound q.0.0) x.closing ((x, s), false)
          (timer_first link encrypt app x s now (x.table.table 0)) h
          (timer_first-AllSound x s now (x.table.table 0) h)

-- ffrdp_send, with `encrypt` the frame filter of the connection.
module _ (encrypt : ℕ → List ℕ → List ℕ) where
  send_try-AllSound :
      (x : Ctx) (i : ℕ) (c : Conn) (buf : List ℕ) (now : ℕ)
      → AllSound x
      → IsSound c
      → AllSound (send_try encrypt x i c buf now).0
  unfolding send_try
  send_try-AllSound x i c buf now h sound =
      let (s1, took) = frame_message encrypt c.snd buf now in
      let c1 = record c { snd = s1 } in
      if_both (λ (q : Ctx × ℤ). AllSound q.0) (has_room c.snd (length buf) && took)
        (put_conn x i c1, pos (length buf)) (x, eagain)
        (put_conn-AllSound x i c1 h
          (with_snd s1 sound (frame_message-HasRoom encrypt c.snd buf now sound.filling)))
        h

  send_by-AllSound :
      (x : Ctx) (i : ℕ) (c : Conn) (buf : List ℕ) (now : ℕ) (o : Option ℤ)
      → AllSound x
      → IsSound c
      → AllSound (send_by encrypt x i c buf now o).0
  send_by-AllSound x i c buf now none h sound = send_try-AllSound x i c buf now h sound
  send_by-AllSound x i c buf now (some rc) h sound = h

  send_on-AllSound :
      (x : Ctx) (buf : List ℕ) (now : ℕ) (o : Option Conn)
      → AllSound x
      → ((c : Conn) → o ≡ some c → IsSound c)
      → AllSound (send_on encrypt x buf now o).0
  send_on-AllSound x buf now none h found = h
  send_on-AllSound x buf now (some c) h found =
      send_by-AllSound x (c.handle % maxconn_limit) c buf now (send_gate x c) h (found c refl)

  send_now-AllSound :
      (x : Ctx) (conn : ℤ) (buf : List ℕ) (now : ℕ)
      → AllSound x
      → AllSound (send_now encrypt x conn buf now).0
  unfolding send_now
  send_now-AllSound x conn buf now h =
      if_both (λ (q : Ctx × ℤ). AllSound q.0) (ltb (length buf) 1) (x, einval)
        (send_on encrypt x buf now (conn_lookup x.table conn)) h
        (send_on-AllSound x buf now (conn_lookup x.table conn) h
          (λ c e. conn_lookup-IsSound x.table conn c h e))

module _ (link : ℕ → Bool) {S : Type 0} (app : S → List ℕ → S × (List ℕ × Bool)) where
  -- The contexts that ffrdp_init and any calls and events after it lead to, in any order, at any
  -- times and with any frame filters and states of the application.
  pub data Reach : Ctx → Type 0 where
    started : {y : Ctx} (params : List ℕ) (now : ℕ) → init link params now ≡ some y → Reach y
    datagram :
        {y : Ctx} (addr : ℕ) (fb : List ℕ) (now : ℕ)
        → Reach y
        → Reach (lowlevel_rx link y addr fb now).0
    timer :
        {y : Ctx} (encrypt : ℕ → List ℕ → List ℕ) (s : S) (now : ℕ)
        → Reach y
        → Reach (lowlevel_timer link encrypt app y s now).0.0
    sent :
        {y : Ctx} (encrypt : ℕ → List ℕ → List ℕ) (conn : ℤ) (buf : List ℕ) (now : ℕ)
        → Reach y
        → Reach (send_now encrypt y conn buf now).0
    received : {y : Ctx} (conn : ℤ) (len now : ℕ) → Reach y → Reach (recv_now y conn len now).0
    flushed : {y : Ctx} (conn : ℤ) → Reach y → Reach (flush_conn y conn)
    closed : {y : Ctx} (conn : ℤ) (now : ℕ) → Reach y → Reach (close_conn link y conn now).0

  init-AllSound : (params : List ℕ) (now : ℕ) (x : Ctx) → init link params now ≡ some x → AllSound x
  init-AllSound params now x e j c held =
      let f = init-IsFresh link params now x e in
      elim (ℕ_discrete j 0) [
        | yes at ↦
            rw (← some-injective f.main c (sym f.held ∙ (ap x.table.table (sym at) ∙ held))) f.sound
        | no other ↦ absurd (none-ne-some c (sym (f.alone j other) ∙ held))
      ]

  -- In every context that ffrdp_init and any sequence of datagrams of any bytes from anyone, timer
  -- laps, ffrdp_send, ffrdp_recv, ffrdp_flush and ffrdp_close lead to, each connection keeps its
  -- limits: the congestion window, the retransmission timeout and the limit of frames in flight are
  -- in their ranges, the window taken from the peer is at most 64, the slot being filled has fewer
  -- bytes than a frame, of 1 to 1464 bytes, holds, and no received frame is longer than 1504.
  pub Reach-AllSound : (x : Ctx) → Reach x → AllSound x
  Reach-AllSound x (started params now e) = init-AllSound params now x e
  Reach-AllSound x (datagram {y} addr fb now r) =
      lowlevel_rx-AllSound link y addr fb now (Reach-AllSound y r)
  Reach-AllSound x (timer {y} encrypt s now r) =
      lowlevel_timer-AllSound link encrypt app y s now (Reach-AllSound y r)
  Reach-AllSound x (sent {y} encrypt conn buf now r) =
      send_now-AllSound encrypt y conn buf now (Reach-AllSound y r)
  Reach-AllSound x (received {y} conn len now r) =
      recv_now-AllSound y conn len now (Reach-AllSound y r)
  Reach-AllSound x (flushed {y} conn r) = flush_conn-AllSound y conn (Reach-AllSound y r)
  Reach-AllSound x (closed {y} conn now r) =
      close_conn-AllSound link y conn now (Reach-AllSound y r)
