-- ===== src/Callback/Expiry.antt =====
-- ffrdp.c, ffrdp_lowlevel_cb: a handshake that takes too long is given up by the timer.
use ffrdp.Base.{ℕ, ◌<◌, ◌≡◌, ◌≢◌, refl, arith, sym, ◌∙◌, ap}
use ffrdp.Base.{Bool, true, false, not, ◌&&◌, none, some, List, [], ◌∷◌, ◌++◌}
use ffrdp.Base.{ltb, ◌==◌, if_true, if_false, if_both, if_cases, lt→ltb, sub32, sle32}
use mathlib.Core.Bool.{true≢false}
use ffrdp.Conn.{Conn, hs_failed}
use ffrdp.Table.{Table, is_empty, conn_free, maxconn_limit}
use ffrdp.Hs.{Ctx, Out, event, ev_disconn, emit, put_conn, hs_send, isdead_locked}
use ffrdp.Hs.Sent.{hs_send-Retimed}
use ffrdp.Due.{handshaking}
use ffrdp.Callback.{again, hs_retry_ms, hs_retry_at, hs_give_up, timer_conn}

-- The connection `c` of slot `i` of `x` is given up: the application is told last, with the code
-- FFRDP_DISCONN_HS_TIMEOUT; a server's slot is free again, and a client's connection counts as dead
-- at any time; the other slots stay.
pub record GivenUp (x y : Ctx) (i : ℕ) (c : Conn) : Type 0 where
  pub before : List Out
  pub told : y.io.out ≡ before ++ (event ev_disconn c.handle c.peer_addr 3 ∷ [])
  pub freed : x.is_server ≡ true → y.table.table i ≡ none
  pub failed : Conn
  pub kept : x.is_server ≡ false → y.table.table i ≡ some failed
  pub dead : (now : ℕ) → isdead_locked y failed now ≡ true
  pub others : (j : ℕ) → j ≢ i → y.table.table j ≡ x.table.table j

-- A connection `d` of slot `i` of `y` that is `c` of `x` but for its retries.
record Retried (x y : Ctx) (i : ℕ) (c d : Conn) : Type 0 where
  held : y.table.table i ≡ some d
  same_handle : d.handle ≡ c.handle
  same_addr : d.peer_addr ≡ c.peer_addr
  same_role : y.is_server ≡ x.is_server
  same_count : y.table.nconn ≡ x.table.nconn
  rest : (j : ℕ) → j ≢ i → y.table.table j ≡ x.table.table j

module _ (link : ℕ → Bool) where
  hs_retry_at-Retried :
      (x : Ctx) (i : ℕ) (c : Conn) (now : ℕ)
      → x.table.table i ≡ some c
      → Retried x (hs_retry_at link x i c now).0 i c (hs_retry_at link x i c now).1
  unfolding hs_retry_at
  hs_retry_at-Retried x i c now at =
      let (io1, c1) = hs_send link x.io c (again link c) now in
      let (t, k, sent_same) = hs_send-Retimed link x.io c (again link c) now in
      let here : (i == i) ≡ true = ground arith in
      let sent : Retried x (record (put_conn x i c1) { io = io1 }) i c c1 = record {
        held = rw here refl;
        same_handle = ap (λ (d : Conn). d.handle) sent_same;
        same_addr = ap (λ (d : Conn). d.peer_addr) sent_same;
        same_role = refl;
        same_count = refl;
        rest = λ j other. if_false (j == i) (some c1) (x.table.table j) (ground (arith, other));
      } in
      let same : Retried x x i c c = record {
        held = at;
        same_handle = refl;
        same_addr = refl;
        same_role = refl;
        same_count = refl;
        rest = λ j other. refl;
      } in
      if_both (λ (p : Ctx × Conn). Retried x p.0 i c p.1)
        (sle32 (hs_retry_ms link) (sub32 now c.hs_tick)) (record (put_conn x i c1) { io = io1 }, c1)
        (x, c) sent same

  conn_free-freed :
      (t : Table) (i : ℕ) (c : Conn)
      → t.table i ≡ some c
      → i < t.nconn
      → i < maxconn_limit
      → ((conn_free t i).table i ≡ none) × ((j : ℕ) → j ≢ i → (conn_free t i).table j ≡ t.table j)
  unfolding conn_free
  conn_free-freed t i c at small in_range =
      let full : is_empty (t.table i) ≡ false = ap is_empty at in
      let e : (ltb i t.nconn && (ltb i maxconn_limit && not (is_empty (t.table i)))) ≡ true =
        rw (full, lt→ltb i t.nconn small, lt→ltb i maxconn_limit in_range) refl in
      let here : (i == i) ≡ true = ground arith in
      (
        rw (conn_free, e, here) refl,
        λ j other.
            (let off : (j == i) ≡ false = ground (arith, other) in rw (conn_free, e, off) refl),
      )

  hs_give_up-GivenUp :
      (x y : Ctx) (i : ℕ) (c d : Conn)
      → Retried x y i c d
      → i < x.table.nconn
      → i < maxconn_limit
      → GivenUp x (hs_give_up link y i d) i c
  unfolding hs_give_up emit isdead_locked
  hs_give_up-GivenUp x y i c d r small in_range =
      let gone = conn_free y.table i in
      let failed = record d { hs_state = hs_failed } in
      let note = event ev_disconn d.handle d.peer_addr 3 in
      let io1 = emit y.io ev_disconn d.handle d.peer_addr 3 in
      let served = record y { table = gone; io = io1 } in
      let client = put_conn (record y { io = io1 }) i failed in
      let same : note ≡ event ev_disconn c.handle c.peer_addr 3 =
        rw (r.same_handle, r.same_addr) refl in
      let said = ap (λ (o : Out). y.io.out ++ (o ∷ [])) same in
      let (freed, rest) =
        conn_free-freed y.table i d r.held (omega (arith, small, r.same_count)) in_range in
      let here : (i == i) ≡ true = ground arith in
      let of_server : y.is_server ≡ true → GivenUp x served i c = λ e. record {
        before = y.io.out;
        told = said;
        freed = λ _. freed;
        failed = failed;
        kept = λ on. absurd (true≢false (sym e ∙ (r.same_role ∙ on)));
        dead = λ now. refl;
        others = λ j other. rest j other ∙ r.rest j other;
      } in
      let of_client : y.is_server ≡ false → GivenUp x client i c = λ e. record {
        before = y.io.out;
        told = said;
        freed = λ on. absurd (true≢false (sym on ∙ (sym r.same_role ∙ e)));
        failed = failed;
        kept = λ _. if_true (i == i) (some failed) (y.table.table i) here;
        dead = λ now. refl;
        others = λ j other.
            if_false (j == i) (some failed) (y.table.table j) (ground (arith, other))
            ∙ r.rest j other;
      } in
      if_cases (λ (z : Ctx). GivenUp x z i c) y.is_server served client of_server of_client

  module _ {S : Type 0} (encrypt : ℕ → List ℕ → List ℕ)
      (app : S → List ℕ → S × (List ℕ × Bool)) where
    -- In a connection that is in the table and whose handshake, or whose closing, is not over
    -- `handshake_ms` after it began, the timer's round gives the connection up: the application is
    -- told, a server frees the slot, a client has a dead connection, and the other connections and
    -- the application's data stay. It does so whatever the lower layer answers.
    pub timer_conn-GivenUp :
        (x : Ctx) (s : S) (i : ℕ) (c : Conn) (now : ℕ)
        → x.hs_enable ≡ true
        → x.table.table i ≡ some c
        → i < x.table.nconn
        → i < maxconn_limit
        → handshaking c ≡ true
        → sle32 x.handshake_ms (sub32 now c.hs_start) ≡ true
        → GivenUp x (timer_conn link encrypt app x s i c now).0 i c
          × ((timer_conn link encrypt app x s i c now).1 ≡ s)
    unfolding timer_conn
    timer_conn-GivenUp x s i c now on at small in_range opening late =
        let r = hs_retry_at-Retried x i c now at in
        let e : (x.hs_enable && handshaking c) ≡ true = rw (on, opening) refl in
        rw (timer_conn, e, late)
          (
            hs_give_up-GivenUp x (hs_retry_at link x i c now).0 i c (hs_retry_at link x i c now).1 r
                small in_range,
            refl,
          )
