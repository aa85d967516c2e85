-- ===== src/Callback/Isolation.antt =====
-- ffrdp.c, ffrdp_lowlevel_cb: which connections a datagram of data can change.
use ffrdp.Base.{ℕ, ◌≡◌, ◌≢◌, refl, arith, ◌∙◌, ap, ◌⊎◌}
use ffrdp.Base.{Bool, true, false, not, ◌&&◌, Option, none, some, List, length, get_or, inl, inr}
use ffrdp.Base.{ltb, leb, ◌==◌, if_both}
use ffrdp.Slot.{type_handshake}
use ffrdp.Conn.{Conn}
use ffrdp.Table.{conn_by_addr}
use ffrdp.Hs.{Ctx, code_of, put_conn}
use ffrdp.Callback.{learn_peer, for_conn, for_slot, rx_conn, rx_at, rx_first, rx_main, lowlevel_rx}

-- What a datagram of `addr` at time `now` may change, where `y` comes from `x`: nothing goes out, the
-- connections of other slots stay, all stays where no connection has the address, and a connection
-- that is not up only notes that its peer was heard.
pub record Isolated (x y : Ctx) (addr now : ℕ) : Type 0 where
  pub quiet : y.io ≡ x.io
  pub others : (j : ℕ) → conn_by_addr x.table addr ≢ some j → y.table.table j ≡ x.table.table j
  pub stranger : conn_by_addr x.table addr ≡ none → y ≡ x
  pub half_open :
      (i : ℕ) (c : Conn)
      → conn_by_addr x.table addr ≡ some i
      → x.table.table i ≡ some c
      → code_of c.hs_state ≢ 3
      → (y ≡ x) ⊎ (y ≡ put_conn x i (record c { tick_last_recv = now }))

for_conn-quiet :
    (x : Ctx) (i : ℕ) (fb : List ℕ) (now : ℕ) (o : Option Conn) → (for_conn x i fb now o).io ≡ x.io
for_conn-quiet x i fb now none = refl
for_conn-quiet x i fb now (some c) = refl

for_slot-quiet : (x : Ctx) (fb : List ℕ) (now : ℕ) (o : Option ℕ) → (for_slot x fb now o).io ≡ x.io
for_slot-quiet x fb now none = refl
for_slot-quiet x fb now (some i) = for_conn-quiet x i fb now (x.table.table i)

for_conn-others :
    (x : Ctx) (i : ℕ) (fb : List ℕ) (now : ℕ) (o : Option Conn) (j : ℕ)
    → i ≢ j
    → (for_conn x i fb now o).table.table j ≡ x.table.table j
for_conn-others x i fb now none j h = refl
for_conn-others x i fb now (some c) j h =
    let off : (j == i) ≡ false = ground (arith, h) in rw off refl

for_slot-others :
    (x : Ctx) (fb : List ℕ) (now : ℕ) (o : Option ℕ) (j : ℕ)
    → o ≢ some j
    → (for_slot x fb now o).table.table j ≡ x.table.table j
for_slot-others x fb now none j h = refl
for_slot-others x fb now (some i) j h =
    for_conn-others x i fb now (x.table.table i) j (λ same. h (ap some same))

for_slot-half_open :
    (x : Ctx) (fb : List ℕ) (now i : ℕ) (c : Conn)
    → x.hs_enable ≡ true
    → x.table.table i ≡ some c
    → code_of c.hs_state ≢ 3
    → for_slot x fb now (some i) ≡ put_conn x i (record c { tick_last_recv = now })
unfolding rx_conn
for_slot-half_open x fb now i c on at early =
    let e : (x.hs_enable && not (code_of c.hs_state == 3)) ≡ true = ground (arith, on, early) in
    let off = record c { tick_last_recv = now } in
    let heard : rx_conn x c fb now ≡ off = rw (rx_conn, e, on) refl in
    ap (for_conn x i fb now) at ∙ ap (put_conn x i) heard

rx_at-Isolated :
    (x : Ctx) (addr : ℕ) (fb : List ℕ) (now : ℕ)
    → x.hs_enable ≡ true
    → Isolated x (rx_at x addr fb now) addr now
unfolding rx_at
rx_at-Isolated x addr fb now on =
    let o = conn_by_addr x.table addr in
    record {
      quiet = for_slot-quiet x fb now o;
      others = λ j h. for_slot-others x fb now o j h;
      stranger = λ h. ap (for_slot x fb now) h;
      half_open = λ i c h at early.
          inr (ap (for_slot x fb now) h ∙ for_slot-half_open x fb now i c on at early);
    }

same-Isolated : (x : Ctx) (addr now : ℕ) → Isolated x x addr now
same-Isolated x addr now = record {
  quiet = refl;
  others = λ j h. refl;
  stranger = λ h. refl;
  half_open = λ i c h at early. inl refl;
}

learn_peer-same : (x : Ctx) (c : Conn) (addr : ℕ) → x.hs_enable ≡ true → learn_peer x c addr ≡ x
unfolding learn_peer
learn_peer-same x c addr on =
    let e : (x.is_server && (not x.hs_enable && not c.connected)) ≡ false = ground (arith, on) in
    rw (learn_peer, e) refl

module _ (link : ℕ → Bool) where
  rx_main-Isolated :
      (x : Ctx) (c : Conn) (addr : ℕ) (fb : List ℕ) (now : ℕ)
      → x.hs_enable ≡ true
      → get_or fb 0 0 ≢ type_handshake
      → Isolated x (rx_main link x c addr fb now).0 addr now
  unfolding rx_main
  rx_main-Isolated x c addr fb now on plain =
      let e : (x.hs_enable && (leb 2 (length fb) && get_or fb 0 0 == type_handshake)) ≡ false =
        ground (arith, plain) in
      if_both (λ (p : Ctx × Bool). Isolated x p.0 addr now) (ltb (length fb) 1) (x, false) _
        (same-Isolated x addr now)
        (rw (e, learn_peer-same x c addr on) (rx_at-Isolated x addr fb now on))

  rx_first-Isolated :
      (x : Ctx) (addr : ℕ) (fb : List ℕ) (now : ℕ) (o : Option Conn)
      → x.hs_enable ≡ true
      → get_or fb 0 0 ≢ type_handshake
      → Isolated x (rx_first link x addr fb now o).0 addr now
  rx_first-Isolated x addr fb now none on plain = same-Isolated x addr now
  rx_first-Isolated x addr fb now (some c) on plain = rx_main-Isolated x c addr fb now on plain

  -- A datagram that reaches ffrdp_lowlevel_cb with the handshake in use and is no handshake frame:
  -- nothing is sent and no event is given; only the connection that has the datagram's address can
  -- change, and nothing does where none has it; and a connection that is not up takes nothing
  -- from it but the time at which its peer was heard.
  pub lowlevel_rx-Isolated :
      (x : Ctx) (addr : ℕ) (fb : List ℕ) (now : ℕ)
      → x.hs_enable ≡ true
      → get_or fb 0 0 ≢ type_handshake
      → Isolated x (lowlevel_rx link x addr fb now).0 addr now
  unfolding lowlevel_rx
  lowlevel_rx-Isolated x addr fb now on plain =
      if_both (λ (p : Ctx × Bool). Isolated x p.0 addr now) x.closing (x, false)
        (rx_first link x addr fb now (x.table.table 0)) (same-Isolated x addr now)
        (rx_first-Isolated x addr fb now (x.table.table 0) on plain)
