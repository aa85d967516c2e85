-- ===== src/Hs/Ignored.antt =====
-- ffrdp.c, ffrdp_hs_rx: the handshake frames that nothing waits for.
use ffrdp.Base.{ℕ, ◌≡◌, ◌≢◌, refl, arith, Bool, true, false, not, ◌&&◌, ◌||◌, none, some}
use ffrdp.Base.{◌==◌, Bool-cases, if_true, if_false, ◌∙◌, inl, inr}
use ffrdp.Conn.{Conn}
use ffrdp.Table.{conn_by_addr}
use ffrdp.Hs.{
  Ctx, code_of, syn, syn_ack, ack, fin, hs_rx, hs_rx_server, hs_rx_known, hs_rx_client, hs_rx_main,
}

-- A frame of an address, where nothing waits for it.
pub data Unwanted (x : Ctx) (addr sub : ℕ) : Type 0 where
  handshake_off : x.hs_enable ≡ false → Unwanted x addr sub
  no_address : addr ≡ 0 → Unwanted x addr sub
  stranger : x.is_server ≡ true → conn_by_addr x.table addr ≡ none → sub ≢ syn → Unwanted x addr sub
  peer_settled :
      (i : ℕ) (c : Conn)
      → x.is_server ≡ true
      → conn_by_addr x.table addr ≡ some i
      → x.table.table i ≡ some c
      → code_of c.hs_state ≢ 2
      → sub ≢ fin
      → Unwanted x addr sub
  main_settled :
      (c : Conn)
      → x.is_server ≡ false
      → x.table.table 0 ≡ some c
      → code_of c.hs_state ≢ 1
      → sub ≢ fin
      → Unwanted x addr sub
  main_other :
      (c : Conn)
      → x.is_server ≡ false
      → x.table.table 0 ≡ some c
      → sub ≢ syn_ack
      → sub ≢ fin
      → Unwanted x addr sub

module _ (link : ℕ → Bool) where
  known_same :
      (x : Ctx) (i : ℕ) (c : Conn) (addr sub now : ℕ)
      → code_of c.hs_state ≢ 2
      → sub ≢ fin
      → hs_rx_known link x i c addr sub now ≡ x
  unfolding hs_rx_known
  known_same x i c addr sub now settled open_end =
      let a : (sub == syn && code_of c.hs_state == 2) ≡ false = ground (arith, settled) in
      let b : (sub == ack && code_of c.hs_state == 2) ≡ false = ground (arith, settled) in
      let d : (sub == fin) ≡ false = ground (arith, open_end) in rw (hs_rx_known, a, b, d) refl

  main_same :
      (x : Ctx) (c : Conn) (sub now : ℕ)
      → sub ≢ fin
      → (sub == syn_ack && code_of c.hs_state == 1) ≡ false
      → hs_rx_main link x c sub now ≡ x
  unfolding hs_rx_main
  main_same x c sub now open_end b =
      let d : (sub == fin) ≡ false = ground (arith, open_end) in rw (hs_rx_main, d, b) refl

  server_rx :
      (x : Ctx) (addr sub now : ℕ)
      → x.is_server ≡ true
      → hs_rx_server link x addr sub now ≡ x
      → hs_rx link x addr sub now ≡ x
  unfolding hs_rx
  server_rx x addr sub now s e = elim (Bool-cases (not x.hs_enable || addr == 0)) [
    | inl off ↦ if_true _ x _ off
    | inr on ↦ if_false _ x _ on ∙ if_true _ _ _ s ∙ e
  ]

  main_rx :
      (x : Ctx) (c : Conn) (sub now : ℕ)
      → x.table.table 0 ≡ some c
      → hs_rx_client link x sub now ≡ hs_rx_main link x c sub now
  unfolding hs_rx_client
  main_rx x c sub now t = rw (hs_rx_client, t) refl

  client_rx :
      (x : Ctx) (addr sub now : ℕ) (c : Conn)
      → x.is_server ≡ false
      → x.table.table 0 ≡ some c
      → hs_rx_main link x c sub now ≡ x
      → hs_rx link x addr sub now ≡ x
  unfolding hs_rx
  client_rx x addr sub now c s t e = elim (Bool-cases (not x.hs_enable || addr == 0)) [
    | inl off ↦ if_true _ x _ off
    | inr on ↦ if_false _ x _ on ∙ if_false _ _ _ s ∙ main_rx x c sub now t ∙ e
  ]

  -- A handshake frame that nothing waits for changes nothing and is not answered: where the
  -- handshake is off or there is no address, a frame that is no SYN of an unknown address, a frame
  -- that is no FIN for a connection that is not half open, and a frame that is neither a FIN nor a
  -- SYN-ACK for a client, or that is no FIN for a client that does not wait for a SYN-ACK. So a
  -- client that is up does not answer the SYN-ACK that a server sends again.
  pub hs_rx-Unwanted :
      (x : Ctx) (addr sub now : ℕ) → Unwanted x addr sub → hs_rx link x addr sub now ≡ x
  unfolding hs_rx
  hs_rx-Unwanted x addr sub now (handshake_off off) =
      let e : (not x.hs_enable || addr == 0) ≡ true = ground (arith, off) in if_true _ x _ e
  hs_rx-Unwanted x addr sub now (no_address z) =
      let e : (not x.hs_enable || addr == 0) ≡ true = ground (arith, z) in if_true _ x _ e
  hs_rx-Unwanted x addr sub now (stranger s f n) =
      let e : (sub == syn) ≡ false = ground (arith, n) in
      server_rx x addr sub now s (unfold hs_rx_server in rw (hs_rx_server, f, e) refl)
  hs_rx-Unwanted x addr sub now (peer_settled i c s f t n m) =
      server_rx x addr sub now s
        (unfold hs_rx_server in rw (hs_rx_server, f, t) (known_same x i c addr sub now n m))
  hs_rx-Unwanted x addr sub now (main_settled c s t n m) =
      let e : (sub == syn_ack && code_of c.hs_state == 1) ≡ false = ground (arith, n) in
      client_rx x addr sub now c s t (main_same x c sub now m e)
  hs_rx-Unwanted x addr sub now (main_other c s t n m) =
      let e : (sub == syn_ack && code_of c.hs_state == 1) ≡ false = ground (arith, n) in
      client_rx x addr sub now c s t (main_same x c sub now m e)
