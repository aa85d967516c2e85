-- ===== src/Init/Fresh.antt =====
-- ffrdp.c, ffrdp_init: what every context that it makes is like.
use mathlib.Core.Bool.{true≢false, false≢true}
use mathlib.Core.Option.{none-ne-some, some-injective}
use ffrdp.Base.{ℕ, ◌+◌, ◌≤◌, ◌≡◌, ◌≢◌, inl, inr, refl, arith, sym, ap, ◌∙◌}
use ffrdp.Base.{Bool, true, false, not, ◌&&◌, List, [], Option, none, some, drop, take, length}
use ffrdp.Base.{◌==◌, if◌then◌else◌, if_cases, if_both, if_true, if_false, Bool-cases, Option-cases}
use ffrdp.Addr.{addr_make, parse_text}
use ffrdp.Conn.{Conn, conn_init, hs_syn_sent}
use ffrdp.Table.{new_table}
use ffrdp.Hs.{Ctx, code_of, syn, put_conn, hs_send, hs_send_at, hs_start_client}
use ffrdp.Hs.Sent.{hs_send-Retimed}
use ffrdp.System.{IsSound}
use ffrdp.Init.{
  Options, make_ctx, main_conn, in_range, client_peer, or_else, loopback, init_server, init_client,
  init_with, init_parsed, init_after, init, udp_params, server_params, cut_at, comma, parse_options,
  defaults, starts_with, scheme,
}

-- A context that ffrdp_init made: the number of slots is in range and the first one alone is in use,
-- by the main connection, with handle 0 and frames of 1 to FFRDP_MAX_MSS bytes, which is within all
-- its limits. A server waits with no peer and has sent nothing. A client has a peer, and where the
-- handshake is on it is in HS_SYN_SENT.
pub record IsFresh (x : Ctx) : Type 0 where
  pub maxconn_min : 1 ≤ x.table.maxconn
  pub maxconn_max : x.table.maxconn ≤ 16
  pub one : x.table.nconn ≡ 1
  pub still_open : x.closing ≡ false
  pub main : Conn
  pub held : x.table.table 0 ≡ some main
  pub alone : (j : ℕ) → j ≢ 0 → x.table.table j ≡ none
  pub handle : main.handle ≡ 0
  pub mss_min : 1 ≤ main.snd.smss
  pub mss_max : main.snd.smss ≤ 1464
  pub sound : IsSound main
  pub server :
      x.is_server ≡ true → (main.peer_addr ≡ 0) × (code_of main.hs_state ≡ 0) × (x.io.out ≡ [])
  pub client : x.is_server ≡ false → main.peer_addr ≢ 0
  pub calling : x.is_server ≡ false → x.hs_enable ≡ true → code_of main.hs_state ≡ 1

main_conn-IsSound : (o : Options) (now : ℕ) → IsSound (main_conn o now)
unfolding main_conn conn_init
main_conn-IsSound o now = record {
  window = omega arith;
  timeout = omega arith;
  limit = record { kept = inl refl; undone = inl refl; in_use = omega arith };
  credit = omega arith;
  filling = record { mss_min = ground arith; mss_max = ground arith; room = ground arith };
  slots = λ j. omega arith;
}

make_server-IsFresh :
    (o : Options) (now : ℕ) → in_range o ≡ true → IsFresh (make_ctx o true (main_conn o now))
unfolding make_ctx main_conn conn_init new_table
make_server-IsFresh o now r = record {
  maxconn_min = ground (arith, r);
  maxconn_max = ground (arith, r);
  one = refl;
  still_open = refl;
  main = main_conn o now;
  held = refl;
  alone = λ j ne. if_false (j == 0) (some (main_conn o now)) none (ground (arith, ne));
  handle = refl;
  mss_min = ground arith;
  mss_max = ground arith;
  sound = main_conn-IsSound o now;
  server = λ _. (refl, refl, refl);
  client = λ e. absurd (true≢false e);
  calling = λ e. absurd (true≢false e);
}

client_peer-pos : (addr : List ℕ) (peer : ℕ) → client_peer addr ≡ some peer → peer ≢ 0
unfolding client_peer addr_make
client_peer-pos addr peer e =
    elim (Option-cases (parse_text (take 127 (or_else addr loopback)) (some 8000))) [
      | inl bad ↦ absurd (none-ne-some peer (rw (← e, client_peer, bad) refl))
      | inr ((ip, port), good) ↦ elim (Bool-cases (port == 0)) [
        | inl z ↦ absurd (none-ne-some peer (rw (← e, client_peer, good, z) refl))
        | inr pos_port ↦
            (let same : addr_make ip port ≡ peer =
                some-injective (addr_make ip port) peer
                  (rw (← e, client_peer, good, pos_port) refl) in
              ground (arith, pos_port, same))
      ]
    ]

nothing_made : (x : Ctx) → none ≡ some x → IsFresh x
nothing_made x e = absurd (none-ne-some x e)

module _ (link : ℕ → Bool) where
  start-IsFresh :
      (o : Options) (peer now : ℕ)
      → in_range o ≡ true
      → peer ≢ 0
      → let c = record (main_conn o now) { peer_addr = peer } in
        IsFresh (hs_start_client link (make_ctx o false c) c now)
  unfolding hs_start_client hs_send_at make_ctx main_conn conn_init new_table
  start-IsFresh o peer now r ne =
      let c = record (main_conn o now) { peer_addr = peer } in
      let x0 = make_ctx o false c in
      let d0 = record c { hs_state = hs_syn_sent; hs_start = now } in
      let (io1, d) = hs_send link x0.io d0 syn now in
      let (t, k, same) = hs_send-Retimed link x0.io d0 syn now in
      let sent_ctx = record (put_conn x0 0 d) { io = io1 } in
      let far : (peer == 0) ≡ false = ground (arith, ne) in
      let sent : IsFresh sent_ctx = record {
        maxconn_min = ground (arith, r);
        maxconn_max = ground (arith, r);
        one = refl;
        still_open = refl;
        main = d;
        held = refl;
        alone = λ j other. (let off : (j == 0) ≡ false = ground (arith, other) in rw off refl);
        handle = ap (λ (q : Conn). q.handle) same;
        mss_min = rw same (ground arith);
        mss_max = rw same (ground arith);
        sound = rw same (main_conn-IsSound o now);
        server = λ e. absurd (false≢true e);
        client = λ _. rw same ne;
        calling = λ _ _. rw same refl;
      } in
      let quiet : x0.hs_enable ≡ false → IsFresh x0 = λ off. record {
        maxconn_min = ground (arith, r);
        maxconn_max = ground (arith, r);
        one = refl;
        still_open = refl;
        main = c;
        held = refl;
        alone = λ j other. if_false (j == 0) (some c) none (ground (arith, other));
        handle = refl;
        mss_min = ground arith;
        mss_max = ground arith;
        sound = main_conn-IsSound o now;
        server = λ e. absurd (false≢true e);
        client = λ _. ne;
        calling = λ _ on. absurd (true≢false (sym on ∙ off));
      } in
      if_cases IsFresh (x0.hs_enable && (true && not (peer == 0))) sent_ctx x0 (λ _. sent)
        (λ e. quiet (ground (arith, e, far)))

  init_server-IsFresh :
      (o : Options) (addr : List ℕ) (now : ℕ) (x : Ctx)
      → in_range o ≡ true
      → init_server link o addr now ≡ some x
      → IsFresh x
  unfolding init_server
  init_server-IsFresh o addr now x r e = elim (Option-cases (udp_params (server_params addr))) [
    | inl bad ↦ absurd (none-ne-some x (rw (← e, init_server, bad) refl))
    | inr (at, good) ↦
        (let made = make_ctx o true (main_conn o now) in
          let same : made ≡ x = some-injective made x (rw (← e, init_server, good) refl) in
          rw (← same) (make_server-IsFresh o now r))
  ]

  init_client-IsFresh :
      (o : Options) (addr : List ℕ) (now : ℕ) (x : Ctx)
      → in_range o ≡ true
      → init_client link o addr now ≡ some x
      → IsFresh x
  unfolding init_client
  init_client-IsFresh o addr now x r e = elim (Option-cases (client_peer addr)) [
    | inl bad ↦ absurd (none-ne-some x (rw (← e, init_client, bad) refl))
    | inr (peer, good) ↦
        (let c = record (main_conn o now) { peer_addr = peer } in
          let made = hs_start_client link (make_ctx o false c) c now in
          let same : made ≡ x = some-injective made x (rw (← e, init_client, good) refl) in
          rw (← same) (start-IsFresh o peer now r (client_peer-pos addr peer good)))
  ]

  init_with-IsFresh :
      (server : Bool) (addr : List ℕ) (o : Option Options) (now : ℕ) (x : Ctx)
      → init_with link server addr o now ≡ some x
      → IsFresh x
  unfolding init_with
  init_with-IsFresh server addr none now x e = absurd (none-ne-some x e)
  init_with-IsFresh true addr (some o) now x e = elim (Bool-cases (in_range o)) [
    | inl r ↦
        init_server-IsFresh o addr now x r
          (sym (if_false (not (in_range o)) none (init_server link o addr now) (ap not r)) ∙ e)
    | inr r ↦ absurd (
        none-ne-some x
          (sym (if_true (not (in_range o)) none (init_server link o addr now) (ap not r)) ∙ e))
  ]
  init_with-IsFresh false addr (some o) now x e = elim (Bool-cases (in_range o)) [
    | inl r ↦
        init_client-IsFresh o addr now x r
          (sym (if_false (not (in_range o)) none (init_client link o addr now) (ap not r)) ∙ e)
    | inr r ↦ absurd (
        none-ne-some x
          (sym (if_true (not (in_range o)) none (init_client link o addr now) (ap not r)) ∙ e))
  ]

  init_parsed-IsFresh :
      (server : Bool) (addr : List ℕ) (o : Option (Option Options)) (now : ℕ) (x : Ctx)
      → init_parsed link server addr o now ≡ some x
      → IsFresh x
  init_parsed-IsFresh server addr none now x e = nothing_made x e
  init_parsed-IsFresh server addr (some o) now x e = init_with-IsFresh server addr o now x e

  -- Every context that ffrdp_init makes, from any connection string, is open and has between 1 and 16
  -- slots, of which the first alone is in use, by the main connection, which has handle 0 and frames
  -- of 1 to 1464 bytes and is within all the limits of a connection. A server has no peer and has
  -- sent nothing; a client has a peer, and where the handshake is on it waits for the answer to its
  -- SYN.
  pub init-IsFresh :
      (params : List ℕ) (now : ℕ) (x : Ctx) → init link params now ≡ some x → IsFresh x
  unfolding init init_after
  init-IsFresh params now x =
      let text = take 191 params in
      let P : Option Ctx → Type 0 = λ o. o ≡ some x → IsFresh x in
      let after = λ (server : Bool). init_after link server (drop 9 text) now in
      let call = λ (server : Bool) (e : after server ≡ some x).
        init_parsed-IsFresh server (cut_at comma (drop 9 text)).0
          (parse_options (length (drop 9 text) + 1) defaults (cut_at comma (drop 9 text)).1) now x
          e in
      let client : Option Ctx = if starts_with text (scheme b'c') then after false else none in
      if_both P (starts_with text (scheme b's')) (after true) client (call true) (
        if_both P (starts_with text (scheme b'c')) (after false) none (call false) (nothing_made x))
