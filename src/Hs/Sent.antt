-- ===== src/Hs/Sent.antt =====
-- ffrdp.c, ffrdp_hs_send: what it changes of a connection.
use ffrdp.Base.{ℕ, ◌≡◌, refl, ◌∷◌, [], ◌==◌, if◌then◌else◌, if_both, add32}
use ffrdp.Slot.{type_handshake}
use ffrdp.Conn.{Conn}
use ffrdp.Hs.{Io, ll_send, hs_send}
use ffrdp.Base.{Bool}

-- `d` is `c` but for the time and the count of its handshake frames.
abbrev pub Retimed : Conn → Conn → Type 0
Retimed c d = (t : ℕ) × (k : ℕ) × (d ≡ record c { hs_tick = t; hs_retry = k })

module _ (link : ℕ → Bool) where
  pub hs_send-Retimed : (io : Io) (c : Conn) (sub now : ℕ) → Retimed c (hs_send link io c sub now).1
  unfolding hs_send
  hs_send-Retimed io c sub now =
      let (io1, ok) = ll_send link io c.peer_addr (type_handshake ∷ sub ∷ []) in
      let c1 = record c { hs_tick = now } in
      let P : Io × Conn → Type 0 = λ p. Retimed c p.1 in
      let taken : Io × Conn = (io1, record c1 { hs_retry = add32 c.hs_retry 1 }) in
      if_both P (c.peer_addr == 0) (io, c) (if ok then taken else (io1, c1))
        (c.hs_tick, c.hs_retry, refl)
        (if_both P ok taken (io1, c1) (now, add32 c.hs_retry 1, refl) (now, c.hs_retry, refl))
