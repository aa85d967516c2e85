-- ===== src/Calls/Atomic.antt =====
-- ffrdp.c, ffrdp_send: a message is taken whole or not at all.
use ffrdp.Base.{ℕ, ◌%◌, ◌≡◌, ◌⊎◌}
use ffrdp.Base.{Bool, true, Option, none, List, length}
use ffrdp.Base.Int.{ℤ, pos, leb_ℤ}
use ffrdp.Snd.{Snd}
use ffrdp.Snd.Frames.{Framed}
use ffrdp.Conn.{Conn}
use ffrdp.Table.{maxconn_limit}
use ffrdp.Hs.{Ctx, put_conn}
use ffrdp.Calls.{send_gate}

module _ (decrypt encrypt : ℕ → List ℕ → List ℕ)
    (round : (q : ℕ) (p : List ℕ) → decrypt q (encrypt q p) ≡ p) where
  -- The context `y` comes from `x` by framing the whole of `buf` on the connection `c`, which may
  -- send; nothing else of the context changes.
  pub record Sent (x y : Ctx) (c : Conn) (buf : List ℕ) : Type 0 where
    pub after : Conn
    pub framed : Framed decrypt c.snd after.snd buf
    pub same : after ≡ record c { snd = after.snd }
    pub put : y ≡ put_conn x (c.handle % maxconn_limit) after
    pub may : send_gate x c ≡ none

  -- What a send returns: it fails and changes nothing, or it returns the length.
  abbrev pub Outcome : Ctx → Conn → List ℕ → Ctx × ℤ → Type 0
  Outcome x c buf r =
      ((r.0 ≡ x) × (leb_ℤ r.1 (pos 0) ≡ true)) ⊎ ((r.1 ≡ pos (length buf)) × Sent x r.0 c buf)
