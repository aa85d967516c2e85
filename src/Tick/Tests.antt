-- ===== src/Tick/Tests.antt =====
-- ffrdp.c, the sending loop: the theorem at a concrete input.
use ffrdp.Base.{ℕ, ◌≤◌, ◌≡◌, refl, arith, Bool, some, ltb, []}
use ffrdp.Conn.{Conn, conn_init}
use ffrdp.Snd.{Snd, snd_next}
use ffrdp.Slot.{Slot, type_short}
use ffrdp.Snd
use ffrdp.Cap.{limit_of}
use ffrdp.Hs.{Io, ll_send}
use ffrdp.Pace.{must_wait}
use ffrdp.Tick.{send_loop, send_round, try_first, first_sent}
use ffrdp.Tick.Limits.{Sends, send_loop-Sends}

abbrev short_frame : Slot
short_frame = record ((conn_init 0 1200).snd.slots 0) { kind = type_short; size = 4 }

abbrev one_frame : Conn
one_frame =
    let c = conn_init 0 1200 in
    record c {
      peer_addr = 55;
      snd = record (Snd.put_slot c.snd 0 short_frame) { send_seq = 1; tx_unsent = 1 };
    }

-- The lower layer takes the first three tries.
abbrev early_link : ℕ → Bool
early_link n = ltb n 3

abbrev no_out : Io
no_out = record { tries = 0; out = [] }

one_sent : (send_loop early_link 65 0 one_frame no_out (some 0) 10).0.inflight_used ≡ 1
unfolding send_loop conn_init send_round try_first must_wait limit_of ll_send first_sent snd_next
    Snd.next_loop
one_sent = refl

limit_small : limit_of one_frame.cap ≤ 64
unfolding limit_of conn_init
limit_small = omega arith

send_loop-Sends_example : Sends one_frame (send_loop early_link 65 0 one_frame no_out (some 0) 10).0
send_loop-Sends_example = send_loop-Sends early_link 65 0 one_frame no_out (some 0) 10 limit_small
