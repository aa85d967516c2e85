-- ===== src/Due/Tests.antt =====
-- ffrdp.c, ffrdp_next_due: the theorem at a concrete input.
use ffrdp.Base.{◌≤◌, ◌<◌, ◌^◌, ◌≡◌, ◌≢◌, ◌-◌, ◌⊎◌, refl, arith, [], true, false, sub32}
use ffrdp.Slot.{type_short}
use ffrdp.Conn.{Conn, conn_init, hs_up}
use ffrdp.Snd
use ffrdp.Snd.{snd_head}
use ffrdp.Table.{new_table}
use ffrdp.Hs.{Ctx}
use ffrdp.Cap.{limit_of}
use ffrdp.Due.{next_due, settle_due, has_frames, may_send}
use ffrdp.Due.Soon.{next_due-soon}

-- A connection with one frame that was not sent yet.
abbrev waiting : Conn
waiting =
    let c = record (conn_init 0 1200) { peer_addr = 55; hs_state = hs_up } in
    let p = record (c.snd.slots 0) { kind = type_short; size = 4 } in
    record c { snd = record (Snd.put_slot c.snd 0 p) { send_seq = 1; tx_unsent = 1 } }

abbrev ctx : Ctx
ctx = record {
  table = new_table 1 1200 waiting;
  io = record { tries = 0; out = [] };
  is_server = false;
  hs_enable = true;
  closing = false;
  handshake_ms = 10000;
  idle_ms = 5000;
}

due_now : next_due ctx waiting 700 ≡ 700
unfolding next_due conn_init snd_head may_send limit_of
due_now = refl

next_due-soon_example :
    let d = next_due ctx waiting 700 in
    let frames = has_frames (snd_head waiting.snd) in
    ((frames ≡ true) × (d ≢ 0) × (sub32 d 700 ≤ 4))
    ⊎ (((frames ≡ true) × (d ≡ 0) × (700 ≡ 2 ^ 32 - 4))
        ⊎ ((frames ≡ false) × ((d ≡ 0) ⊎ (sub32 d 700 < 2 ^ 31))))
next_due-soon_example = next_due-soon ctx waiting 700 (omega arith)

-- 4 ms before the clock wraps, with frames in flight: no time.
no_time_at_wrap : settle_due false true 5000 (2 ^ 32 - 4) ≡ 0
unfolding settle_due
no_time_at_wrap = refl
