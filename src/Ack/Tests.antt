-- ===== src/Ack/Tests.antt =====
-- ffrdp.c, acknowledgements: the theorems at a concrete input.
use ffrdp.Base.{
  some, zero, ℕ, suc, ◌<◌, ◌≡◌, refl, arith, true, false, ◌==◌, ◌||◌, if◌then◌else◌, min_c, add32,
}
use ffrdp.Base.Int.{pos}
use ffrdp.Seq.{seq_distance}
use ffrdp.Slot.{empty_slot}
use ffrdp.Rtt.{ack_sample, derive_rto, close_window, rtt_sample, take_sample, clamp_sample}
use ffrdp.Snd.{snd_head, snd_next, next_loop, snd_release, snd_advance, advance_loop}
use ffrdp.Rcv.{Rcv, Batch}
use ffrdp.Rcv.Order.{new_rcv}
use ffrdp.Conn.{Conn, conn_init}
use ffrdp.Ack.{
  recv_mack, probe_answer, apply_loop, max_ack, is_confirmed, confirm, cut_hole, ack_bytes, on_ack,
  apply_acks, bit_at, is_held, recv_wnd,
}
use ffrdp.Ack.Wire.{ack_round_trip}
use ffrdp.Ack.Rounds.{InWindow, apply_loop_ends}
use ffrdp.Ack.Keep.{IsKept, unheld-IsKept}

-- The frames 5 and 6 are delivered, 7 is missing and 8 has come, twice.
abbrev holed : Rcv
holed = record new_rcv {
  slots = λ i.
      if i == 8 then record empty_slot { used = true; kind = 1; size = 6; seq = 8 } else empty_slot;
  rcv_ring = true;
  recv_seq = 7;
  rcv_read_seq = 7;
  rcv_live = 1;
  dup_seen = 1;
}

-- The sender has the frames 5 to 8 in its ring.
abbrev sender : Conn
sender =
    let c = conn_init 1000 2 in
    record c {
      snd = record c.snd {
        slots = λ i. record empty_slot {
          used = i == 5 || (i == 6 || (i == 7 || i == 8));
          first_send = true;
          size = 6;
          seq = i;
          tick_1sts = 900;
          tick_send = 900;
        };
        snd_first = 5;
        send_seq = 9;
        wait_snd = 4;
        snd_live = 4;
      };
      inflight_used = 4;
    }

abbrev batch : Batch
batch = record { recv_una = 0; send_una = 5; send_mack = 0; got_data = false; got_query = false }

apart : seq_distance 7 5 ≡ pos 2
unfolding seq_distance
apart = refl

seven_missing : is_held holed 0 ≡ false
unfolding is_held
seven_missing = refl

ack_round_trip_example :
    let res = on_ack sender (ack_bytes holed) batch 1000 in
    (res.1.send_una ≡ 7)
    × ((i : ℕ) → i < 24 → bit_at res.1.send_mack i ≡ is_held holed (suc i))
    × (res.0.swnd ≡ recv_wnd holed)
    × (res.0.rtt.win_dup ≡ add32 sender.rtt.win_dup (min_c 1 255))
unfolding conn_init
ack_round_trip_example = ack_round_trip holed sender batch 1000 2 (omega arith) refl apart

unheld-IsKept_example :
    let read = on_ack sender (ack_bytes holed) batch 1000 in
    IsKept (sender.snd.slots 7) ((apply_acks read.0 read.1 1000).snd.slots 7)
unfolding conn_init
unheld-IsKept_example =
    unheld-IsKept holed sender batch 1000 2 7 0 (omega arith) refl apart (omega arith) refl refl
      seven_missing

-- The other three are freed.
holed_frees :
    let read = on_ack sender (ack_bytes holed) batch 1000 in
    (apply_acks read.0 read.1 1000).snd.wait_snd ≡ 1
unfolding conn_init on_ack ack_bytes apply_acks recv_mack is_held recv_wnd probe_answer apply_loop
    max_ack is_confirmed confirm cut_hole seq_distance snd_head snd_next next_loop snd_release
    snd_advance advance_loop ack_sample derive_rto close_window rtt_sample take_sample clamp_sample
holed_frees = refl

sender-InWindow : InWindow 5 sender.snd
unfolding conn_init
sender-InWindow = record {
  early = omega arith;
  span = omega arith;
  number = λ q from to used. omega (arith, from, to);
}

apply_loop_ends_example : (apply_loop 65 sender batch (some 5) 1000).1 ≡ true
unfolding conn_init
apply_loop_ends_example =
    apply_loop_ends batch 1000 sender 5 5 sender-InWindow (omega arith) (omega arith) refl

-- The frame with number 2 ^ 24, alone in the ring, and an ACK that asks for it.
abbrev late_sender : Conn
late_sender = record sender {
  snd = record sender.snd {
    slots = λ i. record empty_slot { used = i == 0; first_send = true; seq = 0 };
    snd_first = 0x1000000;
    send_seq = 0x1000001;
    wait_snd = 1;
    snd_live = 1;
  };
}

comes_back : snd_next 64 late_sender.snd 0 ≡ some 0
unfolding snd_next next_loop
comes_back = refl

-- The loop passes the frame and comes to it again with nothing changed, however many rounds it has.
no_end :
    (n : ℕ)
    → apply_loop n late_sender (record batch { send_una = 0 }) (some 0) 1000 ≡ (late_sender, false)
unfolding apply_loop max_ack is_confirmed seq_distance snd_next next_loop
no_end zero = refl
no_end (suc n) = no_end n
