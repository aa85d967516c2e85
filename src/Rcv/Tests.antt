-- ===== src/Rcv/Tests.antt =====
-- ffrdp.c, the receive ring: runs, and the theorems at concrete inputs.
use ffrdp.Base.{
  ℕ, ◌+◌, ◌≤◌, ◌<◌, ◌≡◌, refl, arith, List, [], ◌∷◌, ◌++◌, length, Bool, true, false, ◌⊎◌, inl,
  ◌==◌, if◌then◌else◌, ◌%◌,
}
use ffrdp.Rcv.{
  Rcv, Batch, on_data_frame, place, filled, rcv_ring_init, recv_data_frame, rcv_insert,
  ring_block_size,
}
use ffrdp.Rcv.{deliver, deliver_one, deliver_rounds, skip_taken, rcv_head, rcv_release, copy}
use ffrdp.Slot.{empty_slot, slot_reset, frame_payload_size}
use ffrdp.Seq.{seq_distance}
use ffrdp.Rcv.Ring.{IsValid, IsAhead, IsFrame, unread, used_count}
use mathlib.Core.Bool.{false≢true}
use ffrdp.Rcv.Read.{Reads, copy-Reads}
use ffrdp.Rcv.Arrive.{IsWire, on_data_frame-IsValid}
use ffrdp.Rcv.Deliver.{Delivers, deliver-Delivers, feed}
use ffrdp.Rcv.Order.{new_rcv, new_rcv-IsValid, Reach, Reach-order}

-- A stream of frames of two bytes.
abbrev stream : ℕ → List ℕ
stream a = a % 256 ∷ 7 ∷ []

abbrev wire : ℕ → List ℕ
wire a = 1 ∷ a ∷ 0 ∷ 0 ∷ a % 256 ∷ 7 ∷ []

abbrev wire_zero : IsWire stream (wire 0) 0
wire_zero = record {
  kind = omega arith;
  seq = refl;
  size = refl;
  body = refl;
  body_pos = omega arith;
  body_max = omega arith;
}

abbrev batch : Batch
batch = record { recv_una = 0; send_una = 0; send_mack = 0; got_data = false; got_query = false }

-- An application that counts its frames and takes the first one in its callback.
abbrev app : ℕ → List ℕ → ℕ × (List ℕ × Bool)
app s p = (s + 1, (p, s == 0))

app_in_place : (s : ℕ) (p : List ℕ) → length (app s p).1.0 ≡ length p
app_in_place s p = refl

abbrev one_held : Rcv
one_held = (on_data_frame new_rcv (wire 0) batch).0

one_held-IsValid : IsValid stream one_held 0 0
one_held-IsValid =
    (on_data_frame-IsValid stream new_rcv (wire 0) batch 0 0 0 (new_rcv-IsValid stream app 0)
      wire_zero refl (omega arith) (omega arith)).0

on_data_frame-IsValid_example :
    IsValid stream one_held 0 0
    × (unread one_held 0 0 ≡ unread new_rcv 0 0)
    × ((0 < 0 + 0) ⊎ ((0 + 64 ≤ 0) ⊎ IsFrame (one_held.slots (0 % 64)) 0))
on_data_frame-IsValid_example =
    on_data_frame-IsValid stream new_rcv (wire 0) batch 0 0 0 (new_rcv-IsValid stream app 0)
      wire_zero refl (omega arith) (omega arith)

deliver-Delivers_example :
    Delivers stream app app_in_place one_held
      (deliver app deliver_rounds one_held 1).0
      1
      (deliver app deliver_rounds one_held 1).1
      0
      0
      deliver_rounds
deliver-Delivers_example = deliver-Delivers stream app app_in_place one_held 1 0 0 one_held-IsValid

-- The ring after the frame 0 was delivered and not taken.
abbrev one_read : Rcv
one_read = record new_rcv {
  slots = λ i.
      if i == 0
      then record empty_slot { used = true; kind = 1; size = 6; body = stream 0 }
      else empty_slot;
  rcv_ring = true;
  recv_seq = 1;
  rcv_live = 1;
}

one_read-IsValid : IsValid stream one_read 0 1
unfolding IsAhead used_count
one_read-IsValid = record {
  gap_max = omega arith;
  read_seq = refl;
  recv_seq = refl;
  off_start = λ z. refl;
  off_max = λ h. omega arith;
  delivered = λ k h.
      (let e : (0 + k) % 64 ≡ 0 = omega arith in
        let e' : 0 + k ≡ 0 = omega arith in
        rw (e, e')
          (record {
            used = refl;
            seq = refl;
            kind = omega arith;
            size = refl;
            body_pos = omega arith;
          }));
  ahead = λ k le lt u.
      (let e : ((0 + k) % 64 == 0) ≡ false = ground (arith, le, lt) in
        absurd (false≢true (rw (← u, e) refl)));
  live = refl;
  ring = inl refl;
}

copy-Reads_example : Reads stream one_read (copy one_read 1).0 0 1 1 (copy one_read 1).1.0
copy-Reads_example = copy-Reads stream one_read 0 1 1 one_read-IsValid

-- Frame 1 comes first, then frame 0; both are delivered, and the application, which took the first
-- in its callback, reads a byte.
abbrev first_held : Rcv
first_held = (on_data_frame new_rcv (wire 1) batch).0

abbrev both_held : Rcv
both_held = (on_data_frame first_held (wire 0) batch).0

abbrev both_out : Rcv
both_out = (deliver app deliver_rounds both_held 0).0

abbrev wire_one : IsWire stream (wire 1) 1
wire_one = record {
  kind = omega arith;
  seq = refl;
  size = refl;
  body = refl;
  body_pos = omega arith;
  body_max = omega arith;
}

both-Reach :
    Reach stream app 0
      (copy both_out 1).0
      (deliver app deliver_rounds both_held 0).1
      ([] ++ (copy both_out 1).1.0)
      2
unfolding on_data_frame place filled rcv_ring_init recv_data_frame rcv_insert ring_block_size
    deliver deliver_one skip_taken rcv_head rcv_release slot_reset frame_payload_size seq_distance
both-Reach = Reach.received 1 (
    Reach.handed_out 2 (omega arith) (omega arith) refl (
      Reach.arrived (wire 0) batch 0 wire_zero refl (omega arith) (omega arith)
        (Reach.arrived (wire 1) batch 1 wire_one refl (omega arith) (omega arith) Reach.start)))

Reach-order_example :
    (n : ℕ) × (g : ℕ) × (n + g ≡ 2)
    × IsValid stream (copy both_out 1).0 n g
    × ((deliver app deliver_rounds both_held 0).1 ≡ (feed stream app 0 0 2).0)
    × (([] ++ (copy both_out 1).1.0) ++ unread (copy both_out 1).0 n g ≡ (feed stream app 0 0 2).1)
Reach-order_example =
    Reach-order stream app 0 app_in_place (copy both_out 1).0
      (deliver app deliver_rounds both_held 0).1 ([] ++ (copy both_out 1).1.0) 2 both-Reach

-- A SHORT frame that is only a header takes its slot and is not delivered: the frame of that number
-- that comes next counts as a repeat.
abbrev empty_held : Rcv
empty_held = (on_data_frame new_rcv (1 ∷ 0 ∷ 0 ∷ 0 ∷ []) batch).0

empty_frame_stalls :
    let r = (deliver app deliver_rounds empty_held 0).0 in
    (r.recv_seq ≡ 0) × (r.rcv_live ≡ 1) × ((on_data_frame r (wire 0) batch).0.dup_seen ≡ 1)
unfolding on_data_frame place filled rcv_ring_init recv_data_frame rcv_insert ring_block_size
    deliver rcv_head slot_reset frame_payload_size seq_distance
empty_frame_stalls = (refl, refl, refl)
