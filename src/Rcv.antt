-- ===== src/Rcv.antt =====
-- ffrdp.c, the receive ring: rcv_slot, rcv_head, rcv_insert, rcv_release, ffrdp_recv_data_frame,
-- the part of ffrdp_on_frame that takes data frames, the delivery loop of
-- ffrdp_recvdata_and_sendack and the copying loop of ffrdp_recv. FEC is compiled out, so a frame
-- of another type than FULL or SHORT is dropped.
pub mod Ring
pub mod Release
pub mod Read
pub mod Deliver
pub mod Arrive
pub mod Order
mod Tests
use ffrdp.Base.{ℕ, zero, suc, ◌+◌, ◌-◌, ◌*◌, ◌/◌, ◌%◌, ◌^◌, Bool, true, false, not, ◌&&◌, ◌||◌}
use ffrdp.Base.{List, [], ◌∷◌, ◌++◌, Option, none, some, length, take, drop, get_or}
use ffrdp.Base.{ltb, leb, ◌==◌, if◌then◌else◌, min_c, add32, u24, u32}
use ffrdp.Base.Int.{ℤ, pos, negsuc, ltb_ℤ, leb_ℤ}
use ffrdp.Seq.{seq_distance}
use ffrdp.Slot.{Slot, slot_reset, frame_payload_size, empty_slot, type_full, type_short}

-- The receive half of FFRDPCONN. `rcv_ring` tells whether the ring has been allocated.
pub record Rcv : Type 0 where
  pub slots : ℕ → Slot
  pub rcv_ring : Bool
  pub recv_seq : ℕ
  pub rcv_read_seq : ℕ
  pub rcv_read_off : ℕ
  pub rcv_live : ℕ
  pub dup_seen : ℕ
  pub rmss : ℕ
  pub rx_wnd_zero : Bool

-- FFRDP_RX_BATCH
pub record Batch : Type 0 where
  pub recv_una : ℕ
  pub send_una : ℕ
  pub send_mack : ℕ
  pub got_data : Bool
  pub got_query : Bool

-- FFRDP_RCV_FRAME_RING and FFRDP_RECV_QUEUE_MAX.
abbrev pub ring_size : ℕ
ring_size = 64

abbrev pub queue_max : ℕ
queue_max = 64

-- FFRDP_MAX_RX_MSS, and sizeof(FFRDP_FRAME_NODE).
abbrev pub max_rx_mss : ℕ
max_rx_mss = 1492

abbrev pub node_size : ℕ
node_size = 40

-- ring_block_size
unfoldable pub ring_block_size : ℕ → ℕ
ring_block_size payload_max = (node_size + 4 + payload_max + 2 + 7) / 8 * 8

abbrev pub rcv_slot : Rcv → ℕ → Slot
rcv_slot r seq = r.slots (seq % 64)

abbrev pub put_slot : Rcv → ℕ → Slot → Rcv
put_slot r i p = record r { slots = λ j. if j == i then p else r.slots j }

-- rcv_ring_init, where calloc succeeds.
unfoldable pub rcv_ring_init : Rcv → Rcv
rcv_ring_init r = if r.rcv_ring then r else record r { rcv_ring = true; slots = λ i. empty_slot }

-- The index of the slot, `none` for NULL.
unfoldable pub rcv_head : Rcv → Option ℕ
rcv_head r =
    if not r.rcv_ring || r.rcv_live == 0
    then none
    else if (rcv_slot r r.recv_seq).used && (rcv_slot r r.recv_seq).seq == r.recv_seq
    then some (r.recv_seq % 64)
    else none

unfoldable pub rcv_insert : Rcv → Rcv
rcv_insert r = record r { rcv_live = add32 r.rcv_live 1 }

unfoldable pub rcv_release : Rcv → ℕ → Rcv
rcv_release r i = record (put_slot r i (record (r.slots i) { used = false; fill = false })) {
  rcv_live = if r.rcv_live == 0 then 0 else r.rcv_live - 1;
}

-- ffrdp_recv_data_frame: whether the frame is taken, and what it teaches about `rmss`.
unfoldable pub recv_data_frame : Rcv → Slot → Rcv × Bool
recv_data_frame r p =
    if p.kind == type_short
    then (r, true)
    else if p.kind == type_full
    then (if leb p.size 4 then (r, false) else (record r { rmss = p.size - 4 }, true))
    else (r, false)

-- `(w >> 8) & 0xFFFFFF` of the first four bytes, lowest byte first.
abbrev pub frame_seq : List ℕ → ℕ
frame_seq fb = get_or fb 1 0 + 256 * get_or fb 2 0 + 65536 * get_or fb 3 0

abbrev pub dup : Rcv → Rcv
dup r = record r { dup_seen = add32 r.dup_seen 1 }

-- The slot that the bytes of a frame make, cut to the size of a slot.
unfoldable pub filled : Slot → List ℕ → Slot
filled p fb =
    let len = min_c (length fb) (ring_block_size max_rx_mss - node_size) in
    record (slot_reset p (get_or fb 0 0) len) {
      seq = frame_seq fb;
      body = take (len - 4) (drop 4 fb);
    }

-- The steps ① to ④ for a FULL or SHORT frame: the flag tells whether it went into its slot.
unfoldable pub place : Rcv → List ℕ → ℕ → Rcv × Bool
place r fb una =
    let fseq = frame_seq fb in
    let dist = seq_distance fseq una in
    let p = rcv_slot r fseq in
    let node = filled p fb in
    let (r1, ok) = recv_data_frame (put_slot r (fseq % 64) node) node in
    if ltb_ℤ dist (pos 0)
    then (dup r, false)
    else if leb_ℤ (pos queue_max) dist
    then (r, false)
    else if p.used
    then (if p.seq == fseq then dup r else r, false)
    else if ok
    then (rcv_insert r1, true)
    else (put_slot r (fseq % 64) (record node { used = false; fill = false }), false)

-- ffrdp_on_frame, for a frame that is neither an ACK nor a query.
unfoldable pub on_data_frame : Rcv → List ℕ → Batch → Rcv × Batch
on_data_frame r fb b =
    let r0 = rcv_ring_init r in
    let (r1, took) = place r0 fb b.recv_una in
    let here = seq_distance (frame_seq fb) b.recv_una in
    if ltb 32 (get_or fb 0 0) || ltb (length fb) 4
    then (r, b)
    else if ltb type_short (get_or fb 0 0)
    then (r0, record b { got_data = true })
    else (
      r1,
      record b {
        got_data = true;
        recv_una =
            if took && leb_ℤ here (pos 0) && leb_ℤ (pos 0) here then b.recv_una + 1 else b.recv_una;
      },
    )

-- A size as a length, if it is above 0.
abbrev pub positive : ℤ → Option ℕ
positive (pos zero) = none
positive (pos (suc n)) = some (suc n)
positive (negsuc n) = none

-- `c->rcv_read_seq = (c->rcv_read_seq + 1) & 0xFFFFFF; c->rcv_read_off = 0;`
abbrev pub next_read : Rcv → Rcv
next_read r = record r { rcv_read_seq = u24 (r.rcv_read_seq + 1); rcv_read_off = 0 }

-- The inner loop of the delivery, which gives back the frames that the application has taken, with a
-- bound on its rounds.
unfoldable pub skip_taken : ℕ → Rcv → Rcv
unfolding rcv_release
skip_taken zero r = r
skip_taken (suc fuel) r =
    let q = rcv_slot r r.rcv_read_seq in
    let rest = skip_taken fuel (next_read (rcv_release r (r.rcv_read_seq % 64))) in
    if r.rcv_read_seq == r.recv_seq then r else if q.used && q.was_read then rest else r

module _ {S : Type 0} (app : S → List ℕ → S × (List ℕ × Bool)) where
  -- A round of the delivery loop on the slot `i`: `app` is what the application's callback makes of
  -- FFRDP_DECRYPT and FFRDP_RECVDATA on a payload: its new state, the bytes that stand in the slot
  -- then, and whether it returned FFRDP_CONSUMED.
  unfoldable pub deliver_one : Rcv → S → ℕ → Rcv × S
  deliver_one r s i =
      let p = r.slots i in
      let (s1, (out, taken)) = app s p.body in
      let node = record p { body = out; was_read = if taken then true else p.was_read } in
      let r1 = record (put_slot r i node) { recv_seq = u24 (r.recv_seq + 1) } in
      (skip_taken 64 r1, s1)

  -- The loop `while ((p = rcv_head(c)) != NULL)`, with a bound on its rounds.
  unfoldable pub deliver : ℕ → Rcv → S → Rcv × S
  deliver zero r s = (r, s)
  deliver (suc fuel) r s = elim (rcv_head r) [
    | none ↦ (r, s)
    | some i ↦ elim (positive (frame_payload_size (r.slots i))) [
      | none ↦ (r, s)
      | some n ↦ (let (r1, s1) = deliver_one r s i in deliver fuel r1 s1)
    ]
  ]

-- A round of the copying loop of ffrdp_recv with room for `len` bytes: what is copied, and whether a
-- slot was given back.
unfoldable pub read_one : Rcv → ℕ → Rcv × (List ℕ × Bool)
read_one r len =
    let i = r.rcv_read_seq % 64 in
    let p = r.slots i in
    let skip : Rcv × (List ℕ × Bool) = (next_read r, ([], false)) in
    elim (positive (frame_payload_size p)) [
      | none ↦ skip
      | some size ↦
          (let n = min_c len (size - r.rcv_read_off) in
            let off = r.rcv_read_off + n in
            let out = take n (drop r.rcv_read_off p.body) in
            if not p.used || not (p.seq == r.rcv_read_seq)
            then skip
            else if p.was_read
            then (next_read (rcv_release r i), ([], true))
            else if leb size off
            then (next_read (rcv_release r i), (out, true))
            else (record r { rcv_read_off = off }, (out, false)))
    ]

-- The test of the copying loop.
unfoldable pub goes_on : Rcv → ℕ → Bool
goes_on r len = ltb 0 len && (r.rcv_ring && ltb_ℤ (seq_distance r.rcv_read_seq r.recv_seq) (pos 0))

-- The copying loop, with a bound on its rounds: the bytes that the application gets, and `freed`.
unfoldable pub read_loop : ℕ → Rcv → ℕ → Rcv × (List ℕ × Bool)
read_loop zero r len = (r, ([], false))
read_loop (suc fuel) r len =
    let (r1, (out, freed)) = read_one r len in
    let (r2, (rest, freed2)) = read_loop fuel r1 (len - length out) in
    if goes_on r len then (r2, (out ++ rest, freed || freed2)) else (r, ([], false))

-- The numbers from `rcv_read_seq` up to `recv_seq`.
abbrev pub gap : Rcv → ℕ
gap r = u24 (r.recv_seq + 2 ^ 24 - r.rcv_read_seq)

-- A round moves the cursor to the next frame or is the last one.
unfoldable pub copy : Rcv → ℕ → Rcv × (List ℕ × Bool)
copy r len = read_loop (gap r + 1) r len

-- The delivery loop makes a round for each slot at most.
abbrev pub deliver_rounds : ℕ
deliver_rounds = 65
