-- ===== src/System/Rings.antt =====
-- ffrdp.c, the rings of a connection: no operation writes past the end of a slot.
use ffrdp.Base.{ℕ, zero, suc, ◌+◌, ◌-◌, ◌%◌, ◌≤◌, ◌≡◌, refl, arith, sym, ◌∙◌, inl, inr}
use ffrdp.Base.{
  Bool, true, false, not, ◌&&◌, ◌||◌, List, [], ◌∷◌, ◌++◌, none, some, length, take, drop,
}
use ffrdp.Base.{
  ltb, leb, ◌==◌, if◌then◌else◌, if_both, if_cases, Option-cases, Bool-cases, min_c, add32, sub32,
  slt32, u24, get_or, length-take,
}
use ffrdp.Base.Int.{pos, ltb_ℤ, leb_ℤ}
use ffrdp.Seq.{seq_distance}
use ffrdp.Slot.{Slot, empty_slot, slot_reset, type_full, type_short, frame_payload_size}
use ffrdp.Snd.{
  Snd, snd_slot, snd_insert, frame_encrypt, snd_release, snd_advance, advance_loop, open_slot,
  write_chunk, frame_loop, frame_message, fits,
}
use ffrdp.Snd
use ffrdp.Snd.Fill.{opened, open_slot-opened, open_slot_same}
use mathlib.Core.Option.{none-ne-some, some-injective}
use ffrdp.Rcv.{
  Rcv, Batch, rcv_ring_init, ring_block_size, queue_max, frame_seq, dup, rcv_insert, rcv_release,
  rcv_slot, recv_data_frame, place, filled, on_data_frame, next_read, positive, rcv_head,
  skip_taken, deliver_one, deliver, read_one, goes_on, gap, read_loop, copy,
}
use ffrdp.Rcv
use ffrdp.System.{HasRoom, FitsSlots}

pub put_slot-HasRoom : (s : Snd) (i : ℕ) (p : Slot) → HasRoom s → HasRoom (Snd.put_slot s i p)
put_slot-HasRoom s i p h = record { mss_min = h.mss_min; mss_max = h.mss_max; room = h.room }

-- snd_release does not touch the slot being filled.
advance_loop-HasRoom : (fuel : ℕ) (s : Snd) → HasRoom s → HasRoom (advance_loop fuel s)
unfolding advance_loop
advance_loop-HasRoom zero s h = h
advance_loop-HasRoom (suc fuel) s h =
    let more = record s { snd_first = add32 s.snd_first 1 } in
    let ih =
      advance_loop-HasRoom fuel more
        (record { mss_min = h.mss_min; mss_max = h.mss_max; room = h.room }) in
    if_both HasRoom (slt32 (sub32 s.snd_first s.send_seq) 0 && not (snd_slot s s.snd_first).used)
      (advance_loop fuel more) s ih h

pub snd_release-HasRoom : (s : Snd) (i : ℕ) → HasRoom s → HasRoom (snd_release s i)
unfolding snd_release snd_advance
snd_release-HasRoom s i h =
    let c1 = Snd.put_slot s i (record (s.slots i) { used = false; fill = false }) in
    let c2 = record c1 {
      wait_snd = if s.wait_snd == 0 then 0 else s.wait_snd - 1;
      snd_live = if s.snd_live == 0 then 0 else s.snd_live - 1;
    } in
    advance_loop-HasRoom (sub32 c2.send_seq c2.snd_first) c2
      (record { mss_min = h.mss_min; mss_max = h.mss_max; room = h.room })

module _ (encrypt : ℕ → List ℕ → List ℕ) where
  write_chunk-HasRoom :
      (s : Snd) (i : ℕ) (chunk : List ℕ) (now : ℕ)
      → HasRoom s
      → length chunk ≤ s.smss - s.cur_new_size
      → HasRoom (write_chunk encrypt s i chunk now)
  unfolding write_chunk
  write_chunk-HasRoom s i chunk now h le =
      let p = s.slots i in
      let q = record p { body = take s.cur_new_size p.body ++ chunk } in
      let size = s.cur_new_size + length chunk in
      let c2 = snd_insert (Snd.put_slot s i (frame_encrypt encrypt s.send_seq q)) i in
      let full = record c2 {
        tx_unsent = add32 c2.tx_unsent 1;
        cur_new_node = none;
        cur_new_size = 0;
      } in
      let partial = record (Snd.put_slot s i q) { cur_new_size = size; cur_new_tick = now } in
      if_cases HasRoom (size == s.smss) full partial
        (λ _. record { mss_min = h.mss_min; mss_max = h.mss_max; room = h.mss_min })
        (λ e. record {
          mss_min = h.mss_min;
          mss_max = h.mss_max;
          room = ground (arith, e, le, h.room);
        })

  open_slot-HasRoom : (s t : Snd) → HasRoom s → open_slot s ≡ some t → HasRoom t
  unfolding open_slot opened
  open_slot-HasRoom s t h e = elim (Option-cases s.cur_new_node) [
    | inr (i, at) ↦ rw (← some-injective s t (sym (open_slot_same s i at) ∙ e)) h
    | inl closed ↦ elim (Bool-cases (s.slots (s.send_seq % 64)).used) [
      | inl used ↦ absurd (none-ne-some t (rw (← e, open_slot, closed, used) refl))
      | inr free ↦
          rw (← some-injective (opened s) t (sym (open_slot-opened s closed free) ∙ e))
            (record { mss_min = h.mss_min; mss_max = h.mss_max; room = h.mss_min })
    ]
  ]

  frame_loop-HasRoom :
      (fuel : ℕ) (s : Snd) (buf : List ℕ) (now : ℕ)
      → HasRoom s
      → HasRoom (frame_loop encrypt fuel s buf now).0
  unfolding frame_loop
  frame_loop-HasRoom zero s buf now h = h
  frame_loop-HasRoom (suc fuel) s [] now h = h
  frame_loop-HasRoom (suc fuel) s (x ∷ xs) now h = elim (Option-cases (open_slot s)) [
    | inl e ↦ rw (e, frame_loop) h
    | inr (t, e) ↦
        (let ht = open_slot-HasRoom s t h e in
          let n = min_c (length (x ∷ xs)) (t.smss - t.cur_new_size) in
          let le : length (take n (x ∷ xs)) ≤ t.smss - t.cur_new_size =
            ground (arith, length-take n (x ∷ xs)) in
          elim (Option-cases t.cur_new_node) [
            | inl none_open ↦ rw (e, frame_loop, none_open) ht
            | inr (i, at) ↦
                rw (e, frame_loop, at)
                  (frame_loop-HasRoom fuel (write_chunk encrypt t i (take n (x ∷ xs)) now)
                    (drop n (x ∷ xs)) now (write_chunk-HasRoom t i (take n (x ∷ xs)) now ht le))
          ])
  ]

  pub frame_message-HasRoom :
      (s : Snd) (buf : List ℕ) (now : ℕ) → HasRoom s → HasRoom (frame_message encrypt s buf now).0
  unfolding frame_message
  frame_message-HasRoom s [] now h = h
  frame_message-HasRoom s (x ∷ xs) now h =
      if_both (λ (r : Snd × Bool). HasRoom r.0) (fits s (length (x ∷ xs)))
        (frame_loop encrypt (length (x ∷ xs) + 1) s (x ∷ xs) now) (s, false)
        (frame_loop-HasRoom (length (x ∷ xs) + 1) s (x ∷ xs) now h) h

-- A slot that is written again keeps the ring in its bounds.
put_slot-FitsSlots :
    (r : Rcv) (i : ℕ) (p : Slot) → FitsSlots r → p.size ≤ 1504 → FitsSlots (Rcv.put_slot r i p)
put_slot-FitsSlots r i p h le j =
    if_both (λ (q : Slot). q.size ≤ 1504) (j == i) p (r.slots j) le (h j)

rcv_release-FitsSlots : (r : Rcv) (i : ℕ) → FitsSlots r → FitsSlots (rcv_release r i)
unfolding rcv_release
rcv_release-FitsSlots r i h =
    put_slot-FitsSlots r i (record (r.slots i) { used = false; fill = false }) h (h i)

inserted : (r : Rcv) → FitsSlots r → FitsSlots (rcv_insert r)
unfolding rcv_insert
inserted r h = h

filled_fits : (p : Slot) (fb : List ℕ) → (filled p fb).size ≤ 1504
unfolding filled slot_reset ring_block_size
filled_fits p fb = ground arith

recv_data_frame-FitsSlots : (r : Rcv) (p : Slot) → FitsSlots r → FitsSlots (recv_data_frame r p).0
unfolding recv_data_frame
recv_data_frame-FitsSlots r p h =
    let P : Rcv × Bool → Type 0 = λ q. FitsSlots q.0 in
    let learned : Rcv × Bool = (record r { rmss = p.size - 4 }, true) in
    let sized : Rcv × Bool = if leb p.size 4 then (r, false) else learned in
    if_both P (p.kind == type_short) (r, true) (if p.kind == type_full then sized else (r, false)) h
      (if_both P (p.kind == type_full) sized (r, false)
        (if_both P (leb p.size 4) (r, false) learned h h) h)

place-FitsSlots : (r : Rcv) (fb : List ℕ) (una : ℕ) → FitsSlots r → FitsSlots (place r fb una).0
unfolding place
place-FitsSlots r fb una h =
    let P : Rcv × Bool → Type 0 = λ q. FitsSlots q.0 in
    let fseq = frame_seq fb in
    let dist = seq_distance fseq una in
    let p = rcv_slot r fseq in
    let node = filled p fb in
    let (r1, ok) = recv_data_frame (Rcv.put_slot r (fseq % 64) node) node in
    let here = put_slot-FitsSlots r (fseq % 64) node h (filled_fits p fb) in
    let taken : Rcv × Bool = (rcv_insert r1, true) in
    let left : Rcv × Bool =
      (Rcv.put_slot r (fseq % 64) (record node { used = false; fill = false }), false) in
    let repeat : Rcv × Bool = (if p.seq == fseq then dup r else r, false) in
    let new_frame : Rcv × Bool = if ok then taken else left in
    let near : Rcv × Bool = if p.used then repeat else new_frame in
    let ahead : Rcv × Bool = if leb_ℤ (pos queue_max) dist then (r, false) else near in
    if_both P (ltb_ℤ dist (pos 0)) (dup r, false) ahead h
      (if_both P (leb_ℤ (pos queue_max) dist) (r, false) near h
        (if_both P p.used repeat new_frame (if_both FitsSlots (p.seq == fseq) (dup r) r h h) (
          if_both P ok taken left
            (inserted r1 (recv_data_frame-FitsSlots (Rcv.put_slot r (fseq % 64) node) node here))
            (put_slot-FitsSlots r (fseq % 64) (record node { used = false; fill = false }) h
              (filled_fits p fb)))))

rcv_ring_init-FitsSlots : (r : Rcv) → FitsSlots r → FitsSlots (rcv_ring_init r)
unfolding rcv_ring_init
rcv_ring_init-FitsSlots r h =
    if_both FitsSlots r.rcv_ring r (record r { rcv_ring = true; slots = λ i. empty_slot }) h
      (λ j. omega arith)

pub on_data_frame-FitsSlots :
    (r : Rcv) (fb : List ℕ) (b : Batch) → FitsSlots r → FitsSlots (on_data_frame r fb b).0
unfolding on_data_frame
on_data_frame-FitsSlots r fb b h =
    let P : Rcv × Batch → Type 0 = λ q. FitsSlots q.0 in
    let r0 = rcv_ring_init r in
    let h0 = rcv_ring_init-FitsSlots r h in
    let (r1, took) = place r0 fb b.recv_una in
    let here = seq_distance (frame_seq fb) b.recv_una in
    let seen = record b { got_data = true } in
    let una =
      if took && leb_ℤ here (pos 0) && leb_ℤ (pos 0) here then b.recv_una + 1 else b.recv_una in
    let done : Rcv × Batch = (r1, record b { got_data = true; recv_una = una }) in
    let shown : Rcv × Batch = if ltb type_short (get_or fb 0 0) then (r0, seen) else done in
    if_both P (ltb 32 (get_or fb 0 0) || ltb (length fb) 4) (r, b) shown h
      (if_both P (ltb type_short (get_or fb 0 0)) (r0, seen) done h0
        (place-FitsSlots r0 fb b.recv_una h0))

skip_taken-FitsSlots : (fuel : ℕ) (r : Rcv) → FitsSlots r → FitsSlots (skip_taken fuel r)
unfolding skip_taken
skip_taken-FitsSlots zero r h = h
skip_taken-FitsSlots (suc fuel) r h =
    let q = rcv_slot r r.rcv_read_seq in
    let gone = rcv_release r (r.rcv_read_seq % 64) in
    let rest = skip_taken fuel (next_read gone) in
    if_both FitsSlots (r.rcv_read_seq == r.recv_seq) r (if q.used && q.was_read then rest else r) h
      (if_both FitsSlots (q.used && q.was_read) rest r
        (skip_taken-FitsSlots fuel (next_read gone)
          (rcv_release-FitsSlots r (r.rcv_read_seq % 64) h))
        h)

module _ {S : Type 0} (app : S → List ℕ → S × (List ℕ × Bool)) where
  deliver_one-FitsSlots :
      (r : Rcv) (s : S) (i : ℕ) → FitsSlots r → FitsSlots (deliver_one app r s i).0
  unfolding deliver_one
  deliver_one-FitsSlots r s i h =
      let p = r.slots i in
      let (s1, (out, taken)) = app s p.body in
      let node = record p { body = out; was_read = if taken then true else p.was_read } in
      skip_taken-FitsSlots 64 (record (Rcv.put_slot r i node) { recv_seq = u24 (r.recv_seq + 1) })
        (put_slot-FitsSlots r i node h (h i))

  pub deliver-FitsSlots :
      (fuel : ℕ) (r : Rcv) (s : S) → FitsSlots r → FitsSlots (deliver app fuel r s).0
  unfolding deliver
  deliver-FitsSlots zero r s h = h
  deliver-FitsSlots (suc fuel) r s h = elim (Option-cases (rcv_head r)) [
    | inl e ↦ rw (e, deliver) h
    | inr (i, e) ↦ elim (Option-cases (positive (frame_payload_size (r.slots i)))) [
      | inl n ↦ rw (e, deliver, n) h
      | inr (n, m) ↦
          (let (r1, s1) = deliver_one app r s i in
            rw (e, deliver, m) (deliver-FitsSlots fuel r1 s1 (deliver_one-FitsSlots r s i h)))
    ]
  ]

read_one-FitsSlots : (r : Rcv) (len : ℕ) → FitsSlots r → FitsSlots (read_one r len).0
unfolding read_one
read_one-FitsSlots r len h =
    let i = r.rcv_read_seq % 64 in
    let p = r.slots i in
    let P : Rcv × (List ℕ × Bool) → Type 0 = λ q. FitsSlots q.0 in
    let skip : Rcv × (List ℕ × Bool) = (next_read r, ([], false)) in
    let gone = rcv_release-FitsSlots r i h in
    elim (Option-cases (positive (frame_payload_size p))) [
      | inl e ↦ rw (read_one, e) h
      | inr (size, e) ↦
          (let n = min_c len (size - r.rcv_read_off) in
            let off = r.rcv_read_off + n in
            let out = take n (drop r.rcv_read_off p.body) in
            let again : Rcv × (List ℕ × Bool) = (next_read (rcv_release r i), ([], true)) in
            let last : Rcv × (List ℕ × Bool) = (next_read (rcv_release r i), (out, true)) in
            let part : Rcv × (List ℕ × Bool) = (record r { rcv_read_off = off }, (out, false)) in
            let copied : Rcv × (List ℕ × Bool) = if leb size off then last else part in
            let fresh : Rcv × (List ℕ × Bool) = if p.was_read then again else copied in
            rw (read_one, e)
              (if_both P (not p.used || not (p.seq == r.rcv_read_seq)) skip fresh h (
                if_both P p.was_read again copied gone
                  (if_both P (leb size off) last part gone h))))
    ]

read_loop-FitsSlots :
    (fuel : ℕ) (r : Rcv) (len : ℕ) → FitsSlots r → FitsSlots (read_loop fuel r len).0
unfolding read_loop
read_loop-FitsSlots zero r len h = h
read_loop-FitsSlots (suc fuel) r len h =
    let (r1, (out, freed)) = read_one r len in
    let (r2, (rest, freed2)) = read_loop fuel r1 (len - length out) in
    if_both (λ (q : Rcv × (List ℕ × Bool)). FitsSlots q.0) (goes_on r len)
      (r2, (out ++ rest, freed || freed2)) (r, ([], false))
      (read_loop-FitsSlots fuel r1 (len - length out) (read_one-FitsSlots r len h)) h

pub copy-FitsSlots : (r : Rcv) (len : ℕ) → FitsSlots r → FitsSlots (copy r len).0
unfolding copy
copy-FitsSlots r len h = read_loop-FitsSlots (gap r + 1) r len h
