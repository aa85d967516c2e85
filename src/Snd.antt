-- ===== src/Snd.antt =====
-- ffrdp.c, the send ring: snd_slot, snd_head, snd_next, snd_advance, snd_insert, snd_release, and
-- ffrdp_frame_message, which cuts a message into frames. The ring is allocated (snd_ring_init),
-- and FEC is compiled out, so a frame is FULL or SHORT.
pub mod Frames
pub mod Fill
pub mod Framing
pub mod Release
pub mod Next
mod Tests
use ffrdp.Base.{ℕ, zero, suc, ◌+◌, ◌-◌, ◌*◌, ◌/◌, ◌%◌, ◌^◌, Bool, true, false, not, ◌&&◌, ◌||◌}
use ffrdp.Base.{List, [], ◌∷◌, ◌++◌, Option, none, some, length, take, drop}
use ffrdp.Base.{ltb, leb, ◌==◌, if◌then◌else◌, min_c, add32, sub32, leb, u16, slt32}
use ffrdp.Slot.{Slot, slot_reset, set_frame_seq, type_full}

-- The send half of FFRDPCONN. `cur_new_node` is the index of the slot being filled.
pub record Snd : Type 0 where
  pub slots : ℕ → Slot
  pub snd_first : ℕ
  pub send_seq : ℕ
  pub wait_snd : ℕ
  pub snd_live : ℕ
  pub tx_unsent : ℕ
  pub cur_new_node : Option ℕ
  pub cur_new_size : ℕ
  pub cur_new_tick : ℕ
  pub smss : ℕ

-- FFRDP_SND_FRAME_RING
abbrev pub ring_size : ℕ
ring_size = 64

-- The index of snd_slot: `seq & FFRDP_SND_FRAME_MASK`.
abbrev pub slot_index : ℕ → ℕ
slot_index seq = seq % 64

abbrev pub snd_slot : Snd → ℕ → Slot
snd_slot c seq = c.slots (slot_index seq)

abbrev pub put_slot : Snd → ℕ → Slot → Snd
put_slot c i p = record c { slots = λ j. if j == i then p else c.slots j }

-- snd_insert, on the slot with index `i`.
unfoldable pub snd_insert : Snd → ℕ → Snd
snd_insert c i = record (put_slot c i (record (c.slots i) { used = true; fill = false })) {
  wait_snd = add32 c.wait_snd 1;
  snd_live = add32 c.snd_live 1;
  send_seq = add32 c.send_seq 1;
}

-- The loop of snd_advance with `fuel` slots left to look at.
unfoldable pub advance_loop : ℕ → Snd → Snd
advance_loop zero c = c
advance_loop (suc fuel) c =
    let next = advance_loop fuel (record c { snd_first = add32 c.snd_first 1 }) in
    if slt32 (sub32 c.snd_first c.send_seq) 0 && not (snd_slot c c.snd_first).used then next else c

-- snd_advance; it makes at most as many rounds as there are numbers up to `send_seq`.
unfoldable pub snd_advance : Snd → Snd
snd_advance c = advance_loop (sub32 c.send_seq c.snd_first) c

unfoldable pub snd_release : Snd → ℕ → Snd
snd_release c i =
    let c1 = put_slot c i (record (c.slots i) { used = false; fill = false }) in
    snd_advance (record c1 {
      wait_snd = if c.wait_snd == 0 then 0 else c.wait_snd - 1;
      snd_live = if c.snd_live == 0 then 0 else c.snd_live - 1;
    })

-- The loop of snd_next from number `seq`, with `fuel` numbers left to look at.
unfoldable pub next_loop : ℕ → Snd → ℕ → Option ℕ
next_loop zero c seq = none
next_loop (suc fuel) c seq =
    let rest = next_loop fuel c (add32 seq 1) in
    if slt32 (sub32 seq c.send_seq) 0
    then (if (snd_slot c seq).used then some (slot_index seq) else rest)
    else none

-- snd_head and snd_next give the index of a slot, `none` for NULL.
unfoldable pub snd_head : Snd → Option ℕ
snd_head c = if c.wait_snd == 0 then none else some (slot_index c.snd_first)

unfoldable pub snd_next : ℕ → Snd → ℕ → Option ℕ
snd_next fuel c i = next_loop fuel c (add32 (c.slots i).seq 1)

-- `cur_new_node ? 1 : 0`, and the bytes that the slot being filled still takes.
abbrev pub filling : Option ℕ → ℕ
filling none = 0
filling (some i) = 1

unfoldable pub room_of : Snd → ℕ
room_of c = elim c.cur_new_node [ none ↦ 0 | some i ↦ c.smss - c.cur_new_size ]

-- `if (!c->cur_new_node) { … }`: the next slot is opened, `none` if it is in use.
unfoldable pub open_slot : Snd → Option Snd
open_slot c = elim c.cur_new_node [
  | some i ↦ some c
  | none ↦
      (let i = slot_index c.send_seq in
        let fresh =
          set_frame_seq (slot_reset (c.slots i) type_full (u16 (4 + c.smss))) c.send_seq in
        if (c.slots i).used
        then none
        else some (record (put_slot c i (record fresh { fill = true })) {
          cur_new_node = some i;
          cur_new_size = 0;
        }))
]

-- The gate of ffrdp_frame_message: `span + (cur ? 1 : 0) + need > FFRDP_SND_FRAME_RING`.
unfoldable pub fits : Snd → ℕ → Bool
fits c len =
    let room = room_of c in
    let need = if ltb room len then (len - room + c.smss - 1) / c.smss else 0 in
    leb (sub32 c.send_seq c.snd_first + filling c.cur_new_node + need) ring_size

module _ (encrypt : ℕ → List ℕ → List ℕ) where
  -- ffrdp_frame_encrypt: the application's FFRDP_ENCRYPT callback works on the payload in place. A
  -- frame is handed to it once, so its effect is a function of the frame's number and bytes.
  unfoldable pub frame_encrypt : ℕ → Slot → Slot
  frame_encrypt seq p = record p { body = encrypt seq p.body }

  -- The rest of a round: `chunk` goes to the end of the slot being filled, and a full frame is
  -- encrypted and joins the ring.
  unfoldable pub write_chunk : Snd → ℕ → List ℕ → ℕ → Snd
  unfolding snd_insert frame_encrypt
  write_chunk c i chunk now =
      let p = c.slots i in
      let filled = record p { body = take c.cur_new_size p.body ++ chunk } in
      let size = c.cur_new_size + length chunk in
      if size == c.smss
      then (let c2 = snd_insert (put_slot c i (frame_encrypt c.send_seq filled)) i in
          record c2 { tx_unsent = add32 c.tx_unsent 1; cur_new_node = none; cur_new_size = 0 })
      else record (put_slot c i filled) { cur_new_size = size; cur_new_tick = now }

  -- The `while (n > 0)` of ffrdp_frame_message, with a bound on its rounds; `rest` is the part of
  -- the message from `buf + (len - n)` on. The flag is false where the code returns -1.
  unfoldable pub frame_loop : ℕ → Snd → List ℕ → ℕ → Snd × Bool
  frame_loop zero c rest now = (c, false)
  frame_loop (suc fuel) c [] now = (c, true)
  frame_loop (suc fuel) c (x ∷ xs) now = elim (open_slot c) [
    | none ↦ (c, false)
    | some c1 ↦
        (let n = min_c (length (x ∷ xs)) (c1.smss - c1.cur_new_size) in
          elim c1.cur_new_node [
            | none ↦ (c1, false)
            | some i ↦
                frame_loop fuel (write_chunk c1 i (take n (x ∷ xs)) now) (drop n (x ∷ xs)) now
          ])
  ]

  -- ffrdp_frame_message: the ring, and whether it returned the length of the message (true) or
  -- -1. Each round of the loop takes a byte or more, so the length bounds the rounds.
  unfoldable pub frame_message : Snd → List ℕ → ℕ → Snd × Bool
  frame_message c [] now = (c, false)
  frame_message c (x ∷ xs) now =
      if fits c (length (x ∷ xs))
      then frame_loop (length (x ∷ xs) + 1) c (x ∷ xs) now
      else (c, false)
