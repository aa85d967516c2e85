-- ===== src/Ack/Keep.antt =====
-- ffrdp.c, ffrdp_apply_acks: which frames of the send ring an ACK leaves alone.
use ffrdp.Base.{ℕ, zero, suc, ◌+◌, ◌^◌, ◌<◌, ◌≡◌, refl, arith, sym, ap, ◌∙◌, inl, inr}
use ffrdp.Base.{
  List, length, get_or, true, false, not, ◌&&◌, ◌||◌, Option, none, some, Option-cases, Bool-cases,
  ℕ_discrete,
}
use ffrdp.Base.{ltb, leb, ◌==◌, if◌then◌else◌, slt32, sub32, add32, sle32, u24}
use ffrdp.Base.Int.{pos, pos_part, ◌-ℤ◌, ltb_ℤ, leb_ℤ}
use ffrdp.Seq.{seq_distance, seq_distance_ahead}
use ffrdp.Slot.{Slot}
use ffrdp.Snd.{Snd, snd_slot, snd_head, snd_next, snd_advance, advance_loop, snd_release}
use ffrdp.Snd
use ffrdp.Rcv.{Batch, Rcv}
use ffrdp.Conn.{Conn}
use ffrdp.Ack.{
  is_confirmed, confirm, cut_hole, max_ack, apply_loop, apply_acks, on_ack, ack_bytes, is_held,
  bit_at, probe_answer, read24,
}
use ffrdp.Ack.Wire.{ack_read, unheld_bit}
use mathlib.Core.Bool.{false≢true}

-- The frame `q` is the frame `p`, and in use.
pub record IsKept (p : Slot) (q : Slot) : Type 0 where
  pub used : q.used ≡ true
  pub seq : q.seq ≡ p.seq
  pub body : q.body ≡ p.body

IsKept-same : (p : Slot) → p.used ≡ true → IsKept p p
IsKept-same p u = record { used = u; seq = refl; body = refl }

IsKept-trans : (p q s : Slot) → IsKept p q → IsKept q s → IsKept p s
IsKept-trans p q s h k = record { used = k.used; seq = k.seq ∙ h.seq; body = k.body ∙ h.body }

advance_loop-slots : (fuel : ℕ) (c : Snd) → (advance_loop fuel c).slots ≡ c.slots
unfolding advance_loop
advance_loop-slots zero c = refl
advance_loop-slots (suc fuel) c =
    let more = slt32 (sub32 c.snd_first c.send_seq) 0 && not (snd_slot c c.snd_first).used in
    elim (Bool-cases more) [
      | inl e ↦
          rw (advance_loop, e)
            (advance_loop-slots fuel (record c { snd_first = add32 c.snd_first 1 }))
      | inr e ↦ rw (advance_loop, e) refl
    ]

-- Freeing one slot leaves the others.
snd_release-slots : (c : Snd) (i j : ℕ) → (j == i) ≡ false → (snd_release c i).slots j ≡ c.slots j
unfolding snd_release snd_advance
snd_release-slots c i j other = ap (λ (f : ℕ → Slot). f j) (advance_loop-slots _ _) ∙ rw other refl

pub confirm-slots :
    (c : Conn) (i now j : ℕ) → (j == i) ≡ false → (confirm c i now).snd.slots j ≡ c.snd.slots j
unfolding confirm
confirm-slots c i now j other = snd_release-slots c.snd i j other

pub cut_hole-IsKept :
    (c : Conn) (i now j : ℕ)
    → (c.snd.slots j).used ≡ true
    → IsKept (c.snd.slots j) ((cut_hole c i now).snd.slots j)
unfolding cut_hole
cut_hole-IsKept c i now j u =
    let p = c.snd.slots i in
    let due = sle32 c.rtt.hole_wait (sub32 now p.tick_send) && not p.fast_resend in
    elim (Bool-cases due) [
      | inr e ↦ rw (cut_hole, e) (IsKept-same (c.snd.slots j) u)
      | inl e ↦ elim (ℕ_discrete j i) [
        | yes same ↦
            (let here : (j == i) ≡ true = ground (arith, same) in
              rw (cut_hole, e, here)
                (record { used = rw (← same) u; seq = rw same refl; body = rw same refl }))
        | no ne ↦
            (let other : (j == i) ≡ false = ground (arith, ne) in
              rw (cut_hole, e, other) (IsKept-same (c.snd.slots j) u))
      ]
    ]

-- The walk never frees a frame that the ACK does not confirm.
apply_loop-IsKept :
    (fuel : ℕ) (c : Conn) (b : Batch) (o : Option ℕ) (now j : ℕ)
    → (c.snd.slots j).used ≡ true
    → is_confirmed b (seq_distance (c.snd.slots j).seq b.send_una) ≡ false
    → IsKept (c.snd.slots j) ((apply_loop fuel c b o now).0.snd.slots j)
unfolding apply_loop
apply_loop-IsKept zero c b o now j u f = IsKept-same (c.snd.slots j) u
apply_loop-IsKept (suc fuel) c b none now j u f = IsKept-same (c.snd.slots j) u
apply_loop-IsKept (suc fuel) c b (some i) now j u f =
    let p = c.snd.slots i in
    let dist = seq_distance p.seq b.send_una in
    let t = snd_next Snd.ring_size c.snd i in
    let over = ltb_ℤ (pos 24) dist || not p.first_send in
    let hole = ltb_ℤ (pos 0) (seq_distance (max_ack 24 b) p.seq) in
    let kept : Conn = if hole then cut_hole c i now else c in
    let k : IsKept (c.snd.slots j) (kept.snd.slots j) = elim (Bool-cases hole) [
      | inl e ↦ rw e (cut_hole-IsKept c i now j u)
      | inr e ↦ rw e (IsKept-same (c.snd.slots j) u)
    ] in
    elim (Bool-cases over) [
      | inl e ↦ rw (apply_loop, e) (IsKept-same (c.snd.slots j) u)
      | inr e ↦ elim (Bool-cases (is_confirmed b dist)) [
        | inl yes_it_is ↦
            (let ne : (j == i) ≡ false = elim (ℕ_discrete j i) [
              | yes same ↦ absurd (false≢true (sym f ∙ rw same yes_it_is))
              | no other ↦ ground (arith, other)
            ] in
              let same = confirm-slots c i now j ne in
              let ih = apply_loop-IsKept fuel (confirm c i now) b t now j (rw same u) (rw same f) in
              rw (apply_loop, e, yes_it_is) (rw (← same) ih))
        | inr it_is_not ↦
            (let more =
                apply_loop-IsKept fuel kept b (snd_next Snd.ring_size kept.snd i) now j k.used
                  (rw k.seq f) in
              rw (apply_loop, e, it_is_not)
                (IsKept-trans (c.snd.slots j) (kept.snd.slots j) _ k more))
      ]
    ]

apply_acks-IsKept :
    (c : Conn) (b : Batch) (now j : ℕ)
    → (c.snd.slots j).used ≡ true
    → is_confirmed b (seq_distance (c.snd.slots j).seq b.send_una) ≡ false
    → IsKept (c.snd.slots j) ((apply_acks c b now).snd.slots j)
unfolding apply_acks
apply_acks-IsKept c b now j u f =
    let c1 : Conn = record c { ack_due = c.ack_due || (b.got_data || b.got_query) } in
    elim (Option-cases (snd_head c1.snd)) [
      | inl e ↦ rw (apply_acks, e) (IsKept-same (c.snd.slots j) u)
      | inr (i, e) ↦
          elim (Bool-cases (leb_ℤ (pos 0) (seq_distance b.send_una (c1.snd.slots i).seq))) [
            | inl n ↦
                rw (apply_acks, e, n)
                  (apply_loop-IsKept (Snd.ring_size + 1) c1 b (some i) now j u f)
            | inr n ↦ rw (apply_acks, e, n) (IsKept-same (c.snd.slots j) u)
          ]
    ]

probe_answer-IsKept :
    (c : Conn) (una now j : ℕ)
    → (c.snd.slots j).used ≡ true
    → IsKept (c.snd.slots j) ((probe_answer c una now).snd.slots j)
unfolding probe_answer
probe_answer-IsKept c una now j u =
    let head : Option ℕ = if c.inflight_used == 0 then none else snd_head c.snd in
    let same = IsKept-same (c.snd.slots j) u in
    elim (Bool-cases c.query_probe) [
      | inr e ↦ rw (probe_answer, e) same
      | inl e ↦ elim (Option-cases head) [
        | inl h ↦ rw (probe_answer, e, h) same
        | inr (i, h) ↦ elim (Bool-cases (leb_ℤ (seq_distance una (c.snd.slots i).seq) (pos 0))) [
          | inr n ↦ rw (probe_answer, e, h, n) same
          | inl n ↦ elim (ℕ_discrete j i) [
            | yes at ↦
                (let here : (j == i) ≡ true = ground (arith, at) in
                  rw (probe_answer, e, h, n, here)
                    (record { used = rw (← at) u; seq = rw at refl; body = rw at refl }))
            | no ne ↦
                (let other : (j == i) ≡ false = ground (arith, ne) in
                  rw (probe_answer, e, h, n, other) same)
          ]
        ]
      ]
    ]

-- A batch that begins at `recv_seq` and has no bit for a frame does not confirm it.
is_confirmed_ahead :
    (b : Batch) (m : ℕ)
    → ((i : ℕ) → m ≡ suc i → bit_at b.send_mack i ≡ false)
    → is_confirmed b (pos m) ≡ false
unfolding is_confirmed
is_confirmed_ahead b zero h = ground arith
is_confirmed_ahead b (suc m) h =
    let f = h m refl in
    let low : ltb_ℤ (pos (suc m)) (pos 0) ≡ false = ground arith in
    let high : ltb_ℤ (pos 0) (pos (suc m)) ≡ true = ground arith in
    let e : pos_part (pos (suc m) -ℤ pos 1) ≡ m = ground arith in rw (is_confirmed, low, high, e) f

on_ack-IsKept :
    (c : Conn) (bytes : List ℕ) (b : Batch) (now j : ℕ)
    → (c.snd.slots j).used ≡ true
    → IsKept (c.snd.slots j) ((on_ack c bytes b now).0.snd.slots j)
unfolding on_ack
on_ack-IsKept c bytes b now j u =
    let una = read24 bytes 1 in
    let told = if leb 9 (length bytes) then get_or bytes 8 0 else 0 in
    let c1 : Conn = record c {
      counter_ack_recv = add32 c.counter_ack_recv 1;
      rtt = record c.rtt { win_dup = add32 c.rtt.win_dup told };
      ack_una = una;
    } in
    let answered = probe_answer-IsKept c1 una now j u in
    elim (Bool-cases (ltb (length bytes) 8)) [
      | inl e ↦ rw (on_ack, e) (IsKept-same (c.snd.slots j) u)
      | inr e ↦ elim (Bool-cases (leb_ℤ (pos 0) (seq_distance una b.send_una))) [
        | inl n ↦ rw (on_ack, e, n) answered
        | inr n ↦ rw (on_ack, e, n) answered
      ]
    ]

-- What the ACK of a receive ring, read into a batch that has seen no other ACK and expects no later
-- number, does to a frame that the ring does not hold, at the delivery point or less than 0x7FFFFF
-- numbers after it: the sender keeps it, with its number and its bytes.
pub unheld-IsKept :
    (r : Rcv) (c : Conn) (b : Batch) (now k j m : ℕ)
    → r.recv_seq < 2 ^ 24
    → b.send_mack ≡ 0
    → seq_distance r.recv_seq b.send_una ≡ pos k
    → m < 0x7FFFFF
    → (c.snd.slots j).used ≡ true
    → (c.snd.slots j).seq ≡ u24 (r.recv_seq + m)
    → is_held r m ≡ false
    → let read = on_ack c (ack_bytes r) b now in
      IsKept (c.snd.slots j) ((apply_acks read.0 read.1 now).snd.slots j)
unheld-IsKept r c b now k j m seq none_yet d near u place unheld =
    let (una, mack, _, _) = ack_read r c b now k seq none_yet d in
    let first = on_ack-IsKept c (ack_bytes r) b now j u in
    let c1 : Conn = (on_ack c (ack_bytes r) b now).0 in
    let b1 : Batch = (on_ack c (ack_bytes r) b now).1 in
    let dist : seq_distance (c1.snd.slots j).seq b1.send_una ≡ pos m =
      rw (first.seq, place, una) (seq_distance_ahead r.recv_seq m seq near).0 in
    let open_yet : is_confirmed b1 (seq_distance (c1.snd.slots j).seq b1.send_una) ≡ false =
      rw dist (is_confirmed_ahead b1 m (λ i h. rw mack (unheld_bit r i (rw (← h) unheld)))) in
    IsKept-trans (c.snd.slots j) (c1.snd.slots j) _ first
      (apply_acks-IsKept c1 b1 now j first.used open_yet)
