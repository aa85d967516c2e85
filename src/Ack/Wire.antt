-- ===== src/Ack/Wire.antt =====
-- ffrdp.c, the ACK frame: ffrdp_on_ack reads back what ffrdp_recvdata_and_sendack wrote.
use ffrdp.Base.{
  ℕ, zero, suc, ◌+◌, ◌-◌, ◌*◌, ◌/◌, ◌%◌, ◌^◌, ◌≤◌, ◌<◌, ◌≡◌, refl, arith, ap, ◌∙◌, inl, inr,
}
use ffrdp.Base.{
  List, [], ◌∷◌, ◌++◌, length, get_or, true, false, bit_or, ℕ_discrete, Bool-cases, dec_lt,
}
use ffrdp.Base.{ltb, ◌==◌, if◌then◌else◌, min_c, add32, u8}
use ffrdp.Base.Int.{pos, leb_ℤ, pos_part}
use ffrdp.Rtt.{Rtt}
use ffrdp.Slot.{type_ack}
use ffrdp.Seq.{seq_distance}
use ffrdp.Rcv.{Rcv, Batch}
use ffrdp.Conn.{Conn}
use ffrdp.Ack.{bit_at, is_held, recv_mack, recv_wnd, bytes24, ack_bytes, on_ack, probe_answer}
use native.Mathlib.Nat.{add-mul-div_left, div-eq_of_lt, pow-suc, zero-div}
use Prim.Native.Nat.{bit_or-bitwise}
use ffrdp.Base.{Option, none, Option-cases}
use ffrdp.Snd.{snd_head}

two_pow_pos : (i : ℕ) → 0 < 2 ^ i
two_pow_pos zero = omega arith
two_pow_pos (suc i) = omega (arith, pow-suc 2 i, two_pow_pos i)

two_pow_split : (i d : ℕ) → 2 ^ (i + 1 + d) ≡ 2 ^ i * (2 * 2 ^ d)
two_pow_split zero d = let e : 0 + 1 + d ≡ suc d = omega arith in rw e (omega (arith, pow-suc 2 d))
two_pow_split (suc i) d =
    let e : suc i + 1 + d ≡ suc (i + 1 + d) = omega arith in
    rw (e, pow-suc 2 i, pow-suc 2 (i + 1 + d), two_pow_split i d) (omega arith)

-- A multiple of 2 ^ (i + 1) has no part in bit `i`.
bit_at_low : (x i d : ℕ) → bit_at (x + 2 ^ (i + 1 + d)) i ≡ bit_at x i
bit_at_low x i d =
    let e : (x + 2 ^ (i + 1 + d)) / 2 ^ i ≡ x / 2 ^ i + 2 * 2 ^ d =
      rw (two_pow_split i d) (add-mul-div_left x (2 * 2 ^ d) (two_pow_pos i)) in
    let e' : (x + 2 ^ (i + 1 + d)) / 2 ^ i % 2 ≡ x / 2 ^ i % 2 = omega (arith, e) in rw e' refl

-- Bit `i` of a number below 2 ^ i is 0, and adding 2 ^ i sets it.
bit_at_small : (x i : ℕ) → x < 2 ^ i → bit_at x i ≡ false
bit_at_small x i h = let e : x / 2 ^ i ≡ 0 = div-eq_of_lt h in rw e refl

bit_at_top : (x i : ℕ) → x < 2 ^ i → bit_at (x + 2 ^ i) i ≡ true
bit_at_top x i h =
    let e : x / 2 ^ i ≡ 0 = div-eq_of_lt h in
    let one : 2 ^ i * 1 ≡ 2 ^ i = omega arith in
    let e1 : (x + 2 ^ i * 1) / 2 ^ i ≡ x / 2 ^ i + 1 = add-mul-div_left x 1 (two_pow_pos i) in
    let e2 : (x + 2 ^ i) / 2 ^ i ≡ 1 = omega (arith, e, ap (λ (t : ℕ). (x + t) / 2 ^ i) one, e1) in
    rw e2 refl

recv_mack-lt : (r : Rcv) (n : ℕ) → recv_mack r n < 2 ^ n
unfolding recv_mack
recv_mack-lt r zero = omega arith
recv_mack-lt r (suc n) = elim (Bool-cases (is_held r (suc n))) [
  | inl e ↦ rw e (omega (arith, pow-suc 2 n, recv_mack-lt r n))
  | inr e ↦ rw e (omega (arith, pow-suc 2 n, recv_mack-lt r n))
]

mack_held :
    (r : Rcv) (n : ℕ) → is_held r (suc n) ≡ true → recv_mack r (suc n) ≡ recv_mack r n + 2 ^ n
unfolding recv_mack
mack_held r n h = rw h refl

mack_missing : (r : Rcv) (n : ℕ) → is_held r (suc n) ≡ false → recv_mack r (suc n) ≡ recv_mack r n
unfolding recv_mack
mack_missing r n h = rw h (omega arith)

-- Bit `i` of the mask tells whether the frame `i + 1` numbers past the delivery point is held.
recv_mack-bit_at : (r : Rcv) (n i : ℕ) → i < n → bit_at (recv_mack r n) i ≡ is_held r (suc i)
recv_mack-bit_at r zero i h = absurd (omega arith)
recv_mack-bit_at r (suc n) i h = elim (ℕ_discrete n i) [
  | yes same ↦ rw (← same) (elim (Bool-cases (is_held r (suc n))) [
    | inl e ↦ rw (mack_held r n e, e) (bit_at_top (recv_mack r n) n (recv_mack-lt r n))
    | inr e ↦ rw (mack_missing r n e, e) (bit_at_small (recv_mack r n) n (recv_mack-lt r n))
  ])
  | no other ↦
      (let below : i < n = omega (arith, h, other) in
        let gap : i + 1 + (n - i - 1) ≡ n = omega arith in
        let low : bit_at (recv_mack r n + 2 ^ n) i ≡ bit_at (recv_mack r n) i =
          rw (← gap) (bit_at_low (recv_mack r (i + 1 + (n - i - 1))) i (n - i - 1)) in
        let ih = recv_mack-bit_at r n i below in
        elim (Bool-cases (is_held r (suc n))) [
          | inl e ↦ rw (mack_held r n e) (low ∙ ih)
          | inr e ↦ rw (mack_missing r n e) ih
        ])
]

recv_wnd-le : (r : Rcv) → recv_wnd r ≤ 64
unfolding recv_wnd
recv_wnd-le r = ground arith

-- The part of an ACK that every peer reads: eight bytes.
abbrev ack_head : Rcv → List ℕ
ack_head r =
    (type_ack ∷ bytes24 r.recv_seq) ++ (bytes24 (recv_mack r 24) ++ (min_c (recv_wnd r) 255 ∷ []))

abbrev ack_tail : Rcv → List ℕ
ack_tail r = if r.dup_seen == 0 then [] else min_c r.dup_seen 255 ∷ []

-- The window is at most 64, so an ACK has eight bytes, or nine where repeats were seen.
ack_bytes_lem : (r : Rcv) → ack_bytes r ≡ ack_head r ++ ack_tail r
unfolding ack_bytes
ack_bytes_lem r =
    let small : ltb 255 (recv_wnd r) ≡ false = ground (arith, recv_wnd-le r) in
    elim (Bool-cases (r.dup_seen == 0)) [ inl e ↦ rw (small, e) refl | inr e ↦ rw (small, e) refl ]

read24-bytes24 : (x : ℕ) → x < 2 ^ 24 → u8 x + 256 * u8 (x / 256) + 65536 * u8 (x / 65536) ≡ x
read24-bytes24 x h = omega arith

probe_answer-rtt : (c : Conn) (una now : ℕ) → (probe_answer c una now).rtt ≡ c.rtt
unfolding probe_answer
probe_answer-rtt c una now =
    let head : Option ℕ = if c.inflight_used == 0 then none else snd_head c.snd in
    elim (Bool-cases c.query_probe) [
      | inr e ↦ rw (probe_answer, e) refl
      | inl e ↦ elim (Option-cases head) [
        | inl h ↦ rw (probe_answer, e, h) refl
        | inr (i, h) ↦
            (let near = leb_ℤ (seq_distance una (c.snd.slots i).seq) (pos 0) in
              elim (Bool-cases near) [
                | inl n ↦ rw (probe_answer, e, h, n) refl
                | inr n ↦ rw (probe_answer, e, h, n) refl
              ])
      ]
    ]

bit_or_zero : (m : ℕ) → bit_or 0 m ≡ m
bit_or_zero m = bit_or-bitwise 0 m

merge_first :
    (b : Batch) (una k m : ℕ)
    → b.send_mack ≡ 0
    → seq_distance una b.send_una ≡ pos k
    → (leb_ℤ (pos 0) (seq_distance una b.send_una) ≡ true)
      × (bit_or (b.send_mack / 2 ^ pos_part (seq_distance una b.send_una)) m ≡ m)
merge_first b una k m none_yet d =
    let kept : b.send_mack / 2 ^ pos_part (seq_distance una b.send_una) ≡ 0 =
      rw (none_yet, d) (zero-div (2 ^ k)) in
    (rw d (ground arith), rw kept (bit_or_zero m))

told_rtt :
    (c : Conn) (una told now : ℕ)
    → (probe_answer
        (record c {
          counter_ack_recv = add32 c.counter_ack_recv 1;
          rtt = record c.rtt { win_dup = add32 c.rtt.win_dup told };
          ack_una = una;
        })
        una
        now).rtt.win_dup
      ≡ add32 c.rtt.win_dup told
told_rtt c una told now = ap (λ (t : Rtt). t.win_dup) (probe_answer-rtt _ una now)

-- A batch that has seen no ACK takes the number, the mask and the window of one.
on_ack_first :
    (c : Conn) (b : Batch) (now k u0 u1 u2 m0 m1 m2 wnd : ℕ) (more : List ℕ)
    → b.send_mack ≡ 0
    → length more ≤ 1
    → wnd ≤ 64
    → seq_distance (u0 + 256 * u1 + 65536 * u2) b.send_una ≡ pos k
    → let bytes = type_ack ∷ u0 ∷ u1 ∷ u2 ∷ m0 ∷ m1 ∷ m2 ∷ wnd ∷ more in
      let res = on_ack c bytes b now in
      (res.1.send_una ≡ u0 + 256 * u1 + 65536 * u2)
      × (res.1.send_mack ≡ m0 + 256 * m1 + 65536 * m2)
      × (res.0.swnd ≡ wnd)
      × (res.0.rtt.win_dup ≡ add32 c.rtt.win_dup (get_or more 0 0))
unfolding on_ack
on_ack_first c b now k u0 u1 u2 m0 m1 m2 wnd [] none_yet short small d =
    let una = u0 + 256 * u1 + 65536 * u2 in
    let (near, merged) = merge_first b una k (m0 + 256 * m1 + 65536 * m2) none_yet d in
    rw (on_ack, near) (refl, merged, ground arith, told_rtt c una 0 now)
on_ack_first c b now k u0 u1 u2 m0 m1 m2 wnd (x ∷ []) none_yet short small d =
    let una = u0 + 256 * u1 + 65536 * u2 in
    let (near, merged) = merge_first b una k (m0 + 256 * m1 + 65536 * m2) none_yet d in
    rw (on_ack, near) (refl, merged, ground arith, told_rtt c una x now)
on_ack_first c b now k u0 u1 u2 m0 m1 m2 wnd (x ∷ y ∷ more) none_yet short small d =
    absurd (omega arith)

length-ack_tail : (r : Rcv) → length (ack_tail r) ≤ 1
length-ack_tail r = elim (Bool-cases (r.dup_seen == 0)) [
  | inl e ↦ rw e (omega arith)
  | inr e ↦ rw e (omega arith)
]

ack_tail-told : (r : Rcv) → get_or (ack_tail r) 0 0 ≡ min_c r.dup_seen 255
ack_tail-told r = elim (Bool-cases (r.dup_seen == 0)) [
  | inl e ↦ rw e (ground (arith, e))
  | inr e ↦ rw e refl
]

pub ack_read :
    (r : Rcv) (c : Conn) (b : Batch) (now k : ℕ)
    → r.recv_seq < 2 ^ 24
    → b.send_mack ≡ 0
    → seq_distance r.recv_seq b.send_una ≡ pos k
    → let res = on_ack c (ack_bytes r) b now in
      (res.1.send_una ≡ r.recv_seq)
      × (res.1.send_mack ≡ recv_mack r 24)
      × (res.0.swnd ≡ recv_wnd r)
      × (res.0.rtt.win_dup ≡ add32 c.rtt.win_dup (min_c r.dup_seen 255))
ack_read r c b now k seq none_yet d =
    let una = read24-bytes24 r.recv_seq seq in
    let mack = read24-bytes24 (recv_mack r 24) (recv_mack-lt r 24) in
    let wnd = recv_wnd-le r in
    let whole : min_c (recv_wnd r) 255 ≡ recv_wnd r = ground arith in
    let fits : min_c (recv_wnd r) 255 ≤ 64 = rw whole wnd in
    let (sent, held, window, told) =
      on_ack_first c b now k (u8 r.recv_seq) (u8 (r.recv_seq / 256)) (u8 (r.recv_seq / 65536))
        (u8 (recv_mack r 24)) (u8 (recv_mack r 24 / 256)) (u8 (recv_mack r 24 / 65536))
        (min_c (recv_wnd r) 255) (ack_tail r) none_yet (length-ack_tail r) fits (rw una d) in
    rw (ack_bytes_lem r)
      (sent ∙ una, held ∙ mack, window ∙ whole, told ∙ ap (add32 c.rtt.win_dup) (ack_tail-told r))

-- The ACK frame of a receive ring, read by the peer into a batch that has seen no other ACK and
-- expects no later number: the peer gets the number of the delivery point, for each of the 24
-- frames after it whether the ring holds it, the number of free slots as its send window, and the
-- number of repeats, at most 255, in its count of resends that were not needed.
pub ack_round_trip :
    (r : Rcv) (c : Conn) (b : Batch) (now k : ℕ)
    → r.recv_seq < 2 ^ 24
    → b.send_mack ≡ 0
    → seq_distance r.recv_seq b.send_una ≡ pos k
    → let res = on_ack c (ack_bytes r) b now in
      (res.1.send_una ≡ r.recv_seq)
      × ((i : ℕ) → i < 24 → bit_at res.1.send_mack i ≡ is_held r (suc i))
      × (res.0.swnd ≡ recv_wnd r)
      × (res.0.rtt.win_dup ≡ add32 c.rtt.win_dup (min_c r.dup_seen 255))
ack_round_trip r c b now k seq none_yet d =
    let (una, mack, wnd, told) = ack_read r c b now k seq none_yet d in
    (una, λ i h. rw mack (recv_mack-bit_at r 24 i h), wnd, told)

-- Past the 24 frames the mask has no bit.
two_pow_mono : (d : ℕ) → 2 ^ 24 ≤ 2 ^ (24 + d)
two_pow_mono zero = omega arith
two_pow_mono (suc d) =
    let e : 24 + suc d ≡ suc (24 + d) = omega arith in
    rw e (omega (arith, pow-suc 2 (24 + d), two_pow_mono d))

pub unheld_bit : (r : Rcv) (m : ℕ) → is_held r (suc m) ≡ false → bit_at (recv_mack r 24) m ≡ false
unheld_bit r m h = elim (dec_lt m 24) [
  | yes low ↦ recv_mack-bit_at r 24 m low ∙ h
  | no far ↦
      (let e : 24 + (m - 24) ≡ m = omega arith in
        let top : 2 ^ 24 ≤ 2 ^ m = rw (← e) (two_pow_mono (m - 24)) in
        bit_at_small (recv_mack r 24) m (omega (arith, recv_mack-lt r 24, top)))
]
