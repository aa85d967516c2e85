-- ===== src/Rcv/Release.antt =====
-- ffrdp.c, rcv_release: giving back the frame at the read cursor.
use ffrdp.Base.{ℕ, zero, suc, ◌+◌, ◌%◌, ◌<◌, ◌≡◌, ◌≢◌, refl, arith, sym, ap, ◌∙◌, inl, inr}
use ffrdp.Base.{List, true, false}
use ffrdp.Base.{u24, ◌==◌, dec_lt}
use mathlib.Core.Bool.{true≢false}
use ffrdp.Slot.{Slot}
use ffrdp.Rcv.{Rcv, rcv_release, next_read}
use ffrdp.Rcv.Ring.{
  used_count, used_count_lem, used_count_pos, with_slot, IsFrame, IsAhead, IsValid, untaken, texts,
  unread,
}

pub texts_cong :
    (f f' : ℕ → Slot) (n g : ℕ)
    → ((k : ℕ) → k < g → f' ((n + k) % 64) ≡ f ((n + k) % 64))
    → texts f' n g ≡ texts f n g
unfolding texts
texts_cong f f' n zero h = refl
texts_cong f f' n (suc g) h =
    let at : n % 64 ≡ (n + 0) % 64 = omega arith in
    let here : f' (n % 64) ≡ f (n % 64) = rw at (h 0 (omega arith)) in
    let ih = texts_cong f f' (n + 1) g (λ k lt.
      let e : (n + 1 + k) % 64 ≡ (n + suc k) % 64 = omega arith in
      rw e (h (suc k) (omega (arith, lt)))) in
    rw (here, ih) refl

-- At the start of a frame, what is unread is the text of the frames.
pub unread_start : (r : Rcv) (n g : ℕ) → r.rcv_read_off ≡ 0 → unread r n g ≡ texts r.slots n g
unfolding unread texts untaken
unread_start r n zero e = refl
unread_start r n (suc g) e = rw e refl

-- The frame at the cursor is given back.
abbrev pub dropped : Rcv → Rcv
dropped r = next_read (rcv_release r (r.rcv_read_seq % 64))

pub cursor : (a n : ℕ) → a ≡ u24 n → a % 64 ≡ n % 64
cursor a n e = omega (arith, e)

pub dropped-slots : (r : Rcv) (j : ℕ) → j ≢ r.rcv_read_seq % 64 → (dropped r).slots j ≡ r.slots j
unfolding rcv_release
dropped-slots r j ne = ground (arith, ne)

pub dropped-unread :
    (r : Rcv) (n g : ℕ)
    → r.rcv_read_seq ≡ u24 n
    → g < 64
    → unread (dropped r) (n + 1) g ≡ texts r.slots (n + 1) g
dropped-unread r n g e lt =
    unread_start (dropped r) (n + 1) g (off r)
    ∙ texts_cong r.slots (dropped r).slots (n + 1) g
        (λ k kl. dropped-slots r ((n + 1 + k) % 64) (λ q. absurd (omega (arith, q, e, lt, kl))))
  where
    off : (r : Rcv) → (dropped r).rcv_read_off ≡ 0
    off r = refl

dropped-live :
    (r : Rcv) (i : ℕ)
    → i < 64
    → r.rcv_live ≡ used_count r.slots 64
    → (r.slots i).used ≡ true
    → (rcv_release r i).rcv_live ≡ used_count (rcv_release r i).slots 64
unfolding rcv_release
dropped-live r i h live u =
    let p = record (r.slots i) { used = false; fill = false } in
    let l = used_count_lem r.slots i 64 p h in
    let l' : used_count (with_slot r.slots i p) 64 + 1 ≡ used_count r.slots 64 =
      omega (arith, (rw u at l)) in
    ground (arith, live, used_count_pos r.slots i 64 h u, l')

plus_zero : (n : ℕ) → n + 0 ≡ n
plus_zero n = omega arith

module _ (sent : ℕ → List ℕ) where
  pub delivered_first :
      {r : Rcv} {n g : ℕ} → IsValid sent r n (suc g) → IsFrame (r.slots (n % 64)) n
  delivered_first {r} {n} v =
      let e : n + 0 ≡ n = omega arith in rw e at (v.delivered 0 (omega arith))

  pub dropped_later :
      (r : Rcv) (n k : ℕ)
      → r.rcv_read_seq ≡ u24 n
      → k < 63
      → (dropped r).slots ((n + 1 + k) % 64) ≡ r.slots ((n + suc k) % 64)
  dropped_later r n k e lt =
      let same : n + 1 + k ≡ n + suc k = omega arith in
      dropped-slots r ((n + 1 + k) % 64) (λ q. absurd (omega (arith, q, e, lt)))
      ∙ ap (λ (t : ℕ). r.slots (t % 64)) same

  pub dropped_last :
      (r : Rcv) (n k : ℕ)
      → r.rcv_read_seq ≡ u24 n
      → k ≡ 63
      → ((dropped r).slots ((n + 1 + k) % 64)).used ≡ false
  unfolding rcv_release
  dropped_last r n k e q =
      let c : (n + 1 + k) % 64 ≡ r.rcv_read_seq % 64 = omega (arith, e, q) in
      let self : (r.rcv_read_seq % 64 == r.rcv_read_seq % 64) ≡ true = ground arith in
      rw (c, self) refl

  -- Giving back the frame at the cursor leaves a well-formed ring, one frame further.
  pub dropped-IsValid :
      (r : Rcv) (n g : ℕ) → IsValid sent r n (suc g) → IsValid sent (dropped r) (n + 1) g
  unfolding IsAhead rcv_release
  dropped-IsValid r n g v =
      let c = cursor r.rcv_read_seq n v.read_seq in
      let d = delivered_first v in
      let u : (r.slots (r.rcv_read_seq % 64)).used ≡ true = rw c d.used in
      let next : (k : ℕ) → n + 1 + k ≡ n + suc k = λ k. omega arith in
      let later : (k : ℕ) → k < g → IsFrame ((dropped r).slots ((n + 1 + k) % 64)) (n + 1 + k) =
        λ k lt.
          rw (dropped_later r n k v.read_seq (omega (arith, lt, v.gap_max)), next k)
            (v.delivered (suc k) (omega (arith, lt))) in
      record {
        gap_max = omega (arith, v.gap_max);
        read_seq = omega (arith, v.read_seq);
        recv_seq = omega (arith, v.recv_seq);
        off_start = λ z. refl;
        off_max = λ lt. (rw (plus_zero (n + 1)) at (later 0 lt)).body_pos;
        delivered = later;
        ahead = λ k le lt. elim (dec_lt k 63) [
          | yes h ↦
              rw (dropped_later r n k v.read_seq h, next k)
                (v.ahead (suc k) (omega (arith, le)) (omega (arith, h)))
          | no h ↦ λ q.
              absurd (true≢false (sym q ∙ dropped_last r n k v.read_seq (omega (arith, h, lt))))
        ];
        live = dropped-live r (r.rcv_read_seq % 64) (omega arith) v.live u;
        ring = elim v.ring [ inl e ↦ inl e | inr (z, _) ↦ absurd (omega (arith, z)) ];
      }
