-- ===== src/Rcv/Order.antt =====
-- ffrdp.c, the receive side as a whole: what the application gets is what was sent, in order.
use ffrdp.Base.{ℕ, zero, suc, ◌+◌, ◌^◌, ◌≤◌, ◌≡◌, refl, arith, sym, ap, ◌∙◌, inr}
use ffrdp.Base.{List, [], ◌++◌, length, Bool, false, u24, if◌then◌else◌}
use mathlib.Core.List.{append_assoc}
use mathlib.Core.Bool.{false≢true}
use ffrdp.Slot.{empty_slot}
use ffrdp.Rcv.{Rcv, Batch, on_data_frame, deliver, deliver_rounds, copy, max_rx_mss}
use ffrdp.Rcv.Ring.{IsValid, IsAhead, unread}
use ffrdp.Rcv.Arrive.{IsWire, on_data_frame-IsValid, used_count_empty}
use ffrdp.Rcv.Read.{copy-Reads}
use ffrdp.Rcv.Deliver.{feed, deliver-Delivers}

-- The receive half as ffrdp_conn_init leaves it.
abbrev pub new_rcv : Rcv
new_rcv = record {
  slots = λ i. empty_slot;
  rcv_ring = false;
  recv_seq = 0;
  rcv_read_seq = 0;
  rcv_read_off = 0;
  rcv_live = 0;
  dup_seen = 0;
  rmss = max_rx_mss;
  rx_wnd_zero = false;
}

module _ (sent : ℕ → List ℕ) {S : Type 0} (app : S → List ℕ → S × (List ℕ × Bool)) (s0 : S) where
  -- The states that a new connection reaches: the ring, the application's state, the bytes that
  -- ffrdp_recv has given it, and the number of frames delivered. A frame may come any number of
  -- times, in any order, or not at all; what comes is a frame as it was sent.
  pub data Reach : Rcv → S → List ℕ → ℕ → Type 0 where
    start : Reach new_rcv s0 [] 0
    arrived :
        {r : Rcv} {s : S} {out : List ℕ} {p : ℕ} (fb : List ℕ) (b : Batch) (a : ℕ)
        → IsWire sent fb a
        → b.recv_una ≡ r.recv_seq
        → p ≤ a + 2 ^ 22
        → a ≤ p + 2 ^ 22
        → Reach r s out p
        → Reach (on_data_frame r fb b).0 s out p
    handed_out :
        {r : Rcv} {s : S} {out : List ℕ} {p : ℕ} (q : ℕ)
        → p ≤ q
        → q ≤ p + 2 ^ 16
        → (deliver app deliver_rounds r s).0.recv_seq ≡ u24 q
        → Reach r s out p
        → Reach (deliver app deliver_rounds r s).0 (deliver app deliver_rounds r s).1 out q
    received :
        {r : Rcv} {s : S} {out : List ℕ} {p : ℕ} (len : ℕ)
        → Reach r s out p
        → Reach (copy r len).0 s (out ++ (copy r len).1.0) p

  pub new_rcv-IsValid : IsValid sent new_rcv 0 0
  unfolding IsAhead
  new_rcv-IsValid = record {
    gap_max = omega arith;
    read_seq = refl;
    recv_seq = refl;
    off_start = λ z. refl;
    off_max = λ pos. absurd (omega (arith, pos));
    delivered = λ k lt. absurd (omega (arith, lt));
    ahead = λ k le lt u. absurd (false≢true u);
    live = sym (used_count_empty 64);
    ring = inr (refl, refl);
  }

  feed-append :
      (s : S) (a m k : ℕ)
      → feed sent app s a (m + k) ≡ (
        (feed sent app (feed sent app s a m).0 (a + m) k).0,
        (feed sent app s a m).1 ++ (feed sent app (feed sent app s a m).0 (a + m) k).1,
      )
  unfolding feed
  feed-append s a zero k =
      let e : 0 + k ≡ k = omega arith in let e' : a + 0 ≡ a = omega arith in rw (e, e') refl
  feed-append s a (suc m) k =
      let e : suc m + k ≡ suc (m + k) = omega arith in
      let e' : a + 1 + m ≡ a + suc m = omega arith in
      let one = app s (sent a) in
      let head : List ℕ = if one.1.1 then [] else one.1.0 in
      let ih = feed-append one.0 (a + 1) m k in
      rw (e, ih, e')
        (ap (λ (t : List ℕ). ((feed sent app (feed sent app one.0 (a + 1) m).0 (a + suc m) k).0, t))
          (sym (append_assoc head (feed sent app one.0 (a + 1) m).1 _)))

  module _ (in_place : (s : S) (p : List ℕ) → length (app s p).1.0 ≡ length p) where
    -- What holds of a state that is reached.
    record IsInOrder (r : Rcv) (s : S) (out : List ℕ) (p : ℕ) : Type 0 where
      n : ℕ
      g : ℕ
      split : n + g ≡ p
      valid : IsValid sent r n g
      state : s ≡ (feed sent app s0 0 p).0
      text : out ++ unread r n g ≡ (feed sent app s0 0 p).1

    Reach-IsInOrder :
        {r : Rcv} {s : S} {out : List ℕ} {p : ℕ} → Reach r s out p → IsInOrder r s out p
    unfolding feed unread
    Reach-IsInOrder start = record {
      n = 0;
      g = 0;
      split = omega arith;
      valid = new_rcv-IsValid;
      state = refl;
      text = refl;
    }
    Reach-IsInOrder (arrived {r} {s} {out} {p} fb b a w una back ahead h) =
        let i = Reach-IsInOrder h in
        let (v, t, _) =
          on_data_frame-IsValid sent r fb b i.n i.g a i.valid w una (omega (arith, i.split, back))
            (omega (arith, i.split, ahead)) in
        record { n = i.n; g = i.g; split = i.split; valid = v; state = i.state; text = rw t i.text }
    Reach-IsInOrder (handed_out {r} {s} {out} {p} q le few seq h) =
        let i = Reach-IsInOrder h in
        let d = deliver-Delivers sent app in_place r s i.n i.g i.valid in
        let e : p + d.count ≡ q =
          omega (arith, d.valid.recv_seq, seq, d.split, i.split, d.few, le, few) in
        let from : 0 + p ≡ i.n + i.g = omega (arith, i.split) in
        let l = feed-append s0 0 p d.count in
        record {
          n = i.n + d.m;
          g = d.left;
          split = omega (arith, d.split, i.split, e);
          valid = d.valid;
          state = rw (← e, l, ← i.state, from) d.state;
          text =
              rw (← e, l, ← i.state, from, d.text, ← i.text)
                (sym (append_assoc out (unread r i.n i.g) _));
        }
    Reach-IsInOrder (received {r} {s} {out} {p} len h) =
        let i = Reach-IsInOrder h in
        let c = copy-Reads sent r i.n i.g len i.valid in
        record {
          n = i.n + c.m;
          g = c.left;
          split = omega (arith, c.split, i.split);
          valid = c.valid;
          state = i.state;
          text = append_assoc out _ _ ∙ rw c.text i.text;
        }

    -- Whatever frames of a stream come, in whatever order, again or not at all, and whenever the
    -- application reads: where `p` frames have been delivered, the application's callback has
    -- had the frames 0 to p - 1 of the stream in order, each once, and the bytes that ffrdp_recv has
    -- given out, followed by those that it can give out now, are what the callback left of
    -- these frames. The numbers may go past 2 ^ 24 and wrap; a frame that comes is at most
    -- 2 ^ 22 numbers from the delivery point.
    pub Reach-order :
        (r : Rcv) (s : S) (out : List ℕ) (p : ℕ)
        → Reach r s out p
        → (n : ℕ) × (g : ℕ) × (n + g ≡ p)
          × IsValid sent r n g
          × (s ≡ (feed sent app s0 0 p).0)
          × (out ++ unread r n g ≡ (feed sent app s0 0 p).1)
    Reach-order r s out p h =
        let i = Reach-IsInOrder h in (i.n, i.g, i.split, i.valid, i.state, i.text)
