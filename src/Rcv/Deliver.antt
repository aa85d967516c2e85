-- ===== src/Rcv/Deliver.antt =====
-- ffrdp.c, the delivery loop of ffrdp_recvdata_and_sendack: each frame is handed to the application
-- once, in the order of the numbers.
use ffrdp.Base.{
  ℕ, zero, suc, ◌+◌, ◌%◌, ◌≤◌, ◌<◌, ◌≡◌, ◌≢◌, refl, arith, sym, ap, ◌∙◌, ◌⊎◌, inl, inr,
}
use ffrdp.Base.{List, [], ◌++◌, length, Bool, true, false, ◌&&◌, some, none}
use ffrdp.Base.{u24, ◌==◌, if◌then◌else◌, Bool-cases, dec_lt, ℕ_discrete}
use mathlib.Core.Bool.{true≢false}
use mathlib.Core.List.{append_assoc, append-nil}
use ffrdp.Slot.{Slot, frame_payload_size}
use ffrdp.Rcv.{Rcv, rcv_head, skip_taken, deliver_one, deliver, deliver_rounds, positive, put_slot}
use ffrdp.Rcv.Ring.{
  used_count, used_count_lem, used_count_pos, IsFrame, IsAhead, IsValid, untaken, texts, unread,
}
use ffrdp.Rcv.Release.{
  dropped, cursor, delivered_first, dropped-IsValid, dropped_later, dropped_last, texts_cong,
  unread_start,
}
use ffrdp.Rcv.Read.{payload_of_frame, unread_taken}

texts-snoc :
    (f : ℕ → Slot) (n g : ℕ) → texts f n (suc g) ≡ texts f n g ++ untaken (f ((n + g) % 64))
unfolding texts
texts-snoc f n zero = let e : n + 0 ≡ n = omega arith in rw e (append-nil (untaken (f (n % 64))))
texts-snoc f n (suc g) =
    let e : n + 1 + g ≡ n + suc g = omega arith in
    rw (texts-snoc f (n + 1) g, e)
      (sym
        (append_assoc (untaken (f (n % 64))) (texts f (n + 1) g) (untaken (f ((n + suc g) % 64)))))

-- The head, where it has been decrypted and handed out.
marked : Rcv → ℕ → List ℕ → Bool → Rcv
marked r i out taken =
    let node = record (r.slots i) {
      body = out;
      was_read = if taken then true else (r.slots i).was_read;
    } in
    record (put_slot r i node) { recv_seq = u24 (r.recv_seq + 1) }

rcv_head-some :
    (r : Rcv)
    → r.rcv_ring ≡ true
    → r.rcv_live ≢ 0
    → (r.slots (r.recv_seq % 64)).used ≡ true
    → (r.slots (r.recv_seq % 64)).seq ≡ r.recv_seq
    → rcv_head r ≡ some (r.recv_seq % 64)
unfolding rcv_head
rcv_head-some r e l u q = ground arith

rcv_head-other : (r : Rcv) → (r.slots (r.recv_seq % 64)).seq ≢ r.recv_seq → rcv_head r ≡ none
unfolding rcv_head
rcv_head-other r q = ground arith

rcv_head-free : (r : Rcv) → (r.slots (r.recv_seq % 64)).used ≡ false → rcv_head r ≡ none
unfolding rcv_head
rcv_head-free r q = ground arith

module _ (sent : ℕ → List ℕ) where
  -- What rcv_head finds in a well-formed ring.
  rcv_head_lem :
      (r : Rcv) (n g : ℕ)
      → IsValid sent r n g
      → (rcv_head r ≡ none)
        ⊎ ((rcv_head r ≡ some ((n + g) % 64))
            × (g < 64)
            × IsFrame (r.slots ((n + g) % 64)) (n + g)
            × ((r.slots ((n + g) % 64)).body ≡ sent (n + g))
            × ((r.slots ((n + g) % 64)).was_read ≡ false))
  unfolding IsAhead
  rcv_head_lem r n g v =
      let c = cursor r.recv_seq (n + g) v.recv_seq in
      elim (Bool-cases (r.slots ((n + g) % 64)).used) [
        | inl u ↦ elim (dec_lt g 64) [
          | yes lt ↦
              (let (f, b, w) = v.ahead g (omega arith) lt u in
                let pos = used_count_pos r.slots ((n + g) % 64) 64 (omega arith) u in
                let live : r.rcv_live ≢ 0 = λ z. absurd (omega (arith, v.live, pos, z)) in
                elim v.ring [
                  | inl e ↦ inr (
                    rw (← c) (rcv_head-some r e live (rw c u) (rw c (f.seq ∙ sym v.recv_seq))),
                    lt,
                    f,
                    b,
                    w,
                  )
                  | inr (_, z) ↦ absurd (omega (arith, v.live, pos, z))
                ])
          | no ge ↦
              (let full : g ≡ 64 = omega (arith, ge, v.gap_max) in
                let at : (n + g) % 64 ≡ (n + 0) % 64 = omega (arith, full) in
                let f : IsFrame (r.slots ((n + g) % 64)) (n + 0) =
                  rw at (v.delivered 0 (omega (arith, full))) in
                inl (
                  rcv_head-other r
                    (rw c (λ q. absurd (omega (arith, f.seq, v.recv_seq, full, q))))))
        ]
        | inr u ↦ inl (rcv_head-free r (rw c u))
      ]

  marked_other :
      (r : Rcv) (i j : ℕ) (out : List ℕ) (taken : Bool)
      → j ≢ i
      → (marked r i out taken).slots j ≡ r.slots j
  unfolding marked
  marked_other r i j out taken ne = ground (arith, ne)

  marked_same :
      (r : Rcv) (i : ℕ) (out : List ℕ) (taken : Bool)
      → (marked r i out taken).slots i
        ≡ record (r.slots i) { body = out; was_read = if taken then true else (r.slots i).was_read }
  unfolding marked
  marked_same r i out taken = let self : (i == i) ≡ true = ground arith in rw self refl

  marked_live :
      (r : Rcv) (i : ℕ) (out : List ℕ) (taken : Bool)
      → i < 64
      → used_count (marked r i out taken).slots 64 ≡ used_count r.slots 64
  unfolding marked
  marked_live r i out taken h =
      let p = record (r.slots i) {
        body = out;
        was_read = if taken then true else (r.slots i).was_read;
      } in
      omega (arith, used_count_lem r.slots i 64 p h)

  marked-IsFrame :
      (r : Rcv) (n g : ℕ) (out : List ℕ) (taken : Bool)
      → IsFrame (r.slots ((n + g) % 64)) (n + g)
      → length out ≡ length (r.slots ((n + g) % 64)).body
      → IsFrame ((marked r ((n + g) % 64) out taken).slots ((n + g) % 64)) (n + g)
  marked-IsFrame r n g out taken f l = rw (marked_same r ((n + g) % 64) out taken) (record {
    used = f.used;
    seq = f.seq;
    kind = f.kind;
    size = omega (arith, f.size, l);
    body_pos = omega (arith, f.body_pos, l);
  })

  marked_off :
      (r : Rcv) (n g : ℕ) (out : List ℕ) (taken : Bool)
      → IsValid sent r n g
      → g < 64
      → IsFrame ((marked r ((n + g) % 64) out taken).slots ((n + g) % 64)) (n + g)
      → ((k : ℕ)
          → k < 64
          → k ≢ g
          → (marked r ((n + g) % 64) out taken).slots ((n + k) % 64) ≡ r.slots ((n + k) % 64))
      → r.rcv_read_off < length ((marked r ((n + g) % 64) out taken).slots (n % 64)).body
  unfolding marked
  marked_off r n g out taken v lt here other = elim (ℕ_discrete g 0) [
    | yes q ↦
        (let at : n % 64 ≡ (n + g) % 64 = omega (arith, q) in rw (at, v.off_start q) here.body_pos)
    | no q ↦
        (let at : n % 64 ≡ (n + 0) % 64 = omega arith in
          let same = other 0 (omega arith) (λ z. absurd (omega (arith, z, q))) in
          rw (at, same) (rw at at v.off_max (omega (arith, q))))
  ]

  -- Handing out the head leaves a well-formed ring with one more frame to read.
  marked-IsValid :
      (r : Rcv) (n g : ℕ) (out : List ℕ) (taken : Bool)
      → IsValid sent r n g
      → g < 64
      → IsFrame (r.slots ((n + g) % 64)) (n + g)
      → length out ≡ length (r.slots ((n + g) % 64)).body
      → r.rcv_ring ≡ true
      → IsValid sent (marked r ((n + g) % 64) out taken) n (suc g)
  unfolding marked IsAhead
  marked-IsValid r n g out taken v lt f l e =
      let i = (n + g) % 64 in
      let here = marked-IsFrame r n g out taken f l in
      let other : (k : ℕ)
          → k < 64
          → k ≢ g
          → (marked r i out taken).slots ((n + k) % 64) ≡ r.slots ((n + k) % 64) =
        λ k kl ne.
          marked_other r i ((n + k) % 64) out taken (λ q. absurd (omega (arith, q, kl, lt, ne))) in
      record {
        gap_max = omega (arith, lt);
        read_seq = v.read_seq;
        recv_seq = omega (arith, v.recv_seq);
        off_start = λ z. absurd (omega (arith, z));
        off_max = λ pos. marked_off r n g out taken v lt here other;
        delivered = λ k kl. elim (ℕ_discrete k g) [
          | yes q ↦ rw q here
          | no q ↦ rw (other k (omega (arith, kl, lt)) q) (v.delivered k (omega (arith, kl, q)))
        ];
        ahead = λ k le kl.
            rw (other k kl (λ q. absurd (omega (arith, q, le)))) (v.ahead k (omega (arith, le)) kl);
        live = v.live ∙ sym (marked_live r i out taken (omega arith));
        ring = inl e;
      }

  untaken-marked :
      (r : Rcv) (i : ℕ) (out : List ℕ) (taken : Bool)
      → (r.slots i).was_read ≡ false
      → untaken ((marked r i out taken).slots i) ≡ (if taken then [] else out)
  unfolding untaken
  untaken-marked r i out true w = rw (marked_same r i out true) refl
  untaken-marked r i out false w = rw (marked_same r i out false, w) refl

  marked_read_off :
      (r : Rcv) (i : ℕ) (out : List ℕ) (taken : Bool)
      → (marked r i out taken).rcv_read_off ≡ r.rcv_read_off
  unfolding marked
  marked_read_off r i out taken = refl

  -- The bytes of the frame join what is to be read, unless the application took them.
  unread-marked :
      (r : Rcv) (n g : ℕ) (out : List ℕ) (taken : Bool)
      → IsValid sent r n g
      → g < 64
      → (r.slots ((n + g) % 64)).was_read ≡ false
      → unread (marked r ((n + g) % 64) out taken) n (suc g)
        ≡ unread r n g ++ (if taken then [] else out)
  unfolding unread texts
  unread-marked r n zero out taken v lt w =
      let i = (n + 0) % 64 in
      let at : n % 64 ≡ (n + 0) % 64 = omega arith in
      unread_start (marked r i out taken) n 1 (marked_read_off r i out taken ∙ v.off_start refl)
      ∙ texts-snoc (marked r i out taken).slots n 0
      ∙ untaken-marked r i out taken w
  unread-marked r n (suc g) out taken v lt w =
      let i = (n + suc g) % 64 in
      let next : n + 1 + g ≡ n + suc g = omega arith in
      let other : (k : ℕ)
          → k < suc g
          → (marked r i out taken).slots ((n + k) % 64) ≡ r.slots ((n + k) % 64) =
        λ k kl.
          marked_other r i ((n + k) % 64) out taken (λ q. absurd (omega (arith, q, kl, lt))) in
      let later = texts_cong r.slots (marked r i out taken).slots (n + 1) g (λ k kl.
        marked_other r i ((n + 1 + k) % 64) out taken (λ q. absurd (omega (arith, q, kl, lt)))) in
      let at : n % 64 ≡ (n + 0) % 64 = omega arith in
      let first : (marked r i out taken).slots (n % 64) ≡ r.slots (n % 64) =
        rw at (other 0 (omega arith)) in
      rw
        (
          first,
          marked_read_off r i out taken,
          texts-snoc (marked r i out taken).slots (n + 1) g,
          later,
          next,
          untaken-marked r i out taken w,
        )
        (sym (append_assoc _ (texts r.slots (n + 1) g) (if taken then [] else out)))

  -- No frame with number `limit` or above is in the ring.
  Bounded : ℕ → Rcv → ℕ → ℕ → Type 0
  Bounded limit r n g =
      (k : ℕ) → g ≤ k → k < 64 → limit ≤ n + k → (r.slots ((n + k) % 64)).used ≡ false

  dropped-Bounded :
      (limit : ℕ) (r : Rcv) (n g : ℕ)
      → IsValid sent r n (suc g)
      → Bounded limit r n (suc g)
      → Bounded limit (dropped r) (n + 1) g
  unfolding Bounded
  dropped-Bounded limit r n g v b = λ k le kl big. elim (dec_lt k 63) [
    | yes h ↦
        rw (dropped_later sent r n k v.read_seq h)
          (b (suc k) (omega (arith, le)) (omega (arith, h)) (omega (arith, big)))
    | no h ↦ dropped_last sent r n k v.read_seq (omega (arith, h, kl))
  ]

  -- What giving back the taken frames at the cursor does.
  record Skips (limit : ℕ) (r r' : Rcv) (n g : ℕ) : Type 0 where
    m : ℕ
    left : ℕ
    split : m + left ≡ g
    valid : IsValid sent r' (n + m) left
    text : unread r' (n + m) left ≡ unread r n g
    bounded : Bounded limit r' (n + m) left

  Skips-none :
      (limit : ℕ) (r : Rcv) (n g : ℕ)
      → IsValid sent r n g
      → Bounded limit r n g
      → Skips limit r r n g
  Skips-none limit r n g v b =
      let at : n + 0 ≡ n = omega arith in
      record {
        m = 0;
        left = g;
        split = omega arith;
        valid = rw at v;
        text = rw at refl;
        bounded = rw at b;
      }

  Skips-next :
      (limit : ℕ) (r r' : Rcv) (n g : ℕ)
      → unread r n (suc g) ≡ unread (dropped r) (n + 1) g
      → Skips limit (dropped r) r' (n + 1) g
      → Skips limit r r' n (suc g)
  Skips-next limit r r' n g e k =
      let at : n + 1 + k.m ≡ n + suc k.m = omega arith in
      record {
        m = suc k.m;
        left = k.left;
        split = omega (arith, k.split);
        valid = rw at at k.valid;
        text = (rw at at k.text) ∙ sym e;
        bounded = rw at at k.bounded;
      }

  skip_taken-Skips :
      (limit fuel : ℕ) (r : Rcv) (n g : ℕ)
      → IsValid sent r n g
      → Bounded limit r n g
      → Skips limit r (skip_taken fuel r) n g
  unfolding skip_taken
  skip_taken-Skips limit zero r n g v b = Skips-none limit r n g v b
  skip_taken-Skips limit (suc fuel) r n zero v b =
      let none_left : (r.rcv_read_seq == r.recv_seq) ≡ true =
        ground (arith, v.read_seq, v.recv_seq) in
      rw none_left (Skips-none limit r n 0 v b)
  skip_taken-Skips limit (suc fuel) r n (suc g) v b =
      let some_left : (r.rcv_read_seq == r.recv_seq) ≡ false =
        ground (arith, v.read_seq, v.recv_seq, v.gap_max) in
      let c = cursor r.rcv_read_seq n v.read_seq in
      elim (Bool-cases (r.slots (n % 64)).was_read) [
        | inl taken ↦
            (let used : (r.slots (r.rcv_read_seq % 64)).used ≡ true =
                rw c (delivered_first sent v).used in
              let taken' : (r.slots (r.rcv_read_seq % 64)).was_read ≡ true = rw c taken in
              let ih =
                skip_taken-Skips limit fuel (dropped r) (n + 1) g (dropped-IsValid sent r n g v)
                  (dropped-Bounded limit r n g v b) in
              let both : ((r.slots (r.rcv_read_seq % 64)).used
                    && (r.slots (r.rcv_read_seq % 64)).was_read)
                  ≡ true =
                ground (arith, used, taken') in
              rw (some_left, both)
                (Skips-next limit r (skip_taken fuel (dropped r)) n g
                  (unread_taken sent r n g v taken) ih))
        | inr kept ↦
            (let kept' : (r.slots (r.rcv_read_seq % 64)).was_read ≡ false = rw c kept in
              let stop : ((r.slots (r.rcv_read_seq % 64)).used
                    && (r.slots (r.rcv_read_seq % 64)).was_read)
                  ≡ false =
                ground (arith, kept') in
              rw (some_left, stop) (Skips-none limit r n (suc g) v b))
      ]

  ring_on :
      (r : Rcv) (n g : ℕ)
      → IsValid sent r n g
      → (r.slots ((n + g) % 64)).used ≡ true
      → r.rcv_ring ≡ true
  ring_on r n g v u = elim v.ring [
    | inl e ↦ e
    | inr (_, z) ↦
        absurd (omega (arith, z, v.live, used_count_pos r.slots ((n + g) % 64) 64 (omega arith) u))
  ]

  marked-Bounded :
      (limit : ℕ) (r : Rcv) (n g : ℕ) (out : List ℕ) (taken : Bool)
      → Bounded limit r n g
      → Bounded limit (marked r ((n + g) % 64) out taken) n (suc g)
  unfolding Bounded
  marked-Bounded limit r n g out taken b = λ k le kl big.
      rw
        (marked_other r ((n + g) % 64) ((n + k) % 64) out taken
          (λ q. absurd (omega (arith, q, le, kl))))
        (b k (omega (arith, le)) kl big)

  module _ {S : Type 0} (app : S → List ℕ → S × (List ℕ × Bool)) where
    -- What the application makes of the frames from `a` on: its state, and the bytes that it leaves.
    unfoldable pub feed : S → ℕ → ℕ → S × List ℕ
    feed s a zero = (s, [])
    feed s a (suc m) =
        let (s1, (out, taken)) = app s (sent a) in
        let (s2, rest) = feed s1 (a + 1) m in (s2, (if taken then [] else out) ++ rest)

    module _ (in_place : (s : S) (p : List ℕ) → length (app s p).1.0 ≡ length p) where
      -- The delivery of `count` frames: they went to the application as they were sent, in order, once
      -- each; what it did not take is read after what there was; and no frame waits at the head.
      pub record Delivers (r r' : Rcv) (s s' : S) (n g most : ℕ) : Type 0 where
        pub count : ℕ
        pub m : ℕ
        pub left : ℕ
        pub split : m + left ≡ g + count
        pub few : count ≤ most
        pub valid : IsValid sent r' (n + m) left
        pub state : s' ≡ (feed s (n + g) count).0
        pub text : unread r' (n + m) left ≡ unread r n g ++ (feed s (n + g) count).1
        pub stop : rcv_head r' ≡ none

      Delivers-none :
          (r : Rcv) (s : S) (n g most : ℕ)
          → IsValid sent r n g
          → rcv_head r ≡ none
          → Delivers r r s s n g most
      unfolding feed
      Delivers-none r s n g most v h =
          let at : n + 0 ≡ n = omega arith in
          record {
            count = 0;
            m = 0;
            left = g;
            split = omega arith;
            few = omega arith;
            valid = rw at v;
            state = refl;
            text = rw at (sym (append-nil (unread r n g)));
            stop = h;
          }

      -- A round of the loop.
      Delivers-next :
          (limit : ℕ) (r r' : Rcv) (s s' : S) (n g most : ℕ)
          → (k : Skips limit
              (marked r ((n + g) % 64) (app s (sent (n + g))).1.0 (app s (sent (n + g))).1.1)
              r'
              n
              (suc g))
          → (r2 : Rcv)
          → unread
              (marked r ((n + g) % 64) (app s (sent (n + g))).1.0 (app s (sent (n + g))).1.1)
              n
              (suc g)
            ≡ unread r n g
              ++ (if (app s (sent (n + g))).1.1 then [] else (app s (sent (n + g))).1.0)
          → Delivers r' r2 (app s (sent (n + g))).0 s' (n + k.m) k.left most
          → Delivers r r2 s s' n g (suc most)
      unfolding feed
      Delivers-next limit r r' s s' n g most k r2 e d =
          let at : n + k.m + d.m ≡ n + (k.m + d.m) = omega arith in
          let from : n + k.m + k.left ≡ n + g + 1 = omega (arith, k.split) in
          record {
            count = suc d.count;
            m = k.m + d.m;
            left = d.left;
            split = omega (arith, k.split, d.split);
            few = omega (arith, d.few);
            valid = rw at at d.valid;
            state = rw from at d.state;
            text = rw (← at, d.text, k.text, e, from) (append_assoc (unread r n g) _ _);
            stop = d.stop;
          }

      deliver_one_lem :
          (r : Rcv) (s : S) (i a : ℕ)
          → (r.slots i).body ≡ sent a
          → deliver_one app r s i ≡ (
            skip_taken 64 (marked r i (app s (sent a)).1.0 (app s (sent a)).1.1),
            (app s (sent a)).0,
          )
      unfolding deliver_one marked
      deliver_one_lem r s i a e = rw e refl

      deliver_stop :
          (fuel : ℕ) (r : Rcv) (s : S) → rcv_head r ≡ none → deliver app fuel r s ≡ (r, s)
      unfolding deliver
      deliver_stop zero r s h = refl
      deliver_stop (suc fuel) r s h = rw (deliver, h) refl

      deliver_step :
          (fuel : ℕ) (r : Rcv) (s : S) (i n : ℕ)
          → rcv_head r ≡ some i
          → positive (frame_payload_size (r.slots i)) ≡ some n
          → deliver app (suc fuel) r s
            ≡ deliver app fuel (deliver_one app r s i).0 (deliver_one app r s i).1
      unfolding deliver
      deliver_step fuel r s i n h p = rw (deliver, h, p) refl

      deliver_loop :
          (limit fuel : ℕ) (r : Rcv) (s : S) (n g : ℕ)
          → IsValid sent r n g
          → Bounded limit r n g
          → limit < n + g + fuel
          → Delivers r (deliver app fuel r s).0 s (deliver app fuel r s).1 n g fuel
      unfolding Bounded
      deliver_loop limit zero r s n g v b h = elim (rcv_head_lem r n g v) [
        | inl e ↦ rw (deliver_stop 0 r s e) (Delivers-none r s n g _ v e)
        | inr (e, lt, f, body, w) ↦
            absurd (true≢false (sym f.used ∙ b g (omega arith) lt (omega (arith, h))))
      ]
      deliver_loop limit (suc fuel) r s n g v b h = elim (rcv_head_lem r n g v) [
        | inl e ↦ rw (deliver_stop (suc fuel) r s e) (Delivers-none r s n g _ v e)
        | inr (e, lt, f, body, w) ↦
            (let i = (n + g) % 64 in
              let a = app s (sent (n + g)) in
              let size : length a.1.0 ≡ length (r.slots i).body =
                in_place s (sent (n + g)) ∙ ap length (sym body) in
              let on : r.rcv_ring ≡ true = ring_on r n g v f.used in
              let v1 = marked-IsValid r n g a.1.0 a.1.1 v lt f size on in
              let k =
                skip_taken-Skips limit 64 (marked r i a.1.0 a.1.1) n (suc g) v1
                  (marked-Bounded limit r n g a.1.0 a.1.1 b) in
              let r1 = skip_taken 64 (marked r i a.1.0 a.1.1) in
              let d =
                deliver_loop limit fuel r1 a.0 (n + k.m) k.left k.valid k.bounded
                  (omega (arith, h, k.split)) in
              rw
                (
                  deliver_step fuel r s i (length (r.slots i).body) e
                      (payload_of_frame (r.slots i) (n + g) f),
                  deliver_one_lem r s i (n + g) body,
                )
                (Delivers-next limit r r1 s _ n g fuel k _ (unread-marked r n g a.1.0 a.1.1 v lt w)
                  d))
      ]

      -- In a well-formed ring, the delivery loop of ffrdp_recvdata_and_sendack hands the frames from
      -- the delivery point on to the application as they were sent, in the order of their numbers, each
      -- once, until a frame is missing, in at most 65 rounds. What the application does not take in its callback is added,
      -- in the same order, to what ffrdp_recv is to give out, and the ring is well formed again. The
      -- application changes a payload in place, so it keeps its length.
      pub deliver-Delivers :
          (r : Rcv) (s : S) (n g : ℕ)
          → IsValid sent r n g
          → Delivers r
              (deliver app deliver_rounds r s).0
              s
              (deliver app deliver_rounds r s).1
              n
              g
              deliver_rounds
      unfolding Bounded
      deliver-Delivers r s n g v =
          deliver_loop (n + 64) deliver_rounds r s n g v
            (λ k le lt big. absurd (omega (arith, lt, big))) (omega arith)
