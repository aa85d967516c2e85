-- ===== src/Rcv/Arrive.antt =====
-- ffrdp.c, the part of ffrdp_on_frame that puts a data frame into its slot.
use ffrdp.Base.{
  ℕ, zero, suc, ◌+◌, ◌-◌, ◌%◌, ◌^◌, ◌≤◌, ◌<◌, ◌≡◌, ◌≢◌, refl, arith, lt→ltb, sym, ap, ◌∙◌, ◌⊎◌, inl,
  inr,
}
use ffrdp.Base.{List, length, take, drop, Bool, true, false}
use ffrdp.Base.{
  u24, ltb, leb, ◌==◌, if◌then◌else◌, Bool-cases, dec_lt, ℕ_discrete, get_or, take-all, min_c,
}
use ffrdp.Base.Int.{pos, ltb_ℤ, leb_ℤ}
use mathlib.Core.Bool.{true≢false}
use ffrdp.Seq.{seq_distance}
use ffrdp.Slot.{Slot, slot_reset, empty_slot}
use ffrdp.Rcv.{
  Rcv, Batch, rcv_ring_init, put_slot, place, filled, recv_data_frame, rcv_insert, dup, frame_seq,
  on_data_frame, ring_block_size,
}
use ffrdp.Rcv.Ring.{used_count, used_count_lem, bit, IsFrame, IsAhead, IsValid, unread}
use ffrdp.Rcv.Release.{cursor, texts_cong}

-- How far a number is from the delivery point, as the two tests see it.
distance_tests :
    (a p : ℕ)
    → p ≤ a + 2 ^ 22
    → a ≤ p + 2 ^ 22
    → (ltb_ℤ (seq_distance (u24 a) (u24 p)) (pos 0) ≡ ltb a p)
      × (leb_ℤ (pos 64) (seq_distance (u24 a) (u24 p)) ≡ leb (p + 64) a)
unfolding seq_distance
distance_tests a p h k = (ground arith, ground arith)

used_count_max : (f : ℕ → Slot) (n : ℕ) → used_count f n ≤ n
unfolding used_count
used_count_max f zero = omega arith
used_count_max f (suc n) = ground (arith, used_count_max f n)

pub used_count_empty : (n : ℕ) → used_count (λ i. empty_slot) n ≡ 0
unfolding used_count
used_count_empty zero = refl
used_count_empty (suc n) = omega (arith, used_count_empty n)

ring_init-off :
    (r : Rcv)
    → r.rcv_ring ≡ false
    → rcv_ring_init r ≡ record r { rcv_ring = true; slots = λ i. empty_slot }
unfolding rcv_ring_init
ring_init-off r e =
    ap (λ (b : Bool). if b then r else record r { rcv_ring = true; slots = λ i. empty_slot }) e

module _ (sent : ℕ → List ℕ) where
  -- The bytes of the frame with number `a`, as it is sent.
  pub record IsWire (fb : List ℕ) (a : ℕ) : Type 0 where
    pub kind : get_or fb 0 0 ≤ 1
    pub seq : frame_seq fb ≡ u24 a
    pub size : length fb ≡ 4 + length (sent a)
    pub body : drop 4 fb ≡ sent a
    pub body_pos : 0 < length (sent a)
    pub body_max : length (sent a) ≤ 1492

  ring_init-on : (r : Rcv) → r.rcv_ring ≡ true → rcv_ring_init r ≡ r
  unfolding rcv_ring_init
  ring_init-on r e = ground arith

  -- An empty ring is well formed where nothing waits to be read.
  fresh-IsValid :
      (r : Rcv) (n g : ℕ)
      → IsValid sent r n g
      → g ≡ 0
      → r.rcv_live ≡ 0
      → IsValid sent (record r { rcv_ring = true; slots = λ i. empty_slot }) n g
        × (unread (record r { rcv_ring = true; slots = λ i. empty_slot }) n g ≡ unread r n g)
  unfolding IsAhead unread
  fresh-IsValid r n g v z l = (
    record {
      gap_max = v.gap_max;
      read_seq = v.read_seq;
      recv_seq = v.recv_seq;
      off_start = v.off_start;
      off_max = λ pos. absurd (omega (arith, pos, z));
      delivered = λ k lt. absurd (omega (arith, lt, z));
      ahead = λ k le lt u. absurd (true≢false (sym u));
      live = l ∙ sym (used_count_empty 64);
      ring = inl refl;
    },
    rw z refl,
  )

  init-IsValid :
      (r : Rcv) (n g : ℕ)
      → IsValid sent r n g
      → IsValid sent (rcv_ring_init r) n g
        × (unread (rcv_ring_init r) n g ≡ unread r n g)
        × ((rcv_ring_init r).rcv_ring ≡ true)
        × ((rcv_ring_init r).recv_seq ≡ r.recv_seq)
  init-IsValid r n g v = elim (Bool-cases r.rcv_ring) [
    | inl e ↦ rw (ring_init-on r e) (v, refl, e, refl)
    | inr e ↦ elim v.ring [
      | inl q ↦ absurd (true≢false (sym q ∙ e))
      | inr (z, l) ↦
          (let (w, t) = fresh-IsValid r n g v z l in rw (ring_init-off r e) (w, t, refl, refl))
    ]
  ]

  unread_same :
      (r r' : Rcv) (n g : ℕ)
      → r'.slots ≡ r.slots
      → r'.rcv_read_off ≡ r.rcv_read_off
      → unread r' n g ≡ unread r n g
  unfolding unread
  unread_same r r' n zero e o = refl
  unread_same r r' n (suc g) e o = rw (e, o) refl

  -- A count does not matter.
  dup-IsValid :
      (r : Rcv) (n g : ℕ)
      → IsValid sent r n g
      → IsValid sent (dup r) n g × (unread (dup r) n g ≡ unread r n g)
  dup-IsValid r n g v = (
    record {
      gap_max = v.gap_max;
      read_seq = v.read_seq;
      recv_seq = v.recv_seq;
      off_start = v.off_start;
      off_max = v.off_max;
      delivered = v.delivered;
      ahead = v.ahead;
      live = v.live;
      ring = v.ring;
    },
    unread_same r (dup r) n g refl refl,
  )

  wire_length : (fb : List ℕ) (a : ℕ) → IsWire fb a → min_c (length fb) 1504 ≡ 4 + length (sent a)
  wire_length fb a w = ground (arith, w.size, w.body_max)

  filled-IsFrame :
      (p : Slot) (fb : List ℕ) (a : ℕ)
      → IsWire fb a
      → IsFrame (filled p fb) a × ((filled p fb).body ≡ sent a) × ((filled p fb).was_read ≡ false)
  unfolding filled slot_reset ring_block_size
  filled-IsFrame p fb a w =
      let l = wire_length fb a w in
      let cut : min_c (length fb) 1504 - 4 ≡ length (sent a) = omega (arith, l) in
      let text : take (length (sent a)) (drop 4 fb) ≡ sent a =
        rw w.body (take-all (length (sent a)) (sent a) (omega arith)) in
      (
        record {
          used = refl;
          seq = w.seq;
          kind = w.kind;
          size = rw (cut, text) l;
          body_pos = rw (cut, text) w.body_pos;
        },
        rw cut text,
        refl,
      )

  -- A frame is taken, and teaches at most how long a frame is.
  recv_data_frame_lem :
      (r : Rcv) (p : Slot)
      → p.kind ≤ 1
      → 4 < p.size
      → (m : ℕ) × (recv_data_frame r p ≡ (record r { rmss = m }, true))
  unfolding recv_data_frame
  recv_data_frame_lem r p k h = elim (ℕ_discrete p.kind 1) [
    | yes e ↦ (r.rmss, rw e refl)
    | no ne ↦
        (let z : p.kind ≡ 0 = omega (arith, k, ne) in
          let long : leb p.size 4 ≡ false = ground (arith, h) in (p.size - 4, rw (z, long) refl))
  ]

  -- A ring after a frame went into a free slot.
  stored : Rcv → ℕ → Slot → ℕ → Rcv
  stored r i node m = rcv_insert (record (put_slot r i node) { rmss = m })

  stored_read :
      (r : Rcv) (i : ℕ) (p : Slot) (m : ℕ) → (stored r i p m).rcv_read_seq ≡ r.rcv_read_seq
  unfolding stored rcv_insert
  stored_read r i p m = refl

  stored_recv : (r : Rcv) (i : ℕ) (p : Slot) (m : ℕ) → (stored r i p m).recv_seq ≡ r.recv_seq
  unfolding stored rcv_insert
  stored_recv r i p m = refl

  stored_off : (r : Rcv) (i : ℕ) (p : Slot) (m : ℕ) → (stored r i p m).rcv_read_off ≡ r.rcv_read_off
  unfolding stored rcv_insert
  stored_off r i p m = refl

  stored_ring : (r : Rcv) (i : ℕ) (p : Slot) (m : ℕ) → (stored r i p m).rcv_ring ≡ r.rcv_ring
  unfolding stored rcv_insert
  stored_ring r i p m = refl

  -- What is to be read stands in the delivered slots.
  unread_other :
      (r r' : Rcv) (n g : ℕ)
      → r'.rcv_read_off ≡ r.rcv_read_off
      → ((j : ℕ) → j < g → r'.slots ((n + j) % 64) ≡ r.slots ((n + j) % 64))
      → unread r' n g ≡ unread r n g
  unfolding unread
  unread_other r r' n zero o h = refl
  unread_other r r' n (suc g) o h =
      let at : n % 64 ≡ (n + 0) % 64 = omega arith in
      let first : r'.slots (n % 64) ≡ r.slots (n % 64) = rw at (h 0 (omega arith)) in
      let later = texts_cong r.slots r'.slots (n + 1) g (λ j jl.
        let e : (n + 1 + j) % 64 ≡ (n + suc j) % 64 = omega arith in
        rw e (h (suc j) (omega (arith, jl)))) in
      rw (first, o, later) refl

  stored_other :
      (r : Rcv) (i j : ℕ) (node : Slot) (m : ℕ) → j ≢ i → (stored r i node m).slots j ≡ r.slots j
  unfolding stored rcv_insert
  stored_other r i j node m ne = ground (arith, ne)

  stored_same : (r : Rcv) (i : ℕ) (node : Slot) (m : ℕ) → (stored r i node m).slots i ≡ node
  unfolding stored rcv_insert
  stored_same r i node m = let self : (i == i) ≡ true = ground arith in rw self refl

  -- Where a slot is free, not all are counted.
  used_count_pos_free : (f : ℕ → Slot) (i n : ℕ) → i < n → (f i).used ≡ false → used_count f n < n
  unfolding used_count
  used_count_pos_free f i zero h u = absurd (omega arith)
  used_count_pos_free f i (suc n) h u = elim (ℕ_discrete n i) [
    | yes e ↦ rw (e, u) (omega (arith, used_count_max f i))
    | no ne ↦ ground (arith, used_count_pos_free f i n (omega (arith, h, ne)) u)
  ]

  stored_live :
      (r : Rcv) (i : ℕ) (node : Slot) (m : ℕ)
      → i < 64
      → r.rcv_live ≡ used_count r.slots 64
      → (r.slots i).used ≡ false
      → node.used ≡ true
      → (stored r i node m).rcv_live ≡ used_count (stored r i node m).slots 64
  unfolding stored rcv_insert
  stored_live r i node m h live u w =
      let l = used_count_lem r.slots i 64 node h in
      let b : bit (r.slots i).used ≡ 0 = ap bit u in
      let b' : bit node.used ≡ 1 = ap bit w in
      omega (arith, live, l, b, b', used_count_pos_free r.slots i 64 h u)

  stored-IsValid :
      (r : Rcv) (n g k : ℕ) (node : Slot) (m : ℕ)
      → IsValid sent r n g
      → r.rcv_ring ≡ true
      → g ≤ k
      → k < 64
      → (r.slots ((n + k) % 64)).used ≡ false
      → IsFrame node (n + k)
      → node.body ≡ sent (n + k)
      → node.was_read ≡ false
      → let r' = stored r ((n + k) % 64) node m in
        IsValid sent r' n g × (unread r' n g ≡ unread r n g)
  unfolding IsAhead
  stored-IsValid r n g k node m v e le lt u f b w =
      let i = (n + k) % 64 in
      let r' = stored r i node m in
      let same = stored_same r i node m in
      let other : (j : ℕ) → j < 64 → j ≢ k → r'.slots ((n + j) % 64) ≡ r.slots ((n + j) % 64) =
        λ j jl ne.
          stored_other r i ((n + j) % 64) node m (λ q. absurd (omega (arith, q, jl, lt, ne))) in
      let at_first : r'.slots ((n + 0) % 64) ≡ r.slots ((n + 0) % 64)
          → r'.slots (n % 64) ≡ r.slots (n % 64) =
        λ h. (let z : n % 64 ≡ (n + 0) % 64 = omega arith in rw z h) in
      (
        record {
          gap_max = v.gap_max;
          read_seq = stored_read r i node m ∙ v.read_seq;
          recv_seq = stored_recv r i node m ∙ v.recv_seq;
          off_start = λ z. stored_off r i node m ∙ v.off_start z;
          off_max = λ pos.
              rw
                (
                  stored_off r i node m,
                  at_first (other 0 (omega arith) (λ q. absurd (omega (arith, q, le, pos)))),
                )
                (v.off_max pos);
          delivered = λ j jl.
              rw (other j (omega (arith, jl, le, lt)) (λ q. absurd (omega (arith, q, jl, le))))
                (v.delivered j jl);
          ahead = λ j jle jlt. elim (ℕ_discrete j k) [
            | yes q ↦ rw (q, same) (λ used. (f, b, w))
            | no q ↦ rw (other j jlt q) (v.ahead j jle jlt)
          ];
          live = stored_live r i node m (omega arith) v.live u f.used;
          ring = inl (stored_ring r i node m ∙ e);
        },
        unread_other r r' n g (stored_off r i node m)
            (λ j jl. other j (omega (arith, jl, le, lt)) (λ q. absurd (omega (arith, q, jl, le)))),
      )

  place-before :
      (r : Rcv) (fb : List ℕ) (una : ℕ)
      → ltb_ℤ (seq_distance (frame_seq fb) una) (pos 0) ≡ true
      → place r fb una ≡ (dup r, false)
  unfolding place
  place-before r fb una h = rw (place, h) refl

  place-far :
      (r : Rcv) (fb : List ℕ) (una : ℕ)
      → ltb_ℤ (seq_distance (frame_seq fb) una) (pos 0) ≡ false
      → leb_ℤ (pos 64) (seq_distance (frame_seq fb) una) ≡ true
      → place r fb una ≡ (r, false)
  unfolding place
  place-far r fb una h k = rw (place, h, k) refl

  place-used :
      (r : Rcv) (fb : List ℕ) (una : ℕ)
      → ltb_ℤ (seq_distance (frame_seq fb) una) (pos 0) ≡ false
      → leb_ℤ (pos 64) (seq_distance (frame_seq fb) una) ≡ false
      → (r.slots (frame_seq fb % 64)).used ≡ true
      → place r fb una
        ≡ (if (r.slots (frame_seq fb % 64)).seq == frame_seq fb then dup r else r, false)
  unfolding place
  place-used r fb una h k u = rw (place, h, k, u) refl

  place-new :
      (r : Rcv) (fb : List ℕ) (una m : ℕ)
      → ltb_ℤ (seq_distance (frame_seq fb) una) (pos 0) ≡ false
      → leb_ℤ (pos 64) (seq_distance (frame_seq fb) una) ≡ false
      → (r.slots (frame_seq fb % 64)).used ≡ false
      → let i = frame_seq fb % 64 in
        let node = filled (r.slots i) fb in
        recv_data_frame (put_slot r i node) node ≡ (record (put_slot r i node) { rmss = m }, true)
        → place r fb una ≡ (stored r i node m, true)
  unfolding place stored filled slot_reset
  place-new r fb una m h k u d = rw (place, h, k, u, d) refl

  either_way :
      (b : Bool) (r : Rcv) (n g a : ℕ)
      → IsValid sent r n g
      → ((n + 64 ≤ a) ⊎ IsFrame (r.slots (a % 64)) a)
      → let r' = if b then dup r else r in
        IsValid sent r' n g
        × (unread r' n g ≡ unread r n g)
        × ((a < n + g) ⊎ ((n + 64 ≤ a) ⊎ IsFrame (r'.slots (a % 64)) a))
  either_way true r n g a v h = ((dup-IsValid r n g v).0, (dup-IsValid r n g v).1, inr h)
  either_way false r n g a v h = (v, refl, inr h)

  held_or_out :
      (r : Rcv) (n g a : ℕ)
      → IsValid sent r n g
      → n + g ≤ a
      → (r.slots (a % 64)).used ≡ true
      → (n + 64 ≤ a) ⊎ IsFrame (r.slots (a % 64)) a
  unfolding IsAhead
  held_or_out r n g a v le u = elim (dec_lt a (n + 64)) [
    | no out ↦ inl (omega (arith, out))
    | yes lt ↦
        (let e : n + (a - n) ≡ a = omega (arith, le) in
          inr (rw e at (v.ahead (a - n) (omega (arith, le)) (omega (arith, lt, le)) (rw e u)).0))
  ]

  -- A free slot is not that of a frame to be read.
  in_window :
      (r : Rcv) (n g a : ℕ)
      → IsValid sent r n g
      → n + g ≤ a
      → a < n + g + 64
      → (r.slots (a % 64)).used ≡ false
      → a - n < 64
  in_window r n g a v le near u = elim (dec_lt a (n + 64)) [
    | yes lt ↦ omega (arith, lt)
    | no out ↦
        (let k = a - 64 - n in
          let at : (n + k) % 64 ≡ a % 64 = omega (arith, out) in
          let f = v.delivered k (omega (arith, near, out)) in
          absurd (true≢false (sym f.used ∙ rw at u)))
  ]

  stored_at :
      (r : Rcv) (n g a i : ℕ) (node : Slot) (m : ℕ)
      → IsValid sent r n g
      → r.rcv_ring ≡ true
      → i ≡ a % 64
      → n + g ≤ a
      → a < n + g + 64
      → (r.slots i).used ≡ false
      → IsFrame node a
      → node.body ≡ sent a
      → node.was_read ≡ false
      → let r' = stored r i node m in
        IsValid sent r' n g × (unread r' n g ≡ unread r n g) × IsFrame (r'.slots (a % 64)) a
  stored_at r n g a i node m v on at le near u f b w =
      let e : n + (a - n) ≡ a = omega (arith, le) in
      let i' : i ≡ (n + (a - n)) % 64 = omega (arith, at, e) in
      let inside : a - n < 64 = in_window r n g a v le near (rw (← at) u) in
      let (x, y) =
        stored-IsValid r n g (a - n) node m v on (omega (arith, le)) inside (rw (← i') u) (rw e f)
          (rw e b) w in
      (rw i' x, rw i' y, rw (← at, stored_same r i node m) f)

  place-IsFrame :
      (r : Rcv) (fb : List ℕ) (n g a : ℕ)
      → IsValid sent r n g
      → r.rcv_ring ≡ true
      → IsWire fb a
      → n + g ≤ a
      → a < n + g + 64
      → ltb_ℤ (seq_distance (frame_seq fb) r.recv_seq) (pos 0) ≡ false
      → leb_ℤ (pos 64) (seq_distance (frame_seq fb) r.recv_seq) ≡ false
      → (r.slots (frame_seq fb % 64)).used ≡ false
      → let r' = (place r fb r.recv_seq).0 in
        IsValid sent r' n g
        × (unread r' n g ≡ unread r n g)
        × ((a < n + g) ⊎ ((n + 64 ≤ a) ⊎ IsFrame (r'.slots (a % 64)) a))
  place-IsFrame r fb n g a v on w le near before far u =
      let i = frame_seq fb % 64 in
      let at : i ≡ a % 64 = cursor (frame_seq fb) a w.seq in
      let node = filled (r.slots i) fb in
      let (f, b, fresh) = filled-IsFrame (r.slots i) fb a w in
      let (m, d) =
        recv_data_frame_lem (put_slot r i node) node f.kind (omega (arith, f.size, f.body_pos)) in
      let (x, y, z) = stored_at r n g a i node m v on at le near u f b fresh in
      rw (place-new r fb r.recv_seq m before far u d) (x, y, inr (inr z))

  pub place_lem :
      (r : Rcv) (fb : List ℕ) (n g a : ℕ)
      → IsValid sent r n g
      → r.rcv_ring ≡ true
      → IsWire fb a
      → n + g ≤ a + 2 ^ 22
      → a ≤ n + g + 2 ^ 22
      → let r' = (place r fb r.recv_seq).0 in
        IsValid sent r' n g
        × (unread r' n g ≡ unread r n g)
        × ((a < n + g) ⊎ ((n + 64 ≤ a) ⊎ IsFrame (r'.slots (a % 64)) a))
  unfolding IsAhead
  place_lem r fb n g a v on w back ahead =
      let i = frame_seq fb % 64 in
      let at : i ≡ a % 64 = cursor (frame_seq fb) a w.seq in
      let t = distance_tests a (n + g) back ahead in
      let before : ltb_ℤ (seq_distance (frame_seq fb) r.recv_seq) (pos 0) ≡ ltb a (n + g) =
        rw (w.seq, v.recv_seq) t.0 in
      let far : leb_ℤ (pos 64) (seq_distance (frame_seq fb) r.recv_seq) ≡ leb (n + g + 64) a =
        rw (w.seq, v.recv_seq) t.1 in
      elim (dec_lt a (n + g)) [
        | yes old ↦
            (let (u, x) = dup-IsValid r n g v in
              rw (place-before r fb r.recv_seq (before ∙ lt→ltb a (n + g) old)) (u, x, inl old))
        | no new ↦
            (let b : ltb a (n + g) ≡ false = ground (arith, new) in
              elim (dec_lt a (n + g + 64)) [
                | no out ↦
                    (let o : leb (n + g + 64) a ≡ true = ground (arith, out) in
                      rw (place-far r fb r.recv_seq (before ∙ b) (far ∙ o))
                        (v, refl, inr (inl (omega (arith, out)))))
                | yes near ↦
                    (let o : leb (n + g + 64) a ≡ false = ground (arith, near) in
                      elim (Bool-cases (r.slots i).used) [
                        | inl u ↦ rw (place-used r fb r.recv_seq (before ∙ b) (far ∙ o) u) (
                            either_way ((r.slots i).seq == frame_seq fb) r n g a v
                              (held_or_out r n g a v (omega (arith, new)) (rw (← at) u)))
                        | inr u ↦
                            place-IsFrame r fb n g a v on w (omega (arith, new)) near (before ∙ b)
                              (far ∙ o) u
                      ])
              ])
      ]

  -- In a well-formed ring, or before there is one, ffrdp_on_frame with the frame number `a`, at most
  -- 2 ^ 22 numbers from the delivery point, leaves a well-formed ring with the same bytes to read;
  -- and the frame stands in its slot, unless it was delivered before or lies 64 numbers or more
  -- past the read cursor.
  pub on_data_frame-IsValid :
      (r : Rcv) (fb : List ℕ) (b : Batch) (n g a : ℕ)
      → IsValid sent r n g
      → IsWire fb a
      → b.recv_una ≡ r.recv_seq
      → n + g ≤ a + 2 ^ 22
      → a ≤ n + g + 2 ^ 22
      → let r' = (on_data_frame r fb b).0 in
        IsValid sent r' n g
        × (unread r' n g ≡ unread r n g)
        × ((a < n + g) ⊎ ((n + 64 ≤ a) ⊎ IsFrame (r'.slots (a % 64)) a))
  unfolding on_data_frame
  on_data_frame-IsValid r fb b n g a v w una back ahead =
      let (v0, t0, on, seq) = init-IsValid r n g v in
      let small : ltb 32 (get_or fb 0 0) ≡ false = ground (arith, w.kind) in
      let long : ltb (length fb) 4 ≡ false = ground (arith, w.size) in
      let plain : ltb 1 (get_or fb 0 0) ≡ false = ground (arith, w.kind) in
      let same : b.recv_una ≡ (rcv_ring_init r).recv_seq = una ∙ sym seq in
      let (x, y, z) = place_lem (rcv_ring_init r) fb n g a v0 on w back ahead in
      rw (on_data_frame, small, long, plain, same) (x, y ∙ t0, z)
