-- ===== src/Rcv/Read.antt =====
-- ffrdp.c, the copying loop of ffrdp_recv: the application gets the bytes in their order.
use ffrdp.Base.{
  ℕ, zero, suc, ◌+◌, ◌-◌, ◌%◌, ◌≤◌, ◌<◌, ◌≡◌, refl, arith, sym, ap, ◌∙◌, ◌⊎◌, inl, inr,
}
use ffrdp.Base.{List, [], ◌∷◌, ◌++◌, length, take, drop, true, false, ◌&&◌, ◌||◌, some}
use ffrdp.Base.{
  u24, ltb, leb, ◌==◌, min_c, Bool-cases, dec_lt, length-take, length-drop, length-append,
  take-append-drop, take-all,
}
use ffrdp.Base.Int.{pos, ltb_ℤ}
use mathlib.Core.List.{append_assoc, append-nil}
use ffrdp.Seq.{seq_distance}
use ffrdp.Slot.{Slot, frame_payload_size}
use ffrdp.Rcv.{Rcv, rcv_release, read_one, read_loop, goes_on, copy, positive, gap}
use ffrdp.Rcv.Ring.{IsFrame, IsValid, texts, unread}
use ffrdp.Rcv.Release.{dropped, cursor, delivered_first, dropped-IsValid, dropped-unread}

-- The loop goes on where frames are to be read.
more_to_read : (n g : ℕ) → g ≤ 64 → ltb_ℤ (seq_distance (u24 n) (u24 (n + g))) (pos 0) ≡ ltb 0 g
unfolding seq_distance
more_to_read n g h = ground (arith, h)

pub payload_of_frame :
    (p : Slot) (a : ℕ) → IsFrame p a → positive (frame_payload_size p) ≡ some (length p.body)
unfolding frame_payload_size
payload_of_frame p a f = go (length p.body) refl
  where
    go : (l : ℕ) → length p.body ≡ l → positive (frame_payload_size p) ≡ some (length p.body)
    go zero e = absurd (omega (arith, f.body_pos, e))
    go (suc l) e =
        let kind : leb p.kind 1 ≡ true = ground (arith, f.kind) in
        let size : p.size ≡ 4 + suc l = omega (arith, f.size, e) in
        let fits : leb 4 (4 + suc l) ≡ true = ground arith in
        let rest : 4 + suc l - 4 ≡ suc l = omega arith in rw (kind, size, e, fits, rest) refl

read_loop-stop :
    (fuel : ℕ) (r : Rcv) (len : ℕ)
    → goes_on r len ≡ false
    → read_loop (suc fuel) r len ≡ (r, ([], false))
unfolding read_loop
read_loop-stop fuel r len e = rw (read_loop, e) refl

read_loop-zero : (fuel : ℕ) (r : Rcv) → read_loop fuel r 0 ≡ (r, ([], false))
unfolding read_loop goes_on
read_loop-zero zero r = refl
read_loop-zero (suc fuel) r = refl

read_loop-step :
    (fuel : ℕ) (r : Rcv) (len : ℕ)
    → goes_on r len ≡ true
    → read_loop (suc fuel) r len ≡ (
        let one = read_one r len in
        let rest = read_loop fuel one.0 (len - length one.1.0) in
        (rest.0, (one.1.0 ++ rest.1.0, one.1.1 || rest.1.1)))
unfolding read_loop
read_loop-step fuel r len e = rw (read_loop, e) refl

dropped_keeps : (r : Rcv) → (dropped r).recv_seq ≡ r.recv_seq
unfolding rcv_release
dropped_keeps r = refl

drop_nil : (b : ℕ) → drop {A = ℕ} b [] ≡ []
drop_nil zero = refl
drop_nil (suc b) = refl

drop-drop : (a b : ℕ) (xs : List ℕ) → drop b (drop a xs) ≡ drop (a + b) xs
drop-drop zero b xs = ap (λ (t : ℕ). drop t xs) (omega arith)
drop-drop (suc a) b [] = drop_nil b ∙ sym (drop_nil (suc a + b))
drop-drop (suc a) b (x ∷ xs) =
    let e : suc a + b ≡ suc (a + b) = omega arith in rw e (drop-drop a b xs)

module _ (sent : ℕ → List ℕ) where
  -- The slot at the cursor, where there is a frame to read.
  at_cursor :
      (r : Rcv) (n g : ℕ)
      → IsValid sent r n (suc g)
      → let p = r.slots (r.rcv_read_seq % 64) in
        IsFrame p n
        × (positive (frame_payload_size p) ≡ some (length p.body))
        × ((p.seq == r.rcv_read_seq) ≡ true)
        × (r.rcv_read_off < length p.body)
  at_cursor r n g v =
      let c = cursor r.rcv_read_seq n v.read_seq in
      let f : IsFrame (r.slots (r.rcv_read_seq % 64)) n = rw c (delivered_first sent v) in
      (f, payload_of_frame _ n f, ground (arith, f.seq, v.read_seq), rw c (v.off_max (omega arith)))

  -- What a run of the loop has done: the frames from `n` to `n + m` are given back.
  pub record Reads (r r' : Rcv) (n g len : ℕ) (out : List ℕ) : Type 0 where
    pub m : ℕ
    pub left : ℕ
    pub split : m + left ≡ g
    pub valid : IsValid sent r' (n + m) left
    pub recv_same : r'.recv_seq ≡ r.recv_seq
    pub text : out ++ unread r' (n + m) left ≡ unread r n g
    pub most : length out ≤ len
    pub all : (length out ≡ len) ⊎ (unread r' (n + m) left ≡ [])

  read_one_taken :
      (r : Rcv) (n g len : ℕ)
      → IsValid sent r n (suc g)
      → (r.slots (n % 64)).was_read ≡ true
      → read_one r len ≡ (dropped r, ([], true))
  unfolding read_one
  read_one_taken r n g len v w =
      let (f, size, seq, off) = at_cursor r n g v in
      let w' : (r.slots (r.rcv_read_seq % 64)).was_read ≡ true =
        rw (cursor r.rcv_read_seq n v.read_seq) w in
      rw (read_one, size, f.used, seq, w') refl

  read_one_whole :
      (r : Rcv) (n g len : ℕ)
      → IsValid sent r n (suc g)
      → (r.slots (n % 64)).was_read ≡ false
      → length (r.slots (n % 64)).body ≤ r.rcv_read_off + len
      → read_one r len ≡ (dropped r, (drop r.rcv_read_off (r.slots (n % 64)).body, true))
  unfolding read_one
  read_one_whole r n g len v w le =
      let (f, size, seq, off) = at_cursor r n g v in
      let p = r.slots (r.rcv_read_seq % 64) in
      let c = cursor r.rcv_read_seq n v.read_seq in
      let w' : p.was_read ≡ false = rw c w in
      let bound = rw (← c) at le in
      let n' : min_c len (length p.body - r.rcv_read_off) ≡ length p.body - r.rcv_read_off =
        ground (arith, bound) in
      let done : leb (length p.body) (r.rcv_read_off + (length p.body - r.rcv_read_off)) ≡ true =
        ground arith in
      let all =
        take-all (length p.body - r.rcv_read_off) (drop r.rcv_read_off p.body)
          (omega (arith, length-drop r.rcv_read_off p.body)) in
      rw (read_one, size, f.used, seq, w', n', done, all)
        (ap (λ (t : ℕ). (dropped r, (drop r.rcv_read_off (r.slots t).body, true))) c)

  read_one_part :
      (r : Rcv) (n g len : ℕ)
      → IsValid sent r n (suc g)
      → (r.slots (n % 64)).was_read ≡ false
      → r.rcv_read_off + len < length (r.slots (n % 64)).body
      → read_one r len ≡ (
        record r { rcv_read_off = r.rcv_read_off + len },
        (take len (drop r.rcv_read_off (r.slots (n % 64)).body), false),
      )
  unfolding read_one
  read_one_part r n g len v w lt =
      let (f, size, seq, off) = at_cursor r n g v in
      let p = r.slots (r.rcv_read_seq % 64) in
      let c = cursor r.rcv_read_seq n v.read_seq in
      let w' : p.was_read ≡ false = rw c w in
      let bound = rw (← c) at lt in
      let n' : min_c len (length p.body - r.rcv_read_off) ≡ len = ground (arith, bound) in
      let more : leb (length p.body) (r.rcv_read_off + len) ≡ false = ground (arith, bound) in
      rw (read_one, size, f.used, seq, w', n', more)
        (ap
          (λ (t : ℕ). (
            record r { rcv_read_off = r.rcv_read_off + len },
            (take len (drop r.rcv_read_off (r.slots t).body), false),
          ))
          c)

  Reads-next :
      (r r2 : Rcv) (n g len : ℕ) (out rest : List ℕ)
      → IsValid sent r n (suc g)
      → unread r n (suc g) ≡ out ++ unread (dropped r) (n + 1) g
      → length out ≤ len
      → Reads (dropped r) r2 (n + 1) g (len - length out) rest
      → Reads r r2 n (suc g) len (out ++ rest)
  Reads-next r r2 n g len out rest v e le k =
      let at : n + 1 + k.m ≡ n + suc k.m = omega arith in
      let sizes = length-append out rest in
      record {
        m = suc k.m;
        left = k.left;
        split = omega (arith, k.split);
        valid = rw at at k.valid;
        recv_same = k.recv_same ∙ dropped_keeps r;
        text = append_assoc out rest _ ∙ ap (λ (t : List ℕ). out ++ t) (rw at at k.text) ∙ sym e;
        most = omega (arith, sizes, k.most, le);
        all = elim k.all [ inl q ↦ inl (omega (arith, sizes, q, le)) | inr q ↦ inr (rw at at q) ];
      }

  Reads-stop :
      (r : Rcv) (n g len : ℕ) → IsValid sent r n g → ((0 ≡ len) ⊎ (g ≡ 0)) → Reads r r n g len []
  unfolding unread
  Reads-stop r n g len v h =
      let at : n + 0 ≡ n = omega arith in
      record {
        m = 0;
        left = g;
        split = omega arith;
        valid = rw at v;
        recv_same = refl;
        text = rw at refl;
        most = omega arith;
        all = elim h [ inl e ↦ inl e | inr e ↦ inr (rw e refl) ];
      }

  -- A part of the frame at the cursor is copied.
  part-Reads :
      (r : Rcv) (n g len : ℕ)
      → IsValid sent r n (suc g)
      → (r.slots (n % 64)).was_read ≡ false
      → r.rcv_read_off + len < length (r.slots (n % 64)).body
      → Reads r
          (record r { rcv_read_off = r.rcv_read_off + len })
          n
          (suc g)
          len
          (take len (drop r.rcv_read_off (r.slots (n % 64)).body))
  unfolding unread
  part-Reads r n g len v w lt =
      let p = r.slots (n % 64) in
      let at : n + 0 ≡ n = omega arith in
      let size = length-take len (drop r.rcv_read_off p.body) in
      let size2 = length-drop r.rcv_read_off p.body in
      record {
        m = 0;
        left = suc g;
        split = omega arith;
        valid = rw at (record {
          gap_max = v.gap_max;
          read_seq = v.read_seq;
          recv_seq = v.recv_seq;
          off_start = λ z. absurd (omega (arith, z));
          off_max = λ pos. lt;
          delivered = v.delivered;
          ahead = v.ahead;
          live = v.live;
          ring = v.ring;
        });
        recv_same = refl;
        text =
            rw (at, w, ← drop-drop r.rcv_read_off len p.body)
              (sym (
                  append_assoc (take len (drop r.rcv_read_off p.body))
                    (drop len (drop r.rcv_read_off p.body)) (texts r.slots (n + 1) g))
                ∙ ap (λ (t : List ℕ). t ++ texts r.slots (n + 1) g)
                    (take-append-drop len (drop r.rcv_read_off p.body)));
        most = omega (arith, size, size2, lt);
        all = inl (omega (arith, size, size2, lt));
      }

  pub unread_taken :
      (r : Rcv) (n g : ℕ)
      → IsValid sent r n (suc g)
      → (r.slots (n % 64)).was_read ≡ true
      → unread r n (suc g) ≡ unread (dropped r) (n + 1) g
  unfolding unread
  unread_taken r n g v w = rw w (sym (dropped-unread r n g v.read_seq (omega (arith, v.gap_max))))

  unread_whole :
      (r : Rcv) (n g : ℕ)
      → IsValid sent r n (suc g)
      → (r.slots (n % 64)).was_read ≡ false
      → unread r n (suc g)
        ≡ drop r.rcv_read_off (r.slots (n % 64)).body ++ unread (dropped r) (n + 1) g
  unfolding unread
  unread_whole r n g v w = rw (w, dropped-unread r n g v.read_seq (omega (arith, v.gap_max))) refl

  goes_on_eq :
      (r : Rcv) (n g len : ℕ) → IsValid sent r n g → goes_on r (suc len) ≡ (r.rcv_ring && ltb 0 g)
  unfolding goes_on
  goes_on_eq r n g len v =
      rw (goes_on, v.read_seq, v.recv_seq, more_to_read n g v.gap_max) (ground arith)

  goes_on-true : (r : Rcv) (n g len : ℕ) → IsValid sent r n (suc g) → goes_on r (suc len) ≡ true
  goes_on-true r n g len v = elim v.ring [
    | inl e ↦ goes_on_eq r n (suc g) len v ∙ rw e (ground arith)
    | inr (z, _) ↦ absurd (omega (arith, z))
  ]

  -- With a round for each frame and one more, the loop copies as much as there is and fits.
  pub read_loop-Reads :
      (fuel : ℕ) (r : Rcv) (n g len : ℕ)
      → IsValid sent r n g
      → g < fuel
      → Reads r (read_loop fuel r len).0 n g len (read_loop fuel r len).1.0
  read_loop-Reads zero r n g len v h = absurd (omega arith)
  read_loop-Reads (suc fuel) r n g zero v h =
      rw (read_loop-zero (suc fuel) r) (Reads-stop r n g 0 v (inl refl))
  read_loop-Reads (suc fuel) r n zero (suc len) v h =
      let stop : goes_on r (suc len) ≡ false = goes_on_eq r n 0 len v ∙ ground arith in
      rw (read_loop-stop fuel r (suc len) stop) (Reads-stop r n 0 (suc len) v (inr refl))
  read_loop-Reads (suc fuel) r n (suc g) (suc len) v h =
      let on = goes_on-true r n g len v in
      let w = dropped-IsValid sent r n g v in
      let p = r.slots (n % 64) in
      elim (Bool-cases p.was_read) [
        | inl taken ↦
            (let one = read_one_taken r n g (suc len) v taken in
              let rest =
                read_loop-Reads fuel (dropped r) (n + 1) g (suc len - length {A = ℕ} []) w
                  (omega (arith, h)) in
              rw (read_loop-step fuel r (suc len) on, one)
                (Reads-next r _ n g (suc len) [] _ v (unread_taken r n g v taken) (omega arith)
                  rest))
        | inr kept ↦ elim (dec_lt (r.rcv_read_off + suc len) (length p.body)) [
          | yes part ↦
              (let one = read_one_part r n g (suc len) v kept part in
                let out = take (suc len) (drop r.rcv_read_off p.body) in
                let size : length out ≡ suc len = omega (
                  arith,
                  length-take (suc len) (drop r.rcv_read_off p.body),
                  length-drop r.rcv_read_off p.body,
                  part,
                ) in
                let none_left : suc len - length out ≡ 0 = omega (arith, size) in
                rw (read_loop-step fuel r (suc len) on, one, none_left, read_loop-zero, append-nil)
                  (part-Reads r n g (suc len) v kept part))
          | no whole ↦
              (let le : length p.body ≤ r.rcv_read_off + suc len = omega (arith, whole) in
                let one = read_one_whole r n g (suc len) v kept le in
                let out = drop r.rcv_read_off p.body in
                let rest =
                  read_loop-Reads fuel (dropped r) (n + 1) g (suc len - length out) w
                    (omega (arith, h)) in
                rw (read_loop-step fuel r (suc len) on, one)
                  (Reads-next r _ n g (suc len) out _ v (unread_whole r n g v kept)
                    (omega (arith, le, length-drop r.rcv_read_off p.body)) rest))
        ]
      ]

  -- In a well-formed ring with `g` frames to read, from number `n` on, the copying loop of ffrdp_recv
  -- gives the application the next bytes in their order, as many as it has room for or as
  -- there are, and leaves a well-formed ring that has the rest; it does not move the delivery point.
  pub copy-Reads :
      (r : Rcv) (n g len : ℕ) → IsValid sent r n g → Reads r (copy r len).0 n g len (copy r len).1.0
  unfolding copy
  copy-Reads r n g len v =
      read_loop-Reads (gap r + 1) r n g len v (omega (arith, v.read_seq, v.recv_seq, v.gap_max))
