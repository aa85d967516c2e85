-- ===== src/Crypto/Bytes.antt =====
-- ffcrypto.c, stream_xor against a description that takes one byte at a time.
use ffrdp.Base.{ℕ, zero, suc, ◌+◌, ◌*◌, ◌/◌, ◌≤◌, ◌<◌, List, [], ◌∷◌, ◌++◌, ◌≡◌, refl, arith}
use ffrdp.Base.{
  length, get_or, set, take, drop, length-take, length-drop, length-set, length-append,
}
use ffrdp.Base.{take-append-drop, bit_xor, ◌==◌, min, ap, ◌∙◌, sym, ◌≢◌}
use ffrdp.Base.{u32, ◌^◌, Bool-cases, inl, inr}
use ffrdp.Crypto.Block.{Quad, put_words, add_words, rounds, double_round, qr_at, chacha20_block}
use ffrdp.Crypto.Block.{chacha20_state, quarter_round, le32}
use ffrdp.Crypto.Stream.{
  Stream, stream_next_block, xor_bytes, xor_wide, stream_xor_loop, stream_xor, refill, run_length,
}
use ffrdp.Crypto.Wide.{IsBytes, IsBytes-take, IsBytes-drop, xor_wide-eq-xor_bytes}

-- The arrays have the sizes that their C types give them.
pub record IsReady (s : Stream) : Type 0 where
  pub key_size : length s.keyw ≡ 8
  pub ks_size : length s.ks ≡ 64
  pub ks_bytes : IsBytes s.ks
  pub pos_in : s.pos ≤ 64

put_words-IsBytes : (ws : List ℕ) → (length (put_words ws) ≡ 4 * length ws) × IsBytes (put_words ws)
unfolding put_words
put_words-IsBytes [] = (refl, tt)
put_words-IsBytes (w ∷ ws) =
    let ih = put_words-IsBytes ws in
    (omega (arith, ih.0), (omega arith, (omega arith, (omega arith, (omega arith, ih.1)))))

length-set4 :
    (x : List ℕ) (i j k l a b c d : ℕ) → length (set (set (set (set x i a) j b) k c) l d) ≡ length x
length-set4 x i j k l a b c d = simp length-set

length-qr_at : (i j k l : ℕ) (x : List ℕ) → length (qr_at i j k l x) ≡ length x
unfolding qr_at
length-qr_at i j k l x = length-set4 x i j k l q.a q.b q.c q.d
  where
    q : Quad
    q =
        quarter_round
          (record { a = get_or x i 0; b = get_or x j 0; c = get_or x k 0; d = get_or x l 0 })

length-double_round : (x : List ℕ) → length (double_round x) ≡ length x
unfolding double_round
length-double_round x = simp length-qr_at

length-rounds : (n : ℕ) (x : List ℕ) → length (rounds n x) ≡ length x
unfolding rounds
length-rounds zero x = refl
length-rounds (suc n) x = length-rounds n (double_round x) ∙ length-double_round x

length-add_words : (xs ys : List ℕ) → length (add_words xs ys) ≡ min (length xs) (length ys)
unfolding add_words
length-add_words [] ys = omega arith
length-add_words (x ∷ xs) [] = omega arith
length-add_words (x ∷ xs) (y ∷ ys) = omega (arith, length-add_words xs ys)

pub length-chacha20_block : (st : List ℕ) → length (chacha20_block st) ≡ length st
unfolding chacha20_block
length-chacha20_block st = omega (arith, length-add_words (rounds 10 st) st, length-rounds 10 st)

pub length-chacha20_state :
    (keyw nonce : List ℕ) (ctr : ℕ) → length keyw ≡ 8 → length (chacha20_state keyw nonce ctr) ≡ 16
unfolding chacha20_state
length-chacha20_state keyw nonce ctr h = omega (
  arith,
  length-append keyw (u32 ctr ∷ u32 (ctr / 2 ^ 32) ∷ le32 nonce ∷ le32 (drop 4 nonce) ∷ []),
)

pub stream_next_block-IsReady :
    {s : Stream} → IsReady s → IsReady (stream_next_block s) × ((stream_next_block s).pos ≡ 0)
unfolding stream_next_block
stream_next_block-IsReady {s} v =
    let st = chacha20_state s.keyw s.nonce s.ctr in
    let bytes = put_words-IsBytes (chacha20_block st) in
    (
      record {
        key_size = v.key_size;
        ks_size = omega (
          arith,
          bytes.0,
          length-chacha20_block st,
          length-chacha20_state s.keyw s.nonce s.ctr v.key_size,
        );
        ks_bytes = bytes.1;
        pos_in = omega arith;
      },
      refl,
    )

unfoldable pub xor_step : Stream → ℕ → Stream × ℕ
xor_step s x =
    let s1 = refill s in (record s1 { pos = s1.pos + 1 }, bit_xor x (get_or s1.ks s1.pos 0))

-- The keystream applied byte by byte.
unfoldable pub xor_run : Stream → List ℕ → Stream × List ℕ
xor_run s [] = (s, [])
xor_run s (x ∷ xs) = let r = xor_step s x in let q = xor_run r.0 xs in (q.0, r.1 ∷ q.1)

xor_run-nil : (s : Stream) → xor_run s [] ≡ (s, [])
unfolding xor_run
xor_run-nil s = refl

pub xor_run-append :
    (s : Stream) (p q : List ℕ)
    → xor_run s (p ++ q)
      ≡ ((xor_run (xor_run s p).0 q).0, (xor_run s p).1 ++ (xor_run (xor_run s p).0 q).1)
unfolding xor_run
xor_run-append s [] q = refl
xor_run-append s (x ∷ p) q =
    ap (λ (r : Stream × List ℕ). (r.0, (xor_step s x).1 ∷ r.1))
      (xor_run-append (xor_step s x).0 p q)

pub refill-IsReady : {s : Stream} → IsReady s → IsReady (refill s) × ((refill s).pos < 64)
unfolding refill
refill-IsReady {s} v = elim (Bool-cases (s.pos == 64)) [
  | inl e ↦ ground (arith, stream_next_block-IsReady v)
  | inr e ↦ ground arith
]

refill-id : (s : Stream) → s.pos < 64 → refill s ≡ s
unfolding refill
refill-id s h = ground arith

drop-get : (i : ℕ) (xs : List ℕ) → i < length xs → drop i xs ≡ get_or xs i 0 ∷ drop (i + 1) xs
drop-get i [] h = absurd (omega arith)
drop-get zero (x ∷ xs) h = refl
drop-get (suc i) (x ∷ xs) h = ground (arith, drop-get i xs (omega arith))

xor_bytes-take :
    (n : ℕ) (p ks : List ℕ) → xor_bytes (take n p) (take n ks) ≡ xor_bytes (take n p) ks
unfolding xor_bytes
xor_bytes-take zero p ks = refl
xor_bytes-take (suc n) [] ks = refl
xor_bytes-take (suc n) (x ∷ p) [] = refl
xor_bytes-take (suc n) (x ∷ p) (k ∷ ks) =
    ap (λ (t : List ℕ). bit_xor x k ∷ t) (xor_bytes-take n p ks)

-- Within a block the bytes meet the keystream in order.
xor_run-chunk :
    (s : Stream) (p : List ℕ)
    → length s.ks ≡ 64
    → s.pos + length p ≤ 64
    → xor_run s p ≡ (record s { pos = s.pos + length p }, xor_bytes p (drop s.pos s.ks))
unfolding xor_run xor_step xor_bytes
xor_run-chunk s [] e h = ground arith
xor_run-chunk s (x ∷ p) e h =
    rw
      (
        refill-id s (omega arith),
        xor_run-chunk (record s { pos = s.pos + 1 }) p e (omega arith),
        drop-get s.pos s.ks (omega arith),
      )
      (ground arith)

-- The bytes that a round takes are those that the byte by byte run takes.
stream_xor-round :
    (s : Stream) (p : List ℕ) (n : ℕ)
    → IsReady s
    → IsBytes p
    → n ≤ length p
    → s.pos + n ≤ 64
    → xor_run s (take n p)
      ≡ (record s { pos = s.pos + n }, xor_wide (n / 8) (take n p) (take n (drop s.pos s.ks)))
stream_xor-round s p n v b h k =
    let lp = length-take n p in
    let lk = length-take n (drop s.pos s.ks) in
    let ld = length-drop s.pos s.ks in
    let same : length (take n p) ≡ n = omega arith in
    rw (
      xor_run-chunk s (take n p) v.ks_size (omega (arith, same)),
      xor_wide-eq-xor_bytes (n / 8) (take n p) (take n (drop s.pos s.ks)) (omega (arith, same))
          (omega (arith, v.ks_size)) (IsBytes-take n p b)
          (IsBytes-take n (drop s.pos s.ks) (IsBytes-drop s.pos s.ks v.ks_bytes)),
      xor_bytes-take n p (drop s.pos s.ks),
      same,
    )

xor_run-refill : (s : Stream) (p : List ℕ) → IsReady s → p ≢ [] → xor_run (refill s) p ≡ xor_run s p
unfolding xor_run xor_step
xor_run-refill s [] v ne = absurd (ne refl)
xor_run-refill s (x ∷ p) v ne = rw (refill-id (refill s) (refill-IsReady v).1)

-- Applying the keystream in blocks, eight bytes at a time, is applying it byte by byte.
pub stream_xor_loop-eq-xor_run :
    (fuel : ℕ) (s : Stream) (p : List ℕ)
    → length p ≤ fuel
    → IsReady s
    → IsBytes p
    → stream_xor_loop fuel s p ≡ xor_run s p
unfolding stream_xor_loop
stream_xor_loop-eq-xor_run zero s [] h v b = sym (xor_run-nil s)
stream_xor_loop-eq-xor_run zero s (x ∷ xs) h v b = absurd (omega arith)
stream_xor_loop-eq-xor_run (suc fuel) s [] h v b = sym (xor_run-nil s)
stream_xor_loop-eq-xor_run (suc fuel) s (x ∷ xs) h v b =
    let p : List ℕ = x ∷ xs in
    let s1 = refill s in
    let v1 = refill-IsReady v in
    let n = run_length s1 p in
    let hn : (n ≤ length p) × (s1.pos + n ≤ 64) × (0 < n) = unfold run_length in ground arith in
    let round = stream_xor-round s1 p n v1.0 b hn.0 hn.1 in
    let ih =
      stream_xor_loop-eq-xor_run fuel (record s1 { pos = s1.pos + n }) (drop n p)
        (omega (arith, length-drop n p))
        (record {
          key_size = v1.0.key_size;
          ks_size = v1.0.ks_size;
          ks_bytes = v1.0.ks_bytes;
          pos_in = hn.1;
        })
        (IsBytes-drop n p b) in
    rw ih (
      sym (
        sym (xor_run-refill s p v (λ e. cc))
        ∙ ap (xor_run s1) (sym (take-append-drop n p))
        ∙ xor_run-append s1 (take n p) (drop n p)
        ∙ ap
            (λ (r : Stream × List ℕ).
              ((xor_run r.0 (drop n p)).0, r.1 ++ (xor_run r.0 (drop n p)).1))
            round))

-- stream_xor, whose 64-byte blocks and 8-byte words depend on where the calls cut the text, gives
-- on a stream whose arrays have their sizes the state and the bytes of a run byte by byte.
pub stream_xor-eq-xor_run :
    (s : Stream) (p : List ℕ) → IsReady s → IsBytes p → stream_xor s p ≡ xor_run s p
unfolding stream_xor
stream_xor-eq-xor_run s p v b = stream_xor_loop-eq-xor_run (length p) s p (omega arith) v b
