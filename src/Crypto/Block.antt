-- ===== src/Crypto/Block.antt =====
-- ffcrypto.c, the cipher: ROTL32, QR, le32, put32, chacha20_block and chacha20_state.
-- A word is a number below 2 ^ 32, an array of 16 words a list.
use ffrdp.Base.{ℕ, zero, suc, ◌-◌, ◌*◌, ◌/◌, ◌^◌, List, [], ◌∷◌, ◌++◌, bit_or, bit_xor}
use ffrdp.Base.{u8, u32, add32, get_or, set, drop}

-- `ROTL32(v, n)`: `(v << n) | (v >> (32 - n))` on 32 bits.
unfoldable pub rotl32 : ℕ → ℕ → ℕ
rotl32 v n = bit_or (u32 (v * 2 ^ n)) (v / 2 ^ (32 - n))

pub record Quad : Type 0 where
  pub a : ℕ
  pub b : ℕ
  pub c : ℕ
  pub d : ℕ

-- One half of `QR`: two of its four lines, with their rotations.
unfoldable pub qr_half : ℕ → ℕ → Quad → Quad
unfolding rotl32
qr_half r1 r2 q =
    let a = add32 q.a q.b in
    let d = rotl32 (bit_xor q.d a) r1 in
    let c = add32 q.c d in
    let b = rotl32 (bit_xor q.b c) r2 in record { a = a; b = b; c = c; d = d }

unfoldable pub quarter_round : Quad → Quad
unfolding qr_half
quarter_round q = qr_half 8 7 (qr_half 16 12 q)

-- `QR(x[i], x[j], x[k], x[l])` in the array.
unfoldable pub qr_at : ℕ → ℕ → ℕ → ℕ → List ℕ → List ℕ
qr_at i j k l x =
    let q =
      quarter_round
        (record { a = get_or x i 0; b = get_or x j 0; c = get_or x k 0; d = get_or x l 0 }) in
    set (set (set (set x i q.a) j q.b) k q.c) l q.d

unfoldable pub double_round : List ℕ → List ℕ
double_round x =
    let col = qr_at 3 7 11 15 (qr_at 2 6 10 14 (qr_at 1 5 9 13 (qr_at 0 4 8 12 x))) in
    qr_at 3 4 9 14 (qr_at 2 7 8 13 (qr_at 1 6 11 12 (qr_at 0 5 10 15 col)))

unfoldable pub rounds : ℕ → List ℕ → List ℕ
rounds zero x = x
rounds (suc n) x = rounds n (double_round x)

-- `out[i] = x[i] + in[i]`
unfoldable pub add_words : List ℕ → List ℕ → List ℕ
add_words [] ys = []
add_words (x ∷ xs) [] = []
add_words (x ∷ xs) (y ∷ ys) = add32 x y ∷ add_words xs ys

unfoldable pub chacha20_block : List ℕ → List ℕ
chacha20_block st = add_words (rounds 10 st) st

-- `le32(p)`, on the list that begins at `p`.
unfoldable pub le32 : List ℕ → ℕ
le32 p =
    bit_or (bit_or (bit_or (get_or p 0 0) (get_or p 1 0 * 2 ^ 8)) (get_or p 2 0 * 2 ^ 16))
      (get_or p 3 0 * 2 ^ 24)

-- `put32(p, v)`: the four bytes that it writes.
unfoldable pub put32 : ℕ → List ℕ
put32 v = u8 v ∷ u8 (v / 2 ^ 8) ∷ u8 (v / 2 ^ 16) ∷ u8 (v / 2 ^ 24) ∷ []

unfoldable pub put_words : List ℕ → List ℕ
unfolding put32
put_words [] = []
put_words (w ∷ ws) = put32 w ++ put_words ws

unfoldable pub chacha20_state : List ℕ → List ℕ → ℕ → List ℕ
unfolding le32
chacha20_state keyw nonce ctr =
    0x61707865
    ∷ 0x3320646e
    ∷ 0x79622d32
    ∷ 0x6b206574
    ∷ (keyw ++ u32 ctr ∷ u32 (ctr / 2 ^ 32) ∷ le32 nonce ∷ le32 (drop 4 nonce) ∷ [])
