-- ===== src/Crypto/Stream.antt =====
-- ffcrypto.c, the keystream of one direction: FFC_STREAM, stream_arm, stream_next_block and
-- stream_xor. The little-endian 64-bit loads and stores of stream_xor are written out.
use ffrdp.Base.{ℕ, zero, suc, ◌+◌, ◌-◌, ◌*◌, ◌/◌, ◌%◌, ◌^◌, List, [], ◌∷◌, ◌++◌, Bool, true}
use ffrdp.Base.{u8, bit_xor, length, take, drop, ◌==◌, if◌then◌else◌, min_c}
use ffrdp.Crypto.Block.{chacha20_state, chacha20_block, put_words}

-- FFC_PH_NEW, FFC_PH_SALT and FFC_PH_DATA.
pub data Phase : Type 0 where
  fresh salt body : Phase

pub record Stream : Type 0 where
  pub keyw : List ℕ
  pub nonce : List ℕ
  pub ks : List ℕ
  pub ctr : ℕ
  pub pos : ℕ
  pub live : Bool
  pub phase : Phase
  pub seeded : Bool
  pub left : ℕ
  pub hpos : ℕ
  pub hsalt : List ℕ

unfoldable pub stream_arm : Stream → Stream
stream_arm s = record s { ctr = 0; pos = 64; live = true }

unfoldable pub stream_next_block : Stream → Stream
stream_next_block s = record s {
  ks = put_words (chacha20_block (chacha20_state s.keyw s.nonce s.ctr));
  ctr = (s.ctr + 1) % 2 ^ 64;
  pos = 0;
}

-- `while (n > 0) { *p++ ^= s->ks[s->pos++]; … }`: the bytes one by one.
unfoldable pub xor_bytes : List ℕ → List ℕ → List ℕ
xor_bytes [] ks = []
xor_bytes (x ∷ xs) [] = []
xor_bytes (x ∷ xs) (k ∷ ks) = bit_xor x k ∷ xor_bytes xs ks

-- `memcpy(&a, p, 8)` and `memcpy(p, &a, 8)`, lowest byte first.
unfoldable pub load_le : List ℕ → ℕ
load_le [] = 0
load_le (b ∷ bs) = b + 256 * load_le bs

unfoldable pub store_le : ℕ → ℕ → List ℕ
store_le zero v = []
store_le (suc n) v = u8 v ∷ store_le n (v / 256)

-- `while (n >= 8)`: eight bytes at a time through a 64-bit word. The loop makes n / 8 rounds; the
-- byte loop takes the rest.
unfoldable pub xor_wide : ℕ → List ℕ → List ℕ → List ℕ
unfolding load_le store_le
xor_wide zero p ks = xor_bytes p ks
xor_wide (suc w) p ks =
    store_le 8 (bit_xor (load_le (take 8 p)) (load_le (take 8 ks)))
    ++ xor_wide w (drop 8 p) (drop 8 ks)

-- `if (s->pos == 64) stream_next_block(s);`
unfoldable pub refill : Stream → Stream
refill s = if s.pos == 64 then stream_next_block s else s

-- `n = 64 - s->pos; if (n > len) n = len;`
unfoldable pub run_length : Stream → List ℕ → ℕ
run_length s p = min_c (64 - s.pos) (length p)

-- The `while (len > 0)` of stream_xor, with a bound on its rounds. A round makes a new block if the
-- last one is used up, and takes the bytes that are left of it or of the input.
unfoldable pub stream_xor_loop : ℕ → Stream → List ℕ → Stream × List ℕ
stream_xor_loop zero s p = (s, [])
stream_xor_loop (suc fuel) s [] = (s, [])
stream_xor_loop (suc fuel) s (x ∷ xs) =
    let p : List ℕ = x ∷ xs in
    let s1 = refill s in
    let n = run_length s1 p in
    let out = xor_wide (n / 8) (take n p) (take n (drop s1.pos s1.ks)) in
    let rest = stream_xor_loop fuel (record s1 { pos = s1.pos + n }) (drop n p) in
    (rest.0, out ++ rest.1)

-- A round takes a byte at least, so as many rounds as bytes are enough.
unfoldable pub stream_xor : Stream → List ℕ → Stream × List ℕ
stream_xor s p = stream_xor_loop (length p) s p
