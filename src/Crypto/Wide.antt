-- ===== src/Crypto/Wide.antt =====
-- ffcrypto.c, stream_xor: the 64-bit fast path gives the bytes of the byte loop.
use native.Mathlib.Nat.{pow-suc}
use ffrdp.Base.{ℕ, zero, suc, ◌+◌, ◌*◌, ◌/◌, ◌^◌, ◌≤◌, ◌<◌, List, [], ◌∷◌, ◌++◌, ◌≡◌, refl}
use ffrdp.Base.{arith, length, take, drop, length-take, length-drop, bit_xor, ap, ap₂, ◌∙◌}
use ffrdp.Base.Bits.{bit_xor_step, bit_xor-lt}
use ffrdp.Crypto.Stream.{xor_bytes, load_le, store_le, xor_wide}

-- Every element is a byte.
abbrev pub IsBytes : List ℕ → Type 0
IsBytes [] = Unit
IsBytes (b ∷ bs) = (b < 256) × IsBytes bs

pub IsBytes-take : (n : ℕ) (p : List ℕ) → IsBytes p → IsBytes (take n p)
IsBytes-take zero p h = tt
IsBytes-take (suc n) [] h = tt
IsBytes-take (suc n) (x ∷ p) h = (h.0, IsBytes-take n p h.1)

pub IsBytes-drop : (n : ℕ) (p : List ℕ) → IsBytes p → IsBytes (drop n p)
IsBytes-drop zero p h = h
IsBytes-drop (suc n) [] h = tt
IsBytes-drop (suc n) (x ∷ p) h = IsBytes-drop n p h.1

pub IsBytes-append : (p q : List ℕ) → IsBytes p → IsBytes q → IsBytes (p ++ q)
IsBytes-append [] q hp hq = hq
IsBytes-append (x ∷ p) q hp hq = (hp.0, IsBytes-append p q hp.1 hq)

-- The low bits and the rest do not mix.
bit_xor_split :
    (k a r b s : ℕ)
    → a < 2 ^ k
    → b < 2 ^ k
    → bit_xor (a + 2 ^ k * r) (b + 2 ^ k * s) ≡ bit_xor a b + 2 ^ k * bit_xor r s
bit_xor_split zero zero r zero s p q = ground arith
bit_xor_split zero zero r (suc b) s p q = absurd (omega arith)
bit_xor_split zero (suc a) r b s p q = absurd (omega arith)
bit_xor_split (suc k) a r b s p q = ground (
  arith,
  pow-suc 2 k,
  ap (λ (t : ℕ). t * r) (pow-suc 2 k),
  ap (λ (t : ℕ). t * s) (pow-suc 2 k),
  ap (λ (t : ℕ). t * bit_xor r s) (pow-suc 2 k),
  bit_xor_step (a + 2 ^ suc k * r) (b + 2 ^ suc k * s),
  bit_xor_step a b,
  bit_xor_split k (a / 2) r (b / 2) s,
)

store-xor-load :
    (xs ks : List ℕ) (n : ℕ)
    → length xs ≡ n
    → length ks ≡ n
    → IsBytes xs
    → IsBytes ks
    → store_le n (bit_xor (load_le xs) (load_le ks)) ≡ xor_bytes xs ks
unfolding xor_bytes load_le store_le
store-xor-load [] [] zero e f h g = refl
store-xor-load [] [] (suc n) e f h g = absurd (omega arith)
store-xor-load [] (k ∷ ks) zero e f h g = absurd (omega arith)
store-xor-load [] (k ∷ ks) (suc n) e f h g = absurd (omega arith)
store-xor-load (x ∷ xs) [] zero e f h g = absurd (omega arith)
store-xor-load (x ∷ xs) [] (suc n) e f h g = absurd (omega arith)
store-xor-load (x ∷ xs) (k ∷ ks) zero e f h g = absurd (omega arith)
store-xor-load (x ∷ xs) (k ∷ ks) (suc n) e f h g =
    let low : bit_xor x k < 256 = bit_xor-lt 8 x k h.0 g.0 in
    let split = bit_xor_split 8 x (load_le xs) k (load_le ks) h.0 g.0 in
    let tail = store-xor-load xs ks n (omega arith) (omega arith) h.1 g.1 in
    ap₂ ◌∷◌ (omega arith) (ap (store_le n) (omega arith) ∙ tail)

pub xor_bytes-split :
    (n : ℕ) (p ks : List ℕ)
    → length p ≡ length ks
    → xor_bytes (take n p) (take n ks) ++ xor_bytes (drop n p) (drop n ks) ≡ xor_bytes p ks
unfolding xor_bytes
xor_bytes-split zero p ks e = refl
xor_bytes-split (suc n) [] [] e = refl
xor_bytes-split (suc n) [] (k ∷ ks) e = refl
xor_bytes-split (suc n) (x ∷ p) [] e = absurd (omega arith)
xor_bytes-split (suc n) (x ∷ p) (k ∷ ks) e =
    ap (λ (t : List ℕ). bit_xor x k ∷ t) (xor_bytes-split n p ks (omega arith))

-- `w` rounds of the fast path and then the byte loop are the byte loop.
pub xor_wide-eq-xor_bytes :
    (w : ℕ) (p ks : List ℕ)
    → w * 8 ≤ length p
    → length p ≡ length ks
    → IsBytes p
    → IsBytes ks
    → xor_wide w p ks ≡ xor_bytes p ks
unfolding xor_wide
xor_wide-eq-xor_bytes zero p ks h e hp hk = refl
xor_wide-eq-xor_bytes (suc w) p ks h e hp hk =
    ap₂ ◌++◌
      (store-xor-load (take 8 p) (take 8 ks) 8 (omega (arith, length-take 8 p))
        (omega (arith, length-take 8 ks)) (IsBytes-take 8 p hp) (IsBytes-take 8 ks hk))
      (xor_wide-eq-xor_bytes w (drop 8 p) (drop 8 ks) (omega (arith, length-drop 8 p))
        (omega (arith, length-drop 8 p, length-drop 8 ks)) (IsBytes-drop 8 p hp)
        (IsBytes-drop 8 ks hk))
    ∙ xor_bytes-split 8 p ks e
