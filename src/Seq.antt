-- ===== src/Seq.antt =====
-- ffrdp.c, seq_distance: the signed distance between two 24-bit frame numbers.
use ffrdp.Base.{ℕ, ◌+◌, ◌^◌, ◌<◌, ◌≡◌, arith, sub32, u24, if◌then◌else◌}
use ffrdp.Base.Int.{ℤ, pos, negsuc, ◌+ℤ◌, ◌-ℤ◌, leb_ℤ, signed32}

-- The difference of the two words is read as an `int`, and brought back by one turn if it is half
-- a turn or more.
unfoldable pub seq_distance : ℕ → ℕ → ℤ
seq_distance seq1 seq2 =
    let c = signed32 (sub32 seq1 seq2) in
    if leb_ℤ (pos 0x7FFFFF) c
    then c -ℤ pos 0x1000000
    else if leb_ℤ c (negsuc 0x7FFFFE)
    then c +ℤ pos 0x1000000
    else c

-- A frame `k` numbers after `a` is at distance `k`, and `a` is at distance `-k` from it, also where
-- the numbers wrap, as long as `k` is below 0x7FFFFF, which is half a turn less one.
pub seq_distance_ahead :
    (a k : ℕ)
    → a < 2 ^ 24
    → k < 0x7FFFFF
    → (seq_distance (u24 (a + k)) a ≡ pos k) × (pos 0 -ℤ pos k ≡ seq_distance a (u24 (a + k)))
unfolding seq_distance
seq_distance_ahead a k ha hk = (ground arith, ground arith)
