-- ===== src/Snd/Next.antt =====
-- ffrdp.c, snd_next: the next frame of the send ring in the order of the numbers.
use ffrdp.Base.{ℕ, zero, suc, ◌+◌, ◌-◌, ◌%◌, ◌^◌, ◌≤◌, ◌<◌, ◌≡◌, refl, arith, inl, inr}
use ffrdp.Base.{
  ℕ_discrete, dec_lt, Option, none, some, true, false, add32, sub32, slt32, Bool-cases,
}
use ffrdp.Snd.{Snd, next_loop, snd_next}

-- `o` is the first frame with a number from `seq` on, if there is one before `limit`.
unfoldable pub IsNext : Snd → ℕ → ℕ → Option ℕ → Type 0
IsNext c seq limit none = (q : ℕ) → seq ≤ q → q < limit → (c.slots (q % 64)).used ≡ false
IsNext c seq limit (some i) =
    (q : ℕ) × (seq ≤ q)
    × (q < limit)
    × (i ≡ q % 64)
    × ((c.slots (q % 64)).used ≡ true)
    × ((p : ℕ) → seq ≤ p → p < q → (c.slots (p % 64)).used ≡ false)

IsNext-skip :
    (c : Snd) (seq limit : ℕ) (o : Option ℕ)
    → (c.slots (seq % 64)).used ≡ false
    → IsNext c (seq + 1) limit o
    → IsNext c seq limit o
unfolding IsNext
IsNext-skip c seq limit none u h =
    λ q le lt. elim (ℕ_discrete q seq) [ yes e ↦ rw e u | no ne ↦ h q (omega (arith, ne)) lt ]
IsNext-skip c seq limit (some i) u (q, a, b, e, w, h) = (
  q,
  omega arith,
  b,
  e,
  w,
  λ p le lt. elim (ℕ_discrete p seq) [ yes e ↦ rw e u | no ne ↦ h p (omega (arith, ne)) lt ],
)

next_loop-IsNext :
    (fuel : ℕ) (c : Snd) (seq : ℕ)
    → c.send_seq < 2 ^ 31
    → seq ≤ c.send_seq
    → c.send_seq - seq < fuel
    → IsNext c seq c.send_seq (next_loop fuel c seq)
unfolding next_loop IsNext
next_loop-IsNext zero c seq h le lt = absurd (omega arith)
next_loop-IsNext (suc fuel) c seq h le lt = elim (dec_lt seq c.send_seq) [
  | no ge ↦
      (let stop : slt32 (sub32 seq c.send_seq) 0 ≡ false = ground (arith, ge) in
        rw stop (λ q a b. absurd (omega (arith, a, b, ge))))
  | yes go ↦
      (let more : slt32 (sub32 seq c.send_seq) 0 ≡ true = ground (arith, go) in
        let next : add32 seq 1 ≡ seq + 1 = omega (arith, go) in
        elim (Bool-cases (c.slots (seq % 64)).used) [
          | inl u ↦
              rw (more, u) (seq, omega arith, go, refl, u, λ p a b. absurd (omega (arith, a, b)))
          | inr u ↦
              (let ih =
                  next_loop-IsNext fuel c (seq + 1) h (omega (arith, go)) (omega (arith, go)) in
                rw (more, u, next) (IsNext-skip c seq c.send_seq (next_loop fuel c (seq + 1)) u ih))
        ])
]

-- While fewer than 2 ^ 24 frames have been made, snd_next of a slot with a number below `send_seq`
-- gives the slot of the first frame in use after it, and none only where no frame in use follows.
-- As many rounds as there are numbers up to `send_seq` are enough.
pub snd_next-IsNext :
    (fuel : ℕ) (c : Snd) (i : ℕ)
    → c.send_seq < 2 ^ 24
    → (c.slots i).seq < c.send_seq
    → c.send_seq - (c.slots i).seq ≤ fuel
    → IsNext c ((c.slots i).seq + 1) c.send_seq (snd_next fuel c i)
unfolding snd_next
snd_next-IsNext fuel c i h lt enough =
    let next : add32 (c.slots i).seq 1 ≡ (c.slots i).seq + 1 = omega arith in
    rw next
      (next_loop-IsNext fuel c ((c.slots i).seq + 1) (omega arith) (omega arith) (omega arith))
