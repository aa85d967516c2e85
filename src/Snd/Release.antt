-- ===== src/Snd/Release.antt =====
-- ffrdp.c, snd_advance and snd_release: giving a slot back keeps the send ring well formed.
use ffrdp.Base.{ℕ, zero, suc, ◌+◌, ◌-◌, ◌%◌, ◌≤◌, ◌<◌, ◌≡◌, ◌≢◌, refl, arith, ◌⊎◌, inl, inr}
use ffrdp.Base.{
  Option, none, some, Bool, true, false, not, ◌&&◌, add32, sub32, slt32, Bool-cases, ◌==◌,
  if◌then◌else◌, dec_lt,
}
use ffrdp.Snd.{Snd, snd_slot, put_slot, advance_loop, snd_advance, snd_release}
use ffrdp.Snd.Frames.{span, IsFilling, IsValid}

-- Moving the head over a slot that is not in use.
advanced : Snd → Snd
advanced c = record c { snd_first = add32 c.snd_first 1 }

-- The head is a frame, or the ring is empty.
pub IsHeaded : Snd → Type 0
IsHeaded c = (c.snd_first ≡ c.send_seq) ⊎ ((c.slots (c.snd_first % 64)).used ≡ true)

IsFilling-narrow :
    (o : Option ℕ) (c c' : Snd)
    → span c' ≤ span c
    → c'.send_seq ≡ c.send_seq
    → c'.cur_new_size ≡ c.cur_new_size
    → c'.smss ≡ c.smss
    → ((i : ℕ) → o ≡ some i → c'.slots i ≡ c.slots i)
    → IsFilling o c
    → IsFilling o c'
unfolding IsFilling
IsFilling-narrow none c c' le q z m s f = tt
IsFilling-narrow (some i) c c' le q z m s f =
    rw (q, z, m, s i refl) (f.0, omega (arith, f.1, le), f.2, f.3)

-- The test of the loop.
may_advance : Snd → Bool
may_advance c = slt32 (sub32 c.snd_first c.send_seq) 0 && not (snd_slot c c.snd_first).used

may_advance-true :
    (c : Snd)
    → IsValid c
    → may_advance c ≡ true
    → (0 < span c) × ((c.slots (c.snd_first % 64)).used ≡ false)
unfolding may_advance
may_advance-true c v h = ground (arith, h, v.seq_word, v.first_word)

may_advance-false : (c : Snd) → IsValid c → may_advance c ≡ false → IsHeaded c
unfolding may_advance IsHeaded
may_advance-false c v h = ground (arith, h, v.seq_word, v.first_word, v.span_max)

advanced-IsValid :
    (c : Snd)
    → IsValid c
    → 0 < span c
    → (c.slots (c.snd_first % 64)).used ≡ false
    → IsValid (advanced c)
unfolding advanced
advanced-IsValid c v pos u =
    let less : span c ≡ suc (sub32 c.send_seq (add32 c.snd_first 1)) =
      omega (arith, pos, v.seq_word, v.first_word, v.span_max) in
    record {
      mss_pos = v.mss_pos;
      seq_word = v.seq_word;
      first_word = omega arith;
      span_max = omega (arith, less, v.span_max);
      fill =
          IsFilling-narrow c.cur_new_node c (advanced c) (omega (arith, less)) refl refl refl
            (λ i e. refl) v.fill;
      free = λ k l h. elim (dec_lt (span c + k) 64) [
        | yes lt ↦ v.free k l lt
        | no ge ↦
            (let at : (c.send_seq + k) % 64 ≡ c.snd_first % 64 =
                omega (arith, less, h, ge, v.seq_word, v.first_word) in
              rw at u)
      ];
    }

advance_loop_lem :
    (fuel : ℕ) (c : Snd)
    → IsValid c
    → span c ≤ fuel
    → let r = advance_loop fuel c in
      IsValid r × IsHeaded r × (r.slots ≡ c.slots) × (r.send_seq ≡ c.send_seq)
unfolding advance_loop may_advance advanced IsHeaded
advance_loop_lem zero c v le = (v, inl (omega (arith, v.seq_word, v.first_word)), refl, refl)
advance_loop_lem (suc fuel) c v le = elim (Bool-cases (may_advance c)) [
  | inl more ↦
      (let m = may_advance-true c v more in
        let w = advanced-IsValid c v m.0 m.1 in
        rw more
          (advance_loop_lem fuel (advanced c) w (omega (arith, m.0, v.seq_word, v.first_word))))
  | inr done ↦ rw done (v, may_advance-false c v done, refl, refl)
]

-- snd_release up to its call of snd_advance.
released : Snd → ℕ → Snd
released c i = record (put_slot c i (record (c.slots i) { used = false; fill = false })) {
  wait_snd = if c.wait_snd == 0 then 0 else c.wait_snd - 1;
  snd_live = if c.snd_live == 0 then 0 else c.snd_live - 1;
}

released_other : (c : Snd) (i j : ℕ) → j ≢ i → (released c i).slots j ≡ c.slots j
unfolding released
released_other c i j ne = ground (arith, ne)

released-IsValid : (c : Snd) (i : ℕ) → IsValid c → c.cur_new_node ≢ some i → IsValid (released c i)
unfolding released
released-IsValid c i v ne = record {
  mss_pos = v.mss_pos;
  seq_word = v.seq_word;
  first_word = v.first_word;
  span_max = v.span_max;
  fill =
      IsFilling-narrow c.cur_new_node c (released c i) (omega arith) refl refl refl
        (λ j e. released_other c i j (λ (q : j ≡ i). ne (rw (← q) e))) v.fill;
  free = λ k l h. ground (arith, v.free k l h);
}

-- In a well-formed ring, snd_release of a slot that is not being filled leaves the ring well formed,
-- the slot free and any other slot as it was, does not touch the number of the next frame, and
-- leaves at the head a frame, unless the ring is empty.
pub snd_release-IsValid :
    (c : Snd) (i j : ℕ)
    → IsValid c
    → c.cur_new_node ≢ some i
    → j ≢ i
    → let r = snd_release c i in
      IsValid r
      × IsHeaded r
      × (r.send_seq ≡ c.send_seq)
      × ((r.slots i).used ≡ false)
      × (r.slots j ≡ c.slots j)
unfolding snd_release snd_advance released
snd_release-IsValid c i j v ne other =
    let c1 = released c i in
    let (w, h, s, q) = advance_loop_lem (span c1) c1 (released-IsValid c i v ne) (omega arith) in
    (w, h, q, rw s (ground arith), rw s (released_other c i j other))
