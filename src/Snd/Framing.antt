-- ===== src/Snd/Framing.antt =====
-- ffrdp.c, ffrdp_frame_message: a message that passes the gate is framed whole, behind what the
-- ring holds.
use native.Mathlib.Nat.{lt-div-mul-add, suc-mul, add_comm}
use ffrdp.Base.{ℕ, zero, suc, ◌+◌, ◌-◌, ◌*◌, ◌/◌, ◌%◌, ◌≤◌, ◌<◌, ◌≡◌, refl, arith, ◌∙◌}
use ffrdp.Base.{List, [], ◌∷◌, some, length, take, drop, true, false}
use ffrdp.Base.{
  ◌&&◌, ◌⊎◌, lt→ltb, leb→le, Bool-cases, Option-cases, inl, inr, ltb→lt, length-drop,
  take-append-drop, length-take, ltb, if◌then◌else◌, min_c,
}
use ffrdp.Snd.{
  Snd, filling, room_of, open_slot, write_chunk, fits, frame_message, frame_loop, snd_insert,
}
use ffrdp.Snd.Frames.{span, IsFilling, IsValid, Framed, Framed-eq, Framed-refl, Framed-trans}
use ffrdp.Snd.Fill.{
  closed, grown, open_slot_same, write_chunk-closed, write_chunk-grown, open_slot-Framed,
  closed-Framed, grown-Framed,
}

-- The slots that a message of `n` bytes may still open.
Fits : Snd → ℕ → ℕ → Type 0
Fits c n k = (n ≤ room_of c + k * c.smss) × (span c + filling c.cur_new_node + k ≤ 64)

module _ (decrypt encrypt : ℕ → List ℕ → List ℕ)
    (round : (q : ℕ) (p : List ℕ) → decrypt q (encrypt q p) ≡ p) where
  closed-Fits :
      (c : Snd) (i n k : ℕ) (chunk : List ℕ)
      → IsValid c
      → c.cur_new_node ≡ some i
      → Fits c n k
      → Fits (closed encrypt c i chunk) (n - (c.smss - c.cur_new_size)) k
  unfolding closed snd_insert room_of Fits
  closed-Fits c i n k chunk v e h =
      let h' = rw e at h in (omega (arith, h'.0), omega (arith, h'.1, v.seq_word, v.first_word))

  grown-Fits :
      (c : Snd) (i n k : ℕ) (chunk : List ℕ) (now : ℕ)
      → c.cur_new_node ≡ some i
      → Fits c n k
      → Fits (grown c i chunk now) 0 k
  unfolding grown Fits
  grown-Fits c i n k chunk now e h = (omega arith, h.1)

  count_pos : (k s n : ℕ) → 0 < n → n ≤ 0 + k * s → (0 < k) × (k * s ≡ s + (k - 1) * s)
  count_pos zero s n pos h = absurd (omega arith)
  count_pos (suc k) s n pos h =
      let less : suc k - 1 ≡ k = omega arith in
      (omega arith, rw less (suc-mul k s ∙ add_comm (k * s) s))

  opened-Fits :
      (c c1 : Snd) (i n k : ℕ)
      → c1.cur_new_node ≡ some i
      → c1.cur_new_size ≡ 0
      → span c1 ≡ span c
      → c1.smss ≡ c.smss
      → 0 < k
      → n ≤ c.smss + (k - 1) * c.smss
      → span c + k ≤ 64
      → Fits c1 n (k - 1)
  unfolding Fits room_of
  opened-Fits c c1 i n k e z w m pos h le = rw (e, z, w, m) (omega arith, omega arith)

  -- There is a slot to fill, opened if need be.
  opens :
      (c : Snd) (k n : ℕ)
      → IsValid c
      → Fits c n k
      → 0 < n
      → (c1 : Snd) × (i : ℕ) × (k1 : ℕ) × (open_slot c ≡ some c1)
        × (c1.cur_new_node ≡ some i)
        × Framed decrypt c c1 []
        × Fits c1 n k1
  unfolding Fits room_of
  opens c k n v h pos = elim (Option-cases c.cur_new_node) [
    | inr (i, e) ↦ (c, i, k, open_slot_same c i e, e, Framed-refl decrypt c v, h)
    | inl e ↦
        (let h' = rw e at h in
          let p = count_pos k c.smss n pos h'.0 in
          let (c1, o, e1, z, w, f) = open_slot-Framed decrypt c v e (omega (arith, h'.1, p.0)) in
          (
            c1,
            c.send_seq % 64,
            k - 1,
            o,
            e1,
            f,
            opened-Fits c c1 (c.send_seq % 64) n k e1 z w f.mss p.0 (omega (arith, h'.0, p.1))
                (omega (arith, h'.1)),
          ))
  ]

  -- One round of the loop, in the slot being filled.
  round-Framed :
      (c : Snd) (i k : ℕ) (buf : List ℕ) (now : ℕ)
      → IsValid c
      → c.cur_new_node ≡ some i
      → 0 < length buf
      → Fits c (length buf) k
      → let d = min_c (length buf) (c.smss - c.cur_new_size) in
        let c' = write_chunk encrypt c i (take d buf) now in
        Framed decrypt c c' (take d buf) × (0 < d) × Fits c' (length buf - d) k
  unfolding IsFilling
  round-Framed c i k buf now v e pos h =
      let f = rw e at v.fill in
      let n = length buf in
      let room = c.smss - c.cur_new_size in
      elim (Bool-cases (ltb n room)) [
        | inl less ↦
            (let lt = ltb→lt n room less in
              let len = length-take n buf in
              rw (less, write_chunk-grown encrypt c i (take n buf) now (omega (arith, lt, len)))
                (
                  grown-Framed decrypt encrypt round c i (take n buf) now v e
                      (omega (arith, lt, len)),
                  pos,
                  rw (omega-zero n) (grown-Fits c i n k (take n buf) now e h),
                ))
        | inr more ↦
            (let le : room ≤ n = ground (arith, more) in
              let len = length-take room buf in
              rw
                (
                  more,
                  write_chunk-closed encrypt c i (take room buf) now (omega (arith, f.2, le, len)),
                )
                (
                  closed-Framed decrypt encrypt round c i (take room buf) v e
                      (omega (arith, f.2, le, len)),
                  omega (arith, f.2),
                  closed-Fits c i n k (take room buf) v e h,
                ))
      ]
    where
      omega-zero : (n : ℕ) → n - n ≡ 0
      omega-zero n = omega arith

  -- The loop frames all of `buf`, where the slots are enough and the fuel is.
  frame_loop-Framed :
      (fuel : ℕ) (c : Snd) (k : ℕ) (buf : List ℕ) (now : ℕ)
      → IsValid c
      → Fits c (length buf) k
      → length buf < fuel
      → let r = frame_loop encrypt fuel c buf now in (r.1 ≡ true) × Framed decrypt c r.0 buf
  unfolding frame_loop
  frame_loop-Framed zero c k buf now v h lt = absurd (omega arith)
  frame_loop-Framed (suc fuel) c k [] now v h lt = (refl, Framed-refl decrypt c v)
  frame_loop-Framed (suc fuel) c k (x ∷ xs) now v h lt =
      let (c1, i, k1, o, e, f, h1) = opens c k (length (x ∷ xs)) v h (omega arith) in
      let r = round-Framed c1 i k1 (x ∷ xs) now f.valid e (omega arith) h1 in
      let d = min_c (length (x ∷ xs)) (c1.smss - c1.cur_new_size) in
      let rest = drop d (x ∷ xs) in
      let len = length-drop d (x ∷ xs) in
      let ih =
        frame_loop-Framed fuel (write_chunk encrypt c1 i (take d (x ∷ xs)) now) k1 rest now
          r.0.valid (rw len r.2) (omega (arith, len, r.1)) in
      rw (frame_loop, o, e)
        (
          ih.0,
          Framed-eq decrypt (take-append-drop d (x ∷ xs))
              (Framed-trans decrypt v f (Framed-trans decrypt f.valid r.0 ih.1)),
        )

  -- The gate lets the slots be enough.
  fits-Fits : (c : Snd) (n : ℕ) → 0 < c.smss → fits c n ≡ true → (k : ℕ) × Fits c n k
  unfolding fits Fits
  fits-Fits c n pos h =
      let room = room_of c in
      let a = n - room + c.smss - 1 in
      let need = if ltb room n then a / c.smss else 0 in
      (need, (ground (arith, h, lt-div-mul-add {a = a} pos), omega (arith, leb→le _ _ h)))

  -- In a well-formed ring, with a cipher that `decrypt` undoes, a message is taken whole or not at
  -- all. Where it is empty or the gate counts too few slots, the call fails and changes nothing.
  -- Otherwise it succeeds: the ring is well formed again, the frames that it held stand where
  -- they stood, and the new frames, decrypted, followed by the bytes that wait for the next one
  -- are the bytes that waited before and the message.
  pub frame_message-Framed :
      (c : Snd) (buf : List ℕ) (now : ℕ)
      → IsValid c
      → let r = frame_message encrypt c buf now in
        let taken = ltb 0 (length buf) && fits c (length buf) in
        ((taken ≡ false) × (r ≡ (c, false)))
        ⊎ ((taken ≡ true) × (r.1 ≡ true) × Framed decrypt c r.0 buf)
  unfolding frame_message
  frame_message-Framed c [] now v = inl (refl, refl)
  frame_message-Framed c (x ∷ xs) now v =
      let buf : List ℕ = x ∷ xs in
      let some_bytes : ltb 0 (length buf) ≡ true = lt→ltb 0 (length buf) (omega arith) in
      elim (Bool-cases (fits c (length buf))) [
        | inl enough ↦
            (let (k, h) = fits-Fits c (length buf) v.mss_pos enough in
              let r = frame_loop-Framed (length buf + 1) c k buf now v h (omega arith) in
              inr (rw (some_bytes, enough) refl, rw enough r.0, rw enough r.1))
        | inr few ↦ inl (rw (some_bytes, few) refl, rw few refl)
      ]
