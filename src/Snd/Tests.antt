-- ===== src/Snd/Tests.antt =====
-- ffrdp.c, the send ring: runs, and the theorems at concrete inputs.
use ffrdp.Base.{ℕ, ◌≡◌, refl, arith, List, [], ◌∷◌, none, true, false}
use ffrdp.Base.{map, bit_xor, ap₂, some, ◌==◌, ◌||◌, if◌then◌else◌, ltb, ◌&&◌, ◌⊎◌, length}
use ffrdp.Base.Bits.{bit_xor_cancel}
use ffrdp.Slot.{empty_slot}
use ffrdp.Snd.{Snd, frame_message, fits, snd_next, snd_release, next_loop}
use mathlib.Core.Option.{none-ne-some}
use ffrdp.Snd.Frames.{IsValid, IsFilling, Framed}
use ffrdp.Snd.Next.{IsNext, snd_next-IsNext}
use ffrdp.Snd.Release.{IsHeaded, snd_release-IsValid}
use ffrdp.Snd.Framing.{frame_message-Framed}

-- A cipher that is its own inverse.
abbrev mask : ℕ → List ℕ → List ℕ
mask q p = map (λ b. bit_xor b 90) p

mask_round : (q : ℕ) (p : List ℕ) → mask q (mask q p) ≡ p
mask_round q [] = refl
mask_round q (b ∷ p) = ap₂ (λ (x : ℕ) (t : List ℕ). x ∷ t) (bit_xor_cancel b 90) (mask_round q p)

-- An empty ring with frames of 3 bytes, at the turn of the numbers.
abbrev empty_ring : Snd
empty_ring = record {
  slots = λ i. empty_slot;
  snd_first = 0xFFFFFFFF;
  send_seq = 0xFFFFFFFF;
  wait_snd = 0;
  snd_live = 0;
  tx_unsent = 0;
  cur_new_node = none;
  cur_new_size = 0;
  cur_new_tick = 0;
  smss = 3;
}

frame_message-Framed_example :
    let buf : List ℕ = 1 ∷ 2 ∷ 3 ∷ 4 ∷ 5 ∷ [] in
    let r = frame_message mask empty_ring buf 100 in
    let taken = ltb 0 (length buf) && fits empty_ring (length buf) in
    ((taken ≡ false) × (r ≡ (empty_ring, false)))
    ⊎ ((taken ≡ true) × (r.1 ≡ true) × Framed mask empty_ring r.0 buf)
unfolding IsFilling
frame_message-Framed_example =
    frame_message-Framed mask mask mask_round empty_ring (1 ∷ 2 ∷ 3 ∷ 4 ∷ 5 ∷ []) 100 (record {
      mss_pos = omega arith;
      seq_word = omega arith;
      first_word = omega arith;
      span_max = omega arith;
      fill = tt;
      free = λ k l h. refl;
    })

-- Two frames in the ring, the numbers of which are 2 ^ 24 and 2 ^ 24 + 1.
abbrev late_ring : Snd
late_ring = record empty_ring {
  slots = λ i. record empty_slot { used = i == 0 || i == 1; seq = if i == 1 then 1 else 0 };
  snd_first = 0x1000000;
  send_seq = 0x1000002;
  wait_snd = 2;
}

-- Past the last frame there is none, yet snd_next gives the first.
snd_next_again : snd_next 100 late_ring 1 ≡ some 0
unfolding snd_next next_loop
snd_next_again = refl

late_ring-IsValid : IsValid late_ring
unfolding IsFilling
late_ring-IsValid = record {
  mss_pos = omega arith;
  seq_word = omega arith;
  first_word = omega arith;
  span_max = omega arith;
  fill = tt;
  free = λ k l h. ground (arith, h);
}

snd_release-IsValid_example :
    let r = snd_release late_ring 0 in
    IsValid r
    × IsHeaded r
    × (r.send_seq ≡ 0x1000002)
    × ((r.slots 0).used ≡ false)
    × (r.slots 1 ≡ late_ring.slots 1)
snd_release-IsValid_example =
    snd_release-IsValid late_ring 0 1 late_ring-IsValid (λ e. none-ne-some 0 e)
      (λ e. absurd (omega (arith, e)))

-- The ring with the numbers 0 and 1.
abbrev early_ring : Snd
early_ring = record late_ring { snd_first = 0; send_seq = 2 }

snd_next-IsNext_example : IsNext early_ring 1 2 (snd_next 2 early_ring 0)
snd_next-IsNext_example = snd_next-IsNext 2 early_ring 0 (omega arith) (omega arith) (omega arith)

snd_next_second : snd_next 2 early_ring 0 ≡ some 1
unfolding snd_next next_loop
snd_next_second = refl
