-- ===== src/Rcv/Ring.antt =====
-- ffrdp.c, the receive ring: when it is well formed, and the count of its used slots.
use ffrdp.Base.{ℕ, zero, suc, ◌+◌, ◌%◌, ◌≤◌, ◌<◌, ◌≡◌, refl, arith, ◌⊎◌}
use ffrdp.Base.{List, [], ◌++◌, length, drop, Bool, true, false}
use ffrdp.Base.{u24, ◌==◌, if◌then◌else◌, ℕ_discrete}
use ffrdp.Slot.{Slot}
use ffrdp.Rcv.{Rcv}

abbrev pub bit : Bool → ℕ
bit true = 1
bit false = 0

-- How many of the slots below `n` are in use.
unfoldable pub used_count : (ℕ → Slot) → ℕ → ℕ
used_count f zero = 0
used_count f (suc n) = bit (f n).used + used_count f n

abbrev pub with_slot : (ℕ → Slot) → ℕ → Slot → ℕ → Slot
with_slot f i p = λ j. if j == i then p else f j

count_above :
    (f : ℕ → Slot) (i n : ℕ) (p : Slot) → n ≤ i → used_count (with_slot f i p) n ≡ used_count f n
unfolding used_count
count_above f i zero p h = refl
count_above f i (suc n) p h =
    let other : (n == i) ≡ false = ground (arith, h) in
    rw (other, count_above f i n p (omega arith)) refl

-- Writing a slot changes the count by what the slot was and is.
pub used_count_lem :
    (f : ℕ → Slot) (i n : ℕ) (p : Slot)
    → i < n
    → used_count (with_slot f i p) n + bit (f i).used ≡ used_count f n + bit p.used
unfolding used_count
used_count_lem f i zero p h = absurd (omega arith)
used_count_lem f i (suc n) p h = elim (ℕ_discrete n i) [
  | yes e ↦
      (let here : (n == i) ≡ true = ground (arith, e) in
        rw (here, e, count_above f i i p (omega arith)) (omega arith))
  | no ne ↦
      (let other : (n == i) ≡ false = ground (arith, ne) in
        rw other (omega (arith, used_count_lem f i n p (omega (arith, h, ne)))))
]

pub used_count_pos : (f : ℕ → Slot) (i n : ℕ) → i < n → (f i).used ≡ true → 0 < used_count f n
unfolding used_count
used_count_pos f i zero h u = absurd (omega arith)
used_count_pos f i (suc n) h u = elim (ℕ_discrete n i) [
  | yes e ↦ rw (e, u) (omega arith)
  | no ne ↦ omega (arith, used_count_pos f i n (omega (arith, h, ne)) u)
]

-- A slot that holds the frame with number `a`, not empty, and as long as its size says.
pub record IsFrame (p : Slot) (a : ℕ) : Type 0 where
  pub used : p.used ≡ true
  pub seq : p.seq ≡ u24 a
  pub kind : p.kind ≤ 1
  pub size : p.size ≡ 4 + length p.body
  pub body_pos : 0 < length p.body

module _ (sent : ℕ → List ℕ) where
  -- A slot past the delivery point that is in use holds the frame with its number, as sent.
  unfoldable pub IsAhead : Slot → ℕ → Type 0
  IsAhead p a = p.used ≡ true → IsFrame p a × (p.body ≡ sent a) × (p.was_read ≡ false)

  -- The next frame to read has number `n`, and `g` frames from there on have been delivered.
  pub record IsValid (r : Rcv) (n g : ℕ) : Type 0 where
    pub gap_max : g ≤ 64
    pub read_seq : r.rcv_read_seq ≡ u24 n
    pub recv_seq : r.recv_seq ≡ u24 (n + g)
    pub off_start : g ≡ 0 → r.rcv_read_off ≡ 0
    pub off_max : 0 < g → r.rcv_read_off < length (r.slots (n % 64)).body
    pub delivered : (k : ℕ) → k < g → IsFrame (r.slots ((n + k) % 64)) (n + k)
    pub ahead : (k : ℕ) → g ≤ k → k < 64 → IsAhead (r.slots ((n + k) % 64)) (n + k)
    pub live : r.rcv_live ≡ used_count r.slots 64
    pub ring : (r.rcv_ring ≡ true) ⊎ ((g ≡ 0) × (r.rcv_live ≡ 0))

-- The bytes of a delivered frame that the application has not taken in its callback.
unfoldable pub untaken : Slot → List ℕ
untaken p = if p.was_read then [] else p.body

unfoldable pub texts : (ℕ → Slot) → ℕ → ℕ → List ℕ
texts f n zero = []
texts f n (suc g) = untaken (f (n % 64)) ++ texts f (n + 1) g

-- What the application has still to read.
unfoldable pub unread : Rcv → ℕ → ℕ → List ℕ
unread r n zero = []
unread r n (suc g) =
    (if (r.slots (n % 64)).was_read then [] else drop r.rcv_read_off (r.slots (n % 64)).body)
    ++ texts r.slots (n + 1) g
