-- ===== src/Table/Slots.antt =====
-- ffrdp.c, the connection table: the slot that a new connection takes, and the slot of a handle.
use ffrdp.Base.{ℕ, zero, suc, ◌+◌, ◌*◌, ◌%◌, ◌<◌, ◌≡◌, ◌≢◌, refl, arith, sym, ◌⊎◌, inl, inr}
use ffrdp.Base.{
  true, false, not, ◌&&◌, ◌||◌, Option, none, some, Option-cases, Bool-cases, ℕ_discrete,
}
use ffrdp.Base.{ltb, leb, ◌==◌, if◌then◌else◌, add32}
use ffrdp.Base.Int.{pos}
use mathlib.Core.Bool.{false≢true}
use mathlib.Core.Option.{none-ne-some, some-injective}
use ffrdp.Conn.{Conn}
use ffrdp.Table.{Table, free_from, new_conn, conn_new, conn_lookup, is_empty}

-- The slot that the search gives is empty and in the table.
pub free_from-empty :
    (fuel i : ℕ) (t : Table) (s : ℕ)
    → free_from fuel i t ≡ some s
    → (s < 16) × (s < t.maxconn) × (is_empty (t.table s) ≡ true)
unfolding free_from
free_from-empty zero i t s h = absurd (none-ne-some s h)
free_from-empty (suc fuel) i t s h = elim (Bool-cases (ltb i t.maxconn && ltb i 16)) [
  | inr e ↦ absurd (none-ne-some s (rw (← h, free_from, e) refl))
  | inl e ↦ elim (Bool-cases (is_empty (t.table i))) [
    | inr f ↦
        (let below : free_from fuel (i + 1) t ≡ some s = rw (← h, free_from, e, f) refl in
          free_from-empty fuel (i + 1) t s below)
    | inl f ↦
        (let same : some i ≡ some s = rw (← h, free_from, e, f) refl in
          let at : i ≡ s = some-injective i s same in
          rw (← at) (ground (arith, e), ground (arith, e), f))
  ]
]

-- The table with the new connection in slot `i`.
abbrev pub added : Table → ℕ → ℕ → ℕ → Table
added t i addr now = record t {
  table = λ j. if j == i then some (new_conn t i addr now) else t.table j;
  gen = λ j. if j == i then add32 (t.gen i) 1 else t.gen j;
  nconn = if ltb t.nconn (i + 1) then i + 1 else t.nconn;
  live_conn = add32 t.live_conn 1;
}

-- ffrdp_conn_new refuses, or takes an empty slot whose handles have not run out.
pub conn_new-cases :
    (t : Table) (addr now : ℕ)
    → (conn_new t addr now ≡ (t, none))
      ⊎ ((i : ℕ) × (conn_new t addr now ≡ (added t i addr now, some i))
          × (i < 16)
          × (i < t.maxconn)
          × (is_empty (t.table i) ≡ true)
          × (t.gen i < 0x08000000))
unfolding conn_new
conn_new-cases t addr now = elim (Option-cases (free_from 15 1 t)) [
  | inl e ↦ inl (rw (conn_new, e) refl)
  | inr (i, e) ↦ elim (Bool-cases (leb 0x08000000 (t.gen i))) [
    | inl f ↦ inl (rw (conn_new, e, f) refl)
    | inr f ↦
        (let (small, used, empty) = free_from-empty 15 1 t i e in
          inr (i, rw (conn_new, e, f) refl, small, used, empty, ground (arith, f)))
  ]
]

pub new_conn-handle :
    (t : Table) (i addr now : ℕ)
    → i < 16
    → t.gen i < 0x08000000
    → (new_conn t i addr now).handle ≡ t.gen i * 16 + i
unfolding new_conn
new_conn-handle t i addr now small left = omega arith

pub found_lem :
    (t : Table) (h : ℕ) (c : Conn)
    → conn_lookup t (pos h) ≡ some c
    → (t.table (h % 16) ≡ some c) × (c.handle ≡ h) × (h % 16 < t.maxconn)
unfolding conn_lookup
found_lem t h c e = elim (Option-cases (t.table (h % 16))) [
  | inl f ↦ absurd (none-ne-some c (rw (← e, conn_lookup, f) refl))
  | inr (d, f) ↦ elim (Bool-cases (leb t.maxconn (h % 16) || not (d.handle == h))) [
    | inl g ↦ absurd (none-ne-some c (rw (← e, conn_lookup, f, g) refl))
    | inr g ↦
        (let it : some d ≡ some c = rw (← e, conn_lookup, f, g) refl in
          let dc : d ≡ c = some-injective d c it in
          (rw (f, dc) refl, rw (← dc) (ground (arith, g)), ground (arith, g)))
  ]
]

pub lookup_lem :
    (t : Table) (h : ℕ) (c : Conn)
    → t.table (h % 16) ≡ some c
    → c.handle ≡ h
    → h % 16 < t.maxconn
    → conn_lookup t (pos h) ≡ some c
unfolding conn_lookup
lookup_lem t h c e number small =
    let ok : (leb t.maxconn (h % 16) || not (c.handle == h)) ≡ false =
      ground (arith, number, small) in
    rw (conn_lookup, e, ok) refl

pub added_slot :
    (t : Table) (i addr now j : ℕ) (c : Conn)
    → (added t i addr now).table j ≡ some c
    → ((j ≡ i) × (c ≡ new_conn t i addr now)) ⊎ ((j ≢ i) × (t.table j ≡ some c))
added_slot t i addr now j c e = elim (ℕ_discrete j i) [
  | yes at ↦
      (let here : (j == i) ≡ true = ground (arith, at) in
        let it : some (new_conn t i addr now) ≡ some c = rw (← e, here) refl in
        inl (at, sym (some-injective (new_conn t i addr now) c it)))
  | no ne ↦ (let other : (j == i) ≡ false = ground (arith, ne) in inr (ne, rw (← e, other) refl))
]

pub none_of_empty : (o : Option Conn) → is_empty o ≡ true → o ≡ none
none_of_empty none e = refl
none_of_empty (some c) e = absurd (false≢true e)

pub new_conn-peer_addr : (t : Table) (i addr now : ℕ) → (new_conn t i addr now).peer_addr ≡ addr
unfolding new_conn
new_conn-peer_addr t i addr now = refl
