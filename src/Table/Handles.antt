-- ===== src/Table/Handles.antt =====
-- ffrdp.c, the connection table: what a handle finds.
use ffrdp.Base.{ℕ, ◌+◌, ◌*◌, ◌%◌, ◌<◌, ◌≡◌, ◌≢◌, refl, arith, sym, ap, ◌∙◌, ◌⊎◌, inl, inr}
use ffrdp.Base.{true, false, not, ◌&&◌, none, some, Option-cases, Bool-cases, ℕ_discrete}
use ffrdp.Base.{ltb, leb, ◌==◌, if◌then◌else◌}
use ffrdp.Base.Int.{pos}
use mathlib.Core.Option.{none-ne-some, some-injective}
use ffrdp.Conn.{Conn}
use ffrdp.Table.{Table, new_conn, conn_new, conn_free, conn_lookup, is_empty, new_table}
use ffrdp.Table.Slots.{
  added, conn_new-cases, new_conn-handle, found_lem, lookup_lem, added_slot, none_of_empty,
  new_conn-peer_addr,
}

-- The handle cannot be given out again, and no connection has it.
pub record IsStale (t : Table) (h : ℕ) : Type 0 where
  pub past : h < t.gen (h % 16) * 16 + h % 16
  pub gone : (c : Conn) → t.table (h % 16) ≡ some c → c.handle ≢ h

added-IsStale :
    (t : Table) (i addr now h : ℕ)
    → i < 16
    → t.gen i < 0x08000000
    → IsStale t h
    → IsStale (added t i addr now) h
added-IsStale t i addr now h small left st = elim (ℕ_discrete (h % 16) i) [
  | no ne ↦
      (let other : (h % 16 == i) ≡ false = ground (arith, ne) in
        record { past = rw other st.past; gone = λ c e. st.gone c (rw (← e, other) refl) })
  | yes at ↦
      (let here : (h % 16 == i) ≡ true = ground (arith, at) in
        let bound : h < t.gen i * 16 + i = rw (← at) st.past in
        record {
          past = rw (here, at) (omega (arith, bound));
          gone = λ c e same.
              (let new : some (new_conn t i addr now) ≡ some c = rw (← e, here) refl in
                let number : c.handle ≡ t.gen i * 16 + i =
                  ap (λ (x : Conn). x.handle) (sym (some-injective (new_conn t i addr now) c new))
                  ∙ new_conn-handle t i addr now small left in
                absurd (omega (arith, number, same, bound)));
        })
]

conn_new-IsStale : (t : Table) (addr now h : ℕ) → IsStale t h → IsStale (conn_new t addr now).0 h
conn_new-IsStale t addr now h st = elim (conn_new-cases t addr now) [
  | inl e ↦ rw e st
  | inr (i, e, small, _, _, left) ↦ rw e (added-IsStale t i addr now h small left st)
]

conn_free-IsStale : (t : Table) (i h : ℕ) → IsStale t h → IsStale (conn_free t i) h
unfolding conn_free
conn_free-IsStale t i h st =
    let found = ltb i t.nconn && (ltb i 16 && not (is_empty (t.table i))) in
    elim (Bool-cases found) [
      | inr e ↦ rw (conn_free, e) st
      | inl e ↦ elim (ℕ_discrete (h % 16) i) [
        | no ne ↦
            (let other : (h % 16 == i) ≡ false = ground (arith, ne) in
              rw (conn_free, e)
                (record { past = st.past; gone = λ c f. st.gone c (rw (← f, other) refl) }))
        | yes at ↦
            (let here : (h % 16 == i) ≡ true = ground (arith, at) in
              rw (conn_free, e)
                (record {
                  past = st.past;
                  gone = λ c f. absurd (none-ne-some c (rw (← f, here) refl));
                }))
      ]
    ]

-- The tables that come after a table: connections are made and freed.
pub data Later (t : Table) : Table → Type 0 where
  same : Later t t
  made : {t' : Table} (addr now : ℕ) → Later t t' → Later t (conn_new t' addr now).0
  freed : {t' : Table} (i : ℕ) → Later t t' → Later t (conn_free t' i)

Later-IsStale : {t t' : Table} (h : ℕ) → Later t t' → IsStale t h → IsStale t' h
Later-IsStale h same st = st
Later-IsStale h (made {t'} addr now l) st = conn_new-IsStale t' addr now h (Later-IsStale h l st)
Later-IsStale h (freed {t'} i l) st = conn_free-IsStale t' i h (Later-IsStale h l st)

stale_lookup : (t : Table) (h : ℕ) → IsStale t h → conn_lookup t (pos h) ≡ none
unfolding conn_lookup
stale_lookup t h st = elim (Option-cases (t.table (h % 16))) [
  | inl e ↦ rw (conn_lookup, e) refl
  | inr (c, e) ↦
      (let gone : (c.handle == h) ≡ false = ground (arith, st.gone c e) in
        elim (Bool-cases (leb t.maxconn (h % 16))) [
          | inl f ↦ rw (conn_lookup, e, f) refl
          | inr f ↦ rw (conn_lookup, e, f, gone) refl
        ])
]

-- A connection that ffrdp_conn_new made has a handle that its slot has given out, and `nconn` is past
-- its slot.
pub record IsValid (t : Table) : Type 0 where
  pub given : (i : ℕ) (c : Conn) → 0 < i → t.table i ≡ some c → c.handle < t.gen i * 16 + i
  pub counted : (i : ℕ) (c : Conn) → 0 < i → t.table i ≡ some c → i < t.nconn

freed-IsStale :
    (t : Table) (h : ℕ) (c : Conn)
    → IsValid t
    → 0 < h % 16
    → conn_lookup t (pos h) ≡ some c
    → IsStale (conn_free t (h % 16)) h
unfolding conn_free
freed-IsStale t h c v above e =
    let (at, number, _) = found_lem t h c e in
    let counted = v.counted (h % 16) c above at in
    let given = v.given (h % 16) c above at in
    let full : is_empty (t.table (h % 16)) ≡ false = rw at refl in
    let found : (ltb (h % 16) t.nconn && (ltb (h % 16) 16 && not (is_empty (t.table (h % 16)))))
        ≡ true =
      ground (arith, counted, full) in
    let here : (h % 16 == h % 16) ≡ true = ground arith in
    rw (conn_free, found)
      (record {
        past = omega (arith, given, number);
        gone = λ d f. absurd (none-ne-some d (rw (← f, here) refl));
      })

new_table-IsValid : (maxconn smss : ℕ) (main : Conn) → IsValid (new_table maxconn smss main)
unfolding new_table
new_table-IsValid maxconn smss main =
    let empty : (i : ℕ) → 0 < i → (i == 0) ≡ false = λ i h. ground (arith, h) in
    record {
      given = λ i c h e. absurd (none-ne-some c (rw (← e, empty i h) refl));
      counted = λ i c h e. absurd (none-ne-some c (rw (← e, empty i h) refl));
    }

added-IsValid :
    (t : Table) (i addr now : ℕ)
    → i < 16
    → t.gen i < 0x08000000
    → IsValid t
    → IsValid (added t i addr now)
added-IsValid t i addr now small left v = record {
  given = λ j c above e. elim (added_slot t i addr now j c e) [
    | inl (at, new) ↦
        (let here : (j == i) ≡ true = ground (arith, at) in
          let number = new_conn-handle t i addr now small left in
          rw (here, new, number) (omega (arith, at)))
    | inr (ne, old) ↦
        (let other : (j == i) ≡ false = ground (arith, ne) in rw other (v.given j c above old))
  ];
  counted = λ j c above e. elim (added_slot t i addr now j c e) [
    | inl (at, new) ↦ ground (arith, at)
    | inr (ne, old) ↦ ground (arith, v.counted j c above old)
  ];
}

conn_free-IsValid : (t : Table) (i : ℕ) → IsValid t → IsValid (conn_free t i)
unfolding conn_free
conn_free-IsValid t i v =
    let found = ltb i t.nconn && (ltb i 16 && not (is_empty (t.table i))) in
    let kept : (j : ℕ) (c : Conn)
        → (if j == i then none else t.table j) ≡ some c
        → t.table j ≡ some c =
      λ j c e. elim (Bool-cases (j == i)) [
        | inl f ↦ absurd (none-ne-some c (rw (← e, f) refl))
        | inr f ↦ rw (← e, f) refl
      ] in
    elim (Bool-cases found) [
      | inr e ↦ rw (conn_free, e) v
      | inl e ↦
          rw (conn_free, e)
            (record {
              given = λ j c above f. v.given j c above (kept j c f);
              counted = λ j c above f. v.counted j c above (kept j c f);
            })
    ]

Later-IsValid : {t t' : Table} → Later t t' → IsValid t → IsValid t'
Later-IsValid same v = v
Later-IsValid (made {t'} addr now l) v = elim (conn_new-cases t' addr now) [
  | inl e ↦ rw e (Later-IsValid l v)
  | inr (i, e, small, _, _, left) ↦
      rw e (added-IsValid t' i addr now small left (Later-IsValid l v))
]
Later-IsValid (freed {t'} i l) v = conn_free-IsValid t' i (Later-IsValid l v)

-- In a table that connections were made in and freed from, the handle of a connection that
-- ffrdp_conn_new made (so not the one in slot 0) finds nothing once the connection has been freed,
-- whatever connections are made and freed after that.
pub stale_handle_gone :
    (maxconn smss : ℕ) (main : Conn) (t t' : Table) (h : ℕ) (c : Conn)
    → Later (new_table maxconn smss main) t
    → conn_lookup t (pos h) ≡ some c
    → 0 < h % 16
    → Later (conn_free t (h % 16)) t'
    → conn_lookup t' (pos h) ≡ none
stale_handle_gone maxconn smss main t t' h c before found above after =
    let v = Later-IsValid before (new_table-IsValid maxconn smss main) in
    stale_lookup t' h (Later-IsStale h after (freed-IsStale t h c v above found))

added-new :
    (t : Table) (i addr now : ℕ)
    → i < 16
    → i < t.maxconn
    → t.gen i < 0x08000000
    → conn_lookup (added t i addr now) (pos (new_conn t i addr now).handle)
      ≡ some (new_conn t i addr now)
added-new t i addr now small used left =
    let number = new_conn-handle t i addr now small left in
    let at : (new_conn t i addr now).handle % 16 ≡ i = omega (arith, number) in
    let here : (i == i) ≡ true = ground arith in
    lookup_lem (added t i addr now) (new_conn t i addr now).handle (new_conn t i addr now)
      (rw (at, here) refl) refl (rw at used)

added-old :
    (t : Table) (i addr now h : ℕ) (d : Conn)
    → is_empty (t.table i) ≡ true
    → conn_lookup t (pos h) ≡ some d
    → conn_lookup (added t i addr now) (pos h) ≡ some d
added-old t i addr now h d empty e =
    let (at, number, used) = found_lem t h d e in
    let other : (h % 16 == i) ≡ false = elim (ℕ_discrete (h % 16) i) [
      | no ne ↦ ground (arith, ne)
      | yes sits ↦ absurd (none-ne-some d (rw (← at, sits) (sym (none_of_empty (t.table i) empty))))
    ] in
    lookup_lem (added t i addr now) h d (rw other at) number used

-- ffrdp_conn_new gives NULL and leaves the table, or it makes a connection with the address, in
-- a slot that was empty. The new connection's handle finds it, and every handle that found a
-- connection before finds the same one now.
pub conn_new_lem :
    (t : Table) (addr now : ℕ)
    → (conn_new t addr now ≡ (t, none))
      ⊎ ((i : ℕ) × (c : Conn) × ((conn_new t addr now).1 ≡ some i)
          × (t.table i ≡ none)
          × (c.peer_addr ≡ addr)
          × (conn_lookup (conn_new t addr now).0 (pos c.handle) ≡ some c)
          × ((h : ℕ) (d : Conn)
              → conn_lookup t (pos h) ≡ some d
              → conn_lookup (conn_new t addr now).0 (pos h) ≡ some d))
conn_new_lem t addr now = elim (conn_new-cases t addr now) [
  | inl e ↦ inl e
  | inr (i, e, small, used, empty, left) ↦ inr (
    i,
    new_conn t i addr now,
    rw e refl,
    none_of_empty (t.table i) empty,
    new_conn-peer_addr t i addr now,
    rw e (added-new t i addr now small used left),
    λ h d f. rw e (added-old t i addr now h d empty f),
  )
]
