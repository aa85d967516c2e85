-- ===== src/Table.antt =====
-- ffrdp.c, the connection table: ffrdp_conn_new, ffrdp_conn_free, ffrdp_conn_lookup and
-- ffrdp_conn_by_addr. A connection is named by its slot, as each slot has a block of its own.
pub mod Slots
pub mod Handles
mod Tests
use ffrdp.Base.{ℕ, zero, suc, ◌+◌, ◌-◌, ◌%◌, Bool, true, false, not, ◌&&◌, ◌||◌, Option, none, some}
use ffrdp.Base.{ltb, leb, ◌==◌, if◌then◌else◌, add32, mul32}
use ffrdp.Base.Int.{ℤ, pos, negsuc}
use ffrdp.Conn.{Conn, conn_init}

-- The fields of FFRDPCONTEXT that the table is made of, and the frame size of the main connection.
pub record Table : Type 0 where
  pub table : ℕ → Option Conn
  pub gen : ℕ → ℕ
  pub nconn : ℕ
  pub live_conn : ℕ
  pub maxconn : ℕ
  pub smss : ℕ

-- FFRDP_MAXCONN
abbrev pub maxconn_limit : ℕ
maxconn_limit = 16

abbrev pub is_empty : Option Conn → Bool
is_empty none = true
is_empty (some c) = false

-- The first empty slot from `i` on, with `fuel` slots left to look at.
unfoldable pub free_from : ℕ → ℕ → Table → Option ℕ
free_from zero i t = none
free_from (suc fuel) i t =
    let rest = free_from fuel (i + 1) t in
    if ltb i t.maxconn && ltb i maxconn_limit
    then (if is_empty (t.table i) then some i else rest)
    else none

-- The handle of the next connection in a slot.
abbrev pub handle_of : ℕ → ℕ → ℕ
handle_of gen slot = add32 (mul32 gen maxconn_limit) slot

-- The block that ffrdp_conn_new makes for slot `i`.
unfoldable pub new_conn : Table → ℕ → ℕ → ℕ → Conn
new_conn t i addr now = record (conn_init now t.smss) {
  peer_addr = addr;
  connected = true;
  handle = handle_of (t.gen i) i;
}

-- ffrdp_conn_new: the table, and the slot of the new connection, `none` for NULL.
unfoldable pub conn_new : Table → ℕ → ℕ → Table × Option ℕ
conn_new t addr now = elim (free_from 15 1 t) [
  | none ↦ (t, none)
  | some i ↦
      (if leb 0x08000000 (t.gen i) then (t, none) else (
        record t {
          table = λ j. if j == i then some (new_conn t i addr now) else t.table j;
          gen = λ j. if j == i then add32 (t.gen i) 1 else t.gen j;
          nconn = if ltb t.nconn (i + 1) then i + 1 else t.nconn;
          live_conn = add32 t.live_conn 1;
        },
        some i,
      ))
]

-- ffrdp_conn_free, of the connection in slot `i`.
unfoldable pub conn_free : Table → ℕ → Table
conn_free t i =
    let found = ltb i t.nconn && (ltb i maxconn_limit && not (is_empty (t.table i))) in
    if found
    then record t {
      table = λ j. if j == i then none else t.table j;
      live_conn = if t.live_conn == 0 then 0 else t.live_conn - 1;
    }
    else t

-- ffrdp_conn_lookup: a connection by its handle.
unfoldable pub conn_lookup : Table → ℤ → Option Conn
conn_lookup t (negsuc n) = none
conn_lookup t (pos handle) =
    let slot = handle % maxconn_limit in
    elim (t.table slot) [
      | none ↦ none
      | some c ↦ if leb t.maxconn slot || not (c.handle == handle) then none else some c
    ]

-- ffrdp_conn_by_addr, from slot `i` on with `fuel` slots left to look at.
unfoldable pub by_addr_from : ℕ → ℕ → Table → ℕ → Option ℕ
by_addr_from zero i t addr = none
by_addr_from (suc fuel) i t addr =
    let rest = by_addr_from fuel (i + 1) t addr in
    let here : Bool = elim (t.table i) [ none ↦ false | some c ↦ c.peer_addr == addr ] in
    if ltb i t.nconn then (if here then some i else rest) else none

unfoldable pub conn_by_addr : Table → ℕ → Option ℕ
conn_by_addr t addr = if addr == 0 then none else by_addr_from maxconn_limit 0 t addr

-- The table as ffrdp_init leaves it: slot 0 holds the main connection.
unfoldable pub new_table : ℕ → ℕ → Conn → Table
new_table maxconn smss main = record {
  table = λ i. if i == 0 then some main else none;
  gen = λ i. 0;
  nconn = 1;
  live_conn = 1;
  maxconn = maxconn;
  smss = smss;
}
