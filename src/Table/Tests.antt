-- ===== src/Table/Tests.antt =====
-- ffrdp.c, the connection table: the theorems at a concrete input.
use ffrdp.Base.{ℕ, ◌≡◌, refl, arith, none, some, ◌⊎◌}
use ffrdp.Base.Int.{pos}
use ffrdp.Conn.{Conn, conn_init}
use ffrdp.Table.{Table, new_table, conn_new, conn_free, conn_lookup, free_from, new_conn}
use ffrdp.Table.Handles.{Later, stale_handle_gone, conn_new_lem}

abbrev server : Table
server = new_table 4 1200 (conn_init 0 1200)

-- A peer is taken into slot 1; its handle is 1.
abbrev joined : Table
joined = (conn_new server 77 10).0

joined_finds : conn_lookup joined (pos 1) ≡ some (new_conn server 1 77 10)
unfolding conn_lookup conn_new free_from new_conn new_table conn_init
joined_finds = refl

-- Its connection is freed, and another peer gets slot 1.
abbrev reused : Table
reused = (conn_new (conn_free joined 1) 78 20).0

reused_finds : conn_lookup reused (pos 17) ≡ some (new_conn (conn_free joined 1) 1 78 20)
unfolding conn_lookup conn_new conn_free free_from new_conn new_table conn_init
reused_finds = refl

stale_handle_gone_example : conn_lookup reused (pos 1) ≡ none
stale_handle_gone_example =
    stale_handle_gone 4 1200 (conn_init 0 1200) joined reused 1 (new_conn server 1 77 10)
      (Later.made 77 10 Later.same) joined_finds (omega arith) (Later.made 78 20 Later.same)

conn_new_lem_example :
    (conn_new server 77 10 ≡ (server, none))
    ⊎ ((i : ℕ) × (c : Conn) × ((conn_new server 77 10).1 ≡ some i)
        × (server.table i ≡ none)
        × (c.peer_addr ≡ 77)
        × (conn_lookup (conn_new server 77 10).0 (pos c.handle) ≡ some c)
        × ((h : ℕ) (d : Conn)
            → conn_lookup server (pos h) ≡ some d
            → conn_lookup (conn_new server 77 10).0 (pos h) ≡ some d))
conn_new_lem_example = conn_new_lem server 77 10
