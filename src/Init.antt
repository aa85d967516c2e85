-- ===== src/Init.antt =====
-- ffrdp.c, ffrdp_init: the connection string and the context that it makes; and
-- ffrdp_udp_lowlevel_parse_params of lowlevel-udp.c, on which it fails. Memory, threads and sockets
-- are taken to be had. A text is a list of bytes.
pub mod Fresh
mod Rounds
mod Tests
use ffrdp.Base.{
  ℕ, zero, suc, ◌+◌, ◌-◌, ◌*◌, ◌%◌, ◌^◌, Bool, true, false, not, ◌&&◌, ◌||◌, List, [], ◌∷◌, ◌++◌,
}
use ffrdp.Base.{Option, none, some, length, take, drop, ltb, leb, ◌==◌, if◌then◌else◌, sub32}
use ffrdp.Base.Int.{ℤ, pos, negsuc, ◌-ℤ◌, pos_part, ltb_ℤ, leb_ℤ}
use ffrdp.Addr.{addr_make, colon, is_digit, parse_text}
use ffrdp.Conn.{Conn, conn_init}
use ffrdp.Table.{new_table, maxconn_limit}
use ffrdp.Hs.{Ctx, hs_start_client}

abbrev pub comma : ℕ
comma = 44

-- strcmp(a, b) == 0
abbrev pub same_text : List ℕ → List ℕ → Bool
same_text [] [] = true
same_text [] (b ∷ ys) = false
same_text (a ∷ xs) [] = false
same_text (a ∷ xs) (b ∷ ys) = a == b && same_text xs ys

-- strncmp(text, prefix, strlen(prefix)) == 0
abbrev pub starts_with : List ℕ → List ℕ → Bool
starts_with text [] = true
starts_with [] (b ∷ ys) = false
starts_with (a ∷ xs) (b ∷ ys) = a == b && starts_with xs ys

-- strchr(text, c) and the cut there: what stands before and, if `c` is in the text, after it.
unfoldable pub cut_at : ℕ → List ℕ → List ℕ × Option (List ℕ)
cut_at c [] = ([], none)
cut_at c (a ∷ xs) = let rest = cut_at c xs in if a == c then ([], some xs) else (a ∷ rest.0, rest.1)

-- atoi, of a number that is an `int`.
abbrev pub is_space : ℕ → Bool
is_space a = a == 32 || (leb 9 a && leb a 13)

unfoldable pub digits_from : List ℕ → ℕ → ℕ
digits_from [] n = n
digits_from (a ∷ xs) n =
    let rest = digits_from xs (n * 10 + (a - 48)) in if is_digit a then rest else n

unfoldable pub signed : List ℕ → ℤ
unfolding digits_from
signed [] = pos 0
signed (a ∷ xs) =
    if a == b'-'
    then pos 0 -ℤ pos (digits_from xs 0)
    else if a == b'+'
    then pos (digits_from xs 0)
    else pos (digits_from (a ∷ xs) 0)

unfoldable pub atoi : List ℕ → ℤ
unfolding signed
atoi [] = pos 0
atoi (a ∷ xs) = let rest = atoi xs in if is_space a then rest else signed (a ∷ xs)

-- The local variables that the options set.
pub record Options : Type 0 where
  pub maxconn : ℤ
  pub handshake_ms : ℤ
  pub idle_ms : ℤ
  pub smss : ℤ
  pub sfec : ℤ
  pub hs_enable : ℤ

-- FFRDP_MAXCONN, 10 and 5 seconds, FFRDP_MAX_MSS, no FEC, the handshake on.
abbrev pub defaults : Options
defaults = record {
  maxconn = pos 16;
  handshake_ms = pos 10000;
  idle_ms = pos 5000;
  smss = pos 1464;
  sfec = pos 0;
  hs_enable = pos 1;
}

abbrev pub key_maxconn : List ℕ
key_maxconn = b'm' ∷ b'a' ∷ b'x' ∷ b'c' ∷ b'o' ∷ b'n' ∷ b'n' ∷ []

abbrev pub key_handshake_ms : List ℕ
key_handshake_ms =
    b'h' ∷ b'a' ∷ b'n' ∷ b'd' ∷ b's' ∷ b'h' ∷ b'a' ∷ b'k' ∷ b'e' ∷ 95 ∷ b'm' ∷ b's' ∷ []

abbrev pub key_idle_ms : List ℕ
key_idle_ms = b'i' ∷ b'd' ∷ b'l' ∷ b'e' ∷ 95 ∷ b'm' ∷ b's' ∷ []

abbrev pub key_mss : List ℕ
key_mss = b'm' ∷ b's' ∷ b's' ∷ []

abbrev pub key_fec : List ℕ
key_fec = b'f' ∷ b'e' ∷ b'c' ∷ []

abbrev pub key_hs : List ℕ
key_hs = b'h' ∷ b's' ∷ []

-- The chain of tests on the key, `none` for an unknown one.
unfoldable pub set_option : Options → List ℕ → ℤ → Option Options
set_option o key val =
    if same_text key key_maxconn
    then some (record o { maxconn = val })
    else if same_text key key_handshake_ms
    then some (record o { handshake_ms = val })
    else if same_text key key_idle_ms
    then some (record o { idle_ms = val })
    else if same_text key key_mss
    then some (record o { smss = val })
    else if same_text key key_fec
    then some (record o { sfec = val })
    else if same_text key key_hs
    then some (record o { hs_enable = val })
    else none

-- An option without its comma.
unfoldable pub one_option : Options → List ℕ → Option Options
unfolding cut_at atoi set_option
one_option o text =
    let (key, value) = cut_at colon text in
    elim value [ none ↦ none | some v ↦ set_option o key (atoi v) ]

-- The `while (key && *key)`: `none` if the bound on its rounds is met, else what the loop ends with,
-- where `none` is a bad option. Each round takes a byte at least.
unfoldable pub parse_options : ℕ → Options → Option (List ℕ) → Option (Option Options)
parse_options fuel o none = some (some o)
parse_options fuel o (some []) = some (some o)
parse_options zero o (some (a ∷ xs)) = none
parse_options (suc fuel) o (some (a ∷ xs)) =
    let (text, next) = cut_at comma (a ∷ xs) in
    elim (one_option o text) [ none ↦ some none | some o1 ↦ parse_options fuel o1 next ]

-- "ffrdps://" and "ffrdpc://".
abbrev pub scheme : ℕ → List ℕ
scheme c = b'f' ∷ b'f' ∷ b'r' ∷ b'd' ∷ b'p' ∷ c ∷ colon ∷ b'/' ∷ b'/' ∷ []

abbrev pub bind_prefix : List ℕ
bind_prefix = b'b' ∷ b'i' ∷ b'n' ∷ b'd' ∷ colon ∷ []

-- "none", "0.0.0.0" and "127.0.0.1".
abbrev pub no_bind : List ℕ
no_bind = b'n' ∷ b'o' ∷ b'n' ∷ b'e' ∷ []

abbrev pub any_addr : List ℕ
any_addr = b'0' ∷ b'.' ∷ b'0' ∷ b'.' ∷ b'0' ∷ b'.' ∷ b'0' ∷ []

abbrev pub loopback : List ℕ
loopback = b'1' ∷ b'2' ∷ b'7' ∷ b'.' ∷ b'0' ∷ b'.' ∷ b'0' ∷ b'.' ∷ b'1' ∷ []

-- ffrdp_udp_lowlevel_parse_params: `none` where it fails, else the address to bind to, if any.
unfoldable pub udp_params : List ℕ → Option (Option (ℕ × ℕ))
udp_params text =
    let bound : Option (Option (ℕ × ℕ)) = elim (parse_text (drop 5 text) none) [
      | none ↦ none
      | some at ↦ some (some at)
    ] in
    if same_text text no_bind
    then some none
    else if starts_with text bind_prefix
    then bound
    else some none

abbrev pub or_else : List ℕ → List ℕ → List ℕ
or_else [] d = d
or_else (a ∷ xs) d = a ∷ xs

-- `llparams` of a server.
unfoldable pub server_params : List ℕ → List ℕ
server_params addr =
    take 127 (if starts_with addr bind_prefix then addr else bind_prefix ++ or_else addr any_addr)

-- The peer of a client, FFRDP_ADDR_DEFAULT_PORT being 8000; a port of 0 is refused.
unfoldable pub client_peer : List ℕ → Option ℕ
client_peer addr = elim (parse_text (take 127 (or_else addr loopback)) (some 8000)) [
  | none ↦ none
  | some (ip, port) ↦ if port == 0 then none else some (addr_make ip port)
]

-- An `int` as the word that it is kept in.
abbrev pub word : ℤ → ℕ
word (pos n) = n % 2 ^ 32
word (negsuc n) = 2 ^ 32 - 1 - n % 2 ^ 32

-- The context with its main connection `c`.
unfoldable pub make_ctx : Options → Bool → Conn → Ctx
make_ctx o server c = record {
  table = new_table (pos_part o.maxconn) c.snd.smss c;
  io = record { tries = 0; out = [] };
  is_server = server;
  hs_enable = not (word o.hs_enable == 0);
  closing = false;
  handshake_ms = word o.handshake_ms;
  idle_ms = word o.idle_ms;
}

-- The main connection at time `now`, `tick_rto_backoff` set so that the first timeout backs off.
unfoldable pub main_conn : Options → ℕ → Conn
main_conn o now =
    let c = conn_init now (pos_part o.smss) in
    record c { rtt = record c.rtt { tick_rto_backoff = sub32 now c.rtt.rto } }

-- `maxconn` is in range: 1 to FFRDP_MAXCONN.
abbrev pub in_range : Options → Bool
in_range o = leb_ℤ (pos 1) o.maxconn && leb_ℤ o.maxconn (pos maxconn_limit)

module _ (link : ℕ → Bool) where
  unfoldable pub init_server : Options → List ℕ → ℕ → Option Ctx
  init_server o addr now = elim (udp_params (server_params addr)) [
    | none ↦ none
    | some at ↦ some (make_ctx o true (main_conn o now))
  ]

  -- A client binds to nothing; it sends its SYN where the handshake is on.
  unfoldable pub init_client : Options → List ℕ → ℕ → Option Ctx
  init_client o addr now = elim (client_peer addr) [
    | none ↦ none
    | some peer ↦
        (let c = record (main_conn o now) { peer_addr = peer } in
          some (hs_start_client link (make_ctx o false c) c now))
  ]

  -- The rest of ffrdp_init, for what the options parse to.
  unfoldable pub init_with : Bool → List ℕ → Option Options → ℕ → Option Ctx
  init_with server addr none now = none
  init_with server addr (some o) now =
      if not (in_range o)
      then none
      else if server
      then init_server o addr now
      else init_client o addr now

  -- The same for the loop over the options.
  abbrev pub init_parsed : Bool → List ℕ → Option (Option Options) → ℕ → Option Ctx
  init_parsed server addr none now = none
  init_parsed server addr (some o) now = init_with server addr o now

  -- What follows the scheme: the address and the options.
  unfoldable pub init_after : Bool → List ℕ → ℕ → Option Ctx
  init_after server text now =
      let (addr, key) = cut_at comma text in
      init_parsed server addr (parse_options (length text + 1) defaults key) now

  -- ffrdp_init at time `now`, `none` for NULL. The string is cut to 191 bytes.
  unfoldable pub init : List ℕ → ℕ → Option Ctx
  init params now =
      let text = take 191 params in
      if starts_with text (scheme b's')
      then init_after true (drop 9 text) now
      else if starts_with text (scheme b'c')
      then init_after false (drop 9 text) now
      else none
