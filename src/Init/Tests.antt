-- ===== src/Init/Tests.antt =====
-- ffrdp.c, ffrdp_init: the theorems at concrete inputs.
use ffrdp.Base.{ℕ, ◌≡◌, ◌≢◌, refl, Bool, true, false, List, [], ◌∷◌, ◌++◌, none, some}
use ffrdp.Base.Int.{pos}
use ffrdp.Addr
use ffrdp.Addr.{addr_make, colon, parse_text, last_colon, ipv4_parse, finish, all_digits}
use ffrdp.Conn.{Conn}
use ffrdp.Hs.{Ctx, hs_start_client}
use ffrdp.Init.{
  Options, defaults, comma, scheme, cut_at, parse_options, make_ctx, main_conn, init_client,
  init_with, init_after, init, client_peer, one_option, atoi, signed, digits_from, set_option,
  init_server, server_params, udp_params,
}
use ffrdp.Base.{arith}
use ffrdp.Init.Rounds.{parse_options_ends}
use ffrdp.Init.Fresh.{IsFresh, init-IsFresh}

abbrev free_link : ℕ → Bool
free_link n = true

-- "1.2.3.4:9" and "maxconn:3,mss:800".
abbrev peer_text : List ℕ
peer_text = b'1' ∷ b'.' ∷ b'2' ∷ b'.' ∷ b'3' ∷ b'.' ∷ b'4' ∷ colon ∷ b'9' ∷ []

abbrev option_text : List ℕ
option_text =
    b'm' ∷ b'a' ∷ b'x' ∷ b'c' ∷ b'o' ∷ b'n' ∷ b'n' ∷ colon ∷ b'3' ∷ comma ∷ b'm' ∷ b's' ∷ b's'
    ∷ colon ∷ b'8' ∷ b'0' ∷ b'0' ∷ []

-- "ffrdpc://1.2.3.4:9,maxconn:3,mss:800".
abbrev client_text : List ℕ
client_text = scheme b'c' ++ (peer_text ++ (comma ∷ option_text))

client_peer_value : client_peer peer_text ≡ some (addr_make 16909060 9)
unfolding client_peer parse_text last_colon ipv4_parse finish all_digits Addr.atoi addr_make
client_peer_value = refl

abbrev chosen_options : Options
chosen_options = record defaults { maxconn = pos 3; smss = pos 800 }

parse_options_ends_example : parse_options 28 defaults (some option_text) ≢ none
parse_options_ends_example = parse_options_ends 28 defaults option_text (omega arith)

option_value : parse_options 28 defaults (some option_text) ≡ some (some chosen_options)
unfolding parse_options one_option cut_at atoi signed digits_from set_option
option_value = refl

cut_value : cut_at comma (peer_text ++ (comma ∷ option_text)) ≡ (peer_text, some option_text)
unfolding cut_at
cut_value = refl

abbrev calling : Conn
calling = record (main_conn chosen_options 7) { peer_addr = addr_make 16909060 9 }

abbrev caller : Ctx
caller = hs_start_client free_link (make_ctx chosen_options false calling) calling 7

client_value : init_client free_link chosen_options peer_text 7 ≡ some caller
unfolding init_client
client_value = rw (init_client, client_peer_value) refl

init_value : init free_link client_text 7 ≡ some caller
unfolding init init_after init_with
init_value = rw (cut_value, option_value) client_value

init-IsFresh_example : IsFresh caller
init-IsFresh_example = init-IsFresh free_link client_text 7 caller init_value

-- "ffrdps://": a server without an address is asked to bind to a text without a port.
init_no_addr : init free_link (scheme b's') 7 ≡ none
unfolding init init_after init_with init_server cut_at parse_options server_params udp_params
    parse_text last_colon ipv4_parse finish
init_no_addr = refl

-- "ffrdps://,,": an empty option is refused.
init_empty_option : init free_link (scheme b's' ++ (comma ∷ comma ∷ [])) 7 ≡ none
unfolding init init_after init_with cut_at parse_options one_option
init_empty_option = refl
