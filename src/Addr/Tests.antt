-- ===== src/Addr/Tests.antt =====
-- utils.c, addresses: runs, and the theorems at a concrete input.
use ffrdp.Base.{ℕ, ◌≡◌, ◌<◌, ◌^◌, refl, arith, List, [], ◌∷◌, none, some}
use ffrdp.Addr.{addr_make, addr_text, parse_text, last_colon, all_digits, ipv4_parse, atoi, finish}
use ffrdp.Addr.Text.{parse_text-addr_text, parse_text-lt}

parse_text-addr_text_example :
    parse_text (addr_text (addr_make 0x7F000001 8000)) (some 80) ≡ some (0x7F000001, 8000)
parse_text-addr_text_example =
    parse_text-addr_text 0x7F000001 8000 (some 80) (omega arith) (omega arith) (omega arith)

-- "1.2.3.4", "1.2.3.256:1", ":80" and "1.2.3.4:".
abbrev host : List ℕ
host = 49 ∷ 46 ∷ 50 ∷ 46 ∷ 51 ∷ 46 ∷ 52 ∷ []

host_read : parse_text host (some 80) ≡ some (0x01020304, 80)
unfolding parse_text last_colon ipv4_parse finish
host_read = refl

no_port_refused :
    (parse_text host none ≡ none)
    × (parse_text (58 ∷ 56 ∷ 48 ∷ []) (some 80) ≡ none)
    × (parse_text (49 ∷ 46 ∷ 50 ∷ 46 ∷ 51 ∷ 46 ∷ 52 ∷ 58 ∷ []) (some 80) ≡ none)
    × (parse_text (49 ∷ 46 ∷ 50 ∷ 46 ∷ 51 ∷ 46 ∷ 50 ∷ 53 ∷ 54 ∷ 58 ∷ 49 ∷ []) none ≡ none)
unfolding parse_text last_colon ipv4_parse finish all_digits atoi
no_port_refused = (refl, refl, refl, refl)

parse_text-lt_example : (0x01020304 < 2 ^ 32) × (80 < 2 ^ 16)
parse_text-lt_example = parse_text-lt host (some 80) 0x01020304 80 host_read
