-- ===== src/Addr.antt =====
-- utils.c and ffrdp.c, addresses: ffrdp_addr_make, ffrdp_addr_split, ffrdp_addr_parse_text and
-- ffrdp_addr_text. A text is the list of its bytes before the closing zero.
pub mod Text
mod Tests
use ffrdp.Base.{ℕ, zero, suc, ◌+◌, ◌-◌, ◌*◌, ◌/◌, ◌%◌, ◌^◌, Bool, true, false, not, ◌&&◌, ◌||◌}
use ffrdp.Base.{List, [], ◌∷◌, ◌++◌, Option, none, some, length}
use ffrdp.Base.{ltb, leb, ◌==◌, if◌then◌else◌, u32, u16}

unfoldable pub addr_make : ℕ → ℕ → ℕ
addr_make ip port = ip * 2 ^ 16 + port

-- The address and the port.
unfoldable pub addr_split : ℕ → ℕ × ℕ
addr_split addr = (u32 (addr / 2 ^ 16), u16 addr)

-- '0' to '9', '.' and ':'.
abbrev pub is_digit : ℕ → Bool
is_digit c = leb 48 c && leb c 57

abbrev pub dot : ℕ
dot = 46

abbrev pub colon : ℕ
colon = 58

-- ffrdp_addr_ipv4_parse from here on: the loop over `text`, with its variables as arguments. The low
-- byte of `v << 8` is free, so `|` adds.
unfoldable pub ipv4_parse : List ℕ → ℕ → ℕ → ℕ → ℕ → Option ℕ
ipv4_parse [] v val part digits =
    if digits == 0 || not (part == 3) then none else some (u32 (v * 256) + val)
ipv4_parse (c ∷ cs) v val part digits =
    let more = ipv4_parse cs v (val * 10 + (c - 48)) part (digits + 1) in
    let next = ipv4_parse cs (u32 (v * 256) + val) 0 (part + 1) 0 in
    if is_digit c
    then (if ltb 3 (digits + 1) || ltb 255 (val * 10 + (c - 48)) then none else more)
    else if c == dot
    then (if digits == 0 || leb 3 part then none else next)
    else none

-- strrchr(text, ':'): what stands before and after the last colon.
unfoldable pub last_colon : List ℕ → Option (List ℕ × List ℕ)
last_colon [] = none
last_colon (c ∷ cs) = elim (last_colon cs) [
  | some (a, b) ↦ some (c ∷ a, b)
  | none ↦ (if c == colon then some ([], cs) else none)
]

unfoldable pub all_digits : List ℕ → Bool
all_digits [] = true
all_digits (c ∷ cs) = is_digit c && all_digits cs

-- atoi of at most five digits.
unfoldable pub atoi : List ℕ → ℕ → ℕ
atoi [] n = n
atoi (c ∷ cs) n = atoi cs (n * 10 + (c - 48))

-- The test of the port and the result.
unfoldable pub finish : Option ℕ → ℕ → Option (ℕ × ℕ)
finish none port = none
finish (some ip) port = if ltb 65535 port then none else some (ip, port)

-- ffrdp_addr_parse_text, `none` where it returns -1; there is no default port where
-- `default_port` is `none` (a negative one).
unfoldable pub parse_text : List ℕ → Option ℕ → Option (ℕ × ℕ)
parse_text text default_port =
    let found : Option (ℕ × ℕ) = elim (last_colon text) [
      | some (a, b) ↦
          (if length a == 0 || not (all_digits b) || (length b == 0 || ltb 5 (length b))
            then none
            else finish (ipv4_parse a 0 0 0 0) (atoi b 0))
      | none ↦ (elim default_port [ none ↦ none | some p ↦ finish (ipv4_parse text 0 0 0 0) p ])
    ] in
    if length text == 0 || leb 64 (length text) then none else found

-- "%u" of a number below 10 ^ fuel.
unfoldable pub decimal : ℕ → ℕ → List ℕ
decimal zero n = []
decimal (suc fuel) n =
    let head = decimal fuel (n / 10) in
    if ltb n 10 then (48 + n) ∷ [] else head ++ ((48 + n % 10) ∷ [])

-- "(none)"
abbrev pub none_text : List ℕ
none_text = 40 ∷ 110 ∷ 111 ∷ 110 ∷ 101 ∷ 41 ∷ []

-- ffrdp_addr_text: its text has 21 bytes at most, and its callers give it room for 48. A byte has
-- at most three digits and a port five.
unfoldable pub addr_text : ℕ → List ℕ
addr_text addr =
    let (ip, port) = addr_split addr in
    if addr == 0
    then none_text
    else decimal 3 (ip / 2 ^ 24 % 256)
      ++ (dot ∷ decimal 3 (ip / 2 ^ 16 % 256)
          ++ (dot ∷ decimal 3 (ip / 2 ^ 8 % 256)
              ++ (dot ∷ decimal 3 (ip % 256) ++ (colon ∷ decimal 5 port))))
