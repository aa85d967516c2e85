-- ===== src/Addr/Text.antt =====
-- utils.c, addresses: the text of an address is read back.
use ffrdp.Base.{
  ℕ, zero, suc, ◌+◌, ◌-◌, ◌*◌, ◌/◌, ◌%◌, ◌^◌, ◌≤◌, ◌<◌, ◌≡◌, refl, arith, ap, ◌∙◌, inl, inr,
}
use ffrdp.Base.{
  List, [], ◌∷◌, ◌++◌, Option, none, some, length, length-append, true, false, not, ◌||◌,
  Bool-cases, Option-cases, dec_lt,
}
use mathlib.Core.Option.{none-ne-some, some-injective}
use ffrdp.Base.{ltb, leb, ◌==◌, u32, u16}
use mathlib.Core.List.{append_assoc, append-nil}
use native.Mathlib.Nat.{pow-suc}
use ffrdp.Addr.{
  addr_make, addr_split, is_digit, dot, colon, ipv4_parse, last_colon, all_digits, atoi, finish,
  parse_text, decimal, addr_text,
}

-- A number below 10 has one digit, one below 100 two.
decimal_one : (fuel n : ℕ) → n < 10 → decimal (suc fuel) n ≡ (48 + n) ∷ []
unfolding decimal
decimal_one fuel n h = let e : ltb n 10 ≡ true = ground (arith, h) in rw (decimal, e) refl

decimal_more :
    (fuel n : ℕ) → 10 ≤ n → decimal (suc fuel) n ≡ decimal fuel (n / 10) ++ ((48 + n % 10) ∷ [])
unfolding decimal
decimal_more fuel n h = let e : ltb n 10 ≡ false = ground (arith, h) in rw (decimal, e) refl

-- A digit of a number below 256.
parse_digit :
    (d : ℕ) (cs : List ℕ) (v val part digits : ℕ)
    → d < 10
    → digits < 3
    → val * 10 + d < 256
    → ipv4_parse ((48 + d) ∷ cs) v val part digits
      ≡ ipv4_parse cs v (val * 10 + d) part (digits + 1)
unfolding ipv4_parse
parse_digit d cs v val part digits h few small =
    let digit : is_digit (48 + d) ≡ true = ground (arith, h) in
    let value : 48 + d - 48 ≡ d = omega arith in
    let ok : (ltb 3 (digits + 1) || ltb 255 (val * 10 + d)) ≡ false = ground (arith, few, small) in
    rw (ipv4_parse, digit, value, ok) refl

decimal_two :
    (fuel n : ℕ)
    → 10 ≤ n
    → n < 100
    → decimal (suc (suc fuel)) n ≡ (48 + n / 10) ∷ (48 + n % 10) ∷ []
decimal_two fuel n lo hi =
    rw (decimal_more (suc fuel) n lo, decimal_one fuel (n / 10) (omega arith)) refl

decimal_three :
    (fuel n : ℕ)
    → 100 ≤ n
    → n < 1000
    → decimal (suc (suc (suc fuel))) n
      ≡ (48 + n / 10 / 10) ∷ (48 + n / 10 % 10) ∷ (48 + n % 10) ∷ []
decimal_three fuel n lo hi =
    rw
      (
        decimal_more (suc (suc fuel)) n (omega arith),
        decimal_two fuel (n / 10) (omega arith) (omega arith),
      )
      refl

parse_byte :
    (n : ℕ) (cs : List ℕ) (v part : ℕ)
    → n < 256
    → (k : ℕ) × (0 < k) × (ipv4_parse (decimal 3 n ++ cs) v 0 part 0 ≡ ipv4_parse cs v n part k)
parse_byte n cs v part h = elim (dec_lt n 10) [
  | yes one ↦
      (let e : 0 * 10 + n ≡ n = omega arith in
        (
          1,
          omega arith,
          rw (decimal_one 2 n one)
              (parse_digit n cs v 0 part 0 one (omega arith) (omega arith) ∙ rw e refl),
        ))
  | no more ↦ elim (dec_lt n 100) [
    | yes two ↦
        (let e : (0 * 10 + n / 10) * 10 + n % 10 ≡ n = omega arith in
          (
            2,
            omega arith,
            rw (decimal_two 1 n (omega arith) two) (
                parse_digit (n / 10) ((48 + n % 10) ∷ cs) v 0 part 0 (omega arith) (omega arith)
                  (omega arith)
                ∙ parse_digit (n % 10) cs v (0 * 10 + n / 10) part 1 (omega arith) (omega arith)
                    (omega arith)
                ∙ rw e refl),
          ))
    | no three ↦
        (let e : ((0 * 10 + n / 10 / 10) * 10 + n / 10 % 10) * 10 + n % 10 ≡ n = omega arith in
          (
            3,
            omega arith,
            rw (decimal_three 0 n (omega arith) (omega arith)) (
                parse_digit (n / 10 / 10) ((48 + n / 10 % 10) ∷ (48 + n % 10) ∷ cs) v 0 part 0
                  (omega arith) (omega arith) (omega arith)
                ∙ parse_digit (n / 10 % 10) ((48 + n % 10) ∷ cs) v (0 * 10 + n / 10 / 10) part 1
                    (omega arith) (omega arith) (omega arith)
                ∙ parse_digit (n % 10) cs v ((0 * 10 + n / 10 / 10) * 10 + n / 10 % 10) part 2
                    (omega arith) (omega arith) (omega arith)
                ∙ rw e refl),
          ))
  ]
]

parse_dot :
    (cs : List ℕ) (v val part digits : ℕ)
    → 0 < digits
    → part < 3
    → ipv4_parse (dot ∷ cs) v val part digits ≡ ipv4_parse cs (u32 (v * 256) + val) 0 (part + 1) 0
unfolding ipv4_parse
parse_dot cs v val part digits h few =
    let ok : (digits == 0 || leb 3 part) ≡ false = ground (arith, h, few) in
    rw (ipv4_parse, ok) refl

-- The four bytes of an address with the dots between them.
abbrev dotted : ℕ → List ℕ
dotted ip =
    decimal 3 (ip / 2 ^ 24 % 256)
    ++ (dot ∷ decimal 3 (ip / 2 ^ 16 % 256)
        ++ (dot ∷ decimal 3 (ip / 2 ^ 8 % 256) ++ (dot ∷ decimal 3 (ip % 256))))

parse_end :
    (v val digits : ℕ) → 0 < digits → ipv4_parse [] v val 3 digits ≡ some (u32 (v * 256) + val)
unfolding ipv4_parse
parse_end v val digits h =
    let ok : (digits == 0 || not (3 == 3)) ≡ false = ground (arith, h) in rw (ipv4_parse, ok) refl

parse_part :
    (n : ℕ) (cs : List ℕ) (v part : ℕ)
    → n < 256
    → part < 3
    → ipv4_parse (decimal 3 n ++ (dot ∷ cs)) v 0 part 0
      ≡ ipv4_parse cs (u32 (v * 256) + n) 0 (part + 1) 0
parse_part n cs v part h few =
    let (k, above, e) = parse_byte n (dot ∷ cs) v part h in e ∙ parse_dot cs v n part k above few

parse_last : (n v : ℕ) → n < 256 → ipv4_parse (decimal 3 n) v 0 3 0 ≡ some (u32 (v * 256) + n)
parse_last n v h =
    let (k, above, e) = parse_byte n [] v 3 h in rw append-nil at e ∙ parse_end v n k above

parse_dotted : (ip : ℕ) → ip < 2 ^ 32 → ipv4_parse (dotted ip) 0 0 0 0 ≡ some ip
parse_dotted ip h =
    let a = ip / 2 ^ 24 % 256 in
    let b = ip / 2 ^ 16 % 256 in
    let c = ip / 2 ^ 8 % 256 in
    let v1 = u32 (0 * 256) + a in
    let v2 = u32 (v1 * 256) + b in
    let v3 = u32 (v2 * 256) + c in
    let whole : u32 (v3 * 256) + ip % 256 ≡ ip = omega arith in
    parse_part a (decimal 3 b ++ (dot ∷ decimal 3 c ++ (dot ∷ decimal 3 (ip % 256)))) 0 0
      (omega arith) (omega arith)
    ∙ parse_part b (decimal 3 c ++ (dot ∷ decimal 3 (ip % 256))) v1 1 (omega arith) (omega arith)
    ∙ parse_part c (decimal 3 (ip % 256)) v2 2 (omega arith) (omega arith)
    ∙ parse_last (ip % 256) v3 (omega arith)
    ∙ ap some whole

-- The last colon is where the port begins, as digits are no colons.
last_colon-none : (ys : List ℕ) → all_digits ys ≡ true → last_colon ys ≡ none
unfolding last_colon all_digits
last_colon-none [] d = refl
last_colon-none (y ∷ ys) d =
    let other : (y == colon) ≡ false = ground (arith, d) in
    let rest : all_digits ys ≡ true = ground (arith, d) in
    rw (last_colon, last_colon-none ys rest, other) refl

last_colon-found :
    (xs ys : List ℕ) → all_digits ys ≡ true → last_colon (xs ++ (colon ∷ ys)) ≡ some (xs, ys)
unfolding last_colon
last_colon-found [] ys d = rw (last_colon, last_colon-none ys d) refl
last_colon-found (x ∷ xs) ys d = rw (last_colon, last_colon-found xs ys d) refl

-- A number is written with its digits, which atoi reads back.
record IsNumber (ys : List ℕ) (most n : ℕ) : Type 0 where
  digits : all_digits ys ≡ true
  some_digit : 0 < length ys
  few : length ys ≤ most
  value : atoi ys 0 ≡ n

all_digits-append :
    (xs ys : List ℕ) → all_digits xs ≡ true → all_digits ys ≡ true → all_digits (xs ++ ys) ≡ true
unfolding all_digits
all_digits-append [] ys h k = k
all_digits-append (x ∷ xs) ys h k =
    let first : is_digit x ≡ true = ground (arith, h) in
    let rest : all_digits xs ≡ true = ground (arith, h) in
    rw (all_digits, first, all_digits-append xs ys rest k) refl

atoi-append : (xs : List ℕ) (d n : ℕ) → atoi (xs ++ (d ∷ [])) n ≡ atoi xs n * 10 + (d - 48)
unfolding atoi
atoi-append [] d n = refl
atoi-append (x ∷ xs) d n = atoi-append xs d (n * 10 + (x - 48))

one_digit : (d : ℕ) → d < 10 → all_digits ((48 + d) ∷ []) ≡ true
unfolding all_digits
one_digit d h = ground (arith, h)

decimal-IsNumber : (fuel n : ℕ) → n < 10 ^ suc fuel → IsNumber (decimal (suc fuel) n) (suc fuel) n
unfolding atoi
decimal-IsNumber zero n h =
    let small : n < 10 = omega (arith, h, pow-suc 10 0) in
    rw (decimal_one 0 n small) (record {
      digits = one_digit n small;
      some_digit = omega arith;
      few = omega arith;
      value = omega arith;
    })
decimal-IsNumber (suc fuel) n h = elim (dec_lt n 10) [
  | yes small ↦ rw (decimal_one (suc fuel) n small) (record {
    digits = one_digit n small;
    some_digit = omega arith;
    few = omega arith;
    value = omega arith;
  })
  | no big ↦
      (let front = decimal-IsNumber fuel (n / 10) (omega (arith, h, pow-suc 10 (suc fuel))) in
        let size = length-append (decimal (suc fuel) (n / 10)) ((48 + n % 10) ∷ []) in
        rw (decimal_more (suc fuel) n (omega arith)) (record {
          digits =
              all_digits-append (decimal (suc fuel) (n / 10)) ((48 + n % 10) ∷ []) front.digits
                (one_digit (n % 10) (omega arith));
          some_digit = omega (arith, size);
          few = omega (arith, size, front.few);
          value =
              omega (arith, atoi-append (decimal (suc fuel) (n / 10)) (48 + n % 10) 0, front.value);
        }))
]

-- The text of an address is not empty and short.
dotted-length : (ip : ℕ) → (0 < length (dotted ip)) × (length (dotted ip) ≤ 15)
dotted-length ip =
    let byte = λ (n : ℕ) (h : n < 256). decimal-IsNumber 2 n (omega (arith, h)) in
    let a = byte (ip / 2 ^ 24 % 256) (omega arith) in
    let b = byte (ip / 2 ^ 16 % 256) (omega arith) in
    let c = byte (ip / 2 ^ 8 % 256) (omega arith) in
    let d = byte (ip % 256) (omega arith) in
    let last = decimal 3 (ip % 256) in
    let third = decimal 3 (ip / 2 ^ 8 % 256) ++ (dot ∷ last) in
    let second = decimal 3 (ip / 2 ^ 16 % 256) ++ (dot ∷ third) in
    omega (
      arith,
      length-append (decimal 3 (ip / 2 ^ 24 % 256)) (dot ∷ second),
      length-append (decimal 3 (ip / 2 ^ 16 % 256)) (dot ∷ third),
      length-append (decimal 3 (ip / 2 ^ 8 % 256)) (dot ∷ last),
      a.few,
      b.few,
      c.few,
      d.few,
      a.some_digit,
    )

addr_text-dotted :
    (ip port : ℕ)
    → ip < 2 ^ 32
    → port < 2 ^ 16
    → 0 < ip + port
    → addr_text (addr_make ip port) ≡ dotted ip ++ (colon ∷ decimal 5 port)
unfolding addr_text addr_make addr_split
addr_text-dotted ip port hi hp some_bit =
    let there : (ip * 2 ^ 16 + port == 0) ≡ false = ground (arith, some_bit) in
    let e : u32 ((ip * 2 ^ 16 + port) / 2 ^ 16) ≡ ip = omega arith in
    let e' : u16 (ip * 2 ^ 16 + port) ≡ port = omega arith in
    rw (addr_text, addr_make, addr_split, there, e, e', append_assoc, append_assoc, append_assoc)
      refl

-- Where the address or the port is not 0, ffrdp_addr_parse_text reads the text that ffrdp_addr_text
-- makes of an address back to its IPv4 address and its port, whatever the default port is.
pub parse_text-addr_text :
    (ip port : ℕ) (default_port : Option ℕ)
    → ip < 2 ^ 32
    → port < 2 ^ 16
    → 0 < ip + port
    → parse_text (addr_text (addr_make ip port)) default_port ≡ some (ip, port)
unfolding parse_text finish
parse_text-addr_text ip port default_port hi hp some_bit =
    let number = decimal-IsNumber 4 port (omega (arith, hp)) in
    let digits = decimal 5 port in
    let size = dotted-length ip in
    let whole = length-append (dotted ip) (colon ∷ digits) in
    let short : (length (dotted ip ++ (colon ∷ digits)) == 0
          || leb 64 (length (dotted ip ++ (colon ∷ digits))))
        ≡ false =
      ground (arith, whole, size, number.few) in
    let found = last_colon-found (dotted ip) digits number.digits in
    let ok : (length (dotted ip) == 0
          || not (all_digits digits)
          || (length digits == 0 || ltb 5 (length digits)))
        ≡ false =
      ground (arith, size, number.some_digit, number.few, number.digits) in
    let low : ltb 65535 port ≡ false = ground (arith, hp) in
    rw
      (
        addr_text-dotted ip port hi hp some_bit,
        parse_text,
        short,
        found,
        ok,
        parse_dotted ip hi,
        number.value,
        low,
      )
      refl

ipv4_parse-lt :
    (text : List ℕ) (v val part digits ip : ℕ)
    → val < 256
    → ipv4_parse text v val part digits ≡ some ip
    → ip < 2 ^ 32
unfolding ipv4_parse
ipv4_parse-lt [] v val part digits ip h e = ground arith
ipv4_parse-lt (c ∷ cs) v val part digits ip h e = ground (
  arith,
  ipv4_parse-lt cs v (val * 10 + (c - 48)) part (digits + 1) ip,
  ipv4_parse-lt cs (u32 (v * 256) + val) 0 (part + 1) 0 ip,
)

finish-lt :
    (o : Option ℕ) (p ip port : ℕ)
    → ((a : ℕ) → 0 < 256 → o ≡ some a → a < 2 ^ 32)
    → finish o p ≡ some (ip, port)
    → (ip < 2 ^ 32) × (port < 2 ^ 16)
unfolding finish
finish-lt none p ip port h e = absurd (none-ne-some {A = ℕ × ℕ} (ip, port) e)
finish-lt (some a) p ip port h e = elim (Bool-cases (ltb 65535 p)) [
  | inl big ↦ absurd (none-ne-some {A = ℕ × ℕ} (ip, port) (rw (← e, finish, big) refl))
  | inr small ↦
      (let both : (a, p) ≡ (ip, port) =
          some-injective {A = ℕ × ℕ} (a, p) (ip, port) (rw (← e, finish, small) refl) in
        let first : a ≡ ip = ap (λ (t : ℕ × ℕ). t.0) both in
        let second : p ≡ port = ap (λ (t : ℕ × ℕ). t.1) both in
        (rw (← first) (h a (omega arith) refl), ground (arith, small, second)))
]

-- ffrdp_addr_parse_text gives an address of 32 bits and a port of 16, whatever the default port is.
pub parse_text-lt :
    (text : List ℕ) (default_port : Option ℕ) (ip port : ℕ)
    → parse_text text default_port ≡ some (ip, port)
    → (ip < 2 ^ 32) × (port < 2 ^ 16)
unfolding parse_text finish
parse_text-lt text default_port ip port e =
    elim (Bool-cases (length text == 0 || leb 64 (length text))) [
      | inl bad ↦ absurd (none-ne-some {A = ℕ × ℕ} (ip, port) (rw (← e, parse_text, bad) refl))
      | inr good ↦ elim (Option-cases (last_colon text)) [
        | inl no_colon ↦ elim (Option-cases default_port) [
          | inl d ↦
              absurd
                (none-ne-some {A = ℕ × ℕ} (ip, port) (rw (← e, parse_text, good, no_colon, d) refl))
          | inr (p, d) ↦
              finish-lt (ipv4_parse text 0 0 0 0) p ip port (ipv4_parse-lt text 0 0 0 0)
                (rw (← e, parse_text, good, no_colon, d) refl)
        ]
        | inr ((a, b), found) ↦
            elim (Bool-cases
              (length a == 0 || not (all_digits b) || (length b == 0 || ltb 5 (length b)))) [
                | inl bad ↦ absurd (
                    none-ne-some {A = ℕ × ℕ} (ip, port)
                      (rw (← e, parse_text, good, found, bad) refl))
                | inr ok ↦
                    finish-lt (ipv4_parse a 0 0 0 0) (atoi b 0) ip port (ipv4_parse-lt a 0 0 0 0)
                      (rw (← e, parse_text, good, found, ok) refl)
              ]
      ]
    ]
