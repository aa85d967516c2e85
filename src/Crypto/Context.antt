-- ===== src/Crypto/Context.antt =====
-- ffcrypto.c, the contexts: struct ffc_ctx, ffc_new, ffc_set_salt, ffc_crypt and ffc_drop.
-- The pointers that these take are not NULL (each returns at once if one is), calloc does not
-- fail, and `len` is the length of the buffer.
use ffrdp.Base.{ℕ, zero, suc, ◌+◌, ◌-◌, List, [], ◌∷◌, ◌++◌, Bool, true, false}
use ffrdp.Base.{◌&&◌, u8, length, take, drop, replicate, set, ◌==◌, leb, ltb}
use ffrdp.Base.{if◌then◌else◌, min_c}
use mathlib.Core.Option
use ffrdp.Base.{Option, none, some}
use ffrdp.Base.Int.{ℤ, pos, negsuc}
use ffrdp.Crypto.Block.{chacha20_state, chacha20_block, le32}
use ffrdp.Crypto.Stream.{fresh, salt, body, Stream, stream_arm, stream_xor}

-- FFC_TX and FFC_RX.
pub data Dir : Type 0 where
  tx rx : Dir

-- `keyw[dir]` and `st[conn][dir]`; the array of streams is a function.
pub record Ctx : Type 0 where
  pub keyw : Dir → List ℕ
  pub st : ℕ → Dir → Stream

-- A stream as calloc or memset leaves it.
unfoldable pub zero_stream : Stream
zero_stream = record {
  keyw = replicate 8 0;
  nonce = replicate 8 0;
  ks = replicate 64 0;
  ctr = 0;
  pos = 0;
  live = false;
  phase = fresh;
  seeded = false;
  left = 0;
  hpos = 0;
  hsalt = replicate 8 0;
}

unfoldable pub key_words : ℕ → List ℕ → List ℕ
unfolding le32
key_words zero key = []
key_words (suc n) key = le32 key ∷ key_words n (drop 4 key)

-- The loop `for (d = 0; d < 2; d++)` of ffc_new: the key of a direction is the head of the block
-- that the pre-shared key makes with an all-zero salt and counter d + 1.
unfoldable pub derive_key : List ℕ → ℕ → List ℕ
unfolding key_words
derive_key key d =
    take 8 (chacha20_block (chacha20_state (key_words 8 key) (replicate 8 0) (d + 1)))

unfoldable pub ffc_new : List ℕ → Bool → Ctx
ffc_new key is_server = record {
  keyw = elim [
    | tx ↦ derive_key key (if is_server then 1 else 0)
    | rx ↦ derive_key key (if is_server then 0 else 1)
  ];
  st = λ conn dir. zero_stream;
}

unfoldable pub set_salt_stream : List ℕ → List ℕ → Stream → Stream
set_salt_stream keyw salt_bytes s = record s {
  keyw = keyw;
  nonce = salt_bytes;
  phase = salt;
  seeded = true;
  left = 8;
  hpos = 0;
  live = false;
  pos = 64;
  ctr = 0;
}

-- `if (s->phase == FFC_PH_NEW) { … }`
unfoldable pub begin_salt : List ℕ → Stream → Stream
begin_salt keyw s = elim s.phase [
  | fresh ↦ record s {
    keyw = keyw;
    phase = salt;
    left = 8;
    hpos = 0;
    live = false;
    pos = 64;
    ctr = 0;
  }
  | _ ↦ s
]

-- `memcpy(h + i, p, length p)`
unfoldable pub write_at : List ℕ → ℕ → List ℕ → List ℕ
write_at h i [] = h
write_at h i (b ∷ p) = write_at (set h i b) (i + 1) p

-- `s->phase = FFC_PH_DATA; stream_arm(s);`
unfoldable pub enter_data : Stream → Stream
unfolding stream_arm
enter_data s = stream_arm (record s { phase = body })

-- The salt bytes `p` are kept, and go through unchanged.
unfoldable pub keep_salt : Stream → List ℕ → Stream
keep_salt s p = record s {
  hsalt = write_at s.hsalt s.hpos p;
  hpos = u8 (s.hpos + u8 (length p));
  left = u8 (s.left + 256 - length p);
}

-- `if (s->left == 0) { … }`: the record is complete.
unfoldable pub end_salt : Stream → Stream
end_salt s =
    if s.left == 0 then enter_data (if s.seeded then s else record s { nonce = s.hsalt }) else s

-- The statements under `if (s->phase == FFC_PH_SALT)` up to its `return`.
unfoldable pub take_salt : Stream → List ℕ → Stream
take_salt s p = end_salt (keep_salt s p)

-- `if (!s->live) { … } stream_xor(s, p, len);`
unfoldable pub crypt_data : Stream → List ℕ → Stream × List ℕ
crypt_data s p = stream_xor (if s.live then s else enter_data s) p

-- ffc_crypt from `if (s->phase == FFC_PH_SALT)` on, for a buffer that is not empty.
unfoldable pub crypt_begun : Stream → List ℕ → Stream × List ℕ
crypt_begun s p = elim s.phase [
  | salt ↦
      (let d = min_c (length p) s.left in
        let s2 = take_salt s (take d p) in
        let rest = crypt_data s2 (drop d p) in
        if leb (length p) d then (s2, take d p) else (rest.0, take d p ++ rest.1))
  | _ ↦ crypt_data s p
]

-- ffc_crypt past its guards, on the stream of the connection and direction: the new stream, and the
-- bytes that stand in the buffer afterwards.
unfoldable pub crypt_stream : List ℕ → Stream → List ℕ → Stream × List ℕ
crypt_stream keyw s [] = (s, [])
crypt_stream keyw s (x ∷ xs) = crypt_begun (begin_salt keyw s) (x ∷ xs)

abbrev pub max_conn : ℕ
max_conn = 16

-- The negation of `dir < 0 || dir > 1`, with the direction that the number means.
unfoldable pub dir_of : ℤ → Option Dir
dir_of (pos zero) = some tx
dir_of (pos (suc zero)) = some rx
dir_of (pos (suc (suc n))) = none
dir_of (negsuc n) = none

abbrev pub dir_eq : Dir → Dir → Bool
dir_eq tx tx = true
dir_eq rx rx = true
dir_eq _ _ = false

-- `c->st[conn][dir] = s`
abbrev pub put_stream : Ctx → ℕ → Dir → Stream → Ctx
put_stream c conn dir s = record c { st = λ i d. if i == conn && dir_eq d dir then s else c.st i d }

-- The stream that the guards let a call work on, if they do.
unfoldable pub slot_of : ℤ → ℤ → Option (ℕ × Dir)
unfolding dir_of
slot_of (negsuc n) dir = none
slot_of (pos conn) dir =
    if ltb conn max_conn then Option.map (λ d. (conn, d)) (dir_of dir) else none

unfoldable pub ffc_set_salt : Ctx → ℤ → ℤ → List ℕ → Ctx
unfolding slot_of set_salt_stream
ffc_set_salt c conn dir salt_bytes = elim (slot_of conn dir) [
  | none ↦ c
  | some (i, d) ↦ put_stream c i d (set_salt_stream (c.keyw d) salt_bytes (c.st i d))
]

-- The context and the buffer after the call.
unfoldable pub ffc_crypt : Ctx → ℤ → ℤ → List ℕ → Ctx × List ℕ
unfolding slot_of crypt_stream
ffc_crypt c conn dir buf = elim (slot_of conn dir) [
  | none ↦ (c, buf)
  | some (i, d) ↦ (let r = crypt_stream (c.keyw d) (c.st i d) buf in (put_stream c i d r.0, r.1))
]

unfoldable pub ffc_drop : Ctx → ℤ → Ctx
ffc_drop c (negsuc n) = c
ffc_drop c (pos conn) =
    if ltb conn max_conn
    then record c { st = λ i d. if i == conn then zero_stream else c.st i d }
    else c
