-- ===== src/Crypto/Ends.antt =====
-- ffcrypto.c, the public calls: two contexts of one key, and the calls that change nothing.
use mathlib.Core.Bool.{not}
use ffrdp.Base.{ℕ, zero, suc, ◌+◌, ◌<◌, List, [], ◌∷◌, ◌++◌, ◌≡◌, refl, arith}
use ffrdp.Base.{length, replicate, Bool, true, false, ap, ◌∙◌, take, lt→ltb}
use ffrdp.Base.{length-take, some}
use ffrdp.Base.Int.{ℤ, pos}
use ffrdp.Crypto.Block.{chacha20_block, chacha20_state}
use ffrdp.Crypto.Stream.{fresh, Stream}
use ffrdp.Crypto.Context.{
  crypt_stream, set_salt_stream, zero_stream, Ctx, Dir, tx, rx, ffc_new, ffc_set_salt, ffc_crypt,
  derive_key, key_words, slot_of, put_stream,
}
use ffrdp.Crypto.Wide.{IsBytes, IsBytes-append}
use ffrdp.Crypto.Bytes.{length-chacha20_block, length-chacha20_state}
use ffrdp.Crypto.Chunks.{IsSound, crypt_run}
use ffrdp.Crypto.Record.{crypt_stream-eq-crypt_run}
use ffrdp.Crypto.Invariant.{crypt_run-IsSound}
use ffrdp.Crypto.RoundTrip.{crypt_run_round_trip, wire}

length-key_words : (n : ℕ) (key : List ℕ) → length (key_words n key) ≡ n
unfolding key_words
length-key_words zero key = refl
length-key_words (suc n) key = omega (arith, length-key_words n _)

pub length-derive_key : (key : List ℕ) (d : ℕ) → length (derive_key key d) ≡ 8
unfolding derive_key
length-derive_key key d =
    let st = chacha20_state (key_words 8 key) (replicate 8 0) (d + 1) in
    omega (
      arith,
      length-take 8 (chacha20_block st),
      length-chacha20_block st,
      length-chacha20_state (key_words 8 key) (replicate 8 0) (d + 1) (length-key_words 8 key),
    )

-- The stream of a connection that nothing has used yet.
pub zero_stream-IsSound :
    IsSound zero_stream
    × (zero_stream.phase ≡ fresh)
    × (zero_stream.seeded ≡ false)
    × (length zero_stream.hsalt ≡ 8)
unfolding zero_stream
zero_stream-IsSound = (
  record { ks_size = refl; ks_bytes = omega arith; key_size = λ q. refl; phase_ok = tt },
  refl,
  refl,
  refl,
)

take-length : (xs ys : List ℕ) → take (length xs) (xs ++ ys) ≡ xs
take-length [] ys = refl
take-length (x ∷ xs) ys = ap (λ (t : List ℕ). x ∷ t) (take-length xs ys)

module _ (keyw salt_bytes : List ℕ) (key_size : length keyw ≡ 8)
    (salt_size : length salt_bytes ≡ 8) where
  pub set_salt_stream-IsSound :
      (s : Stream) → IsSound s → IsSound (set_salt_stream keyw salt_bytes s)
  unfolding set_salt_stream
  set_salt_stream-IsSound s v = record {
    ks_size = v.ks_size;
    ks_bytes = v.ks_bytes;
    key_size = λ _. key_size;
    phase_ok = (omega arith, refl, refl);
  }

  crypt_stream_round_trip :
      (p : List ℕ)
      → IsBytes salt_bytes
      → IsBytes p
      → let sent =
          crypt_stream keyw (set_salt_stream keyw salt_bytes zero_stream) (salt_bytes ++ p) in
        ((crypt_stream keyw zero_stream sent.1).1 ≡ salt_bytes ++ p) × (take 8 sent.1 ≡ salt_bytes)
  crypt_stream_round_trip p bs bp =
      let z = zero_stream-IsSound in
      let s = set_salt_stream keyw salt_bytes zero_stream in
      let v = set_salt_stream-IsSound zero_stream z.0 in
      let b = IsBytes-append salt_bytes p bs bp in
      let sent = crypt_stream-eq-crypt_run keyw s (salt_bytes ++ p) key_size v b in
      let out = crypt_run-IsSound keyw s (salt_bytes ++ p) key_size v b in
      rw
        (
          sent,
          crypt_stream-eq-crypt_run keyw zero_stream (crypt_run keyw s (salt_bytes ++ p)).1 key_size
              z.0 out.1,
        )
        (
          crypt_run_round_trip keyw salt_bytes key_size salt_size zero_stream zero_stream p z.1 z.2
              z.3,
          rw (wire keyw salt_bytes key_size salt_size zero_stream p)
              (rw (← salt_size) (take-length salt_bytes _)),
        )

-- A call that its guards let through works on one stream.
ffc_crypt-at :
    (c : Ctx) (conn dir : ℤ) (buf : List ℕ) (i : ℕ) (d : Dir)
    → slot_of conn dir ≡ some (i, d)
    → ffc_crypt c conn dir buf ≡ (
      put_stream c i d (crypt_stream (c.keyw d) (c.st i d) buf).0,
      (crypt_stream (c.keyw d) (c.st i d) buf).1,
    )
unfolding ffc_crypt
ffc_crypt-at c conn dir buf i d h = ground (arith, h)

ffc_set_salt-at :
    (c : Ctx) (conn dir : ℤ) (salt_bytes : List ℕ) (i : ℕ) (d : Dir)
    → slot_of conn dir ≡ some (i, d)
    → ffc_set_salt c conn dir salt_bytes
      ≡ put_stream c i d (set_salt_stream (c.keyw d) salt_bytes (c.st i d))
unfolding ffc_set_salt
ffc_set_salt-at c conn dir salt_bytes i d h = ground (arith, h)

slot_of-tx : (conn : ℕ) → conn < 16 → slot_of (pos conn) (pos 0) ≡ some (conn, tx)
unfolding slot_of
slot_of-tx conn h = rw (lt→ltb conn 16 h)

slot_of-rx : (conn : ℕ) → conn < 16 → slot_of (pos conn) (pos 1) ≡ some (conn, rx)
unfolding slot_of
slot_of-rx conn h = rw (lt→ltb conn 16 h)

put_stream_self : (c : Ctx) (i : ℕ) (s : Stream) → (put_stream c i tx s).st i tx ≡ s
put_stream_self c i s = ground arith

-- The sending key of one end is the receiving key of the other, and has eight words.
new_keys :
    (key : List ℕ) (b : Bool)
    → ((ffc_new key (not b)).keyw rx ≡ (ffc_new key b).keyw tx)
      × (length ((ffc_new key b).keyw tx) ≡ 8)
unfolding ffc_new
new_keys key true = (refl, length-derive_key key 1)
new_keys key false = (refl, length-derive_key key 0)

new_stream : (key : List ℕ) (b : Bool) (i : ℕ) (d : Dir) → (ffc_new key b).st i d ≡ zero_stream
unfolding ffc_new
new_stream key b i d = refl

-- What the sender puts out, and what the receiver makes of it.
ffc_crypt-sent :
    (key salt_bytes buf : List ℕ) (b : Bool) (conn : ℕ)
    → conn < 16
    → (ffc_crypt
        (ffc_set_salt (ffc_new key b) (pos conn) (pos 0) salt_bytes)
        (pos conn)
        (pos 0)
        buf).1
      ≡ (crypt_stream
          ((ffc_new key b).keyw tx)
          (set_salt_stream ((ffc_new key b).keyw tx) salt_bytes zero_stream)
          buf).1
ffc_crypt-sent key salt_bytes buf b conn hc =
    ap (λ (r : Ctx × List ℕ). r.1)
      (ffc_crypt-at (ffc_set_salt (ffc_new key b) (pos conn) (pos 0) salt_bytes) (pos conn) (pos 0)
        buf conn tx (slot_of-tx conn hc))
    ∙ rw (salted.0, salted.1, new_stream key b conn tx)
  where
    salted :
        ((ffc_set_salt (ffc_new key b) (pos conn) (pos 0) salt_bytes).keyw tx
          ≡ (ffc_new key b).keyw tx)
        × ((ffc_set_salt (ffc_new key b) (pos conn) (pos 0) salt_bytes).st conn tx
            ≡ set_salt_stream ((ffc_new key b).keyw tx) salt_bytes ((ffc_new key b).st conn tx))
    salted =
        rw
          (ffc_set_salt-at (ffc_new key b) (pos conn) (pos 0) salt_bytes conn tx
            (slot_of-tx conn hc))
          (refl, put_stream_self (ffc_new key b) conn _)

ffc_crypt-received :
    (key buf : List ℕ) (b : Bool) (conn : ℕ)
    → conn < 16
    → (ffc_crypt (ffc_new key (not b)) (pos conn) (pos 1) buf).1
      ≡ (crypt_stream ((ffc_new key b).keyw tx) zero_stream buf).1
ffc_crypt-received key buf b conn hc =
    ap (λ (r : Ctx × List ℕ). r.1)
      (ffc_crypt-at (ffc_new key (not b)) (pos conn) (pos 1) buf conn rx (slot_of-rx conn hc))
    ∙ rw ((new_keys key b).0, new_stream key (not b) conn rx)

-- Encrypting on one end with a salt of eight bytes in front of the text, and decrypting what comes
-- out on the other end, gives the salt and the text; the salt is the head of what is sent. One end
-- is a client and the other a server of the same key, whichever of them sends, on any connection
-- below the limit of 16.
pub ffc_crypt_round_trip :
    (key salt_bytes text : List ℕ) (is_server : Bool) (conn : ℕ)
    → length salt_bytes ≡ 8
    → IsBytes salt_bytes
    → IsBytes text
    → conn < 16
    → let sender = ffc_set_salt (ffc_new key is_server) (pos conn) (pos 0) salt_bytes in
      let sent = ffc_crypt sender (pos conn) (pos 0) (salt_bytes ++ text) in
      ((ffc_crypt (ffc_new key (not is_server)) (pos conn) (pos 1) sent.1).1 ≡ salt_bytes ++ text)
      × (take 8 sent.1 ≡ salt_bytes)
ffc_crypt_round_trip key salt_bytes text is_server conn hs bs bt hc =
    let k = new_keys key is_server in
    let keyw = (ffc_new key is_server).keyw tx in
    let sender = set_salt_stream keyw salt_bytes zero_stream in
    let sent = ffc_crypt-sent key salt_bytes (salt_bytes ++ text) is_server conn hc in
    let wire = (crypt_stream keyw sender (salt_bytes ++ text)).1 in
    rw sent (
      ffc_crypt-received key wire is_server conn hc
          ∙ (crypt_stream_round_trip keyw salt_bytes k.1 hs text bs bt).0,
      (crypt_stream_round_trip keyw salt_bytes k.1 hs text bs bt).1,
    )
