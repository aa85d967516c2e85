-- ===== src/Crypto/RoundTrip.antt =====
-- ffcrypto.c: what one end encrypts the other decrypts.
use ffrdp.Base.{ℕ, ◌+◌, ◌<◌, List, [], ◌∷◌, ◌++◌, ◌≡◌, refl, arith, ◌⊎◌, inl, inr}
use mathlib.Core.List.{append_assoc}
use ffrdp.Base.{length, false, ap, ap₂, ◌∙◌, sym, get_or, set}
use ffrdp.Base.Bits.{bit_xor_cancel}
use ffrdp.Crypto.Stream.{fresh, salt, body, Stream, refill, stream_next_block}
use ffrdp.Crypto.Context.{begin_salt, take_salt, set_salt_stream, write_at}
use ffrdp.Crypto.Bytes.{xor_step, xor_run}
use ffrdp.Crypto.Chunks.{crypt_run, crypt_run-append, crypt_run-body, take_salt-done}
use ffrdp.Crypto.Record.{crypt_run-record, crypt_run-begin, begin_salt-fresh}

-- Two streams that make the same keystream from here on.
pub record Agree (s r : Stream) : Type 0 where
  pub keyw : s.keyw ≡ r.keyw
  pub nonce : s.nonce ≡ r.nonce
  pub ctr : s.ctr ≡ r.ctr
  pub pos : s.pos ≡ r.pos
  pub ks : (s.pos ≡ 64) ⊎ (s.ks ≡ r.ks)

-- At the next byte their blocks are the same.
refill-Agree :
    (s r : Stream)
    → Agree s r
    → ((refill s).keyw ≡ (refill r).keyw)
      × ((refill s).nonce ≡ (refill r).nonce)
      × ((refill s).ctr ≡ (refill r).ctr)
      × ((refill s).pos ≡ (refill r).pos)
      × ((refill s).ks ≡ (refill r).ks)
unfolding refill stream_next_block
refill-Agree s r a = ground arith

xor_step-Agree :
    (s r : Stream) (x : ℕ)
    → Agree s r
    → Agree (xor_step s x).0 (xor_step r (xor_step s x).1).0 × ((xor_step r (xor_step s x).1).1 ≡ x)
unfolding xor_step
xor_step-Agree s r x a =
    let f = refill-Agree s r a in
    (
      record { keyw = f.0; nonce = f.1; ctr = f.2; pos = ap (λ (n : ℕ). n + 1) f.3; ks = inr f.4 },
      rw (f.3, f.4) (bit_xor_cancel x (get_or (refill r).ks (refill r).pos 0)),
    )

-- Applying the keystream twice gives the text back.
pub xor_run-Agree :
    (s r : Stream) (p : List ℕ)
    → Agree s r
    → Agree (xor_run s p).0 (xor_run r (xor_run s p).1).0 × ((xor_run r (xor_run s p).1).1 ≡ p)
unfolding xor_run
xor_run-Agree s r [] a = (a, refl)
xor_run-Agree s r (x ∷ p) a =
    let st = xor_step-Agree s r x a in
    let ih = xor_run-Agree (xor_step s x).0 (xor_step r (xor_step s x).1).0 p st.0 in
    (ih.0, ap₂ ◌∷◌ st.1 ih.1)

set-at-length :
    (pre h : List ℕ) (c b : ℕ) → set (pre ++ (c ∷ h)) (length pre) b ≡ (pre ++ (b ∷ [])) ++ h
set-at-length [] h c b = refl
set-at-length (x ∷ pre) h c b = ap (λ (t : List ℕ). x ∷ t) (set-at-length pre h c b)

length-snoc : (pre : List ℕ) (b : ℕ) → length pre + 1 ≡ length (pre ++ (b ∷ []))
length-snoc [] b = refl
length-snoc (x ∷ pre) b = omega (arith, length-snoc pre b)

write_at-full :
    (pre h p : List ℕ) → length h ≡ length p → write_at (pre ++ h) (length pre) p ≡ pre ++ p
unfolding write_at
write_at-full pre [] [] e = refl
write_at-full pre (c ∷ h) [] e = absurd (omega arith)
write_at-full pre [] (b ∷ p) e = absurd (omega arith)
write_at-full pre (c ∷ h) (b ∷ p) e =
    rw (set-at-length pre h c b, length-snoc pre b)
      (write_at-full (pre ++ (b ∷ [])) h p (omega arith) ∙ append_assoc pre (b ∷ []) p)

crypt_run-begin_any :
    (keyw : List ℕ) (s : Stream) (p : List ℕ)
    → 0 < length p
    → crypt_run keyw s p ≡ crypt_run keyw (begin_salt keyw s) p
crypt_run-begin_any keyw s [] h = absurd (omega arith)
crypt_run-begin_any keyw s (x ∷ p) h = crypt_run-begin keyw s x p

-- A new stream as `begin_salt` leaves it.
abbrev started : List ℕ → Stream → Stream
started keyw s = record s {
  keyw = keyw;
  phase = salt;
  left = 8;
  hpos = 0;
  live = false;
  pos = 64;
  ctr = 0;
}

-- The record of eight bytes passes through both ends, and both start the keystream of its salt.
-- `s` has been given the salt; `r` is a new stream.
module _ (keyw salt_bytes : List ℕ) (key_size : length keyw ≡ 8)
    (salt_size : length salt_bytes ≡ 8) where
  abbrev sender : Stream → Stream
  sender s = set_salt_stream keyw salt_bytes s

  sender_record :
      (s : Stream)
      → crypt_run keyw (sender s) salt_bytes ≡ (take_salt (sender s) salt_bytes, salt_bytes)
  unfolding set_salt_stream
  sender_record s =
      crypt_run-record keyw (sender s) salt_bytes refl refl (omega arith) (omega arith)

  receiver_record :
      (r : Stream)
      → r.phase ≡ fresh
      → crypt_run keyw r salt_bytes ≡ (take_salt (begin_salt keyw r) salt_bytes, salt_bytes)
  receiver_record r e =
      crypt_run-begin_any keyw r salt_bytes (omega arith)
      ∙ rw (begin_salt-fresh keyw r e)
          (crypt_run-record keyw (started keyw r) salt_bytes refl refl (omega arith) (omega arith))

  Agree-salt :
      (s r : Stream)
      → r.phase ≡ fresh
      → r.seeded ≡ false
      → length r.hsalt ≡ 8
      → Agree (take_salt (sender s) salt_bytes) (take_salt (begin_salt keyw r) salt_bytes)
  unfolding set_salt_stream
  Agree-salt s r e sd h =
      rw
        (
          begin_salt-fresh keyw r e,
          take_salt-done (sender s) salt_bytes refl salt_size,
          take_salt-done (started keyw r) salt_bytes refl salt_size,
        )
        (record {
          keyw = refl;
          nonce = rw sd (sym (write_at-full [] r.hsalt salt_bytes (omega arith)));
          ctr = refl;
          pos = refl;
          ks = inl refl;
        })

  -- A stream past its record takes the rest byte by byte.
  crypt_run-behind :
      (t t2 : Stream) (q : List ℕ)
      → crypt_run keyw t salt_bytes ≡ (t2, salt_bytes)
      → t2.phase ≡ body
      → (crypt_run keyw t (salt_bytes ++ q)).1 ≡ salt_bytes ++ (xor_run t2 q).1
  crypt_run-behind t t2 q h e =
      rw (crypt_run-append keyw t salt_bytes q, h, crypt_run-body keyw t2 q e)

  pub wire :
      (s : Stream) (p : List ℕ)
      → (crypt_run keyw (sender s) (salt_bytes ++ p)).1
        ≡ salt_bytes ++ (xor_run (take_salt (sender s) salt_bytes) p).1
  unfolding set_salt_stream
  wire s p =
      crypt_run-behind (sender s) (take_salt (sender s) salt_bytes) p (sender_record s)
        (rw (take_salt-done (sender s) salt_bytes refl salt_size))

  -- The text behind the record comes back, and the record is on the wire as it is.
  pub crypt_run_round_trip :
      (s r : Stream) (p : List ℕ)
      → r.phase ≡ fresh
      → r.seeded ≡ false
      → length r.hsalt ≡ 8
      → (crypt_run keyw r (crypt_run keyw (sender s) (salt_bytes ++ p)).1).1 ≡ salt_bytes ++ p
  crypt_run_round_trip s r p e sd h = rw (wire s p) (
      crypt_run-behind r (take_salt (begin_salt keyw r) salt_bytes)
        (xor_run (take_salt (sender s) salt_bytes) p).1 (receiver_record r e) received
      ∙ ap (λ (t : List ℕ). salt_bytes ++ t)
          (xor_run-Agree (take_salt (sender s) salt_bytes)
            (take_salt (begin_salt keyw r) salt_bytes) p (Agree-salt s r e sd h)).1)
    where
      received : (take_salt (begin_salt keyw r) salt_bytes).phase ≡ body
      received =
          rw (begin_salt-fresh keyw r e, take_salt-done (started keyw r) salt_bytes refl salt_size)
