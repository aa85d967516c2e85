-- ===== src/Crypto/Tests.antt =====
-- Runs of the cipher, and the theorems at concrete inputs.
use ffrdp.Base.{ℕ, List, [], ◌∷◌, ◌++◌, ◌≡◌, refl, arith, true, false, replicate, take}
use ffrdp.Base.Int.{pos}
use ffrdp.Crypto.Stream.{Stream, body, stream_xor}
use ffrdp.Crypto.Context.{zero_stream, ffc_new, ffc_set_salt, ffc_crypt, crypt_stream}
use ffrdp.Crypto.Bytes.{xor_run, stream_xor-eq-xor_run}
use ffrdp.Crypto.Invariant.{crypt_stream-append}
use ffrdp.Crypto.Ends.{ffc_crypt_round_trip, zero_stream-IsSound}
use ffrdp.Crypto.Block.{chacha20_block, rounds, double_round, qr_at, quarter_round, add_words}

-- selftest_block: the block test vector of RFC 8439.
abbrev rfc_state : List ℕ
rfc_state =
    0x61707865 ∷ 0x3320646e ∷ 0x79622d32 ∷ 0x6b206574 ∷ 0x03020100 ∷ 0x07060504 ∷ 0x0b0a0908
    ∷ 0x0f0e0d0c ∷ 0x13121110 ∷ 0x17161514 ∷ 0x1b1a1918 ∷ 0x1f1e1d1c ∷ 1 ∷ 0x09000000 ∷ 0x4a000000
    ∷ 0 ∷ []

rfc_block :
    chacha20_block rfc_state
    ≡ 0xe4e7f110 ∷ 0x15593bd1 ∷ 0x1fdd0f50 ∷ 0xc47120a3 ∷ 0xc7f4d1c7 ∷ 0x0368c033 ∷ 0x9aaa2204
      ∷ 0x4e6cd4c3 ∷ 0x466482d2 ∷ 0x09aa9f07 ∷ 0x05d7c214 ∷ 0xa2028bd9 ∷ 0xd19c12b5 ∷ 0xb94e16de
      ∷ 0xe883d0cb ∷ 0x4e3c50a2 ∷ []
unfolding chacha20_block rounds double_round qr_at quarter_round add_words
rfc_block = refl

-- A key, a salt and a text; the theorems apply to them.
abbrev key : List ℕ
key = replicate 32 7

abbrev salt_bytes : List ℕ
salt_bytes = 1 ∷ 2 ∷ 3 ∷ 4 ∷ 5 ∷ 6 ∷ 7 ∷ 8 ∷ []

abbrev text : List ℕ
text = 104 ∷ 101 ∷ 108 ∷ 108 ∷ 111 ∷ []

abbrev key_list : List ℕ
key_list = 1 ∷ 2 ∷ 3 ∷ 4 ∷ 5 ∷ 6 ∷ 7 ∷ 8 ∷ []

-- A stream with a block of zero bytes of which two are left.
abbrev ready : Stream
ready = record {
  keyw = key_list;
  nonce = salt_bytes;
  ks = replicate 64 0;
  ctr = 0;
  pos = 62;
  live = true;
  phase = body;
  seeded = false;
  left = 0;
  hpos = 8;
  hsalt = salt_bytes;
}

ffc_crypt_round_trip_example :
    let sender = ffc_set_salt (ffc_new key true) (pos 3) (pos 0) salt_bytes in
    let sent = ffc_crypt sender (pos 3) (pos 0) (salt_bytes ++ text) in
    ((ffc_crypt (ffc_new key false) (pos 3) (pos 1) sent.1).1 ≡ salt_bytes ++ text)
    × (take 8 sent.1 ≡ salt_bytes)
ffc_crypt_round_trip_example =
    ffc_crypt_round_trip key salt_bytes text true 3 refl (omega arith) (omega arith) (omega arith)

crypt_stream-append_example :
    let (s1, o1) = crypt_stream key_list zero_stream text in
    let (s2, o2) = crypt_stream key_list s1 salt_bytes in
    crypt_stream key_list zero_stream (text ++ salt_bytes) ≡ (s2, o1 ++ o2)
crypt_stream-append_example =
    crypt_stream-append key_list zero_stream text salt_bytes refl zero_stream-IsSound.0
      (omega arith) (omega arith)

stream_xor-eq-xor_run_example : stream_xor ready text ≡ xor_run ready text
stream_xor-eq-xor_run_example =
    stream_xor-eq-xor_run ready text
      (record { key_size = refl; ks_size = refl; ks_bytes = omega arith; pos_in = omega arith })
      (omega arith)
