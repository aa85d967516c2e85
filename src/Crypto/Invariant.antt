-- ===== src/Crypto/Invariant.antt =====
-- ffcrypto.c: ffc_crypt keeps a stream sound, and maps bytes to bytes.
use ffrdp.Base.{ℕ, zero, suc, ◌≤◌, ◌<◌, List, [], ◌∷◌, ◌++◌, ◌≡◌, refl, arith}
use ffrdp.Base.{length, true, ◌∙◌, sym, ◌≢◌, dec_lt, get_or}
use ffrdp.Base.Bits.{bit_xor-lt}
use ffrdp.Crypto.Stream.{Phase, fresh, salt, body, Stream, refill, stream_next_block}
use ffrdp.Crypto.Context.{begin_salt, take_salt, crypt_stream}
use ffrdp.Crypto.Wide.{IsBytes, IsBytes-append}
use ffrdp.Crypto.Bytes.{IsReady, xor_step, refill-IsReady}
use ffrdp.Crypto.Chunks.{IsPhase, IsSound, crypt_step, crypt_run}
use ffrdp.Crypto.Record.{begin_salt-IsSound, crypt_step-begin}
use ffrdp.Crypto.Chunks.{crypt_step-body, crypt_step-salt, take_salt-keeps, crypt_run-append}
use ffrdp.Crypto.Record.{take_salt-IsReady, crypt_stream-eq-crypt_run}

get_or-byte : (xs : List ℕ) (i : ℕ) → IsBytes xs → get_or xs i 0 < 256
get_or-byte [] i h = omega arith
get_or-byte (x ∷ xs) zero h = h.0
get_or-byte (x ∷ xs) (suc i) h = get_or-byte xs i h.1

refill-live : (s : Stream) → (refill s).live ≡ s.live
unfolding refill stream_next_block
refill-live s = ground arith

-- A byte of the keystream keeps the bounds of the stream, and gives a byte.
pub xor_step-IsReady :
    (s : Stream) (x : ℕ)
    → IsReady s
    → x < 256
    → IsReady (xor_step s x).0 × ((xor_step s x).0.live ≡ s.live) × ((xor_step s x).1 < 256)
unfolding xor_step
xor_step-IsReady s x v h =
    let r = refill-IsReady v in
    (
      record {
        key_size = r.0.key_size;
        ks_size = r.0.ks_size;
        ks_bytes = r.0.ks_bytes;
        pos_in = omega (arith, r.1);
      },
      refill-live s,
      bit_xor-lt 8 x (get_or (refill s).ks (refill s).pos 0) h
          (get_or-byte (refill s).ks (refill s).pos r.0.ks_bytes),
    )

step_body :
    (keyw : List ℕ) (s : Stream) (x : ℕ)
    → IsSound s
    → s.phase ≡ body
    → s.live ≡ true
    → s.pos ≤ 64
    → x < 256
    → IsSound (crypt_step keyw s x).0 × ((crypt_step keyw s x).1 < 256)
step_body keyw s x v e l h b =
    let st = crypt_step-body keyw s x e in
    let r =
      xor_step-IsReady s x
        (record {
          key_size = v.key_size (λ q. cc);
          ks_size = v.ks_size;
          ks_bytes = v.ks_bytes;
          pos_in = h;
        })
        b in
    rw st.0 (
      record {
        ks_size = r.0.ks_size;
        ks_bytes = r.0.ks_bytes;
        key_size = λ _. r.0.key_size;
        phase_ok = rw st.1 (r.1 ∙ l, r.0.pos_in);
      },
      r.2,
    )

step_salt :
    (keyw : List ℕ) (s : Stream) (x : ℕ)
    → IsSound s
    → s.phase ≡ salt
    → IsPhase salt s
    → x < 256
    → IsSound (crypt_step keyw s x).0 × ((crypt_step keyw s x).1 < 256)
step_salt keyw s x v e k b = rw (crypt_step-salt keyw s x e) (sound, b)
  where
    last : s.left ≡ 1 → IsSound (take_salt s (x ∷ []))
    last one =
        let r = take_salt-IsReady s (x ∷ []) v e k.1 (sym one) in
        record {
          ks_size = r.0.ks_size;
          ks_bytes = r.0.ks_bytes;
          key_size = λ _. r.0.key_size;
          phase_ok = rw r.1 (r.2, r.0.pos_in);
        }

    more : 1 < s.left → IsSound (take_salt s (x ∷ []))
    more h = rw (take_salt-keeps s x k.1 h) (record {
      ks_size = v.ks_size;
      ks_bytes = v.ks_bytes;
      key_size = v.key_size;
      phase_ok = rw e (omega arith, omega arith, k.2);
    })

    sound : IsSound (take_salt s (x ∷ []))
    sound = elim (dec_lt 1 s.left) [ yes h ↦ more h | no h ↦ last (omega arith) ]

-- A byte of ffc_crypt leaves the stream sound, and is a byte again.
pub crypt_step-IsSound :
    (keyw : List ℕ) (s : Stream) (x : ℕ)
    → length keyw ≡ 8
    → IsSound s
    → x < 256
    → IsSound (crypt_step keyw s x).0 × ((crypt_step keyw s x).1 < 256)
crypt_step-IsSound keyw s x h v b =
    let w = begin_salt-IsSound keyw s h v in
    rw (crypt_step-begin keyw s x) (go (begin_salt keyw s).phase refl w.0 w.1 w.0.phase_ok)
  where
    t : Stream
    t = begin_salt keyw s

    go :
        (ph : Phase)
        → t.phase ≡ ph
        → IsSound t
        → t.phase ≢ fresh
        → IsPhase ph t
        → IsSound (crypt_step keyw t x).0 × ((crypt_step keyw t x).1 < 256)
    go fresh e w ne k = absurd (ne e)
    go salt e w ne k = step_salt keyw t x w e k b
    go body e w ne k = step_body keyw t x w e k.0 k.1 b

pub crypt_run-IsSound :
    (keyw : List ℕ) (s : Stream) (p : List ℕ)
    → length keyw ≡ 8
    → IsSound s
    → IsBytes p
    → IsSound (crypt_run keyw s p).0 × IsBytes (crypt_run keyw s p).1
unfolding crypt_run
crypt_run-IsSound keyw s [] h v b = (v, tt)
crypt_run-IsSound keyw s (x ∷ p) h v b =
    let st = crypt_step-IsSound keyw s x h v b.0 in
    let ih = crypt_run-IsSound keyw (crypt_step keyw s x).0 p h st.0 b.1 in (ih.0, (st.1, ih.1))

pub crypt_stream-IsSound :
    (keyw : List ℕ) (s : Stream) (p : List ℕ)
    → length keyw ≡ 8
    → IsSound s
    → IsBytes p
    → IsSound (crypt_stream keyw s p).0 × IsBytes (crypt_stream keyw s p).1
crypt_stream-IsSound keyw s p h v b =
    rw (crypt_stream-eq-crypt_run keyw s p h v b) (crypt_run-IsSound keyw s p h v b)

-- On a sound stream and bytes, one call of ffc_crypt on the buffer `p ++ q` leaves the stream and
-- the buffer as a call on `p` followed by a call on `q` does, wherever the salt record and the
-- 64-byte blocks end.
pub crypt_stream-append :
    (keyw : List ℕ) (s : Stream) (p q : List ℕ)
    → length keyw ≡ 8
    → IsSound s
    → IsBytes p
    → IsBytes q
    → let (s1, o1) = crypt_stream keyw s p in
      let (s2, o2) = crypt_stream keyw s1 q in crypt_stream keyw s (p ++ q) ≡ (s2, o1 ++ o2)
crypt_stream-append keyw s p q h v bp bq =
    let r = crypt_stream-eq-crypt_run keyw s p h v bp in
    let w = crypt_run-IsSound keyw s p h v bp in
    rw
      (
        r,
        crypt_stream-eq-crypt_run keyw (crypt_run keyw s p).0 q h w.0 bq,
        crypt_stream-eq-crypt_run keyw s (p ++ q) h v (IsBytes-append p q bp bq),
      )
      (crypt_run-append keyw s p q)
