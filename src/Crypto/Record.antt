-- ===== src/Crypto/Record.antt =====
-- ffcrypto.c, ffc_crypt past its guards: a call on a buffer, the salt record first, is a run byte
-- by byte.
use ffrdp.Base.{ℕ, suc, ◌+◌, ◌≤◌, ◌<◌, List, [], ◌∷◌, ◌++◌, ◌≡◌, refl, arith}
use ffrdp.Base.{length, take, drop, length-take, take-append-drop, take-all}
use ffrdp.Base.{true, false, ap, ◌∙◌, sym, ◌≢◌, dec_le}
use ffrdp.Crypto.Stream.{Phase, fresh, salt, body, Stream, stream_xor}
use ffrdp.Crypto.Context.{crypt_begun, begin_salt, take_salt, crypt_data, crypt_stream}
use ffrdp.Crypto.Wide.{IsBytes, IsBytes-drop}
use ffrdp.Crypto.Bytes.{IsReady, xor_step, stream_xor-eq-xor_run}
use ffrdp.Crypto.Chunks.{
  IsPhase, IsSound, crypt_step, crypt_run, crypt_run-nil, crypt_run-append, crypt_run-body,
  crypt_run-salt, take_salt-done,
}

pub begin_salt-fresh :
    (keyw : List ℕ) (s : Stream)
    → s.phase ≡ fresh
    → begin_salt keyw s
      ≡ record s { keyw = keyw; phase = salt; left = 8; hpos = 0; live = false; pos = 64; ctr = 0 }
unfolding begin_salt
begin_salt-fresh keyw s e = ground arith

begin_salt-id : (keyw : List ℕ) (s : Stream) → s.phase ≢ fresh → begin_salt keyw s ≡ s
unfolding begin_salt
begin_salt-id keyw s ne = ground arith

-- What ffc_crypt works on after the test of the phase is sound, and not new.
pub begin_salt-IsSound :
    (keyw : List ℕ) (s : Stream)
    → length keyw ≡ 8
    → IsSound s
    → IsSound (begin_salt keyw s) × ((begin_salt keyw s).phase ≢ fresh)
begin_salt-IsSound keyw s h v = go s.phase refl
  where
    stays : s.phase ≢ fresh → IsSound (begin_salt keyw s) × ((begin_salt keyw s).phase ≢ fresh)
    stays ne = rw (begin_salt-id keyw s ne) (v, ne)

    go :
        (ph : Phase)
        → s.phase ≡ ph
        → IsSound (begin_salt keyw s) × ((begin_salt keyw s).phase ≢ fresh)
    go fresh e = rw (begin_salt-fresh keyw s e) (
      record {
        ks_size = v.ks_size;
        ks_bytes = v.ks_bytes;
        key_size = λ _. h;
        phase_ok = (omega arith, omega arith, refl);
      },
      λ q. cc,
    )
    go salt e = stays (λ q. cc)
    go body e = stays (λ q. cc)

begin_salt_twice :
    (keyw : List ℕ) (s : Stream) → begin_salt keyw (begin_salt keyw s) ≡ begin_salt keyw s
unfolding begin_salt
begin_salt_twice keyw s = ground arith

pub crypt_step-begin :
    (keyw : List ℕ) (s : Stream) (x : ℕ)
    → crypt_step keyw s x ≡ crypt_step keyw (begin_salt keyw s) x
unfolding crypt_step
crypt_step-begin keyw s x =
    ap
      (λ (t : Stream).
        let r : Stream × ℕ = elim t.phase [ salt ↦ (take_salt t (x ∷ []), x) | _ ↦ xor_step t x ] in
        r)
      (sym (begin_salt_twice keyw s))

pub crypt_run-begin :
    (keyw : List ℕ) (s : Stream) (x : ℕ) (p : List ℕ)
    → crypt_run keyw s (x ∷ p) ≡ crypt_run keyw (begin_salt keyw s) (x ∷ p)
unfolding crypt_run
crypt_run-begin keyw s x p =
    ap (λ (r : Stream × ℕ). let q = crypt_run keyw r.0 p in (q.0, r.1 ∷ q.1))
      (crypt_step-begin keyw s x)

-- In the data phase.
crypt_begun-body :
    (s : Stream) (x : ℕ) (p : List ℕ)
    → s.phase ≡ body
    → s.live ≡ true
    → crypt_begun s (x ∷ p) ≡ stream_xor s (x ∷ p)
unfolding crypt_begun crypt_data
crypt_begun-body s x p e l = ground arith

-- In the salt phase, as long as the record is not complete, and past its end.
crypt_begun-salt :
    (s : Stream) (x : ℕ) (p : List ℕ)
    → s.phase ≡ salt
    → suc (length p) ≤ s.left
    → crypt_begun s (x ∷ p) ≡ (take_salt s (x ∷ p), x ∷ p)
unfolding crypt_begun
crypt_begun-salt s x p e h =
    let whole = take-all (suc (length p)) (x ∷ p) (omega arith) in ground (arith, whole)

crypt_begun-past :
    (s : Stream) (x : ℕ) (p : List ℕ)
    → s.phase ≡ salt
    → s.left ≤ length p
    → crypt_begun s (x ∷ p) ≡ (
      (crypt_data (take_salt s (take s.left (x ∷ p))) (drop s.left (x ∷ p))).0,
      take s.left (x ∷ p)
          ++ (crypt_data (take_salt s (take s.left (x ∷ p))) (drop s.left (x ∷ p))).1,
    )
unfolding crypt_begun
crypt_begun-past s x p e h = ground arith

pub crypt_run-record :
    (keyw : List ℕ) (s : Stream) (p : List ℕ)
    → s.phase ≡ salt
    → s.hpos + s.left ≡ 8
    → 0 < length p
    → length p ≤ s.left
    → crypt_run keyw s p ≡ (take_salt s p, p)
crypt_run-record keyw s [] e hs z h = absurd (omega arith)
crypt_run-record keyw s (x ∷ p) e hs z h = crypt_run-salt keyw s x p e hs h

crypt_data-live : (s : Stream) (p : List ℕ) → s.live ≡ true → crypt_data s p ≡ stream_xor s p
unfolding crypt_data
crypt_data-live s p e = rw e

-- After a complete record the stream is live, ready and in the data phase.
pub take_salt-IsReady :
    (s : Stream) (p : List ℕ)
    → IsSound s
    → s.phase ≡ salt
    → s.hpos + s.left ≡ 8
    → length p ≡ s.left
    → IsReady (take_salt s p) × ((take_salt s p).phase ≡ body) × ((take_salt s p).live ≡ true)
take_salt-IsReady s p v e hs h = rw (take_salt-done s p hs h) (
  record {
    key_size = v.key_size (λ q. cc);
    ks_size = v.ks_size;
    ks_bytes = v.ks_bytes;
    pos_in = omega arith;
  },
  refl,
  refl,
)

-- A call that brings the end of the salt record and bytes of the text.
crypt_begun-eq-crypt_run_past :
    (keyw : List ℕ) (s : Stream) (x : ℕ) (p : List ℕ)
    → IsSound s
    → s.phase ≡ salt
    → 0 < s.left
    → s.hpos + s.left ≡ 8
    → s.left ≤ length p
    → IsBytes (x ∷ p)
    → crypt_begun s (x ∷ p) ≡ crypt_run keyw s (x ∷ p)
crypt_begun-eq-crypt_run_past keyw s x p v e pos hs h b =
    crypt_begun-past s x p e h
    ∙ ap (λ (r : Stream × List ℕ). (r.0, a ++ r.1)) data_run
    ∙ sym (
        ap (crypt_run keyw s) (sym (take-append-drop s.left (x ∷ p)))
        ∙ crypt_run-append keyw s a z
        ∙ ap (λ (r : Stream × List ℕ). ((crypt_run keyw r.0 z).0, r.1 ++ (crypt_run keyw r.0 z).1))
            (crypt_run-record keyw s a e hs (omega (arith, size)) (omega (arith, size))))
  where
    a : List ℕ
    a = take s.left (x ∷ p)

    z : List ℕ
    z = drop s.left (x ∷ p)

    size : length a ≡ s.left
    size = omega (arith, length-take s.left (x ∷ p))

    done : IsReady (take_salt s a) × ((take_salt s a).phase ≡ body) × ((take_salt s a).live ≡ true)
    done = take_salt-IsReady s a v e hs size

    data_run : crypt_data (take_salt s a) z ≡ crypt_run keyw (take_salt s a) z
    data_run =
        crypt_data-live (take_salt s a) z done.2
        ∙ stream_xor-eq-xor_run (take_salt s a) z done.0 (IsBytes-drop s.left (x ∷ p) b)
        ∙ sym (crypt_run-body keyw (take_salt s a) z done.1)

-- The two agree on a stream that is past its start.
crypt_begun-eq-crypt_run :
    (keyw : List ℕ) (s : Stream) (x : ℕ) (p : List ℕ)
    → IsSound s
    → s.phase ≢ fresh
    → IsBytes (x ∷ p)
    → crypt_begun s (x ∷ p) ≡ crypt_run keyw s (x ∷ p)
crypt_begun-eq-crypt_run keyw s x p v ne b = go s.phase refl v.phase_ok
  where
    go :
        (ph : Phase)
        → s.phase ≡ ph
        → IsPhase ph s
        → crypt_begun s (x ∷ p) ≡ crypt_run keyw s (x ∷ p)
    go fresh e k = absurd (ne e)
    go body e k =
        crypt_begun-body s x p e k.0
        ∙ stream_xor-eq-xor_run s (x ∷ p)
            (record {
              key_size = v.key_size ne;
              ks_size = v.ks_size;
              ks_bytes = v.ks_bytes;
              pos_in = k.1;
            })
            b
        ∙ sym (crypt_run-body keyw s (x ∷ p) e)
    go salt e k = elim (dec_le (suc (length p)) s.left) [
      | yes short ↦ crypt_begun-salt s x p e short ∙ sym (crypt_run-salt keyw s x p e k.1 short)
      | no long ↦ crypt_begun-eq-crypt_run_past keyw s x p v e k.0 k.1 (omega arith) b
    ]

-- ffc_crypt past its guards is a run of one byte after the other, on a sound stream.
pub crypt_stream-eq-crypt_run :
    (keyw : List ℕ) (s : Stream) (p : List ℕ)
    → length keyw ≡ 8
    → IsSound s
    → IsBytes p
    → crypt_stream keyw s p ≡ crypt_run keyw s p
unfolding crypt_stream
crypt_stream-eq-crypt_run keyw s [] h v b = sym (crypt_run-nil keyw s)
crypt_stream-eq-crypt_run keyw s (x ∷ p) h v b =
    let w = begin_salt-IsSound keyw s h v in
    crypt_begun-eq-crypt_run keyw (begin_salt keyw s) x p w.0 w.1 b
    ∙ sym (crypt_run-begin keyw s x p)
