-- ===== src/Crypto/Chunks.antt =====
-- ffcrypto.c, ffc_crypt past its guards: one byte at a time, and the salt record in one step.
use ffrdp.Base.{ℕ, suc, ◌+◌, ◌-◌, ◌≤◌, ◌<◌, List, [], ◌∷◌, ◌++◌, ◌≡◌, refl, arith}
use ffrdp.Base.{length}
use ffrdp.Base.{true, false, if◌then◌else◌, ap, ◌≢◌}
use ffrdp.Crypto.Stream.{Phase, fresh, salt, body, Stream, stream_arm, refill, stream_next_block}
use ffrdp.Crypto.Context.{keep_salt, end_salt, begin_salt, take_salt, enter_data, write_at}
use ffrdp.Crypto.Wide.{IsBytes}
use ffrdp.Crypto.Bytes.{xor_step, xor_run}

-- What holds in a phase: the counts of the salt record add up, and the keystream of a live stream
-- is in its bounds.
abbrev pub IsPhase : Phase → Stream → Type 0
IsPhase fresh s = Unit {0}
IsPhase salt s = (0 < s.left) × (s.hpos + s.left ≡ 8) × (s.live ≡ false)
IsPhase body s = (s.live ≡ true) × (s.pos ≤ 64)

pub record IsSound (s : Stream) : Type 0 where
  pub ks_size : length s.ks ≡ 64
  pub ks_bytes : IsBytes s.ks
  pub key_size : s.phase ≢ fresh → length s.keyw ≡ 8
  pub phase_ok : IsPhase s.phase s

-- One byte of ffc_crypt.
unfoldable pub crypt_step : List ℕ → Stream → ℕ → Stream × ℕ
crypt_step keyw s x =
    let s1 = begin_salt keyw s in
    elim s1.phase [ salt ↦ (take_salt s1 (x ∷ []), x) | _ ↦ xor_step s1 x ]

unfoldable pub crypt_run : List ℕ → Stream → List ℕ → Stream × List ℕ
crypt_run keyw s [] = (s, [])
crypt_run keyw s (x ∷ xs) =
    let r = crypt_step keyw s x in let q = crypt_run keyw r.0 xs in (q.0, r.1 ∷ q.1)

pub crypt_run-nil : (keyw : List ℕ) (s : Stream) → crypt_run keyw s [] ≡ (s, [])
unfolding crypt_run
crypt_run-nil keyw s = refl

pub crypt_run-append :
    (keyw : List ℕ) (s : Stream) (p q : List ℕ)
    → crypt_run keyw s (p ++ q) ≡ (
      (crypt_run keyw (crypt_run keyw s p).0 q).0,
      (crypt_run keyw s p).1 ++ (crypt_run keyw (crypt_run keyw s p).0 q).1,
    )
unfolding crypt_run
crypt_run-append keyw s [] q = refl
crypt_run-append keyw s (x ∷ p) q =
    ap (λ (r : Stream × List ℕ). (r.0, (crypt_step keyw s x).1 ∷ r.1))
      (crypt_run-append keyw (crypt_step keyw s x).0 p q)

pub crypt_step-body :
    (keyw : List ℕ) (s : Stream) (x : ℕ)
    → s.phase ≡ body
    → (crypt_step keyw s x ≡ xor_step s x) × ((xor_step s x).0.phase ≡ body)
unfolding crypt_step begin_salt xor_step refill stream_next_block
crypt_step-body keyw s x e = ground arith

-- In the data phase a byte is a byte of the keystream.
pub crypt_run-body :
    (keyw : List ℕ) (s : Stream) (p : List ℕ) → s.phase ≡ body → crypt_run keyw s p ≡ xor_run s p
unfolding crypt_run xor_run
crypt_run-body keyw s [] e = refl
crypt_run-body keyw s (x ∷ p) e =
    let st = crypt_step-body keyw s x e in rw (st.0, crypt_run-body keyw (xor_step s x).0 p st.1)

-- The counters of a salt record, while the record is not longer than what is left of it.
keep_salt-lem :
    (s : Stream) (p : List ℕ)
    → s.hpos + s.left ≡ 8
    → length p ≤ s.left
    → keep_salt s p ≡ record s {
      hsalt = write_at s.hsalt s.hpos p;
      hpos = s.hpos + length p;
      left = s.left - length p;
    }
unfolding keep_salt
keep_salt-lem s p e h = ground arith

-- A byte of a record that goes on.
pub take_salt-keeps :
    (s : Stream) (x : ℕ)
    → s.hpos + s.left ≡ 8
    → 1 < s.left
    → take_salt s (x ∷ [])
      ≡ record s { hsalt = write_at s.hsalt s.hpos (x ∷ []); hpos = s.hpos + 1; left = s.left - 1 }
unfolding take_salt end_salt
take_salt-keeps s x hs h = rw (keep_salt-lem s (x ∷ []) hs (omega arith)) (ground arith)

-- A byte of salt that is not the last, and then the rest.
take_salt-cons :
    (s : Stream) (x y : ℕ) (p : List ℕ)
    → s.hpos + s.left ≡ 8
    → suc (suc (length p)) ≤ s.left
    → take_salt s (x ∷ y ∷ p) ≡ take_salt (take_salt s (x ∷ [])) (y ∷ p)
unfolding take_salt write_at
take_salt-cons s x y p e h =
    let s1 = record s {
      hsalt = write_at s.hsalt s.hpos (x ∷ []);
      hpos = s.hpos + 1;
      left = s.left - 1;
    } in
    let first : take_salt s (x ∷ []) ≡ s1 = take_salt-keeps s x e (omega arith) in
    rw
      (first, keep_salt-lem s (x ∷ y ∷ p) e h, keep_salt-lem s1 (y ∷ p) (omega arith) (omega arith))
      (ap end_salt (ground arith))

take_salt-salt :
    (s : Stream) (x : ℕ)
    → s.phase ≡ salt
    → s.hpos + s.left ≡ 8
    → 1 < s.left
    → ((take_salt s (x ∷ [])).phase ≡ salt)
      × ((take_salt s (x ∷ [])).hpos ≡ s.hpos + 1)
      × ((take_salt s (x ∷ [])).left ≡ s.left - 1)
take_salt-salt s x e hs h = rw (take_salt-keeps s x hs h) (e, refl, refl)

pub crypt_step-salt :
    (keyw : List ℕ) (s : Stream) (x : ℕ)
    → s.phase ≡ salt
    → crypt_step keyw s x ≡ (take_salt s (x ∷ []), x)
unfolding crypt_step begin_salt
crypt_step-salt keyw s x e = ground arith

-- Within the salt record the run keeps the bytes and passes them on.
pub crypt_run-salt :
    (keyw : List ℕ) (s : Stream) (x : ℕ) (p : List ℕ)
    → s.phase ≡ salt
    → s.hpos + s.left ≡ 8
    → suc (length p) ≤ s.left
    → crypt_run keyw s (x ∷ p) ≡ (take_salt s (x ∷ p), x ∷ p)
unfolding crypt_run
crypt_run-salt keyw s x [] e hs h = rw (crypt_step-salt keyw s x e)
crypt_run-salt keyw s x (y ∷ p) e hs h =
    let s1 = take_salt-salt s x e hs (omega arith) in
    rw (crypt_step-salt keyw s x e, take_salt-cons s x y p hs h)
      (ap (λ (r : Stream × List ℕ). (r.0, x ∷ r.1))
        (crypt_run-salt keyw (take_salt s (x ∷ [])) y p s1.0 (omega (arith, s1.1, s1.2))
          (omega (arith, s1.2))))

-- A complete record starts the keystream at its first block.
pub take_salt-done :
    (s : Stream) (p : List ℕ)
    → s.hpos + s.left ≡ 8
    → length p ≡ s.left
    → take_salt s p ≡ record s {
      hsalt = write_at s.hsalt s.hpos p;
      hpos = 8;
      left = 0;
      nonce = if s.seeded then s.nonce else write_at s.hsalt s.hpos p;
      phase = body;
      live = true;
      pos = 64;
      ctr = 0;
    }
unfolding take_salt end_salt enter_data stream_arm
take_salt-done s p hs h = rw (keep_salt-lem s p hs (omega arith)) (ground arith)
