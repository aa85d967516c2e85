-- ===== src/Snd/Frames.antt =====
-- ffrdp.c, the send ring: when it is well formed, and what it means that bytes were framed in it.
use mathlib.Core.List.{append_assoc, append-nil}
use ffrdp.Base.{ℕ, zero, suc, ◌+◌, ◌%◌, ◌^◌, ◌≤◌, ◌<◌, ◌≡◌, refl, arith, sym, ap, ◌∙◌}
use ffrdp.Base.{List, [], ◌++◌, Option, none, some, length, take, false}
use ffrdp.Base.{add32, sub32}
use ffrdp.Snd.{Snd, filling}

-- The frames in the ring, the holes between them included: `send_seq - snd_first`.
abbrev pub span : Snd → ℕ
span c = sub32 c.send_seq c.snd_first

-- The bytes that wait in the slot being filled.
unfoldable pub partial : Snd → List ℕ
partial c = elim c.cur_new_node [ none ↦ [] | some i ↦ take c.cur_new_size (c.slots i).body ]

-- The slot being filled is the next one; it is in the ring's bounds and not full.
unfoldable pub IsFilling : Option ℕ → Snd → Type 0
IsFilling none c = Unit {0}
IsFilling (some i) c =
    (i ≡ c.send_seq % 64)
    × (span c < 64)
    × (c.cur_new_size < c.smss)
    × (length (c.slots i).body ≡ c.cur_new_size)

-- The send ring is well formed: its numbers span 64 slots at most, and the slots past `send_seq`
-- are free.
pub record IsValid (c : Snd) : Type 0 where
  pub mss_pos : 0 < c.smss
  pub seq_word : c.send_seq < 2 ^ 32
  pub first_word : c.snd_first < 2 ^ 32
  pub span_max : span c ≤ 64
  pub fill : IsFilling c.cur_new_node c
  pub free :
      (k : ℕ)
      → filling c.cur_new_node ≤ k
      → span c + k < 64
      → (c.slots ((c.send_seq + k) % 64)).used ≡ false

module _ (decrypt : ℕ → List ℕ → List ℕ) where
  -- What the receiver makes of `n` frames from number `seq` on.
  unfoldable pub texts : Snd → ℕ → ℕ → List ℕ
  texts c seq zero = []
  texts c seq (suc n) = decrypt seq (c.slots (seq % 64)).body ++ texts c (add32 seq 1) n

  -- `c'` comes from `c` by framing `text`: the frames that were in the ring are where they were, and
  -- the new frames, decrypted, and the bytes that wait now are the bytes that waited and the text.
  pub record Framed (c c' : Snd) (text : List ℕ) : Type 0 where
    pub valid : IsValid c'
    pub first : c'.snd_first ≡ c.snd_first
    pub mss : c'.smss ≡ c.smss
    pub kept :
        (j : ℕ) → j < span c → c'.slots ((c.snd_first + j) % 64) ≡ c.slots ((c.snd_first + j) % 64)
    pub frames : ℕ
    pub wider : span c' ≡ span c + frames
    pub next_seq : c'.send_seq ≡ add32 c.send_seq frames
    pub bytes : texts c' c.send_seq frames ++ partial c' ≡ partial c ++ text

  pub texts-append :
      (c : Snd) (seq n m : ℕ)
      → seq < 2 ^ 32
      → texts c seq (n + m) ≡ texts c seq n ++ texts c (add32 seq n) m
  unfolding texts
  texts-append c seq zero m h =
      let e : 0 + m ≡ m = omega arith in let e' : add32 seq 0 ≡ seq = omega arith in rw (e, e') refl
  texts-append c seq (suc n) m h =
      let more : suc n + m ≡ suc (n + m) = omega arith in
      let next : add32 (add32 seq 1) n ≡ add32 seq (suc n) = omega arith in
      let ih = texts-append c (add32 seq 1) n m (omega arith) in
      let d = decrypt seq (c.slots (seq % 64)).body in
      rw (more, ← next)
        (ap (λ (t : List ℕ). d ++ t) ih
          ∙ sym (append_assoc d (texts c (add32 seq 1) n) (texts c (add32 (add32 seq 1) n) m)))

  texts_step :
      (c c' : Snd) (seq j : ℕ)
      → c'.slots ((seq + suc j) % 64) ≡ c.slots ((seq + suc j) % 64)
      → c'.slots ((add32 seq 1 + j) % 64) ≡ c.slots ((add32 seq 1 + j) % 64)
  texts_step c c' seq j h =
      let e : (add32 seq 1 + j) % 64 ≡ (seq + suc j) % 64 = omega arith in rw e h

  texts_cong :
      (c c' : Snd) (seq n : ℕ)
      → ((j : ℕ) → j < n → c'.slots ((seq + j) % 64) ≡ c.slots ((seq + j) % 64))
      → texts c' seq n ≡ texts c seq n
  unfolding texts
  texts_cong c c' seq zero h = refl
  texts_cong c c' seq (suc n) h =
      let at : seq % 64 ≡ (seq + 0) % 64 = omega arith in
      let here : c'.slots (seq % 64) ≡ c.slots (seq % 64) = rw at (h 0 (omega arith)) in
      let ih =
        texts_cong c c' (add32 seq 1) n (λ j lt. texts_step c c' seq j (h (suc j) (omega arith))) in
      rw (here, ih) refl

  pub Framed-trans :
      {c c1 c2 : Snd} {t u : List ℕ}
      → IsValid c
      → Framed c c1 t
      → Framed c1 c2 u
      → Framed c c2 (t ++ u)
  Framed-trans {c} {c1} {c2} {t} {u} v f g = record {
    valid = g.valid;
    first = g.first ∙ f.first;
    mss = g.mss ∙ f.mss;
    kept = λ j lt. (rw f.first at g.kept j (omega (arith, f.wider))) ∙ f.kept j lt;
    frames = f.frames + g.frames;
    wider = omega (arith, f.wider, g.wider);
    next_seq = omega (arith, f.next_seq, g.next_seq);
    bytes =
        rw
          (
            texts-append c2 c.send_seq f.frames g.frames v.seq_word,
            ← f.next_seq,
            append_assoc (texts c2 c.send_seq f.frames) (texts c2 c1.send_seq g.frames)
                (partial c2),
            g.bytes,
            old,
            ← append_assoc (texts c1 c.send_seq f.frames) (partial c1) u,
            f.bytes,
          )
          (append_assoc (partial c) t u);
  }
    where
      old : texts c2 c.send_seq f.frames ≡ texts c1 c.send_seq f.frames
      old = texts_cong c1 c2 c.send_seq f.frames (λ j lt.
          let i = span c + j in
          let e : (c.send_seq + j) % 64 ≡ (c1.snd_first + (span c + j)) % 64 =
            omega (arith, f.first, v.seq_word, v.first_word) in
          rw e (g.kept i (omega (arith, f.wider))))

  pub Framed-eq : {c c' : Snd} {t u : List ℕ} → t ≡ u → Framed c c' t → Framed c c' u
  Framed-eq e f = rw (← e) f

  pub Framed-refl : (c : Snd) → IsValid c → Framed c c []
  unfolding texts partial
  Framed-refl c v = record {
    valid = v;
    first = refl;
    mss = refl;
    kept = λ j lt. refl;
    frames = 0;
    wider = omega arith;
    next_seq = omega (arith, v.seq_word);
    bytes = sym (append-nil (partial c));
  }
