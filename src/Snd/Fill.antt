-- ===== src/Snd/Fill.antt =====
-- ffrdp.c, ffrdp_frame_message: opening a slot, and writing a chunk into it.
use mathlib.Core.List.{append-nil}
use ffrdp.Base.{ℕ, suc, ◌+◌, ◌%◌, ◌<◌, ◌≡◌, refl, arith, ◌∙◌}
use ffrdp.Base.{List, [], ◌++◌, none, some, length, take, true, false}
use ffrdp.Base.{length-append, length-take, take-all, add32, u16, ◌==◌}
use ffrdp.Slot.{slot_reset, set_frame_seq, type_full}
use ffrdp.Snd.{Snd, put_slot, open_slot, write_chunk, snd_insert, frame_encrypt}
use ffrdp.Snd.Frames.{span, partial, IsFilling, IsValid, texts, Framed}

-- open_slot where no slot is being filled.
unfoldable pub opened : Snd → Snd
opened c =
    let i = c.send_seq % 64 in
    let fresh = set_frame_seq (slot_reset (c.slots i) type_full (u16 (4 + c.smss))) c.send_seq in
    record (put_slot c i (record fresh { fill = true })) { cur_new_node = some i; cur_new_size = 0 }

pub open_slot-opened :
    (c : Snd)
    → c.cur_new_node ≡ none
    → (c.slots (c.send_seq % 64)).used ≡ false
    → open_slot c ≡ some (opened c)
unfolding open_slot opened
open_slot-opened c e u = rw (e, u) refl

pub open_slot_same : (c : Snd) (i : ℕ) → c.cur_new_node ≡ some i → open_slot c ≡ some c
unfolding open_slot
open_slot_same c i e = rw e refl

-- write_chunk where the chunk fills the slot, and where it does not.
unfoldable pub closed : (ℕ → List ℕ → List ℕ) → Snd → ℕ → List ℕ → Snd
closed encrypt c i chunk =
    let filled = record (c.slots i) { body = take c.cur_new_size (c.slots i).body ++ chunk } in
    let c1 = put_slot c i (frame_encrypt encrypt c.send_seq filled) in
    record (snd_insert c1 i) {
      tx_unsent = add32 c.tx_unsent 1;
      cur_new_node = none;
      cur_new_size = 0;
    }

unfoldable pub grown : Snd → ℕ → List ℕ → ℕ → Snd
grown c i chunk now =
    record (put_slot c i
      (record (c.slots i) { body = take c.cur_new_size (c.slots i).body ++ chunk })) {
        cur_new_size = c.cur_new_size + length chunk;
        cur_new_tick = now;
      }

module _ (encrypt : ℕ → List ℕ → List ℕ) (c : Snd) (i : ℕ) (chunk : List ℕ) (now : ℕ) where
  pub write_chunk-closed :
      c.cur_new_size + length chunk ≡ c.smss
      → write_chunk encrypt c i chunk now ≡ closed encrypt c i chunk
  unfolding write_chunk snd_insert frame_encrypt closed
  write_chunk-closed e =
      let yes : (c.cur_new_size + length chunk == c.smss) ≡ true = ground (arith, e) in rw yes refl

  pub write_chunk-grown :
      c.cur_new_size + length chunk < c.smss
      → write_chunk encrypt c i chunk now ≡ grown c i chunk now
  unfolding write_chunk grown
  write_chunk-grown lt =
      let no : (c.cur_new_size + length chunk == c.smss) ≡ false = ground (arith, lt) in rw no refl

module _ (decrypt : ℕ → List ℕ → List ℕ) where
  opened-Framed :
      (c : Snd) → IsValid c → c.cur_new_node ≡ none → span c < 64 → Framed decrypt c (opened c) []
  unfolding opened slot_reset texts partial IsFilling
  opened-Framed c v e lt =
      let old : (j : ℕ)
          → j < span c
          → (opened c).slots ((c.snd_first + j) % 64) ≡ c.slots ((c.snd_first + j) % 64) =
        λ j jl. ground (arith, v.seq_word, v.first_word, v.span_max) in
      record {
        valid = record {
          mss_pos = v.mss_pos;
          seq_word = v.seq_word;
          first_word = v.first_word;
          span_max = v.span_max;
          fill = (refl, lt, v.mss_pos, ground arith);
          free = λ k kl kh. ground (arith, v.free k (rw e (omega arith)) kh);
        };
        first = refl;
        mss = refl;
        kept = old;
        frames = 0;
        wider = omega arith;
        next_seq = omega (arith, v.seq_word);
        bytes = rw e refl;
      }

  -- Opening a slot frames nothing.
  pub open_slot-Framed :
      (c : Snd)
      → IsValid c
      → c.cur_new_node ≡ none
      → span c < 64
      → (c1 : Snd) × (open_slot c ≡ some c1)
        × (c1.cur_new_node ≡ some (c.send_seq % 64))
        × (c1.cur_new_size ≡ 0)
        × (span c1 ≡ span c)
        × Framed decrypt c c1 []
  unfolding opened
  open_slot-Framed c v e lt =
      let free = v.free 0 (rw e (omega arith)) (omega arith) in
      let at : c.send_seq % 64 ≡ (c.send_seq + 0) % 64 = omega arith in
      (opened c, open_slot-opened c e (rw at free), refl, refl, refl, opened-Framed c v e lt)

  module _ (encrypt : ℕ → List ℕ → List ℕ)
      (round : (q : ℕ) (p : List ℕ) → decrypt q (encrypt q p) ≡ p) where
    -- A chunk that fills the slot makes a frame of it.
    pub closed-Framed :
        (c : Snd) (i : ℕ) (chunk : List ℕ)
        → IsValid c
        → c.cur_new_node ≡ some i
        → c.cur_new_size + length chunk ≡ c.smss
        → Framed decrypt c (closed encrypt c i chunk) chunk
    unfolding closed texts partial IsFilling snd_insert frame_encrypt
    closed-Framed c i chunk v e full =
        let f = rw e at v.fill in
        let self : (i == i) ≡ true = ground arith in
        let here : (c.send_seq % 64 == i) ≡ true = ground (arith, f.0) in
        let body : List ℕ = take c.cur_new_size (c.slots i).body ++ chunk in
        record {
          valid = record {
            mss_pos = v.mss_pos;
            seq_word = omega arith;
            first_word = v.first_word;
            span_max = omega (arith, f.1, v.seq_word, v.first_word);
            fill = tt;
            free = λ k kl kh. ground (
              arith,
              f.0,
              v.free (suc k) (rw e (omega arith)) (omega (arith, v.seq_word, v.first_word)),
            );
          };
          first = refl;
          mss = refl;
          kept = λ j jl. ground (arith, v.seq_word, v.first_word, v.span_max, f.0, f.1);
          frames = 1;
          wider = omega (arith, f.1, v.seq_word, v.first_word);
          next_seq = refl;
          bytes =
              rw (e, self, here, round c.send_seq body) (append-nil (body ++ []) ∙ append-nil body);
        }

    -- A chunk that leaves room waits in the slot.
    pub grown-Framed :
        (c : Snd) (i : ℕ) (chunk : List ℕ) (now : ℕ)
        → IsValid c
        → c.cur_new_node ≡ some i
        → c.cur_new_size + length chunk < c.smss
        → Framed decrypt c (grown c i chunk now) chunk
    unfolding grown texts partial IsFilling
    grown-Framed c i chunk now v e less =
        let f = rw e at v.fill in
        let self : (i == i) ≡ true = ground arith in
        let body : List ℕ = take c.cur_new_size (c.slots i).body ++ chunk in
        let size : length body ≡ c.cur_new_size + length chunk = omega (
          arith,
          f.3,
          length-append (take c.cur_new_size (c.slots i).body) chunk,
          length-take c.cur_new_size (c.slots i).body,
        ) in
        record {
          valid = record {
            mss_pos = v.mss_pos;
            seq_word = v.seq_word;
            first_word = v.first_word;
            span_max = v.span_max;
            fill = rw (e, self) (f.0, f.1, less, size);
            free = λ k kl kh. ground (arith, f.0, kl, v.free k kl kh, rw e at kl);
          };
          first = refl;
          mss = refl;
          kept = λ j jl. ground (arith, v.seq_word, v.first_word, v.span_max, f.0, f.1);
          frames = 0;
          wider = omega arith;
          next_seq = omega (arith, v.seq_word);
          bytes =
              rw (e, self) (take-all (c.cur_new_size + length chunk) body (omega (arith, size)));
        }
