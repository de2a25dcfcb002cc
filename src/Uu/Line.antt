-- ===== src/Uu/Line.antt =====
-- The inner loops of the two coders on one line.
use lpctools.Base.{
  ℕ, zero, suc, ◌+◌, ◌%◌, ◌^◌, ◌≤◌, ◌<◌, ◌≡◌, refl, ap, ap₂, ◌∙◌, arith, Mem, AreBytes, List, [],
  ◌++◌, length, length-append, lt→ltb, le→ltb, bytes, Holds, Holds-append, add32,
}
use mathlib.Core.List.{append-nil}
use lpctools.Uu.{triplet, quartet, encode_line, decode_line, store_bytes}
use lpctools.Uu.Chars.{spell, triplet-eq-spell, quartet_bits-quartet, store_bytes-spell}

decode_line_end : (fuel : ℕ) (m : Mem) (n i p : ℕ) → n ≤ i → decode_line fuel m n i p ≡ ([], p)
unfolding decode_line
decode_line_end zero m n i p h = refl
decode_line_end (suc fuel) m n i p h = rw (le→ltb i n h)

encode_line_end : (fuel : ℕ) (src : Mem) (pos n i : ℕ) → n ≤ i → encode_line fuel src pos n i ≡ []
unfolding encode_line
encode_line_end zero src pos n i h = refl
encode_line_end (suc fuel) src pos n i h = rw (le→ltb i n h)

encode_line_step :
    (fuel : ℕ) (src : Mem) (pos n i : ℕ)
    → i < n
    → encode_line (suc fuel) src pos n i
      ≡ quartet (triplet src pos n i) ++ encode_line fuel src pos n (i + 3)
unfolding encode_line
encode_line_step fuel src pos n i h = rw (lt→ltb i n h)

-- One round of the decoder's inner loop on the characters of a triplet.
decode_line_step :
    (fuel : ℕ) (m : Mem) (n i p t : ℕ)
    → i < n
    → t < 2 ^ 24
    → p + 4 < 2 ^ 32
    → Holds m p (quartet t)
    → decode_line (suc fuel) m n i p ≡ (
      (store_bytes 3 t n i).0 ++ (decode_line fuel m n (store_bytes 3 t n i).1 (p + 4)).0,
      (decode_line fuel m n (store_bytes 3 t n i).1 (p + 4)).1,
    )
unfolding decode_line
decode_line_step fuel m n i p t h ht hp holds =
    let e : add32 p 4 ≡ p + 4 = omega arith in
    rw (lt→ltb i n h, quartet_bits-quartet m p t ht holds, e)

-- How many of `k` bytes one triplet takes.
abbrev up_to_three : ℕ → ℕ
up_to_three (suc (suc (suc k))) = 3
up_to_three k = k

up_to_three_short : (k : ℕ) → suc k ≤ 2 → up_to_three (suc k) ≡ suc k
up_to_three_short zero h = refl
up_to_three_short (suc zero) h = refl
up_to_three_short (suc (suc k)) h = absurd (omega arith)

module _ (src : Mem) (are : AreBytes src) where
  -- One round of the decoder's inner loop stores what is left of the line, three bytes at most.
  store_bytes-bytes :
      (q n i k : ℕ)
      → n ≡ i + suc k
      → store_bytes 3 (spell (src (q + 0) % 256) (src (q + 1) % 256) (src (q + 2) % 256)) n i
        ≡ (bytes src q (up_to_three (suc k)), i + up_to_three (suc k))
  unfolding bytes
  store_bytes-bytes q n i zero e = ground (
    arith,
    store_bytes-spell (src (q + 0) % 256) (src (q + 1) % 256) (src (q + 2) % 256) n i,
    are q,
  )
  store_bytes-bytes q n i (suc zero) e = ground (
    arith,
    store_bytes-spell (src (q + 0) % 256) (src (q + 1) % 256) (src (q + 2) % 256) n i,
    are q,
    are (q + 1),
  )
  store_bytes-bytes q n i (suc (suc k)) e = ground (
    arith,
    store_bytes-spell (src (q + 0) % 256) (src (q + 1) % 256) (src (q + 2) % 256) n i,
    are q,
    are (q + 1),
    are (q + 2),
  )

  -- The decoder's round on a triplet that the encoder wrote.
  decode_line_round :
      (g : ℕ) (m : Mem) (pos n i p k p' : ℕ) (ys : List ℕ)
      → n ≡ i + suc k
      → p + 4 < 2 ^ 32
      → Holds m p (quartet (triplet src pos n i))
      → decode_line g m n (i + up_to_three (suc k)) (p + 4) ≡ (ys, p')
      → decode_line (suc g) m n i p ≡ (bytes src (pos + i) (up_to_three (suc k)) ++ ys, p')
  decode_line_round g m pos n i p k p' ys e small holds tail =
      let t = triplet src pos n i in
      let spelt = triplet-eq-spell src pos n i (omega arith) in
      let stored =
        ap (λ (x : ℕ). store_bytes 3 x n i) spelt ∙ store_bytes-bytes (pos + i) n i k e in
      decode_line_step g m n i p t (omega arith) (omega (arith, spelt)) small holds
      ∙ rw (stored, tail)

  last_triplet :
      (fuel g : ℕ) (m : Mem) (pos n i p k : ℕ)
      → n ≡ i + suc k
      → suc k ≤ 2
      → Holds m p (encode_line (suc fuel) src pos n i)
      → p + length (encode_line (suc fuel) src pos n i) < 2 ^ 32
      → decode_line (suc g) m n i p
        ≡ (bytes src (pos + i) (suc k), p + length (encode_line (suc fuel) src pos n i))
  unfolding bytes quartet
  last_triplet fuel g m pos n i p k e short holds small =
      let r = up_to_three_short k short in
      let t = triplet src pos n i in
      let whole =
        encode_line_step fuel src pos n i (omega arith)
        ∙ ap (λ (x : List ℕ). quartet t ++ x)
            (encode_line_end fuel src pos n (i + 3) (omega arith)) in
      let done = decode_line_end g m n (i + up_to_three (suc k)) (p + 4) (omega arith) in
      decode_line_round g m pos n i p k (p + 4) [] e (omega (arith, ap length whole))
        (rw whole at holds) done
      ∙ ap₂ (λ (x : List ℕ) (y : ℕ). (x, y)) (append-nil _ ∙ ap (bytes src (pos + i)) r)
          (omega (arith, ap length whole))

  pub decode_line-encode_line :
      (fuel g : ℕ) (m : Mem) (pos n i p k : ℕ)
      → n ≡ i + k
      → k ≤ fuel
      → k ≤ g
      → Holds m p (encode_line fuel src pos n i)
      → p + length (encode_line fuel src pos n i) < 2 ^ 32
      → decode_line g m n i p ≡ (bytes src (pos + i) k, p + length (encode_line fuel src pos n i))
  unfolding bytes quartet
  decode_line-encode_line fuel g m pos n i p zero e hf hg holds small =
      rw (decode_line_end g m n i p (omega arith), encode_line_end fuel src pos n i (omega arith))
        (ap (λ (x : ℕ). ([], x)) (omega arith))
  decode_line-encode_line zero g m pos n i p (suc k) e hf hg holds small = absurd (omega arith)
  decode_line-encode_line fuel zero m pos n i p (suc k) e hf hg holds small = absurd (omega arith)
  decode_line-encode_line (suc fuel) (suc g) m pos n i p (suc zero) e hf hg holds small =
      last_triplet fuel g m pos n i p zero e (omega arith) holds small
  decode_line-encode_line (suc fuel) (suc g) m pos n i p (suc (suc zero)) e hf hg holds small =
      last_triplet fuel g m pos n i p (suc zero) e (omega arith) holds small
  decode_line-encode_line (suc fuel) (suc g) m pos n i p (suc (suc (suc k))) e hf hg holds small =
      let rest = encode_line fuel src pos n (i + 3) in
      let step = encode_line_step fuel src pos n i (omega arith) in
      let (here, there) =
        Holds-append m p (quartet (triplet src pos n i)) rest (rw step at holds) in
      let size = ap length step ∙ length-append (quartet (triplet src pos n i)) rest in
      let tail =
        decode_line-encode_line fuel g m pos n (i + 3) (p + 4) k (omega arith) (omega arith)
          (omega arith) there (omega arith) in
      decode_line_round g m pos n i p (suc (suc k)) _ _ e (omega arith) here tail
      ∙ ap₂ (λ (a b : ℕ). (bytes src (pos + i) 3 ++ bytes src a k, b)) (omega arith) (omega arith)
