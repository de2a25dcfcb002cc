-- ===== src/Uu/RoundTrip.antt =====
-- isp_uu_decode on what isp_uu_encode wrote.
use lpctools.Base.{
  ℕ, zero, suc, ◌+◌, ◌-◌, ◌^◌, ◌≤◌, ◌<◌, ◌≡◌, refl, ap, ◌∙◌, sym, arith, Mem, AreBytes, List, [],
  ◌∷◌, ◌++◌, length, length-append, ltb, if◌then◌else◌, inl, inr, Bool-cases, lt→ltb, le→ltb, ◌⊎◌,
  bytes, bytes-add, Holds, Holds-append, add32, some, ◌==◌, false, subst,
}
use lpctools.Uu.{
  encode_line, encode_lines, uu_encode, line_size, decode_line, decode_lines, next_line, uu_decode,
  line_length_of, append_to, is_below_added_val,
}
use lpctools.Uu.Encode.{encoded_size, length-uu_encode}
use lpctools.Uu.Line.{decode_line-encode_line}

-- The line end is skipped, up to the next length character or the end of the data.
next_line_end :
    (fuel : ℕ) (m : Mem) (n p : ℕ)
    → 3 ≤ fuel
    → Holds m p (13 ∷ 10 ∷ [])
    → p + 2 ≤ n
    → n < 2 ^ 32
    → (is_below_added_val (m (p + 2)) ≡ false) ⊎ (p + 2 ≡ n)
    → next_line fuel m n p ≡ p + 2
unfolding next_line
next_line_end zero m n p f h room small next = absurd (omega arith)
next_line_end (suc zero) m n p f h room small next = absurd (omega arith)
next_line_end (suc (suc zero)) m n p f h room small next = absurd (omega arith)
next_line_end (suc (suc (suc fuel))) m n p f (e, (e', _)) room small next =
    let a : add32 p 1 ≡ p + 1 = omega arith in
    let b : add32 (p + 1) 1 ≡ p + 2 = omega arith in
    rw (e, lt→ltb p n (omega arith), a, e', lt→ltb (p + 1) n (omega arith), b) (ends next)
  where
    ends :
        (is_below_added_val (m (p + 2)) ≡ false) ⊎ (p + 2 ≡ n)
        → (if is_below_added_val (m (p + 2))
            then if ltb (p + 2) n then next_line fuel m n (add32 (p + 2) 1) else p + 2
            else p + 2)
          ≡ p + 2
    ends (inl stop) = rw stop
    ends (inr done) = rw (le→ltb (p + 2) n (omega arith)) (ground arith)

encode_lines_first :
    (fuel : ℕ) (src : Mem) (n pos : ℕ) (m : Mem) (p : ℕ)
    → Holds m p (encode_lines fuel src n pos)
    → (is_below_added_val (m p) ≡ false) ⊎ (encode_lines fuel src n pos ≡ [])
unfolding encode_lines
encode_lines_first zero src n pos m p h = inr refl
encode_lines_first (suc fuel) src n pos m p h = elim (Bool-cases (ltb pos n)) [
  | inr done ↦ inr (rw done)
  | inl more ↦ inl (ground (arith, (rw more at h).0))
]

encode_lines_step :
    (fuel : ℕ) (src : Mem) (n pos : ℕ)
    → pos < n
    → encode_lines (suc fuel) src n pos
      ≡ (line_size pos n + 32)
        ∷ (encode_line (line_size pos n) src pos (line_size pos n) 0
            ++ (13 ∷ 10 ∷ encode_lines fuel src n (pos + line_size pos n)))
unfolding encode_lines
encode_lines_step fuel src n pos h = rw (lt→ltb pos n h)

encode_lines_end : (fuel : ℕ) (src : Mem) (n pos : ℕ) → n ≤ pos → encode_lines fuel src n pos ≡ []
unfolding encode_lines
encode_lines_end zero src n pos h = refl
encode_lines_end (suc fuel) src n pos h = rw (le→ltb pos n h)

pub line_length_of-add : (k : ℕ) → k ≤ 95 → line_length_of (k + 32) ≡ k
unfolding line_length_of
line_length_of-add k h = ground arith

-- One round of the decoder's outer loop, on a line whose inner loop is known.
decode_lines_step :
    (g : ℕ) (m : Mem) (n p k q q' : ℕ) (xs : List ℕ)
    → p < n
    → n < 2 ^ 32
    → m p ≡ k + 32
    → k ≤ 45
    → decode_line k m k 0 (p + 1) ≡ (xs, q)
    → next_line n m n q ≡ q'
    → decode_lines (suc g) m n p ≡ append_to xs (decode_lines g m n q')
unfolding decode_lines
decode_lines_step g m n p k q q' xs h small e hi line next =
    let a : add32 p 1 ≡ p + 1 = omega arith in
    let d : ((k + 32) == 96) ≡ false = ground arith in
    rw (lt→ltb p n h, e, d, a, line_length_of-add k (omega arith), line, next)

decode_lines_end : (g : ℕ) (m : Mem) (n p : ℕ) → n ≤ p → decode_lines (suc g) m n p ≡ some []
unfolding decode_lines
decode_lines_end g m n p h = rw (le→ltb p n h)

bytes_join :
    (src : Mem) (p l k : ℕ)
    → l ≤ k
    → bytes src (p + 0) l ++ bytes src (p + l) (k - l) ≡ bytes src p k
bytes_join src p l k h =
    ap (λ (x : ℕ). bytes src x l ++ bytes src (p + l) (k - l)) (omega arith)
    ∙ sym (bytes-add src p l (k - l))
    ∙ ap (bytes src p) (omega arith)

module _ (src : Mem) (are : AreBytes src) where
  -- What follows the line that starts at `p`, in memory and in the encoder's loop.
  decode_lines-encode_lines :
      (fuel g : ℕ) (m : Mem) (n pos p size k : ℕ)
      → n ≡ pos + k
      → k ≤ fuel
      → k < g
      → Holds m p (encode_lines fuel src n pos)
      → size ≡ p + length (encode_lines fuel src n pos)
      → size < 2 ^ 32
      → decode_lines g m size p ≡ some (bytes src pos k)
  unfolding bytes
  decode_lines-encode_lines fuel zero m n pos p size k e hf hg holds es small = absurd (omega arith)
  decode_lines-encode_lines fuel (suc g) m n pos p size zero e hf hg holds es small =
      decode_lines_end g m size p
        (omega (arith, ap length (encode_lines_end fuel src n pos (omega arith))))
  decode_lines-encode_lines zero (suc g) m n pos p size (suc k) e hf hg holds es small =
      absurd (omega arith)
  decode_lines-encode_lines (suc fuel) (suc g) m n pos p size (suc k) e hf hg holds es small =
      let l = line_size pos n in
      let lo : 1 ≤ l = ground arith in
      let hi : (l ≤ 45) × (l ≤ suc k) = ground arith in
      let line = encode_line l src pos l 0 in
      let rest = encode_lines fuel src n (pos + l) in
      let step = encode_lines_step fuel src n pos (omega arith) in
      let (first, others) = rw step at holds in
      let (inside, (at_cr, (at_lf, behind))) =
        Holds-append m (p + 1) line (13 ∷ 10 ∷ rest) others in
      let q = p + 1 + length line in
      let sizes : size ≡ q + 2 + length rest =
        omega (arith, es, ap length step, length-append line (13 ∷ 10 ∷ rest)) in
      let next =
        elim (encode_lines_first fuel src n (pos + l) m (q + 1 + 1) behind)
          as (λ _. (is_below_added_val (m (q + 2)) ≡ false) ⊎ (q + 2 ≡ size)) [
            | inl stop ↦ inl (subst (λ x. is_below_added_val (m x) ≡ false) (omega arith) stop)
            | inr nil ↦ inr (omega (arith, ap length nil))
          ] in
      decode_lines_step g m size p l q (q + 2) _ (omega arith) small first hi.0
        (decode_line-encode_line src are l l m pos l 0 (p + 1) l (omega arith) (omega arith)
          (omega arith) inside (omega arith))
        (next_line_end size m size q (omega arith) (at_cr, (at_lf, tt)) (omega arith) small next)
      ∙ ap (append_to (bytes src (pos + 0) l)) (
          decode_lines-encode_lines fuel g m n (pos + l) (q + 2) size (suc k - l) (omega arith)
            (omega arith) (omega arith) (subst (λ x. Holds m x rest) (omega arith) behind) sizes
            small)
      ∙ ap some (bytes_join src pos l (suc k) hi.1)

-- Memory that holds what isp_uu_encode wrote for n bytes of a memory of bytes, whose encoded size is
-- below 2 ^ 32, is decoded by isp_uu_decode to those bytes, whatever lies behind it.
pub uu_decode-uu_encode :
    (src m : Mem) (n : ℕ)
    → AreBytes src
    → encoded_size n < 2 ^ 32
    → Holds m 0 (uu_encode src n)
    → uu_decode m (length (uu_encode src n)) ≡ some (bytes src 0 n)
unfolding uu_decode uu_encode
uu_decode-uu_encode src m n are small holds =
    let size = length-uu_encode src n in
    let written = length (uu_encode src n) in
    decode_lines-encode_lines src are n (suc written) m n 0 0 written n (omega arith) (omega arith)
      (omega arith) holds (omega arith) (omega arith)
