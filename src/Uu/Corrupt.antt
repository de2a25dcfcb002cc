-- ===== src/Uu/Corrupt.antt =====
-- isp_uu_decode on memory whose first byte is no length character.
use lpctools.Base.{
  ℕ, zero, suc, ◌+◌, ◌-◌, ◌*◌, ◌/◌, ◌%◌, ◌^◌, ◌≤◌, ◌<◌, ◌≡◌, refl, arith, Mem, List, [], ◌++◌,
  length, length-append, ltb, inl, inr, Bool-cases, lt→ltb, ltb→lt, add32, some, ◌==◌, false, true,
}
use lpctools.Uu.{
  decode_line, decode_lines, next_line, uu_decode, store_bytes, quartet_bits, line_length_of,
  is_below_added_val,
}
use lpctools.Uu.Decode.{store_bytes_count, uu_decode_total, line_length_of-le}

decode_line_wraps :
    (fuel : ℕ) (m : Mem) (n i p : ℕ)
    → i ≤ n
    → n ≤ i + fuel
    → p < 2 ^ 32
    → (length (decode_line fuel m n i p).0 ≡ n - i)
      × ((decode_line fuel m n i p).1 ≡ (p + 4 * ((n - i + 2) / 3)) % 2 ^ 32)
unfolding decode_line
decode_line_wraps zero m n i p le enough small = omega arith
decode_line_wraps (suc fuel) m n i p le enough small = elim (Bool-cases (ltb i n)) [
  | inr done ↦ rw done (ground arith)
  | inl more ↦
      let stored = store_bytes 3 (quartet_bits m p) n i in
      let (count, fits, round, grew) = store_bytes_count (quartet_bits m p) n i (ltb→lt i n more) in
      let q = add32 p 4 in
      let rest = decode_line fuel m n stored.1 q in
      let (len, end) = decode_line_wraps fuel m n stored.1 q fits (omega arith) (omega arith) in
      let wrapped : q ≡ (p + 4) % 2 ^ 32 = refl in
      rw more (omega (arith, length-append stored.0 rest.0), omega (arith, wrapped))
]

line_length_of-large :
    (b : ℕ)
    → is_below_added_val b ≡ true
    → (2 ^ 32 - 160 ≤ line_length_of b) × (line_length_of b < 2 ^ 32)
unfolding line_length_of
line_length_of-large b h = ground arith

next_line_beyond : (n : ℕ) (m : Mem) (size p : ℕ) → size ≤ p → next_line n m size p ≡ p
unfolding next_line
next_line_beyond zero m size p h = refl
next_line_beyond (suc n) m size p h = ground arith

decode_lines_beyond : (g : ℕ) (m : Mem) (n p : ℕ) → 0 < g → n ≤ p → decode_lines g m n p ≡ some []
unfolding decode_lines
decode_lines_beyond zero m n p some_fuel h = absurd (omega arith)
decode_lines_beyond (suc g) m n p some_fuel h =
    let over : ltb p n ≡ false = ground arith in rw over refl

-- If the first of the bytes to decode, of which there are at most 2 ^ 30, is a control character or
-- beyond 127, isp_uu_decode stores at least 2 ^ 32 - 160 bytes.
pub uu_decode_corrupt :
    (m : Mem) (n : ℕ)
    → 0 < n
    → n ≤ 2 ^ 30
    → is_below_added_val (m 0) ≡ true
    → (out : List ℕ) × (uu_decode m n ≡ some out) × (2 ^ 32 - 160 ≤ length out)
unfolding uu_decode decode_lines
uu_decode_corrupt m n some_bytes small bad =
    let l = line_length_of (m 0) in
    let (large, fits) = line_length_of-large (m 0) bad in
    let go : ltb 0 n ≡ true = lt→ltb 0 n some_bytes in
    let no_end : (m 0 == 96) ≡ false = ground arith in
    let start : add32 0 1 ≡ 1 = refl in
    let line = decode_line l m l 0 1 in
    let (len, end) = decode_line_wraps l m l 0 1 (omega arith) (omega arith) (omega arith) in
    let beyond : n ≤ line.1 = omega arith in
    let stop = next_line_beyond n m n line.1 beyond in
    let rest = decode_lines_beyond n m n line.1 some_bytes beyond in
    (line.0 ++ [], rw (go, no_end, stop, rest) refl, omega (arith, length-append line.0 []))

-- The decoder ends on every memory, for up to 2 ^ 30 bytes.
pub uu_decode_ends : (m : Mem) (n : ℕ) → n ≤ 2 ^ 30 → (out : List ℕ) × (uu_decode m n ≡ some out)
unfolding uu_decode
uu_decode_ends m zero small = ([], decode_lines_beyond 1 m 0 0 (omega arith) (omega arith))
uu_decode_ends m (suc n) small = elim (Bool-cases (is_below_added_val (m 0))) [
  | inl bad ↦ let (out, e, _) = uu_decode_corrupt m (suc n) (omega arith) small bad in (out, e)
  | inr good ↦
      let (out, e, _) = uu_decode_total m (suc n) (omega arith) (line_length_of-le (m 0) good) in
      (out, e)
]
