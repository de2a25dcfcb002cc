-- ===== src/Uu/Decode.antt =====
-- isp_uu_decode on memory whose first byte is a length character. The later ones are always in range, as the
-- search for a line skips the others.
use lpctools.Base.{
  ℕ, zero, suc, ◌+◌, ◌-◌, ◌*◌, ◌/◌, ◌^◌, ◌≤◌, ◌<◌, ◌≡◌, refl, arith, Mem, List, [], ◌++◌, length,
  length-append, ltb, inl, inr, Bool-cases, ltb→lt, ◌⊎◌, add32, Option, some, ◌==◌, false,
}
use lpctools.Uu.{
  decode_line, decode_lines, next_line, uu_decode, store_bytes, quartet_bits, line_length_of,
  is_below_added_val,
}

-- One round stores one to three bytes, and three unless the line ends.
pub store_bytes_count :
    (t n i : ℕ)
    → i < n
    → (length (store_bytes 3 t n i).0 + i ≡ (store_bytes 3 t n i).1)
      × ((store_bytes 3 t n i).1 ≤ n)
      × (((store_bytes 3 t n i).1 ≡ n) × (n ≤ i + 3) ⊎ ((store_bytes 3 t n i).1 ≡ i + 3))
      × (i < (store_bytes 3 t n i).1)
unfolding store_bytes
store_bytes_count t n i h = ground arith

decode_line_count :
    (fuel : ℕ) (m : Mem) (n i p : ℕ)
    → i ≤ n
    → n ≤ i + fuel
    → p + 4 * ((n - i + 2) / 3) < 2 ^ 32
    → (length (decode_line fuel m n i p).0 ≡ n - i)
      × ((decode_line fuel m n i p).1 ≡ p + 4 * ((n - i + 2) / 3))
unfolding decode_line
decode_line_count zero m n i p le enough small = omega arith
decode_line_count (suc fuel) m n i p le enough small = elim (Bool-cases (ltb i n)) [
  | inr done ↦ rw done (ground arith)
  | inl more ↦
      let stored = store_bytes 3 (quartet_bits m p) n i in
      let (count, fits, round, grew) = store_bytes_count (quartet_bits m p) n i (ltb→lt i n more) in
      let a : add32 p 4 ≡ p + 4 = omega arith in
      let rest = decode_line fuel m n stored.1 (p + 4) in
      let (len, end) =
        decode_line_count fuel m n stored.1 (p + 4) fits (omega arith) (omega arith) in
      rw (more, a) (omega (arith, length-append stored.0 rest.0), omega arith)
]

next_line_stops :
    (fuel : ℕ) (m : Mem) (n p : ℕ)
    → n ≤ p + fuel
    → n < 2 ^ 32
    → (p ≤ next_line fuel m n p)
      × ((next_line fuel m n p ≤ p) ⊎ (next_line fuel m n p ≤ n))
      × ((n ≤ next_line fuel m n p) ⊎ (is_below_added_val (m (next_line fuel m n p)) ≡ false))
unfolding next_line
next_line_stops zero m n p enough small = ground arith
next_line_stops (suc fuel) m n p enough small = elim (Bool-cases (is_below_added_val (m p))) [
  | inr stop ↦ rw stop (omega arith, inl (omega arith), inr stop)
  | inl skip ↦ elim (Bool-cases (ltb p n)) [
    | inr done ↦ rw (skip, done) (ground arith)
    | inl more ↦
        let a : add32 p 1 ≡ p + 1 = ground arith in
        rw (skip, more, a) (ground (arith, next_line_stops fuel m n (p + 1) (omega arith) small))
  ]
]

-- A byte that ends the search for a line is a length of at most 95.
pub line_length_of-le : (b : ℕ) → is_below_added_val b ≡ false → line_length_of b ≤ 95
unfolding line_length_of
line_length_of-le b h = ground arith

-- What the decoder may return: bytes in proportion to what it read.
abbrev pub Decodes : ℕ → ℕ → Option (List ℕ) → Type 0
Decodes n p r = (out : List ℕ) × (r ≡ some out) × (4 * length out + 3 * p ≤ 3 * (n + 128))

decode_lines_total :
    (g : ℕ) (m : Mem) (n p : ℕ)
    → 0 < g
    → n < p + g
    → n + 129 < 2 ^ 32
    → p ≤ n + 128
    → (n ≤ p) ⊎ (line_length_of (m p) ≤ 95)
    → Decodes n p (decode_lines g m n p)
unfolding decode_lines
decode_lines_total zero m n p some_fuel enough small near ready = absurd (omega arith)
decode_lines_total (suc g) m n p some_fuel enough small near ready = elim (Bool-cases (ltb p n)) [
  | inr done ↦ rw done ([], refl, omega arith)
  | inl more ↦ elim (Bool-cases (m p == 96)) [
    | inl zero_line ↦ rw (more, zero_line) ([], refl, omega arith)
    | inr line ↦
        let l = line_length_of (m p) in
        let inside = ltb→lt p n more in
        let a : add32 p 1 ≡ p + 1 = ground arith in
        let xs = (decode_line l m l 0 (p + 1)).0 in
        let q = (decode_line l m l 0 (p + 1)).1 in
        let fits : l ≤ 95 = ground arith in
        let (len, end) =
          decode_line_count l m l 0 (p + 1) (omega arith) (omega arith) (omega arith) in
        let q' = next_line n m n q in
        let (from, to, stop) = next_line_stops n m n q (omega arith) (omega arith) in
        let next : (n ≤ q') ⊎ (line_length_of (m q') ≤ 95) =
          ground (arith, line_length_of-le (m q')) in
        let (out, e, bound) =
          decode_lines_total g m n q' (omega arith) (ground arith) small (ground arith) next in
        rw (more, line, a, e) (xs ++ out, refl, ground (arith, length-append xs out))
  ]
]

-- On every memory whose first byte is a length character, isp_uu_decode of n bytes, n + 129 < 2 ^ 32,
-- ends, and stores at most three bytes for each four of n + 128.
pub uu_decode_total :
    (m : Mem) (n : ℕ)
    → n + 129 < 2 ^ 32
    → line_length_of (m 0) ≤ 95
    → (out : List ℕ) × (uu_decode m n ≡ some out) × (4 * length out ≤ 3 * (n + 128))
unfolding uu_decode
uu_decode_total m n small first =
    let (out, e, bound) =
      decode_lines_total (suc n) m n 0 (omega arith) (omega arith) small (omega arith)
        (inr first) in
    (out, e, omega arith)
