-- ===== src/Uu/Chars.antt =====
-- One triplet of bytes and its four characters, in plain arithmetic.
use lpctools.Base.{
  ℕ, ◌+◌, ◌*◌, ◌/◌, ◌%◌, ◌^◌, ◌≤◌, ◌<◌, ◌≡◌, refl, arith, bit_or, Mem, [], ◌∷◌, bit_and_mask,
  bit_or_disjoint, zero-bit_or, leb, u8, ◌-◌, Holds, if◌then◌else◌,
}
use lpctools.Uu.{triplet, quartet_char, quartet, quartet_bits, store_bytes}

-- The number that three bytes spell, and the number that four groups of six bits spell.
abbrev pub spell : ℕ → ℕ → ℕ → ℕ
spell a b c = a * 65536 + b * 256 + c

abbrev pub spell_four : ℕ → ℕ → ℕ → ℕ → ℕ
spell_four a b c d = a * 262144 + b * 4096 + c * 64 + d

or_bytes :
    (a b c : ℕ)
    → b < 256
    → c < 256
    → bit_or (bit_or (bit_or 0 (a * 65536)) (b * 256)) (c * 1) ≡ spell a b c
or_bytes a b c hb hc =
    rw
      (
        zero-bit_or,
        bit_or_disjoint 16 a (a * 65536) (b * 256) refl (omega arith),
        bit_or_disjoint 8 (a * 256 + b) (a * 65536 + b * 256) (c * 1) (omega arith) (omega arith),
      )
      (omega arith)

or_groups :
    (a b c d : ℕ)
    → b < 64
    → c < 64
    → d < 64
    → bit_or (bit_or (bit_or (bit_or 0 (a * 262144)) (b * 4096)) (c * 64)) (d * 1)
      ≡ spell_four a b c d
or_groups a b c d hb hc hd =
    rw
      (
        zero-bit_or,
        bit_or_disjoint 18 a (a * 262144) (b * 4096) refl (omega arith),
        bit_or_disjoint 12 (a * 64 + b) (a * 262144 + b * 4096) (c * 64) (omega arith)
            (omega arith),
        bit_or_disjoint 6 (a * 4096 + b * 64 + c) (a * 262144 + b * 4096 + c * 64) (d * 1)
            (omega arith) (omega arith),
      )
      (omega arith)

-- The loop takes three bytes on every round of the line: its `break` never comes before the third.
pub triplet-eq-spell :
    (src : Mem) (pos n i : ℕ)
    → i < n
    → triplet src pos n i
      ≡ spell (src (pos + i + 0) % 256) (src (pos + i + 1) % 256) (src (pos + i + 2) % 256)
unfolding triplet
triplet-eq-spell src pos n i h =
    let a = src (pos + i + 0) in
    let b = src (pos + i + 1) in
    let c = src (pos + i + 2) in
    ground (
      arith,
      bit_and_mask 8 a,
      bit_and_mask 8 b,
      bit_and_mask 8 c,
      or_bytes (a % 256) (b % 256) (c % 256),
    )

-- What the decoder makes of a character: six bits.
abbrev pub six : ℕ → ℕ
six q = u8 (q + 256 - 32) % 64

pub quartet_bits-eq-spell_four :
    (m : Mem) (p : ℕ)
    → quartet_bits m p
      ≡ spell_four (six (m (p + 0))) (six (m (p + 1))) (six (m (p + 2))) (six (m (p + 3)))
unfolding quartet_bits
quartet_bits-eq-spell_four m p =
    let q = λ (j : ℕ). u8 (m (p + j) + 256 - 32) in
    ground (
      arith,
      bit_and_mask 6 (q 0),
      bit_and_mask 6 (q 1),
      bit_and_mask 6 (q 2),
      bit_and_mask 6 (q 3),
      or_groups (q 0 % 64) (q 1 % 64) (q 2 % 64) (q 3 % 64),
    )

-- A character is one of 33 ... 96, and the decoder finds its six bits again.
pub six-quartet_char :
    (t j : ℕ)
    → (six (quartet_char t j) ≡ t / 2 ^ (6 * (3 - j)) % 64)
      × (33 ≤ quartet_char t j)
      × (quartet_char t j ≤ 96)
unfolding quartet_char
six-quartet_char t j = ground (arith, bit_and_mask 6 (t / 2 ^ (6 * (3 - j))))

groups_of :
    (t : ℕ)
    → t < 2 ^ 24
    → spell_four (t / 262144 % 64) (t / 4096 % 64) (t / 64 % 64) (t / 1 % 64) ≡ t
groups_of t h = omega arith

-- The decoder's four characters give the encoder's triplet back.
pub quartet_bits-quartet :
    (m : Mem) (p t : ℕ) → t < 2 ^ 24 → Holds m p (quartet t) → quartet_bits m p ≡ t
unfolding quartet
quartet_bits-quartet m p t h (e0, (e1, (e2, (e3, _)))) = ground (
  arith,
  quartet_bits-eq-spell_four m p,
  six-quartet_char t 0,
  six-quartet_char t 1,
  six-quartet_char t 2,
  six-quartet_char t 3,
  groups_of t h,
)

-- The first byte that the decoder stores is the first of the triplet, and so on.
pub store_bytes-spell :
    (a b c n i : ℕ)
    → a < 256
    → b < 256
    → c < 256
    → store_bytes 3 (spell a b c) n i ≡ (
        if leb n (i + 1)
        then (a ∷ [], i + 1)
        else if leb n (i + 1 + 1)
        then (a ∷ b ∷ [], i + 1 + 1)
        else (a ∷ b ∷ c ∷ [], i + 1 + 1 + 1))
unfolding store_bytes
store_bytes-spell a b c n i ha hb hc = ground (
  arith,
  bit_and_mask 8 (spell a b c / 65536),
  bit_and_mask 8 (spell a b c / 256),
  bit_and_mask 8 (spell a b c / 1),
)
