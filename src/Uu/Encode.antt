-- ===== src/Uu/Encode.antt =====
-- What isp_uu_encode writes: its length and its characters.
use lpctools.Base.{
  ℕ, zero, suc, ◌+◌, ◌-◌, ◌*◌, ◌/◌, ◌≤◌, ◌≡◌, refl, arith, Mem, ◌∷◌, length, length-append, All,
  All-append, ltb, inl, inr, Bool-cases, ◌⊎◌,
}
use lpctools.Uu.{triplet, quartet, encode_line, encode_lines, uu_encode, line_size}
use lpctools.Uu.Chars.{six-quartet_char}

-- Four characters for each three bytes, the last ones padded.
pub length-encode_line :
    (fuel : ℕ) (src : Mem) (pos n i : ℕ)
    → n ≤ i + fuel
    → length (encode_line fuel src pos n i) ≡ 4 * ((n - i + 2) / 3)
unfolding encode_line quartet
length-encode_line zero src pos n i h = omega arith
length-encode_line (suc fuel) src pos n i h =
    ground (arith, length-encode_line fuel src pos n (i + 3) (omega arith))

-- A line takes a character for its length and two for its end beside its quartets.
abbrev pub encoded_size : ℕ → ℕ
encoded_size n = 4 * ((n + 2) / 3) + 3 * ((n + 44) / 45)

pub length-encode_lines :
    (fuel : ℕ) (src : Mem) (n pos : ℕ)
    → n ≤ pos + fuel
    → length (encode_lines fuel src n pos) ≡ encoded_size (n - pos)
unfolding encode_lines
length-encode_lines zero src n pos h = omega arith
length-encode_lines (suc fuel) src n pos h =
    let k = line_size pos n in
    let line = encode_line k src pos k 0 in
    let rest = encode_lines fuel src n (pos + k) in
    ground (
      arith,
      length-append line (13 ∷ 10 ∷ rest),
      length-encode_line k src pos k 0,
      length-encode_lines fuel src n (pos + k),
    )

-- What isp_uu_encode writes for n bytes has four characters for each three bytes, the last ones
-- padded, and three more for each line of 45 bytes.
pub length-uu_encode : (src : Mem) (n : ℕ) → length (uu_encode src n) ≡ encoded_size n
unfolding uu_encode
length-uu_encode src n = omega (arith, length-encode_lines n src n 0 (omega arith))

-- Characters that survive a line with software flow control: no control character but the line ends.
abbrev pub IsUuChar : ℕ → Type 0
IsUuChar c = ((33 ≤ c) × (c ≤ 96)) ⊎ (c ≡ 13) ⊎ (c ≡ 10)

encode_line-IsUuChar :
    (fuel : ℕ) (src : Mem) (pos n i : ℕ) → All IsUuChar (encode_line fuel src pos n i)
unfolding encode_line quartet
encode_line-IsUuChar zero src pos n i = tt
encode_line-IsUuChar (suc fuel) src pos n i =
    let t = triplet src pos n i in
    ground (
      arith,
      six-quartet_char t 0,
      six-quartet_char t 1,
      six-quartet_char t 2,
      six-quartet_char t 3,
      encode_line-IsUuChar fuel src pos n (i + 3),
    )

encode_lines-IsUuChar :
    (fuel : ℕ) (src : Mem) (n pos : ℕ) → All IsUuChar (encode_lines fuel src n pos)
unfolding encode_lines
encode_lines-IsUuChar zero src n pos = tt
encode_lines-IsUuChar (suc fuel) src n pos = elim (Bool-cases (ltb pos n)) [
  | inr done ↦ rw done tt
  | inl more ↦
      let k = line_size pos n in
      rw more (
        inl (ground arith),
        All-append IsUuChar (encode_line k src pos k 0) _ (encode_line-IsUuChar k src pos k 0)
            (inr (inl refl), (inr (inr refl), encode_lines-IsUuChar fuel src n (pos + k))),
      )
]

-- Every character that isp_uu_encode writes is one of 33 ... 96, or CR or LF.
pub uu_encode-IsUuChar : (src : Mem) (n : ℕ) → All IsUuChar (uu_encode src n)
unfolding uu_encode
uu_encode-IsUuChar src n = encode_lines-IsUuChar n src n 0
