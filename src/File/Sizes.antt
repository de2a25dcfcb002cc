-- ===== src/File/Sizes.antt =====
-- The sizes that isp_file_to_buff returns, as unsigned numbers.
use lpctools.Base.{
  ℕ, ◌-◌, ◌^◌, ◌<◌, ◌≤◌, ◌≡◌, ◌⊎◌, refl, true, ℤ, is_nonpos, length-append, length-take-le, arith,
  Option, none, some, List, [], ◌∷◌, ◌++◌, length, take, ltb, to_int, to_unsigned, inl, inr,
  Bool-cases,
}
use lpctools.File.{Feed, chunk, no_data, broken, read_file, file_to_buff}

to_unsigned-to_int : (n : ℕ) → to_unsigned (to_int n) < 2 ^ 32
to_unsigned-to_int n = ground arith

read_file-small :
    (script : List Feed) (len : ℕ) (stored : List ℕ)
    → to_unsigned (read_file script len stored).0 < 2 ^ 32
unfolding read_file
read_file-small [] len stored = to_unsigned-to_int (length stored)
read_file-small (chunk b bs ∷ rest) len stored =
    let stored' = stored ++ take (len - length stored) (b ∷ bs) in
    elim (Bool-cases (ltb (length stored') len)) [
      | inl more ↦ rw more (read_file-small rest len stored')
      | inr full ↦ rw full (to_unsigned-to_int (length stored'))
    ]
read_file-small (no_data ∷ rest) len stored = elim (Bool-cases (ltb (length stored) len)) [
  | inl more ↦ rw more (read_file-small rest len stored)
  | inr full ↦ rw full (to_unsigned-to_int (length stored))
]
read_file-small (broken ∷ rest) len stored = omega arith

pub file_to_buff-small :
    (file : Option (List Feed)) (len : ℕ) → to_unsigned (file_to_buff file len).0 < 2 ^ 32
unfolding file_to_buff
file_to_buff-small none len = omega arith
file_to_buff-small (some script) len = read_file-small script len []

-- An error, or the count of the bytes stored, which fit.
abbrev pub IsLoaded : ℕ → ℤ × List ℕ → Type 0
IsLoaded len r = (is_nonpos r.0 ≡ true) ⊎ ((r.0 ≡ to_int (length r.1)) × (length r.1 ≤ len))

read_file-IsLoaded :
    (script : List Feed) (len : ℕ) (stored : List ℕ)
    → length stored ≤ len
    → IsLoaded len (read_file script len stored)
unfolding read_file
read_file-IsLoaded [] len stored fits = inr (refl, fits)
read_file-IsLoaded (chunk b bs ∷ rest) len stored fits =
    let taken = take (len - length stored) (b ∷ bs) in
    let stored' = stored ++ taken in
    let fits' : length stored' ≤ len =
      omega (arith, length-append stored taken, length-take-le (len - length stored) (b ∷ bs)) in
    elim (Bool-cases (ltb (length stored') len)) [
      | inl more ↦ rw more (read_file-IsLoaded rest len stored' fits')
      | inr full ↦ rw full (inr (refl, fits'))
    ]
read_file-IsLoaded (no_data ∷ rest) len stored fits = elim (Bool-cases (ltb (length stored) len)) [
  | inl more ↦ rw more (read_file-IsLoaded rest len stored fits)
  | inr full ↦ rw full (inr (refl, fits))
]
read_file-IsLoaded (broken ∷ rest) len stored fits = inl refl

pub file_to_buff-IsLoaded :
    (file : Option (List Feed)) (len : ℕ) → IsLoaded len (file_to_buff file len)
unfolding file_to_buff
file_to_buff-IsLoaded none len = inl refl
file_to_buff-IsLoaded (some script) len = read_file-IsLoaded script len [] (omega arith)
