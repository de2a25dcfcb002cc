-- ===== src/File/Contents.antt =====
-- What isp_file_to_buff loads.
use mathlib.Core.List.{append-nil, append_assoc}
use Prim.Native.Nat.{min}
use lpctools.Base.{
  ℕ, zero, suc, ◌+◌, ◌-◌, ◌≤◌, ◌≡◌, refl, ap, ◌∙◌, sym, arith, List, [], ◌∷◌, ◌++◌, length,
  length-append, take, ltb, inl, inr, Bool-cases, to_int, some,
}
use lpctools.File.{Feed, chunk, no_data, read_file, file_to_buff}

-- The bytes of the file.
unfoldable pub contents : List Feed → List ℕ
contents [] = []
contents (chunk b bs ∷ rest) = b ∷ (bs ++ contents rest)
contents (_ ∷ rest) = contents rest

-- No read fails.
abbrev pub IsSound : List Feed → Type 0
IsSound [] = Unit {0}
IsSound (Feed.broken ∷ rest) = ⊥
IsSound (_ ∷ rest) = IsSound rest

take-zero : (n : ℕ) (xs : List ℕ) → n ≡ 0 → take n xs ≡ []
take-zero zero xs e = refl
take-zero (suc n) xs e = absurd (omega arith)

take-nil : (n : ℕ) → take {A = ℕ} n [] ≡ []
take-nil zero = refl
take-nil (suc n) = refl

length-take : (n : ℕ) (xs : List ℕ) → length (take n xs) ≡ min n (length xs)
length-take zero xs = omega arith
length-take (suc n) [] = omega arith
length-take (suc n) (x ∷ xs) = omega (arith, length-take n xs)

take-append : (n : ℕ) (xs ys : List ℕ) → take n (xs ++ ys) ≡ take n xs ++ take (n - length xs) ys
take-append zero xs ys = sym (take-zero (0 - length xs) ys (omega arith))
take-append (suc n) [] ys = ap (λ k. take k ys) {x = suc n} (omega arith)
take-append (suc n) (x ∷ xs) ys =
    ap (λ t. x ∷ t) (take-append n xs ys ∙ ap (λ k. take n xs ++ take k ys) (omega arith))

-- What the loop adds to what it has stored.
abbrev loaded : List Feed → ℕ → List ℕ → List ℕ
loaded script len stored = stored ++ take (len - length stored) (contents script)

read_file-contents :
    (script : List Feed) (len : ℕ) (stored : List ℕ)
    → IsSound script
    → length stored ≤ len
    → read_file script len stored
      ≡ (to_int (length (loaded script len stored)), loaded script len stored)
unfolding read_file contents
read_file-contents [] len stored sound fits =
    ap (λ (xs : List ℕ). (to_int (length xs), xs))
      (sym (append-nil stored) ∙ ap (λ t. stored ++ t) (sym (take-nil (len - length stored))))
read_file-contents (Feed.broken ∷ rest) len stored sound fits = absurd sound
read_file-contents (no_data ∷ rest) len stored sound fits =
    elim (Bool-cases (ltb (length stored) len)) [
      | inl more ↦ rw more (read_file-contents rest len stored sound fits)
      | inr full ↦ rw full (
          ap (λ (xs : List ℕ). (to_int (length xs), xs))
            (sym (append-nil stored)
              ∙ ap (λ t. stored ++ t)
                  (sym (take-zero (len - length stored) (contents rest) (ground arith)))))
    ]
read_file-contents (chunk b bs ∷ rest) len stored sound fits =
    let k = len - length stored in
    let stored' = stored ++ take k (b ∷ bs) in
    let all : loaded (chunk b bs ∷ rest) len stored
        ≡ stored' ++ take (k - length (b ∷ bs)) (contents rest) =
      ap (λ t. stored ++ t) (take-append k (b ∷ bs) (contents rest))
      ∙ sym (append_assoc stored _ _) in
    let size : length stored' ≡ length stored + min k (length (b ∷ bs)) =
      omega (arith, length-append stored (take k (b ∷ bs)), length-take k (b ∷ bs)) in
    elim (Bool-cases (ltb (length stored') len)) [
      | inl more ↦ rw more (
          read_file-contents rest len stored' sound (ground arith)
          ∙ ap (λ (xs : List ℕ). (to_int (length xs), xs))
              (ap (λ j. stored' ++ take j (contents rest)) (ground arith) ∙ sym all))
      | inr full ↦ rw full (
          ap (λ (xs : List ℕ). (to_int (length xs), xs))
            (sym (append-nil stored')
              ∙ ap (λ t. stored' ++ t)
                  (sym (take-zero (k - length (b ∷ bs)) (contents rest) (ground arith)))
              ∙ sym all))
    ]

-- isp_file_to_buff on a file whose reads do not fail loads its first `len` bytes, or all of it if it
-- is shorter, whatever the sizes of the chunks and however often the data are late.
pub file_to_buff-contents :
    (script : List Feed) (len : ℕ)
    → IsSound script
    → file_to_buff (some script) len
      ≡ (to_int (length (take len (contents script))), take len (contents script))
unfolding file_to_buff
file_to_buff-contents script len sound =
    read_file-contents script len [] sound (omega arith)
    ∙ ap (λ k. (to_int (length (take k (contents script))), take k (contents script))) (omega arith)
