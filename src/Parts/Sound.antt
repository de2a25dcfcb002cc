-- ===== src/Parts/Sound.antt =====
-- What find_part_in_file gives on any file.
use lpctools.Base.{
  ℕ, zero, suc, ◌+◌, ◌^◌, ◌≤◌, ◌<◌, ◌≡◌, refl, arith, Bool, List, [], ◌∷◌, false, not, ◌&&◌, ◌||◌,
  Option, none, some, length, All, inl, inr, Bool-cases, subst, ==_iff, ◌==◌, get_or, u32, drop,
}
use lpctools.Text.{strtoul}
use lpctools.Parts.Format.{values_of}
use lpctools.Parts.{
  PartDesc, file_lines, skip_to_name, copy_name, read_values, read_part, part_from, buf,
  find_in_lines, part_name_length, find_part_in_file,
}

abbrev Fits : ℕ → Option (List ℕ × List ℕ) → Type 0
Fits room none = Unit {0}
Fits room (some (name, t)) = length name ≤ room

with_char-Fits :
    (room c : ℕ) (rest : Option (List ℕ × List ℕ))
    → Fits room rest
    → Fits (suc room) (elim rest [ none ↦ none | some (name, t) ↦ some (c ∷ name, t) ])
with_char-Fits room c none fits = tt
with_char-Fits room c (some (name, t)) fits = omega arith

copy_name-Fits : (room : ℕ) (s : List ℕ) → Fits room (copy_name room s)
unfolding copy_name
copy_name-Fits zero s = elim (Bool-cases (get_or s 0 0 == b',')) [
  | inl comma ↦ rw comma (omega arith)
  | inr other ↦ rw other tt
]
copy_name-Fits (suc room) [] = tt
copy_name-Fits (suc room) (c ∷ s) =
    let fits = with_char-Fits room c (copy_name room s) (copy_name-Fits room s) in
    elim (Bool-cases (c == 0)) [
      | inl ends ↦ rw ends tt
      | inr goes ↦ rw goes (elim (Bool-cases (c == b',')) [
        | inl comma ↦ rw comma (omega arith)
        | inr other ↦ rw other fits
      ])
    ]

abbrev Words : List ℕ → Type 0
Words vs = All (λ v. v < 2 ^ 32) vs

abbrev AllWords : Option (List ℕ) → Type 0
AllWords none = Unit {0}
AllWords (some vs) = Words vs

with_value-AllWords :
    (v : ℕ) (rest : Option (List ℕ))
    → AllWords rest
    → AllWords (elim rest [ none ↦ none | some vs ↦ some (u32 v ∷ vs) ])
with_value-AllWords v none words = tt
with_value-AllWords v (some vs) words = (omega arith, words)

read_values-AllWords : (einval : Bool) (n : ℕ) (s : List ℕ) → AllWords (read_values einval n s)
unfolding read_values
read_values-AllWords einval zero s = tt
read_values-AllWords einval (suc n) s =
    let number = strtoul (drop 1 s) 0 in
    let rest = with_value-AllWords number.value _ (read_values-AllWords einval n number.end) in
    elim (Bool-cases (u32 number.value == 0 && (not number.found && einval))) [
      | inl missing ↦ rw missing tt
      | inr found ↦ rw found rest
    ]

get_or-Words : (vs : List ℕ) (i : ℕ) → Words vs → get_or vs i 0 < 2 ^ 32
get_or-Words [] i words = omega arith
get_or-Words (v ∷ vs) zero (word, words) = word
get_or-Words (v ∷ vs) (suc i) (word, words) = get_or-Words vs i words

-- The part has the identifier, a name that fits its buffer, and values of 32 bits.
abbrev pub IsSound : ℕ → Option PartDesc → Type 0
IsSound dev_id none = Unit {0}
IsSound dev_id (some p) =
    (p.part_id ≡ dev_id) × (length p.name ≤ 25) × (All (λ v. v < 2 ^ 32) (values_of p))

part_from-Words : (id : ℕ) (name vs : List ℕ) → Words vs → Words (values_of (part_from id name vs))
part_from-Words id name vs words = (
  get_or-Words vs 0 words,
  (
    get_or-Words vs 1 words,
    (
      get_or-Words vs 2 words,
      (
        get_or-Words vs 3 words,
        (
          get_or-Words vs 4 words,
          (
            get_or-Words vs 5 words,
            (get_or-Words vs 6 words, (get_or-Words vs 7 words, (get_or-Words vs 8 words, tt))),
          ),
        ),
      ),
    ),
  ),
)

with_values-IsSound :
    (id : ℕ) (name : List ℕ) (read : Option (List ℕ))
    → length name ≤ 25
    → AllWords read
    → IsSound id
        (elim read [ none ↦ none | some part_values ↦ some (part_from id name part_values) ])
with_values-IsSound id name none fits words = tt
with_values-IsSound id name (some part_values) fits words =
    (refl, fits, part_from-Words id name part_values words)

with_name-IsSound :
    (einval : Bool) (id : ℕ) (copied : Option (List ℕ × List ℕ))
    → Fits 25 copied
    → IsSound id (elim copied [
      | none ↦ none
      | some (name, t) ↦ elim (read_values einval 9 t) [
        | none ↦ none
        | some part_values ↦ some (part_from id name part_values)
      ]
    ])
with_name-IsSound einval id none fits = tt
with_name-IsSound einval id (some (name, t)) fits =
    with_values-IsSound id name (read_values einval 9 t) fits (read_values-AllWords einval 9 t)

read_part-IsSound : (einval : Bool) (id : ℕ) (endp : List ℕ) → IsSound id (read_part einval id endp)
unfolding read_part
read_part-IsSound einval id endp =
    with_name-IsSound einval id _ (copy_name-Fits 25 (skip_to_name endp))

find_in_lines-IsSound :
    (einval : Bool) (behind : ℕ → List ℕ) (dev_id : ℕ) (ls : List (List ℕ)) (n : ℕ)
    → IsSound dev_id (find_in_lines einval behind dev_id ls n)
unfolding find_in_lines
find_in_lines-IsSound einval behind dev_id [] n = tt
find_in_lines-IsSound einval behind dev_id (l ∷ ls) n =
    let b = buf behind (n + 1) l in
    let number = strtoul b 0 in
    let later = find_in_lines-IsSound einval behind dev_id ls (n + 1) in
    elim (Bool-cases (get_or b 0 0 == b'#' || get_or b 0 0 == b'\n')) [
      | inl skipped ↦ rw skipped later
      | inr table ↦ rw table (elim (Bool-cases (number.value == dev_id)) [
        | inr other ↦ rw other later
        | inl same ↦ rw same (
            subst (λ id. IsSound id (read_part einval number.value number.end))
              ((==_iff number.value dev_id).0 same)
              (read_part-IsSound einval number.value number.end))
      ])
    ]

-- On every file, a part that find_part_in_file returns has the identifier that was asked for, a name
-- of at most 25 characters, which its buffer holds, and values below 2 ^ 32.
pub find_part_in_file-IsSound :
    (einval : Bool) (behind : ℕ → List ℕ) (dev_id : ℕ) (file : Option (List ℕ))
    → IsSound dev_id (find_part_in_file einval behind dev_id file)
unfolding find_part_in_file
find_part_in_file-IsSound einval behind dev_id none = tt
find_part_in_file-IsSound einval behind dev_id (some text) =
    find_in_lines-IsSound einval behind dev_id (file_lines text) 0

read_values_always : (n : ℕ) (s : List ℕ) → (vs : List ℕ) × (read_values false n s ≡ some vs)
unfolding read_values
read_values_always zero s = ([], refl)
read_values_always (suc n) s =
    let number = strtoul (drop 1 s) 0 in
    let (vs, e) = read_values_always n number.end in (u32 number.value ∷ vs, rw e (ground arith))

-- Where strtoul does not set EINVAL for a missing number, a line whose name is followed by a comma
-- always gives a part, however few values follow.
pub read_part_always :
    (id : ℕ) (endp name t : List ℕ)
    → copy_name part_name_length (skip_to_name endp) ≡ some (name, t)
    → (vs : List ℕ) × (read_part false id endp ≡ some (part_from id name vs))
unfolding read_part
read_part_always id endp name t copied =
    let (vs, e) = read_values_always 9 t in (vs, rw (copied, e, read_part) refl)
