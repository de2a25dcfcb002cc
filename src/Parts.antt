-- ===== src/Parts.antt =====
-- parts.c, with the part descriptor of parts.h: the search for a part in the parts description file. The
-- file is the list of its bytes. Pointers have 64 bits, so that nine uint32_t follow the padding.
pub mod Format
pub mod Lookup
pub mod Sound
pub mod Samples
mod Runs
use lpctools.Base.{
  ℕ, zero, suc, ◌+◌, ◌-◌, ◌*◌, Bool, true, false, not, ◌&&◌, ◌||◌, Option, none, some, List, [],
  ◌∷◌, ◌++◌, drop, get_or, ◌==◌, if◌then◌else◌, u32,
}
use lpctools.Text.{strtoul}

-- struct part_desc
pub record PartDesc : Type 0 where
  pub part_id : ℕ
  -- the characters that are stored in the buffer of PART_NAME_LENGTH bytes
  pub name : List ℕ
  pub flash_base : ℕ
  pub flash_size : ℕ
  pub flash_nb_sectors : ℕ
  pub reset_vector_offset : ℕ
  pub ram_base : ℕ
  pub ram_size : ℕ
  pub ram_buff_offset : ℕ
  pub ram_buff_size : ℕ
  pub uuencode : ℕ

abbrev pub part_name_length : ℕ
part_name_length = 25

abbrev pub conf_read_buf_size : ℕ
conf_read_buf_size = 250

-- The number of values behind the name.
abbrev pub nval : ℕ
nval = 9

prepend : ℕ → List (List ℕ) → List (List ℕ)
prepend c [] = (c ∷ []) ∷ []
prepend c (l ∷ ls) = (c ∷ l) ∷ ls

-- What fgets stores on each of its calls up to the one that returns NULL. `room` bytes are left in the
-- buffer for the current line, without the NUL.
unfoldable pub fgets_from : ℕ → List ℕ → List (List ℕ)
unfolding prepend
fgets_from room [] = []
fgets_from room (c ∷ s) =
    let ends = c == b'\n' || room == 1 in
    let rest = fgets_from (if ends then conf_read_buf_size - 1 else room - 1) s in
    if ends then (c ∷ []) ∷ rest else prepend c rest

abbrev pub file_lines : List ℕ → List (List ℕ)
file_lines text = fgets_from (conf_read_buf_size - 1) text

-- Part names start with an L.
unfoldable pub skip_to_name : List ℕ → List ℕ
skip_to_name [] = []
skip_to_name (c ∷ s) =
    let rest = skip_to_name s in if not (c == 0) && not (c == b'L') then rest else c ∷ s

-- The loop that copies the name, with `room` characters of the name left, and the test behind it. The
-- result is the name and the text at `endp`; `none` is a malformed line.
unfoldable pub copy_name : ℕ → List ℕ → Option (List ℕ × List ℕ)
copy_name zero s = if not (get_or s 0 0 == b',') then none else some ([], s)
copy_name (suc room) [] = none
copy_name (suc room) (c ∷ s) =
    let rest = copy_name room s in
    if c == 0
    then none
    else if c == b','
    then some ([], c ∷ s)
    else elim rest [ none ↦ none | some (name, t) ↦ some (c ∷ name, t) ]

-- The loop that reads the values, `n` of them left. `einval` says whether strtoul sets errno to EINVAL
-- where it finds no number.
unfoldable pub read_values : Bool → ℕ → List ℕ → Option (List ℕ)
read_values einval zero s = some []
read_values einval (suc n) s =
    let number = strtoul (drop 1 s) 0 in
    let rest = read_values einval n number.end in
    let value = u32 number.value in
    if value == 0 && (not number.found && einval)
    then none
    else elim rest [ none ↦ none | some vs ↦ some (value ∷ vs) ]

abbrev pub part_from : ℕ → List ℕ → List ℕ → PartDesc
part_from part_id name part_values = record {
  part_id = part_id;
  name = name;
  flash_base = get_or part_values 0 0;
  flash_size = get_or part_values 1 0;
  flash_nb_sectors = get_or part_values 2 0;
  reset_vector_offset = get_or part_values 3 0;
  ram_base = get_or part_values 4 0;
  ram_size = get_or part_values 5 0;
  ram_buff_offset = get_or part_values 6 0;
  ram_buff_size = get_or part_values 7 0;
  uuencode = get_or part_values 8 0;
}

-- The rest of the loop's body for the line with the right part ID; `endp` is what strtoul left of it.
unfoldable pub read_part : Bool → ℕ → List ℕ → Option PartDesc
unfolding skip_to_name copy_name read_values
read_part einval part_id endp = elim (copy_name part_name_length (skip_to_name endp)) [
  | none ↦ none
  | some (name, t) ↦ elim (read_values einval nval t) [
    | none ↦ none
    | some part_values ↦ some (part_from part_id name part_values)
  ]
]

-- What buf holds: the line, its NUL, and what was there before, which may be any bytes.
abbrev pub buf : (ℕ → List ℕ) → ℕ → List ℕ → List ℕ
buf behind line text = text ++ 0 ∷ behind line

-- The while loop, from the line with the number `line` + 1 on.
unfoldable pub find_in_lines : Bool → (ℕ → List ℕ) → ℕ → List (List ℕ) → ℕ → Option PartDesc
unfolding read_part
find_in_lines einval behind dev_id [] line = none
find_in_lines einval behind dev_id (l ∷ ls) line =
    let b = buf behind (line + 1) l in
    let next = find_in_lines einval behind dev_id ls (line + 1) in
    if get_or b 0 0 == b'#' || get_or b 0 0 == b'\n'
    then next
    else (let number = strtoul b 0 in
        if not (number.value == dev_id) then next else read_part einval number.value number.end)

-- find_part_in_file; `none` as the file is one that cannot be opened, and `none` as the result is NULL.
unfoldable pub find_part_in_file : Bool → (ℕ → List ℕ) → ℕ → Option (List ℕ) → Option PartDesc
unfolding find_in_lines fgets_from
find_part_in_file einval behind dev_id none = none
find_part_in_file einval behind dev_id (some text) =
    find_in_lines einval behind dev_id (file_lines text) 0
