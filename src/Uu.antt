-- ===== src/Uu.antt =====
-- isp_utils.c: isp_uu_encode and isp_uu_decode. A `char *` is a function from offsets to bytes; `char`
-- is signed. What the code appends to `dest` is a list, and its new size is that list's length.
pub mod Chars
pub mod Encode
pub mod Decode
pub mod Corrupt
mod Line
pub mod RoundTrip
mod Runs
use lpctools.Base.{
  ℕ, zero, suc, ◌+◌, ◌-◌, ◌*◌, ◌/◌, ◌%◌, ◌^◌, Bool, true, false, ◌||◌, Option, none, some, List, [],
  ◌∷◌, ◌++◌, bit_and, bit_or, ltb, leb, ◌==◌, if◌then◌else◌, Mem, ◌<<<◌, ◌>>>◌, u8, add32, sub32,
}

-- UUENCODE_ADDED_VAL, UUENCODE_ZERO and LINE_DATA_LENGTH_MAX.
abbrev pub uuencode_added_val : ℕ
uuencode_added_val = 32

abbrev pub uuencode_zero : ℕ
uuencode_zero = 96

abbrev pub line_data_length_max : ℕ
line_data_length_max = 45

abbrev pub cr : ℕ
cr = 13

abbrev pub lf : ℕ
lf = 10

-- The loop over j that gathers three bytes, with the `break` behind the read.
gather : ℕ → Mem → ℕ → ℕ → ℕ → ℕ → ℕ → ℕ
gather zero src pos line_length i j t = t
gather (suc n) src pos line_length i j t =
    let t' = bit_or t (bit_and (src (pos + i + j)) 0xFF <<< (8 * (2 - j))) in
    let rest = gather n src pos line_length i (j + 1) t' in
    if ltb line_length (i + j) then t' else rest

pub triplet : Mem → ℕ → ℕ → ℕ → ℕ
unfolding gather
triplet src pos line_length i = gather 3 src pos line_length i 0 0

-- One of the four characters of a triplet.
pub quartet_char : ℕ → ℕ → ℕ
quartet_char t j =
    let c = bit_and (t >>> (6 * (3 - j))) 0x3F in
    if c == 0 then uuencode_zero else u8 (c + uuencode_added_val)

pub quartet : ℕ → List ℕ
quartet t = quartet_char t 0 ∷ quartet_char t 1 ∷ quartet_char t 2 ∷ quartet_char t 3 ∷ []

-- while (i < line_length): `line_length` rounds are enough.
pub encode_line : ℕ → Mem → ℕ → ℕ → ℕ → List ℕ
encode_line zero src pos line_length i = []
encode_line (suc fuel) src pos line_length i =
    let rest = encode_line fuel src pos line_length (i + 3) in
    if ltb i line_length then quartet (triplet src pos line_length i) ++ rest else []

abbrev pub line_size : ℕ → ℕ → ℕ
line_size pos orig_size =
    if ltb line_data_length_max (orig_size - pos) then line_data_length_max else orig_size - pos

-- while (pos < orig_size): `orig_size` rounds are enough.
pub encode_lines : ℕ → Mem → ℕ → ℕ → List ℕ
encode_lines zero src orig_size pos = []
encode_lines (suc fuel) src orig_size pos =
    let n = line_size pos orig_size in
    let rest = encode_lines fuel src orig_size (pos + n) in
    if ltb pos orig_size
    then (n + uuencode_added_val) ∷ (encode_line n src pos n 0 ++ (cr ∷ lf ∷ rest))
    else []

unfoldable pub uu_encode : Mem → ℕ → List ℕ
unfolding encode_lines encode_line quartet quartet_char triplet
uu_encode src orig_size = encode_lines orig_size src orig_size 0

-- `src[pos] - UUENCODE_ADDED_VAL` as an unsigned int: a byte from 128 on is a negative `char`.
pub line_length_of : ℕ → ℕ
line_length_of b =
    if ltb (u8 b) 128
    then sub32 (u8 b) uuencode_added_val
    else sub32 (u8 b) (256 + uuencode_added_val)

-- `src[pos] < UUENCODE_ADDED_VAL`
abbrev pub is_below_added_val : ℕ → Bool
is_below_added_val b = ltb (u8 b) uuencode_added_val || leb 128 (u8 b)

-- The loop over j that gathers the bits of four characters.
gather_bits : ℕ → Mem → ℕ → ℕ → ℕ → ℕ
gather_bits zero src pos j t = t
gather_bits (suc n) src pos j t =
    let q = u8 (src (pos + j) + 256 - uuencode_added_val) in
    gather_bits n src pos (j + 1) (bit_or t (bit_and q 0x3F <<< ((3 - j) * 6)))

pub quartet_bits : Mem → ℕ → ℕ
unfolding gather_bits
quartet_bits src pos = gather_bits 4 src pos 0 0

-- The loop that stores the bytes j - 1, ..., 0 of a triplet, and stops at the line's length.
pub store_bytes : ℕ → ℕ → ℕ → ℕ → List ℕ × ℕ
store_bytes zero t line_length i = ([], i)
store_bytes (suc j) t line_length i =
    let b = bit_and (t >>> (j * 8)) 0xFF in
    let rest = store_bytes j t line_length (i + 1) in
    if leb line_length (i + 1) then (b ∷ [], i + 1) else (b ∷ rest.0, rest.1)

-- while (i < line_length): each round stores a byte, so `line_length` rounds are enough.
pub decode_line : ℕ → Mem → ℕ → ℕ → ℕ → List ℕ × ℕ
decode_line zero src line_length i pos = ([], pos)
decode_line (suc fuel) src line_length i pos =
    let stored = store_bytes 3 (quartet_bits src pos) line_length i in
    let rest = decode_line fuel src line_length stored.1 (add32 pos 4) in
    if ltb i line_length then (stored.0 ++ rest.0, rest.1) else ([], pos)

-- The loop that looks for the next line.
pub next_line : ℕ → Mem → ℕ → ℕ → ℕ
next_line zero src orig_size pos = pos
next_line (suc fuel) src orig_size pos =
    let rest = next_line fuel src orig_size (add32 pos 1) in
    if is_below_added_val (src pos) then if ltb pos orig_size then rest else pos else pos

abbrev pub append_to : List ℕ → Option (List ℕ) → Option (List ℕ)
append_to xs none = none
append_to xs (some ys) = some (xs ++ ys)

-- while (pos < orig_size), on fuel; `none` means that the fuel ran out.
pub decode_lines : ℕ → Mem → ℕ → ℕ → Option (List ℕ)
decode_lines zero src orig_size pos = none
decode_lines (suc fuel) src orig_size pos =
    let n = line_length_of (src pos) in
    let line = decode_line n src n 0 (add32 pos 1) in
    let rest = decode_lines fuel src orig_size (next_line orig_size src orig_size line.1) in
    if ltb pos orig_size
    then if src pos == uuencode_zero then some [] else append_to line.0 rest
    else some []

unfoldable pub uu_decode : Mem → ℕ → Option (List ℕ)
unfolding decode_lines next_line decode_line store_bytes quartet_bits line_length_of
uu_decode src orig_size = decode_lines (suc orig_size) src orig_size 0
