-- ===== src/Text.antt =====
-- The C library's text functions, as far as the program uses them: strtoul, the conversion %u of
-- snprintf, and strncmp. A text is the list of its bytes, and ends with the list or at a NUL.
pub mod Decimal
pub mod Hex
mod Runs
use lpctools.Base.{
  ℕ, zero, suc, ◌+◌, ◌-◌, ◌*◌, ◌/◌, ◌%◌, ◌^◌, Bool, true, false, ◌&&◌, ◌||◌, Option, none, some,
  List, [], ◌∷◌, ltb, leb, ◌==◌, if◌then◌else◌, ℤ, to_int, u32, get_or, drop,
}

-- isspace in the C locale.
abbrev pub is_space : ℕ → Bool
is_space c = c == 32 || (leb 9 c && leb c 13)

abbrev pub is_digit : ℕ → Bool
is_digit c = leb b'0' c && leb c b'9'

unfoldable pub skip_spaces : List ℕ → List ℕ
skip_spaces [] = []
skip_spaces (c ∷ s) = if is_space c then skip_spaces s else c ∷ s

-- The value of a character as a digit; letters count from 10.
unfoldable pub digit_value : ℕ → Option ℕ
digit_value c =
    if is_digit c
    then some (c - b'0')
    else if leb b'a' c && leb c b'z'
    then some (c - b'a' + 10)
    else if leb b'A' c && leb c b'Z'
    then some (c - b'A' + 10)
    else none

abbrev pub digit_in : ℕ → ℕ → Option ℕ
digit_in base c = elim (digit_value c) [
  | none ↦ none
  | some d ↦ if ltb d base then some d else none
]

-- The digits of the base, and what follows them.
unfoldable pub scan_digits : ℕ → ℕ → List ℕ → ℕ × List ℕ
scan_digits base acc [] = (acc, [])
scan_digits base acc (c ∷ s) = elim (digit_in base c) [
  | none ↦ (acc, c ∷ s)
  | some d ↦ scan_digits base (acc * base + d) s
]

abbrev pub is_digit_in : ℕ → ℕ → Bool
is_digit_in base c = elim (digit_in base c) [ none ↦ false | some d ↦ true ]

-- The base that 0 stands for, and the digits behind the prefix `0x`, if a digit follows it.
unfoldable pub number_base : ℕ → List ℕ → ℕ × List ℕ
number_base base (c ∷ x ∷ d ∷ s) =
    if c == b'0' && ((x == b'x' || x == b'X') && ((base == 0 || base == 16) && is_digit_in 16 d))
    then (16, d ∷ s)
    else ((if base == 0 then if c == b'0' then 8 else 10 else base), c ∷ x ∷ d ∷ s)
number_base base (c ∷ s) = ((if base == 0 then if c == b'0' then 8 else 10 else base), c ∷ s)
number_base base [] = (base, [])

abbrev pub ulong_max : ℕ
ulong_max = 2 ^ 64 - 1

abbrev pub clamp_ulong : ℕ → ℕ
clamp_ulong n = if ltb ulong_max n then ulong_max else n

-- What strtoul returns: the value, the text at `endptr`, and whether there was a number.
pub record Number : Type 0 where
  pub value : ℕ
  pub end : List ℕ
  pub found : Bool

unfoldable pub parse_digits : ℕ → List ℕ → List ℕ → Bool → Number
parse_digits base whole [] negative = record { value = 0; end = whole; found = false }
parse_digits base whole (c ∷ s) negative =
    let (b, t) = number_base base (c ∷ s) in
    let n = clamp_ulong (scan_digits b 0 t).0 in
    if is_digit_in b c
    then record {
      value = if negative && ltb n ulong_max then (2 ^ 64 - n) % 2 ^ 64 else n;
      end = (scan_digits b 0 t).1;
      found = true;
    }
    else record { value = 0; end = whole; found = false }

unfoldable pub parse_sign : ℕ → List ℕ → List ℕ → Number
parse_sign base whole [] = record { value = 0; end = whole; found = false }
parse_sign base whole (c ∷ s) =
    if c == b'-'
    then parse_digits base whole s true
    else if c == b'+'
    then parse_digits base whole s false
    else parse_digits base whole (c ∷ s) false

unfoldable pub strtoul : List ℕ → ℕ → Number
strtoul s base = parse_sign base s (skip_spaces s)

-- %u: an unsigned int has at most ten digits.
print_digits : ℕ → ℕ → List ℕ → List ℕ
print_digits zero n out = out
print_digits (suc fuel) n out =
    let rest = print_digits fuel (n / 10) ((b'0' + n % 10) ∷ out) in
    if ltb n 10 then (b'0' + n) ∷ out else rest

unfoldable pub print_u : ℕ → List ℕ
unfolding print_digits
print_u n = print_digits 10 n []

-- strncmp (a, b, n) == 0
unfoldable pub same_prefix : ℕ → List ℕ → List ℕ → Bool
same_prefix zero a b = true
same_prefix (suc n) [] [] = true
same_prefix (suc n) [] (y ∷ b) = y == 0
same_prefix (suc n) (x ∷ a) [] = x == 0
same_prefix (suc n) (x ∷ a) (y ∷ b) =
    let rest = same_prefix n a b in if x == y then if x == 0 then true else rest else false

-- atoi: (int)strtol(s, NULL, 10), with a long of 64 bits.
unfoldable pub atoi : List ℕ → ℤ
atoi s =
    let t = skip_spaces s in
    let negative = get_or t 0 0 == b'-' in
    let digits = (if negative || get_or t 0 0 == b'+' then drop 1 t else t) in
    let n = (scan_digits 10 0 digits).0 in
    if negative
    then to_int (u32 (2 ^ 64 - (if ltb (2 ^ 63) n then 2 ^ 63 else n)))
    else to_int (u32 (if leb (2 ^ 63) n then 2 ^ 63 - 1 else n))
