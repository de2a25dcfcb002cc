-- ===== src/Parts/Format.antt =====
-- The parts description file as parts.c expects it: a table of parts, comments and empty lines.
use lpctools.Base.{
  ℕ, ◌-◌, ◌^◌, ◌≤◌, ◌<◌, ◌≡◌, refl, arith, List, [], ◌∷◌, ◌++◌, false, Option, none, some, length,
  length-append, All-append, ◌*◌, All, ◌==◌, get_or, if◌then◌else◌,
}
use lpctools.Text.Hex.{print_x, print_x-length, print_x-All}
use lpctools.Parts.{PartDesc, fgets_from, file_lines}

-- A line of the file.
pub data Entry : Type 0 where
  comment : List ℕ → Entry
  blank : Entry
  part : PartDesc → Entry

abbrev pub values_of : PartDesc → List ℕ
values_of p =
    p.flash_base ∷ p.flash_size ∷ p.flash_nb_sectors ∷ p.reset_vector_offset ∷ p.ram_base
    ∷ p.ram_size ∷ p.ram_buff_offset ∷ p.ram_buff_size ∷ p.uuencode ∷ []

unfoldable pub print_values : List ℕ → List ℕ
print_values [] = []
print_values (v ∷ vs) = b',' ∷ b' ' ∷ (print_x v ++ print_values vs)

-- 0x%08x, NAME, 0x%08x, ...
unfoldable pub entry_line : Entry → List ℕ
unfolding print_values
entry_line (comment text) = b'#' ∷ text
entry_line blank = []
entry_line (part p) = print_x p.part_id ++ b',' ∷ b' ' ∷ (p.name ++ print_values (values_of p))

unfoldable pub print_file : List Entry → List ℕ
unfolding entry_line
print_file [] = []
print_file (e ∷ es) = entry_line e ++ b'\n' ∷ print_file es

-- The first part with the identifier.
unfoldable pub lookup_part : ℕ → List Entry → Option PartDesc
lookup_part dev_id [] = none
lookup_part dev_id (part p ∷ es) =
    let rest = lookup_part dev_id es in if p.part_id == dev_id then some p else rest
lookup_part dev_id (comment text ∷ es) = lookup_part dev_id es
lookup_part dev_id (blank ∷ es) = lookup_part dev_id es

abbrev pub NoNewline : ℕ → Type 0
NoNewline c = (c == b'\n') ≡ false

abbrev pub IsNameChar : ℕ → Type 0
IsNameChar c = ((c == 0) ≡ false) × ((c == b',') ≡ false) × ((c == b'\n') ≡ false)

-- A comment fits a buffer of 250 bytes; a part has a name of at most 25 characters that starts with an L,
-- and values of 32 bits.
abbrev pub IsEntry : Entry → Type 0
IsEntry (comment text) = All NoNewline text × (length text < 248)
IsEntry blank = Unit {0}
IsEntry (part p) =
    (p.part_id < 2 ^ 32)
    × (get_or p.name 0 0 ≡ b'L')
    × (length p.name ≤ 25)
    × (All IsNameChar p.name)
    × (All (λ v. v < 2 ^ 32) (values_of p))

-- All of one predicate satisfy a weaker one.
All-weaken : (P Q : ℕ → Type 0) → ((c : ℕ) → P c → Q c) → (xs : List ℕ) → All P xs → All Q xs
All-weaken P Q f [] h = tt
All-weaken P Q f (x ∷ xs) (p, h) = (f x p, All-weaken P Q f xs h)

print_x-NoNewline : (n : ℕ) → All NoNewline (print_x n)
print_x-NoNewline n =
    All-weaken (λ c. (b'0' ≤ c) × (c ≤ b'x')) NoNewline (λ c h. ground arith) (print_x n)
      (print_x-All n)

fgets_from_line :
    (room : ℕ) (l s : List ℕ)
    → All NoNewline l
    → length l < room
    → fgets_from room (l ++ b'\n' ∷ s) ≡ (l ++ b'\n' ∷ []) ∷ file_lines s
unfolding fgets_from
fgets_from_line room [] s clean fits = refl
fgets_from_line room (c ∷ l) s (clear, clean) fits =
    let more : (room == 1) ≡ false = ground arith in
    rw (clear, more, fgets_from_line (room - 1) l s clean (omega arith))

print_values-NoNewline : (vs : List ℕ) → All NoNewline (print_values vs)
unfolding print_values
print_values-NoNewline [] = tt
print_values-NoNewline (v ∷ vs) = (
  refl,
  (
    refl,
    All-append NoNewline (print_x v) (print_values vs) (print_x-NoNewline v)
        (print_values-NoNewline vs),
  ),
)

length-print_values : (vs : List ℕ) → length (print_values vs) ≡ 12 * length vs
unfolding print_values
length-print_values [] = refl
length-print_values (v ∷ vs) =
    omega
      (arith, length-print_values vs, length-append (print_x v) (print_values vs), print_x-length v)

-- The line and its line end fit the buffer.
entry_line-fits :
    (e : Entry) → IsEntry e → All NoNewline (entry_line e) × (length (entry_line e) < 249)
unfolding entry_line
entry_line-fits (comment text) (clean, short) = ((refl, clean), omega arith)
entry_line-fits blank h = (tt, omega arith)
entry_line-fits (part p) (id, starts, fits, chars, small) =
    let values = print_values (values_of p) in
    let name = All-weaken IsNameChar NoNewline (λ c h. h.2) p.name chars in
    (
      All-append NoNewline (print_x p.part_id) _ (print_x-NoNewline p.part_id) (
        refl,
        (refl, All-append NoNewline p.name values name (print_values-NoNewline (values_of p))),
      ),
      omega (
        arith,
        print_x-length p.part_id,
        length-append (print_x p.part_id) (b',' ∷ b' ' ∷ (p.name ++ values)),
        length-append p.name values,
        length-print_values (values_of p),
      ),
    )

pub file_lines-print_file :
    (e : Entry) (es : List Entry)
    → IsEntry e
    → file_lines (print_file (e ∷ es)) ≡ (entry_line e ++ b'\n' ∷ []) ∷ file_lines (print_file es)
unfolding print_file
file_lines-print_file e es is =
    let (clean, fits) = entry_line-fits e is in
    fgets_from_line 249 (entry_line e) (print_file es) clean fits
