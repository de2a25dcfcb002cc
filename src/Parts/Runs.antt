-- ===== src/Parts/Runs.antt =====
-- find_part_in_file on concrete files.
use lpctools.Base.{ℕ, ◌≡◌, refl, List, [], ◌∷◌, none, some, true, false, codes}
use lpctools.Parts.{
  find_part_in_file, skip_to_name, copy_name, read_part, part_from, part_name_length,
}
use lpctools.Text.{
  strtoul, parse_sign, skip_spaces, parse_digits, digit_value, number_base, scan_digits,
}
use lpctools.Parts.Samples.{lpc1114, table, table-IsEntry}
use lpctools.Parts.Sound.{IsSound, find_part_in_file-IsSound, read_part_always}
use lpctools.Parts.Format.{print_file, lookup_part}
use lpctools.Parts.Lookup.{find_part_in_file-lookup_part}

find_part_in_file-lookup_part_example :
    find_part_in_file false (λ n. []) 0x2540102B (some (print_file table))
    ≡ lookup_part 0x2540102B table
find_part_in_file-lookup_part_example =
    find_part_in_file-lookup_part false (λ n. []) 0x2540102B table table-IsEntry

abbrev text : List ℕ
text = codes "#Parts\n\n0x2540102b, LPC1114,  0, 0x8000, 8, 4, 0x10000000, 0x2000,0x800, 1024, 1\n"

found_in_text : find_part_in_file false (λ n. []) 0x2540102B (some text) ≡ some lpc1114
unfolding find_part_in_file strtoul parse_sign skip_spaces parse_digits digit_value number_base
    scan_digits
found_in_text = refl

missing_in_text : find_part_in_file false (λ n. []) 1 (some text) ≡ none
unfolding find_part_in_file strtoul parse_sign skip_spaces parse_digits digit_value number_base
    scan_digits
missing_in_text = refl

find_part_in_file-IsSound_example :
    IsSound 0x2540102B (find_part_in_file true (λ n. b'7' ∷ []) 0x2540102B (some text))
find_part_in_file-IsSound_example =
    find_part_in_file-IsSound true (λ n. b'7' ∷ []) 0x2540102B (some text)

read_part_always_example :
    (vs : List ℕ) × (read_part false 5 (codes ", LPC5, 7\n") ≡ some (part_from 5 (codes "LPC5") vs))
unfolding copy_name skip_to_name
read_part_always_example =
    read_part_always 5 (codes ", LPC5, 7\n") (codes "LPC5") (codes ", 7\n") copied
  where
    copied :
        copy_name part_name_length (skip_to_name (codes ", LPC5, 7\n"))
        ≡ some (codes "LPC5", codes ", 7\n")
    copied = refl
