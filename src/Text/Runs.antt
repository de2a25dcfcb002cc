-- ===== src/Text/Runs.antt =====
-- Runs of the text functions.
use lpctools.Base.{◌≡◌, refl, true, codes, arith, [], ◌∷◌, ◌++◌}
use lpctools.Text.Decimal.{strtoul-print_u}
use lpctools.Text.{
  strtoul, parse_sign, parse_digits, skip_spaces, number_base, scan_digits, digit_value, print_u,
}

hex_number :
    strtoul (codes " 0x3642C02B, LPC") 0
    ≡ record { value = 0x3642C02B; end = codes ", LPC"; found = true }
unfolding strtoul parse_sign parse_digits skip_spaces number_base scan_digits digit_value
hex_number = refl

print_1260 : print_u 1260 ≡ codes "1260"
unfolding print_u
print_1260 = refl

read_back_largest :
    strtoul (print_u 4294967295 ++ (13 ∷ 10 ∷ [])) 10
    ≡ record { value = 4294967295; end = 13 ∷ 10 ∷ []; found = true }
read_back_largest = strtoul-print_u 4294967295 13 (10 ∷ []) (omega arith) (ground arith)
