-- ===== src/Text/Hex.antt =====
-- Numbers printed by 0x%08x and read by strtoul in base 0.
use native.Mathlib.Nat.{pow-suc}
use lpctools.Base.{
  ℕ, zero, suc, ◌+◌, ◌-◌, ◌*◌, ◌/◌, ◌%◌, ◌^◌, ◌≤◌, ◌<◌, ◌≡◌, refl, sym, ap, ◌∙◌, arith, List, [],
  ◌∷◌, ◌++◌, true, none, some, length, All, ltb, le→ltb, if◌then◌else◌,
}
use lpctools.Text.{
  scan_digits, digit_in, digit_value, strtoul, number_base, parse_digits, skip_spaces, parse_sign,
  is_digit_in, ulong_max,
}

abbrev hex_char : ℕ → ℕ
hex_char d = if ltb d 10 then b'0' + d else b'a' + (d - 10)

unfoldable pub hex_digits : ℕ → ℕ → List ℕ → List ℕ
hex_digits zero n out = out
hex_digits (suc k) n out = hex_digits k (n / 16) (hex_char (n % 16) ∷ out)

-- 0x%08x, for a number below 2 ^ 32.
unfoldable pub print_x : ℕ → List ℕ
unfolding hex_digits
print_x n = b'0' ∷ b'x' ∷ hex_digits 8 n []

digit_in-hex_char : (d : ℕ) → d < 16 → digit_in 16 (hex_char d) ≡ some d
unfolding digit_value
digit_in-hex_char d h = ground arith

scan_digits-hex_char :
    (acc d : ℕ) (s : List ℕ)
    → d < 16
    → scan_digits 16 acc (hex_char d ∷ s) ≡ scan_digits 16 (acc * 16 + d) s
unfolding scan_digits
scan_digits-hex_char acc d s h = rw (digit_in-hex_char d h, scan_digits)

scan_digits_stop :
    (acc c : ℕ) (s : List ℕ) → digit_in 16 c ≡ none → scan_digits 16 acc (c ∷ s) ≡ (acc, c ∷ s)
unfolding scan_digits
scan_digits_stop acc c s h = rw (h, scan_digits)

scan_digits-hex_digits :
    (k n : ℕ) (out : List ℕ)
    → n < 16 ^ k
    → scan_digits 16 0 (hex_digits k n out) ≡ scan_digits 16 n out
unfolding hex_digits
scan_digits-hex_digits zero n out h = ap (λ (x : ℕ). scan_digits 16 x out) (omega arith)
scan_digits-hex_digits (suc k) n out h =
    scan_digits-hex_digits k (n / 16) (hex_char (n % 16) ∷ out) (omega (arith, pow-suc 16 k))
    ∙ scan_digits-hex_char (n / 16) (n % 16) out (omega arith)
    ∙ ap (λ (x : ℕ). scan_digits 16 x out) (omega arith)

hex_digits-append : (k n : ℕ) (out s : List ℕ) → hex_digits k n out ++ s ≡ hex_digits k n (out ++ s)
unfolding hex_digits
hex_digits-append zero n out s = refl
hex_digits-append (suc k) n out s = hex_digits-append k (n / 16) (hex_char (n % 16) ∷ out) s

-- The first digit, and whatever follows it.
hex_digits_first :
    (k n : ℕ) (out : List ℕ)
    → (d : ℕ) × (s : List ℕ) × (d < 16) × (hex_digits (suc k) n out ≡ hex_char d ∷ s)
unfolding hex_digits
hex_digits_first zero n out = (n % 16, out, omega arith, refl)
hex_digits_first (suc k) n out = hex_digits_first k (n / 16) (hex_char (n % 16) ∷ out)

hex_digits-All :
    (P : ℕ → Type 0)
    → ((d : ℕ) → d < 16 → P (hex_char d))
    → (k n : ℕ) (out : List ℕ) → All P out
    → All P (hex_digits k n out)
unfolding hex_digits
hex_digits-All P each zero n out rest = rest
hex_digits-All P each (suc k) n out rest =
    hex_digits-All P each k (n / 16) (hex_char (n % 16) ∷ out) (each (n % 16) (omega arith), rest)

-- The printed characters lie between 0 and x.
pub print_x-All : (n : ℕ) → All (λ c. (b'0' ≤ c) × (c ≤ b'x')) (print_x n)
unfolding print_x
print_x-All n = (
  omega arith,
  (omega arith, hex_digits-All (λ c. (b'0' ≤ c) × (c ≤ b'x')) (λ d h. ground arith) 8 n [] tt),
)

pub print_x-length : (n : ℕ) → length (print_x n) ≡ 10
unfolding print_x hex_digits
print_x-length n = refl

is_digit_in-hex_char : (d : ℕ) → d < 16 → is_digit_in 16 (hex_char d) ≡ true
is_digit_in-hex_char d h = rw (digit_in-hex_char d h, is_digit_in)

number_base_hex :
    (d : ℕ) (s : List ℕ)
    → d < 16
    → number_base 0 (b'0' ∷ b'x' ∷ hex_char d ∷ s) ≡ (16, hex_char d ∷ s)
unfolding number_base
number_base_hex d s h = rw (is_digit_in-hex_char d h) refl

parse_sign_hex :
    (whole : List ℕ) (d : ℕ) (s : List ℕ)
    → d < 16
    → (scan_digits 16 0 (hex_char d ∷ s)).0 < 2 ^ 32
    → parse_sign 0 whole (b'0' ∷ b'x' ∷ hex_char d ∷ s) ≡ record {
      value = (scan_digits 16 0 (hex_char d ∷ s)).0;
      end = (scan_digits 16 0 (hex_char d ∷ s)).1;
      found = true;
    }
unfolding parse_sign parse_digits digit_value
parse_sign_hex whole d s h small =
    let (n, t) = scan_digits 16 0 (hex_char d ∷ s) in
    rw (number_base_hex d s h, le→ltb ulong_max n (omega arith)) refl

-- Behind any white space, a number below 2 ^ 32 that was printed is read, up to the character behind it.
pub strtoul-print_x :
    (whole : List ℕ) (n c : ℕ) (s : List ℕ)
    → n < 2 ^ 32
    → digit_in 16 c ≡ none
    → skip_spaces whole ≡ print_x n ++ (c ∷ s)
    → strtoul whole 0 ≡ record { value = n; end = c ∷ s; found = true }
unfolding strtoul print_x
strtoul-print_x whole n c s small stop behind =
    let (d, t, h, e) = hex_digits_first 7 n (c ∷ s) in
    let read : scan_digits 16 0 (hex_char d ∷ t) ≡ (n, c ∷ s) =
      ap (λ (x : List ℕ). scan_digits 16 0 x) (sym e)
      ∙ scan_digits-hex_digits 8 n (c ∷ s) (omega arith)
      ∙ scan_digits_stop n c s stop in
    rw (behind, hex_digits-append 8 n [] (c ∷ s), e)
      (parse_sign_hex whole d t h (rw read small) ∙ rw read refl)
