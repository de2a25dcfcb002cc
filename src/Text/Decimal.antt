-- ===== src/Text/Decimal.antt =====
-- Numbers printed by %u and read by strtoul.
use native.Mathlib.Nat.{pow-suc}
use lpctools.Base.{
  ℕ, zero, suc, ◌+◌, ◌*◌, ◌/◌, ◌%◌, ◌^◌, ◌≤◌, ◌<◌, ◌≡◌, refl, ap, ◌∙◌, arith, List, [], ◌∷◌, ◌++◌,
  true, false, none, some, length, All, inl, inr, Bool-cases, ltb, ltb→lt, ltb→le, ◌==◌, lt→ltb,
  le→ltb,
}
use lpctools.Text.{
  scan_digits, digit_in, digit_value, print_digits, print_u, strtoul, is_digit, number_base,
  parse_digits, skip_spaces, parse_sign, is_space, is_digit_in, clamp_ulong, ulong_max,
}

digit_in-digit : (d : ℕ) → d < 10 → digit_in 10 (b'0' + d) ≡ some d
unfolding digit_value
digit_in-digit d h = ground arith

digit_in_other : (c : ℕ) → is_digit c ≡ false → digit_in 10 c ≡ none
unfolding digit_value
digit_in_other c h = ground arith

scan_digits-cons :
    (acc d : ℕ) (s : List ℕ)
    → d < 10
    → scan_digits 10 acc ((b'0' + d) ∷ s) ≡ scan_digits 10 (acc * 10 + d) s
unfolding scan_digits
scan_digits-cons acc d s h = rw (digit_in-digit d h, scan_digits)

scan_digits_stop :
    (acc c : ℕ) (s : List ℕ) → is_digit c ≡ false → scan_digits 10 acc (c ∷ s) ≡ (acc, c ∷ s)
unfolding scan_digits
scan_digits_stop acc c s h = rw (digit_in_other c h, scan_digits)

scan_digits-print_digits :
    (fuel n : ℕ) (out : List ℕ)
    → n < 10 ^ fuel
    → 0 < fuel
    → scan_digits 10 0 (print_digits fuel n out) ≡ scan_digits 10 n out
unfolding print_digits
scan_digits-print_digits zero n out h f = absurd (omega arith)
scan_digits-print_digits (suc fuel) n out h f = elim (Bool-cases (ltb n 10)) [
  | inl last ↦ rw last (
      scan_digits-cons 0 n out (ltb→lt n 10 last)
      ∙ ap (λ (x : ℕ). scan_digits 10 x out) (omega arith))
  | inr more ↦
      let big = ltb→le n 10 more in
      rw more (
        scan_digits-print_digits fuel (n / 10) ((b'0' + n % 10) ∷ out)
          (omega (arith, pow-suc 10 fuel)) (enough fuel big h)
        ∙ scan_digits-cons (n / 10) (n % 10) out (omega arith)
        ∙ ap (λ (x : ℕ). scan_digits 10 x out) (omega arith))
]
  where
    enough : (f : ℕ) → 10 ≤ n → n < 10 ^ suc f → 0 < f
    enough zero big small = omega arith
    enough (suc f) big small = omega arith

print_digits-append :
    (fuel n : ℕ) (out s : List ℕ) → print_digits fuel n out ++ s ≡ print_digits fuel n (out ++ s)
unfolding print_digits
print_digits-append zero n out s = refl
print_digits-append (suc fuel) n out s = elim (Bool-cases (ltb n 10)) [
  | inl last ↦ rw last
  | inr more ↦ rw more (print_digits-append fuel (n / 10) ((b'0' + n % 10) ∷ out) s)
]

-- The first character is a digit, so that neither spaces nor a sign are taken off.
print_digits_first :
    (fuel n : ℕ) (out : List ℕ)
    → n < 10 ^ fuel
    → 0 < fuel
    → (d : ℕ) × (s : List ℕ) × (d < 10) × (print_digits fuel n out ≡ (b'0' + d) ∷ s)
unfolding print_digits
print_digits_first zero n out h f = absurd (omega arith)
print_digits_first (suc zero) n out h f = (n, out, omega arith, rw (lt→ltb n 10 (omega arith)))
print_digits_first (suc (suc fuel)) n out h f = elim (Bool-cases (ltb n 10)) [
  | inl last ↦ (n, out, ltb→lt n 10 last, rw last)
  | inr more ↦
      let (d, s, small, e) =
        print_digits_first (suc fuel) (n / 10) ((b'0' + n % 10) ∷ out)
          (omega (arith, pow-suc 10 (suc fuel))) (omega arith) in
      (d, s, small, rw more e)
]

number_base-ten : (s : List ℕ) → number_base 10 s ≡ (10, s)
unfolding number_base
number_base-ten [] = refl
number_base-ten (c ∷ []) = refl
number_base-ten (c ∷ x ∷ []) = refl
number_base-ten (c ∷ x ∷ d ∷ s) = ground arith

is_digit_in-digit : (d : ℕ) → d < 10 → is_digit_in 10 (b'0' + d) ≡ true
is_digit_in-digit d h = rw (digit_in-digit d h, is_digit_in)

strtoul_ten :
    (d : ℕ) (s : List ℕ)
    → d < 10
    → strtoul ((b'0' + d) ∷ s) 10 ≡ record {
      value = clamp_ulong (scan_digits 10 0 ((b'0' + d) ∷ s)).0;
      end = (scan_digits 10 0 ((b'0' + d) ∷ s)).1;
      found = true;
    }
unfolding strtoul skip_spaces parse_sign parse_digits
strtoul_ten d s h =
    let no_space : is_space (b'0' + d) ≡ false = ground arith in
    let no_minus : ((b'0' + d) == b'-') ≡ false = ground arith in
    let no_plus : ((b'0' + d) == b'+') ≡ false = ground arith in
    rw (no_space, no_minus, no_plus, number_base-ten ((b'0' + d) ∷ s), is_digit_in-digit d h)

-- A number below 2 ^ 32, printed and read in base 10, is itself, and the reading stops behind it.
pub strtoul-print_u :
    (n c : ℕ) (s : List ℕ)
    → n < 2 ^ 32
    → is_digit c ≡ false
    → strtoul (print_u n ++ (c ∷ s)) 10 ≡ record { value = n; end = c ∷ s; found = true }
unfolding print_u
strtoul-print_u n c s small stop =
    let (d, t, h, e) = print_digits_first 10 n (c ∷ s) (omega arith) (omega arith) in
    let read = scan_digits-print_digits 10 n (c ∷ s) (omega arith) (omega arith) in
    rw (
      print_digits-append 10 n [] (c ∷ s),
      e,
      strtoul_ten d t h,
      ← e,
      read,
      scan_digits_stop n c s stop,
      le→ltb ulong_max n (omega arith),
    )

pub print_u_digit : (n : ℕ) → n < 10 → print_u n ≡ (b'0' + n) ∷ []
unfolding print_u
print_u_digit n small = rw (lt→ltb n 10 small) refl

print_digits-length :
    (fuel n : ℕ) (out : List ℕ) → length (print_digits fuel n out) ≤ fuel + length out
unfolding print_digits
print_digits-length zero n out = omega arith
print_digits-length (suc fuel) n out =
    ground (arith, print_digits-length fuel (n / 10) ((b'0' + n % 10) ∷ out))

pub print_u-length : (n : ℕ) → length (print_u n) ≤ 10
unfolding print_u
print_u-length n = omega (arith, print_digits-length 10 n [])

print_digits-length_small :
    (k fuel n : ℕ) (out : List ℕ)
    → n < 10 ^ k
    → 0 < k
    → length (print_digits fuel n out) ≤ k + length out
unfolding print_digits
print_digits-length_small k zero n out small some_digits = omega arith
print_digits-length_small zero (suc fuel) n out small some_digits = absurd (omega arith)
print_digits-length_small (suc zero) (suc fuel) n out small some_digits =
    rw (lt→ltb n 10 (omega arith)) (omega arith)
print_digits-length_small (suc (suc k)) (suc fuel) n out small some_digits = ground (
  arith,
  pow-suc 10 (suc k),
  print_digits-length_small (suc k) fuel (n / 10) ((b'0' + n % 10) ∷ out)
      (omega (arith, pow-suc 10 (suc k))) (omega arith),
)

-- A number below 10 ^ k has at most k digits.
pub print_u-length_small : (k n : ℕ) → n < 10 ^ k → 0 < k → length (print_u n) ≤ k
unfolding print_u
print_u-length_small k n small some_digits =
    omega (arith, print_digits-length_small k 10 n [] small some_digits)

print_digits-digits :
    (fuel n : ℕ) (out : List ℕ)
    → All (λ c. is_digit c ≡ true) out
    → All (λ c. is_digit c ≡ true) (print_digits fuel n out)
unfolding print_digits
print_digits-digits zero n out digits = digits
print_digits-digits (suc fuel) n out digits = elim (Bool-cases (ltb n 10)) [
  | inl last ↦ rw last (ground arith, digits)
  | inr more ↦
      rw more (print_digits-digits fuel (n / 10) ((b'0' + n % 10) ∷ out) (ground arith, digits))
]

-- Only digits are printed.
pub print_u-digits : (n : ℕ) → All (λ c. is_digit c ≡ true) (print_u n)
unfolding print_u
print_u-digits n = print_digits-digits 10 n [] tt

-- At least one digit is printed.
pub print_u_some : (n : ℕ) → n < 2 ^ 32 → 0 < length (print_u n)
unfolding print_u
print_u_some n small =
    let (d, s, h, e) = print_digits_first 10 n [] (omega arith) (omega arith) in rw e (omega arith)
